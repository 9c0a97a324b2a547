-- ===== src/Handshake/Parts.antt =====
-- Each message of the handshakes: its size, what sends it and what accepts it.
use amqplex.Base.{
  ℕ, ◌+◌, ◌-◌, ◌≤◌, ◌<◌, ◌≡◌, refl, arith, false, List, [], ◌∷◌, ◌++◌, length, ltb, drop,
  length-append, append_assoc, ==_refl, length-take, length-drop, le→leb,
}
use amqplex.Base.Words.{put_uint16, put_uint32}
use amqplex.Base.Result.{ok}
use amqplex.Frame.{max_frame_size, serialize_method_header}
use amqplex.Frame.Stream.{Writer, write}
use amqplex.Frame.RoundTrip.{
  frame_bytes, length-frame_bytes, parse_frame-frame_bytes, parse_method_header-serialize,
  write_frame_lem,
}
use amqplex.Wire.{serialize_short_string, serialize_long_string, serialize_empty_table}
use amqplex.Wire.RoundTrip.{parse_short_string-serialize}
use amqplex.Credentials.{
  plain, locale, serialize_connection_start_ok, serialize_connection_start_ok_response,
  parse_connection_open,
}
use amqplex.Handshake.{
  method_frame, expect_method, send_method, serialize_connection_tune_ok, serialize_connection_open,
  serialize_connection_tune_payload,
}

-- The writer once it has taken `bs`.
abbrev pub appended : Writer → List ℕ → Writer
appended w bs = record { written = w.written ++ bs; room = w.room - length bs }

pub appended_twice :
    (w : Writer) (xs ys : List ℕ) → appended (appended w xs) ys ≡ appended w (xs ++ ys)
appended_twice w xs ys = ground (arith, append_assoc w.written xs ys, length-append xs ys)

pub write-appended :
    (w : Writer) (bs : List ℕ) → length bs ≤ w.room → write w bs ≡ ok (appended w bs)
unfolding write
write-appended w bs h = rw (le→leb (length bs) w.room h) refl

-- The bytes of a method on channel 0, and the room that they take.
abbrev pub method_bytes : List ℕ → List ℕ
method_bytes payload = frame_bytes (method_frame payload)

pub length-method_bytes : (payload : List ℕ) → length (method_bytes payload) ≡ length payload + 8
length-method_bytes payload = length-frame_bytes (method_frame payload)

pub send_method-appended :
    (w : Writer) (payload : List ℕ)
    → length payload ≤ max_frame_size
    → length payload + 8 ≤ w.room
    → send_method w payload ≡ ok (appended w (method_bytes payload))
unfolding send_method
send_method-appended w payload h room =
    ground (arith, write_frame_lem w (method_frame payload), length-method_bytes payload)

abbrev pub header_of : ℕ → ℕ → List ℕ
header_of c m = serialize_method_header (record { class_id = c; method_id = m })

pub length-header_of : (c m : ℕ) (body : List ℕ) → length (header_of c m ++ body) ≡ length body + 4
unfolding serialize_method_header put_uint16
length-header_of c m body = omega arith

pub expect_method-method_bytes :
    (c m : ℕ) (body rest : List ℕ)
    → c < 65536
    → m < 65536
    → length body + 4 ≤ max_frame_size
    → expect_method c m (method_bytes (header_of c m ++ body) ++ rest)
      ≡ ok (method_frame (header_of c m ++ body), rest)
unfolding expect_method
expect_method-method_bytes c m body rest hc hm h =
    rw
      (parse_frame-frame_bytes (method_frame (header_of c m ++ body)) rest (record {
        kind = omega arith;
        channel = omega arith;
        size = omega (arith, length-header_of c m body);
      }))
      (rw (parse_method_header-serialize (record { class_id = c; method_id = m }) body hc hm)
        (rw (==_refl c, ==_refl m) refl))

pub length-start_ok :
    (username password : List ℕ)
    → length (
        serialize_connection_start_ok plain
          (serialize_connection_start_ok_response username password))
      ≡ length username + length password + 26
unfolding serialize_connection_start_ok serialize_connection_start_ok_response
    serialize_method_header put_uint16 serialize_empty_table put_uint32 serialize_short_string
    serialize_long_string
length-start_ok username password = omega (
  arith,
  length-append (username ++ (0 ∷ password)) (serialize_short_string locale),
  length-append username (0 ∷ password),
)

pub length-tune_ok : (tune : List ℕ) → length (serialize_connection_tune_ok tune) ≡ 12
unfolding serialize_connection_tune_ok serialize_connection_tune_payload serialize_method_header
    put_uint16 put_uint32
length-tune_ok tune = ground (arith, length-take 8 (drop 4 tune), length-drop 4 tune)

pub length-open : (vhost : List ℕ) → length (serialize_connection_open vhost) ≡ length vhost + 7
unfolding serialize_connection_open serialize_method_header put_uint16 serialize_short_string
length-open vhost = omega (arith, length-append vhost (0 ∷ 0 ∷ []))

drop-header_of : (c m : ℕ) (body : List ℕ) → drop 4 (header_of c m ++ body) ≡ body
unfolding serialize_method_header put_uint16
drop-header_of c m body = refl

abbrev open_body : List ℕ → List ℕ
open_body vhost = serialize_short_string vhost ++ (serialize_short_string [] ++ (0 ∷ []))

long_enough : (n : ℕ) → 5 ≤ n → ltb n 5 ≡ false
long_enough n h = ground arith

length-open_body : (vhost : List ℕ) → 1 ≤ length (open_body vhost)
unfolding serialize_short_string
length-open_body vhost = omega arith

-- A Connection.Open for a vhost of at most 255 bytes is parsed to this vhost.
pub parse_connection_open-serialize :
    (vhost : List ℕ)
    → length vhost ≤ 255
    → parse_connection_open (serialize_connection_open vhost) ≡ ok vhost
unfolding parse_connection_open serialize_connection_open
parse_connection_open-serialize vhost h =
    rw
      (parse_method_header-serialize (record { class_id = 10; method_id = 40 }) (open_body vhost)
        (omega arith) (omega arith))
      (rw (drop-header_of 10 40 (open_body vhost)) (
        rw
          (long_enough (length (header_of 10 40 ++ open_body vhost))
            (omega (arith, length-header_of 10 40 (open_body vhost), length-open_body vhost)))
          (rw (parse_short_string-serialize vhost (serialize_short_string [] ++ (0 ∷ [])) h) refl)))
