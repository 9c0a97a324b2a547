-- ===== src/Handshake.antt =====
-- The two AMQP handshakes: `Handle` of proxy/connection.go towards a client, and
-- `performUpstreamHandshake` of proxy/upstream.go towards the broker. Frames are written through a
-- `Writer`, so that a failed write or flush is the failure of the write. The text that
-- the handshakes put in front of an error is left out.
pub mod Parts
pub mod Dial
pub mod Admit
mod Tests
use amqplex.Base.{
  ℕ, zero, suc, ◌+◌, ◌-◌, Bool, true, false, List, [], ◌∷◌, ◌++◌, length, take, drop, leb, ◌==◌,
  ◌&&◌, not, bytes_eq, if◌then◌else◌,
}
use amqplex.Base.Words.{put_uint16, put_uint32}
use amqplex.Base.Result.{
  Result, ok, err, ◌>>=◌, ◌>>◌, ensure, wrap, unexpected_method, bad_protocol_header, no_username,
}
use amqplex.Frame.{
  Frame, frame_type_method, protocol_header, parse_frame, write_frame, parse_method_header,
  serialize_method_header,
}
use amqplex.Frame.Stream.{Writer, write, read_full}
use amqplex.Wire.{serialize_short_string, serialize_long_string, serialize_empty_table}
use amqplex.Credentials.{
  Credentials, plain, amqplain, locale, parse_connection_start_ok, parse_connection_open,
  serialize_connection_start_ok, serialize_connection_start_ok_response,
}
use amqplex.Client.{Client}

abbrev pub method_frame : List ℕ → Frame
method_frame payload = record { kind = frame_type_method; channel = 0; payload = payload }

-- Reads a frame, and refuses it unless it is the method `(c, m)`. Its type and channel are not
-- looked at.
unfoldable pub expect_method : ℕ → ℕ → List ℕ → Result (Frame × List ℕ)
expect_method c m r = do
  (f, rest) ← parse_frame r
  header ← parse_method_header f.payload
  ensure (header.class_id == c && header.method_id == m)
      (unexpected_method header.class_id header.method_id)
  ok (f, rest)

unfoldable pub send_method : Writer → List ℕ → Result Writer
send_method w payload = write_frame w (method_frame payload)

unfoldable pub serialize_connection_tune_payload : List ℕ
serialize_connection_tune_payload =
    serialize_method_header (record { class_id = 10; method_id = 30 })
    ++ (put_uint16 0 ++ (put_uint32 131072 ++ put_uint16 60))

-- "AMQPLAIN PLAIN"
abbrev pub mechanisms : List ℕ
mechanisms = amqplain ++ (b' ' ∷ plain)

unfoldable pub serialize_connection_start : List ℕ
serialize_connection_start =
    serialize_method_header (record { class_id = 10; method_id = 10 })
    ++ (0
        ∷ 9
        ∷ (serialize_empty_table
            ++ (serialize_long_string mechanisms ++ serialize_long_string locale)))

unfoldable pub serialize_connection_open_ok : List ℕ
serialize_connection_open_ok =
    serialize_method_header (record { class_id = 10; method_id = 41 }) ++ (0 ∷ [])

-- The eight bytes behind the header of the broker's Tune, or those of the proxy's own.
unfoldable pub serialize_connection_tune_ok : List ℕ → List ℕ
serialize_connection_tune_ok tune =
    serialize_method_header (record { class_id = 10; method_id = 31 })
    ++ (if leb 12 (length tune)
        then take 8 (drop 4 tune)
        else drop 4 serialize_connection_tune_payload)

unfoldable pub serialize_connection_open : List ℕ → List ℕ
serialize_connection_open vhost =
    serialize_method_header (record { class_id = 10; method_id = 40 })
    ++ (serialize_short_string vhost ++ (serialize_short_string [] ++ (0 ∷ [])))

-- `performUpstreamHandshake`: what is left to read, and what was written.
unfoldable pub perform_upstream_handshake :
    List ℕ → Writer → List ℕ → List ℕ → List ℕ → Result (List ℕ × Writer)
perform_upstream_handshake r w username password vhost = do
  w1 ← write w protocol_header
  (_, r1) ← expect_method 10 10 r
  w2 ← send_method w1 (
      serialize_connection_start_ok plain
        (serialize_connection_start_ok_response username password))
  (tune, r2) ← expect_method 10 30 r1
  w3 ← send_method w2 (serialize_connection_tune_ok tune.payload)
  w4 ← send_method w3 (serialize_connection_open vhost)
  (_, r3) ← expect_method 10 41 r2
  ok (r3, w4)

abbrev pub logged_in : Client → Credentials → List ℕ → Client
logged_in cc creds vhost = record cc {
  username = creds.username;
  password = creds.password;
  vhost = vhost;
}

-- `ClientConnection.Handle`
unfoldable pub handle : Client → List ℕ → Writer → Result (Client × List ℕ × Writer)
handle cc r w = do
  w1 ← send_method w serialize_connection_start
  (start_ok, r1) ← expect_method 10 11 r
  creds ← parse_connection_start_ok start_ok.payload
  w2 ← send_method w1 serialize_connection_tune_payload
  (_, r2) ← expect_method 10 31 r1
  (open_frame, r3) ← expect_method 10 40 r2
  vhost ← parse_connection_open open_frame.payload
  w3 ← send_method w2 serialize_connection_open_ok
  ok (logged_in cc creds vhost, r3, w3)

abbrev pub is_empty : List ℕ → Bool
is_empty [] = true
is_empty (b ∷ bs) = false

-- `handleConnection` up to its choice of an upstream.
unfoldable pub admit_client : Client → List ℕ → Writer → Result (Client × List ℕ × Writer)
admit_client cc r w = do
  (header, r1) ← read_full 8 r
  ensure (bytes_eq header protocol_header) bad_protocol_header
  (cc1, r2, w1) ← handle cc r1 w
  ensure (not (is_empty cc1.username)) no_username
  ok (cc1, r2, w1)
