-- ===== src/Handshake/Admit.antt =====
-- The proxy as a server, against a client that logs in as the proxy itself does.
use amqplex.Base.{
  ℕ, ◌+◌, ◌≤◌, ◌<◌, ◌≡◌, ◌≢◌, refl, ◌∙◌, ap, arith, true, false, List, [], ◌∷◌, ◌++◌, length,
  bytes_eq_refl, append_assoc,
}
use amqplex.Base.Words.{put_uint16, put_uint32}
use amqplex.Base.Result.{ok}
use amqplex.Frame.{max_frame_size, protocol_header}
use amqplex.Frame.{serialize_method_header}
use amqplex.Wire.{serialize_empty_table, serialize_long_string}
use amqplex.Frame.Stream.{Writer, read_full-append}
use amqplex.Credentials.{serialize_connection_start_ok, parse_connection_start_ok}
use amqplex.Credentials.Plain.{no_zero, parse_connection_start_ok-serialize}
use amqplex.Client.{Client}
use amqplex.Handshake.{
  method_frame, expect_method, serialize_connection_start, serialize_connection_tune_payload,
  serialize_connection_open_ok, serialize_connection_tune_ok, serialize_connection_open, logged_in,
  handle, is_empty, admit_client,
}
use amqplex.Handshake.Parts.{
  appended, method_bytes, length-method_bytes, send_method-appended, header_of, length-header_of,
  expect_method-method_bytes, length-start_ok, length-tune_ok, length-open,
  parse_connection_open-serialize,
}
use amqplex.Handshake.Dial.{start_ok_payload, client_bytes, appended_three}

expect_method_payload :
    (c m : ℕ) (payload body rest : List ℕ)
    → payload ≡ header_of c m ++ body
    → c < 65536
    → m < 65536
    → length payload ≤ max_frame_size
    → expect_method c m (method_bytes payload ++ rest) ≡ ok (method_frame payload, rest)
expect_method_payload c m payload body rest p hc hm h = rw p (
    expect_method-method_bytes c m body rest hc hm
      (omega (arith, length-header_of c m body, ap length p)))

expect_start_ok :
    (username password rest : List ℕ)
    → length username + length password ≤ 1000000
    → expect_method 10 11 (method_bytes (start_ok_payload username password) ++ rest)
      ≡ ok (method_frame (start_ok_payload username password), rest)
unfolding serialize_connection_start_ok
expect_start_ok username password rest h =
    expect_method_payload 10 11 (start_ok_payload username password) _ rest refl (omega arith)
      (omega arith) (omega (arith, length-start_ok username password))

expect_tune_ok :
    (tune rest : List ℕ)
    → expect_method 10 31 (method_bytes (serialize_connection_tune_ok tune) ++ rest)
      ≡ ok (method_frame (serialize_connection_tune_ok tune), rest)
unfolding serialize_connection_tune_ok
expect_tune_ok tune rest =
    expect_method_payload 10 31 (serialize_connection_tune_ok tune) _ rest refl (omega arith)
      (omega arith) (omega (arith, length-tune_ok tune))

expect_open :
    (vhost rest : List ℕ)
    → length vhost ≤ 255
    → expect_method 10 40 (method_bytes (serialize_connection_open vhost) ++ rest)
      ≡ ok (method_frame (serialize_connection_open vhost), rest)
unfolding serialize_connection_open
expect_open vhost rest h =
    expect_method_payload 10 40 (serialize_connection_open vhost) _ rest refl (omega arith)
      (omega arith) (omega (arith, length-open vhost))

start_ok_accepted :
    (username password : List ℕ)
    → length username + length password ≤ 1000000
    → no_zero username ≡ true
    → no_zero password ≡ true
    → parse_connection_start_ok (start_ok_payload username password)
      ≡ ok (record { username = username; password = password })
start_ok_accepted username password h nu np =
    parse_connection_start_ok-serialize username password (omega arith) ∙ rw (nu, np) refl

-- What the proxy sends to a client that it admits.
abbrev pub server_bytes : List ℕ
server_bytes =
    method_bytes serialize_connection_start
    ++ (method_bytes serialize_connection_tune_payload ++ method_bytes serialize_connection_open_ok)

server_lengths :
    (length serialize_connection_start ≡ 37)
    × (length serialize_connection_tune_payload ≡ 12)
    × (length serialize_connection_open_ok ≡ 5)
unfolding serialize_connection_start serialize_connection_tune_payload serialize_connection_open_ok
    serialize_method_header serialize_empty_table serialize_long_string put_uint16 put_uint32
server_lengths = (refl, refl, refl)

module _ (cc : Client) (tune rest username password vhost : List ℕ) (w : Writer) where
  handle_lem :
      length username + length password ≤ 1000000
      → length vhost ≤ 255
      → no_zero username ≡ true
      → no_zero password ≡ true
      → 78 ≤ w.room
      → handle cc (client_bytes username password vhost tune ++ rest) w
        ≡ ok (
          record cc { username = username; password = password; vhost = vhost },
          rest,
          appended w server_bytes,
        )
  unfolding handle
  handle_lem hc hv nu np hw =
      let answer = method_bytes (serialize_connection_tune_ok tune) in
      let opening = method_bytes (serialize_connection_open vhost) in
      let w1 = appended w (method_bytes serialize_connection_start) in
      let w2 = appended w1 (method_bytes serialize_connection_tune_payload) in
      let l0 = server_lengths in
      let l1 = length-method_bytes serialize_connection_start in
      let l2 = length-method_bytes serialize_connection_tune_payload in
      rw
        (
          append_assoc (method_bytes (start_ok_payload username password)) (answer ++ opening) rest,
          append_assoc answer opening rest,
          send_method-appended w serialize_connection_start (omega (arith, l0)) (omega (arith, l0)),
          expect_start_ok username password (answer ++ (opening ++ rest)) hc,
          start_ok_accepted username password hc nu np,
          send_method-appended w1 serialize_connection_tune_payload (omega (arith, l0))
              (omega (arith, l0, l1)),
          expect_tune_ok tune (opening ++ rest),
          expect_open vhost rest hv,
          parse_connection_open-serialize vhost hv,
          send_method-appended w2 serialize_connection_open_ok (omega (arith, l0))
              (omega (arith, l0, l1, l2)),
        )
        (ap
          (λ v.
            ok (logged_in cc (record { username = username; password = password }) vhost, rest, v))
          (appended_three w (method_bytes serialize_connection_start)
            (method_bytes serialize_connection_tune_payload)
            (method_bytes serialize_connection_open_ok)))

  -- A client that sends the protocol header and then StartOk (PLAIN), TuneOk and Open as the proxy
  -- itself writes them, with a user name that is not empty, credentials without a byte 0 and of at
  -- most 1,000,000 bytes, and a vhost of at most 255 bytes, is admitted under these credentials and this
  -- vhost if the writer has room for 78 bytes. Exactly these bytes are read, and Start, Tune and
  -- OpenOk are written.
  pub admit_client_lem :
      length username + length password ≤ 1000000
      → length vhost ≤ 255
      → username ≢ []
      → no_zero username ≡ true
      → no_zero password ≡ true
      → 78 ≤ w.room
      → admit_client cc (protocol_header ++ (client_bytes username password vhost tune ++ rest)) w
        ≡ ok (
          record cc { username = username; password = password; vhost = vhost },
          rest,
          appended w server_bytes,
        )
  unfolding admit_client
  admit_client_lem hc hv hu nu np hw =
      rw (read_full-append protocol_header (client_bytes username password vhost tune ++ rest)) (
        rw (bytes_eq_refl protocol_header)
          (rw (handle_lem hc hv nu np hw) (rw (is_empty-cons username hu) refl)))
    where
      is_empty-cons : (bs : List ℕ) → bs ≢ [] → is_empty bs ≡ false
      is_empty-cons [] h = absurd (h refl)
      is_empty-cons (b ∷ bs) h = refl
