-- ===== src/Handshake/Dial.antt =====
-- The proxy as a client of the broker, against any broker that keeps to the protocol.
use amqplex.Base.{ℕ, ◌+◌, ◌≤◌, ◌≡◌, ◌∙◌, ap, arith, List, ◌++◌, length, append_assoc}
use amqplex.Base.Result.{ok}
use amqplex.Frame.{max_frame_size, protocol_header}
use amqplex.Frame.Stream.{Writer}
use amqplex.Credentials.{
  plain, serialize_connection_start_ok, serialize_connection_start_ok_response,
}
use amqplex.Handshake.{
  serialize_connection_tune_ok, serialize_connection_open, perform_upstream_handshake,
}
use amqplex.Handshake.Parts.{
  appended, appended_twice, write-appended, method_bytes, length-method_bytes, send_method-appended,
  header_of, expect_method-method_bytes, length-start_ok, length-tune_ok, length-open,
}

abbrev pub start_ok_payload : List ℕ → List ℕ → List ℕ
start_ok_payload username password =
    serialize_connection_start_ok plain (serialize_connection_start_ok_response username password)

-- What the proxy sends to a broker whose Tune payload is `tune`, behind the protocol header.
abbrev pub client_bytes : List ℕ → List ℕ → List ℕ → List ℕ → List ℕ
client_bytes username password vhost tune =
    method_bytes (start_ok_payload username password)
    ++ (method_bytes (serialize_connection_tune_ok tune)
        ++ method_bytes (serialize_connection_open vhost))

-- What a broker sends that keeps to the protocol.
abbrev pub broker_bytes : List ℕ → List ℕ → List ℕ → List ℕ
broker_bytes start tune open_ok =
    method_bytes (header_of 10 10 ++ start)
    ++ (method_bytes (header_of 10 30 ++ tune) ++ method_bytes (header_of 10 41 ++ open_ok))

pub appended_three :
    (w : Writer) (a b c : List ℕ)
    → appended (appended (appended w a) b) c ≡ appended w (a ++ (b ++ c))
appended_three w a b c = appended_twice (appended w a) b c ∙ appended_twice w a (b ++ c)

appended_four :
    (w : Writer) (a b c d : List ℕ)
    → appended (appended (appended (appended w a) b) c) d ≡ appended w (a ++ (b ++ (c ++ d)))
appended_four w a b c d = appended_three (appended w a) b c d ∙ appended_twice w a (b ++ (c ++ d))

module _ (start tune open_ok rest username password vhost : List ℕ) (w : Writer) where
  -- Against a broker that sends Start, Tune and OpenOk with any payloads of at most 1 MiB, and with
  -- credentials of at most 1,000,000 bytes, a vhost of at most 255 and room for 1,100,000 bytes, the
  -- upstream handshake reads exactly these three frames, and writes the protocol header, StartOk,
  -- the TuneOk that answers the broker's Tune, and Open.
  pub perform_upstream_handshake_lem :
      length start + 4 ≤ max_frame_size
      → length tune + 4 ≤ max_frame_size
      → length open_ok + 4 ≤ max_frame_size
      → length username + length password ≤ 1000000
      → length vhost ≤ 255
      → 1100000 ≤ w.room
      → perform_upstream_handshake
          (broker_bytes start tune open_ok ++ rest)
          w
          username
          password
          vhost
        ≡ ok (
          rest,
          appended w
              (protocol_header ++ client_bytes username password vhost (header_of 10 30 ++ tune)),
        )
  unfolding perform_upstream_handshake
  perform_upstream_handshake_lem hs ht ho hc hv hw =
      let last = method_bytes (header_of 10 41 ++ open_ok) in
      let tuning = method_bytes (header_of 10 30 ++ tune) in
      let reply = start_ok_payload username password in
      let answer = serialize_connection_tune_ok (header_of 10 30 ++ tune) in
      let opening = serialize_connection_open vhost in
      let w1 = appended w protocol_header in
      let w2 = appended w1 (method_bytes reply) in
      let w3 = appended w2 (method_bytes answer) in
      let l1 = length-start_ok username password in
      let l2 = length-method_bytes reply in
      let l3 = length-tune_ok (header_of 10 30 ++ tune) in
      let l4 = length-method_bytes answer in
      let l5 = length-open vhost in
      rw
        (
          append_assoc (method_bytes (header_of 10 10 ++ start)) (tuning ++ last) rest,
          append_assoc tuning last rest,
          write-appended w protocol_header (omega arith),
          expect_method-method_bytes 10 10 start (tuning ++ (last ++ rest)) (omega arith)
              (omega arith) hs,
          send_method-appended w1 reply (omega (arith, l1)) (omega (arith, l1)),
          expect_method-method_bytes 10 30 tune (last ++ rest) (omega arith) (omega arith) ht,
          send_method-appended w2 answer (omega (arith, l3)) (omega (arith, l1, l2, l3)),
          send_method-appended w3 opening (omega (arith, l5)) (omega (arith, l1, l2, l3, l4, l5)),
          expect_method-method_bytes 10 41 open_ok rest (omega arith) (omega arith) ho,
        )
        (ap (λ v. ok (rest, v))
          (appended_four w protocol_header (method_bytes reply) (method_bytes answer)
            (method_bytes opening)))
