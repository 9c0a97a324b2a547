-- ===== src/Handshake/Tests.antt =====
-- The handshakes on concrete bytes.
use amqplex.Base.{ℕ, ◌≡◌, refl, arith, List, [], ◌∷◌, ◌++◌}
use amqplex.Base.Result.{ok}
use amqplex.Frame.{protocol_header}
use amqplex.Frame.Stream.{Writer}
use amqplex.Client.{new_client_connection}
use amqplex.Handshake.{perform_upstream_handshake, admit_client}
use amqplex.Handshake.Parts.{appended, header_of}
use amqplex.Credentials.Plain.{no_zero}
use amqplex.Handshake.Dial.{client_bytes, broker_bytes, perform_upstream_handshake_lem}
use amqplex.Handshake.Admit.{server_bytes, admit_client_lem}

abbrev bob : List ℕ
bob = b'b' ∷ b'o' ∷ b'b' ∷ []

abbrev secret : List ℕ
secret = b's' ∷ b'3' ∷ []

abbrev root_vhost : List ℕ
root_vhost = b'/' ∷ []

abbrev empty_writer : Writer
empty_writer = record { written = []; room = 2000000 }

-- channel-max 2047, frame-max 131072, heartbeat 60.
abbrev broker_tune : List ℕ
broker_tune = 7 ∷ 255 ∷ 0 ∷ 2 ∷ 0 ∷ 0 ∷ 0 ∷ 60 ∷ []

perform_upstream_handshake_lem_example :
    perform_upstream_handshake
      (broker_bytes (0 ∷ 9 ∷ []) broker_tune (0 ∷ []) ++ (8 ∷ []))
      empty_writer
      bob
      secret
      root_vhost
    ≡ ok (
      8 ∷ [],
      appended empty_writer
          (protocol_header ++ client_bytes bob secret root_vhost (header_of 10 30 ++ broker_tune)),
    )
perform_upstream_handshake_lem_example =
    perform_upstream_handshake_lem (0 ∷ 9 ∷ []) broker_tune (0 ∷ []) (8 ∷ []) bob secret root_vhost
      empty_writer (omega arith) (omega arith) (omega arith) (omega arith) (omega arith)
      (omega arith)

admit_client_lem_example :
    admit_client
      (new_client_connection 1)
      (protocol_header
        ++ (client_bytes bob secret root_vhost (header_of 10 30 ++ broker_tune) ++ (1 ∷ [])))
      empty_writer
    ≡ ok (
      record (new_client_connection 1) { username = bob; password = secret; vhost = root_vhost },
      1 ∷ [],
      appended empty_writer server_bytes,
    )
unfolding no_zero
admit_client_lem_example =
    admit_client_lem (new_client_connection 1) (header_of 10 30 ++ broker_tune) (1 ∷ []) bob secret
      root_vhost empty_writer (omega arith) (omega arith) (λ e. cc) refl refl (omega arith)
