-- ===== src/Credentials/Tests.antt =====
-- Credentials on concrete bytes.
use amqplex.Base.{bytes_eq, ℕ, ◌≡◌, arith, List, [], ◌∷◌}
use amqplex.Base.Result.{ok}
use amqplex.Credentials.{
  plain, login_field, password_field, Fields, parse_amqplain, parse_connection_start_ok,
  serialize_connection_start_ok, serialize_connection_start_ok_response, field?, both_fields,
}
use amqplex.Credentials.Plain.{no_zero, parse_connection_start_ok-serialize}
use amqplex.Credentials.Amqplain.{encode_fields, parse_amqplain-encode}

abbrev bob : List ℕ
bob = b'b' ∷ b'o' ∷ b'b' ∷ []

abbrev secret : List ℕ
secret = b's' ∷ b'3' ∷ []

parse_connection_start_ok-serialize_example :
    parse_connection_start_ok
      (serialize_connection_start_ok plain (serialize_connection_start_ok_response bob secret))
    ≡ ok (record { username = bob; password = secret })
unfolding no_zero
parse_connection_start_ok-serialize_example =
    parse_connection_start_ok-serialize bob secret (omega arith)

-- The password stands first, and LOGIN twice.
abbrev three_fields : Fields
three_fields = (password_field, secret) ∷ (login_field, secret) ∷ (login_field, bob) ∷ []

parse_amqplain-encode_example :
    parse_amqplain (encode_fields three_fields) ≡ ok (record { username = bob; password = secret })
unfolding field? both_fields bytes_eq
parse_amqplain-encode_example =
    parse_amqplain-encode three_fields
      (omega arith, omega arith, (omega arith, omega arith, (omega arith, omega arith, tt)))
