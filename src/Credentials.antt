-- ===== src/Credentials.antt =====
-- proxy/credentials.go: the credentials in Connection.StartOk, and the vhost in Connection.Open.
pub mod Plain
pub mod Amqplain
mod Tests
use amqplex.Base.{
  ℕ, zero, suc, ◌+◌, Bool, List, [], ◌∷◌, ◌++◌, Option, none, some, length, drop, ltb, ◌==◌, ◌&&◌,
  not, bytes_eq, if◌then◌else◌,
}
use amqplex.Base.Result.{
  Result, ok, err, ◌>>=◌, ◌>>◌, ensure, wrap, not_start_ok, bad_plain, missing_type, missing_login,
  bad_type, bad_mechanism, in_field_name, in_field_value, in_vhost, not_open, open_too_short, stuck,
}
use amqplex.Frame.{byte_at, parse_method_header, serialize_method_header}
use amqplex.Wire.{
  serialize_short_string, serialize_long_string, serialize_empty_table, parse_short_string,
  parse_long_string, parse_table,
}

pub record Credentials : Type 0 where
  pub username : List ℕ
  pub password : List ℕ

abbrev pub plain : List ℕ
plain = b'P' ∷ b'L' ∷ b'A' ∷ b'I' ∷ b'N' ∷ []

abbrev pub amqplain : List ℕ
amqplain = b'A' ∷ b'M' ∷ b'Q' ∷ plain

abbrev pub login_field : List ℕ
login_field = b'L' ∷ b'O' ∷ b'G' ∷ b'I' ∷ b'N' ∷ []

abbrev pub password_field : List ℕ
password_field = b'P' ∷ b'A' ∷ b'S' ∷ b'S' ∷ b'W' ∷ b'O' ∷ b'R' ∷ b'D' ∷ []

abbrev pub locale : List ℕ
locale = b'e' ∷ b'n' ∷ b'_' ∷ b'U' ∷ b'S' ∷ []

-- A byte in front of the first part.
abbrev pub push_byte : ℕ → List (List ℕ) → List (List ℕ)
push_byte b [] = (b ∷ []) ∷ []
push_byte b (part ∷ parts) = (b ∷ part) ∷ parts

-- `bytes.Split(response, []byte{0})`
unfoldable pub split_zero : List ℕ → List (List ℕ)
split_zero [] = [] ∷ []
split_zero (b ∷ bs) = let parts = split_zero bs in if b == 0 then [] ∷ parts else push_byte b parts

-- The three parts of "\0username\0password".
unfoldable pub plain_parts : List (List ℕ) → Result Credentials
plain_parts (a ∷ username ∷ password ∷ []) =
    ok (record { username = username; password = password })
plain_parts (a ∷ b ∷ c ∷ d ∷ parts) = err bad_plain
plain_parts (a ∷ b ∷ []) = err bad_plain
plain_parts (a ∷ []) = err bad_plain
plain_parts [] = err bad_plain

-- A Go map from strings: the latest write to a key stands in front.
abbrev pub Fields : Type 0
Fields = List (List ℕ × List ℕ)

unfoldable pub field? : List ℕ → Fields → Option (List ℕ)
field? name [] = none
field? name ((key, value) ∷ older) = if bytes_eq key name then some value else field? name older

unfoldable pub both_fields : Option (List ℕ) → Option (List ℕ) → Result Credentials
both_fields none password = err missing_login
both_fields (some login) none = err missing_login
both_fields (some login) (some password) = ok (record { username = login; password = password })

-- The field in front: its name, its value, and what follows.
unfoldable pub next_field : List ℕ → Result (List ℕ × List ℕ × List ℕ)
next_field bs = do
  (name, n) ← wrap in_field_name (parse_short_string bs)
  ensure (not (ltb (length (drop n bs)) 1)) missing_type
  ensure (byte_at (drop n bs) 0 == b'S') (bad_type (byte_at (drop n bs) 0) name)
  (value, k) ← wrap (in_field_value name) (parse_long_string (drop 1 (drop n bs)))
  ok (name, value, drop k (drop 1 (drop n bs)))

-- The loop of `parseAMQPLAIN` over what is left of the response.
unfoldable pub amqplain_loop : ℕ → List ℕ → Fields → Result Fields
amqplain_loop fuel [] fields = ok fields
amqplain_loop zero (b ∷ bs) fields = err stuck
amqplain_loop (suc fuel) (b ∷ bs) fields = do
  (name, value, rest) ← next_field (b ∷ bs)
  amqplain_loop fuel rest ((name, value) ∷ fields)

-- Each round takes a byte at least, so a round for each byte is enough.
unfoldable pub parse_amqplain : List ℕ → Result Credentials
unfolding both_fields
parse_amqplain bs = do
  fields ← amqplain_loop (length bs) bs []
  both_fields (field? login_field fields) (field? password_field fields)

-- The `switch` on the mechanism.
by_mechanism : List ℕ → List ℕ → Result Credentials
by_mechanism mechanism response =
    if bytes_eq mechanism plain
    then plain_parts (split_zero response)
    else if bytes_eq mechanism amqplain
    then parse_amqplain response
    else err (bad_mechanism mechanism)

unfoldable pub parse_connection_start_ok : List ℕ → Result Credentials
unfolding by_mechanism
parse_connection_start_ok bs = do
  header ← parse_method_header bs
  ensure (header.class_id == 10 && header.method_id == 11) not_start_ok
  (_, table_end) ← parse_table (drop 4 bs)
  (mechanism, n) ← parse_short_string (drop (4 + table_end) bs)
  (response, _) ← parse_long_string (drop (4 + table_end + n) bs)
  by_mechanism mechanism response

unfoldable pub parse_connection_open : List ℕ → Result (List ℕ)
parse_connection_open bs = do
  header ← parse_method_header bs
  ensure (header.class_id == 10 && header.method_id == 40) not_open
  ensure (not (ltb (length bs) 5)) open_too_short
  (vhost, _) ← wrap in_vhost (parse_short_string (drop 4 bs))
  ok vhost

unfoldable pub serialize_connection_start_ok : List ℕ → List ℕ → List ℕ
serialize_connection_start_ok mechanism response =
    serialize_method_header (record { class_id = 10; method_id = 11 })
    ++ (serialize_empty_table
        ++ (serialize_short_string mechanism
            ++ (serialize_long_string response ++ serialize_short_string locale)))

-- "\0username\0password"
unfoldable pub serialize_connection_start_ok_response : List ℕ → List ℕ → List ℕ
serialize_connection_start_ok_response username password = 0 ∷ (username ++ (0 ∷ password))
