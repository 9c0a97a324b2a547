-- ===== src/Credentials/Plain.antt =====
-- proxy/credentials.go: `ParseConnectionStartOk` on what `serializeConnectionStartOk` writes.
use amqplex.Base.{
  ℕ, suc, ◌+◌, ◌≤◌, ◌<◌, ◌≡◌, ◌≢◌, refl, ◌∙◌, arith, Bool, true, false, List, [], ◌∷◌, ◌++◌, length,
  drop, ◌==◌, ◌&&◌, if◌then◌else◌, Bool-cases, inl, inr, length-append, bytes_eq_refl,
}
use amqplex.Base.Words.{put_uint16, put_uint32, uint16}
use amqplex.Base.Result.{Result, ok, err, bad_plain}
use amqplex.Frame.{MethodHeader, parse_method_header, serialize_method_header}
use amqplex.Wire.{serialize_short_string, serialize_long_string, serialize_empty_table}
use amqplex.Wire.RoundTrip.{
  parse_short_string-serialize, parse_long_string-serialize, parse_table-empty,
}
use amqplex.Credentials.{
  Credentials, plain, locale, push_byte, split_zero, plain_parts, by_mechanism,
  parse_connection_start_ok, serialize_connection_start_ok, serialize_connection_start_ok_response,
}

-- Holds no byte 0.
unfoldable pub no_zero : List ℕ → Bool
no_zero [] = true
no_zero (b ∷ bs) = if b == 0 then false else no_zero bs

split_zero-no_zero : (bs : List ℕ) → no_zero bs ≡ true → split_zero bs ≡ bs ∷ []
unfolding split_zero no_zero
split_zero-no_zero [] h = refl
split_zero-no_zero (b ∷ bs) h = ground (arith, split_zero-no_zero bs)

split_zero-append :
    (bs rest : List ℕ) → no_zero bs ≡ true → split_zero (bs ++ (0 ∷ rest)) ≡ bs ∷ split_zero rest
unfolding split_zero no_zero
split_zero-append [] rest h = refl
split_zero-append (b ∷ bs) rest h = ground (arith, split_zero-append bs rest)

zeros : List ℕ → ℕ
zeros [] = 0
zeros (b ∷ bs) = if b == 0 then suc (zeros bs) else zeros bs

zeros-no_zero : (bs : List ℕ) → no_zero bs ≡ false → 1 ≤ zeros bs
unfolding zeros no_zero
zeros-no_zero [] h = cc
zeros-no_zero (b ∷ bs) h = ground (arith, zeros-no_zero bs)

zeros-append : (xs ys : List ℕ) → zeros (xs ++ ys) ≡ zeros xs + zeros ys
unfolding zeros
zeros-append [] ys = omega arith
zeros-append (b ∷ bs) ys = ground (arith, zeros-append bs ys)

length-split_zero : (bs : List ℕ) → length (split_zero bs) ≡ suc (zeros bs)
unfolding split_zero zeros
length-split_zero [] = refl
length-split_zero (b ∷ bs) =
    ground (arith, length-split_zero bs, length-push_byte b (split_zero bs))
  where
    length-push_byte :
        (x : ℕ) (parts : List (List ℕ))
        → 1 ≤ length parts
        → length (push_byte x parts) ≡ length parts
    length-push_byte x [] h = absurd (omega arith)
    length-push_byte x (part ∷ parts) h = refl

plain_parts-other : (parts : List (List ℕ)) → length parts ≢ 3 → plain_parts parts ≡ err bad_plain
unfolding plain_parts
plain_parts-other [] h = refl
plain_parts-other (a ∷ []) h = refl
plain_parts-other (a ∷ b ∷ []) h = refl
plain_parts-other (a ∷ b ∷ c ∷ []) h = absurd (h refl)
plain_parts-other (a ∷ b ∷ c ∷ d ∷ parts) h = refl

abbrev pub plain_result : List ℕ → List ℕ → Result Credentials
plain_result username password =
    if no_zero username && no_zero password
    then ok (record { username = username; password = password })
    else err bad_plain

clean_parts :
    (username password : List ℕ)
    → (no_zero username && no_zero password) ≡ true
    → plain_parts (split_zero (0 ∷ (username ++ (0 ∷ password))))
      ≡ ok (record { username = username; password = password })
unfolding split_zero plain_parts
clean_parts username password clean =
    ground (arith, split_zero-append username password, split_zero-no_zero password)

dirty_length :
    (username password : List ℕ)
    → (no_zero username && no_zero password) ≡ false
    → length (split_zero (0 ∷ (username ++ (0 ∷ password)))) ≢ 3
unfolding zeros
dirty_length username password dirty = ground (
  arith,
  length-split_zero (0 ∷ (username ++ (0 ∷ password))),
  zeros-append username (0 ∷ password),
  zeros-no_zero username,
  zeros-no_zero password,
)

response_parts :
    (username password : List ℕ)
    → plain_parts (split_zero (serialize_connection_start_ok_response username password))
      ≡ plain_result username password
unfolding serialize_connection_start_ok_response
response_parts username password = elim (Bool-cases (no_zero username && no_zero password)) [
  | inl clean ↦ rw clean (clean_parts username password clean)
  | inr dirty ↦ rw dirty (
      plain_parts-other (split_zero (0 ∷ (username ++ (0 ∷ password))))
        (dirty_length username password dirty))
]

-- What `drop` leaves of a Connection.StartOk after its parts.
module _ (table mechanism response : List ℕ) where
  abbrev start_ok_header : MethodHeader
  start_ok_header = record { class_id = 10; method_id = 11 }

  parse_start_ok_header :
      parse_method_header (serialize_method_header start_ok_header ++ table) ≡ ok start_ok_header
  unfolding parse_method_header serialize_method_header put_uint16 uint16
  parse_start_ok_header = ground arith

  drop_header : drop 4 (serialize_method_header start_ok_header ++ table) ≡ table
  unfolding serialize_method_header put_uint16
  drop_header = refl

  drop_table :
      drop 8 (serialize_method_header start_ok_header ++ (serialize_empty_table ++ mechanism))
      ≡ mechanism
  unfolding serialize_method_header put_uint16 serialize_empty_table put_uint32
  drop_table = refl

  drop_mechanism :
      drop 14 (
        serialize_method_header start_ok_header
        ++ (serialize_empty_table ++ (serialize_short_string plain ++ response)))
      ≡ response
  unfolding serialize_method_header put_uint16 serialize_empty_table put_uint32
      serialize_short_string
  drop_mechanism = refl

start_ok_parts :
    (response : List ℕ)
    → length response < 4294967296
    → parse_connection_start_ok (serialize_connection_start_ok plain response)
      ≡ plain_parts (split_zero response)
unfolding parse_connection_start_ok serialize_connection_start_ok by_mechanism
start_ok_parts response h =
    let last = serialize_long_string response ++ serialize_short_string locale in
    let tail = serialize_short_string plain ++ last in
    rw (parse_start_ok_header (serialize_empty_table ++ tail) [] []) (
      rw (drop_header (serialize_empty_table ++ tail) [] []) (
        rw (parse_table-empty tail) (
          rw (drop_table [] tail []) (
            rw (parse_short_string-serialize plain last (omega arith)) (
              rw (drop_mechanism [] [] last) (
                rw (parse_long_string-serialize response (serialize_short_string locale) h)
                  (rw (bytes_eq_refl plain) refl)))))))

-- For a user name and a password of less than 4 GiB together, the Connection.StartOk that the proxy
-- sends upstream parses to exactly these credentials if neither holds a byte 0, and is refused if one
-- of them does.
pub parse_connection_start_ok-serialize :
    (username password : List ℕ)
    → length username + length password + 2 < 4294967296
    → parse_connection_start_ok (
        serialize_connection_start_ok plain
          (serialize_connection_start_ok_response username password))
      ≡ plain_result username password
parse_connection_start_ok-serialize username password h =
    start_ok_parts (serialize_connection_start_ok_response username password)
      (response_length username password h)
    ∙ response_parts username password
  where
    response_length :
        (u p : List ℕ)
        → length u + length p + 2 < 4294967296
        → length (serialize_connection_start_ok_response u p) < 4294967296
    response_length u p small =
        unfold serialize_connection_start_ok_response in omega (arith, length-append u (0 ∷ p))
