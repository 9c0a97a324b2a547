-- ===== src/Credentials/Amqplain.antt =====
-- proxy/credentials.go, `parseAMQPLAIN`: the end of its loop, and the fields that a client encodes.
use amqplex.Base.{
  ℕ, zero, suc, ◌+◌, ◌≤◌, ◌<◌, ◌≡◌, ◌≢◌, refl, ◌∙◌, arith, List, [], ◌∷◌, ◌++◌, length, drop, ◌==◌,
  ltb, not, inl, inr, length-append, length-drop, drop-length-append, Bool-cases, ltb→lt, Option,
  some, none,
}
use amqplex.Base.Result.{
  Result, ok, err, Error, ◌>>=◌, ◌>>◌, ensure, wrap, Result-cases, stuck, in_field_value,
  missing_type, bad_type,
}
use amqplex.Base.Result.{missing_login}
use amqplex.Base.Words.{put_uint32}
use amqplex.Frame.{byte_at}
use amqplex.Wire.{
  serialize_short_string, serialize_long_string, parse_short_string, parse_long_string,
}
use amqplex.Wire.RoundTrip.{parse_short_string-serialize, parse_long_string-serialize}
use amqplex.Base.{if◌then◌else◌, Bool, true, false, bytes_eq}
use amqplex.Credentials.{
  Credentials, login_field, password_field, Fields, field?, both_fields, next_field, amqplain_loop,
  parse_amqplain,
}

-- The round fails for a reason of the code, or leaves less than it found.
Advances : List ℕ → Result (List ℕ × List ℕ × List ℕ) → Type 0
Advances bs (err e) = e ≢ stuck
Advances bs (ok (name, value, rest)) = length rest < length bs

short_string_takes :
    (bs s : List ℕ) (n : ℕ) → parse_short_string bs ≡ ok (s, n) → (1 ≤ n) × (n ≤ length bs)
unfolding parse_short_string
short_string_takes bs s n h = ground arith

after_name-Advances :
    (bs name : List ℕ) (n : ℕ)
    → 1 ≤ n
    → n ≤ length bs
    → Advances bs (do
      ensure (not (ltb (length (drop n bs)) 1)) missing_type
      ensure (byte_at (drop n bs) 0 == b'S') (bad_type (byte_at (drop n bs) 0) name)
      (value, k) ← wrap (in_field_value name) (parse_long_string (drop 1 (drop n bs)))
      ok (name, value, drop k (drop 1 (drop n bs))))
unfolding Advances
after_name-Advances bs name n lo hi = elim (Bool-cases (ltb (length (drop n bs)) 1)) [
  | inl e ↦ rw e (λ q. cc)
  | inr e ↦ rw e (elim (Bool-cases (byte_at (drop n bs) 0 == b'S')) [
    | inr e' ↦ rw e' (λ q. cc)
    | inl e' ↦ rw e' (elim (Result-cases (parse_long_string (drop 1 (drop n bs)))) [
      | inr (cause, p) ↦ rw p (λ q. cc)
      | inl ((value, k), p) ↦ rw p (
          omega (
            arith,
            length-drop k (drop 1 (drop n bs)),
            length-drop 1 (drop n bs),
            length-drop n bs,
            ltb→lt (length (drop n bs)) 1,
          ))
    ])
  ])
]

next_field-Advances : (bs : List ℕ) → Advances bs (next_field bs)
unfolding next_field Advances
next_field-Advances bs = elim (Result-cases (parse_short_string bs)) [
  | inr (e, p) ↦ rw p (λ q. cc)
  | inl ((name, n), p) ↦ rw p (
      after_name-Advances bs name n (short_string_takes bs name n p).0
        (short_string_takes bs name n p).1)
]

failed-not_stuck :
    (bs : List ℕ) (r : Result (List ℕ × List ℕ × List ℕ)) (e : Error)
    → Advances bs r
    → r ≡ err e
    → e ≢ stuck
unfolding Advances
failed-not_stuck bs (err cause) e h p = λ q. h (cc)
failed-not_stuck bs (ok field) e h p = cc

passed-shorter :
    (bs : List ℕ) (r : Result (List ℕ × List ℕ × List ℕ)) (name value rest : List ℕ)
    → Advances bs r
    → r ≡ ok (name, value, rest)
    → length rest < length bs
unfolding Advances
passed-shorter bs (err cause) name value rest h p = cc
passed-shorter bs (ok (name', value', rest')) name value rest h p = ground (arith, h, p)

amqplain_loop_ends :
    (fuel : ℕ) (bs : List ℕ) (fields : Fields)
    → length bs ≤ fuel
    → amqplain_loop fuel bs fields ≢ err stuck
unfolding amqplain_loop
amqplain_loop_ends fuel [] fields h = λ q. cc
amqplain_loop_ends zero (b ∷ bs) fields h = absurd (omega arith)
amqplain_loop_ends (suc fuel) (b ∷ bs) fields h = elim (Result-cases (next_field (b ∷ bs))) [
  | inr (e, p) ↦
      rw p
        (λ q. failed-not_stuck (b ∷ bs) (next_field (b ∷ bs)) e (next_field-Advances (b ∷ bs)) p cc)
  | inl ((name, value, rest), p) ↦ rw p (
      amqplain_loop_ends fuel rest ((name, value) ∷ fields) (
        omega (
          arith,
          passed-shorter (b ∷ bs) (next_field (b ∷ bs)) name value rest
              (next_field-Advances (b ∷ bs)) p,
        )))
]

-- Parsing an AMQPLAIN response ends on every input: no input makes the loop use up its fuel.
pub parse_amqplain_ends : (bs : List ℕ) → parse_amqplain bs ≢ err stuck
unfolding parse_amqplain both_fields
parse_amqplain_ends bs = elim (Result-cases (amqplain_loop (length bs) bs [])) [
  | inr (e, p) ↦ rw p (λ q. amqplain_loop_ends (length bs) bs [] (omega arith) (cc))
  | inl (fields, p) ↦
      rw p (both_fields_found (field? login_field fields) (field? password_field fields))
]
  where
    both_fields_found : (login password : Option (List ℕ)) → both_fields login password ≢ err stuck
    both_fields_found none password = λ q. cc
    both_fields_found (some login) none = λ q. cc
    both_fields_found (some login) (some password) = λ q. cc

-- What a client writes: each field's name, the type 'S' and its value.
unfoldable pub encode_fields : Fields → List ℕ
encode_fields [] = []
encode_fields ((name, value) ∷ fields) =
    serialize_short_string name ++ (b'S' ∷ (serialize_long_string value ++ encode_fields fields))

abbrev pub Fits : Fields → Type 0
Fits [] = Unit {0}
Fits ((name, value) ∷ fields) = (length name ≤ 255) × (length value < 4294967296) × Fits fields

abbrev pub newest_first : Fields → Fields → Fields
newest_first [] older = older
newest_first (field ∷ fields) older = newest_first fields (field ∷ older)

drop_short : (s rest : List ℕ) → drop (1 + length s) (serialize_short_string s ++ rest) ≡ rest
unfolding serialize_short_string
drop_short s rest = ground (arith, drop-length-append s rest)

length_field :
    (s rest : List ℕ) → length (serialize_short_string s ++ rest) ≡ suc (length s + length rest)
unfolding serialize_short_string
length_field s rest = omega (arith, length-append s rest)

drop_long : (s rest : List ℕ) → drop (4 + length s) (serialize_long_string s ++ rest) ≡ rest
unfolding serialize_long_string put_uint32
drop_long s rest = ground (arith, drop-length-append s rest)

next_field-serialize :
    (name value rest : List ℕ)
    → length name ≤ 255
    → length value < 4294967296
    → next_field (serialize_short_string name ++ (b'S' ∷ (serialize_long_string value ++ rest)))
      ≡ ok (name, value, rest)
unfolding next_field
next_field-serialize name value rest hn hv =
    rw (parse_short_string-serialize name (b'S' ∷ (serialize_long_string value ++ rest)) hn) (
      rw (drop_short name (b'S' ∷ (serialize_long_string value ++ rest)))
        (rw (parse_long_string-serialize value rest hv) (rw (drop_long value rest) (ground arith))))

amqplain_loop_step :
    (fuel : ℕ) (bs name value rest : List ℕ) (older : Fields)
    → next_field bs ≡ ok (name, value, rest)
    → length bs ≤ suc fuel
    → 1 ≤ length bs
    → amqplain_loop (suc fuel) bs older ≡ amqplain_loop fuel rest ((name, value) ∷ older)
unfolding amqplain_loop
amqplain_loop_step fuel [] name value rest older p h filled = absurd (omega arith)
amqplain_loop_step fuel (b ∷ bs) name value rest older p h filled = rw p refl

amqplain_loop-encode :
    (fuel : ℕ) (fields older : Fields)
    → length (encode_fields fields) ≤ fuel
    → Fits fields
    → amqplain_loop fuel (encode_fields fields) older ≡ ok (newest_first fields older)
unfolding amqplain_loop encode_fields
amqplain_loop-encode fuel [] older h fits = refl
amqplain_loop-encode zero ((name, value) ∷ fields) older h fits = absurd (
    omega (arith, length_field name (b'S' ∷ (serialize_long_string value ++ encode_fields fields))))
amqplain_loop-encode (suc fuel) ((name, value) ∷ fields) older h fits =
    amqplain_loop_step fuel (encode_fields ((name, value) ∷ fields)) name value
      (encode_fields fields) older
      (next_field-serialize name value (encode_fields fields) fits.0 fits.1) h
      (omega
        (arith, length_field name (b'S' ∷ (serialize_long_string value ++ encode_fields fields))))
    ∙ amqplain_loop-encode fuel fields ((name, value) ∷ older)
        (omega (
          arith,
          length_field name (b'S' ∷ (serialize_long_string value ++ encode_fields fields)),
          length-append (serialize_long_string value) (encode_fields fields),
        ))
        fits.2

abbrev or_else : Option (List ℕ) → Option (List ℕ) → Option (List ℕ)
or_else none o = o
or_else (some v) o = some v

-- The value of the last field with this name.
abbrev pub latest : List ℕ → Fields → Option (List ℕ)
latest name [] = none
latest name ((key, value) ∷ fields) =
    or_else (latest name fields) (if bytes_eq key name then some value else none)

or_else_step :
    (a : Option (List ℕ)) (b : Bool) (v : List ℕ) (o : Option (List ℕ))
    → or_else a (if b then some v else o) ≡ or_else (or_else a (if b then some v else none)) o
or_else_step none true v o = refl
or_else_step none false v o = refl
or_else_step (some x) b v o = refl

field?-newest_first :
    (name : List ℕ) (fields older : Fields)
    → field? name (newest_first fields older) ≡ or_else (latest name fields) (field? name older)
unfolding field?
field?-newest_first name [] older = refl
field?-newest_first name ((key, value) ∷ fields) older =
    field?-newest_first name fields ((key, value) ∷ older)
    ∙ or_else_step (latest name fields) (bytes_eq key name) value (field? name older)

abbrev pub login_name : List ℕ
login_name = b'L' ∷ b'O' ∷ b'G' ∷ b'I' ∷ b'N' ∷ []

abbrev pub password_name : List ℕ
password_name = b'P' ∷ b'A' ∷ b'S' ∷ b'S' ∷ b'W' ∷ b'O' ∷ b'R' ∷ b'D' ∷ []

-- The credentials of a login and a password, if both are there.
abbrev pub both_given : Option (List ℕ) → Option (List ℕ) → Result Credentials
both_given (some login) (some password) = ok (record { username = login; password = password })
both_given (some login) none = err missing_login
both_given none password = err missing_login

both_fields_lem : (a b : Option (List ℕ)) → both_fields a b ≡ both_given a b
unfolding both_fields
both_fields_lem none b = refl
both_fields_lem (some l) none = refl
both_fields_lem (some l) (some p) = refl

found :
    (name : List ℕ) (fields : Fields) → field? name (newest_first fields []) ≡ latest name fields
unfolding field?
found name fields = field?-newest_first name fields [] ∙ or_else-none (latest name fields)
  where
    or_else-none : (a : Option (List ℕ)) → or_else a none ≡ a
    or_else-none none = refl
    or_else-none (some v) = refl

-- An AMQPLAIN response of any fields, each with a name of at most 255 bytes and a value below 4 GiB,
-- parses to the value of the last field LOGIN as the user name and that of the last field PASSWORD as
-- the password, in whatever order they stand and whatever other fields there are, and is refused if
-- one of the two is missing.
pub parse_amqplain-encode :
    (fields : Fields)
    → Fits fields
    → parse_amqplain (encode_fields fields)
      ≡ both_given (latest login_name fields) (latest password_name fields)
unfolding parse_amqplain
parse_amqplain-encode fields fits =
    rw (amqplain_loop-encode (length (encode_fields fields)) fields [] (omega arith) fits) (
      rw (found login_name fields, found password_name fields)
        (both_fields_lem (latest login_name fields) (latest password_name fields)))
