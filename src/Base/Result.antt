-- ===== src/Base/Result.antt =====
-- Go's (value, error) pairs, with the errors that the proxy's code returns.
use Prim.Native.Nat.{ℕ}
use mathlib.Core.Path.{◌≡◌, refl}
use mathlib.Core.Logic.{◌⊎◌, inl, inr}
use mathlib.Core.Bool.{Bool, true, false}
use mathlib.Core.List.{List}

pub data Error : Type 0 where
  -- io.ReadFull, and a failed write.
  eof unexpected_eof write_failed : Error
  -- frame.go
  frame_too_large bad_end_marker header_too_short : Error
  -- credentials.go
  not_start_ok data_too_short bad_string_length long_too_short bad_long_length : Error
  table_too_short bad_table_length bad_plain missing_type missing_login : Error
  not_open open_too_short : Error
  bad_type : ℕ → List ℕ → Error
  bad_mechanism : List ℕ → Error
  in_field_name in_vhost : Error → Error
  in_field_value : List ℕ → Error → Error
  -- connection.go and upstream.go: another method than the handshake's next one.
  unexpected_method : ℕ → ℕ → Error
  -- proxy.go
  bad_protocol_header no_username limit_reached bad_scheme : Error
  -- listener.go and tlsutil.go
  no_tls_config half_key_pair : Error
  in_dial in_handshake : Error → Error
  -- config.go and main.go
  bad_config_file bad_flags too_many_arguments : Error
  in_config in_listener : Error → Error
  -- A loop of the model ran out of fuel: no Go error.
  stuck : Error

pub data Result {ℓ} (A : Type ℓ) : Type ℓ where
  ok : A → Result A
  err : Error → Result A

-- `fmt.Errorf("…: %w", err)`
abbrev pub wrap {ℓ} : {V : Type ℓ} → (Error → Error) → Result V → Result V
wrap context (err cause) = err (context cause)
wrap context (ok value) = ok value

-- `if !passed { return nil, failure }`
abbrev pub ensure : Bool → Error → Result (Unit {0})
ensure false failure = err failure
ensure true failure = ok tt

infixl 5 ◌>>◌
module _ {ℓ κ} {V : Type ℓ} {W : Type κ} where
  infixl 5 ◌>>=◌
  abbrev pub ◌>>=◌ : Result V → (V → Result W) → Result W
  err failure >>= next = err failure
  ok value >>= next = next value

abbrev pub ◌>>◌ {κ} : {W : Type κ} → Result (Unit {0}) → Result W → Result W
err failure >> next = err failure
ok done >> next = next

pub Result-cases {ℓ} :
    {A : Type ℓ} (r : Result A) → ((a : A) × (r ≡ ok a)) ⊎ ((e : Error) × (r ≡ err e))
Result-cases (ok a) = inl (a, refl)
Result-cases (err e) = inr (e, refl)
