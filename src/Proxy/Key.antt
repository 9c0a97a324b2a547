-- ===== src/Proxy/Key.antt =====
-- proxy/proxy.go: the key under which the upstreams of one set of credentials are kept.
use amqplex.Base.{
  ℕ, zero, suc, ◌+◌, ◌-◌, ◌*◌, ◌/◌, ◌%◌, ◌<◌, ◌≡◌, refl, sym, ◌∙◌, ap, arith, true, List, [], ◌∷◌,
  ◌++◌, length, take, drop, ltb, ◌==◌, if◌then◌else◌, take-length-append, append-nil,
}
use amqplex.Credentials.Plain.{no_zero}

-- The digits of `%d`, most significant first.
unfoldable pub digits : ℕ → ℕ → List ℕ
digits zero n = []
digits (suc fuel) n =
    let front = digits fuel (n / 10) in
    if ltb n 10 then (b'0' + n) ∷ [] else front ++ ((b'0' + n % 10) ∷ [])

unfoldable pub decimal : ℕ → List ℕ
decimal n = digits (suc n) n

-- `getPoolKey`
unfoldable pub pool_key : List ℕ → List ℕ → List ℕ → List ℕ
pool_key username password vhost =
    decimal (length username)
    ++ (0
        ∷ (username
            ++ (0
                ∷ (decimal (length password)
                    ++ (0 ∷ (password ++ (0 ∷ (decimal (length vhost) ++ (0 ∷ vhost)))))))))

-- The number that digits stand for, read from the left behind `n`.
pub value : ℕ → List ℕ → ℕ
value n [] = n
value n (d ∷ ds) = value (n * 10 + (d - b'0')) ds

value-append : (n d : ℕ) (ds : List ℕ) → value n (ds ++ (d ∷ [])) ≡ value n ds * 10 + (d - b'0')
unfolding value
value-append n d [] = refl
value-append n d (c ∷ ds) = value-append (n * 10 + (c - b'0')) d ds

pub value-digits : (fuel n : ℕ) → n < fuel → value 0 (digits fuel n) ≡ n
unfolding value digits
value-digits zero n h = absurd (omega arith)
value-digits (suc fuel) n h =
    ground
      (arith, value-digits fuel (n / 10), value-append 0 (b'0' + n % 10) (digits fuel (n / 10)))

no_zero-append : (d : ℕ) (ds : List ℕ) → no_zero ds ≡ true → 0 < d → no_zero (ds ++ (d ∷ [])) ≡ true
unfolding no_zero
no_zero-append d [] h p = ground arith
no_zero-append d (c ∷ ds) h p = ground (arith, no_zero-append d ds)

no_zero-digits : (fuel n : ℕ) → no_zero (digits fuel n) ≡ true
unfolding no_zero digits
no_zero-digits zero n = refl
no_zero-digits (suc fuel) n =
    ground
      (arith, no_zero-digits fuel (n / 10), no_zero-append (b'0' + n % 10) (digits fuel (n / 10)))

-- What stands in front of the first byte 0, and behind it.
before_zero : List ℕ → List ℕ
before_zero [] = []
before_zero (b ∷ bs) = if b == 0 then [] else b ∷ before_zero bs

after_zero : List ℕ → List ℕ
after_zero [] = []
after_zero (b ∷ bs) = if b == 0 then bs else after_zero bs

before_zero-append : (xs ys : List ℕ) → no_zero xs ≡ true → before_zero (xs ++ (0 ∷ ys)) ≡ xs
unfolding before_zero no_zero
before_zero-append [] ys h = refl
before_zero-append (x ∷ xs) ys h = ground (arith, before_zero-append xs ys)

after_zero-append : (xs ys : List ℕ) → no_zero xs ≡ true → after_zero (xs ++ (0 ∷ ys)) ≡ ys
unfolding after_zero no_zero
after_zero-append [] ys h = refl
after_zero-append (x ∷ xs) ys h = ground (arith, after_zero-append xs ys)

-- The string behind its length, and what follows the byte behind it.
first_string : List ℕ → List ℕ
first_string key = take (value 0 (before_zero key)) (after_zero key)

behind_string : List ℕ → List ℕ
behind_string key = drop (suc (value 0 (before_zero key))) (after_zero key)

length_read :
    (s rest : List ℕ) → value 0 (before_zero (decimal (length s) ++ (0 ∷ rest))) ≡ length s
unfolding decimal
length_read s rest =
    ap (value 0) (
      before_zero-append (digits (suc (length s)) (length s)) rest
        (no_zero-digits (suc (length s)) (length s)))
    ∙ value-digits (suc (length s)) (length s) (omega arith)

string_left : (s rest : List ℕ) → after_zero (decimal (length s) ++ (0 ∷ rest)) ≡ rest
unfolding decimal
string_left s rest =
    after_zero-append (digits (suc (length s)) (length s)) rest
      (no_zero-digits (suc (length s)) (length s))

first_string-prefix : (s rest : List ℕ) → first_string (decimal (length s) ++ (0 ∷ (s ++ rest))) ≡ s
unfolding first_string
first_string-prefix s rest =
    rw (length_read s (s ++ rest), string_left s (s ++ rest)) (take-length-append s rest)

behind_string-prefix :
    (s rest : List ℕ) → behind_string (decimal (length s) ++ (0 ∷ (s ++ (0 ∷ rest)))) ≡ rest
unfolding behind_string
behind_string-prefix s rest =
    rw (length_read s (s ++ (0 ∷ rest)), string_left s (s ++ (0 ∷ rest))) (drop_past s rest)
  where
    drop_past : (xs ys : List ℕ) → drop (suc (length xs)) (xs ++ (0 ∷ ys)) ≡ ys
    drop_past [] ys = refl
    drop_past (x ∷ xs) ys = drop_past xs ys

-- The credentials that a key stands for.
credentials_of : List ℕ → List ℕ × List ℕ × List ℕ
credentials_of key = (
  first_string key,
  first_string (behind_string key),
  first_string (behind_string (behind_string key)),
)

last_string : (s : List ℕ) → first_string (decimal (length s) ++ (0 ∷ s)) ≡ s
last_string s =
    ap (λ v. first_string (decimal (length s) ++ (0 ∷ v))) (sym (append-nil s))
    ∙ first_string-prefix s []

credentials_of-pool_key :
    (username password vhost : List ℕ)
    → credentials_of (pool_key username password vhost) ≡ (username, password, vhost)
unfolding credentials_of pool_key
credentials_of-pool_key username password vhost =
    let third = decimal (length vhost) ++ (0 ∷ vhost) in
    let second = decimal (length password) ++ (0 ∷ (password ++ (0 ∷ third))) in
    rw
      (
        first_string-prefix username (0 ∷ second),
        behind_string-prefix username second,
        first_string-prefix password (0 ∷ third),
        behind_string-prefix password third,
        last_string vhost,
      )
      refl

-- Two sets of credentials, of any bytes, have the same pool key only if user name, password and vhost
-- are all the same.
pub pool_key_injective :
    (u p v u' p' v' : List ℕ) → pool_key u p v ≡ pool_key u' p' v' → (u ≡ u') × (p ≡ p') × (v ≡ v')
pool_key_injective u p v u' p' v' e =
    let same =
      sym (credentials_of-pool_key u p v)
      ∙ ap credentials_of e
      ∙ credentials_of-pool_key u' p' v' in
    (ap (λ c. c.0) same, ap (λ c. c.1) same, ap (λ c. c.2) same)
