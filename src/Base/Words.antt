-- ===== src/Base/Words.antt =====
-- encoding/binary's big-endian 16 and 32-bit integers, over bytes as numbers.
use Prim.Native.Nat.{ℕ, ◌+◌, ◌*◌, ◌/◌, ◌%◌, ◌<◌}
use mathlib.Core.Path.{◌≡◌}
use mathlib.Core.List.{List, [], ◌∷◌}
use native.Mathlib.Omega.{arith}

abbrev pub IsByte : ℕ → Type 0
IsByte b = b < 256

abbrev pub IsU16 : ℕ → Type 0
IsU16 n = n < 65536

-- binary.BigEndian.PutUint16 on two bytes.
unfoldable pub put_uint16 : ℕ → List ℕ
put_uint16 n = n / 256 % 256 ∷ n % 256 ∷ []

-- binary.BigEndian.PutUint32 on four bytes.
unfoldable pub put_uint32 : ℕ → List ℕ
put_uint32 n = n / 16777216 % 256 ∷ n / 65536 % 256 ∷ n / 256 % 256 ∷ n % 256 ∷ []

unfoldable pub uint16 : ℕ → ℕ → ℕ
uint16 a b = a * 256 + b

unfoldable pub uint32 : ℕ → ℕ → ℕ → ℕ → ℕ
uint32 a b c d = a * 16777216 + b * 65536 + c * 256 + d

pub uint16-put : (n : ℕ) → n < 65536 → uint16 (n / 256 % 256) (n % 256) ≡ n
unfolding uint16
uint16-put n h = omega arith

pub uint32-put :
    (n : ℕ)
    → n < 4294967296
    → uint32 (n / 16777216 % 256) (n / 65536 % 256) (n / 256 % 256) (n % 256) ≡ n
unfolding uint32
uint32-put n h = omega arith

pub put_uint16-uint16 : (a b : ℕ) → IsByte a → IsByte b → put_uint16 (uint16 a b) ≡ a ∷ b ∷ []
unfolding put_uint16 uint16
put_uint16-uint16 a b ha hb = ground arith

pub uint16-IsU16 : (a b : ℕ) → IsByte a → IsByte b → IsU16 (uint16 a b)
unfolding uint16
uint16-IsU16 a b ha hb = omega arith

pub put_uint32-uint32 :
    (a b c d : ℕ)
    → IsByte a
    → IsByte b
    → IsByte c
    → IsByte d
    → put_uint32 (uint32 a b c d) ≡ a ∷ b ∷ c ∷ d ∷ []
unfolding put_uint32 uint32
put_uint32-uint32 a b c d ha hb hc hd = ground arith
