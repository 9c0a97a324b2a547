-- ===== src/Base/Maps.antt =====
-- Go's maps with uint16 keys as association lists. `size` is Go's `len`, and a write to a key that
-- is there replaces its value.
use Prim.Native.Nat.{ℕ, zero, suc, ◌≤◌, ◌<◌}
use mathlib.Core.Path.{◌≡◌, refl}
use mathlib.Core.Logic.{◌⊎◌, inl, inr}
use mathlib.Core.Bool.{Bool, true, false}
use mathlib.Core.Option.{Option, none, some}
use mathlib.Core.List.{List, [], ◌∷◌}
use native.Mathlib.Omega.{arith}
use amqplex.Base.Tests.{◌==◌, if◌then◌else◌, Bool-cases, ==_refl, ==_iff}
use amqplex.Base.Lists.{length}

abbrev pub Map {ℓ} : Type ℓ → Type ℓ
Map V = List (ℕ × V)

module _ {ℓ} {V : Type ℓ} where
  unfoldable pub size : Map V → ℕ
  size m = length m

  unfoldable pub has : ℕ → Map V → Bool
  has key [] = false
  has key ((j, value) ∷ others) = if j == key then true else has key others

  unfoldable pub get? : ℕ → Map V → Option V
  get? key [] = none
  get? key ((j, value) ∷ others) = if j == key then some value else get? key others

  unfoldable pub insert : ℕ → V → Map V → Map V
  insert key new [] = (key, new) ∷ []
  insert key new ((j, old) ∷ others) =
      let kept = insert key new others in if j == key then (key, new) ∷ others else (j, old) ∷ kept

  unfoldable pub delete : ℕ → Map V → Map V
  delete k [] = []
  delete k ((j, v) ∷ m) = let rest = delete k m in if j == k then rest else (j, v) ∷ rest

  pub get?-insert :
      (k j : ℕ) (v : V) (m : Map V) → get? j (insert k v m) ≡ (if k == j then some v else get? j m)
  unfolding get? insert
  get?-insert k j v [] = refl
  get?-insert k j v ((i, w) ∷ m) = ground (arith, get?-insert k j v m)

  pub get?-delete :
      (k j : ℕ) (m : Map V) → get? j (delete k m) ≡ (if k == j then none else get? j m)
  unfolding get? delete
  get?-delete k j [] = ground arith
  get?-delete k j ((i, w) ∷ m) = ground (arith, get?-delete k j m)

  pub has-insert :
      (k j : ℕ) (v : V) (m : Map V) → has j (insert k v m) ≡ (if k == j then true else has j m)
  unfolding has insert
  has-insert k j v [] = refl
  has-insert k j v ((i, w) ∷ m) = ground (arith, has-insert k j v m)

  pub has-delete : (k j : ℕ) (m : Map V) → has j (delete k m) ≡ (if k == j then false else has j m)
  unfolding has delete
  has-delete k j [] = ground arith
  has-delete k j ((i, w) ∷ m) = ground (arith, has-delete k j m)

  pub has-get? :
      (k : ℕ) (m : Map V)
      → (has k m ≡ false) × (get? k m ≡ none) ⊎ (has k m ≡ true) × ((v : V) × (get? k m ≡ some v))
  unfolding has get?
  has-get? k [] = inl (refl, refl)
  has-get? k ((j, v) ∷ m) = elim (Bool-cases (j == k)) [
    | inl e ↦ rw e (inr (refl, (v, refl)))
    | inr e ↦ rw e (has-get? k m)
  ]

  -- The keys are distinct.
  abbrev pub IsMap : Map V → Type 0
  IsMap [] = Unit {0}
  IsMap ((k, v) ∷ m) = (has k m ≡ false) × IsMap m

  pub insert-IsMap : (k : ℕ) (v : V) (m : Map V) → IsMap m → IsMap (insert k v m)
  unfolding insert has
  insert-IsMap k v [] h = (refl, tt)
  insert-IsMap k v ((j, w) ∷ m) h = ground (arith, insert-IsMap k v m, has-insert k j v m)

  pub delete-IsMap : (k : ℕ) (m : Map V) → IsMap m → IsMap (delete k m)
  unfolding delete
  delete-IsMap k [] h = tt
  delete-IsMap k ((j, w) ∷ m) h = ground (arith, delete-IsMap k m, has-delete k j m)

  pub size-delete-le : (k : ℕ) (m : Map V) → size (delete k m) ≤ size m
  unfolding delete size
  size-delete-le k [] = omega arith
  size-delete-le k ((j, w) ∷ m) = ground (arith, size-delete-le k m)

  pub size-delete-lt : (k : ℕ) (m : Map V) → has k m ≡ true → size (delete k m) < size m
  unfolding has delete size
  size-delete-lt k [] h = cc
  size-delete-lt k ((j, w) ∷ m) h = ground (arith, size-delete-lt k m, size-delete-le k m)

  delete-absent : (k : ℕ) (m : Map V) → has k m ≡ false → delete k m ≡ m
  unfolding delete has
  delete-absent k [] h = refl
  delete-absent k ((j, w) ∷ m) h = ground (arith, delete-absent k m)

  -- Of a map with distinct keys at most one entry is deleted.
  pub size-delete-ge : (k : ℕ) (m : Map V) → IsMap m → size m ≤ suc (size (delete k m))
  unfolding delete size
  size-delete-ge k [] h = omega arith
  size-delete-ge k ((j, w) ∷ m) h =
      ground (arith, size-delete-ge k m h.1, delete-absent k m, ==_iff j k)

  pub size-insert_new :
      (k : ℕ) (v : V) (m : Map V) → has k m ≡ false → size (insert k v m) ≡ suc (size m)
  unfolding insert size has
  size-insert_new k v [] h = refl
  size-insert_new k v ((j, w) ∷ m) h = ground (arith, size-insert_new k v m)

  -- Pigeonholes: `n` keys that are all there need `n` entries, and distinct keys from 1 to `n` are
  -- at most `n`.
  pub le-size : (n : ℕ) (m : Map V) → ((k : ℕ) → 1 ≤ k → k ≤ n → has k m ≡ true) → n ≤ size m
  le-size zero m h = omega arith
  le-size (suc n) m h = omega (
    arith,
    size-delete-lt (suc n) m (h (suc n) (omega arith) (omega arith)),
    le-size n (delete (suc n) m)
        (λ k lo hi. ground (arith, has-delete (suc n) k m, h k lo (omega arith))),
  )

  size-le_zero : (m : Map V) → ((k : ℕ) → has k m ≡ true → (1 ≤ k) × (k ≤ 0)) → size m ≤ 0
  unfolding size has
  size-le_zero [] h = omega arith
  size-le_zero ((k, v) ∷ m) h = absurd (omega (arith, h k (rw (==_refl k))))

  pub size-le :
      (n : ℕ) (m : Map V) → IsMap m → ((k : ℕ) → has k m ≡ true → (1 ≤ k) × (k ≤ n)) → size m ≤ n
  size-le zero m d h = size-le_zero m h
  size-le (suc n) m d h = omega (
    arith,
    size-delete-ge (suc n) m d,
    size-le n (delete (suc n) m) (delete-IsMap (suc n) m d)
        (λ k p. ground (arith, has-delete (suc n) k m, h k)),
  )
