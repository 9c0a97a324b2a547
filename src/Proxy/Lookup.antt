-- ===== src/Proxy/Lookup.antt =====
-- The table of upstreams: what an append and a scan do to it.
use amqplex.Base.{
  ℕ, zero, suc, ◌≡◌, refl, ap, arith, Bool, true, false, List, [], ◌∷◌, ◌++◌, Option, none, some,
  length, bytes_eq, bytes_eq_refl, bytes_eq_sound, if◌then◌else◌, length-append,
}
use amqplex.Upstream.{Upstream, has_capacity}
use amqplex.Proxy.{Table, next_place, slice, append_upstream, first_with_capacity, total}

-- The element at a place of a slice.
abbrev pub at : ℕ → List Upstream → Option Upstream
at i [] = none
at zero (m ∷ ms) = some m
at (suc i) (m ∷ ms) = at i ms

-- A change of the upstream at a place, through its pointer.
abbrev pub put : ℕ → Upstream → List Upstream → List Upstream
put i new [] = []
put zero new (m ∷ ms) = new ∷ ms
put (suc i) new (m ∷ ms) = m ∷ put i new ms

unfoldable pub put_upstream : List ℕ → ℕ → Upstream → Table → Table
put_upstream key i new [] = []
put_upstream key i new ((k, ms) ∷ table) =
    let rest = put_upstream key i new table in
    if bytes_eq k key then (k, put i new ms) ∷ table else (k, ms) ∷ rest

pub at-put :
    (i : ℕ) (new m : Upstream) (ms : List Upstream)
    → at i ms ≡ some m
    → at i (put i new ms) ≡ some new
at-put i new m [] e = cc
at-put zero new m (x ∷ ms) e = refl
at-put (suc i) new m (x ∷ ms) e = at-put i new m ms e

pub slice-put_upstream :
    (key : List ℕ) (i : ℕ) (new : Upstream) (table : Table)
    → slice key (put_upstream key i new table) ≡ put i new (slice key table)
unfolding slice put_upstream
slice-put_upstream key i new [] = refl
slice-put_upstream key i new ((k, ms) ∷ table) = ground (arith, slice-put_upstream key i new table)

length-put : (i : ℕ) (new : Upstream) (ms : List Upstream) → length (put i new ms) ≡ length ms
length-put i new [] = refl
length-put zero new (m ∷ ms) = refl
length-put (suc i) new (m ∷ ms) = ap suc (length-put i new ms)

pub total-put_upstream :
    (key : List ℕ) (i : ℕ) (new : Upstream) (table : Table)
    → total (put_upstream key i new table) ≡ total table
unfolding total put_upstream
total-put_upstream key i new [] = refl
total-put_upstream key i new ((k, ms) ∷ table) =
    ground (arith, total-put_upstream key i new table, length-put i new ms)

pub total-append_upstream :
    (key : List ℕ) (m : Upstream) (table : Table)
    → total (append_upstream key m table) ≡ suc (total table)
unfolding total append_upstream
total-append_upstream key m [] = refl
total-append_upstream key m ((k, ms) ∷ table) =
    ground (arith, total-append_upstream key m table, length-append ms (m ∷ []))

pub slice-append_upstream :
    (key : List ℕ) (m : Upstream) (table : Table)
    → slice key (append_upstream key m table) ≡ slice key table ++ (m ∷ [])
unfolding slice append_upstream
slice-append_upstream key m [] = ground (arith, bytes_eq_refl key)
slice-append_upstream key m ((k, ms) ∷ table) =
    ground (arith, slice-append_upstream key m table, bytes_eq_refl key)

pub slice_other-append_upstream :
    (key other : List ℕ) (m : Upstream) (table : Table)
    → bytes_eq key other ≡ false
    → slice other (append_upstream key m table) ≡ slice other table
unfolding slice append_upstream
slice_other-append_upstream key other m [] h = ground arith
slice_other-append_upstream key other m ((k, ms) ∷ table) h =
    ground (arith, slice_other-append_upstream key other m table h, bytes_eq_sound k key)

pub at-append : (ms : List Upstream) (m : Upstream) → at (length ms) (ms ++ (m ∷ [])) ≡ some m
at-append [] m = refl
at-append (x ∷ ms) m = at-append ms m

-- The place that the scan finds holds an upstream with capacity.
pub first_with_capacity-at :
    (ms : List Upstream) (i : ℕ)
    → first_with_capacity ms ≡ some i
    → (m : Upstream) × (at i ms ≡ some m) × (has_capacity m ≡ true)
unfolding first_with_capacity
first_with_capacity-at [] i e = cc
first_with_capacity-at (m ∷ ms) zero e = (m, refl, ground arith)
first_with_capacity-at (m ∷ ms) (suc i) e =
    first_with_capacity-at ms i (next_place-suc (has_capacity m) (first_with_capacity ms) e)
  where
    next_place-suc :
        (b : Bool) (o : Option ℕ) → (if b then some 0 else next_place o) ≡ some (suc i) → o ≡ some i
    next_place-suc true o p = cc
    next_place-suc false none p = cc
    next_place-suc false (some j) p = cc

pub first_with_capacity-none :
    (ms : List Upstream) (i : ℕ) (m : Upstream)
    → first_with_capacity ms ≡ none
    → at i ms ≡ some m
    → has_capacity m ≡ false
unfolding first_with_capacity
first_with_capacity-none [] i m e p = cc
first_with_capacity-none (x ∷ ms) zero m e p = ground arith
first_with_capacity-none (x ∷ ms) (suc i) m e p =
    first_with_capacity-none ms i m (next_place-none (has_capacity x) (first_with_capacity ms) e) p
  where
    next_place-none :
        (b : Bool) (o : Option ℕ) → (if b then some 0 else next_place o) ≡ none → o ≡ none
    next_place-none true o q = cc
    next_place-none false none q = refl
    next_place-none false (some j) q = cc
