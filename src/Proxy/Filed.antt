-- ===== src/Proxy/Filed.antt =====
-- A predicate on every upstream of the proxy's table, and what the changes of the table do to it.
use amqplex.Base.{
  ℕ, zero, suc, ◌≡◌, sym, subst, arith, List, [], ◌∷◌, ◌++◌, some, All, bytes_eq, bytes_eq_sound,
  Bool-cases, inl, inr,
}
use amqplex.Upstream.{Upstream, mark_stopped_if_idle}
use amqplex.Proxy.{Table, slice, append_upstream, remove_idle, keep_busy, kept}
use amqplex.Proxy.Lookup.{at, put, put_upstream}

module _ (P : List ℕ → Upstream → Type 0) where
  -- Every upstream of the table, with the key under which it stands.
  abbrev pub AllFiled : Table → Type 0
  AllFiled [] = Unit {0}
  AllFiled ((key, ms) ∷ table) = All (P key) ms × AllFiled table

  pub All-at :
      (key : List ℕ) (ms : List Upstream) (i : ℕ) (m : Upstream)
      → All (P key) ms
      → at i ms ≡ some m
      → P key m
  All-at key [] i m h e = cc
  All-at key (x ∷ ms) zero m h e = subst (P key) (some_same x m e) h.0
    where
      some_same : (y z : Upstream) → some y ≡ some z → y ≡ z
      some_same y z q = cc
  All-at key (x ∷ ms) (suc i) m h e = All-at key ms i m h.1 e

  pub slice-AllFiled :
      (key : List ℕ) (table : Table) → AllFiled table → All (P key) (slice key table)
  unfolding slice
  slice-AllFiled key [] h = tt
  slice-AllFiled key ((k, ms) ∷ table) h = elim (Bool-cases (bytes_eq k key)) [
    | inl same ↦ rw same (subst (λ j. All (P j) ms) (bytes_eq_sound k key same) h.0)
    | inr other ↦ rw other (slice-AllFiled key table h.1)
  ]

  All-snoc :
      (key : List ℕ) (ms : List Upstream) (m : Upstream)
      → All (P key) ms
      → P key m
      → All (P key) (ms ++ (m ∷ []))
  All-snoc key [] m h p = (p, tt)
  All-snoc key (x ∷ ms) m h p = (h.0, All-snoc key ms m h.1 p)

  pub append_upstream-AllFiled :
      (key : List ℕ) (m : Upstream) (table : Table)
      → P key m
      → AllFiled table
      → AllFiled (append_upstream key m table)
  unfolding append_upstream
  append_upstream-AllFiled key m [] p h = ((p, tt), tt)
  append_upstream-AllFiled key m ((k, ms) ∷ table) p h = elim (Bool-cases (bytes_eq k key)) [
    | inl same ↦
        rw same (All-snoc k ms m h.0 (subst (λ j. P j m) (sym (bytes_eq_sound k key same)) p), h.1)
    | inr other ↦ rw other (h.0, append_upstream-AllFiled key m table p h.1)
  ]

  kept-AllFiled :
      (key : List ℕ) (ms : List Upstream) (table : Table)
      → All (P key) ms
      → AllFiled table
      → AllFiled (kept key ms table)
  unfolding kept
  kept-AllFiled key [] table h t = t
  kept-AllFiled key (m ∷ ms) table h t = (h, t)

  -- The sweep keeps upstreams as they are.
  keep_busy-All :
      (key : List ℕ) (timeout now : ℕ) (ms : List Upstream)
      → All (P key) ms
      → All (P key) (keep_busy timeout now ms).0
  unfolding keep_busy mark_stopped_if_idle
  keep_busy-All key timeout now [] h = tt
  keep_busy-All key timeout now (m ∷ ms) h = ground (arith, keep_busy-All key timeout now ms h.1)

  pub remove_idle-AllFiled :
      (timeout now : ℕ) (table : Table)
      → AllFiled table
      → AllFiled (remove_idle timeout now table).0
  unfolding remove_idle
  remove_idle-AllFiled timeout now [] h = tt
  remove_idle-AllFiled timeout now ((key, ms) ∷ table) h =
      kept-AllFiled key (keep_busy timeout now ms).0 (remove_idle timeout now table).0
        (keep_busy-All key timeout now ms h.0) (remove_idle-AllFiled timeout now table h.1)

  put-All :
      (key : List ℕ) (i : ℕ) (m : Upstream) (ms : List Upstream)
      → P key m
      → All (P key) ms
      → All (P key) (put i m ms)
  put-All key i m [] p h = tt
  put-All key zero m (x ∷ ms) p h = (p, h.1)
  put-All key (suc i) m (x ∷ ms) p h = (h.0, put-All key i m ms p h.1)

  pub put_upstream-AllFiled :
      (key : List ℕ) (i : ℕ) (m : Upstream) (table : Table)
      → P key m
      → AllFiled table
      → AllFiled (put_upstream key i m table)
  unfolding put_upstream
  put_upstream-AllFiled key i m [] p h = tt
  put_upstream-AllFiled key i m ((k, ms) ∷ table) p h = elim (Bool-cases (bytes_eq k key)) [
    | inl same ↦
        rw same (put-All k i m ms (subst (λ j. P j m) (sym (bytes_eq_sound k key same)) p) h.0, h.1)
    | inr other ↦ rw other (h.0, put_upstream-AllFiled key i m table p h.1)
  ]
