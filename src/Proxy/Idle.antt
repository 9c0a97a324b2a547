-- ===== src/Proxy/Idle.antt =====
-- The sweep of the idle upstreams, against a description of which of them it must keep.
use amqplex.Base.{
  ℕ, ◌-◌, ◌≡◌, refl, sym, ◌∙◌, ap, arith, Bool, true, false, List, [], ◌∷◌, Option, none, some,
  length, ltb, ◌==◌, not, ◌&&◌, bytes_eq, bytes_eq_sound, if◌then◌else◌, Bool-cases, inl, inr,
}
use amqplex.Base.Maps.{size}
use amqplex.Upstream.{Upstream, mark_stopped_if_idle, idle_for}
use amqplex.Proxy.{Table, slice, keep_busy, kept, remove_idle}

abbrev pub empty_for : ℕ → ℕ → Option ℕ → Bool
empty_for timeout now none = false
empty_for timeout now (some since) = not (ltb (now - since) timeout)

-- No client, no channel in use, and the last client left `timeout` ago or earlier.
abbrev pub is_idle : ℕ → ℕ → Upstream → Bool
is_idle timeout now m =
    (length m.clients == 0 && size m.used_channels == 0) && empty_for timeout now m.last_empty_time

-- The upstreams that are not idle, as they are.
abbrev pub busy : ℕ → ℕ → List Upstream → List Upstream
busy timeout now [] = []
busy timeout now (m ∷ ms) =
    let rest = busy timeout now ms in if is_idle timeout now m then rest else m ∷ rest

pub idle_for_lem :
    (m : Upstream) (timeout now : ℕ)
    → idle_for m timeout now m.last_empty_time ≡ is_idle timeout now m
unfolding idle_for size
idle_for_lem m timeout now = at_time m.last_empty_time
  where
    at_time :
        (o : Option ℕ)
        → idle_for m timeout now o
          ≡ ((length m.clients == 0 && size m.used_channels == 0) && empty_for timeout now o)
    at_time none = ground arith
    at_time (some since) = ground arith

keep_busy-busy :
    (timeout now : ℕ) (ms : List Upstream) → (keep_busy timeout now ms).0 ≡ busy timeout now ms
unfolding keep_busy mark_stopped_if_idle
keep_busy-busy timeout now [] = refl
keep_busy-busy timeout now (m ∷ ms) =
    ground (arith, idle_for_lem m timeout now, keep_busy-busy timeout now ms)

-- No entry has the key.
abbrev pub absent : List ℕ → Table → Bool
absent key [] = true
absent key ((k, ms) ∷ table) = not (bytes_eq k key) && absent key table

abbrev pub IsTable : Table → Type 0
IsTable [] = Unit {0}
IsTable ((k, ms) ∷ table) = (absent k table ≡ true) × IsTable table

slice-absent : (key : List ℕ) (table : Table) → absent key table ≡ true → slice key table ≡ []
unfolding slice
slice-absent key [] h = refl
slice-absent key ((k, ms) ∷ table) h = ground (arith, slice-absent key table)

slice-kept :
    (key k : List ℕ) (ms : List Upstream) (table : Table)
    → slice k table ≡ []
    → slice key (kept k ms table) ≡ (if bytes_eq k key then ms else slice key table)
unfolding slice kept
slice-kept key k [] table h = elim (Bool-cases (bytes_eq k key)) [
  | inl e ↦ rw e (ap (λ z. slice z table) (sym (bytes_eq_sound k key e)) ∙ h)
  | inr e ↦ rw e refl
]
slice-kept key k (m ∷ ms) table h = refl

-- In a table with one entry for each key, the sweep leaves under every key exactly the upstreams that
-- have a client, have a channel in use, never lost their last client, or lost it less than `timeout`
-- ago, unchanged and in their order.
pub slice-remove_idle :
    (timeout now : ℕ) (key : List ℕ) (table : Table)
    → IsTable table
    → slice key (remove_idle timeout now table).0 ≡ busy timeout now (slice key table)
unfolding slice remove_idle
slice-remove_idle timeout now key [] h = refl
slice-remove_idle timeout now key ((k, ms) ∷ table) h =
    slice-kept key k (keep_busy timeout now ms).0 (remove_idle timeout now table).0
      (slice-remove_idle timeout now k table h.1 ∙ ap (busy timeout now) (slice-absent k table h.0))
    ∙ ground (arith, keep_busy-busy timeout now ms, slice-remove_idle timeout now key table h.1)
