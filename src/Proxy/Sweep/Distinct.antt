-- ===== src/Proxy/Sweep/Distinct.antt =====
-- The table of upstreams has one entry for each key, as a Go map does, whatever happens to it.
use amqplex.Base.{
  ℕ, ◌≡◌, refl, sym, subst, arith, true, false, List, [], ◌∷◌, Option, none, some, bytes_eq,
  bytes_eq_sound, bytes_eq_refl, Bool-cases, inl, inr,
}
use amqplex.Base.Result.{Result, ok, err}
use amqplex.Upstream.{Upstream}
use amqplex.Proxy.{
  Proxy, Outside, Table, append_upstream, remove_idle, keep_busy, kept, connected, create_upstream,
  chosen, choose_locked, at_limit, connect, finish_client, stop_proxy, first_with_capacity, slice,
}
use amqplex.Proxy.Key.{pool_key}
use amqplex.Proxy.Lookup.{put_upstream}
use amqplex.Proxy.Limits.{Step, Reach, admit-serves}
use amqplex.Proxy.Limits
use amqplex.Proxy.Idle.{absent, IsTable}

bytes_eq_flip : (xs ys : List ℕ) → bytes_eq xs ys ≡ false → bytes_eq ys xs ≡ false
bytes_eq_flip xs ys ne = elim (Bool-cases (bytes_eq ys xs)) [
  | inr other ↦ other
  | inl same ↦
      absurd (apart (subst (λ z. bytes_eq z ys ≡ false) (sym (bytes_eq_sound ys xs same)) ne))
]
  where
    apart : bytes_eq ys ys ≡ false → ⊥
    apart e = ground (arith, bytes_eq_refl ys)

absent-append_upstream :
    (k key : List ℕ) (m : Upstream) (table : Table)
    → bytes_eq key k ≡ false
    → absent k table ≡ true
    → absent k (append_upstream key m table) ≡ true
unfolding append_upstream
absent-append_upstream k key m [] ne h = rw ne refl
absent-append_upstream k key m ((k', ms) ∷ table) ne h =
    ground (arith, absent-append_upstream k key m table ne)

append_upstream-IsTable :
    (key : List ℕ) (m : Upstream) (table : Table)
    → IsTable table
    → IsTable (append_upstream key m table)
unfolding append_upstream
append_upstream-IsTable key m [] h = (refl, tt)
append_upstream-IsTable key m ((k, ms) ∷ table) h = elim (Bool-cases (bytes_eq k key)) [
  | inl same ↦ rw same h
  | inr other ↦ rw other (
    absent-append_upstream k key m table (bytes_eq_flip k key other) h.0,
    append_upstream-IsTable key m table h.1,
  )
]

absent-put_upstream :
    (k key : List ℕ) (i : ℕ) (m : Upstream) (table : Table)
    → absent k table ≡ true
    → absent k (put_upstream key i m table) ≡ true
unfolding put_upstream
absent-put_upstream k key i m [] h = refl
absent-put_upstream k key i m ((k', ms) ∷ table) h =
    ground (arith, absent-put_upstream k key i m table)

put_upstream-IsTable :
    (key : List ℕ) (i : ℕ) (m : Upstream) (table : Table)
    → IsTable table
    → IsTable (put_upstream key i m table)
unfolding put_upstream
put_upstream-IsTable key i m [] h = tt
put_upstream-IsTable key i m ((k, ms) ∷ table) h = elim (Bool-cases (bytes_eq k key)) [
  | inl same ↦ rw same h
  | inr other ↦
      rw other (absent-put_upstream k key i m table h.0, put_upstream-IsTable key i m table h.1)
]

absent-kept :
    (k key : List ℕ) (ms : List Upstream) (table : Table)
    → bytes_eq key k ≡ false
    → absent k table ≡ true
    → absent k (kept key ms table) ≡ true
unfolding kept
absent-kept k key [] table ne h = h
absent-kept k key (m ∷ ms) table ne h = rw (ne, h) refl

absent-remove_idle :
    (k : List ℕ) (timeout now : ℕ) (table : Table)
    → absent k table ≡ true
    → absent k (remove_idle timeout now table).0 ≡ true
unfolding remove_idle
absent-remove_idle k timeout now [] h = refl
absent-remove_idle k timeout now ((key, ms) ∷ table) h = elim (Bool-cases (bytes_eq key k)) [
  | inl same ↦ absurd (ground (arith, h, same))
  | inr other ↦
      absent-kept k key (keep_busy timeout now ms).0 (remove_idle timeout now table).0 other
        (absent-remove_idle k timeout now table (ground (arith, h, other)))
]

kept-IsTable :
    (key : List ℕ) (ms : List Upstream) (table : Table)
    → absent key table ≡ true
    → IsTable table
    → IsTable (kept key ms table)
unfolding kept
kept-IsTable key [] table a h = h
kept-IsTable key (m ∷ ms) table a h = (a, h)

pub remove_idle-IsTable :
    (timeout now : ℕ) (table : Table) → IsTable table → IsTable (remove_idle timeout now table).0
unfolding remove_idle
remove_idle-IsTable timeout now [] h = tt
remove_idle-IsTable timeout now ((key, ms) ∷ table) h =
    kept-IsTable key (keep_busy timeout now ms).0 (remove_idle timeout now table).0
      (absent-remove_idle key timeout now table h.0) (remove_idle-IsTable timeout now table h.1)

connected-IsTable :
    (p : Proxy) (username password vhost : List ℕ) (r : Result ℕ)
    → IsTable p.upstreams
    → IsTable (connected p username password vhost r).0.upstreams
unfolding connected
connected-IsTable p username password vhost (err e) h = h
connected-IsTable p username password vhost (ok conn) h =
    append_upstream-IsTable (pool_key username password vhost) _ p.upstreams h

chosen-IsTable :
    (out : Outside) (p : Proxy) (username password vhost : List ℕ) (o : Option ℕ)
    → IsTable p.upstreams
    → IsTable (chosen out p username password vhost o).0.upstreams
unfolding chosen create_upstream
chosen-IsTable out p username password vhost (some i) h = h
chosen-IsTable out p username password vhost none h = elim (Bool-cases (at_limit p)) [
  | inl full ↦ rw full h
  | inr room ↦ rw room (
      connected-IsTable p username password vhost
        (connect out p.config.upstream_url username password vhost) h)
]

Step-IsTable : (p q : Proxy) → Step p q → IsTable p.upstreams → IsTable q.upstreams
unfolding choose_locked finish_client stop_proxy
Step-IsTable _ _ (Limits.accept p q e) h =
    subst (λ x. IsTable x.upstreams) (sym (admit-serves p q e).0) h
Step-IsTable _ _ (Limits.leave p) h = h
Step-IsTable _ _ (Limits.choose out p username password vhost) h =
    chosen-IsTable out p username password vhost
      (first_with_capacity (slice (pool_key username password vhost) p.upstreams)) h
Step-IsTable _ _ (Limits.works p key i m m' found st) h =
    put_upstream-IsTable key i m' p.upstreams h
Step-IsTable _ _ (Limits.sweep p timeout now) h = remove_idle-IsTable timeout now p.upstreams h
Step-IsTable _ _ (Limits.shut_down p) h = tt

pub Reach-IsTable : (p q : Proxy) → Reach p q → IsTable p.upstreams → IsTable q.upstreams
Reach-IsTable _ _ (Limits.here p) h = h
Reach-IsTable _ _ (Limits.step p mid q before last) h =
    Step-IsTable mid q last (Reach-IsTable p mid before h)
