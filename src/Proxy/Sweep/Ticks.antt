-- ===== src/Proxy/Sweep/Ticks.antt =====
-- proxy/proxy.go: what the loop of `startIdleCleanup` leaves in the table and closes.
use amqplex.Base.{
  ℕ, ◌≡◌, refl, sym, ◌∙◌, ap, subst, List, [], ◌∷◌, ◌++◌, Option, none, some, if◌then◌else◌,
  Bool-cases, inl, inr, append_assoc, append-nil,
}
use amqplex.Upstream.{Upstream, Effect, close_conn, mark_stopped_if_idle, close_old}
use amqplex.Proxy.{Proxy, Table, slice, keep_busy, remove_idle}
use amqplex.Proxy.Limits.{Reach}
use amqplex.Proxy.Limits
use amqplex.Proxy.Idle.{IsTable, busy, is_idle, idle_for_lem, slice-remove_idle}
use amqplex.Proxy.Stopped.{Reach-trans}
use amqplex.Proxy.Sweep.{Tick, sweep_on, sweep_loop}
use amqplex.Proxy.Sweep.Distinct.{Reach-IsTable}

-- The connections of the idle upstreams of a slice, and of the table.
abbrev closed_conn : Option ℕ → List Effect
closed_conn none = []
closed_conn (some c) = close_conn c ∷ []

abbrev closed_slice : ℕ → ℕ → List Upstream → List Effect
closed_slice timeout now [] = []
closed_slice timeout now (m ∷ ms) =
    let rest = closed_slice timeout now ms in
    if is_idle timeout now m then closed_conn m.conn ++ rest else rest

abbrev pub closed_idle : ℕ → ℕ → Table → List Effect
closed_idle timeout now [] = []
closed_idle timeout now ((key, ms) ∷ table) =
    closed_slice timeout now ms ++ closed_idle timeout now table

closed_conn_lem : (o : Option ℕ) → close_old o ≡ closed_conn o
unfolding close_old
closed_conn_lem none = refl
closed_conn_lem (some c) = refl

keep_busy-closed_slice :
    (timeout now : ℕ) (ms : List Upstream)
    → (keep_busy timeout now ms).1 ≡ closed_slice timeout now ms
unfolding keep_busy mark_stopped_if_idle
keep_busy-closed_slice timeout now [] = refl
keep_busy-closed_slice timeout now (m ∷ ms) = elim (Bool-cases (is_idle timeout now m)) [
  | inl idle ↦
      rw
        (
          idle_for_lem m timeout now,
          idle,
          closed_conn_lem m.conn,
          keep_busy-closed_slice timeout now ms,
        )
        refl
  | inr not_idle ↦
      rw (idle_for_lem m timeout now, not_idle, keep_busy-closed_slice timeout now ms) refl
]

remove_idle-closed_idle :
    (timeout now : ℕ) (table : Table)
    → (remove_idle timeout now table).1 ≡ closed_idle timeout now table
unfolding remove_idle
remove_idle-closed_idle timeout now [] = refl
remove_idle-closed_idle timeout now ((key, ms) ∷ table) =
    rw (keep_busy-closed_slice timeout now ms, remove_idle-closed_idle timeout now table) refl

-- What the others do until a tick's sweep are steps of the proxy.
abbrev pub MakesSteps : List Tick → Type 0
MakesSteps [] = Unit {0}
MakesSteps (tick ∷ ticks) = ((p : Proxy) → Reach p (tick.meanwhile p)) × MakesSteps ticks

sweep_on-Reach :
    (timeout : ℕ) (tick : Tick) (p : Proxy)
    → Reach p (tick.meanwhile p)
    → Reach p (sweep_on timeout tick p).0
unfolding sweep_on
sweep_on-Reach timeout tick p before =
    Limits.step p (tick.meanwhile p) _ before (Limits.sweep (tick.meanwhile p) timeout tick.now)

sweep_loop-Reach :
    (timeout : ℕ) (p : Proxy) (ticks : List Tick)
    → MakesSteps ticks
    → Reach p (sweep_loop timeout p ticks).0
unfolding sweep_loop
sweep_loop-Reach timeout p [] steps = Limits.here p
sweep_loop-Reach timeout p (tick ∷ ticks) (first, later) =
    let q = (sweep_on timeout tick p).0 in
    Reach-trans p q _ (sweep_on-Reach timeout tick p (first p))
      (sweep_loop-Reach timeout q ticks later)

-- A tick at the end is one sweep more.
abbrev one_more : ℕ → Tick → Proxy × List Effect → Proxy × List Effect
one_more timeout tick (p, effects) =
    let last = sweep_on timeout tick p in (last.0, effects ++ last.1)

abbrev after : List Effect → Proxy × List Effect → Proxy × List Effect
after effects (p, more) = (p, effects ++ more)

sweep_loop-append :
    (timeout : ℕ) (p : Proxy) (ticks : List Tick) (tick : Tick)
    → sweep_loop timeout p (ticks ++ (tick ∷ []))
      ≡ one_more timeout tick (sweep_loop timeout p ticks)
unfolding sweep_loop
sweep_loop-append timeout p [] tick = rw (append-nil (sweep_on timeout tick p).1) refl
sweep_loop-append timeout p (t ∷ ticks) tick =
    let now = sweep_on timeout t p in
    let rest = sweep_loop timeout now.0 ticks in
    let last = sweep_on timeout tick rest.0 in
    ap (after now.1) (sweep_loop-append timeout now.0 ticks tick)
    ∙ ap (λ es. (last.0, es)) (sym (append_assoc now.1 rest.1 last.1))

-- What the sweep of a tick makes of the proxy `q` that it finds, after the effects of earlier ones.
pub record Sweeps (timeout : ℕ) (tick : Tick) (q : Proxy) (earlier : List Effect)
    (r : Proxy × List Effect) : Type 0 where
  pub left :
      (key : List ℕ) → slice key r.0.upstreams ≡ busy timeout tick.now (slice key q.upstreams)
  pub others : r.0 ≡ record q { upstreams = r.0.upstreams }
  pub closes : r.1 ≡ earlier ++ closed_idle timeout tick.now q.upstreams

one_more-Sweeps :
    (timeout : ℕ) (tick : Tick) (p : Proxy) (earlier : List Effect)
    → IsTable (tick.meanwhile p).upstreams
    → Sweeps timeout tick (tick.meanwhile p) earlier (one_more timeout tick (p, earlier))
unfolding sweep_on
one_more-Sweeps timeout tick p earlier table =
    let q = tick.meanwhile p in
    record {
      left = λ key. slice-remove_idle timeout tick.now key q.upstreams table;
      others = refl;
      closes = ap (λ es. earlier ++ es) (remove_idle-closed_idle timeout tick.now q.upstreams);
    }

-- From a table with one entry for each key on, such as the empty one, whatever others do to the proxy
-- between the ticks: the sweep of each tick leaves under every key exactly the upstreams it finds
-- there that have a client, have a channel in use, never lost their last client, or lost it less than
-- `timeout` before, unchanged and in their order; it closes the connections of the others and nothing
-- else; and it leaves the rest of the proxy as it is.
pub sweep_loop-Sweeps :
    (timeout : ℕ) (p : Proxy) (ticks : List Tick) (tick : Tick)
    → IsTable p.upstreams
    → MakesSteps ticks
    → ((q : Proxy) → Reach q (tick.meanwhile q))
    → let before = sweep_loop timeout p ticks in
      Sweeps timeout tick
        (tick.meanwhile before.0)
        before.1
        (sweep_loop timeout p (ticks ++ (tick ∷ [])))
sweep_loop-Sweeps timeout p ticks tick table steps last =
    let before = sweep_loop timeout p ticks in
    let found = tick.meanwhile before.0 in
    let distinct =
      Reach-IsTable p found
        (Reach-trans p before.0 found (sweep_loop-Reach timeout p ticks steps) (last before.0))
        table in
    subst (Sweeps timeout tick found before.1) (sym (sweep_loop-append timeout p ticks tick))
      (one_more-Sweeps timeout tick before.0 before.1 distinct)
