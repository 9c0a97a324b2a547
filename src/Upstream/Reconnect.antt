-- ===== src/Upstream/Reconnect.antt =====
-- `reconnectLoop` with its backoff, and `handleUpstreamFailure` before it. Durations are nanoseconds.
pub mod Renews
pub mod Panics
use amqplex.Base.{ℕ, zero, suc, ◌+◌, ◌-◌, ◌∙◌, true, ◌*◌, ◌^◌, Bool, false, List, [], ◌∷◌, ◌++◌}
use amqplex.Base.{Option, none, some, ltb, ◌==◌, if◌then◌else◌, All}
use Prim.Native.Nat.{min}
use amqplex.Upstream.{Upstream, reconnected, mark_stopped_if_idle, stop_write_pump, idle_for}
use amqplex.Base.Maps.{size}
use amqplex.Upstream.Steps.{attempt}

-- 500 ms and 30 s.
abbrev pub default_base : ℕ
default_base = 500000000

abbrev pub max_wait : ℕ
max_wait = 30000000000

-- What one attempt meets: what the other goroutines do to the upstream while it sleeps and dials,
-- what the dial gives (`none` is an error), and the time after it.
pub record Attempt : Type 0 where
  pub meanwhile : Upstream → Upstream
  pub dial : Option ℕ
  pub now : ℕ

-- How the loop ends: stopped, connected, or still trying when the attempts that are given end; or with
-- the panic of a second `close` of `writeDone`, which ends the process.
pub data LoopEnd : Type 0 where
  gave_up renewed trying : Upstream → LoopEnd
  panics : LoopEnd

unfoldable pub next_wait : ℕ → ℕ
next_wait wait = if ltb max_wait (wait * 2) then max_wait else wait * 2

-- Behind a dial that has succeeded: `close(oldDone)`.
unfoldable pub renew : Upstream → ℕ → ℕ → LoopEnd
renew m conn now = if m.write_done then panics else renewed (reconnected m conn now)

unfoldable pub dialled : LoopEnd × List ℕ → Upstream → ℕ → Option ℕ → ℕ → LoopEnd × List ℕ
dialled rest m wait none now = (rest.0, wait ∷ rest.1)
dialled rest m wait (some conn) now = (renew m conn now, wait ∷ [])

-- The end of the loop, and the sleeps that it made.
unfoldable pub reconnect_rounds : Upstream → ℕ → List Attempt → LoopEnd × List ℕ
unfolding dialled
reconnect_rounds m wait [] = (trying m, [])
reconnect_rounds m wait (a ∷ as') =
    let m1 = a.meanwhile (attempt m) in
    let rest = reconnect_rounds m1 (next_wait wait) as' in
    if m.stopped then (gave_up m, []) else dialled rest m1 wait a.dial a.now

unfoldable pub reconnect_loop : Upstream → ℕ → List Attempt → LoopEnd × List ℕ
reconnect_loop m base attempts =
    reconnect_rounds m (if base == 0 then default_base else base) attempts

-- The waits `base`, `base * 2`, `base * 4`, … up to the cap, for `n` attempts.
abbrev pub backoff : ℕ → ℕ → ℕ → List ℕ
backoff zero exponent base = []
backoff (suc n) exponent base = min (base * 2 ^ exponent) max_wait ∷ backoff n (suc exponent) base
