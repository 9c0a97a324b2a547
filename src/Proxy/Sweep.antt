-- ===== src/Proxy/Sweep.antt =====
-- proxy/proxy.go: the loop of `startIdleCleanup`.
pub mod Distinct
pub mod Ticks
use amqplex.Base.{ℕ, List, [], ◌∷◌, ◌++◌}
use amqplex.Upstream.{Effect}
use amqplex.Proxy.{Proxy, remove_idle}

-- A tick of the ticker: the time, and what others do to the proxy until the sweep has the lock.
pub record Tick : Type 0 where
  pub meanwhile : Proxy → Proxy
  pub now : ℕ

unfoldable pub sweep_on : ℕ → Tick → Proxy → Proxy × List Effect
sweep_on timeout tick p =
    let q = tick.meanwhile p in
    let swept = remove_idle timeout tick.now q.upstreams in
    (record q { upstreams = swept.0 }, swept.1)

-- The ticks until `done` is closed.
unfoldable pub sweep_loop : ℕ → Proxy → List Tick → Proxy × List Effect
unfolding sweep_on
sweep_loop timeout p [] = (p, [])
sweep_loop timeout p (tick ∷ ticks) =
    let now = sweep_on timeout tick p in
    let later = sweep_loop timeout now.0 ticks in (later.0, now.1 ++ later.1)
