-- ===== src/Proxy/Metrics.antt =====
-- proxy/metrics.go: the snapshot that a scrape reports.
pub mod Text
use amqplex.Base.{ℕ, suc, ◌+◌, ◌≡◌, arith, List, [], ◌∷◌, Option, none, some, length}
use amqplex.Base.Maps.{size}
use amqplex.Upstream.{Upstream}
use amqplex.Proxy.{Proxy, Table, total}

pub record Metrics : Type 0 where
  pub active_clients : ℕ
  pub upstream_total : ℕ
  pub upstream_reconnecting : ℕ
  pub channels_used : ℕ
  pub channels_pending_close : ℕ
  pub reconnect_attempts : ℕ

abbrev is_none : Option ℕ → ℕ
is_none none = 1
is_none (some c) = 0

-- The body of the loop of `MetricsHandler`.
unfoldable pub count_upstream : Upstream → Metrics → Metrics
count_upstream m s = record {
  active_clients = s.active_clients;
  upstream_total = suc s.upstream_total;
  upstream_reconnecting = is_none m.conn + s.upstream_reconnecting;
  channels_used = size m.used_channels + s.channels_used;
  channels_pending_close = size m.pending_close + s.channels_pending_close;
  reconnect_attempts = m.reconnect_total + s.reconnect_attempts;
}

unfoldable pub count_slice : List Upstream → Metrics → Metrics
count_slice [] s = s
count_slice (m ∷ ms) s = count_slice ms (count_upstream m s)

unfoldable pub count_table : Table → Metrics → Metrics
count_table [] s = s
count_table ((key, ms) ∷ table) s = count_table table (count_slice ms s)

-- The snapshot that a scrape reports.
unfoldable pub metrics : Proxy → Metrics
metrics p = count_table p.upstreams (record {
  active_clients = p.active_clients;
  upstream_total = 0;
  upstream_reconnecting = 0;
  channels_used = 0;
  channels_pending_close = 0;
  reconnect_attempts = 0;
})

total-count_slice :
    (ms : List Upstream) (s : Metrics)
    → (count_slice ms s).upstream_total ≡ s.upstream_total + length ms
unfolding count_slice count_upstream
total-count_slice [] s = omega arith
total-count_slice (m ∷ ms) s = omega (arith, total-count_slice ms (count_upstream m s))

total-count_table :
    (table : Table) (s : Metrics)
    → (count_table table s).upstream_total ≡ s.upstream_total + total table
unfolding count_table total
total-count_table [] s = omega arith
total-count_table ((key, ms) ∷ table) s =
    omega (arith, total-count_table table (count_slice ms s), total-count_slice ms s)

-- The metric of upstream connections is the count that the global limit is compared with.
pub upstream_total-total : (p : Proxy) → (metrics p).upstream_total ≡ total p.upstreams
unfolding metrics
upstream_total-total p = omega (arith, total-count_table p.upstreams _)
