-- ===== src/Proxy/Limits.antt =====
-- The two limits of the configuration: on upstream connections and on clients.
use amqplex.Base.{
  ℕ, suc, ◌+◌, ◌≤◌, ◌≡◌, refl, sym, arith, false, List, [], ◌∷◌, Option, none, some, length, ltb,
  leb, ◌&&◌, Bool-cases, inl, inr,
}
use amqplex.Base.Result.{Result, ok, err}
use amqplex.Base.{subst}
use amqplex.Upstream.{Upstream, start}
use amqplex.Upstream.Steps.{new_upstream}
use amqplex.Upstream.Steps
use amqplex.Proxy.{
  Proxy, Outside, Table, slice, first_with_capacity, total, at_limit, connect, connected,
  create_upstream, chosen, choose_locked, remove_idle, keep_busy, admit, serves, finish_client,
  stop_proxy, kept,
}
use amqplex.Proxy.Key.{pool_key}
use amqplex.Proxy.Lookup.{at, put_upstream, total-put_upstream, total-append_upstream}

-- One event of the proxy: a client is accepted or leaves, an upstream is chosen for one, an upstream
-- of the table makes a step of its own, the idle upstreams are swept, or the proxy is stopped.
pub data Step : Proxy → Proxy → Type 0 where
  accept : (p p' : Proxy) → admit p ≡ serves p' → Step p p'
  leave : (p : Proxy) → Step p (finish_client p)
  choose :
      (out : Outside) (p : Proxy) (username password vhost : List ℕ)
      → Step p (choose_locked out p username password vhost).0
  works :
      (p : Proxy) (key : List ℕ) (i : ℕ) (m m' : Upstream)
      → at i (slice key p.upstreams) ≡ some m
      → Steps.Step m m'
      → Step p (record p { upstreams = put_upstream key i m' p.upstreams })
  sweep :
      (p : Proxy) (timeout now : ℕ)
      → Step p (record p { upstreams = (remove_idle timeout now p.upstreams).0 })
  shut_down : (p : Proxy) → Step p (stop_proxy p).proxy

pub data Reach : Proxy → Proxy → Type 0 where
  here : (p : Proxy) → Reach p p
  step : (p q r : Proxy) → Reach p q → Step q r → Reach p r

-- A limit of 0 is none.
pub record WithinLimits (p : Proxy) : Type 0 where
  pub upstreams :
      1 ≤ p.config.max_upstream_connections → total p.upstreams ≤ p.config.max_upstream_connections
  pub clients :
      1 ≤ p.config.max_client_connections → p.active_clients ≤ p.config.max_client_connections

keep_busy_fewer :
    (timeout now : ℕ) (ms : List Upstream) → length (keep_busy timeout now ms).0 ≤ length ms
unfolding keep_busy
keep_busy_fewer timeout now [] = omega arith
keep_busy_fewer timeout now (m ∷ ms) = ground (arith, keep_busy_fewer timeout now ms)

total-kept :
    (key : List ℕ) (ms : List Upstream) (table : Table)
    → total (kept key ms table) ≡ length ms + total table
unfolding kept total
total-kept key [] table = omega arith
total-kept key (m ∷ ms) table = refl

remove_idle_fewer :
    (timeout now : ℕ) (table : Table) → total (remove_idle timeout now table).0 ≤ total table
unfolding remove_idle total
remove_idle_fewer timeout now [] = omega arith
remove_idle_fewer timeout now ((key, ms) ∷ table) = omega (
  arith,
  total-kept key (keep_busy timeout now ms).0 (remove_idle timeout now table).0,
  keep_busy_fewer timeout now ms,
  remove_idle_fewer timeout now table,
)

pub admit-serves :
    (p p' : Proxy)
    → admit p ≡ serves p'
    → (p' ≡ record p { active_clients = suc p.active_clients })
      × (1 ≤ p.config.max_client_connections
          → suc p.active_clients ≤ p.config.max_client_connections)
unfolding admit
admit-serves p p' e = elim (Bool-cases p.listening) [
  | inr closed ↦ absurd (ground (arith, e, closed))
  | inl open_ ↦
      elim (Bool-cases (
        ltb 0 p.config.max_client_connections
        && leb p.config.max_client_connections p.active_clients)) [
          | inl full ↦ absurd (ground (arith, e, full, open_))
          | inr room ↦ (ground (arith, e, room, open_), ground (arith, room))
        ]
]

admit-WithinLimits : (p p' : Proxy) → admit p ≡ serves p' → WithinLimits p → WithinLimits p'
admit-WithinLimits p p' e w =
    let (same, room) = admit-serves p p' e in
    subst WithinLimits (sym same) (record { upstreams = w.upstreams; clients = room })

connected-WithinLimits :
    (p : Proxy) (username password vhost : List ℕ) (r : Result ℕ)
    → at_limit p ≡ false
    → WithinLimits p
    → WithinLimits (connected p username password vhost r).0
unfolding connected at_limit
connected-WithinLimits p username password vhost (err e) h w = w
connected-WithinLimits p username password vhost (ok conn) h w = record {
  upstreams = λ limited. ground (
    arith,
    total-append_upstream (pool_key username password vhost)
        (start (new_upstream username password vhost p.config.pool_max_channels) conn) p.upstreams,
    h,
  );
  clients = w.clients;
}

chosen-WithinLimits :
    (out : Outside) (p : Proxy) (username password vhost : List ℕ) (o : Option ℕ)
    → WithinLimits p
    → WithinLimits (chosen out p username password vhost o).0
unfolding chosen create_upstream
chosen-WithinLimits out p username password vhost (some i) w = w
chosen-WithinLimits out p username password vhost none w = elim (Bool-cases (at_limit p)) [
  | inl full ↦ rw full w
  | inr room ↦ rw room (
      connected-WithinLimits p username password vhost
        (connect out p.config.upstream_url username password vhost) room w)
]

pub Step-WithinLimits : (p p' : Proxy) → Step p p' → WithinLimits p → WithinLimits p'
unfolding choose_locked finish_client stop_proxy total
Step-WithinLimits _ _ (accept p p' e) w = admit-WithinLimits p p' e w
Step-WithinLimits _ _ (leave p) w = record {
  upstreams = w.upstreams;
  clients = λ limited. omega (arith, w.clients limited);
}
Step-WithinLimits _ _ (choose out p username password vhost) w =
    chosen-WithinLimits out p username password vhost
      (first_with_capacity (slice (pool_key username password vhost) p.upstreams)) w
Step-WithinLimits _ _ (works p key i m m' found st) w = record {
  upstreams =
      λ limited. omega (arith, w.upstreams limited, total-put_upstream key i m' p.upstreams);
  clients = w.clients;
}
Step-WithinLimits _ _ (sweep p timeout now) w = record {
  upstreams =
      λ limited. omega (arith, w.upstreams limited, remove_idle_fewer timeout now p.upstreams);
  clients = w.clients;
}
Step-WithinLimits _ _ (shut_down p) w = record {
  upstreams = λ limited. omega arith;
  clients = w.clients;
}

-- In whatever order clients come and go, upstreams are chosen, work, are swept and stopped: a proxy that starts
-- within its two limits never has more upstream connections than `MaxUpstreamConnections`, nor more
-- clients than `MaxClientConnections`, where these are not 0.
pub Reach-WithinLimits : (p q : Proxy) → Reach p q → WithinLimits p → WithinLimits q
Reach-WithinLimits _ _ (here p) w = w
Reach-WithinLimits _ _ (step p mid q before last) w =
    Step-WithinLimits mid q last (Reach-WithinLimits p mid before w)
