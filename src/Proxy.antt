-- ===== src/Proxy.antt =====
-- proxy/proxy.go: the table of upstreams, the choice of one for a client, the sweep of the idle ones,
-- the accept loop's admission, and `Stop`.
-- The table is read and written under `p.mu`; a managed upstream is named by its key and its place.
pub mod Key
pub mod Lookup
pub mod Isolation
pub mod Limits
pub mod Filed
pub mod Tables
pub mod Idle
pub mod Sweep
pub mod Shutdown
pub mod Stopped
pub mod Accept
pub mod Dial
pub mod Metrics
mod Tests
use amqplex.Base.{
  ℕ, zero, suc, ◌+◌, ◌-◌, ◌/◌, ◌%◌, Bool, true, false, List, [], ◌∷◌, ◌++◌, Option, none, some,
  length, ltb, leb, ◌==◌, ◌&&◌, not, bytes_eq, if◌then◌else◌,
}
use amqplex.Base.Maps.{size}
use amqplex.Base.Result.{
  Result, ok, err, Error, ◌>>=◌, ◌>>◌, ensure, wrap, limit_reached, bad_scheme, in_dial,
  in_handshake,
}
use amqplex.Upstream.{
  Upstream, Effect, close_conn, has_capacity, start, mark_stopped_if_idle, abort_all,
  stop_write_pump,
}
use amqplex.Upstream.Steps.{new_upstream, stop}
use Key.{pool_key}

-- What the code reads of `Config`; a negative limit counts as 0 here, as the code's tests treat it.
pub record Config : Type 0 where
  pub upstream_url : List ℕ
  pub pool_max_channels : ℕ
  pub max_upstream_connections : ℕ
  pub max_client_connections : ℕ

-- A Go map from keys to slices, without the order in which it is ranged over.
abbrev pub Table : Type 0
Table = List (List ℕ × List Upstream)

-- `listening` says that `netListener` is not nil.
pub record Proxy : Type 0 where
  pub config : Config
  pub upstreams : Table
  pub listening : Bool
  pub active_clients : ℕ

-- `p.upstreams[key]`, which is empty for a key that is not there.
unfoldable pub slice : List ℕ → Table → List Upstream
slice key [] = []
slice key ((k, ms) ∷ table) = if bytes_eq k key then ms else slice key table

-- `p.upstreams[key] = append(p.upstreams[key], m)`
unfoldable pub append_upstream : List ℕ → Upstream → Table → Table
append_upstream key m [] = (key, m ∷ []) ∷ []
append_upstream key m ((k, ms) ∷ table) =
    let rest = append_upstream key m table in
    if bytes_eq k key then (k, ms ++ (m ∷ [])) ∷ table else (k, ms) ∷ rest

abbrev pub next_place : Option ℕ → Option ℕ
next_place none = none
next_place (some i) = some (suc i)

-- The place of the first upstream that has capacity.
unfoldable pub first_with_capacity : List Upstream → Option ℕ
first_with_capacity [] = none
first_with_capacity (m ∷ ms) =
    let later = first_with_capacity ms in if has_capacity m then some 0 else next_place later

unfoldable pub total : Table → ℕ
total [] = 0
total ((k, ms) ∷ table) = length ms + total table

-- What `url.Parse` finds in a URL.
pub record Url : Type 0 where
  pub scheme : List ℕ
  pub hostname : List ℕ
  pub port : List ℕ

abbrev has_colon : List ℕ → Bool
has_colon [] = false
has_colon (b ∷ bs) = if b == b':' then true else has_colon bs

-- `net.JoinHostPort`
abbrev join_host_port : List ℕ → List ℕ → List ℕ
join_host_port host port =
    if has_colon host then b'[' ∷ (host ++ (b']' ∷ b':' ∷ port)) else host ++ (b':' ∷ port)

abbrev default_port : List ℕ → List ℕ → List ℕ
default_port [] otherwise = otherwise
default_port (b ∷ bs) otherwise = b ∷ bs

abbrev pub scheme_amqp : List ℕ
scheme_amqp = b'a' ∷ b'm' ∷ b'q' ∷ b'p' ∷ []

abbrev pub scheme_amqps : List ℕ
scheme_amqps = scheme_amqp ++ (b's' ∷ [])

pub data Network : Type 0 where
  tcp tcp_tls : Network

-- The `switch` of `parseUpstreamURL`.
unfoldable pub upstream_address : Url → Result (Network × List ℕ)
upstream_address u =
    if bytes_eq u.scheme scheme_amqp
    then ok (tcp, join_host_port u.hostname (default_port u.port (b'5' ∷ b'6' ∷ b'7' ∷ b'2' ∷ [])))
    else if bytes_eq u.scheme scheme_amqps
    then ok
        (tcp_tls, join_host_port u.hostname (default_port u.port (b'5' ∷ b'6' ∷ b'7' ∷ b'1' ∷ [])))
    else err bad_scheme

-- What the network answers at the moment of the call: `url.Parse`, `dialUpstream`, which gives a
-- connection's identity, and the handshake on it, which gives that of the `UpstreamConn`.
pub record Outside : Type 0 where
  pub parse_url : List ℕ → Result Url
  pub dial_upstream : Network → List ℕ → Result ℕ
  pub handshake : ℕ → List ℕ → List ℕ → List ℕ → Result ℕ

-- `parseUpstreamURL`
unfoldable pub parse_upstream_url : Outside → List ℕ → Result (Network × List ℕ)
parse_upstream_url out raw_url = do u ← out.parse_url raw_url; upstream_address u

unfoldable pub connect : Outside → List ℕ → List ℕ → List ℕ → List ℕ → Result ℕ
connect out raw_url username password vhost = do
  (network, address) ← parse_upstream_url out raw_url
  net_conn ← wrap in_dial (out.dial_upstream network address)
  wrap in_handshake (out.handshake net_conn username password vhost)

-- `p.config.MaxUpstreamConnections > 0` and the count behind it.
unfoldable pub at_limit : Proxy → Bool
at_limit p =
    ltb 0 p.config.max_upstream_connections
    && leb p.config.max_upstream_connections (total p.upstreams)

-- The new upstream, once it is connected.
unfoldable pub connected : Proxy → List ℕ → List ℕ → List ℕ → Result ℕ → Proxy × Result ℕ
connected p username password vhost (err e) = (p, err e)
connected p username password vhost (ok conn) =
    let key = pool_key username password vhost in
    let m = start (new_upstream username password vhost p.config.pool_max_channels) conn in
    (
      record p { upstreams = append_upstream key m p.upstreams },
      ok (length (slice key p.upstreams)),
    )

-- Behind the two scans, with the write lock held.
unfoldable pub create_upstream : Outside → Proxy → List ℕ → List ℕ → List ℕ → Proxy × Result ℕ
unfolding connected
create_upstream out p username password vhost =
    if at_limit p
    then (p, err limit_reached)
    else connected p username password vhost
        (connect out p.config.upstream_url username password vhost)

unfoldable pub chosen : Outside → Proxy → List ℕ → List ℕ → List ℕ → Option ℕ → Proxy × Result ℕ
chosen out p username password vhost (some i) = (p, ok i)
chosen out p username password vhost none = create_upstream out p username password vhost

-- The part of `getOrCreateManagedUpstream` with the write lock held: the scan once more, and a new
-- upstream if it finds none.
unfoldable pub choose_locked : Outside → Proxy → List ℕ → List ℕ → List ℕ → Proxy × Result ℕ
unfolding chosen
choose_locked out p username password vhost =
    chosen out p username password vhost
      (first_with_capacity (slice (pool_key username password vhost) p.upstreams))

unfoldable pub choose_scanned :
    Outside → (Proxy → Proxy) → Proxy → List ℕ → List ℕ → List ℕ → Option ℕ → Proxy × Result ℕ
choose_scanned out between p username password vhost (some i) = (p, ok i)
choose_scanned out between p username password vhost none =
    choose_locked out (between p) username password vhost

-- `getOrCreateManagedUpstream`: the place of the upstream in the slice of its key. `between` is what
-- the other goroutines do to the proxy between the scan under the read lock and the write lock.
unfoldable pub get_or_create_managed_upstream :
    Outside → (Proxy → Proxy) → Proxy → List ℕ → List ℕ → List ℕ → Proxy × Result ℕ
unfolding choose_scanned
get_or_create_managed_upstream out between p username password vhost =
    choose_scanned out between p username password vhost
      (first_with_capacity (slice (pool_key username password vhost) p.upstreams))

-- The upstreams of a key that a sweep keeps, and its effects.
unfoldable pub keep_busy : ℕ → ℕ → List Upstream → List Upstream × List Effect
keep_busy timeout now [] = ([], [])
keep_busy timeout now (m ∷ ms) =
    let (m', stopped, effects) = mark_stopped_if_idle m timeout now in
    let rest = keep_busy timeout now ms in
    (if stopped then rest.0 else m' ∷ rest.0, effects ++ rest.1)

kept : List ℕ → List Upstream → Table → Table
kept key [] table = table
kept key (m ∷ ms) table = (key, m ∷ ms) ∷ table

-- `removeIdleUpstreams`
unfoldable pub remove_idle : ℕ → ℕ → Table → Table × List Effect
unfolding kept
remove_idle timeout now [] = ([], [])
remove_idle timeout now ((key, ms) ∷ table) =
    let swept = keep_busy timeout now ms in
    let rest = remove_idle timeout now table in (kept key swept.0 rest.0, swept.1 ++ rest.1)

-- What the accept loop does with a connection that it has accepted.
pub data Admission : Type 0 where
  serves refuses : Proxy → Admission
  ends : Admission

unfoldable pub admit : Proxy → Admission
admit p =
    if not p.listening
    then ends
    else if ltb 0 p.config.max_client_connections
        && leb p.config.max_client_connections p.active_clients
    then refuses p
    else serves (record p { active_clients = suc p.active_clients })

-- The deferred `p.activeClients.Add(-1)`.
unfoldable pub finish_client : Proxy → Proxy
finish_client p = record p { active_clients = p.active_clients - 1 }

close_stopped : Option ℕ → List Effect
close_stopped none = []
close_stopped (some c) = close_conn c ∷ []

-- What `Stop` makes of an upstream, whose goroutines keep their pointers to it, and what it does.
stop_upstream : Upstream → Upstream × List Effect
unfolding close_stopped
stop_upstream m = (stop m, abort_all m.clients ++ close_stopped m.conn)

stop_slice : List Upstream → List Upstream × List Effect
unfolding stop_upstream
stop_slice [] = ([], [])
stop_slice (m ∷ ms) =
    let one = stop_upstream m in let rest = stop_slice ms in (one.0 ∷ rest.0, one.1 ++ rest.1)

stop_table : Table → Table × List Effect
unfolding stop_slice
stop_table [] = ([], [])
stop_table ((key, ms) ∷ table) =
    let one = stop_slice ms in
    let rest = stop_table table in ((key, one.0) ∷ rest.0, one.1 ++ rest.1)

-- What `Stop` has done when it starts to wait for the clients: the proxy, the upstreams as they stood in
-- its table, and the effects.
pub record StoppedProxy : Type 0 where
  pub proxy : Proxy
  pub upstreams : Table
  pub effects : List Effect

-- `Stop`, up to its wait for the clients.
unfoldable pub stop_proxy : Proxy → StoppedProxy
unfolding stop_table
stop_proxy p =
    let stopped = stop_table p.upstreams in
    record {
      proxy = record p { upstreams = []; listening = false };
      upstreams = stopped.0;
      effects = stopped.1;
    }
