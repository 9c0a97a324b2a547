-- ===== src/Proxy/Tests.antt =====
-- The proxy on small concrete states.
use amqplex.Base.{ℕ, ◌≡◌, refl, arith, true, List, [], ◌∷◌, some}
use amqplex.Base.Result.{ok}
use amqplex.Upstream.{Upstream, start}
use amqplex.Upstream.Steps.{new_upstream}
use amqplex.Proxy.{
  Proxy, Config, Outside, Table, scheme_amqp, slice, append_upstream,
  get_or_create_managed_upstream, remove_idle, admit,
}
use amqplex.Proxy.Key.{pool_key_injective}
use amqplex.Proxy.Isolation.{IsFiled, key_of, append_upstream-IsFiled, Serves, get_or_create-Serves}
use amqplex.Proxy.{ends, stop_proxy}
use amqplex.Proxy.Lookup.{at}
use amqplex.Proxy.Shutdown.{Shut, stop_proxy-Shut}
use amqplex.Proxy.Limits
use amqplex.Proxy.Accept.{
  AcceptCall, connection, transient_error, listener_closed, handled, closed, accept_loop,
  accept_turn, admitted, noted,
}
use amqplex.Proxy.Accept.Answers.{Answers}
use amqplex.Base.{◌+◌, bytes_eq, false}
use amqplex.Base.Result.{Result}
use amqplex.Proxy.{Url, scheme_amqps, connect, parse_upstream_url, upstream_address}
use amqplex.Proxy.Dial.{Sockets, dial_upstream, IsConnected, connect-IsConnected}
use amqplex.Tls.{
  Files, TlsFiles, upstream_tls_config, load_tls_config, root_authorities, client_certificate,
}
use amqplex.Base.Maps.{size}
use amqplex.Upstream.{close_conn, mark_stopped_if_idle, idle_for, close_old}
use amqplex.Proxy.{keep_busy}
use amqplex.Proxy.Sweep.{Tick, sweep_on, sweep_loop}
use amqplex.Proxy.Sweep.Ticks.{Sweeps, sweep_loop-Sweeps}

abbrev bob : List ℕ
bob = b'b' ∷ b'o' ∷ b'b' ∷ []

abbrev secret : List ℕ
secret = b's' ∷ b'3' ∷ []

abbrev root_vhost : List ℕ
root_vhost = b'/' ∷ []

abbrev bobs : Upstream
bobs = start (new_upstream bob secret root_vhost 10) 4

-- A network on which every dial and every handshake succeeds.
abbrev network : Outside
network = record {
  parse_url = λ raw. ok (record { scheme = scheme_amqp; hostname = raw; port = [] });
  dial_upstream = λ net address. ok 6;
  handshake = λ conn username password vhost. ok 7;
}

abbrev one_each : Config
one_each = record {
  upstream_url = b'h' ∷ [];
  pool_max_channels = 10;
  max_upstream_connections = 2;
  max_client_connections = 1;
}

abbrev with_bob : Proxy
with_bob = record {
  config = one_each;
  upstreams = append_upstream (key_of bobs) bobs [];
  listening = true;
  active_clients = 0;
}

pool_key_injective_example : (bob ≡ bob) × (secret ≡ secret) × (root_vhost ≡ root_vhost)
pool_key_injective_example = pool_key_injective bob secret root_vhost bob secret root_vhost refl

no_upstreams : IsFiled []
unfolding slice
no_upstreams key i m e = cc

-- Another user is given an upstream of his own.
get_or_create-Serves_example :
    Serves network with_bob secret bob root_vhost
      (get_or_create_managed_upstream network (λ q. q) with_bob secret bob root_vhost)
get_or_create-Serves_example =
    get_or_create-Serves network (λ q. q) with_bob secret bob root_vhost (omega arith)
      (append_upstream-IsFiled bobs [] no_upstreams) (append_upstream-IsFiled bobs [] no_upstreams)

-- One upstream was left by its last client at 5, the other never had one.
abbrev two_upstreams : Table
two_upstreams = (bob, record bobs { last_empty_time = some 5 } ∷ bobs ∷ []) ∷ []

abbrev with_two : Proxy
with_two = record with_bob { upstreams = two_upstreams }

abbrev at_time : ℕ → Tick
at_time now = record { meanwhile = λ q. q; now = now }

sweep_loop-Sweeps_example :
    Sweeps 10
      (at_time 20)
      (sweep_loop 10 with_two (at_time 12 ∷ [])).0
      (sweep_loop 10 with_two (at_time 12 ∷ [])).1
      (sweep_loop 10 with_two (at_time 12 ∷ at_time 20 ∷ []))
sweep_loop-Sweeps_example =
    sweep_loop-Sweeps 10 with_two (at_time 12 ∷ []) (at_time 20) (refl, tt) (Limits.here, tt)
      Limits.here

swept_at_20 :
    sweep_loop 10 with_two (at_time 12 ∷ at_time 20 ∷ [])
    ≡ (record with_two { upstreams = (bob, bobs ∷ []) ∷ [] }, close_conn 4 ∷ [])
unfolding sweep_loop sweep_on remove_idle keep_busy mark_stopped_if_idle idle_for size close_old
    start new_upstream
swept_at_20 = refl

stop_proxy-Shut_example :
    ((key : List ℕ) (i : ℕ) (m : Upstream)
      → at i (slice key with_bob.upstreams) ≡ some m
      → Shut m i (slice key (stop_proxy with_bob).upstreams) (stop_proxy with_bob).effects)
    × ((stop_proxy with_bob).proxy.upstreams ≡ [])
    × (admit (stop_proxy with_bob).proxy ≡ ends)
stop_proxy-Shut_example = stop_proxy-Shut with_bob

-- One client is the limit. The second finds no room, and the third a stopped proxy.
abbrev calls : List AcceptCall
calls =
    record { meanwhile = λ q. q; gives = connection 5 }
    ∷ record { meanwhile = λ q. q; gives = transient_error }
    ∷ record { meanwhile = λ q. q; gives = connection 6 }
    ∷ record { meanwhile = λ q. (stop_proxy q).proxy; gives = connection 7 }
    ∷ record { meanwhile = λ q. q; gives = listener_closed }
    ∷ []

fates_of_calls : (accept_loop with_bob calls).fates ≡ handled 5 ∷ closed 6 ∷ closed 7 ∷ []
unfolding accept_loop accept_turn admitted admit noted stop_proxy
fates_of_calls = refl

abbrev all_load : Files
all_load = record { load_key_pair = λ cert key. ok 1; load_pool = λ path. ok 2; system_pool = 3 }

-- Only an authority is given.
abbrev authority : TlsFiles
authority = record {
  tls_cert = [];
  tls_key = [];
  tls_ca_cert = b'a' ∷ [];
  tls_client_cert = [];
  tls_client_key = [];
  tls_skip_verify = false;
}

-- Connections tell how they were dialed: 10 and the authority with TLS, 1 without.
abbrev sockets : Sockets
sockets = record { dial_tcp = λ address. ok 1; dial_tls = λ tls address. ok (10 + tls.root_cas) }

abbrev parse_amqps : List ℕ → Result Url
parse_amqps raw = ok (record { scheme = scheme_amqps; hostname = raw; port = [] })

abbrev shake : ℕ → List ℕ → List ℕ → List ℕ → Result ℕ
shake conn username password vhost = ok (conn + 100)

connect-IsConnected_example :
    IsConnected all_load authority sockets parse_amqps shake (b'h' ∷ []) bob secret root_vhost 112
unfolding connect parse_upstream_url upstream_address bytes_eq dial_upstream upstream_tls_config
    load_tls_config root_authorities client_certificate
connect-IsConnected_example =
    connect-IsConnected all_load authority sockets parse_amqps shake (b'h' ∷ []) bob secret
      root_vhost
