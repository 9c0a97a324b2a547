-- ===== src/Startup.antt =====
-- main.go, and NewProxy, the head of Start and startIdleCleanup of proxy/proxy.go: from the command
-- line to what runs. What `flag` makes of the arguments is given; durations are nanoseconds.
pub mod Configured
mod Tests
use amqplex.Base.{
  ℕ, ◌*◌, ◌==◌, Bool, true, false, List, [], ◌∷◌, ◌++◌, Option, none, some, bytes_eq, ltb,
  if◌then◌else◌,
}
use amqplex.Base.Text.{codes}
use amqplex.Base.Result.{Result, ok, err, ◌>>=◌, wrap, too_many_arguments, in_listener}
use amqplex.Config.{Viper, FullConfig, load_config}
use amqplex.Proxy.{Config, Proxy}
use amqplex.Proxy.Key.{decimal}
use amqplex.Tls.{TlsFiles, Files, ServerTls, Listening, new_amqp_listener, start_listener}

-- What the flag set has found: the value of `-config`, and the arguments behind the flags.
pub record Flags : Type 0 where
  pub config : List ℕ
  pub remaining : List (List ℕ)

flags_used : Flags → List (List ℕ) → Result (List ℕ × List ℕ)
flags_used f [] = ok (f.config, [])
flags_used f (url ∷ []) = ok (f.config, url)
flags_used f (url ∷ next ∷ more) = err too_many_arguments

-- `parseFlags`: the path of the configuration and the URL of the upstream.
unfoldable pub parse_flags : Result Flags → Result (List ℕ × List ℕ)
unfolding flags_used
parse_flags parsed = do f ← parsed; flags_used f f.remaining

-- "Override upstream URL if provided via command line"
unfoldable pub override_url : List ℕ → FullConfig → FullConfig
override_url [] c = c
override_url (b ∷ bs) c = record c { upstream_url = b ∷ bs }

-- The fields that the proxy's table and its limits read, and those of the listener.
abbrev pub proxy_config : FullConfig → Config
proxy_config c = record {
  upstream_url = c.upstream_url;
  pool_max_channels = c.pool_max_channels;
  max_upstream_connections = c.max_upstream_connections;
  max_client_connections = c.max_client_connections;
}

abbrev pub tls_files : FullConfig → TlsFiles
tls_files c = record {
  tls_cert = c.tls_cert;
  tls_key = c.tls_key;
  tls_ca_cert = c.tls_ca_cert;
  tls_client_cert = c.tls_client_cert;
  tls_client_key = c.tls_client_key;
  tls_skip_verify = c.tls_skip_verify;
}

-- `NewProxy`: the listener's TLS configuration, and a proxy without upstreams.
unfoldable pub new_proxy : Files → FullConfig → Result (Option ServerTls × Proxy)
new_proxy files c = do
  listener ← wrap in_listener (new_amqp_listener files (tls_files c))
  ok (
    listener,
    record { config = proxy_config c; upstreams = []; listening = false; active_clients = 0 },
  )

abbrev pub second : ℕ
second = 1000000000

-- The timeout and the interval of `startIdleCleanup`, where `Start` starts it.
unfoldable pub idle_cleanup : FullConfig → Option (ℕ × ℕ)
idle_cleanup c =
    if ltb 0 c.pool_idle_timeout
    then some (
      c.pool_idle_timeout * second,
      (if c.pool_cleanup_interval == 0 then 30 else c.pool_cleanup_interval) * second,
    )
    else none

-- `fmt.Sprintf("%s:%d", address, port)`
abbrev pub address : List ℕ → ℕ → List ℕ
address host port = host ++ (b':' ∷ decimal port)

-- A process that runs: how it listens for clients, the proxy, its sweep, and the address of the health
-- and metrics server.
pub record Running : Type 0 where
  pub listening : Listening
  pub proxy : Proxy
  pub cleanup : Option (ℕ × ℕ)
  pub admin_address : List ℕ

unfoldable pub run_proxy : FullConfig → Option ServerTls × Proxy → Result Running
run_proxy c (listener, p) = do
  listening ← wrap in_listener (start_listener (tls_files c) listener)
  ok (record {
    listening = listening;
    proxy = record p { listening = true };
    cleanup = idle_cleanup c;
    admin_address = address c.listen_address c.admin_port;
  })

-- `main`, up to the accept loop.
unfoldable pub start_process : Viper → Files → Result Flags → Result Running
start_process v files parsed = do
  (path, url) ← parse_flags parsed
  loaded ← load_config v path (codes "AMQP")
  let c = override_url url loaded
  made ← new_proxy files c
  run_proxy c made

pub data Level : Type 0 where
  debug info warn error : Level

-- `buildLogger` on the two variables in lower case: the level, and whether it writes JSON.
unfoldable pub log_level : List ℕ → Level
log_level text =
    if bytes_eq text (codes "debug")
    then debug
    else if bytes_eq text (codes "warn")
    then warn
    else if bytes_eq text (codes "error")
    then error
    else info

unfoldable pub build_logger : List ℕ → List ℕ → Level × Bool
build_logger level format = (log_level level, bytes_eq format (codes "json"))
