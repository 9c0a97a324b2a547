-- ===== src/Startup/Tests.antt =====
-- A process that is started with a URL only.
use amqplex.Base.{◌≡◌, refl, true, [], ◌∷◌, some, bytes_eq}
use amqplex.Base.Text.{codes}
use amqplex.Base.Result.{ok}
use amqplex.Config.{load_config, read_from, read_fields}
use amqplex.Config.Tests.{bare}
use amqplex.Proxy.{Proxy}
use amqplex.Proxy.Key.{decimal, digits}
use amqplex.Proxy.Limits.{here, WithinLimits}
use amqplex.Proxy.Tables.{AllPooled}
use amqplex.Tls.{Files, plain_text, new_amqp_listener, start_listener}
use amqplex.Startup.{
  Flags, parse_flags, override_url, start_process, new_proxy, run_proxy, Running, idle_cleanup,
}
use amqplex.Startup.Configured.{start_process-Safe}

abbrev readable : Files
readable = record { load_key_pair = λ cert key. ok 1; load_pool = λ path. ok 2; system_pool = 3 }

abbrev only_url : Flags
only_url = record { config = []; remaining = codes "amqp://b" ∷ [] }

abbrev fresh : Proxy
fresh = record {
  config = record {
    upstream_url = codes "amqp://b";
    pool_max_channels = 65535;
    max_upstream_connections = 0;
    max_client_connections = 0;
  };
  upstreams = [];
  listening = true;
  active_clients = 0;
}

abbrev running : Running
running = record {
  listening = plain_text;
  proxy = fresh;
  cleanup = some (5000000000, 30000000000);
  admin_address = codes "0.0.0.0:9099";
}

started : start_process bare readable (ok only_url) ≡ ok running
unfolding start_process parse_flags load_config read_from read_fields override_url new_proxy
    run_proxy decimal digits new_amqp_listener start_listener idle_cleanup bytes_eq
started = refl

start_process-Safe_example : WithinLimits fresh × AllPooled fresh
start_process-Safe_example =
    start_process-Safe bare readable (ok only_url) running fresh started (here fresh)
