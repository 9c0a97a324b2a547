-- ===== src/Config/Loads.antt =====
-- Where each field of the configuration comes from.
use amqplex.Base.{ℕ, ◌≡◌, refl, ap, false, List, [], ◌∷◌, ◌++◌, Option, none, some, bytes_eq}
use amqplex.Base.Text.{codes}
use amqplex.Base.Result.{Result, ok, err, Error, in_config}
use amqplex.Config.{
  Call, read_in_config, config_file, config_name, config_type, config_path, env_key_replacer, Viper,
  FullConfig, defaults, environment, read_from, read_fields, load_config, with_replacer,
  read_explicit,
}
use amqplex.Config.Documented.{Environment, ConfigFile, choose, IsDocumented}

-- The table of the README: for each field its variable, its key in the file and its default.
abbrev pub from_sources : Environment → ConfigFile → List Call → FullConfig
from_sources env file h = record {
  listen_address =
      choose (env.string (codes "AMQP_LISTEN_ADDRESS")) (file.string h (codes "listen.address"))
        (codes "0.0.0.0");
  listen_port = choose (env.int (codes "AMQP_LISTEN_PORT")) (file.int h (codes "listen.port")) 5673;
  admin_port =
      choose (env.int (codes "AMQP_LISTEN_ADMIN_PORT")) (file.int h (codes "listen.admin_port"))
        9099;
  pool_idle_timeout =
      choose (env.int (codes "AMQP_POOL_IDLE_TIMEOUT")) (file.int h (codes "pool.idle_timeout")) 5;
  pool_max_channels =
      choose (env.int (codes "AMQP_POOL_MAX_CHANNELS")) (file.int h (codes "pool.max_channels"))
        65535;
  max_upstream_connections =
      choose (env.int (codes "AMQP_POOL_MAX_UPSTREAM_CONNECTIONS"))
        (file.int h (codes "pool.max_upstream_connections")) 0;
  max_client_connections =
      choose (env.int (codes "AMQP_POOL_MAX_CLIENT_CONNECTIONS"))
        (file.int h (codes "pool.max_client_connections")) 0;
  pool_cleanup_interval =
      choose (env.int (codes "AMQP_POOL_CLEANUP_INTERVAL"))
        (file.int h (codes "pool.cleanup_interval")) 30;
  upstream_url =
      choose (env.string (codes "AMQP_UPSTREAM_URL")) (file.string h (codes "upstream.url"))
        (codes "");
  tls_cert =
      choose (env.string (codes "AMQP_TLS_CERT")) (file.string h (codes "tls.cert")) (codes "");
  tls_key = choose (env.string (codes "AMQP_TLS_KEY")) (file.string h (codes "tls.key")) (codes "");
  tls_ca_cert =
      choose (env.string (codes "AMQP_TLS_CA_CERT")) (file.string h (codes "tls.ca_cert"))
        (codes "");
  tls_client_cert =
      choose (env.string (codes "AMQP_TLS_CLIENT_CERT")) (file.string h (codes "tls.client_cert"))
        (codes "");
  tls_client_key =
      choose (env.string (codes "AMQP_TLS_CLIENT_KEY")) (file.string h (codes "tls.client_key"))
        (codes "");
  tls_skip_verify =
      choose (env.bool (codes "AMQP_TLS_SKIP_VERIFY")) (file.bool h (codes "tls.skip_verify"))
        false;
}

-- The calls that `LoadConfig` has made when it reads the fields, with `source` for those that choose
-- and read the file.
abbrev pub made_calls : List Call → List Call
made_calls source =
    (defaults ++ environment (codes "AMQP"))
    ++ (source ++ (env_key_replacer (codes ".") (codes "_") ∷ []))

abbrev pub searched : List Call
searched =
    config_name (codes "config")
    ∷ config_type (codes "toml")
    ∷ config_path (codes ".")
    ∷ config_path (codes "/etc/amqplex")
    ∷ read_in_config
    ∷ []

abbrev pub explicit : List ℕ → List Call
explicit path = config_file path ∷ read_in_config ∷ []

module _ (v : Viper) (env : Environment) (file : ConfigFile) (d : IsDocumented v env file) where
  explicit_fields :
      (path : List ℕ)
      → read_fields v (made_calls (explicit path))
        ≡ from_sources env file (made_calls (explicit path))
  unfolding read_fields bytes_eq
  explicit_fields path = λ i.
      let h = made_calls (explicit path) in
      record {
        listen_address = d.strings h (codes "listen.address") i;
        listen_port = d.ints h (codes "listen.port") i;
        admin_port = d.ints h (codes "listen.admin_port") i;
        pool_idle_timeout = d.ints h (codes "pool.idle_timeout") i;
        pool_max_channels = d.ints h (codes "pool.max_channels") i;
        max_upstream_connections = d.ints h (codes "pool.max_upstream_connections") i;
        max_client_connections = d.ints h (codes "pool.max_client_connections") i;
        pool_cleanup_interval = d.ints h (codes "pool.cleanup_interval") i;
        upstream_url = d.strings h (codes "upstream.url") i;
        tls_cert = d.strings h (codes "tls.cert") i;
        tls_key = d.strings h (codes "tls.key") i;
        tls_ca_cert = d.strings h (codes "tls.ca_cert") i;
        tls_client_cert = d.strings h (codes "tls.client_cert") i;
        tls_client_key = d.strings h (codes "tls.client_key") i;
        tls_skip_verify = d.bools h (codes "tls.skip_verify") i;
      }

  searched_fields :
      read_fields v (made_calls searched) ≡ from_sources env file (made_calls searched)
  unfolding read_fields bytes_eq
  searched_fields = λ i.
      let h = made_calls searched in
      record {
        listen_address = d.strings h (codes "listen.address") i;
        listen_port = d.ints h (codes "listen.port") i;
        admin_port = d.ints h (codes "listen.admin_port") i;
        pool_idle_timeout = d.ints h (codes "pool.idle_timeout") i;
        pool_max_channels = d.ints h (codes "pool.max_channels") i;
        max_upstream_connections = d.ints h (codes "pool.max_upstream_connections") i;
        max_client_connections = d.ints h (codes "pool.max_client_connections") i;
        pool_cleanup_interval = d.ints h (codes "pool.cleanup_interval") i;
        upstream_url = d.strings h (codes "upstream.url") i;
        tls_cert = d.strings h (codes "tls.cert") i;
        tls_key = d.strings h (codes "tls.key") i;
        tls_ca_cert = d.strings h (codes "tls.ca_cert") i;
        tls_client_cert = d.strings h (codes "tls.client_cert") i;
        tls_client_key = d.strings h (codes "tls.client_key") i;
        tls_skip_verify = d.bools h (codes "tls.skip_verify") i;
      }

  -- The end of a load with an explicit path.
  abbrev pub loaded : List ℕ → Option Error → Result FullConfig
  loaded path none = ok (from_sources env file (made_calls (explicit path)))
  loaded path (some e) = err (in_config e)

  explicit_load :
      (path : List ℕ) (o : Option Error)
      → with_replacer v (read_explicit (defaults ++ environment (codes "AMQP")) path o)
        ≡ loaded path o
  unfolding with_replacer read_explicit
  explicit_load path none = ap ok (explicit_fields path)
  explicit_load path (some e) = refl

  -- With viper's documented precedence: every field is the value of its variable in the environment,
  -- or of its key in the file, or its default, as the README lists them. The file is the one of the
  -- path that is given, and an error on it is returned; without a path the two default places are
  -- searched, and an error there goes unnoticed.
  pub load_config_lem :
      (load_config v [] (codes "AMQP") ≡ ok (from_sources env file (made_calls searched)))
      × ((b : ℕ) (bs : List ℕ)
          → load_config v (b ∷ bs) (codes "AMQP")
            ≡ loaded (b ∷ bs) (
                v.read_error
                  ((defaults ++ environment (codes "AMQP")) ++ (config_file (b ∷ bs) ∷ []))))
  unfolding load_config read_from
  load_config_lem = (ap ok searched_fields, λ b bs. explicit_load (b ∷ bs) _)
