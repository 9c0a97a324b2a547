-- ===== src/Config.antt =====
-- config/config.go: `LoadConfig`. viper is not part of the repository: it is a parameter, and what it
-- was told by the code until a call is the list of these calls.
pub mod Documented
pub mod Loads
pub mod Tests
use amqplex.Base.{ℕ, Bool, List, [], ◌∷◌, ◌++◌, Option, none, some}
use amqplex.Base.Text.{codes}
use amqplex.Base.Result.{Result, ok, err, Error, in_config}

-- A call that changes viper's state: SetDefault, SetEnvPrefix, AutomaticEnv, SetConfigFile,
-- SetConfigName, SetConfigType, AddConfigPath, ReadInConfig and SetEnvKeyReplacer with one pair.
pub data Call : Type 0 where
  default_string : List ℕ → List ℕ → Call
  default_int : List ℕ → ℕ → Call
  env_prefix : List ℕ → Call
  automatic_env read_in_config : Call
  config_file config_name config_type config_path : List ℕ → Call
  env_key_replacer : List ℕ → List ℕ → Call

-- What viper answers behind the calls that it was given: the error of a ReadInConfig that comes next,
-- and the values of keys.
pub record Viper : Type 0 where
  pub read_error : List Call → Option Error
  pub get_string : List Call → List ℕ → List ℕ
  pub get_int : List Call → List ℕ → ℕ
  pub get_bool : List Call → List ℕ → Bool

-- `Config` with all its fields. Its numbers are natural here.
pub record FullConfig : Type 0 where
  pub listen_address : List ℕ
  pub listen_port : ℕ
  pub admin_port : ℕ
  pub pool_idle_timeout : ℕ
  pub pool_max_channels : ℕ
  pub max_upstream_connections : ℕ
  pub max_client_connections : ℕ
  pub pool_cleanup_interval : ℕ
  pub upstream_url : List ℕ
  pub tls_cert : List ℕ
  pub tls_key : List ℕ
  pub tls_ca_cert : List ℕ
  pub tls_client_cert : List ℕ
  pub tls_client_key : List ℕ
  pub tls_skip_verify : Bool

abbrev pub defaults : List Call
defaults =
    default_string (codes "listen.address") (codes "0.0.0.0")
    ∷ default_int (codes "listen.port") 5673
    ∷ default_int (codes "listen.admin_port") 9099
    ∷ default_int (codes "pool.idle_timeout") 5
    ∷ default_int (codes "pool.max_channels") 65535
    ∷ default_int (codes "pool.max_upstream_connections") 0
    ∷ default_int (codes "pool.max_client_connections") 0
    ∷ default_int (codes "pool.cleanup_interval") 30
    ∷ []

abbrev pub environment : List ℕ → List Call
environment [] = []
environment (b ∷ bs) = env_prefix (b ∷ bs) ∷ automatic_env ∷ []

-- Behind the ReadInConfig of an explicit path.
read_explicit : List Call → List ℕ → Option Error → Result (List Call)
read_explicit calls path none = ok (calls ++ (config_file path ∷ read_in_config ∷ []))
read_explicit calls path (some e) = err (in_config e)

-- The file of an explicit path has to be read; an error on the searched ones is dropped.
unfoldable pub read_from : Viper → List Call → List ℕ → Result (List Call)
unfolding read_explicit
read_from v calls [] = ok (
    calls
    ++ (config_name (codes "config")
        ∷ config_type (codes "toml")
        ∷ config_path (codes ".")
        ∷ config_path (codes "/etc/amqplex")
        ∷ read_in_config
        ∷ []))
read_from v calls (b ∷ bs) =
    read_explicit calls (b ∷ bs) (v.read_error (calls ++ (config_file (b ∷ bs) ∷ [])))

unfoldable pub read_fields : Viper → List Call → FullConfig
read_fields v h = record {
  listen_address = v.get_string h (codes "listen.address");
  listen_port = v.get_int h (codes "listen.port");
  admin_port = v.get_int h (codes "listen.admin_port");
  pool_idle_timeout = v.get_int h (codes "pool.idle_timeout");
  pool_max_channels = v.get_int h (codes "pool.max_channels");
  max_upstream_connections = v.get_int h (codes "pool.max_upstream_connections");
  max_client_connections = v.get_int h (codes "pool.max_client_connections");
  pool_cleanup_interval = v.get_int h (codes "pool.cleanup_interval");
  upstream_url = v.get_string h (codes "upstream.url");
  tls_cert = v.get_string h (codes "tls.cert");
  tls_key = v.get_string h (codes "tls.key");
  tls_ca_cert = v.get_string h (codes "tls.ca_cert");
  tls_client_cert = v.get_string h (codes "tls.client_cert");
  tls_client_key = v.get_string h (codes "tls.client_key");
  tls_skip_verify = v.get_bool h (codes "tls.skip_verify");
}

with_replacer : Viper → Result (List Call) → Result FullConfig
with_replacer v (err e) = err e
with_replacer v (ok calls) =
    ok (read_fields v (calls ++ (env_key_replacer (codes ".") (codes "_") ∷ [])))

unfoldable pub load_config : Viper → List ℕ → List ℕ → Result FullConfig
unfolding with_replacer
load_config v path prefix = with_replacer v (read_from v (defaults ++ environment prefix) path)
