-- ===== src/Tls.antt =====
-- proxy/listener.go and tlsutil/tlsutil.go: which TLS configuration is used on either side. A
-- certificate or a pool of them is a number; reading and parsing the files is the caller's `Files`.
pub mod Policy
mod Tests
use amqplex.Base.{
  ℕ, Bool, true, false, not, ◌&&◌, ◌||◌, List, [], ◌∷◌, Option, none, some, if◌then◌else◌,
}
use amqplex.Base.Result.{Result, ok, err, ◌>>=◌, ◌>>◌, ensure, no_tls_config, half_key_pair}

-- The fields of `Config` that are read here.
pub record TlsFiles : Type 0 where
  pub tls_cert : List ℕ
  pub tls_key : List ℕ
  pub tls_ca_cert : List ℕ
  pub tls_client_cert : List ℕ
  pub tls_client_key : List ℕ
  pub tls_skip_verify : Bool

-- What crypto/tls and crypto/x509 make of the files: a key pair, a pool of authorities from a file,
-- and the system's pool.
pub record Files : Type 0 where
  pub load_key_pair : List ℕ → List ℕ → Result ℕ
  pub load_pool : List ℕ → Result ℕ
  pub system_pool : ℕ

abbrev pub is_given : List ℕ → Bool
is_given [] = false
is_given (b ∷ bs) = true

-- The listener's `tls.Config`; `client_cas` is `none` where client certificates are not asked for.
pub record ServerTls : Type 0 where
  pub certificate : Option ℕ
  pub client_cas : Option ℕ

server_certificate : Files → TlsFiles → Result (Option ServerTls)
server_certificate files c =
    if is_given c.tls_cert && is_given c.tls_key
    then (do
      cert ← files.load_key_pair c.tls_cert c.tls_key
      ok (some (record { certificate = some cert; client_cas = none })))
    else ok none

-- `if tlsConfig == nil { tlsConfig = &tls.Config{} }`
or_empty : Option ServerTls → ServerTls
or_empty none = record { certificate = none; client_cas = none }
or_empty (some t) = t

client_authorities : Files → TlsFiles → Option ServerTls → Result (Option ServerTls)
unfolding or_empty
client_authorities files c tls =
    if is_given c.tls_ca_cert
    then (do
      pool ← files.load_pool c.tls_ca_cert
      ok (some (record (or_empty tls) { client_cas = some pool })))
    else ok tls

-- `NewAMQPListener`: the TLS configuration of the listener, if it has one.
unfoldable pub new_amqp_listener : Files → TlsFiles → Result (Option ServerTls)
unfolding server_certificate client_authorities
new_amqp_listener files c = do tls ← server_certificate files c; client_authorities files c tls

-- How a connection is accepted.
pub data Listening : Type 0 where
  plain_text : Listening
  with_tls : ServerTls → Listening

-- `StartTLS`, without the failures of `net.Listen`.
start_tls : Option ServerTls → Result Listening
start_tls none = err no_tls_config
start_tls (some t) = ok (with_tls t)

-- The listener that `Start` opens.
unfoldable pub start_listener : TlsFiles → Option ServerTls → Result Listening
unfolding start_tls
start_listener c tls =
    if is_given c.tls_cert && is_given c.tls_key then start_tls tls else ok plain_text

-- The `tls.Config` towards the broker.
pub record ClientTls : Type 0 where
  pub root_cas : ℕ
  pub certificate : Option ℕ
  pub skip_verify : Bool

unfoldable pub root_authorities : Files → List ℕ → Result ℕ
root_authorities files ca_path =
    if is_given ca_path then files.load_pool ca_path else ok files.system_pool

unfoldable pub client_certificate : Files → List ℕ → List ℕ → Result (Option ℕ)
client_certificate files cert_path key_path =
    if is_given cert_path || is_given key_path
    then (do
      ensure (is_given cert_path && is_given key_path) half_key_pair
      cert ← files.load_key_pair cert_path key_path
      ok (some cert))
    else ok none

unfoldable pub load_tls_config : Files → List ℕ → List ℕ → List ℕ → Bool → Result ClientTls
unfolding root_authorities client_certificate
load_tls_config files ca_path cert_path key_path skip_verify = do
  roots ← root_authorities files ca_path
  certificate ← client_certificate files cert_path key_path
  ok (record { root_cas = roots; certificate = certificate; skip_verify = skip_verify })

-- `upstreamTLSConfig`
unfoldable pub upstream_tls_config : Files → TlsFiles → Result ClientTls
upstream_tls_config files c =
    load_tls_config files c.tls_ca_cert c.tls_client_cert c.tls_client_key c.tls_skip_verify
