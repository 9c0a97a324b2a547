-- ===== src/Tls/Tests.antt =====
-- TLS files on concrete values.
use amqplex.Base.{false, [], ◌∷◌, some}
use amqplex.Base.Result.{ok}
use amqplex.Tls.{
  TlsFiles, Files, with_tls, new_amqp_listener, start_listener, server_certificate,
  client_authorities, or_empty, start_tls,
}
use amqplex.Tls.Policy.{listen, Listens, listen-Listens}

abbrev all_load : Files
all_load = record { load_key_pair = λ cert key. ok 1; load_pool = λ path. ok 2; system_pool = 3 }

abbrev both_sides : TlsFiles
both_sides = record {
  tls_cert = b'c' ∷ [];
  tls_key = b'k' ∷ [];
  tls_ca_cert = b'a' ∷ [];
  tls_client_cert = [];
  tls_client_key = [];
  tls_skip_verify = false;
}

listen-Listens_example :
    Listens all_load both_sides (with_tls (record { certificate = some 1; client_cas = some 2 }))
unfolding listen new_amqp_listener start_listener server_certificate client_authorities or_empty
    start_tls
listen-Listens_example = listen-Listens all_load both_sides
