-- ===== src/Connection/Tests.antt =====
-- A client that logs in, on a proxy without upstreams.
use amqplex.Base.{bytes_eq, ℕ, arith, true, List, [], ◌∷◌, ◌++◌}
use amqplex.Base.Result.{ok}
use amqplex.Frame.{protocol_header}
use amqplex.Client.{new_client_connection}
use amqplex.Handshake.Parts.{header_of}
use amqplex.Handshake.Dial.{client_bytes}
use amqplex.Upstream.Steps
use amqplex.Proxy.{
  Proxy, Outside, scheme_amqp, choose_locked, chosen, create_upstream, at_limit, connect, connected,
  parse_upstream_url, upstream_address, total, first_with_capacity, slice,
}
use amqplex.Proxy.Tables.{choose_locked-AllPooled}
use amqplex.Handshake.{admit_client}
use amqplex.Connection.{handle_connection}
use amqplex.Connection.Arrives.{Arrives, handle_connection-Arrives}

abbrev network : Outside
network = record {
  parse_url = λ raw. ok (record { scheme = scheme_amqp; hostname = raw; port = [] });
  dial_upstream = λ net address. ok 6;
  handshake = λ conn username password vhost. ok 7;
}

abbrev empty : Proxy
empty = record {
  config = record {
    upstream_url = b'h' ∷ [];
    pool_max_channels = 10;
    max_upstream_connections = 2;
    max_client_connections = 1;
  };
  upstreams = [];
  listening = true;
  active_clients = 1;
}

abbrev login : List ℕ
login =
    protocol_header
    ++ client_bytes (b'b' ∷ []) (b's' ∷ []) (b'/' ∷ [])
        (header_of 10 30 ++ (7 ∷ 255 ∷ 0 ∷ 2 ∷ 0 ∷ 0 ∷ 0 ∷ 60 ∷ []))

-- What another client with the same credentials does meanwhile: it opens an upstream.
abbrev other_client : Proxy → Proxy
other_client q = (choose_locked network q (b'b' ∷ []) (b's' ∷ []) (b'/' ∷ [])).0

handle_connection-Arrives_example :
    Arrives
      (admit_client (new_client_connection 1) login (record { written = []; room = 2000 }))
      empty
      (other_client empty)
      (handle_connection network other_client
        (λ m. m)
        empty
        (new_client_connection 1)
        login
        (record { written = []; room = 2000 })
        3)
unfolding bytes_eq choose_locked chosen create_upstream at_limit connect connected
    parse_upstream_url upstream_address total first_with_capacity slice
handle_connection-Arrives_example =
    handle_connection-Arrives network other_client (λ m. m) empty (new_client_connection 1) login
      (record { written = []; room = 2000 }) 3 (λ m. Steps.here) (omega arith) tt
      (choose_locked-AllPooled network empty (b'b' ∷ []) (b's' ∷ []) (b'/' ∷ []) tt)
