-- ===== src/Client/Mapping.antt =====
-- proxy/connection.go: the two mappings of a client connection against one another.
use amqplex.Base.{ℕ, ◌≡◌, ◌≢◌, refl, arith, Option, none, some}
use amqplex.Base.Maps.{get?, get?-insert, get?-delete}
use amqplex.Client.{Client, new_client_connection, map_channel, unmap_channel, unmapped}

pub record AreInverse (cc : Client) : Type 0 where
  pub there : (c u : ℕ) → get? c cc.channel_mapping ≡ some u → get? u cc.reverse_mapping ≡ some c
  pub back : (c u : ℕ) → get? u cc.reverse_mapping ≡ some c → get? c cc.channel_mapping ≡ some u

pub new_client_connection-AreInverse : (identity : ℕ) → AreInverse (new_client_connection identity)
unfolding new_client_connection get?
new_client_connection-AreInverse identity = record { there = λ c u h. cc; back = λ c u h. cc }

-- A client channel and an upstream channel that are both new keep the mappings inverse.
pub map_channel-AreInverse :
    (cc : Client) (client_id upstream_id : ℕ)
    → AreInverse cc
    → get? client_id cc.channel_mapping ≡ none
    → get? upstream_id cc.reverse_mapping ≡ none
    → AreInverse (map_channel cc client_id upstream_id)
unfolding map_channel
map_channel-AreInverse cc client_id upstream_id v new_c new_u = record {
  there = λ c u h. ground (
    arith,
    get?-insert client_id c upstream_id cc.channel_mapping,
    get?-insert upstream_id u client_id cc.reverse_mapping,
    v.there c u,
  );
  back = λ c u h. ground (
    arith,
    get?-insert client_id c upstream_id cc.channel_mapping,
    get?-insert upstream_id u client_id cc.reverse_mapping,
    v.back c u,
  );
}

unmapped-AreInverse :
    (cc : Client) (client_id : ℕ) (o : Option ℕ)
    → AreInverse cc
    → get? client_id cc.channel_mapping ≡ o
    → AreInverse (unmapped cc client_id o)
unfolding unmapped
unmapped-AreInverse cc client_id none v e = v
unmapped-AreInverse cc client_id (some upstream_id) v e = record {
  there = λ c u h. ground (
    arith,
    get?-delete client_id c cc.channel_mapping,
    get?-delete upstream_id u cc.reverse_mapping,
    v.there c u,
    v.back client_id u,
    v.there client_id upstream_id,
  );
  back = λ c u h. ground (
    arith,
    get?-delete client_id c cc.channel_mapping,
    get?-delete upstream_id u cc.reverse_mapping,
    v.there client_id upstream_id,
    v.back c u,
  );
}

-- Closing any channel keeps them inverse.
pub unmap_channel-AreInverse :
    (cc : Client) (client_id : ℕ) → AreInverse cc → AreInverse (unmap_channel cc client_id)
unfolding unmap_channel
unmap_channel-AreInverse cc client_id v = unmapped-AreInverse cc client_id _ v refl

-- Opening a channel again that is still open, on another upstream channel, leaves the entry of the
-- first upstream channel behind: the mappings are no longer inverse.
pub map_channel_stale :
    (cc : Client) (client_id old new : ℕ)
    → AreInverse cc
    → get? client_id cc.channel_mapping ≡ some old
    → old ≢ new
    → ¬ AreInverse (map_channel cc client_id new)
unfolding map_channel
map_channel_stale cc client_id old new v e ne w = ground (
  arith,
  v.there client_id old e,
  get?-insert new old client_id cc.reverse_mapping,
  get?-insert client_id client_id new cc.channel_mapping,
  w.back client_id old,
)
