-- ===== src/Client.antt =====
-- proxy/connection.go: the state of a client connection, and its channel mappings.
pub mod Mapping
use amqplex.Base.{
  ℕ, ◌≡◌, Bool, true, false, List, [], ◌∷◌, ◌++◌, Option, none, some, bytes_eq, if◌then◌else◌,
}
use amqplex.Base.Maps.{Map, get?, has, insert, delete}
use amqplex.Frame.{Frame}
use amqplex.Method.{marks_unsafe}

-- `Operations` is a set of names; the pointer back to the connection is left out.
pub record ClientChannel : Type 0 where
  pub id : ℕ
  pub upstream_id : ℕ
  pub safe : Bool
  pub operations : List (List ℕ)

-- `identity` stands for the pointer to the connection.
pub record Client : Type 0 where
  pub identity : ℕ
  pub client_channels : Map ClientChannel
  pub channel_mapping : Map ℕ
  pub reverse_mapping : Map ℕ
  pub username : List ℕ
  pub password : List ℕ
  pub vhost : List ℕ

unfoldable pub new_client_connection : ℕ → Client
new_client_connection identity = record {
  identity = identity;
  client_channels = [];
  channel_mapping = [];
  reverse_mapping = [];
  username = [];
  password = [];
  vhost = [];
}

-- The entry that `MapChannel` leaves: the old one with its `UpstreamID` set, or a fresh safe one.
mapped_channel : ℕ → ℕ → Option ClientChannel → ClientChannel
mapped_channel client_id upstream_id none = record {
  id = client_id;
  upstream_id = upstream_id;
  safe = true;
  operations = [];
}
mapped_channel client_id upstream_id (some ch) = record ch { upstream_id = upstream_id }

unfoldable pub map_channel : Client → ℕ → ℕ → Client
unfolding mapped_channel
map_channel cc client_id upstream_id = record cc {
  channel_mapping = insert client_id upstream_id cc.channel_mapping;
  reverse_mapping = insert upstream_id client_id cc.reverse_mapping;
  client_channels =
      insert client_id (mapped_channel client_id upstream_id (get? client_id cc.client_channels))
        cc.client_channels;
}

unmapped : Client → ℕ → Option ℕ → Client
unmapped cc client_id none = cc
unmapped cc client_id (some upstream_id) = record cc {
  channel_mapping = delete client_id cc.channel_mapping;
  reverse_mapping = delete upstream_id cc.reverse_mapping;
  client_channels = delete client_id cc.client_channels;
}

unfoldable pub unmap_channel : Client → ℕ → Client
unfolding unmapped
unmap_channel cc client_id = unmapped cc client_id (get? client_id cc.channel_mapping)

-- `OnChannelClosed`
unfoldable pub on_channel_closed : Client → ℕ → Client
unfolding unmap_channel
on_channel_closed cc client_id = unmap_channel cc client_id

abbrev pub add_operation : List ℕ → List (List ℕ) → List (List ℕ)
add_operation op [] = op ∷ []
add_operation op (o ∷ os) = if bytes_eq o op then o ∷ os else o ∷ add_operation op os

recorded : Client → ℕ → List ℕ → Bool → Option ClientChannel → Client
recorded cc channel op is_safe none = cc
recorded cc channel op is_safe (some ch) = record cc {
  client_channels =
      insert channel
        (record ch {
          operations = add_operation op ch.operations;
          safe = if is_safe then ch.safe else false;
        })
        cc.client_channels;
}

unfoldable pub record_channel_operation : Client → ℕ → List ℕ → Bool → Client
unfolding recorded
record_channel_operation cc channel op is_safe =
    recorded cc channel op is_safe (get? channel cc.client_channels)

marked : Client → ℕ → Option ClientChannel → Client
marked cc channel none = cc
marked cc channel (some ch) = record cc {
  client_channels = insert channel (record ch { safe = false }) cc.client_channels;
}

-- `markChannelSafety`
unfoldable pub mark_channel_safety : Frame → Client → Client
unfolding marked
mark_channel_safety f cc =
    if marks_unsafe f then marked cc f.channel (get? f.channel cc.client_channels) else cc

-- `delete(cc.ClientChannels, frame.Channel)`, at the end of the client loop.
unfoldable pub forget_channel : Client → ℕ → Client
forget_channel cc channel = record cc { client_channels = delete channel cc.client_channels }
