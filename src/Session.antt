-- ===== src/Session.antt =====
-- proxy/proxy.go: the loop of `handleConnection` behind a client's handshake, and the cleanup when it
-- ends. The client's own frames are read in this loop; the broker's reach it through `readLoop`.
pub mod Open
pub mod Rounds
pub mod Cleanup
pub mod Leak
pub mod Join
pub mod Run
mod Tests
use amqplex.Base.{
  ℕ, Bool, true, false, List, [], ◌∷◌, ◌++◌, ◌||◌, Option, none, some, if◌then◌else◌, ◌==◌,
}
use amqplex.Base.Maps.{Map, get?, has}
use amqplex.Frame.{Frame, frame_type_method, frame_type_heartbeat, serialize_method_header}
use amqplex.Method.{
  is_channel_open, is_channel_close, is_connection_close, channel_close_payload,
  serialize_connection_close,
}
use amqplex.Upstream.{
  Upstream, Effect, deliver, send_upstream, Allocation, allocated, upstream_reconnecting,
  no_free_channel, hangs, allocate_channel, remap, register, schedule_channel_close_if_owned_by,
  deregister,
}
use amqplex.Client.{Client, map_channel, unmap_channel, mark_channel_safety, forget_channel}
use amqplex.FrameProxy.{remap_if_mapped}

-- "upstream unavailable"
abbrev pub unavailable : List ℕ
unavailable =
    b'u' ∷ b'p' ∷ b's' ∷ b't' ∷ b'r' ∷ b'e' ∷ b'a' ∷ b'm' ∷ b' ' ∷ b'u' ∷ b'n' ∷ b'a' ∷ b'v' ∷ b'a'
    ∷ b'i' ∷ b'l' ∷ b'a' ∷ b'b' ∷ b'l' ∷ b'e' ∷ []

abbrev pub unavailable_frame : Frame
unavailable_frame = record {
  kind = frame_type_method;
  channel = 0;
  payload = serialize_connection_close 503 unavailable;
}

-- How a client's registration on its upstream ends.
pub data Joined : Type 0 where
  joined : Upstream → Joined
  rejected : Upstream → List Effect → Joined

-- The registration, and the check behind it of whether the upstream was stopped or lost since it was
-- chosen.
unfoldable pub join_upstream : Upstream → Client → ℕ → Joined
join_upstream m cc now =
    let m1 = register m cc.identity in
    if m1.stopped || m1.reconnecting
    then rejected (deregister m1 cc.identity now) (deliver cc.identity unavailable_frame ∷ [])
    else joined m1

-- How a round of the loop ends: with the next round, with a return, or never.
pub data Round : Type 0 where
  goes_on returns : Upstream → Client → List Effect → Round
  never : Round

-- The reply that closes a client's connection without closing the shared upstream.
abbrev pub close_ok_frame : Frame
unfolding serialize_method_header
close_ok_frame = record {
  kind = frame_type_method;
  channel = 0;
  payload = serialize_method_header (record { class_id = 10; method_id = 51 });
}

-- The part of the round behind the interception of Channel.Open.
unfoldable pub pass_on : Upstream → Client → Frame → Round
pass_on m cc f =
    goes_on m
      (if is_channel_close f
        then forget_channel (mark_channel_safety f cc) f.channel
        else mark_channel_safety f cc)
      (send_upstream (remap_if_mapped (get? f.channel cc.channel_mapping) f) ∷ [])

unfoldable pub opened : Client → Frame → Allocation → Round
opened cc f (allocated id m) = pass_on m (map_channel cc f.channel id) f
opened cc f (upstream_reconnecting m) = returns m cc []
opened cc f (no_free_channel m) = returns m cc []
opened cc f hangs = never

-- One round, on a frame that was read from the client.
unfoldable pub client_round : Upstream → Client → Frame → Round
unfolding opened
client_round m cc f =
    if f.kind == frame_type_heartbeat
    then goes_on m cc []
    else if is_connection_close f
    then returns m cc (deliver cc.identity close_ok_frame ∷ [])
    else if is_channel_open f
    then opened cc f (allocate_channel m f.channel cc.identity)
    else pass_on m cc f

abbrev pub channel_close_frame : ℕ → Frame
channel_close_frame upstream_id = record {
  kind = frame_type_method;
  channel = upstream_id;
  payload = channel_close_payload;
}

abbrev pub close_effects : Bool → Bool → ℕ → List Effect
close_effects true true u = send_upstream (channel_close_frame u) ∷ []
close_effects true false u = []
close_effects false scheduled u = []

-- The body of the cleanup loop for the client channel `c` on the upstream channel `u`. A channel that
-- is still in `ClientChannels` was never closed by the client.
unfoldable pub release_one : Upstream → Client → ℕ → ℕ → Upstream × Client × List Effect
release_one m cc c u =
    let (m', scheduled) = schedule_channel_close_if_owned_by m u cc.identity in
    (m', unmap_channel cc c, close_effects (has c cc.client_channels) scheduled u)

-- The loop over the snapshot of the mapping, in the order in which the map is ranged over.
unfoldable pub release_all : Map ℕ → Upstream → Client → Upstream × Client × List Effect
unfolding release_one
release_all [] m cc = (m, cc, [])
release_all ((c, u) ∷ channels) m cc =
    let one = release_one m cc c u in
    let rest = release_all channels one.0 one.1 in (rest.0, rest.1, one.2 ++ rest.2)

-- `releaseClientChannels`
unfoldable pub release_client_channels : Upstream → Client → Upstream × Client × List Effect
release_client_channels m cc = release_all cc.channel_mapping m cc

-- The deferred calls that run when the loop returns.
unfoldable pub end_session : Upstream → Client → ℕ → Upstream × Client × List Effect
end_session m cc now = release_client_channels (deregister m cc.identity now) cc
