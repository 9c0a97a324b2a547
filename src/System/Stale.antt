-- ===== src/System/Stale.antt =====
-- A session that an upstream failure has dropped, and that is still at work after the reconnect. (A
-- loop that waits in `writeFrameToUpstream` is woken by `close(oldDone)` and goes on with the frames in
-- its reader's buffer.)
use amqplex.Base.{ℕ, ◌≡◌, ◌≢◌, refl, arith, Bool, false, [], ◌∷◌, some}
use amqplex.Base.Maps.{get?, has}
use amqplex.Frame.{Frame, frame_type_heartbeat}
use amqplex.Method.{is_channel_open, is_connection_close}
use amqplex.Upstream.{
  Upstream, send_upstream, remap, reconnected, returned, write_frame_to_upstream,
}
use amqplex.Upstream.Routing.{IsFreeSlot}
use amqplex.Client.{Client}
use amqplex.Session.{goes_on, client_round}
use amqplex.Session.Rounds.{after_round}
use amqplex.System.Routes.{mapped_passes}

-- After the reconnect of an upstream that is not stopped, a frame of a session from before it, on a
-- channel that it has mapped, is sent on under its old number and queued for the new connection, on
-- which nobody has opened that channel. (Heartbeats, Connection.Close and Channel.Open are set apart.)
pub stale_frame_passes :
    (m : Upstream) (cc : Client) (f : Frame) (u conn now : ℕ) (pick_done : Bool)
    → m.stopped ≡ false
    → get? f.channel cc.channel_mapping ≡ some u
    → f.kind ≢ frame_type_heartbeat
    → is_connection_close f ≡ false
    → is_channel_open f ≡ false
    → let m' = reconnected m conn now in
      (client_round m' cc f ≡ goes_on m' (after_round cc f) (send_upstream (remap u f) ∷ []))
      × (write_frame_to_upstream pick_done m' (remap u f)
          ≡ returned (record m' { write_ch = remap u f ∷ [] }))
      × IsFreeSlot u m'
unfolding reconnected write_frame_to_upstream has get?
stale_frame_passes m cl f u conn now pick_done going mapped hb close open' = (
  mapped_passes (reconnected m conn now) cl f u mapped hb close open',
  ground (arith, going),
  (refl, refl, refl),
)
