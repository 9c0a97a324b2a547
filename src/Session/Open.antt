-- ===== src/Session/Open.antt =====
-- proxy/proxy.go: a client's Channel.Open, and the frames on the channel.
use amqplex.Base.{ℕ, ◌≡◌, ◌≢◌, arith, true, false, [], ◌∷◌, some}
use amqplex.Base.{◌==◌, ==_ne}
use amqplex.Base.Maps.{get?, get?-insert}
use amqplex.Frame.{Frame, frame_type_heartbeat}
use amqplex.Method.{is_channel_open, is_channel_close, is_channel_close_ok, is_connection_close}
use amqplex.Upstream.{
  Upstream, deliver, send_upstream, allocated, allocate_channel, remap, read_round,
}
use amqplex.Upstream.Slots.{Slots}
use amqplex.Client.{Client, map_channel, mark_channel_safety}
use amqplex.Session.{goes_on, pass_on, client_round}

-- A Channel.Open is no heartbeat, no Connection.Close and no Channel.Close.
open_kind :
    (f : Frame)
    → is_channel_open f ≡ true
    → ((f.kind == frame_type_heartbeat) ≡ false)
      × (is_connection_close f ≡ false)
      × (is_channel_close f ≡ false)
unfolding is_channel_open is_connection_close is_channel_close
open_kind f h = ground arith

pub marked-mapping :
    (f : Frame) (cc : Client) → (mark_channel_safety f cc).channel_mapping ≡ cc.channel_mapping
unfolding mark_channel_safety
marked-mapping f cc = ground arith

pub forward-owner :
    (m : Upstream) (g : Frame) (owner client_chan : ℕ)
    → get? g.channel m.channel_owners ≡ some (record { owner = owner; client_chan = client_chan })
    → g.kind ≢ frame_type_heartbeat
    → g.channel ≢ 0
    → is_channel_close_ok g ≡ false
    → read_round m g ≡ (m, deliver owner (remap client_chan g) ∷ [])
unfolding read_round
forward-owner m g owner client_chan e not_hb not_zero not_close =
    simp (==_ne g.kind frame_type_heartbeat not_hb, ==_ne g.channel 0 not_zero, not_close, e)

-- The client's state behind a Channel.Open that was given the upstream channel `id`.
abbrev pub after_open : Client → Frame → ℕ → Client
after_open cc f id = mark_channel_safety f (map_channel cc f.channel id)

map_channel-get? : (cc : Client) (c u : ℕ) → get? c (map_channel cc c u).channel_mapping ≡ some u
unfolding map_channel
map_channel-get? cc c u = ground (arith, get?-insert c c u cc.channel_mapping)

pub open_round :
    (m m' : Upstream) (cc : Client) (f : Frame) (id : ℕ)
    → is_channel_open f ≡ true
    → allocate_channel m f.channel cc.identity ≡ allocated id m'
    → client_round m cc f ≡ goes_on m' (after_open cc f id) (send_upstream (remap id f) ∷ [])
unfolding client_round pass_on
open_round m m' cc f id op e =
    let (not_hb, not_close, not_chan) = open_kind f op in
    simp (not_hb, not_close, op, e, not_chan, map_channel-get?)
