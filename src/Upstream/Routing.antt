-- ===== src/Upstream/Routing.antt =====
-- Where `readLoop` sends a frame, and what a Channel.CloseOk frees.
use amqplex.Base.{ℕ, ◌≡◌, ◌≢◌, refl, arith, true, false, List, [], All}
use amqplex.Base.{Option, none, some, if_elim, ◌==◌, ==_iff}
use amqplex.Base.Maps.{has, get?, delete, has-delete, get?-delete, has-get?}
use amqplex.Frame.{Frame, frame_type_heartbeat}
use amqplex.Method.{is_channel_close_ok}
use amqplex.Upstream.{
  Upstream, ChannelEntry, Effect, deliver, abort, channel_closed, send_upstream, close_conn, remap,
  read_round, close_owned, forward,
}
use amqplex.Upstream.Invariant.{Inv}

-- An effect that hands the frame, under the client's own channel number, to the client that owns the
-- channel, or tells that client of the close.
abbrev pub GoesToOwner : Upstream → Frame → Effect → Type 0
GoesToOwner m f (deliver c g) =
    (get? f.channel m.channel_owners ≡ some (record { owner = c; client_chan = g.channel }))
    × (g ≡ remap g.channel f)
GoesToOwner m f (channel_closed c n) =
    get? f.channel m.channel_owners ≡ some (record { owner = c; client_chan = n })
GoesToOwner m f (abort c) = ⊥
GoesToOwner m f (send_upstream g) = ⊥
GoesToOwner m f (close_conn c) = ⊥

abbrev Routed : Upstream → Frame → Upstream × List Effect → Type 0
Routed m f r = All (GoesToOwner m f) r.1

close_owned-Routed :
    (m : Upstream) (f : Frame) (o : Option ChannelEntry)
    → get? f.channel m.channel_owners ≡ o
    → Routed m f (close_owned m f o)
unfolding close_owned
close_owned-Routed m f none e = tt
close_owned-Routed m f (some entry) e = ((e, refl), (e, tt))

forward-Routed :
    (m : Upstream) (f : Frame) (o : Option ChannelEntry)
    → get? f.channel m.channel_owners ≡ o
    → Routed m f (forward m f o)
unfolding forward
forward-Routed m f none e = tt
forward-Routed m f (some entry) e = ((e, refl), tt)

-- A frame from the broker on a channel other than 0 reaches no client but the one that owns the
-- channel, with the channel number that this client knows and all else unchanged; the only other
-- effect is that the same client is told of the close of that channel. Heartbeats are set apart.
pub read_round-Routed :
    (m : Upstream) (f : Frame)
    → f.kind ≢ frame_type_heartbeat
    → f.channel ≢ 0
    → All (GoesToOwner m f) (read_round m f).1
unfolding read_round
read_round-Routed m f not_hb not_zero =
    if_elim (Routed m f) (f.kind == frame_type_heartbeat)
      (λ e. absurd (not_hb ((==_iff f.kind frame_type_heartbeat).0 e)))
      λ _.
        if_elim (Routed m f) (f.channel == 0) (λ e. absurd (not_zero ((==_iff f.channel 0).0 e)))
          λ _.
            if_elim (Routed m f) (is_channel_close_ok f)
              (λ _.
                if_elim (Routed m f) (has f.channel m.pending_close) (λ _. tt)
                  (λ _. close_owned-Routed m f _ refl))
              (λ _. forward-Routed m f _ refl)

-- The three tables of an upstream at one channel number.
abbrev pub SameSlot : ℕ → Upstream → Upstream → Type 0
SameSlot k m m' =
    (has k m'.used_channels ≡ has k m.used_channels)
    × (has k m'.pending_close ≡ has k m.pending_close)
    × (get? k m'.channel_owners ≡ get? k m.channel_owners)

abbrev pub IsFreeSlot : ℕ → Upstream → Type 0
IsFreeSlot k m =
    (has k m.used_channels ≡ false)
    × (has k m.pending_close ≡ false)
    × (get? k m.channel_owners ≡ none)

abbrev Frees : Upstream → ℕ → Upstream × List Effect → Type 0
Frees m u r = IsFreeSlot u r.0 × ((k : ℕ) → k ≢ u → SameSlot k m r.0)

free_pending-Frees :
    (m : Upstream) (u : ℕ)
    → Inv m
    → has u m.pending_close ≡ true
    → Frees m u (
      record m {
        pending_close = delete u m.pending_close;
        used_channels = delete u m.used_channels;
      },
      [],
    )
free_pending-Frees m u v p = (
  (
    ground (arith, has-delete u u m.used_channels),
    ground (arith, has-delete u u m.pending_close),
    ground (arith, v.apart u, has-get? u m.channel_owners),
  ),
  λ k ne. (
    ground (arith, has-delete u k m.used_channels),
    ground (arith, has-delete u k m.pending_close),
    refl,
  ),
)

close_owned-Frees :
    (m : Upstream) (f : Frame) (o : Option ChannelEntry)
    → Inv m
    → has f.channel m.pending_close ≡ false
    → get? f.channel m.channel_owners ≡ o
    → Frees m f.channel (close_owned m f o)
unfolding close_owned
close_owned-Frees m f none v p e = (
  (ground (arith, v.covered f.channel, has-get? f.channel m.channel_owners), p, e),
  λ k ne. (refl, refl, refl),
)
close_owned-Frees m f (some entry) v p e = (
  (
    ground (arith, has-delete f.channel f.channel m.used_channels),
    p,
    ground (arith, get?-delete f.channel f.channel m.channel_owners),
  ),
  λ k ne. (
    ground (arith, has-delete f.channel k m.used_channels),
    refl,
    ground (arith, get?-delete f.channel k m.channel_owners),
  ),
)

pub close_ok_kind :
    (f : Frame) → is_channel_close_ok f ≡ true → (f.kind == frame_type_heartbeat) ≡ true → ⊥
unfolding is_channel_close_ok
close_ok_kind f ok e = ground arith

-- After a Channel.CloseOk from the broker the slot of its channel is free in all three tables, whoever
-- closed it, and every other slot is as it was.
pub close_ok_frees :
    (m : Upstream) (f : Frame)
    → Inv m
    → is_channel_close_ok f ≡ true
    → f.channel ≢ 0
    → let m' = (read_round m f).0 in
      IsFreeSlot f.channel m' × ((k : ℕ) → k ≢ f.channel → SameSlot k m m')
unfolding read_round
close_ok_frees m f v ok not_zero =
    if_elim (Frees m f.channel) (f.kind == frame_type_heartbeat) (λ e. absurd (not_hb e))
      λ _.
        if_elim (Frees m f.channel) (f.channel == 0)
          (λ e. absurd (not_zero ((==_iff f.channel 0).0 e)))
          λ _.
            if_elim (Frees m f.channel) (is_channel_close_ok f)
              (λ _.
                if_elim (Frees m f.channel) (has f.channel m.pending_close)
                  (λ p. free_pending-Frees m f.channel v p) (λ p. close_owned-Frees m f _ v p refl))
              (λ e. cc)
  where
    not_hb : (f.kind == frame_type_heartbeat) ≡ true → ⊥
    not_hb e = close_ok_kind f ok e
