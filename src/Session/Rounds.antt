-- ===== src/Session/Rounds.antt =====
-- What one frame of a client does to the shared upstream.
use amqplex.Base.{ℕ, ◌≡◌, ◌≢◌, refl, sym, subst, arith, true, false, [], ◌∷◌, none}
use amqplex.Base.{if◌then◌else◌, if_elim, ◌==◌, ==_ne}
use amqplex.Base.Maps.{get?, get?-insert, has-insert}
use amqplex.Frame.{Frame, frame_type_heartbeat}
use amqplex.Method.{is_channel_open, is_channel_close, is_connection_close}
use amqplex.Upstream.{
  Upstream, send_upstream, Allocation, allocated, no_free_channel, hangs, upstream_reconnecting,
  allocate_channel, claim, is_taken,
}
use amqplex.Upstream.Invariant.{Inv}
use amqplex.Upstream.Allocated.{
  allocate_channel-Claims, allocate_channel_unchanged, allocate_channel_busy,
}
use amqplex.Upstream.Routing.{SameSlot}
use amqplex.Client.{Client, forget_channel, mark_channel_safety}
use amqplex.Session.{Round, goes_on, returns, never, opened, pass_on, client_round}

-- A slot that was taken is as it was, whichever way the round ends.
abbrev pub KeepsSlot : ℕ → Upstream → Round → Type 0
KeepsSlot k m (goes_on m' cc effects) = SameSlot k m m'
KeepsSlot k m (returns m' cc effects) = SameSlot k m m'
KeepsSlot k m never = Unit {0}

pub claim-SameSlot :
    (k : ℕ) (m : Upstream) (id client_chan cw : ℕ)
    → is_taken m k ≡ true
    → is_taken m id ≡ false
    → SameSlot k m (claim m id client_chan cw)
unfolding claim
claim-SameSlot k m id client_chan cw taken free = (
  ground (arith, has-insert id k tt m.used_channels),
  refl,
  ground
      (arith, get?-insert id k (record { owner = cw; client_chan = client_chan }) m.channel_owners),
)

opened-KeepsSlot :
    (k : ℕ) (m : Upstream) (cc : Client) (f : Frame) (a : Allocation)
    → Inv m
    → is_taken m k ≡ true
    → allocate_channel m f.channel cc.identity ≡ a
    → KeepsSlot k m (opened cc f a)
unfolding opened pass_on
opened-KeepsSlot k m cc f (allocated id m') v taken e =
    let c =
      allocate_channel-Claims m m' f.channel cc.identity id v.hint_low v.hint_high v.hint_max
        v.limit e in
    subst (SameSlot k m) (sym c.4) (claim-SameSlot k m id f.channel cc.identity taken c.2)
opened-KeepsSlot k m cc f (upstream_reconnecting m') v taken e =
    subst (SameSlot k m) (sym (allocate_channel_busy m m' f.channel cc.identity v.hint_low e))
      (refl, refl, refl)
opened-KeepsSlot k m cc f (no_free_channel m') v taken e =
    subst (SameSlot k m) (sym (allocate_channel_unchanged m m' f.channel cc.identity v.hint_low e))
      (refl, refl, refl)
opened-KeepsSlot k m cc f hangs v taken e = tt

-- Whatever a client sends, the round changes no slot of the upstream's tables that is in use or
-- pending: at most it claims a slot that was free.
pub client_round-KeepsSlot :
    (k : ℕ) (m : Upstream) (cc : Client) (f : Frame)
    → Inv m
    → is_taken m k ≡ true
    → KeepsSlot k m (client_round m cc f)
unfolding client_round pass_on
client_round-KeepsSlot k m cc f v taken =
    if_elim (KeepsSlot k m) (f.kind == frame_type_heartbeat) (λ _. (refl, refl, refl))
      λ _.
        if_elim (KeepsSlot k m) (is_connection_close f) (λ _. (refl, refl, refl))
          λ _.
            if_elim (KeepsSlot k m) (is_channel_open f)
              (λ _. opened-KeepsSlot k m cc f _ v taken refl) (λ _. (refl, refl, refl))

-- The client's state behind a frame that is sent on.
abbrev pub after_round : Client → Frame → Client
after_round cc f =
    if is_channel_close f
    then forget_channel (mark_channel_safety f cc) f.channel
    else mark_channel_safety f cc

-- A frame on a channel that the client never opened is sent to the upstream under the client's own
-- number, whoever owns that number there. (Heartbeats, Connection.Close and Channel.Open are set
-- apart.)
pub unmapped_passes :
    (m : Upstream) (cc : Client) (f : Frame)
    → get? f.channel cc.channel_mapping ≡ none
    → f.kind ≢ frame_type_heartbeat
    → is_connection_close f ≡ false
    → is_channel_open f ≡ false
    → client_round m cc f ≡ goes_on m (after_round cc f) (send_upstream f ∷ [])
unfolding client_round pass_on
unmapped_passes m cc f e hb close open' =
    simp (==_ne f.kind frame_type_heartbeat hb, close, open', e)
