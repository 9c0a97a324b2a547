-- ===== src/Upstream/Preserve.antt =====
-- The operations of `ManagedUpstream` and the well-formedness of its channel tables.
use amqplex.Base.{ℕ, ◌≤◌, ◌≡◌, refl, arith, Bool, true, false, List}
use amqplex.Base.{Option, none, some, ◌==◌, if_elim}
use amqplex.Base.Maps.{
  has, get?, delete, has-insert, has-delete, insert-IsMap, delete-IsMap, has-get?,
}
use amqplex.Frame.{Frame, frame_type_heartbeat}
use amqplex.Method.{is_channel_close_ok}
use amqplex.Upstream.{
  Upstream, Effect, ChannelEntry, allocated, claim, allocate_channel, release_channel,
  schedule_channel_close, schedule_channel_close_if_owned_by, is_owner, read_round, close_owned,
  forward, reconnected,
}
use amqplex.Upstream.Invariant.{Inv}
use amqplex.Upstream.Allocated.{Claims, allocate_channel-Claims}

claim-Inv :
    (m m' : Upstream) (client_chan cw id : ℕ)
    → Inv m
    → Claims m client_chan cw id m'
    → Inv (claim m id client_chan cw)
unfolding claim
claim-Inv m m' client_chan cw id v (hi, lo, free, idle, e) = record {
  limit = v.limit;
  hint_low = ground arith;
  hint_high = ground arith;
  hint_max = ground arith;
  distinct = insert-IsMap id tt m.used_channels v.distinct;
  range = λ k h. ground (arith, has-insert id k tt m.used_channels, v.range k);
  covered = λ k. ground (
    arith,
    has-insert id k tt m.used_channels,
    has-insert id k (record { owner = cw; client_chan = client_chan }) m.channel_owners,
    v.covered k,
  );
  apart = λ k. ground (
    arith,
    has-insert id k (record { owner = cw; client_chan = client_chan }) m.channel_owners,
    v.apart k,
  );
}

-- An allocation that succeeds keeps the tables well formed.
pub allocate_channel-Inv :
    (m m' : Upstream) (client_chan cw id : ℕ)
    → Inv m
    → allocate_channel m client_chan cw ≡ allocated id m'
    → Inv m'
allocate_channel-Inv m m' client_chan cw id v e =
    let c =
      allocate_channel-Claims m m' client_chan cw id v.hint_low v.hint_high v.hint_max v.limit e in
    rw c.4 (claim-Inv m m' client_chan cw id v c)

-- The close of a channel that is in use.
schedule-Inv :
    (m : Upstream) (id : ℕ)
    → Inv m
    → has id m.used_channels ≡ true
    → Inv (schedule_channel_close m id)
unfolding schedule_channel_close
schedule-Inv m id v h = record {
  limit = v.limit;
  hint_low = v.hint_low;
  hint_high = v.hint_high;
  hint_max = v.hint_max;
  distinct = v.distinct;
  range = v.range;
  covered = λ k.
      ground
        (arith, has-insert id k tt m.pending_close, has-delete id k m.channel_owners, v.covered k);
  apart = λ k.
      ground
        (arith, has-insert id k tt m.pending_close, has-delete id k m.channel_owners, v.apart k);
}

pub is_owner-has :
    (m : Upstream) (id cw : ℕ)
    → is_owner cw (get? id m.channel_owners) ≡ true
    → has id m.channel_owners ≡ true
is_owner-has m id cw e = ground (arith, has-get? id m.channel_owners)

pub schedule_channel_close_if_owned_by-Inv :
    (m : Upstream) (id cw : ℕ) → Inv m → Inv (schedule_channel_close_if_owned_by m id cw).0
unfolding schedule_channel_close_if_owned_by
schedule_channel_close_if_owned_by-Inv m id cw v =
    if_elim (λ (r : Upstream × Bool). Inv r.0) (is_owner cw (get? id m.channel_owners))
      (λ e. schedule-Inv m id v (ground (arith, is_owner-has m id cw e, v.covered id))) (λ e. v)

-- `ReleaseChannel` keeps them well formed for a channel whose close is not pending.
pub release_channel-Inv :
    (m : Upstream) (id : ℕ)
    → Inv m
    → 1 ≤ id
    → has id m.pending_close ≡ false
    → Inv (release_channel m id)
unfolding release_channel
release_channel-Inv m id v lo h = record {
  limit = v.limit;
  hint_low = ground arith;
  hint_high = ground arith;
  hint_max = ground arith;
  distinct = delete-IsMap id m.used_channels v.distinct;
  range = λ k p. ground (arith, has-delete id k m.used_channels, v.range k);
  covered = λ k.
      ground
        (arith, has-delete id k m.used_channels, has-delete id k m.channel_owners, v.covered k);
  apart = λ k. ground (arith, has-delete id k m.channel_owners, v.apart k);
}

-- The two ways in which a Channel.CloseOk frees a slot.
free_pending-Inv :
    (m : Upstream) (id : ℕ)
    → Inv m
    → has id m.pending_close ≡ true
    → Inv (record m {
      pending_close = delete id m.pending_close;
      used_channels = delete id m.used_channels;
    })
free_pending-Inv m id v h = record {
  limit = v.limit;
  hint_low = v.hint_low;
  hint_high = v.hint_high;
  hint_max = v.hint_max;
  distinct = delete-IsMap id m.used_channels v.distinct;
  range = λ k p. ground (arith, has-delete id k m.used_channels, v.range k);
  covered = λ k. ground (
    arith,
    has-delete id k m.used_channels,
    has-delete id k m.pending_close,
    v.covered k,
    v.apart k,
  );
  apart = λ k. ground (arith, has-delete id k m.pending_close, v.apart k);
}

free_owned-Inv :
    (m : Upstream) (id : ℕ)
    → Inv m
    → has id m.pending_close ≡ false
    → Inv (record m {
      channel_owners = delete id m.channel_owners;
      used_channels = delete id m.used_channels;
    })
free_owned-Inv m id v h = record {
  limit = v.limit;
  hint_low = v.hint_low;
  hint_high = v.hint_high;
  hint_max = v.hint_max;
  distinct = delete-IsMap id m.used_channels v.distinct;
  range = λ k p. ground (arith, has-delete id k m.used_channels, v.range k);
  covered = λ k.
      ground
        (arith, has-delete id k m.used_channels, has-delete id k m.channel_owners, v.covered k);
  apart = λ k. ground (arith, has-delete id k m.channel_owners, v.apart k);
}

close_owned-Inv :
    (m : Upstream) (f : Frame) (o : Option ChannelEntry)
    → Inv m
    → has f.channel m.pending_close ≡ false
    → Inv (close_owned m f o).0
unfolding close_owned
close_owned-Inv m f none v h = v
close_owned-Inv m f (some entry) v h = free_owned-Inv m f.channel v h

forward-Inv : (m : Upstream) (f : Frame) (o : Option ChannelEntry) → Inv m → Inv (forward m f o).0
unfolding forward
forward-Inv m f none v = v
forward-Inv m f (some entry) v = v

abbrev KeepsInv : Upstream × List Effect → Type 0
KeepsInv r = Inv r.0

-- Every frame that the broker may send keeps the tables well formed.
pub read_round-Inv : (m : Upstream) (f : Frame) → Inv m → Inv (read_round m f).0
unfolding read_round
read_round-Inv m f v =
    if_elim KeepsInv (f.kind == frame_type_heartbeat) (λ _. v)
      λ _.
        if_elim KeepsInv (f.channel == 0) (λ _. v)
          λ _.
            if_elim KeepsInv (is_channel_close_ok f)
              (λ _.
                if_elim KeepsInv (has f.channel m.pending_close)
                  (λ h. free_pending-Inv m f.channel v h)
                  (λ h. close_owned-Inv m f (get? f.channel m.channel_owners) v h))
              (λ _. forward-Inv m f (get? f.channel m.channel_owners) v)

-- What is not a channel table may change.
pub same_tables-Inv :
    (m : Upstream) (conn last : Option ℕ) (clients : List ℕ) (write_ch : List Frame)
    (write_done stopped reconnecting : Bool) (total : ℕ)
    → Inv m
    → Inv (record m {
      conn = conn;
      last_empty_time = last;
      clients = clients;
      write_ch = write_ch;
      write_done = write_done;
      stopped = stopped;
      reconnecting = reconnecting;
      reconnect_total = total;
    })
same_tables-Inv m conn last clients write_ch write_done stopped reconnecting total v = record {
  limit = v.limit;
  hint_low = v.hint_low;
  hint_high = v.hint_high;
  hint_max = v.hint_max;
  distinct = v.distinct;
  range = v.range;
  covered = v.covered;
  apart = v.apart;
}

-- The reset behind a successful dial.
pub reconnected-Inv :
    (m : Upstream) (conn now : ℕ) → m.max_channels ≤ 65535 → Inv (reconnected m conn now)
unfolding reconnected has
reconnected-Inv m conn now limit = record {
  limit = limit;
  hint_low = omega arith;
  hint_high = omega arith;
  hint_max = omega arith;
  distinct = tt;
  range = λ k h. cc;
  covered = λ k. refl;
  apart = λ k. refl;
}
