-- ===== src/Upstream/Slots/Refines.antt =====
-- The operations of `ManagedUpstream` as events of the slots.
use mathlib.Core.Path.{fun_ext}
use amqplex.Base.{◌&&◌, not, if◌then◌else◌, Bool-cases, inl, inr, ◌∙◌}
use amqplex.Base.{
  ℕ, ◌≤◌, ◌≡◌, refl, sym, subst, ap, ◌%◌, arith, Bool, true, false, List, Option, none, some,
  if_elim, ◌==◌, ==_iff,
}
use amqplex.Base.Maps.{
  has, get?, delete, has-insert, has-delete, get?-insert, get?-delete, has-get?,
}
use amqplex.Frame.{Frame, frame_type_heartbeat}
use amqplex.Method.{is_channel_close_ok}
use amqplex.Upstream.{
  Upstream, ChannelEntry, Effect, claim, is_taken, is_owner, schedule_channel_close,
  schedule_channel_close_if_owned_by, read_round, close_owned, forward, register, deregister,
  deregistered, remove_client, start, handle_upstream_failure, mark_stopped_if_idle, idle_for,
  reconnected,
}
use amqplex.Upstream.Invariant.{Inv}
use amqplex.Upstream.Allocated.{allocate_channel-Claims, allocate_channel_unchanged}
use amqplex.Upstream.Steps.{
  Step, starts, allocates, is_full, schedules, reads, registers, deregisters, writes, pumps, fails,
  attempts, reconnects, sweeps, stops, pump, attempt, stop, written_only, Reach, here, next,
  new_upstream, new_upstream-Inv, Reach-keeps,
}
use amqplex.Upstream.Routing.{close_ok_kind}
use amqplex.Upstream.Slots.{
  free, closing, bound, put, Event, opens, abandons, confirms, rests, held_by, perform, Permits,
  perform_all, PermitsAll, slot, event_of, events_of,
}
use amqplex.Upstream.Constants.{Constants, Reach-constants}

-- The step to `m'` is the event, and it may happen.
abbrev Follows : Event → Upstream → Upstream → Type 0
Follows e m m' = (slot m' ≡ perform e (slot m)) × Permits m.max_channels e (slot m)

claim-Follows :
    (m : Upstream) (id c cw : ℕ)
    → id ≤ m.max_channels
    → is_taken m id ≡ false
    → Inv m
    → Follows (opens id cw c) m (claim m id c cw)
unfolding claim
claim-Follows m id c cw lim h v =
    (fun_ext λ k. claimed k, (lim, ground (arith, v.covered id, has-get? id m.channel_owners)))
  where
    claimed : (k : ℕ) → slot (claim m id c cw) k ≡ put id (bound cw c) (slot m) k
    claimed k =
        ground (arith, get?-insert id k (record { owner = cw; client_chan = c }) m.channel_owners)

-- A client that owns a number is the one that holds its slot.
held_by-slot :
    (m : Upstream) (id cw : ℕ)
    → Inv m
    → held_by cw (slot m id) ≡ is_owner cw (get? id m.channel_owners)
held_by-slot m id cw v = by_owner (get? id m.channel_owners) refl
  where
    by_owner :
        (o : Option ChannelEntry)
        → get? id m.channel_owners ≡ o
        → held_by cw (slot m id) ≡ is_owner cw o
    by_owner none e = ground (arith, e)
    by_owner (some entry) e = ground (arith, e, v.apart id, has-get? id m.channel_owners)

schedule-Follows :
    (m : Upstream) (id cw : ℕ)
    → Inv m
    → Follows (abandons id cw) m (schedule_channel_close_if_owned_by m id cw).0
unfolding schedule_channel_close_if_owned_by schedule_channel_close
schedule-Follows m id cw v = elim (Bool-cases (is_owner cw (get? id m.channel_owners))) [
  | inl own ↦ rw (own, held_by-slot m id cw v, own) ((fun_ext λ k. scheduled k), tt)
  | inr other ↦ rw (other, held_by-slot m id cw v, other) (refl, tt)
]
  where
    scheduled : (k : ℕ) → slot (schedule_channel_close m id) k ≡ put id closing (slot m) k
    scheduled k =
        ground (arith, has-insert id k tt m.pending_close, get?-delete id k m.channel_owners)

-- A Channel.CloseOk frees the slot, in both of its ways.
pending-Follows :
    (m : Upstream) (u : ℕ)
    → has u m.pending_close ≡ true
    → Inv m
    → Follows (confirms u) m (record m {
      pending_close = delete u m.pending_close;
      used_channels = delete u m.used_channels;
    })
pending-Follows m u p v = (fun_ext λ k. freed k, tt)
  where
    freed :
        (k : ℕ)
        → slot
            (record m {
              pending_close = delete u m.pending_close;
              used_channels = delete u m.used_channels;
            })
            k
          ≡ put u free (slot m) k
    freed k =
        ground (
          arith,
          has-delete u k m.pending_close,
          v.apart u,
          has-get? u m.channel_owners,
          ==_iff u k,
        )

close_owned-Follows :
    (m : Upstream) (f : Frame) (o : Option ChannelEntry)
    → has f.channel m.pending_close ≡ false
    → get? f.channel m.channel_owners ≡ o
    → Follows (confirms f.channel) m (close_owned m f o).0
unfolding close_owned
close_owned-Follows m f none p e = (fun_ext λ k. as_it_was k, tt)
  where
    as_it_was : (k : ℕ) → slot m k ≡ put f.channel free (slot m) k
    as_it_was k = ground (arith, p, e, ==_iff f.channel k)
close_owned-Follows m f (some entry) p e = (fun_ext λ k. freed k, tt)
  where
    freed :
        (k : ℕ)
        → slot
            (record m {
              channel_owners = delete f.channel m.channel_owners;
              used_channels = delete f.channel m.used_channels;
            })
            k
          ≡ put f.channel free (slot m) k
    freed k = ground (arith, get?-delete f.channel k m.channel_owners, ==_iff f.channel k)

forward_keeps :
    (m : Upstream) (f : Frame) (o : Option ChannelEntry) → slot (forward m f o).0 ≡ slot m
unfolding forward
forward_keeps m f none = refl
forward_keeps m f (some entry) = refl

-- The event of a frame that is read.
abbrev read_event : Frame → Event
read_event f = if is_channel_close_ok f && not (f.channel == 0) then confirms f.channel else rests

read_round-Follows :
    (m : Upstream) (f : Frame) → Inv m → Follows (read_event f) m (read_round m f).0
unfolding read_round
read_round-Follows m f v = elim (Bool-cases (f.kind == frame_type_heartbeat)) [
  | inl beat ↦ elim (Bool-cases (is_channel_close_ok f)) [
    | inl ok ↦ absurd (close_ok_kind f ok beat)
    | inr other ↦ rw (beat, other) (refl, tt)
  ]
  | inr no_beat ↦ elim (Bool-cases (is_channel_close_ok f)) [
    | inr other ↦ elim (Bool-cases (f.channel == 0)) [
      | inl zero_ ↦ rw (no_beat, other, zero_) (refl, tt)
      | inr numbered ↦
          rw (no_beat, numbered, other) (forward_keeps m f (get? f.channel m.channel_owners), tt)
    ]
    | inl ok ↦ elim (Bool-cases (f.channel == 0)) [
      | inl zero_ ↦ rw (no_beat, ok, zero_) (refl, tt)
      | inr numbered ↦ elim (Bool-cases (has f.channel m.pending_close)) [
        | inl p ↦ rw (no_beat, numbered, ok, p) (pending-Follows m f.channel p v)
        | inr p ↦
            rw (no_beat, numbered, ok, p)
              (close_owned-Follows m f (get? f.channel m.channel_owners) p refl)
      ]
    ]
  ]
]

deregistered_keeps :
    (m : Upstream) (now : ℕ) (o : Option (List ℕ)) → slot (deregistered m now o) ≡ slot m
unfolding deregistered
deregistered_keeps m now none = refl
deregistered_keeps m now (some cs) = refl

pub Step-Follows : {m m' : Upstream} (st : Step m m') → Inv m → Follows (event_of st) m m'
unfolding start register deregister pump attempt stop handle_upstream_failure mark_stopped_if_idle
    reconnected has get?
Step-Follows (starts conn) v = (refl, tt)
Step-Follows {m} {m'} (allocates c cw id e) v =
    let k = allocate_channel-Claims m m' c cw id v.hint_low v.hint_high v.hint_max v.limit e in
    subst (Follows (opens id cw c) m) (sym k.4) (claim-Follows m id c cw k.0 k.2 v)
Step-Follows {m} {m'} (is_full c cw e) v =
    subst (Follows rests m) (sym (allocate_channel_unchanged m m' c cw v.hint_low e)) (refl, tt)
Step-Follows {m} (schedules id cw) v = schedule-Follows m id cw v
Step-Follows {m} (reads f) v = read_round-Follows m f v
Step-Follows (registers cw) v = (refl, tt)
Step-Follows {m} (deregisters cw now) v =
    (deregistered_keeps m now (remove_client cw m.clients), tt)
Step-Follows {m} {m'} (writes pick_done f e) v =
    subst (Follows rests m) (sym (written_only m m' pick_done f e)) (refl, tt)
Step-Follows pumps v = (refl, tt)
Step-Follows {m} fails v =
    if_elim (λ (r : Upstream × List Effect × Bool). Follows rests m r.0) m.reconnecting
      (λ _. (refl, tt)) (λ _. (refl, tt))
Step-Follows attempts v = (refl, tt)
Step-Follows (reconnects conn now e alive) v = (refl, tt)
Step-Follows {m} (sweeps timeout now) v =
    if_elim (λ (r : Upstream × Bool × List Effect). Follows rests m r.0)
      (idle_for m timeout now m.last_empty_time) (λ _. (refl, tt)) (λ _. (refl, tt))
Step-Follows stops v = (refl, tt)

events-Follow :
    {s m : Upstream} (r : Reach s m)
    → Inv s
    → slot s ≡ (λ k. free)
    → (slot m ≡ perform_all (events_of r)) × PermitsAll s.max_channels (events_of r)
events-Follow here v empty = (empty, tt)
events-Follow {s} {m} (next {t} r st) v empty =
    let (before, permitted) = events-Follow r v empty in
    let (now, permits) = Step-Follows st (Reach-keeps r v) in
    let same = ap (λ (c : Constants). c.max_channels) (Reach-constants r v) in
    (
      now ∙ ap (perform (event_of st)) before,
      (
        subst (λ x. Permits s.max_channels (event_of st) x) before
            (subst (λ n. Permits n (event_of st) (slot t)) same permits),
        permitted,
      ),
    )

-- The channel tables implement the contract of a slot machine. Run any operations on a new upstream, in
-- any order: its slots are at the end what the events of these operations make of free ones, one after
-- another, and each of the events may happen where it does. An allocation binds its number, which was
-- free and is within the limit, to the client's channel; scheduling a close holds the number if this
-- client has it bound, and changes nothing otherwise; reading a Channel.CloseOk on a number but 0 frees
-- it, and a reconnect frees them all; no other operation changes a slot.
pub Reach-events :
    (username password vhost : List ℕ) (n : ℕ) (m : Upstream)
    → (r : Reach (new_upstream username password vhost n) m)
    → (slot m ≡ perform_all (events_of r)) × PermitsAll (n % 65536) (events_of r)
unfolding new_upstream has get?
Reach-events username password vhost n m r =
    events-Follow r (new_upstream-Inv username password vhost n) refl
