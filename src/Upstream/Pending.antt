-- ===== src/Upstream/Pending.antt =====
-- The slots that await the broker's Channel.CloseOk.
use amqplex.Base.{ℕ, ◌≡◌, ◌≢◌, sym, subst, arith, Bool, true, List}
use amqplex.Base.{Option, none, some, if_elim, ◌==◌, Bool-cases, ◌⊎◌, inl, inr}
use native.Mathlib.Decide.{ℕ_discrete}
use amqplex.Base.Maps.{has, get?, delete, has-insert, has-delete}
use amqplex.Frame.{Frame, frame_type_heartbeat}
use amqplex.Method.{is_channel_close_ok}
use amqplex.Upstream.{
  Upstream, ChannelEntry, Effect, allocate_channel, allocated, claim, is_owner,
  schedule_channel_close, schedule_channel_close_if_owned_by, read_round, close_owned, forward,
  register, deregister, deregistered, remove_client, start, handle_upstream_failure,
  mark_stopped_if_idle, idle_for,
}
use amqplex.Upstream.Invariant.{Inv}
use amqplex.Upstream.Allocated.{allocate_channel-Claims, allocate_channel_unchanged}
use amqplex.Upstream.Steps.{
  Step, starts, allocates, is_full, schedules, reads, registers, deregisters, writes, pumps, fails,
  attempts, reconnects, sweeps, stops, pump, attempt, stop, written_only,
}

-- The two operations that may end the wait: the read of a CloseOk for the channel, or a reconnect.
abbrev pub EndsWait : ℕ → {m m' : Upstream} → Step m m' → Type 0
EndsWait k (starts conn) = ⊥
EndsWait k (allocates client_chan cw id e) = ⊥
EndsWait k (is_full client_chan cw e) = ⊥
EndsWait k (schedules id cw) = ⊥
EndsWait k (reads f) = (is_channel_close_ok f ≡ true) × (f.channel ≡ k)
EndsWait k (registers cw) = ⊥
EndsWait k (deregisters cw now) = ⊥
EndsWait k (writes pick_done f e) = ⊥
EndsWait k pumps = ⊥
EndsWait k fails = ⊥
EndsWait k attempts = ⊥
EndsWait k (reconnects conn now e alive) = Unit {0}
EndsWait k (sweeps timeout now) = ⊥
EndsWait k stops = ⊥

abbrev pub Waits : ℕ → Upstream → Type 0
Waits k m = has k m.pending_close ≡ true

close_owned-Waits :
    (k : ℕ) (m : Upstream) (f : Frame) (o : Option ChannelEntry)
    → Waits k m
    → Waits k (close_owned m f o).0
unfolding close_owned
close_owned-Waits k m f none h = h
close_owned-Waits k m f (some entry) h = h

forward-Waits :
    (k : ℕ) (m : Upstream) (f : Frame) (o : Option ChannelEntry)
    → Waits k m
    → Waits k (forward m f o).0
unfolding forward
forward-Waits k m f none h = h
forward-Waits k m f (some entry) h = h

abbrev KeepsWait : ℕ → Upstream × List Effect → Type 0
KeepsWait k r = Waits k r.0

read_round-Waits :
    (k : ℕ) (m : Upstream) (f : Frame)
    → Waits k m
    → (is_channel_close_ok f ≡ true → f.channel ≢ k)
    → Waits k (read_round m f).0
unfolding read_round
read_round-Waits k m f h other =
    if_elim (KeepsWait k) (f.kind == frame_type_heartbeat) (λ _. h)
      λ _.
        if_elim (KeepsWait k) (f.channel == 0) (λ _. h)
          λ _.
            if_elim (KeepsWait k) (is_channel_close_ok f)
              (λ e.
                if_elim (KeepsWait k) (has f.channel m.pending_close) (λ p. kept (other e))
                  (λ p. close_owned-Waits k m f (get? f.channel m.channel_owners) h))
              (λ _. forward-Waits k m f (get? f.channel m.channel_owners) h)
  where
    kept : f.channel ≢ k → has k (delete f.channel m.pending_close) ≡ true
    kept ne = ground (arith, has-delete f.channel k m.pending_close)

read-Waits :
    (k : ℕ) (m : Upstream) (f : Frame)
    → Waits k m
    → Waits k (read_round m f).0 ⊎ ((is_channel_close_ok f ≡ true) × (f.channel ≡ k))
read-Waits k m f h = elim (Bool-cases (is_channel_close_ok f)) [
  | inr other ↦ inl (read_round-Waits k m f h (λ e. cc))
  | inl ok ↦ elim (ℕ_discrete f.channel k) [
    | yes same ↦ inr (ok, same)
    | no ne ↦ inl (read_round-Waits k m f h (λ _. ne))
  ]
]

deregistered-Waits :
    (k : ℕ) (m : Upstream) (now : ℕ) (o : Option (List ℕ))
    → Waits k m
    → Waits k (deregistered m now o)
unfolding deregistered
deregistered-Waits k m now none h = h
deregistered-Waits k m now (some cs) h = h

-- Every operation of the upstream keeps a channel waiting whose close is pending, but for two: reading
-- a Channel.CloseOk on this channel from the broker, and a reconnect.
pub Step-Waits :
    (k : ℕ) {m m' : Upstream} → Inv m → (st : Step m m') → Waits k m → Waits k m' ⊎ EndsWait k st
unfolding start register deregister pump attempt stop handle_upstream_failure mark_stopped_if_idle
    schedule_channel_close_if_owned_by schedule_channel_close claim
Step-Waits k v (starts conn) h = inl h
Step-Waits k {m} {m'} v (allocates client_chan cw id e) h =
    let c =
      allocate_channel-Claims m m' client_chan cw id v.hint_low v.hint_high v.hint_max v.limit e in
    inl (subst (Waits k) (sym c.4) h)
Step-Waits k {m} {m'} v (is_full client_chan cw e) h =
    inl (subst (Waits k) (sym (allocate_channel_unchanged m m' client_chan cw v.hint_low e)) h)
Step-Waits k {m} v (schedules id cw) h = inl (
    if_elim (λ (r : Upstream × Bool). Waits k r.0) (is_owner cw (get? id m.channel_owners))
      (λ _. ground (arith, has-insert id k tt m.pending_close)) (λ _. h))
Step-Waits k {m} v (reads f) h = read-Waits k m f h
Step-Waits k v (registers cw) h = inl h
Step-Waits k {m} v (deregisters cw now) h =
    inl (deregistered-Waits k m now (remove_client cw m.clients) h)
Step-Waits k {m} {m'} v (writes pick_done f e) h =
    inl (subst (Waits k) (sym (written_only m m' pick_done f e)) h)
Step-Waits k v pumps h = inl h
Step-Waits k {m} v fails h =
    inl (
      if_elim (λ (r : Upstream × List Effect × Bool). Waits k r.0) m.reconnecting (λ _. h) (λ _. h))
Step-Waits k v attempts h = inl h
Step-Waits k v (reconnects conn now e alive) h = inr tt
Step-Waits k {m} v (sweeps timeout now) h = inl (
    if_elim (λ (r : Upstream × Bool × List Effect). Waits k r.0)
      (idle_for m timeout now m.last_empty_time) (λ _. h) (λ _. h))
Step-Waits k v stops h = inl h

-- While the close of a channel is pending no call hands the channel out.
pub allocate_channel-ne-pending :
    (k : ℕ) (m m' : Upstream) (client_chan cw id : ℕ)
    → Inv m
    → Waits k m
    → allocate_channel m client_chan cw ≡ allocated id m'
    → id ≢ k
allocate_channel-ne-pending k m m' client_chan cw id v h e same =
    let c =
      allocate_channel-Claims m m' client_chan cw id v.hint_low v.hint_high v.hint_max v.limit e in
    ground (arith, c.2)
