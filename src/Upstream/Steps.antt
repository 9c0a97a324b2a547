-- ===== src/Upstream/Steps.antt =====
-- The life of an upstream: every operation that the proxy calls on it, in any order.
use amqplex.Base.{ℕ, ◌+◌, ◌%◌, ◌≡◌, refl, arith, Bool, true, false, List, []}
use amqplex.Base.{Option, none, some, if_elim, drop}
use amqplex.Base.{subst, sym}
use amqplex.Base.Maps.{has}
use amqplex.Frame.{Frame}
use amqplex.Upstream.{
  Upstream, Effect, allocated, no_free_channel, allocate_channel,
  schedule_channel_close_if_owned_by, register, deregister, deregistered, remove_client, read_round,
  handle_upstream_failure, reconnected, mark_stopped_if_idle, idle_for, start, stop_write_pump,
  write_frame_to_upstream, returned,
}
use amqplex.Upstream.Invariant.{Inv}
use amqplex.Upstream.Allocated.{allocate_channel_unchanged}
use amqplex.Upstream.Preserve.{
  allocate_channel-Inv, schedule_channel_close_if_owned_by-Inv, read_round-Inv, same_tables-Inv,
  reconnected-Inv,
}

-- The literal of `getOrCreateManagedUpstream`, with the limit cut to uint16.
unfoldable pub new_upstream : List ℕ → List ℕ → List ℕ → ℕ → Upstream
new_upstream username password vhost pool_max_channels = record {
  username = username;
  password = password;
  vhost = vhost;
  max_channels = pool_max_channels % 65536;
  conn = none;
  used_channels = [];
  channel_owners = [];
  pending_close = [];
  next_hint = 1;
  clients = [];
  last_empty_time = none;
  write_ch = [];
  write_done = false;
  stopped = false;
  reconnecting = false;
  reconnect_total = 0;
}

-- The write pump takes a frame from the write channel.
unfoldable pub pump : Upstream → Upstream
pump m = record m { write_ch = drop 1 m.write_ch }

-- `m.stopped.Store(true)` with the pump told to stop, as `Stop` does.
unfoldable pub stop : Upstream → Upstream
unfolding stop_write_pump
stop m = record (stop_write_pump m) { stopped = true }

-- `m.reconnectTotal.Add(1)`, at the head of each attempt.
unfoldable pub attempt : Upstream → Upstream
attempt m = record m { reconnect_total = m.reconnect_total + 1 }

pub data Step (m : Upstream) : Upstream → Type 0 where
  starts : (conn : ℕ) → Step m (start m conn)
  allocates :
      {m' : Upstream} (client_chan cw id : ℕ)
      → allocate_channel m client_chan cw ≡ allocated id m'
      → Step m m'
  is_full :
      {m' : Upstream} (client_chan cw : ℕ)
      → allocate_channel m client_chan cw ≡ no_free_channel m'
      → Step m m'
  schedules : (id cw : ℕ) → Step m (schedule_channel_close_if_owned_by m id cw).0
  reads : (f : Frame) → Step m (read_round m f).0
  registers : (cw : ℕ) → Step m (register m cw)
  deregisters : (cw now : ℕ) → Step m (deregister m cw now)
  writes :
      {m' : Upstream} (pick_done : Bool) (f : Frame)
      → write_frame_to_upstream pick_done m f ≡ returned m'
      → Step m m'
  pumps : Step m (pump m)
  fails : Step m (handle_upstream_failure m).0
  attempts : Step m (attempt m)
  -- `reconnectLoop` closes the old `writeDone`, which panics if it is closed already.
  reconnects :
      (conn now : ℕ)
      → m.reconnecting ≡ true
      → m.write_done ≡ false
      → Step m (reconnected m conn now)
  sweeps : (timeout now : ℕ) → Step m (mark_stopped_if_idle m timeout now).0
  stops : Step m (stop m)

pub data Reach (s : Upstream) : Upstream → Type 0 where
  here : Reach s s
  next : {t u : Upstream} → Reach s t → Step t u → Reach s u

pub new_upstream-Inv :
    (username password vhost : List ℕ) (n : ℕ) → Inv (new_upstream username password vhost n)
unfolding new_upstream has
new_upstream-Inv username password vhost n = record {
  limit = omega arith;
  hint_low = omega arith;
  hint_high = omega arith;
  hint_max = omega arith;
  distinct = tt;
  range = λ k h. cc;
  covered = λ k. refl;
  apart = λ k. refl;
}

deregistered-Inv :
    (m : Upstream) (now : ℕ) (o : Option (List ℕ)) → Inv m → Inv (deregistered m now o)
unfolding deregistered
deregistered-Inv m now none v = v
deregistered-Inv m now (some cs) v = same_tables-Inv m _ _ _ _ _ _ _ _ v

pub written_only :
    (m m' : Upstream) (pick_done : Bool) (f : Frame)
    → write_frame_to_upstream pick_done m f ≡ returned m'
    → m' ≡ record m { write_ch = m'.write_ch }
unfolding write_frame_to_upstream
written_only m m' pick_done f e = ground arith

write-Inv :
    (m m' : Upstream) (pick_done : Bool) (f : Frame)
    → write_frame_to_upstream pick_done m f ≡ returned m'
    → Inv m
    → Inv m'
write-Inv m m' pick_done f e v =
    subst Inv (sym (written_only m m' pick_done f e)) (same_tables-Inv m _ _ _ _ _ _ _ _ v)

pub Step-Inv : {m m' : Upstream} → Step m m' → Inv m → Inv m'
unfolding start register deregister pump attempt stop handle_upstream_failure mark_stopped_if_idle
Step-Inv (starts conn) v = same_tables-Inv _ _ _ _ _ _ _ _ _ v
Step-Inv {m} {m'} (allocates client_chan cw id e) v =
    allocate_channel-Inv m m' client_chan cw id v e
Step-Inv {m} {m'} (is_full client_chan cw e) v =
    subst Inv (sym (allocate_channel_unchanged m m' client_chan cw v.hint_low e)) v
Step-Inv (schedules id cw) v = schedule_channel_close_if_owned_by-Inv _ id cw v
Step-Inv (reads f) v = read_round-Inv _ f v
Step-Inv (registers cw) v = same_tables-Inv _ _ _ _ _ _ _ _ _ v
Step-Inv {m} (deregisters cw now) v = deregistered-Inv m now (remove_client cw m.clients) v
Step-Inv {m} {m'} (writes pick_done f e) v = write-Inv m m' pick_done f e v
Step-Inv pumps v = same_tables-Inv _ _ _ _ _ _ _ _ _ v
Step-Inv {m} fails v =
    if_elim (λ (r : Upstream × List Effect × Bool). Inv r.0) m.reconnecting (λ _. v)
      (λ _. same_tables-Inv m _ _ _ _ _ _ _ _ v)
Step-Inv attempts v = same_tables-Inv _ _ _ _ _ _ _ _ _ v
Step-Inv {m} (reconnects conn now e alive) v = reconnected-Inv m conn now v.limit
Step-Inv {m} (sweeps timeout now) v =
    if_elim (λ (r : Upstream × Bool × List Effect). Inv r.0)
      (idle_for m timeout now m.last_empty_time) (λ _. same_tables-Inv m _ _ _ _ _ _ _ _ v) (λ _. v)
Step-Inv stops v = same_tables-Inv _ _ _ _ _ _ _ _ _ v

pub Reach-keeps : {s m : Upstream} → Reach s m → Inv s → Inv m
Reach-keeps here v = v
Reach-keeps (next r st) v = Step-Inv st (Reach-keeps r v)

-- After any operations in any order on a new upstream, every channel number in use is owned by a
-- client or has its close pending and never both, it lies within the limit, and the hint is in range.
pub Reach-Inv :
    (username password vhost : List ℕ) (n : ℕ) (m : Upstream)
    → Reach (new_upstream username password vhost n) m
    → Inv m
Reach-Inv username password vhost n m r = Reach-keeps r (new_upstream-Inv username password vhost n)
