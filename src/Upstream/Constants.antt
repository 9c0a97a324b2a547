-- ===== src/Upstream/Constants.antt =====
-- What no operation on an upstream changes.
use amqplex.Base.{ℕ, ◌≡◌, refl, ap, ◌∙◌, arith, List, Option, none, some}
use amqplex.Base.Maps.{}
use amqplex.Frame.{Frame}
use amqplex.Upstream.{
  Upstream, claim, schedule_channel_close, schedule_channel_close_if_owned_by, read_round,
  close_owned, forward, register, deregister, deregistered, remove_client, start,
  handle_upstream_failure, mark_stopped_if_idle, reconnected,
}
use amqplex.Upstream.Invariant.{Inv}
use amqplex.Upstream.Allocated.{allocate_channel-Claims, allocate_channel_unchanged}
use amqplex.Upstream.Steps.{
  Step, starts, allocates, is_full, schedules, reads, registers, deregisters, writes, pumps, fails,
  attempts, reconnects, sweeps, stops, pump, attempt, stop, written_only, Reach, here, next,
  Reach-keeps,
}
use amqplex.Upstream.{close_owned, forward}

pub record Constants : Type 0 where
  pub username : List ℕ
  pub password : List ℕ
  pub vhost : List ℕ
  pub max_channels : ℕ

abbrev pub constants : Upstream → Constants
constants m = record {
  username = m.username;
  password = m.password;
  vhost = m.vhost;
  max_channels = m.max_channels;
}

deregistered-constants :
    (m : Upstream) (now : ℕ) (o : Option (List ℕ)) → constants (deregistered m now o) ≡ constants m
unfolding deregistered
deregistered-constants m now none = refl
deregistered-constants m now (some cs) = refl

read_round-constants : (m : Upstream) (f : Frame) → constants (read_round m f).0 ≡ constants m
unfolding read_round close_owned forward
read_round-constants m f = ground arith

-- No operation changes the credentials or the limit.
pub Step-constants : {m m' : Upstream} → Step m m' → Inv m → constants m' ≡ constants m
unfolding start register deregister pump attempt stop handle_upstream_failure mark_stopped_if_idle
    schedule_channel_close_if_owned_by schedule_channel_close reconnected claim
Step-constants (starts conn) v = refl
Step-constants {m} {m'} (allocates c cw id e) v =
    ap constants
      (allocate_channel-Claims m m' c cw id v.hint_low v.hint_high v.hint_max v.limit e).4
Step-constants {m} {m'} (is_full c cw e) v =
    ap constants (allocate_channel_unchanged m m' c cw v.hint_low e)
Step-constants {m} (schedules id cw) v = ground arith
Step-constants {m} (reads f) v = read_round-constants m f
Step-constants (registers cw) v = refl
Step-constants {m} (deregisters cw now) v =
    deregistered-constants m now (remove_client cw m.clients)
Step-constants {m} {m'} (writes pick_done f e) v = ap constants (written_only m m' pick_done f e)
Step-constants pumps v = refl
Step-constants {m} fails v = ground arith
Step-constants attempts v = refl
Step-constants (reconnects conn now e alive) v = refl
Step-constants {m} (sweeps timeout now) v = ground arith
Step-constants stops v = refl

pub Reach-constants : {s m : Upstream} → Reach s m → Inv s → constants m ≡ constants s
Reach-constants here v = refl
Reach-constants (next r st) v = Step-constants st (Reach-keeps r v) ∙ Reach-constants r v
