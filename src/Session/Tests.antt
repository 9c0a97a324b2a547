-- ===== src/Session/Tests.antt =====
-- Runs of a client's session, and its theorems at concrete inputs.
use amqplex.Base.{ℕ, ◌≡◌, ◌≢◌, refl, arith, true, false, [], ◌∷◌, none, some, All}
use amqplex.Base.Maps.{get?, has}
use amqplex.Frame.{Frame, frame_type_method}
use amqplex.Method.{is_channel_open, is_channel_close_ok}
use amqplex.Upstream.{
  Upstream, send_upstream, allocated, allocate_channel, allocate_within, claim, remap, fix_hint,
}
use amqplex.Upstream.Scan.{scan_up}
use amqplex.Upstream.Invariant.{Inv}
use amqplex.Upstream.Routing.{SameSlot}
use amqplex.Upstream.{schedule_channel_close_if_owned_by}
use amqplex.Client.{Client}
use amqplex.Client.Mapping.{AreInverse}
use amqplex.FrameProxy.{FrameProxy}
use amqplex.Session.{goes_on, client_round, end_session}
use amqplex.Frame.RoundTrip.{IsFrame}
use amqplex.Session.Run.{Meanwhile}
use amqplex.Session.Open.{after_open}
use amqplex.Session.Rounds.{after_round}
use amqplex.Session.Cleanup.{owns, IsHeld, MapsTo, OpenOn, ClosesOnly, end_session_cleans}
use amqplex.Session.Leak.{close_ok_leaks, reopen_leaks}

-- Channel 5 of client 7 stands on the upstream channel 1.
abbrev shared : Upstream
shared = record {
  username = [];
  password = [];
  vhost = [];
  max_channels = 3;
  conn = some 0;
  used_channels = (1, tt) ∷ [];
  channel_owners = (1, record { owner = 7; client_chan = 5 }) ∷ [];
  pending_close = [];
  next_hint = 2;
  clients = 7 ∷ [];
  last_empty_time = none;
  write_ch = [];
  write_done = false;
  stopped = false;
  reconnecting = false;
  reconnect_total = 0;
}

shared-Inv : Inv shared
unfolding has
shared-Inv = record {
  limit = omega arith;
  hint_low = omega arith;
  hint_high = omega arith;
  hint_max = omega arith;
  distinct = (refl, tt);
  range = λ k h. ground arith;
  covered = λ k. ground arith;
  apart = λ k. ground arith;
}

abbrev seven : Client
seven = record {
  identity = 7;
  client_channels = (5, record { id = 5; upstream_id = 1; safe = true; operations = [] }) ∷ [];
  channel_mapping = (5, 1) ∷ [];
  reverse_mapping = (1, 5) ∷ [];
  username = [];
  password = [];
  vhost = [];
}

method : ℕ → ℕ → Frame
method channel id = record {
  kind = frame_type_method;
  channel = channel;
  payload = 0 ∷ 20 ∷ 0 ∷ id ∷ [];
}

next_one : (c cw : ℕ) → allocate_channel shared c cw ≡ allocated 2 (claim shared 2 c cw)
unfolding allocate_channel allocate_within scan_up has fix_hint
next_one c cw = refl

-- Channel 6 of client 7 is opened, and then client 7 lets go of another channel.
abbrev let_go : Upstream
let_go = (schedule_channel_close_if_owned_by (claim shared 2 6 7) 1 7).0

end_session_cleans_example :
    let r = end_session shared seven 9 in
    ((k : ℕ) → owns shared 7 k ≡ true → MapsTo k seven.channel_mapping → IsHeld k r.0)
    × ((k : ℕ) → owns shared 7 k ≡ false → SameSlot k shared r.0)
    × All (ClosesOnly (λ u. (owns shared 7 u ≡ true) × OpenOn seven.channel_mapping seven u)) r.2
end_session_cleans_example = end_session_cleans shared seven 9

-- Client 8 has opened nothing, and closes the channel of client 7 on the broker.
abbrev eight : Client
eight = record seven {
  identity = 8;
  client_channels = [];
  channel_mapping = [];
  reverse_mapping = [];
}

close_ok_leaks_example :
    let r = end_session shared (after_round seven (method 5 41)) 9 in
    (client_round shared seven (method 5 41)
      ≡ goes_on shared
          (after_round seven (method 5 41))
          (send_upstream (remap 1 (method 5 41)) ∷ []))
    × IsHeld 1 r.0
    × All (ClosesOnly (λ k. k ≢ 1)) r.2
unfolding method get? is_channel_close_ok
close_ok_leaks_example =
    close_ok_leaks shared seven (method 5 41) 1 9 refl refl (λ e. refl, tt) refl

reopen_leaks_example :
    let m' = claim shared 2 5 7 in
    let cc' = after_open seven (method 5 10) 2 in
    let r = end_session m' cc' 9 in
    (client_round shared seven (method 5 10)
      ≡ goes_on m' cc' (send_upstream (remap 2 (method 5 10)) ∷ []))
    × (◌≢◌ {A = ℕ} 2 1)
    × SameSlot 1 shared r.0
    × (owns r.0 7 1 ≡ true)
unfolding method is_channel_open has get?
reopen_leaks_example =
    reopen_leaks shared (claim shared 2 5 7) seven (method 5 10) 1 2 9 shared-Inv refl
      (next_one 5 7) (refl, tt) (λ e. refl, tt) refl

seven-AreInverse : AreInverse seven
unfolding get?
seven-AreInverse = record { there = λ c u h. ground arith; back = λ c u h. ground arith }

abbrev wired : FrameProxy
wired = record {
  client_conn = seven;
  upstream_writer = some (record { written = []; room = 64 });
  client_writer = some (record { written = []; room = 32 });
}

-- Nobody else is at work.
abbrev quiet : Meanwhile
quiet k m cc = (m, cc)

method-IsFrame : IsFrame (method 5 40)
unfolding method
method-IsFrame = record { kind = omega arith; channel = omega arith; size = omega arith }
