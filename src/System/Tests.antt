-- ===== src/System/Tests.antt =====
-- A run of the system, and its theorems on it: client 7 comes to a new upstream and opens channel 5.
use amqplex.Base.{ℕ, ◌≡◌, refl, arith, [], ◌∷◌}
use amqplex.Base.Maps.{get?, has, insert}
use amqplex.Frame.{Frame, frame_type_method}
use amqplex.Method.{is_channel_open, is_channel_close_ok, is_connection_close, marks_unsafe}
use amqplex.Upstream.{
  Upstream, claim, start, register, allocate_channel, allocate_within, fix_hint, allocated,
  send_upstream, remap, deliver, read_round,
}
use amqplex.Upstream.Scan.{scan_up}
use amqplex.Upstream.Steps.{new_upstream}
use amqplex.Client.{new_client_connection, map_channel, mark_channel_safety}
use amqplex.Session.{joined, join_upstream, client_round, goes_on}
use amqplex.Session.Rounds.{after_round}
use amqplex.Session.Join.{is_new}
use amqplex.Session.Open.{after_open, open_round}
use amqplex.System.{System, Reach, here, next, starts, joins, sends}
use amqplex.System.Isolated.{IsIsolated, Reach-IsIsolated, new_system}
use amqplex.System.Stale.{stale_frame_passes}
use amqplex.Upstream.Routing.{IsFreeSlot}
use amqplex.Upstream.{reconnected, returned, write_frame_to_upstream}
use amqplex.Base.{false, true}
use amqplex.System.Routes.{HasMapped, IsQueued, routes_both_ways}

method : ℕ → ℕ → Frame
method channel id = record {
  kind = frame_type_method;
  channel = channel;
  payload = 0 ∷ 20 ∷ 0 ∷ id ∷ [];
}

abbrev one : Upstream
one = register (start (new_upstream [] [] [] 3) 0) 7

abbrev shared : System
shared = record {
  upstream = claim one 1 5 7;
  sessions = (7, after_open (new_client_connection 7) (method 5 10) 1) ∷ [];
}

first_channel : allocate_channel one 5 7 ≡ allocated 1 (claim one 1 5 7)
unfolding allocate_channel allocate_within scan_up has fix_hint start register new_upstream
first_channel = refl

joins_first :
    join_upstream (start (new_upstream [] [] [] 3) 0) (new_client_connection 7) 4 ≡ joined one
unfolding join_upstream register start new_upstream new_client_connection
joins_first = refl

abbrev after_join : System
after_join = record { upstream = one; sessions = (7, new_client_connection 7) ∷ [] }

joined_reached : Reach (new_system (new_upstream [] [] [] 3)) after_join
unfolding get? insert new_client_connection
joined_reached =
    next [] (next [] here (starts 0)) (joins (new_client_connection 7) 4 refl refl joins_first)

shared_reached : Reach (new_system (new_upstream [] [] [] 3)) shared
unfolding get? insert method is_channel_open new_client_connection
shared_reached = next (send_upstream (remap 1 (method 5 10)) ∷ []) joined_reached (
    sends 7 (method 5 10) refl (
      open_round one (claim one 1 5 7) (new_client_connection 7) (method 5 10) 1 refl
        first_channel))

Reach-IsIsolated_example : IsIsolated shared
Reach-IsIsolated_example = Reach-IsIsolated [] [] [] 3 shared shared_reached

seven_mapped : HasMapped shared 7 (after_open (new_client_connection 7) (method 5 10) 1) 5 1
unfolding get? is_new claim register start new_upstream mark_channel_safety map_channel method
    marks_unsafe insert new_client_connection
seven_mapped = record { session = refl; registered = refl; mapped = refl }

routes_both_ways_example :
    let seven = after_open (new_client_connection 7) (method 5 10) 1 in
    (client_round shared.upstream seven (method 5 40)
      ≡ goes_on shared.upstream
          (after_round seven (method 5 40))
          (send_upstream (remap 1 (method 5 40)) ∷ []))
    × IsQueued shared.upstream
        (remap 1 (method 5 40))
        (write_frame_to_upstream true shared.upstream (remap 1 (method 5 40)))
    × (read_round shared.upstream (method 1 60)
        ≡ (shared.upstream, deliver 7 (remap 5 (method 1 60)) ∷ []))
unfolding method is_channel_open is_connection_close is_channel_close_ok
routes_both_ways_example =
    routes_both_ways [] [] [] 3 shared shared_reached 7 5 1 _ (method 5 40) (method 1 60) true
      seven_mapped refl (omega arith) refl refl refl (omega arith) (omega arith) refl

-- Client 7 goes on after a reconnect.
stale_frame_passes_example :
    let seven = after_open (new_client_connection 7) (method 5 10) 1 in
    let m' = reconnected one 8 20 in
    (client_round m' seven (method 5 40)
      ≡ goes_on m' (after_round seven (method 5 40)) (send_upstream (remap 1 (method 5 40)) ∷ []))
    × (write_frame_to_upstream false m' (remap 1 (method 5 40))
        ≡ returned (record m' { write_ch = remap 1 (method 5 40) ∷ [] }))
    × IsFreeSlot 1 m'
unfolding method is_channel_open is_connection_close register start new_upstream
stale_frame_passes_example =
    stale_frame_passes one (after_open (new_client_connection 7) (method 5 10) 1) (method 5 40) 1 8
      20 false refl seven_mapped.mapped (omega arith) refl refl
