-- ===== src/Upstream/Tests.antt =====
-- Runs of `ManagedUpstream`'s operations, and its theorems at concrete inputs.
use amqplex.Base.{
  ℕ, zero, suc, ◌≤◌, ◌<◌, ◌≡◌, ◌≢◌, refl, arith, true, false, [], ◌∷◌, none, some, ◌⊎◌, All,
}
use amqplex.Base.Maps.{has}
use amqplex.Frame.{Frame, frame_type_method}
use amqplex.Method.{is_channel_close_ok}
use amqplex.Upstream.{
  Upstream, ChannelEntry, ChannelSet, allocated, hangs, allocate_channel, allocate_within, claim,
  read_round, reconnected, is_taken, fix_hint, start,
}
use amqplex.Upstream.Scan.{scan_up}
use amqplex.Upstream.Invariant.{Inv}
use amqplex.Upstream.Allocate.{
  Allocates, allocate_channel-Allocates, allocate_channel_zero, allocate_within_hangs,
}
use amqplex.Upstream.Capacity.{Agrees, has_capacity-allocate_channel}
use amqplex.Upstream.Routing.{GoesToOwner, read_round-Routed, IsFreeSlot, SameSlot, close_ok_frees}
use amqplex.Upstream.Slots.{slot, opens, rests, perform_all, PermitsAll}
use amqplex.Upstream.Slots.Refines.{Reach-events}
use amqplex.Upstream.Steps.{
  Reach, allocates, here, next, starts, pumps, new_upstream, pump, Reach-Inv,
}
use amqplex.Upstream.Pending.{Waits, EndsWait, Step-Waits}
use amqplex.Frame.Stream.{Writer}
use amqplex.Upstream.Pump.{Pump, waiting, pump_step, enqueue, Runs, starts, enqueues, steps}
use amqplex.Upstream.Pump.Order.{InOrder, Runs-InOrder}
use amqplex.Base.{◌==◌, if◌then◌else◌}
use amqplex.Frame.RoundTrip.{frame_bytes}
use amqplex.Upstream.Loop.{Others, Readers}
use amqplex.Upstream.Reconnect.{Attempt, reconnect_loop, renewed, panics}
use amqplex.Upstream.Reconnect.Renews.{Spares, reconnect_loop_renews}
use amqplex.Upstream.Reconnect.Panics.{swept_during, sweep_panics}

abbrev entry : ℕ → ℕ → ChannelEntry
entry owner client_chan = record { owner = owner; client_chan = client_chan }

-- Channel 1 belongs to channel 5 of client 7, and the close of channel 2 is pending.
abbrev busy : Upstream
busy = record {
  username = [];
  password = [];
  vhost = [];
  max_channels = 3;
  conn = some 0;
  used_channels = (1, tt) ∷ (2, tt) ∷ [];
  channel_owners = (1, entry 7 5) ∷ [];
  pending_close = (2, tt) ∷ [];
  next_hint = 3;
  clients = 7 ∷ [];
  last_empty_time = none;
  write_ch = [];
  write_done = false;
  stopped = false;
  reconnecting = false;
  reconnect_total = 0;
}

busy-Inv : Inv busy
unfolding has
busy-Inv = record {
  limit = omega arith;
  hint_low = omega arith;
  hint_high = omega arith;
  hint_max = omega arith;
  distinct = (refl, (refl, tt));
  range = λ k h. ground arith;
  covered = λ k. ground arith;
  apart = λ k. ground arith;
}

busy_next : allocate_channel busy 6 8 ≡ allocated 3 (claim busy 3 6 8)
unfolding allocate_channel allocate_within scan_up has fix_hint
busy_next = refl

close_ok : ℕ → Frame
close_ok channel = record {
  kind = frame_type_method;
  channel = channel;
  payload = 0 ∷ 20 ∷ 0 ∷ 41 ∷ [];
}

allocate_channel-Allocates_example : Allocates busy 6 8 (allocate_channel busy 6 8)
allocate_channel-Allocates_example =
    allocate_channel-Allocates busy 6 8 (omega arith) (omega arith) (omega arith) refl

has_capacity-allocate_channel_example : Agrees busy (allocate_channel busy 6 8)
has_capacity-allocate_channel_example =
    has_capacity-allocate_channel busy 6 8 busy-Inv (omega arith) refl

-- The default limit, with the last channel number in use.
abbrev at_end : Upstream
at_end = record busy {
  max_channels = 65535;
  used_channels = (65535, tt) ∷ [];
  channel_owners = (65535, entry 7 5) ∷ [];
  pending_close = [];
  next_hint = 65535;
}

at_end_taken : (k : ℕ) → 65535 ≤ k → k ≤ 65535 → is_taken at_end k ≡ true
unfolding has
at_end_taken k lo hi = ground arith

allocate_channel_zero_example : allocate_channel at_end 6 8 ≡ allocated 0 (claim at_end 0 6 8)
unfolding has
allocate_channel_zero_example =
    allocate_channel_zero at_end 6 8 refl (omega arith) (omega arith) refl at_end_taken refl

-- The channel numbers below `n`.
numbers : ℕ → ChannelSet
numbers zero = []
numbers (suc n) = (n, tt) ∷ numbers n

has-numbers : (n k : ℕ) → k < n → has k (numbers n) ≡ true
unfolding numbers has
has-numbers zero k h = absurd (omega arith)
has-numbers (suc n) k h = ground (arith, has-numbers n k)

abbrev full : Upstream
full = record at_end { used_channels = numbers 65536 }

full_taken : (k : ℕ) → k < 65536 → is_taken full k ≡ true
full_taken k h = ground (arith, has-numbers 65536 k h)

allocate_within_hangs_example : allocate_within 65536 full 6 8 ≡ hangs
allocate_within_hangs_example =
    allocate_within_hangs 65536 full 6 8 refl (omega arith) (omega arith) refl full_taken

read_round-Routed_example : All (GoesToOwner busy (close_ok 1)) (read_round busy (close_ok 1)).1
unfolding close_ok
read_round-Routed_example = read_round-Routed busy (close_ok 1) (omega arith) (omega arith)

close_ok_frees_example :
    IsFreeSlot 1 (read_round busy (close_ok 1)).0
    × ((k : ℕ) → k ≢ 1 → SameSlot k busy (read_round busy (close_ok 1)).0)
unfolding close_ok is_channel_close_ok
close_ok_frees_example = close_ok_frees busy (close_ok 1) busy-Inv refl (omega arith)

Step-Waits_example : Waits 2 (pump busy) ⊎ EndsWait 2 {m = busy} pumps
unfolding has
Step-Waits_example = Step-Waits 2 busy-Inv pumps refl

Reach-Inv_example : Inv (start (new_upstream [] [] [] 3) 0)
Reach-Inv_example = Reach-Inv [] [] [] 3 _ (next here (starts 0))

-- Channel 5 of client 7 is opened on a new upstream.
opened_once : Reach (new_upstream [] [] [] 3) (claim (start (new_upstream [] [] [] 3) 0) 1 5 7)
unfolding allocate_channel allocate_within scan_up has fix_hint start new_upstream
opened_once = next (next here (starts 0)) (allocates 5 7 1 refl)

Reach-events_example :
    (slot (claim (start (new_upstream [] [] [] 3) 0) 1 5 7)
      ≡ perform_all (opens 1 7 5 ∷ rests ∷ []))
    × PermitsAll 3 (opens 1 7 5 ∷ rests ∷ [])
unfolding opened_once
Reach-events_example = Reach-events [] [] [] 3 _ opened_once

abbrev vain : Attempt
vain = record { meanwhile = λ u. u; dial = none; now = 5 }

abbrev lucky : Attempt
lucky = record { meanwhile = λ u. u; dial = some 9; now = 8 }

alone-Spares : Spares (λ u. u)
alone-Spares = record { rest = λ u conn now. refl; alive = λ u. refl }

reconnect_loop_renews_example :
    (reconnect_loop busy 0 (vain ∷ lucky ∷ [])).0
    ≡ renewed (record (reconnected busy 9 8) { reconnect_total = 2 })
unfolding reconnected
reconnect_loop_renews_example =
    reconnect_loop_renews busy 0 9 (vain ∷ []) [] lucky
      (record { spares = alone-Spares; fails = refl }, tt) alone-Spares refl refl refl

-- The broker comes back ten seconds after the last client has left.
abbrev forsaken : Upstream
forsaken = record busy {
  clients = [];
  used_channels = [];
  channel_owners = [];
  pending_close = [];
  last_empty_time = some 0;
  reconnecting = true;
}

sweep_panics_example : (reconnect_loop forsaken 0 (swept_during 5 10 9 ∷ [])).0 ≡ panics
sweep_panics_example = sweep_panics forsaken 0 9 5 10 0 [] refl refl refl refl (omega arith)

abbrev ping : Frame
ping = record { kind = 8; channel = 0; payload = [] }

abbrev pump_writer : Writer
pump_writer = record { written = []; room = 10 }

-- Two frames of eight bytes, of which the connection takes only the first.
abbrev two_steps : Pump
two_steps = pump_step false false true (
    pump_step false false true (
      enqueue ping (
        enqueue ping (record { queue = []; writer = pump_writer; flushed = []; phase = waiting }))))

two_sent : Runs pump_writer (ping ∷ ping ∷ []) two_steps
two_sent =
    steps false false true
      (steps false false true (enqueues {sent = ping ∷ []} ping (enqueues {sent = []} ping starts)))

Runs-InOrder_example : InOrder pump_writer (ping ∷ ping ∷ []) two_steps
Runs-InOrder_example = Runs-InOrder pump_writer (ping ∷ ping ∷ []) two_steps two_sent

-- A reconnect to connection 9 comes between every two rounds.
abbrev reconnected_to_nine : Others
reconnected_to_nine k (m, readers) = (start m 9, readers)

-- The first connection brings a byte, and connection 9 a frame.
abbrev two_readers : Readers
two_readers conn = if conn == 9 then frame_bytes (close_ok 1) else 8 ∷ []
