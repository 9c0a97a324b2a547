-- ===== src/Upstream/Slots.antt =====
-- The channel tables of an upstream, seen as one slot for each channel number, and the events
-- that change a slot: the contract of `ManagedUpstream`'s operations.
pub mod Refines
pub mod Spared
use amqplex.Base.{◌≢◌, ◌⊎◌}
use amqplex.Base.{
  ℕ, ◌≤◌, ◌≡◌, Bool, true, false, List, [], ◌∷◌, Option, none, some, if◌then◌else◌, ◌==◌, ◌&&◌, not,
}
use amqplex.Base.Maps.{has, get?}
use amqplex.Frame.{Frame}
use amqplex.Method.{is_channel_close_ok}
use amqplex.Upstream.{Upstream, ChannelEntry}
use amqplex.Upstream.Steps.{
  Step, starts, allocates, is_full, schedules, reads, registers, deregisters, writes, pumps, fails,
  attempts, reconnects, sweeps, stops, Reach, here, next,
}

-- A channel number is free, bound to a client's channel, or held until the broker confirms a close.
pub data Slot : Type 0 where
  free closing : Slot
  bound : ℕ → ℕ → Slot

abbrev pub Slots : Type 0
Slots = ℕ → Slot

abbrev pub put : ℕ → Slot → Slots → Slots
put u x s k = if u == k then x else s k

-- What happens to the slots: a number is bound to a client's channel, a client's session lets go of a
-- number, the broker confirms that a number is closed, a new connection begins, or nothing.
pub data Event : Type 0 where
  opens : ℕ → ℕ → ℕ → Event
  abandons : ℕ → ℕ → Event
  confirms : ℕ → Event
  renews rests : Event

abbrev pub held_by : ℕ → Slot → Bool
held_by cw free = false
held_by cw closing = false
held_by cw (bound owner c) = owner == cw

-- What an event makes of the slots. A number is held, not freed, when its own client lets go of it, and
-- stays as it is when another one does.
abbrev pub perform : Event → Slots → Slots
perform (opens u cw c) s = put u (bound cw c) s
perform (abandons u cw) s = if held_by cw (s u) then put u closing s else s
perform (confirms u) s = put u free s
perform renews s = λ k. free
perform rests s = s

-- When an event may happen: a number that is bound was free and is within the limit.
abbrev pub Permits : ℕ → Event → Slots → Type 0
Permits max (opens u cw c) s = (u ≤ max) × (s u ≡ free)
Permits max (abandons u cw) s = Unit {0}
Permits max (confirms u) s = Unit {0}
Permits max renews s = Unit {0}
Permits max rests s = Unit {0}

-- The slots after events, the latest in front, from the free ones on.
abbrev pub perform_all : List Event → Slots
perform_all [] = λ k. free
perform_all (e ∷ es) = perform e (perform_all es)

abbrev pub PermitsAll : ℕ → List Event → Type 0
PermitsAll max [] = Unit {0}
PermitsAll max (e ∷ es) = Permits max e (perform_all es) × PermitsAll max es

abbrev pub owned_slot : Option ChannelEntry → Slot
owned_slot none = free
owned_slot (some e) = bound e.owner e.client_chan

-- The slot that the tables of an upstream describe.
abbrev pub slot : Upstream → Slots
slot m k = if has k m.pending_close then closing else owned_slot (get? k m.channel_owners)

-- The event that an operation of the upstream is.
abbrev pub event_of : {m m' : Upstream} → Step m m' → Event
event_of (starts conn) = rests
event_of (allocates client_chan cw id e) = opens id cw client_chan
event_of (is_full client_chan cw e) = rests
event_of (schedules id cw) = abandons id cw
event_of (reads f) =
    if is_channel_close_ok f && not (f.channel == 0) then confirms f.channel else rests
event_of (registers cw) = rests
event_of (deregisters cw now) = rests
event_of (writes pick_done f e) = rests
event_of pumps = rests
event_of fails = rests
event_of attempts = rests
event_of (reconnects conn now e alive) = renews
event_of (sweeps timeout now) = rests
event_of stops = rests

-- The events of a run of operations, the latest in front.
abbrev pub events_of : {s m : Upstream} → Reach s m → List Event
events_of here = []
events_of (next r st) = event_of st ∷ events_of r

-- The event leaves a number alone that is bound to a client: the client does not let go of it, the
-- broker does not confirm a close of it, and there is no new connection.
abbrev pub Spares : ℕ → ℕ → Event → Type 0
Spares cw id (opens u owner c) = Unit {0}
Spares cw id (abandons u owner) = (u ≢ id) ⊎ (owner ≢ cw)
Spares cw id (confirms u) = u ≢ id
Spares cw id renews = ⊥
Spares cw id rests = Unit {0}

abbrev pub SparesAll : ℕ → ℕ → List Event → Type 0
SparesAll cw id [] = Unit {0}
SparesAll cw id (e ∷ es) = Spares cw id e × SparesAll cw id es
