-- ===== src/Upstream.antt =====
-- proxy/managed_upstream.go: the state of one shared upstream connection, and the operations on it.
-- A `clientWriter` is a number, the identity of the client's object; so is an `UpstreamConn`.
pub mod Scan
pub mod Invariant
pub mod Allocate
pub mod Allocated
pub mod Preserve
pub mod Steps
pub mod Constants
pub mod Slots
pub mod Capacity
pub mod Routing
pub mod Pending
pub mod Reconnect
pub mod Pump
pub mod Loop
mod Tests
use amqplex.Base.{ℕ, ◌+◌, ◌-◌, ◌%◌, ◌<◌, Bool, true, false, not, ◌&&◌, ◌||◌, List, [], ◌∷◌, ◌++◌}
use amqplex.Base.{Option, none, some, length, ltb, leb, ◌==◌, if◌then◌else◌}
use amqplex.Base.Maps.{Map, get?, has, insert, delete, size}
use amqplex.Frame.{Frame, frame_type_heartbeat}
use amqplex.Method.{is_channel_close_ok}
use Scan.{ScanEnd, found, exhausted, endless, scan_up, scan_below}

pub record ChannelEntry : Type 0 where
  pub owner : ℕ
  pub client_chan : ℕ

-- A `map[uint16]bool` in which only `true` is stored is the set of its keys.
abbrev pub ChannelSet : Type 0
ChannelSet = Map (Unit {0})

-- `lastEmptyTime` is `none` where it is Go's zero time, and `writeDone` is true once it is closed.
pub record Upstream : Type 0 where
  pub username : List ℕ
  pub password : List ℕ
  pub vhost : List ℕ
  pub max_channels : ℕ
  pub conn : Option ℕ
  pub used_channels : ChannelSet
  pub channel_owners : Map ChannelEntry
  pub pending_close : ChannelSet
  pub next_hint : ℕ
  pub clients : List ℕ
  pub last_empty_time : Option ℕ
  pub write_ch : List Frame
  pub write_done : Bool
  pub stopped : Bool
  pub reconnecting : Bool
  pub reconnect_total : ℕ

-- `m.usedChannels[id] || m.pendingClose[id]`
abbrev pub is_taken : Upstream → ℕ → Bool
is_taken m id = has id m.used_channels || has id m.pending_close

-- `hangs` is a scan that never ends, with `m.mu` held.
pub data Allocation : Type 0 where
  allocated : ℕ → Upstream → Allocation
  upstream_reconnecting no_free_channel : Upstream → Allocation
  hangs : Allocation

-- The successor in uint16, with the ensure that keeps the hint off channel 0.
unfoldable pub hint_after : ℕ → ℕ
hint_after id = if (id + 1) % 65536 == 0 then 1 else (id + 1) % 65536

unfoldable pub claim : Upstream → ℕ → ℕ → ℕ → Upstream
unfolding hint_after
claim m id client_chan cw = record m {
  used_channels = insert id tt m.used_channels;
  channel_owners = insert id (record { owner = cw; client_chan = client_chan }) m.channel_owners;
  next_hint = hint_after id;
}

-- Behind the fast path: the scan from 1 up to the hint.
allocate_wrapped : Upstream → ℕ → ℕ → Option ℕ → Allocation
allocate_wrapped m client_chan cw none = no_free_channel m
allocate_wrapped m client_chan cw (some id) = allocated id (claim m id client_chan cw)

unfoldable pub allocate_scanned : Upstream → ℕ → ℕ → ScanEnd → Allocation
unfolding allocate_wrapped
allocate_scanned m client_chan cw (found id) = allocated id (claim m id client_chan cw)
allocate_scanned m client_chan cw exhausted =
    allocate_wrapped m client_chan cw (scan_below (m.next_hint - 1) (is_taken m) 1)
allocate_scanned m client_chan cw endless = hangs

-- `if m.nextHint == 0 { m.nextHint = 1 }`
unfoldable pub fix_hint : Upstream → Upstream
fix_hint m = if m.next_hint == 0 then record m { next_hint = 1 } else m

-- `AllocateChannel`, with the fast path cut off after `fuel` rounds.
unfoldable pub allocate_within : ℕ → Upstream → ℕ → ℕ → Allocation
unfolding allocate_scanned
allocate_within fuel m client_chan cw =
    if m.reconnecting
    then upstream_reconnecting m
    else let m1 = fix_hint m in
      allocate_scanned m1 client_chan cw (scan_up fuel m1.max_channels (is_taken m1) m1.next_hint)

-- There are 65536 channel numbers: a fast path that has not stopped by then never stops.
unfoldable pub allocate_channel : Upstream → ℕ → ℕ → Allocation
unfolding allocate_within
allocate_channel m client_chan cw = allocate_within 65536 m client_chan cw

unfoldable pub release_channel : Upstream → ℕ → Upstream
release_channel m id = record m {
  used_channels = delete id m.used_channels;
  channel_owners = delete id m.channel_owners;
  next_hint = if ltb id m.next_hint then id else m.next_hint;
}

unfoldable pub schedule_channel_close : Upstream → ℕ → Upstream
schedule_channel_close m id = record m {
  pending_close = insert id tt m.pending_close;
  channel_owners = delete id m.channel_owners;
}

-- `ok && entry.owner == cw`
abbrev pub is_owner : ℕ → Option ChannelEntry → Bool
is_owner cw none = false
is_owner cw (some entry) = entry.owner == cw

unfoldable pub schedule_channel_close_if_owned_by : Upstream → ℕ → ℕ → Upstream × Bool
unfolding schedule_channel_close
schedule_channel_close_if_owned_by m id cw =
    if is_owner cw (get? id m.channel_owners)
    then (schedule_channel_close m id, true)
    else (m, false)

unfoldable pub has_capacity : Upstream → Bool
has_capacity m = if m.reconnecting then false else ltb (size m.used_channels % 65536) m.max_channels

unfoldable pub register : Upstream → ℕ → Upstream
register m cw = record m { clients = m.clients ++ (cw ∷ []); last_empty_time = none }

-- The clients without the first `cw`, if it is there.
unfoldable pub remove_client : ℕ → List ℕ → Option (List ℕ)
remove_client cw [] = none
remove_client cw (c ∷ cs) =
    if c == cw then some cs else elim (remove_client cw cs) [ none ↦ none | some r ↦ some (c ∷ r) ]

abbrev is_nil : List ℕ → Bool
is_nil [] = true
is_nil (c ∷ cs) = false

unfoldable pub deregistered : Upstream → ℕ → Option (List ℕ) → Upstream
deregistered m now none = m
deregistered m now (some cs) = record m {
  clients = cs;
  last_empty_time = if is_nil cs then some now else m.last_empty_time;
}

unfoldable pub deregister : Upstream → ℕ → ℕ → Upstream
unfolding deregistered
deregister m cw now = deregistered m now (remove_client cw m.clients)

-- The write channel holds 256 frames; a send to a full one waits.
abbrev pub write_capacity : ℕ
write_capacity = 256

pub data Sent : Type 0 where
  returned : Upstream → Sent
  blocks : Sent

-- `pick_done` is the choice of the `select` where both of its cases can proceed.
unfoldable pub write_frame_to_upstream : Bool → Upstream → Frame → Sent
write_frame_to_upstream pick_done m f =
    if m.stopped || m.reconnecting
    then returned m
    else if ltb (length m.write_ch) write_capacity
    then (if m.write_done && pick_done
        then returned m
        else returned (record m { write_ch = m.write_ch ++ (f ∷ []) }))
    else if m.write_done
    then returned m
    else blocks

unfoldable pub stop_write_pump : Upstream → Upstream
stop_write_pump m = record m { write_done = true }

unfoldable pub start : Upstream → ℕ → Upstream
start m conn = record m { conn = some conn }

-- What the lock-free part of an operation does to the clients and the write channel, in order.
pub data Effect : Type 0 where
  deliver : ℕ → Frame → Effect
  abort : ℕ → Effect
  channel_closed : ℕ → ℕ → Effect
  send_upstream : Frame → Effect
  close_conn : ℕ → Effect

abbrev pub remap : ℕ → Frame → Frame
remap channel f = record f { channel = channel }

unfoldable pub deliver_and_abort : List ℕ → Frame → List Effect
deliver_and_abort [] f = []
deliver_and_abort (c ∷ cs) f = deliver c f ∷ abort c ∷ deliver_and_abort cs f

abbrev pub heartbeat_frame : Frame
heartbeat_frame = record { kind = frame_type_heartbeat; channel = 0; payload = [] }

-- A Channel.CloseOk for a channel that is not pending.
unfoldable pub close_owned : Upstream → Frame → Option ChannelEntry → Upstream × List Effect
close_owned m f none = (m, [])
close_owned m f (some entry) = (
  record m {
    channel_owners = delete f.channel m.channel_owners;
    used_channels = delete f.channel m.used_channels;
  },
  deliver entry.owner (remap entry.client_chan f)
      ∷ channel_closed entry.owner entry.client_chan
      ∷ [],
)

unfoldable pub forward : Upstream → Frame → Option ChannelEntry → Upstream × List Effect
forward m f none = (m, [])
forward m f (some entry) = (m, deliver entry.owner (remap entry.client_chan f) ∷ [])

-- One round of `readLoop` on a frame that was read.
unfoldable pub read_round : Upstream → Frame → Upstream × List Effect
unfolding close_owned forward
read_round m f =
    if f.kind == frame_type_heartbeat
    then (m, send_upstream heartbeat_frame ∷ [])
    else if f.channel == 0
    then (m, deliver_and_abort m.clients f)
    else if is_channel_close_ok f
    then (if has f.channel m.pending_close
        then (
          record m {
            pending_close = delete f.channel m.pending_close;
            used_channels = delete f.channel m.used_channels;
          },
          [],
        )
        else close_owned m f (get? f.channel m.channel_owners))
    else forward m f (get? f.channel m.channel_owners)

unfoldable pub abort_all : List ℕ → List Effect
abort_all [] = []
abort_all (c ∷ cs) = abort c ∷ abort_all cs

unfoldable pub close_old : Option ℕ → List Effect
close_old none = []
close_old (some c) = close_conn c ∷ []

-- `handleUpstreamFailure`: the flag says whether this call starts the reconnect loop.
unfoldable pub handle_upstream_failure : Upstream → Upstream × List Effect × Bool
unfolding close_old
handle_upstream_failure m =
    if m.reconnecting
    then (m, [], false)
    else (record m { reconnecting = true }, close_old m.conn ++ abort_all m.clients, true)

-- A successful dial in `reconnectLoop`: the state is reset under the lock, the old pump is stopped,
-- the write channel drained, and then the flag is cleared.
unfoldable pub reconnected : Upstream → ℕ → ℕ → Upstream
reconnected m conn now = record m {
  conn = some conn;
  used_channels = [];
  channel_owners = [];
  pending_close = [];
  next_hint = 1;
  clients = [];
  last_empty_time = some now;
  write_done = false;
  write_ch = [];
  reconnecting = false;
}

-- `markStoppedIfIdle`
unfoldable pub idle_for : Upstream → ℕ → ℕ → Option ℕ → Bool
idle_for m timeout now none = false
idle_for m timeout now (some since) =
    if ltb 0 (length m.clients) || ltb 0 (size m.used_channels)
    then false
    else not (ltb (now - since) timeout)

unfoldable pub mark_stopped_if_idle : Upstream → ℕ → ℕ → Upstream × Bool × List Effect
unfolding idle_for close_old stop_write_pump
mark_stopped_if_idle m timeout now =
    if idle_for m timeout now m.last_empty_time
    then (record (stop_write_pump m) { stopped = true; conn = none }, true, close_old m.conn)
    else (m, false, [])
