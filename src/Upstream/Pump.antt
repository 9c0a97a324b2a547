-- ===== src/Upstream/Pump.antt =====
-- proxy/managed_upstream.go: the loop of `writePump`, the only writer to the broker's connection.
pub mod Order
use amqplex.Base.{
  ℕ, ◌≤◌, ◌≡◌, ◌≢◌, refl, sym, ◌∙◌, ap, arith, Bool, true, false, List, [], ◌∷◌, ◌++◌, length,
  if◌then◌else◌, append_assoc, append-nil,
}
use amqplex.Base.Result.{Result, ok, err}
use amqplex.Base.{ltb, take}
use amqplex.Frame.{Frame, write_frame, frame_header, max_frame_size}
use amqplex.Frame.Stream.{Writer}
use amqplex.Frame.RoundTrip.{frame_bytes, write_frame_lem}

-- Where the goroutine stands: at the first `select`, in the drain loop, or behind a `return`, with
-- or without a call of `handleUpstreamFailure`.
pub data Phase : Type 0 where
  waiting draining failed finished : Phase

-- `queue` is the write channel, `writer` has what was handed to the `bufio.Writer`, and `flushed` what
-- the last flush that succeeded has brought to the connection; of the bytes behind it the connection
-- may have a part.
pub record Pump : Type 0 where
  pub queue : List Frame
  pub writer : Writer
  pub flushed : List ℕ
  pub phase : Phase

-- What a `WriteFrame` that fails has written: nothing of a frame that is too large, and else the bytes
-- of its three writes up to the one that fails, as far as there is room.
unfoldable pub wrote_part : Writer → Frame → Writer
wrote_part w f = if ltb max_frame_size (length f.payload) then w else record {
  written = w.written ++ take w.room (frame_header f ++ (f.payload ++ (0xCE ∷ [])));
  room = 0;
}

-- A `WriteFrame` of a frame that was taken off the channel.
unfoldable pub after_write : Pump → Frame → List Frame → Result Writer → Pump
unfolding wrote_part
after_write p f rest (ok w) = record p { queue = rest; writer = w; phase = draining }
after_write p f rest (err e) = record p {
  queue = rest;
  writer = wrote_part p.writer f;
  phase = failed;
}

-- The first `select`. With `done` closed and a frame at hand, `pick_done` chooses.
select_frame : Bool → Bool → Pump → List Frame → Pump
select_frame done pick_done p [] = if done then record p { phase = finished } else p
select_frame done pick_done p (f ∷ rest) =
    if done
    then (if pick_done
        then record p { phase = finished }
        else after_write p f rest (write_frame p.writer f))
    else after_write p f rest (write_frame p.writer f)

-- The `select` with a default, and the flush behind the loop.
drain : Bool → Pump → List Frame → Pump
drain flushes p [] =
    if flushes
    then record p { flushed = p.writer.written; phase = waiting }
    else record p { phase = failed }
drain flushes p (f ∷ rest) = after_write p f rest (write_frame p.writer f)

pump_from : Bool → Bool → Bool → Pump → Phase → Pump
unfolding select_frame drain
pump_from done pick_done flushes p waiting = select_frame done pick_done p p.queue
pump_from done pick_done flushes p draining = drain flushes p p.queue
pump_from done pick_done flushes p failed = p
pump_from done pick_done flushes p finished = p

-- One step of the goroutine: `flushes` says whether a flush succeeds now.
unfoldable pub pump_step : Bool → Bool → Bool → Pump → Pump
unfolding pump_from
pump_step done pick_done flushes p = pump_from done pick_done flushes p p.phase

unfoldable pub enqueue : Frame → Pump → Pump
enqueue f p = record p { queue = p.queue ++ (f ∷ []) }

-- The pump's life: `sent` are the frames that were put on the channel so far.
pub data Runs (w : Writer) : List Frame → Pump → Type 0 where
  starts : Runs w [] (record { queue = []; writer = w; flushed = w.written; phase = waiting })
  enqueues :
      {sent : List Frame} {p : Pump} (f : Frame)
      → Runs w sent p
      → Runs w (sent ++ (f ∷ [])) (enqueue f p)
  steps :
      {sent : List Frame} {p : Pump} (done pick_done flushes : Bool)
      → Runs w sent p
      → Runs w sent (pump_step done pick_done flushes p)
