-- ===== src/Delivery.antt =====
-- proxy/connection.go: `DeliverFrame` and `Abort`, on the connection of one client, and what the
-- rounds of `readLoop` do to it.
pub mod Bytes
pub mod Addressed
mod Tests
use amqplex.Base.{ℕ, Bool, true, false, List, [], ◌∷◌, ◌++◌, if◌then◌else◌, ◌==◌}
use amqplex.Base.Result.{Result, ok, err, Error, ◌>>=◌, write_failed, frame_too_large}
use amqplex.Frame.{Frame, write_frame}
use amqplex.Frame.Stream.{Writer}
use amqplex.Upstream.{
  Upstream, Effect, deliver, abort, channel_closed, send_upstream, close_conn, read_round,
}

-- `cc.Writer` over `cc.Conn`. It is not usable any more when the connection is closed, and when a
-- write has failed: a bufio.Writer keeps its error. What such a write leaves on the connection of the
-- frame that fails is not counted as written.
pub record ClientWire : Type 0 where
  pub writer : Writer
  pub usable : Bool

-- `DeliverFrame`
unfoldable pub deliver_frame : ClientWire → Frame → Result ClientWire
deliver_frame w f =
    if w.usable
    then (do writer ← write_frame w.writer f; ok (record { writer = writer; usable = true }))
    else err write_failed

-- `_ = cc.DeliverFrame(frame)`: a frame that is too large is refused before anything is written.
unfoldable pub disregard : ClientWire → Result ClientWire → ClientWire
disregard w (ok w') = w'
disregard w (err frame_too_large) = w
disregard w (err e) = record w { usable = false }

-- `Abort`
unfoldable pub abort_wire : ClientWire → ClientWire
abort_wire w = record w { usable = false }

-- One effect, on the connection of the client `c`.
unfoldable pub happen : ℕ → ClientWire → Effect → ClientWire
unfolding disregard deliver_frame abort_wire
happen c w (deliver i f) = if i == c then disregard w (deliver_frame w f) else w
happen c w (abort i) = if i == c then abort_wire w else w
happen c w (channel_closed i channel) = w
happen c w (send_upstream f) = w
happen c w (close_conn conn) = w

unfoldable pub happen_all : ℕ → ClientWire → List Effect → ClientWire
unfolding happen
happen_all c w [] = w
happen_all c w (e ∷ es) = happen_all c (happen c w e) es

-- The rounds of `readLoop` on the frames that the broker sends, one after another.
unfoldable pub read_rounds : Upstream → List Frame → Upstream × List Effect
read_rounds m [] = (m, [])
read_rounds m (f ∷ fs) =
    let now = read_round m f in let later = read_rounds now.0 fs in (later.0, now.1 ++ later.1)
