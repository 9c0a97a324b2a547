-- ===== src/Upstream/Pump/Order.antt =====
-- The order of the frames that the write pump writes.
use amqplex.Base.{
  ℕ, ◌≤◌, ◌≡◌, ◌≢◌, refl, sym, ◌∙◌, ap, arith, Bool, true, false, List, [], ◌∷◌, ◌++◌, length,
  append_assoc, append-nil,
}
use amqplex.Base.Result.{Result, ok, err}
use amqplex.Base.{ltb, take, drop, take-append-drop, Bool-cases, inl, inr}
use amqplex.Frame.{Frame, write_frame, max_frame_size}
use amqplex.Frame.Stream.{Writer}
use amqplex.Frame.RoundTrip.{frame_bytes, write_frame_lem}
use amqplex.Upstream.Pump.{
  Phase, waiting, draining, failed, finished, Pump, wrote_part, after_write, select_frame, drain,
  pump_from, pump_step, enqueue, Runs, starts, enqueues, steps,
}

unfoldable pub bytes_of : List Frame → List ℕ
bytes_of [] = []
bytes_of (f ∷ fs) = frame_bytes f ++ bytes_of fs

bytes_of-append :
    (fs : List Frame) (f : Frame) → bytes_of (fs ++ (f ∷ [])) ≡ bytes_of fs ++ frame_bytes f
unfolding bytes_of
bytes_of-append [] f = append-nil (frame_bytes f)
bytes_of-append (x ∷ fs) f =
    ap (◌++◌ (frame_bytes x)) (bytes_of-append fs f)
    ∙ sym (append_assoc (frame_bytes x) (bytes_of fs) (frame_bytes f))

-- Every frame that was put on the channel was written, is the one whose write failed, or waits, in
-- this order. Of the one that failed a part may have been written.
pub record InOrder (w : Writer) (sent : List Frame) (p : Pump) : Type 0 where
  pub written : List Frame
  pub lost : List Frame
  pub order : sent ≡ written ++ (lost ++ p.queue)
  pub part : List ℕ
  pub bytes : p.writer.written ≡ w.written ++ (bytes_of written ++ part)
  pub of_lost : (missing : List ℕ) × (bytes_of lost ≡ part ++ missing)
  pub one_lost : length lost ≤ 1
  pub none_lost : p.phase ≢ failed → (lost ≡ []) × (part ≡ [])
  pub flushed_first : (unflushed : List ℕ) × (p.writer.written ≡ p.flushed ++ unflushed)
  pub all_flushed : p.phase ≡ waiting → p.flushed ≡ p.writer.written

write_frame-bytes :
    (v v' : Writer) (f : Frame) → write_frame v f ≡ ok v' → v'.written ≡ v.written ++ frame_bytes f
write_frame-bytes v v' f e = ground (arith, write_frame_lem v f)

next_frame :
    (w : Writer) (sent : List Frame) (p : Pump) (f : Frame) (rest : List Frame)
    → p.queue ≡ f ∷ rest
    → p.phase ≢ failed
    → (v : InOrder w sent p) → sent ≡ v.written ++ (f ∷ rest)
next_frame w sent p f rest q alive v =
    v.order ∙ ap (λ fs. v.written ++ (fs ++ p.queue)) (v.none_lost alive).0 ∙ ap (◌++◌ v.written) q

-- Before a frame is written, all that was written are whole frames.
whole :
    (w : Writer) (sent : List Frame) (p : Pump)
    → p.phase ≢ failed
    → (v : InOrder w sent p) → p.writer.written ≡ w.written ++ bytes_of v.written
whole w sent p alive v =
    v.bytes
    ∙ ap (λ bs. w.written ++ (bytes_of v.written ++ bs)) (v.none_lost alive).1
    ∙ ap (◌++◌ w.written) (append-nil (bytes_of v.written))

-- What a failing write leaves.
wrote_part-prefix :
    (u : Writer) (f : Frame)
    → (part : List ℕ) × (((wrote_part u f).written ≡ u.written ++ part)
        × ((missing : List ℕ) × (bytes_of (f ∷ []) ≡ part ++ missing)))
unfolding wrote_part bytes_of frame_bytes
wrote_part-prefix u f = elim (Bool-cases (ltb max_frame_size (length f.payload))) [
  | inl large ↦ ([], (rw large (sym (append-nil u.written)), (frame_bytes f ++ [], refl)))
  | inr small ↦ (
    take u.room (frame_bytes f),
    (
      rw small refl,
      (
        drop u.room (frame_bytes f) ++ [],
        ap (λ bs. bs ++ []) (sym (take-append-drop u.room (frame_bytes f)))
            ∙ append_assoc (take u.room (frame_bytes f)) (drop u.room (frame_bytes f)) [],
      ),
    ),
  )
]

after_write-InOrder :
    (w : Writer) (sent : List Frame) (p : Pump) (f : Frame) (rest : List Frame) (r : Result Writer)
    → write_frame p.writer f ≡ r
    → p.queue ≡ f ∷ rest
    → p.phase ≢ failed
    → InOrder w sent p
    → InOrder w sent (after_write p f rest r)
unfolding after_write
after_write-InOrder w sent p f rest (err e) h q alive v =
    let (part, (wrote, lost)) = wrote_part-prefix p.writer f in
    let (unflushed, first) = v.flushed_first in
    record {
      written = v.written;
      lost = f ∷ [];
      order = next_frame w sent p f rest q alive v;
      part = part;
      bytes =
          wrote
          ∙ ap (λ bs. bs ++ part) (whole w sent p alive v)
          ∙ append_assoc w.written (bytes_of v.written) part;
      of_lost = lost;
      one_lost = omega arith;
      none_lost = λ n. absurd (n refl);
      flushed_first = (
        unflushed ++ part,
        wrote ∙ ap (λ bs. bs ++ part) first ∙ append_assoc p.flushed unflushed part,
      );
      all_flushed = λ n. cc;
    }
after_write-InOrder w sent p f rest (ok w') h q alive v =
    let (unflushed, first) = v.flushed_first in
    record {
      written = v.written ++ (f ∷ []);
      lost = [];
      order = next_frame w sent p f rest q alive v ∙ sym (append_assoc v.written (f ∷ []) rest);
      part = [];
      bytes =
          write_frame-bytes p.writer w' f h
          ∙ ap (λ bs. bs ++ frame_bytes f) (whole w sent p alive v)
          ∙ append_assoc w.written (bytes_of v.written) (frame_bytes f)
          ∙ ap (◌++◌ w.written) (sym (bytes_of-append v.written f))
          ∙ ap (◌++◌ w.written) (sym (append-nil (bytes_of (v.written ++ (f ∷ [])))));
      of_lost = ([], none_of);
      one_lost = omega arith;
      none_lost = λ n. (refl, refl);
      flushed_first = (
        unflushed ++ frame_bytes f,
        write_frame-bytes p.writer w' f h
            ∙ ap (λ bs. bs ++ frame_bytes f) first
            ∙ append_assoc p.flushed unflushed (frame_bytes f),
      );
      all_flushed = λ n. cc;
    }
  where
    none_of : bytes_of [] ≡ []
    none_of = unfold bytes_of in refl

ended-InOrder :
    (w : Writer) (sent : List Frame) (p : Pump) (phase : Phase)
    → phase ≢ waiting
    → p.phase ≢ failed
    → InOrder w sent p
    → InOrder w sent (record p { phase = phase })
ended-InOrder w sent p phase over alive v = record {
  written = v.written;
  lost = v.lost;
  order = v.order;
  part = v.part;
  bytes = v.bytes;
  of_lost = v.of_lost;
  one_lost = v.one_lost;
  none_lost = λ n. v.none_lost alive;
  flushed_first = v.flushed_first;
  all_flushed = λ n. absurd (over n);
}

select_frame-InOrder :
    (w : Writer) (sent : List Frame) (done pick_done : Bool) (p : Pump) (queue : List Frame)
    → p.queue ≡ queue
    → p.phase ≢ failed
    → InOrder w sent p
    → InOrder w sent (select_frame done pick_done p queue)
unfolding select_frame
select_frame-InOrder w sent true pick_done p [] q alive v =
    ended-InOrder w sent p finished (λ n. cc) alive v
select_frame-InOrder w sent false pick_done p [] q alive v = v
select_frame-InOrder w sent true true p (f ∷ rest) q alive v =
    ended-InOrder w sent p finished (λ n. cc) alive v
select_frame-InOrder w sent true false p (f ∷ rest) q alive v =
    after_write-InOrder w sent p f rest (write_frame p.writer f) refl q alive v
select_frame-InOrder w sent false pick_done p (f ∷ rest) q alive v =
    after_write-InOrder w sent p f rest (write_frame p.writer f) refl q alive v

drain-InOrder :
    (w : Writer) (sent : List Frame) (flushes : Bool) (p : Pump) (queue : List Frame)
    → p.queue ≡ queue
    → p.phase ≢ failed
    → InOrder w sent p
    → InOrder w sent (drain flushes p queue)
unfolding drain
drain-InOrder w sent true p [] q alive v = record {
  written = v.written;
  lost = v.lost;
  order = v.order;
  part = v.part;
  bytes = v.bytes;
  of_lost = v.of_lost;
  one_lost = v.one_lost;
  none_lost = λ n. v.none_lost alive;
  flushed_first = ([], sym (append-nil p.writer.written));
  all_flushed = λ n. refl;
}
drain-InOrder w sent false p [] q alive v = ended-InOrder w sent p failed (λ n. cc) alive v
drain-InOrder w sent flushes p (f ∷ rest) q alive v =
    after_write-InOrder w sent p f rest (write_frame p.writer f) refl q alive v

pump_from-InOrder :
    (w : Writer) (sent : List Frame) (done pick_done flushes : Bool) (p : Pump) (phase : Phase)
    → p.phase ≡ phase
    → InOrder w sent p
    → InOrder w sent (pump_from done pick_done flushes p phase)
unfolding pump_from
pump_from-InOrder w sent done pick_done flushes p waiting e v =
    select_frame-InOrder w sent done pick_done p p.queue refl (λ n. cc) v
pump_from-InOrder w sent done pick_done flushes p draining e v =
    drain-InOrder w sent flushes p p.queue refl (λ n. cc) v
pump_from-InOrder w sent done pick_done flushes p failed e v = v
pump_from-InOrder w sent done pick_done flushes p finished e v = v

enqueue-InOrder :
    (w : Writer) (sent : List Frame) (f : Frame) (p : Pump)
    → InOrder w sent p
    → InOrder w (sent ++ (f ∷ [])) (enqueue f p)
unfolding enqueue
enqueue-InOrder w sent f p v = record {
  written = v.written;
  lost = v.lost;
  order =
      ap (λ fs. fs ++ (f ∷ [])) v.order
      ∙ append_assoc v.written (v.lost ++ p.queue) (f ∷ [])
      ∙ ap (◌++◌ v.written) (append_assoc v.lost p.queue (f ∷ []));
  part = v.part;
  bytes = v.bytes;
  of_lost = v.of_lost;
  one_lost = v.one_lost;
  none_lost = v.none_lost;
  flushed_first = v.flushed_first;
  all_flushed = v.all_flushed;
}

-- However the pump, the callers that put frames on the channel, a stop and failing writes or flushes
-- interleave: what the pump has handed to its buffered writer are the bytes of the first frames that
-- were put on the channel, whole and in their order, and behind them, once a write has failed, at most
-- a first part of the frame whose write failed, which is the pump's last; the other frames wait behind
-- it in their order. What was flushed are the first of these bytes; and whenever the pump waits for the
-- next frame, all of them are flushed.
pub Runs-InOrder : (w : Writer) (sent : List Frame) (p : Pump) → Runs w sent p → InOrder w sent p
unfolding bytes_of pump_step
Runs-InOrder w _ _ starts = record {
  written = [];
  lost = [];
  order = refl;
  part = [];
  bytes = sym (append-nil w.written);
  of_lost = ([], refl);
  one_lost = omega arith;
  none_lost = λ n. (refl, refl);
  flushed_first = ([], sym (append-nil w.written));
  all_flushed = λ n. refl;
}
Runs-InOrder w _ _ (enqueues {sent} {p} f before) =
    enqueue-InOrder w sent f p (Runs-InOrder w sent p before)
Runs-InOrder w _ _ (steps {sent} {p} done pick_done flushes before) =
    pump_from-InOrder w sent done pick_done flushes p p.phase refl (Runs-InOrder w sent p before)
