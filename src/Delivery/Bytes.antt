-- ===== src/Delivery/Bytes.antt =====
-- proxy/managed_upstream.go and proxy/connection.go: what arrives at a client of the frames that the
-- broker sends.
use amqplex.Base.{
  ℕ, ◌≡◌, ◌≤◌, ◌+◌, ◌-◌, refl, sym, ap, ◌∙◌, subst, true, false, List, [], ◌∷◌, ◌++◌, if◌then◌else◌,
  ◌==◌, length, length-append, append_assoc, append-nil, arith, Bool-cases, inl, inr,
}
use amqplex.Base.Result.{ok}
use amqplex.Frame.{Frame, write_frame, max_frame_size}
use amqplex.Frame.Stream.{Writer}
use amqplex.Frame.RoundTrip.{frame_bytes, length-frame_bytes, write_frame_lem}
use amqplex.Upstream.{
  Effect, deliver, abort, channel_closed, send_upstream, close_conn, heartbeat_frame,
}
use amqplex.Upstream.Pump.Order.{bytes_of}
use amqplex.Delivery.{ClientWire, deliver_frame, disregard, abort_wire, happen, happen_all}

-- The frames that a list of effects delivers to the client `c`, up to its first abort.
abbrev pub delivered : ℕ → List Effect → List Frame
delivered c [] = []
delivered c (deliver i f ∷ es) = let rest = delivered c es in if i == c then f ∷ rest else rest
delivered c (abort i ∷ es) = let rest = delivered c es in if i == c then [] else rest
delivered c (channel_closed i channel ∷ es) = delivered c es
delivered c (send_upstream f ∷ es) = delivered c es
delivered c (close_conn conn ∷ es) = delivered c es

-- No payload is over the limit.
abbrev pub AreSmall : List Frame → Type 0
AreSmall [] = Unit {0}
AreSmall (f ∷ fs) = (length f.payload ≤ max_frame_size) × AreSmall fs

unusable_happen :
    (c : ℕ) (w : ClientWire) (e : Effect)
    → w.usable ≡ false
    → ((happen c w e).writer ≡ w.writer) × ((happen c w e).usable ≡ false)
unfolding happen disregard deliver_frame abort_wire
unusable_happen c w (deliver i f) h = elim (Bool-cases (i == c)) [
  | inl mine ↦ rw (mine, h) (refl, refl)
  | inr other ↦ rw other (refl, h)
]
unusable_happen c w (abort i) h = elim (Bool-cases (i == c)) [
  | inl mine ↦ rw mine (refl, refl)
  | inr other ↦ rw other (refl, h)
]
unusable_happen c w (channel_closed i channel) h = (refl, h)
unusable_happen c w (send_upstream f) h = (refl, h)
unusable_happen c w (close_conn conn) h = (refl, h)

unusable_keeps :
    (c : ℕ) (w : ClientWire) (es : List Effect)
    → w.usable ≡ false
    → (happen_all c w es).writer ≡ w.writer
unfolding happen_all
unusable_keeps c w [] h = refl
unusable_keeps c w (e ∷ es) h =
    let (same, still) = unusable_happen c w e h in unusable_keeps c (happen c w e) es still ∙ same

abbrev pub usable_with : Writer → ClientWire
usable_with v = record { writer = v; usable = true }

abbrev wrote : Writer → Frame → Writer
wrote v f = record { written = v.written ++ frame_bytes f; room = v.room - (length f.payload + 8) }

happen-deliver :
    (c i : ℕ) (v : Writer) (f : Frame)
    → (i == c) ≡ true
    → length f.payload ≤ max_frame_size
    → length f.payload + 8 ≤ v.room
    → happen c (usable_with v) (deliver i f) ≡ usable_with (wrote v f)
unfolding happen disregard deliver_frame
happen-deliver c i v f mine small fits = rw (mine, fits_lem) refl
  where
    fits_lem : write_frame v f ≡ ok (wrote v f)
    fits_lem = ground (arith, write_frame_lem v f)

happen-other :
    (c i : ℕ) (w : ClientWire) (f : Frame)
    → (i == c) ≡ false
    → (happen c w (deliver i f) ≡ w) × (happen c w (abort i) ≡ w)
unfolding happen
happen-other c i w f other = rw other (refl, refl)

abbrev pub written_by : ℕ → ClientWire → List Effect → List ℕ
written_by c w es = (happen_all c w es).writer.written

-- The bytes of `fs` are what the effects write.
abbrev pub Writes : ℕ → Writer → List Effect → List Frame → Type 0
Writes c v es fs =
    AreSmall fs
    → length (bytes_of fs) ≤ v.room
    → written_by c (usable_with v) es ≡ v.written ++ bytes_of fs

deliver-Writes :
    (c i : ℕ) (v : Writer) (f : Frame) (es : List Effect) (fs : List Frame)
    → (i == c) ≡ true
    → Writes c (wrote v f) es fs
    → Writes c v (deliver i f ∷ es) (f ∷ fs)
unfolding happen_all bytes_of
deliver-Writes c i v f es fs mine later small fits =
    let whole = length-append (frame_bytes f) (bytes_of fs) in
    let one = length-frame_bytes f in
    ap (λ w. written_by c w es)
      (happen-deliver c i v f mine small.0 (omega (arith, fits, whole, one)))
    ∙ later small.1 (omega (arith, fits, whole, one))
    ∙ append_assoc v.written (frame_bytes f) (bytes_of fs)

other-Writes :
    (c i : ℕ) (v : Writer) (f : Frame) (es : List Effect) (fs : List Frame)
    → (i == c) ≡ false
    → Writes c v es fs
    → Writes c v (deliver i f ∷ es) fs × Writes c v (abort i ∷ es) fs
unfolding happen_all
other-Writes c i v f es fs other later =
    let same = happen-other c i (usable_with v) f other in
    (
      λ small fits. ap (λ w. written_by c w es) same.0 ∙ later small fits,
      λ small fits. ap (λ w. written_by c w es) same.1 ∙ later small fits,
    )

abort-Writes :
    (c i : ℕ) (v : Writer) (es : List Effect) → (i == c) ≡ true → Writes c v (abort i ∷ es) []
unfolding happen_all happen abort_wire bytes_of
abort-Writes c i v es mine small fits =
    ap (λ w. written_by c w es) aborted
    ∙ ap (λ x. x.written) (unusable_keeps c (record { writer = v; usable = false }) es refl)
    ∙ sym (append-nil v.written)
  where
    aborted : happen c (usable_with v) (abort i) ≡ record { writer = v; usable = false }
    aborted = rw mine refl

delivered-deliver :
    (c i : ℕ) (f : Frame) (es : List Effect)
    → ((i == c) ≡ true → f ∷ delivered c es ≡ delivered c (deliver i f ∷ es))
      × ((i == c) ≡ false → delivered c es ≡ delivered c (deliver i f ∷ es))
delivered-deliver c i f es = (λ mine. rw mine refl, λ other. rw other refl)

delivered-abort :
    (c i : ℕ) (es : List Effect)
    → ((i == c) ≡ true → [] ≡ delivered c (abort i ∷ es))
      × ((i == c) ≡ false → delivered c es ≡ delivered c (abort i ∷ es))
delivered-abort c i es = (λ mine. rw mine refl, λ other. rw other refl)

pub happen_all-Writes : (c : ℕ) (v : Writer) (es : List Effect) → Writes c v es (delivered c es)
unfolding happen_all happen bytes_of
happen_all-Writes c v [] = λ small fits. sym (append-nil v.written)
happen_all-Writes c v (deliver i f ∷ es) = elim (Bool-cases (i == c)) [
  | inl mine ↦
      subst (Writes c v (deliver i f ∷ es)) ((delivered-deliver c i f es).0 mine)
        (deliver-Writes c i v f es (delivered c es) mine (happen_all-Writes c (wrote v f) es))
  | inr other ↦
      subst (Writes c v (deliver i f ∷ es)) ((delivered-deliver c i f es).1 other)
        (other-Writes c i v f es (delivered c es) other (happen_all-Writes c v es)).0
]
happen_all-Writes c v (abort i ∷ es) = elim (Bool-cases (i == c)) [
  | inl mine ↦
      subst (Writes c v (abort i ∷ es)) ((delivered-abort c i es).0 mine)
        (abort-Writes c i v es mine)
  | inr other ↦
      subst (Writes c v (abort i ∷ es)) ((delivered-abort c i es).1 other)
        (other-Writes c i v heartbeat_frame es (delivered c es) other (happen_all-Writes c v es)).1
]
happen_all-Writes c v (channel_closed i channel ∷ es) = happen_all-Writes c v es
happen_all-Writes c v (send_upstream f ∷ es) = happen_all-Writes c v es
happen_all-Writes c v (close_conn conn ∷ es) = happen_all-Writes c v es
