-- ===== src/Frame/RoundTrip.antt =====
-- proxy/frame.go: `ParseFrame` on what `WriteFrame` writes.
use amqplex.Base.{ℕ, ◌+◌, ◌-◌, ◌≤◌, ◌<◌, ◌≡◌, arith, List, [], ◌∷◌, ◌++◌, if◌then◌else◌}
use amqplex.Base.{length, ltb, append_assoc, length-append}
use amqplex.Base.Words.{put_uint16, put_uint32, uint16-put, uint32-put}
use amqplex.Base.Result.{ok, err, frame_too_large, write_failed}
use amqplex.Frame.{Frame, max_frame_size, frame_header, parse_frame, write_frame}
use amqplex.Frame.{MethodHeader, parse_method_header, serialize_method_header}
use amqplex.Frame.Stream.{Writer, write, read_full-append}

-- A frame that Go's types and the size limit admit.
pub record IsFrame (f : Frame) : Type 0 where
  pub kind : f.kind < 256
  pub channel : f.channel < 65536
  pub size : length f.payload ≤ max_frame_size

-- The bytes of a frame.
unfoldable pub frame_bytes : Frame → List ℕ
frame_bytes f = frame_header f ++ (f.payload ++ (0xCE ∷ []))

pub length-frame_bytes : (f : Frame) → length (frame_bytes f) ≡ length f.payload + 8
unfolding frame_bytes frame_header put_uint16 put_uint32
length-frame_bytes f = omega (arith, length-append f.payload (0xCE ∷ []))

pub parse_frame-frame_bytes :
    (f : Frame) (rest : List ℕ) → IsFrame f → parse_frame (frame_bytes f ++ rest) ≡ ok (f, rest)
unfolding parse_frame frame_bytes frame_header put_uint16 put_uint32
parse_frame-frame_bytes f rest v = ground (
  arith,
  append_assoc f.payload (0xCE ∷ []) rest,
  read_full-append (frame_header f) (f.payload ++ (0xCE ∷ rest)),
  read_full-append f.payload (0xCE ∷ rest),
  read_full-append (0xCE ∷ []) rest,
  uint16-put f.channel v.channel,
  uint32-put (length f.payload),
)

pub parse_method_header-serialize :
    (h : MethodHeader) (rest : List ℕ)
    → h.class_id < 65536
    → h.method_id < 65536
    → parse_method_header (serialize_method_header h ++ rest) ≡ ok h
unfolding parse_method_header serialize_method_header put_uint16
parse_method_header-serialize h rest hc hm =
    ground (arith, uint16-put h.class_id hc, uint16-put h.method_id hm)

-- `WriteFrame` refuses a payload over 1 MiB, fails where the writer has no room for the payload and
-- eight bytes more, and appends the bytes of the frame in every other case.
pub write_frame_lem :
    (w : Writer) (f : Frame)
    → write_frame w f ≡ (
        if ltb max_frame_size (length f.payload)
        then err frame_too_large
        else if ltb w.room (length f.payload + 8)
        then err write_failed
        else ok (record {
          written = w.written ++ frame_bytes f;
          room = w.room - (length f.payload + 8);
        }))
unfolding write_frame frame_bytes write frame_header put_uint16 put_uint32
write_frame_lem w f = ground (
  arith,
  append_assoc (w.written ++ frame_header f) f.payload (0xCE ∷ []),
  append_assoc w.written (frame_header f) (f.payload ++ (0xCE ∷ [])),
)

frame_bytes-split :
    (w w' : Writer) (f : Frame)
    → write_frame w f ≡ ok w'
    → (length f.payload ≤ max_frame_size) × (w'.written ≡ w.written ++ frame_bytes f)
frame_bytes-split w w' f e = ground (arith, write_frame_lem w f)

-- A frame of Go's types that `WriteFrame` accepts is appended to what was written before, and
-- `ParseFrame` reads it back from there and leaves whatever follows.
pub parse_frame-write_frame :
    (w w' : Writer) (f : Frame) (rest : List ℕ)
    → f.kind < 256
    → f.channel < 65536
    → write_frame w f ≡ ok w'
    → (bs : List ℕ) × (w'.written ≡ w.written ++ bs) × (parse_frame (bs ++ rest) ≡ ok (f, rest))
parse_frame-write_frame w w' f rest hk hc e =
    let (small, split) = frame_bytes-split w w' f e in
    (
      frame_bytes f,
      split,
      parse_frame-frame_bytes f rest (record { kind = hk; channel = hc; size = small }),
    )
