-- ===== src/Frame.antt =====
-- proxy/frame.go: the AMQP frame and method header codecs.
pub mod Stream
pub mod RoundTrip
pub mod Canonical
mod Tests
use amqplex.Base.{ℕ, ◌+◌, ◌-◌, ◌≤◌, Bool, List, [], ◌∷◌, ◌++◌}
use amqplex.Base.{length, get_or, take, drop, ltb, leb, ◌==◌, if◌then◌else◌, not}
use amqplex.Base.Words.{put_uint16, put_uint32, uint16, uint32}
use amqplex.Base.Result.{Result, ok, err, Error, ◌>>=◌, ◌>>◌, ensure}
use amqplex.Base.Result.{frame_too_large, bad_end_marker, header_too_short}
use Stream.{read_full, Writer, write}

-- `FrameType`
abbrev pub frame_type_method : ℕ
frame_type_method = 1

abbrev pub frame_type_header : ℕ
frame_type_header = 2

abbrev pub frame_type_body : ℕ
frame_type_body = 3

abbrev pub frame_type_heartbeat : ℕ
frame_type_heartbeat = 8

-- The field `Type` is `kind`; a payload is a list of bytes.
pub record Frame : Type 0 where
  pub kind : ℕ
  pub channel : ℕ
  pub payload : List ℕ

pub record MethodHeader : Type 0 where
  pub class_id : ℕ
  pub method_id : ℕ

-- "AMQP\x00\x00\x09\x01"
abbrev pub protocol_header : List ℕ
protocol_header = b'A' ∷ b'M' ∷ b'Q' ∷ b'P' ∷ 0 ∷ 0 ∷ 9 ∷ 1 ∷ []

abbrev pub max_frame_size : ℕ
max_frame_size = 1048576

-- `header[i]` of a slice that is known to be long enough.
abbrev pub byte_at : List ℕ → ℕ → ℕ
byte_at bs i = get_or bs i 0

abbrev pub uint16_at : List ℕ → ℕ → ℕ
uint16_at bs i = uint16 (byte_at bs i) (byte_at bs (i + 1))

abbrev pub uint32_at : List ℕ → ℕ → ℕ
uint32_at bs i =
    uint32 (byte_at bs i) (byte_at bs (i + 1)) (byte_at bs (i + 2)) (byte_at bs (i + 3))

-- The frame and what the reader has left.
unfoldable pub parse_frame : List ℕ → Result (Frame × List ℕ)
parse_frame r = do
  (header, r1) ← read_full 7 r
  let size = uint32_at header 3
  ensure (not (ltb max_frame_size size)) frame_too_large
  (payload, r2) ← read_full size r1
  (end_marker, r3) ← read_full 1 r2
  ensure (byte_at end_marker 0 == 0xCE) bad_end_marker
  ok (record { kind = byte_at header 0; channel = uint16_at header 1; payload = payload }, r3)

-- The seven bytes in front of the payload.
unfoldable pub frame_header : Frame → List ℕ
frame_header f = f.kind ∷ (put_uint16 f.channel ++ put_uint32 (length f.payload))

unfoldable pub write_frame : Writer → Frame → Result Writer
write_frame w f = do
  ensure (not (ltb max_frame_size (length f.payload))) frame_too_large
  w1 ← write w (frame_header f)
  w2 ← write w1 f.payload
  write w2 (0xCE ∷ [])

unfoldable pub parse_method_header : List ℕ → Result MethodHeader
parse_method_header bs =
    if ltb (length bs) 4
    then err header_too_short
    else ok (record { class_id = uint16_at bs 0; method_id = uint16_at bs 2 })

unfoldable pub serialize_method_header : MethodHeader → List ℕ
serialize_method_header h = put_uint16 h.class_id ++ put_uint16 h.method_id
