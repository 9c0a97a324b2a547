-- ===== src/Frame/Tests.antt =====
-- Concrete frames.
use amqplex.Base.{ℕ, ◌≡◌, refl, arith, List, [], ◌∷◌, ◌++◌}
use amqplex.Base.Words.{put_uint16, put_uint32, uint16, uint32}
use amqplex.Base.Result.{ok}
use amqplex.Frame.{Frame, parse_frame, write_frame, frame_header}
use amqplex.Frame.Stream.{Writer, write, read_full}
use amqplex.Frame.RoundTrip.{IsFrame, frame_bytes, parse_frame-write_frame}
use amqplex.Frame.Canonical.{parse_frame_canonical}

abbrev sample : Frame
sample = record { kind = 1; channel = 258; payload = 10 ∷ 20 ∷ [] }

abbrev sample_bytes : List ℕ
sample_bytes = 1 ∷ 1 ∷ 2 ∷ 0 ∷ 0 ∷ 0 ∷ 2 ∷ 10 ∷ 20 ∷ 0xCE ∷ []

abbrev buffer : Writer
buffer = record { written = []; room = 100 }

abbrev buffered : Writer
buffered = record { written = sample_bytes; room = 90 }

write_sample : write_frame buffer sample ≡ ok buffered
unfolding write_frame write frame_header put_uint16 put_uint32
write_sample = refl

parse_sample : parse_frame (sample_bytes ++ (7 ∷ [])) ≡ ok (sample, 7 ∷ [])
unfolding parse_frame read_full uint16 uint32
parse_sample = refl

parse_frame-write_frame_example :
    (bs : List ℕ) × (sample_bytes ≡ [] ++ bs) × (parse_frame (bs ++ (7 ∷ [])) ≡ ok (sample, 7 ∷ []))
parse_frame-write_frame_example =
    parse_frame-write_frame buffer buffered sample (7 ∷ []) (omega arith) (omega arith) write_sample

parse_frame_canonical_example :
    (sample_bytes ++ (7 ∷ []) ≡ frame_bytes sample ++ (7 ∷ [])) × IsFrame sample
parse_frame_canonical_example =
    parse_frame_canonical (sample_bytes ++ (7 ∷ [])) (7 ∷ []) sample (omega arith) parse_sample
