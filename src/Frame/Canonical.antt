-- ===== src/Frame/Canonical.antt =====
-- proxy/frame.go: the bytes that `ParseFrame` accepts.
use amqplex.Base.{ℕ, ◌+◌, ◌<◌, ◌≤◌, ◌≡◌, arith, ap, length-append, List, [], ◌∷◌, ◌++◌}
use amqplex.Base.{length, ltb, append_assoc, ◌∙◌, sym, not, inl, inr, All, ◌==◌}
use amqplex.Base.Words.{uint16, uint32, IsByte, put_uint16-uint16, put_uint32-uint32, uint16-IsU16}
use amqplex.Base.Result.{
  Result, ok, ensure, ◌>>=◌, ◌>>◌, frame_too_large, bad_end_marker, Result-cases,
}
use amqplex.Frame.{Frame, max_frame_size, frame_header, parse_frame, byte_at, uint32_at}
use amqplex.Frame.RoundTrip.{IsFrame, frame_bytes}
use amqplex.Frame.Stream.{read_full, read_full-split}

-- The part of `ParseFrame` behind the header.
parse_body : ℕ → ℕ → ℕ → List ℕ → Result (Frame × List ℕ)
parse_body k c size r = do
  ensure (not (ltb max_frame_size size)) frame_too_large
  (payload, r2) ← read_full size r
  (end_marker, r3) ← read_full 1 r2
  ensure (byte_at end_marker 0 == 0xCE) bad_end_marker
  ok (record { kind = k; channel = c; payload = payload }, r3)

end_marker_bytes :
    (end_marker : List ℕ)
    → length end_marker ≡ 1
    → byte_at end_marker 0 ≡ 0xCE
    → end_marker ≡ 0xCE ∷ []
end_marker_bytes [] h e = absurd (omega arith)
end_marker_bytes (b ∷ []) h e = ground arith
end_marker_bytes (b ∷ c ∷ bs) h e = absurd (omega arith)

parse_body-split :
    (k c size : ℕ) (r : List ℕ) (f : Frame) (rest : List ℕ)
    → parse_body k c size r ≡ ok (f, rest)
    → (r ≡ f.payload ++ (0xCE ∷ rest))
      × (length f.payload ≡ size)
      × (size ≤ max_frame_size)
      × (f.kind ≡ k)
      × (f.channel ≡ c)
unfolding parse_body
parse_body-split k c size r f rest e = elim (Result-cases (read_full size r)) [
  | inl ((p, r2), e1) ↦ elim (Result-cases (read_full 1 r2)) [
    | inl ((m, r3), e2) ↦
        ground
          (arith, read_full-split size r p r2 e1, read_full-split 1 r2 m r3 e2, end_marker_bytes m)
    | inr (x, e2) ↦ ground arith
  ]
  | inr (x, e1) ↦ ground arith
]

parse_frame-parse_body :
    (b0 b1 b2 b3 b4 b5 b6 : ℕ) (r : List ℕ)
    → parse_frame (b0 ∷ b1 ∷ b2 ∷ b3 ∷ b4 ∷ b5 ∷ b6 ∷ r)
      ≡ parse_body b0 (uint16 b1 b2) (uint32 b3 b4 b5 b6) r
unfolding parse_frame parse_body read_full
parse_frame-parse_body b0 b1 b2 b3 b4 b5 b6 r = ground arith

canonical_body :
    (b0 b1 b2 b3 b4 b5 b6 : ℕ) (r rest : List ℕ) (f : Frame)
    → All IsByte (b0 ∷ b1 ∷ b2 ∷ b3 ∷ b4 ∷ b5 ∷ b6 ∷ r)
    → parse_body b0 (uint16 b1 b2) (uint32 b3 b4 b5 b6) r ≡ ok (f, rest)
    → ((b0 ∷ b1 ∷ b2 ∷ b3 ∷ b4 ∷ b5 ∷ b6 ∷ r) ≡ frame_bytes f ++ rest) × IsFrame f
unfolding frame_bytes frame_header
canonical_body b0 b1 b2 b3 b4 b5 b6 r rest f b e =
    let (body, size, small, kind, channel) =
      parse_body-split b0 (uint16 b1 b2) (uint32 b3 b4 b5 b6) r f rest e in
    (
      rw (
        size,
        kind,
        channel,
        put_uint16-uint16 b1 b2 b.1.0 b.1.1.0,
        put_uint32-uint32 b3 b4 b5 b6 b.1.1.1.0 b.1.1.1.1.0 b.1.1.1.1.1.0 b.1.1.1.1.1.1.0,
        append_assoc f.payload (0xCE ∷ []) rest,
        body,
      ),
      record {
        kind = omega arith;
        channel = omega (arith, uint16-IsU16 b1 b2 b.1.0 b.1.1.0);
        size = omega arith;
      },
    )

read_full_shrinks :
    (n : ℕ) (r xs rest : List ℕ) → read_full n r ≡ ok (xs, rest) → length rest + n ≡ length r
read_full_shrinks n r xs rest e =
    let (split, taken) = read_full-split n r xs rest e in
    omega (arith, ap length split, length-append xs rest)

-- A frame that is read takes bytes off the reader.
pub parse_frame_shrinks :
    (r rest : List ℕ) (f : Frame) → parse_frame r ≡ ok (f, rest) → length rest < length r
unfolding parse_frame
parse_frame_shrinks r rest f e = elim (Result-cases (read_full 7 r)) [
  | inl ((header, r1), e1) ↦ elim (Result-cases (read_full (uint32_at header 3) r1)) [
    | inl ((p, r2), e2) ↦ elim (Result-cases (read_full 1 r2)) [
      | inl ((m, r3), e3) ↦ ground (
        arith,
        read_full_shrinks 7 r header r1 e1,
        read_full_shrinks (uint32_at header 3) r1 p r2 e2,
        read_full_shrinks 1 r2 m r3 e3,
      )
      | inr (x, e3) ↦ ground arith
    ]
    | inr (x, e2) ↦ ground arith
  ]
  | inr (x, e1) ↦ ground arith
]

-- Bytes that `ParseFrame` takes for a frame are the ones that `WriteFrame` writes for it, in front of
-- what it leaves, and the frame is one of Go's types within the size limit.
pub parse_frame_canonical :
    (r rest : List ℕ) (f : Frame)
    → All IsByte r
    → parse_frame r ≡ ok (f, rest)
    → (r ≡ frame_bytes f ++ rest) × IsFrame f
unfolding parse_frame read_full
parse_frame_canonical [] rest f b e = cc
parse_frame_canonical (b0 ∷ []) rest f b e = cc
parse_frame_canonical (b0 ∷ b1 ∷ []) rest f b e = cc
parse_frame_canonical (b0 ∷ b1 ∷ b2 ∷ []) rest f b e = cc
parse_frame_canonical (b0 ∷ b1 ∷ b2 ∷ b3 ∷ []) rest f b e = cc
parse_frame_canonical (b0 ∷ b1 ∷ b2 ∷ b3 ∷ b4 ∷ []) rest f b e = cc
parse_frame_canonical (b0 ∷ b1 ∷ b2 ∷ b3 ∷ b4 ∷ b5 ∷ []) rest f b e = cc
parse_frame_canonical (b0 ∷ b1 ∷ b2 ∷ b3 ∷ b4 ∷ b5 ∷ b6 ∷ r) rest f b e =
    canonical_body b0 b1 b2 b3 b4 b5 b6 r rest f b
      (sym (parse_frame-parse_body b0 b1 b2 b3 b4 b5 b6 r) ∙ e)
