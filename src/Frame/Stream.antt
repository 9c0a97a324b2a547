-- ===== src/Frame/Stream.antt =====
-- The reader and the writer that frame.go is given. A reader is the list of bytes that arrive before
-- the peer closes; a writer takes `room` bytes more before its writes fail.
use amqplex.Base.{ℕ, ◌-◌, ◌≡◌, arith, List, [], ◌∷◌, ◌++◌}
use amqplex.Base.{length, take, drop, leb, if◌then◌else◌, le→leb}
use amqplex.Base.{length-append, take-length-append, drop-length-append, take-append-drop}
use amqplex.Base.{length-take}
use amqplex.Base.Result.{Result, ok, err, eof, unexpected_eof, write_failed}

-- What `io.ReadFull` reports when the reader holds too little.
short_read : List ℕ → Result (List ℕ × List ℕ)
short_read [] = err eof
short_read (b ∷ bs) = err unexpected_eof

-- `io.ReadFull(r, buf)` into a buffer of `n` bytes: what was read, and what is left.
unfoldable pub read_full : ℕ → List ℕ → Result (List ℕ × List ℕ)
unfolding short_read
read_full n r = if leb n (length r) then ok (take n r, drop n r) else short_read r

pub record Writer : Type 0 where
  pub written : List ℕ
  pub room : ℕ

unfoldable pub write : Writer → List ℕ → Result Writer
write w bs =
    if leb (length bs) w.room
    then ok (record { written = w.written ++ bs; room = w.room - length bs })
    else err write_failed

pub read_full-append : (xs rest : List ℕ) → read_full (length xs) (xs ++ rest) ≡ ok (xs, rest)
unfolding read_full
read_full-append xs rest =
    rw (le→leb (length xs) (length (xs ++ rest)) (omega (arith, length-append xs rest)))
      (rw (take-length-append xs rest, drop-length-append xs rest))

-- A read that succeeds splits the reader.
pub read_full-split :
    (n : ℕ) (r xs rest : List ℕ)
    → read_full n r ≡ ok (xs, rest)
    → (r ≡ xs ++ rest) × (length xs ≡ n)
unfolding read_full
read_full-split n r xs rest e = ground (arith, take-append-drop n r, length-take n r, read_short r)
  where
    read_short : (s : List ℕ) → (short_read s ≡ ok (xs, rest)) → ⊥
    read_short [] h = cc
    read_short (b ∷ bs) h = cc
