-- ===== src/Session/Run/Ends.antt =====
-- How a client's loop ends.
use amqplex.Base.{ℕ, suc, ◌<◌, ◌≡◌, List, [], ◌++◌}
use amqplex.Base.{length}
use amqplex.Base.Result.{Result, ok, err, Error}
use amqplex.Frame.{Frame, parse_frame}
use amqplex.Upstream.{Upstream, Effect}
use amqplex.Upstream.Invariant.{Inv}
use amqplex.Upstream.Constants.{Constants}
use amqplex.Client.{Client}
use amqplex.Session.{Round, goes_on, returns, never, client_round, end_session}
use amqplex.Session.Run.{SessionEnd, left, hanging, running, Meanwhile}

-- Well-formed tables, and a limit that no uint16 counter exceeds.
abbrev pub IsSound : Upstream → Type 0
IsSound m = Inv m × (m.max_channels < 65535)

abbrev Ends : Round → Type 0
Ends (goes_on m cc effects) = Unit {0}
Ends (returns m cc effects) = Unit {0}
Ends never = ⊥

-- The rounds of a session with fuel `n`, from a state and the bytes that are to be read, up to the state
-- in which its loop is left, and what they have sent: a round that reads no frame any more, or one on
-- a frame that makes the loop return, is the last.
pub data RoundsTo (others : Meanwhile)
    : ℕ → Upstream → Client → List ℕ → Upstream → Client → List Effect → Type 0 where
  reads_none :
      (n : ℕ) (m : Upstream) (cc : Client) (r : List ℕ) (e : Error)
      → parse_frame r ≡ err e
      → RoundsTo others (suc n) m cc r (others n m cc).0 (others n m cc).1 []
  is_last :
      (n : ℕ) (m : Upstream) (cc : Client) (r : List ℕ) (f : Frame) (rest : List ℕ) (m' : Upstream)
      (cc' : Client) (effects : List Effect)
      → parse_frame r ≡ ok (f, rest)
      → client_round (others n m cc).0 (others n m cc).1 f ≡ returns m' cc' effects
      → RoundsTo others (suc n) m cc r m' cc' effects
  goes_round :
      (n : ℕ) (m : Upstream) (cc : Client) (r : List ℕ) (f : Frame) (rest : List ℕ) (m' : Upstream)
      (cc' : Client) (effects : List Effect) (m1 : Upstream) (cc1 : Client) (later : List Effect)
      → parse_frame r ≡ ok (f, rest)
      → client_round (others n m cc).0 (others n m cc).1 f ≡ goes_on m' cc' effects
      → RoundsTo others n m' cc' rest m1 cc1 later
      → RoundsTo others (suc n) m cc r m1 cc1 (effects ++ later)

-- The state and the effects of a session that is over, where `Last m1 cc1 before` says that its rounds
-- have come to the state `m1`, `cc1` and sent `before`: these are the state and effects of
-- `end_session` there.
abbrev pub Cleaned : (Upstream → Client → List Effect → Type 0) → ℕ → SessionEnd → Type 0
Cleaned Last now (left m cc effects) =
    IsSound m
    × ((m1 : Upstream) × (cc1 : Client) × (before : List Effect) × (Last m1 cc1 before)
        × (m ≡ (end_session m1 cc1 now).0)
        × (cc ≡ (end_session m1 cc1 now).1)
        × (effects ≡ before ++ (end_session m1 cc1 now).2))
Cleaned Last now hanging = ⊥
Cleaned Last now running = ⊥

-- The session of `n` rounds at most is over, by the cleanup of the state to which its rounds came.
abbrev pub CleansUp : Meanwhile → ℕ → ℕ → Upstream → Client → List ℕ → SessionEnd → Type 0
CleansUp others n now m cc r e = Cleaned (RoundsTo others n m cc r) now e

module _ (others : Meanwhile) (now n : ℕ) (m : Upstream) (cc : Client) (r : List ℕ) where
  -- The rounds that follow clean up in the end, on any shorter reader.
  abbrev CleansBelow : (Upstream → Client → List ℕ → SessionEnd) → Type 0
  CleansBelow next =
      (u : Upstream) (cl : Client) (r' : List ℕ)
      → length r' < length r
      → IsSound u
      → CleansUp others n now u cl r' (next u cl r')
