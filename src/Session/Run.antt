-- ===== src/Session/Run.antt =====
-- proxy/proxy.go: the loop of `handleConnection` over the bytes of a client, with the deferred calls
-- that run at its end.
pub mod Ends
use amqplex.Base.{ℕ, zero, suc, List, [], ◌∷◌, ◌++◌}
use amqplex.Base.Result.{Result, ok, err}
use amqplex.Frame.{Frame, parse_frame}
use amqplex.Upstream.{Upstream, Effect}
use amqplex.Client.{Client}
use amqplex.Session.{Round, goes_on, returns, never, client_round, end_session}

-- `left` is a session that is over, `hanging` one that waits for ever in `AllocateChannel`, and
-- `running` one that has used up its fuel.
pub data SessionEnd : Type 0 where
  left : Upstream → Client → List Effect → SessionEnd
  hanging running : SessionEnd

unfoldable pub then_left : List Effect → SessionEnd → SessionEnd
then_left effects (left m cc later) = left m cc (effects ++ later)
then_left effects hanging = hanging
then_left effects running = running

unfoldable pub clean_up : ℕ → Upstream → Client → SessionEnd
clean_up now m cc = let (m', cc', effects) = end_session m cc now in left m' cc' effects

-- `next` stands for the rounds that follow.
unfoldable pub after_turn : (Upstream → Client → SessionEnd) → ℕ → Round → SessionEnd
after_turn next now (goes_on m cc effects) = then_left effects (next m cc)
after_turn next now (returns m cc effects) = then_left effects (clean_up now m cc)
after_turn next now never = hanging

unfoldable pub turn_on :
    (Upstream → Client → List ℕ → SessionEnd)
    → ℕ
    → Upstream
    → Client
    → Result (Frame × List ℕ)
    → SessionEnd
turn_on next now m cc (err e) = clean_up now m cc
turn_on next now m cc (ok (f, r)) = after_turn (λ m' cc'. next m' cc' r) now (client_round m cc f)

-- What the other goroutines do to the upstream and to the client while the loop waits for a frame.
abbrev pub Meanwhile : Type 0
Meanwhile = ℕ → Upstream → Client → Upstream × Client

-- The loop, cut off after `fuel` rounds, on the bytes `r`; `now` is the time of the cleanup.
unfoldable pub session_loop : ℕ → Meanwhile → ℕ → Upstream → Client → List ℕ → SessionEnd
unfolding turn_on
session_loop zero others now m cc r = running
session_loop (suc n) others now m cc r =
    turn_on (session_loop n others now) now (others n m cc).0 (others n m cc).1 (parse_frame r)
