-- ===== src/Proxy/Accept.antt =====
-- proxy/proxy.go: the accept loop of `Start`.
pub mod Answers
use amqplex.Base.{
  ℕ, ◌≡◌, refl, ap, sym, Bool, true, false, List, [], ◌∷◌, ◌++◌, Option, none, some, if◌then◌else◌,
}
use amqplex.Base.{subst}
use amqplex.Proxy.{Proxy, Admission, serves, refuses, ends, admit, finish_client, stop_proxy}
use amqplex.Proxy.Limits.{Step, Reach, WithinLimits, Reach-WithinLimits}
use amqplex.Proxy.Limits

-- What `listener.Accept` gives: the error of a closed listener, another error, or a connection.
pub data Accepted : Type 0 where
  listener_closed transient_error : Accepted
  connection : ℕ → Accepted

-- A call of `Accept` that returns, and what the other goroutines do to the proxy until then.
pub record AcceptCall : Type 0 where
  pub meanwhile : Proxy → Proxy
  pub gives : Accepted

-- What is done with a connection: a goroutine runs `handleConnection` on it, or it is closed.
pub data Fate : Type 0 where
  handled closed : ℕ → Fate

-- What a run of the loop has done, whether it has returned, and the calls that it did not make.
pub record AcceptRun : Type 0 where
  pub proxy : Proxy
  pub fates : List Fate
  pub returned : Bool
  pub unread : List AcceptCall

unfoldable pub noted : Fate → AcceptRun → AcceptRun
noted f r = record r { fates = f ∷ r.fates }

abbrev left : Proxy → List Fate → List AcceptCall → AcceptRun
left p fates calls = record { proxy = p; fates = fates; returned = true; unread = calls }

-- One turn, where `go_on` is the rest of the loop and `calls` the calls behind this one.
unfoldable pub admitted : (Proxy → AcceptRun) → List AcceptCall → Proxy → ℕ → Admission → AcceptRun
unfolding noted
admitted go_on calls p c (serves p') = noted (handled c) (go_on p')
admitted go_on calls p c (refuses p') = noted (closed c) (go_on p')
admitted go_on calls p c ends = left p (closed c ∷ []) calls

unfoldable pub accept_turn : (Proxy → AcceptRun) → List AcceptCall → Proxy → Accepted → AcceptRun
unfolding admitted
accept_turn go_on calls p listener_closed = left p [] calls
accept_turn go_on calls p transient_error = go_on p
accept_turn go_on calls p (connection c) = admitted go_on calls p c (admit p)

unfoldable pub accept_loop : Proxy → List AcceptCall → AcceptRun
unfolding accept_turn
accept_loop p [] = record { proxy = p; fates = []; returned = false; unread = [] }
accept_loop p (call ∷ calls) =
    accept_turn (λ q. accept_loop q calls) calls (call.meanwhile p) call.gives
