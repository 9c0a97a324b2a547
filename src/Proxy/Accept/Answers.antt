-- ===== src/Proxy/Accept/Answers.antt =====
-- proxy/proxy.go: what the accept loop of `Start` does with the connections that it gets.
use amqplex.Base.{ℕ, ◌≢◌, ◌≡◌, true, false, List, [], ◌∷◌, ◌++◌, ◌⊎◌}
use amqplex.Proxy.{Proxy}
use amqplex.Proxy.Limits.{Step, Reach, admit-serves}
use amqplex.Proxy.Limits
use amqplex.Proxy.Accept.{
  Accepted, listener_closed, transient_error, connection, AcceptCall, Fate, handled, closed,
  AcceptRun,
}

abbrev among : Accepted → List ℕ → List ℕ
among listener_closed cs = cs
among transient_error cs = cs
among (connection c) cs = c ∷ cs

-- The connections that a list of calls gives.
abbrev pub connections : List AcceptCall → List ℕ
connections [] = []
connections (call ∷ calls) = among call.gives (connections calls)

abbrev subject : Fate → ℕ
subject (handled c) = c
subject (closed c) = c

abbrev pub subjects : List Fate → List ℕ
subjects [] = []
subjects (f ∷ fs) = subject f ∷ subjects fs

abbrev IsClosed : Fate → Type 0
IsClosed (handled c) = ⊥
IsClosed (closed c) = Unit {0}

abbrev pub AllClosed : List Fate → Type 0
AllClosed [] = Unit {0}
AllClosed (f ∷ fs) = IsClosed f × AllClosed fs

-- One of the calls finds the listener closed.
abbrev pub Closes : List AcceptCall → Type 0
Closes [] = ⊥
Closes (call ∷ calls) = (call.gives ≡ listener_closed) ⊎ Closes calls

-- What the other goroutines do during the calls are steps of the proxy.
abbrev pub MakesSteps : List AcceptCall → Type 0
MakesSteps [] = Unit {0}
MakesSteps (call ∷ calls) = ((p : Proxy) → Reach p (call.meanwhile p)) × MakesSteps calls

pub record Answers (p : Proxy) (calls : List AcceptCall) (r : AcceptRun) : Type 0 where
  pub reaches : Reach p r.proxy
  pub in_order : subjects r.fates ++ connections r.unread ≡ connections calls
  pub to_the_end : r.returned ≡ false → r.unread ≡ []
  pub on_closed : Closes calls → r.returned ≡ true
  pub only_then : r.returned ≡ true → Closes calls ⊎ (r.proxy.listening ≡ false)
  pub after_stop :
      p.listening ≡ false → AllClosed r.fates × (connections calls ≢ [] → r.returned ≡ true)

-- A call during which nothing else happens.
abbrev just : Accepted → List AcceptCall → List AcceptCall
just a calls = record { meanwhile = λ m. m; gives = a } ∷ calls
