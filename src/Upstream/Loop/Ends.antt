-- ===== src/Upstream/Loop/Ends.antt =====
-- The end of `readLoop`, and the state in which it leaves the upstream.
use amqplex.Base.{ℕ, ◌+◌, ◌<◌, ◌≡◌, true, List, ◌⊎◌}
use amqplex.Base.{none, some, length, [], ◌∷◌, ◌≤◌}
use amqplex.Base.Result.{Result}
use amqplex.Frame.{Frame}
use amqplex.Upstream.{Upstream, Effect}
use amqplex.Upstream.Invariant.{Inv}
use amqplex.Upstream.Loop.{ReadEnd, ended, running, Readers, Others}

-- The upstream has no connection any more, was stopped, or is being reconnected.
abbrev pub IsOver : Upstream → Type 0
IsOver m = (m.conn ≡ none) ⊎ ((m.stopped ≡ true) ⊎ (m.reconnecting ≡ true))

abbrev pub Ended : ReadEnd → Type 0
Ended (ended m effects starts) = Inv m × IsOver m
Ended running = ⊥

-- The connection is one of these.
abbrev pub IsOneOf : ℕ → List ℕ → Type 0
IsOneOf c [] = ⊥
IsOneOf c (x ∷ xs) = (x ≡ c) ⊎ IsOneOf c xs

-- The bytes that are left on these connections.
abbrev pub left_on : List ℕ → Readers → ℕ
left_on [] readers = 0
left_on (c ∷ conns) readers = length (readers c) + left_on conns readers

-- The upstream's tables are well-formed, and its connection, if it has one, is one of these.
abbrev pub IsOn : List ℕ → Upstream → Type 0
IsOn conns m = Inv m × ((c : ℕ) → m.conn ≡ some c → IsOneOf c conns)

abbrev SameConn : Upstream → Upstream × List Effect → Type 0
SameConn m r = r.0.conn ≡ m.conn

-- What the other goroutines keep: the upstream is on one of the connections, and no bytes come to any
-- connection but those that are counted.
pub record AreTame (conns : List ℕ) (others : Others) : Type 0 where
  pub upstream : (k : ℕ) (s : Upstream × Readers) → IsOn conns s.0 → IsOn conns (others k s).0
  pub bytes : (k : ℕ) (s : Upstream × Readers) (c : ℕ) → length ((others k s).1 c) ≤ length (s.1 c)

-- The rounds that follow end where less is left.
abbrev EndsBelow : List ℕ → ℕ → (Upstream × Readers → ReadEnd) → Type 0
EndsBelow conns bound next =
    (s : Upstream × Readers) → left_on conns s.1 < bound → IsOn conns s.0 → Ended (next s)
