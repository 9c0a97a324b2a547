-- ===== src/Upstream/Loop.antt =====
-- proxy/managed_upstream.go: the loop of `readLoop` around its rounds. Every round reads from the
-- connection that the upstream has at its head, which others may have replaced since the last one.
pub mod Ends
use amqplex.Base.{ℕ, zero, suc, ◌+◌, ◌*◌, ◌==◌, Bool, false, List, [], ◌++◌, Option, none, some}
use amqplex.Base.{if◌then◌else◌}
use amqplex.Base.Result.{Result, ok, err}
use amqplex.Frame.{Frame, parse_frame}
use amqplex.Upstream.{Upstream, Effect, read_round, handle_upstream_failure}

-- `ended` is a return, with what the loop did until then and whether it left a reconnect loop
-- behind; `running` is a loop that has used up its fuel.
pub data ReadEnd : Type 0 where
  ended : Upstream → List Effect → Bool → ReadEnd
  running : ReadEnd

unfoldable pub after_effects : List Effect → ReadEnd → ReadEnd
after_effects effects (ended m later starts) = ended m (effects ++ later) starts
after_effects effects running = running

-- `if !m.stopped.Load() { m.handleUpstreamFailure(err) }`
unfoldable pub read_failed : Upstream → ReadEnd
read_failed m =
    let (m', effects, starts) = handle_upstream_failure m in
    if m.stopped then ended m [] false else ended m' effects starts

-- What is left to read on each connection.
abbrev pub Readers : Type 0
Readers = ℕ → List ℕ

abbrev pub with_reader : ℕ → List ℕ → Readers → Readers
with_reader conn r readers k = if conn == k then r else readers k

-- What is done with the frame or the error that was read from `conn`, where `next` stands for the
-- rounds that follow.
unfoldable pub read_parsed :
    (Upstream × Readers → ReadEnd) → ℕ → Upstream × Readers → Result (Frame × List ℕ) → ReadEnd
read_parsed next conn (m, readers) (err e) = read_failed m
read_parsed next conn (m, readers) (ok (f, r)) =
    after_effects (read_round m f).1 (next ((read_round m f).0, with_reader conn r readers))

-- What the other goroutines do to the upstream and to what is left to read, before a round and while it
-- waits for its frame.
abbrev pub Others : Type 0
Others = ℕ → Upstream × Readers → Upstream × Readers

-- A round on the connection that was found at its head. The frame is parsed in one piece.
unfoldable pub read_from :
    (Upstream × Readers → ReadEnd)
    → (Upstream × Readers → Upstream × Readers)
    → Upstream × Readers
    → Option ℕ
    → ReadEnd
unfolding read_parsed
read_from next meanwhile s none = ended s.0 [] false
read_from next meanwhile s (some conn) =
    let s' = meanwhile s in read_parsed next conn s' (parse_frame (s'.1 conn))

-- `readLoop`, cut off after `fuel` rounds.
unfoldable pub read_loop : ℕ → Others → Upstream × Readers → ReadEnd
unfolding read_from
read_loop zero others s = running
read_loop (suc n) others s =
    let s1 = others (n * 2 + 1) s in read_from (read_loop n others) (others (n * 2)) s1 s1.0.conn
