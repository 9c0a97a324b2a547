-- ===== src/Upstream/Reconnect/Panics.antt =====
-- A stop of the upstream while `reconnectLoop` sleeps or dials.
use amqplex.Base.{ℕ, ◌-◌, true, ◌≤◌, ◌≡◌, refl, arith, false, List, [], ◌∷◌}
use amqplex.Base.{some}
use amqplex.Upstream.{Upstream, mark_stopped_if_idle, stop_write_pump, idle_for}
use amqplex.Base.Maps.{size}
use amqplex.Upstream.Steps.{attempt}
use amqplex.Upstream.Reconnect.{Attempt, panics, renew, dialled, reconnect_rounds, reconnect_loop}

stopped_meanwhile :
    (m : Upstream) (base conn : ℕ) (a : Attempt) (rest : List Attempt)
    → m.stopped ≡ false
    → a.dial ≡ some conn
    → (a.meanwhile (attempt m)).write_done ≡ true
    → (reconnect_loop m base (a ∷ rest)).0 ≡ panics
unfolding reconnect_loop reconnect_rounds dialled renew
stopped_meanwhile m base conn a rest going d closed = simp (going, d, closed)

-- The sweep, as what happens during an attempt.
abbrev pub swept_during : ℕ → ℕ → ℕ → Attempt
swept_during timeout at conn = record {
  meanwhile = λ u. (mark_stopped_if_idle u timeout at).0;
  dial = some conn;
  now = at;
}

swept-write_done :
    (m : Upstream) (timeout at since : ℕ)
    → m.clients ≡ []
    → m.used_channels ≡ []
    → m.last_empty_time ≡ some since
    → timeout ≤ at - since
    → (mark_stopped_if_idle m timeout at).0.write_done ≡ true
unfolding mark_stopped_if_idle idle_for stop_write_pump size
swept-write_done m timeout at since empty unused idle long = ground arith

-- An upstream without clients and channels whose idle time runs out while it waits for a dial that
-- succeeds: the sweep stops it and closes `writeDone`, and `reconnectLoop`, which looks at `stopped`
-- only at the head of an attempt, closes it a second time and panics.
pub sweep_panics :
    (m : Upstream) (base conn timeout at since : ℕ) (rest : List Attempt)
    → m.stopped ≡ false
    → m.clients ≡ []
    → m.used_channels ≡ []
    → m.last_empty_time ≡ some since
    → timeout ≤ at - since
    → (reconnect_loop m base (swept_during timeout at conn ∷ rest)).0 ≡ panics
unfolding attempt
sweep_panics m base conn timeout at since rest going empty unused idle long =
    stopped_meanwhile m base conn (swept_during timeout at conn) rest going refl
      (swept-write_done (attempt m) timeout at since empty unused idle long)
