-- ===== src/Upstream/Reconnect/Renews.antt =====
-- `reconnectLoop` up to a dial that succeeds.
use amqplex.Base.{ℕ, ◌+◌, ◌∙◌, ◌≡◌, arith, false, List, [], ◌∷◌, ◌++◌}
use amqplex.Base.{none, some, ◌==◌, if◌then◌else◌, length, All}
use amqplex.Base.{ap}
use amqplex.Upstream.{Upstream, reconnected}
use amqplex.Upstream.Steps.{attempt}
use amqplex.Upstream.Reconnect.{
  Attempt, renewed, default_base, next_wait, renew, dialled, reconnect_rounds, reconnect_loop,
}

-- The other goroutines change nothing that the reset does not overwrite, and do not close
-- `writeDone`.
pub record Spares (change : Upstream → Upstream) : Type 0 where
  pub rest :
      (m : Upstream) (conn now : ℕ) → reconnected (change m) conn now ≡ reconnected m conn now
  pub alive : (m : Upstream) → (change m).write_done ≡ m.write_done

-- An attempt that dials in vain.
pub record IsVain (a : Attempt) : Type 0 where
  pub spares : Spares a.meanwhile
  pub fails : a.dial ≡ none

abbrev attempts_made : Upstream → ℕ → Upstream
attempts_made m n = record m { reconnect_total = m.reconnect_total + n }

still_stopped : (f : Upstream → Upstream) (m : Upstream) → Spares f → (f m).stopped ≡ m.stopped
unfolding reconnected
still_stopped f m h = ap (λ (u : Upstream). u.stopped) (h.rest m 0 0)

same_total :
    (f : Upstream → Upstream) (m : Upstream) (conn now n : ℕ)
    → Spares f
    → reconnected (attempts_made (f m) n) conn now ≡ reconnected (attempts_made m n) conn now
unfolding reconnected
same_total f m conn now n h = ap (λ (u : Upstream). attempts_made u n) (h.rest m conn now)

first_succeeds :
    (m : Upstream) (wait conn : ℕ) (a : Attempt) (rest : List Attempt)
    → Spares a.meanwhile
    → a.dial ≡ some conn
    → m.stopped ≡ false
    → m.write_done ≡ false
    → (reconnect_rounds m wait (a ∷ rest)).0 ≡ renewed (reconnected (attempt m) conn a.now)
unfolding reconnect_rounds dialled renew attempt
first_succeeds m wait conn a rest spares d going alive =
    ground (arith, spares.alive (attempt m), spares.rest (attempt m) conn a.now)

first_fails :
    (m : Upstream) (wait : ℕ) (a : Attempt) (rest : List Attempt)
    → a.dial ≡ none
    → m.stopped ≡ false
    → (reconnect_rounds m wait (a ∷ rest)).0
      ≡ (reconnect_rounds (a.meanwhile (attempt m)) (next_wait wait) rest).0
unfolding reconnect_rounds dialled
first_fails m wait a rest d going = simp (d, going)

reconnect_rounds-renewed :
    (m : Upstream) (wait conn : ℕ) (vain rest : List Attempt) (a : Attempt)
    → All IsVain vain
    → Spares a.meanwhile
    → a.dial ≡ some conn
    → m.stopped ≡ false
    → m.write_done ≡ false
    → (reconnect_rounds m wait (vain ++ (a ∷ rest))).0
      ≡ renewed (reconnected (attempts_made m (length vain + 1)) conn a.now)
unfolding attempt
reconnect_rounds-renewed m wait conn [] rest a v s d going alive =
    first_succeeds m wait conn a rest s d going alive
reconnect_rounds-renewed m wait conn (b ∷ bs) rest a v s d going alive =
    let m1 = b.meanwhile (attempt m) in
    first_fails m wait b (bs ++ (a ∷ rest)) v.0.fails going
    ∙ reconnect_rounds-renewed m1 (next_wait wait) conn bs rest a v.1 s d
        (still_stopped b.meanwhile (attempt m) v.0.spares ∙ going)
        (v.0.spares.alive (attempt m) ∙ alive)
    ∙ ap renewed (same_total b.meanwhile (attempt m) conn a.now (length bs + 1) v.0.spares)
    ∙ ap (λ (n : ℕ). renewed (reconnected (record m { reconnect_total = n }) conn a.now))
        (omega arith)

-- Where the other goroutines change nothing but what a reconnect resets, the loop of a running
-- upstream ends at the first dial that succeeds: it counts every attempt up to that one, and leaves
-- the upstream on the new connection with no channel, client or queued frame, and not reconnecting.
pub reconnect_loop_renews :
    (m : Upstream) (base conn : ℕ) (vain rest : List Attempt) (a : Attempt)
    → All IsVain vain
    → Spares a.meanwhile
    → a.dial ≡ some conn
    → m.stopped ≡ false
    → m.write_done ≡ false
    → (reconnect_loop m base (vain ++ (a ∷ rest))).0
      ≡ renewed (record m {
        reconnect_total = m.reconnect_total + (length vain + 1);
        conn = some conn;
        used_channels = [];
        channel_owners = [];
        pending_close = [];
        next_hint = 1;
        clients = [];
        last_empty_time = some a.now;
        write_done = false;
        write_ch = [];
        reconnecting = false;
      })
unfolding reconnect_loop reconnected
reconnect_loop_renews m base conn vain rest a v s d going alive =
    reconnect_rounds-renewed m (if base == 0 then default_base else base) conn vain rest a v s d
      going alive
