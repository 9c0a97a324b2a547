-- ===== src/System/Joining.antt =====
-- The coming of a client, as a run of the upstream's operations and as a change of the tables.
use amqplex.Base.{ℕ, ◌≡◌, ◌≢◌, ◌∙◌, arith, false, List, [], ◌∷◌, ◌++◌}
use amqplex.Base.{if_elim, ◌||◌, ap}
use amqplex.Base.Maps.{get?}
use amqplex.Upstream.{Upstream, register, deregister}
use amqplex.Upstream.Steps.{pump, stop, attempt, written_only}
use amqplex.Upstream.Steps
use amqplex.Client.{Client}
use amqplex.Session.{Joined, joined, rejected, join_upstream}
use amqplex.Session.Join.{is_new}
use amqplex.System.{}
use amqplex.System.Consistent.{KeepsOthers}
use amqplex.System.Leaving.{deregister-IsRegistered}

is_new-append :
    (i j : ℕ) (cs : List ℕ) → j ≢ i → is_new j (cs ++ (i ∷ [])) ≡ false → is_new j cs ≡ false
unfolding is_new
is_new-append i j [] ne h = ground (arith, ne)
is_new-append i j (c ∷ cs) ne h = ground (arith, is_new-append i j cs ne)

-- A registration registers nobody else, also where it is taken back.
register-KeepsOthers : (m : Upstream) (i : ℕ) → KeepsOthers i m (register m i)
unfolding register
register-KeepsOthers m i = record {
  owners = λ k entry ne e. e;
  registered = λ j ne r. is_new-append i j m.clients ne r;
}

deregister-owners :
    (m : Upstream) (i now : ℕ) → (deregister m i now).channel_owners ≡ m.channel_owners
unfolding deregister
deregister-owners m i now = ground arith

deregister-KeepsOthers :
    (m u : Upstream) (i now : ℕ) → KeepsOthers i m u → KeepsOthers i m (deregister u i now)
deregister-KeepsOthers m u i now keep = record {
  owners = λ k entry ne e. ap (get? k) (deregister-owners u i now) ∙ keep.owners k entry ne e;
  registered = λ j ne r. keep.registered j ne (deregister-IsRegistered u i j now r);
}

-- However a client's coming ends, it is a run of the upstream's operations.
abbrev pub Comes : Upstream → Client → Joined → Type 0
Comes m cc (joined m') = Steps.Reach m m' × KeepsOthers cc.identity m m'
Comes m cc (rejected m' effects) = Steps.Reach m m' × KeepsOthers cc.identity m m'

pub join_upstream-Comes :
    (m : Upstream) (cc : Client) (now : ℕ) → Comes m cc (join_upstream m cc now)
unfolding join_upstream
join_upstream-Comes m cl now =
    let m1 = register m cl.identity in
    let first = Steps.next Steps.here (Steps.registers cl.identity) in
    if_elim (Comes m cl) (m1.stopped || m1.reconnecting)
      (λ _. (
        Steps.next first (Steps.deregisters cl.identity now),
        deregister-KeepsOthers m m1 cl.identity now (register-KeepsOthers m cl.identity),
      ))
      (λ _. (first, register-KeepsOthers m cl.identity))
