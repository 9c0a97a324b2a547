-- ===== src/Session/Join.antt =====
-- The registration of a client on the upstream that was chosen for it.
use amqplex.Base.{
  ℕ, ◌≡◌, refl, arith, Bool, true, false, List, [], ◌∷◌, ◌++◌, ◌||◌, none, some, ◌==◌, ==_refl,
  if◌then◌else◌, if_elim,
}
use amqplex.Upstream.{Upstream, deliver, register, remove_client, deregistered, deregister}
use amqplex.Client.{Client}
use amqplex.Session.{Joined, joined, rejected, join_upstream, unavailable_frame}

-- No entry is the client's.
unfoldable pub is_new : ℕ → List ℕ → Bool
is_new cw [] = true
is_new cw (c ∷ cs) = if c == cw then false else is_new cw cs

remove_client-append :
    (cw : ℕ) (cs : List ℕ) → is_new cw cs ≡ true → remove_client cw (cs ++ (cw ∷ [])) ≡ some cs
unfolding remove_client is_new
remove_client-append cw [] h = rw (==_refl cw) refl
remove_client-append cw (c ∷ cs) h = ground (arith, remove_client-append cw cs)

-- A join that was rejected has told the client and taken it off the upstream again; one that passed
-- has put it last on an upstream that is neither stopped nor reconnecting, and cleared the idle clock.
abbrev pub Settled : Upstream → Client → Joined → Type 0
Settled m cc (rejected m' effects) =
    ((m.stopped || m.reconnecting) ≡ true)
    × (m'.clients ≡ m.clients)
    × (effects ≡ deliver cc.identity unavailable_frame ∷ [])
Settled m cc (joined m') =
    (m'.stopped ≡ false)
    × (m'.reconnecting ≡ false)
    × (m'.clients ≡ m.clients ++ (cc.identity ∷ []))
    × (m'.last_empty_time ≡ none)

left_as_it_was :
    (m : Upstream) (cw now : ℕ)
    → is_new cw m.clients ≡ true
    → (deregister (register m cw) cw now).clients ≡ m.clients
unfolding deregister register deregistered
left_as_it_was m cw now h = rw (remove_client-append cw m.clients h) refl

-- A client that an upstream does not know yet joins it if the upstream is neither stopped nor
-- reconnecting, as its last client and with the idle clock cleared; else it is told so, and the
-- upstream's clients are those from before.
pub join_upstream-Settled :
    (m : Upstream) (cc : Client) (now : ℕ)
    → is_new cc.identity m.clients ≡ true
    → Settled m cc (join_upstream m cc now)
unfolding join_upstream register
join_upstream-Settled m cl now new =
    if_elim (Settled m cl)
      ((register m cl.identity).stopped || (register m cl.identity).reconnecting)
      (λ bad. (bad, left_as_it_was m cl.identity now new, refl))
      (λ good. (ground (arith, good), ground (arith, good), refl, refl))
