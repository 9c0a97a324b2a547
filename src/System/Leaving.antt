-- ===== src/System/Leaving.antt =====
-- The end of a session, as a run of the upstream's operations and as a change of the tables.
use amqplex.Base.{ℕ, ◌≡◌, ◌≢◌, refl, ◌∙◌, subst, arith, false, List, [], ◌∷◌, Option, none, some}
use amqplex.Base.{Option-cases, ==_ne, inl, inr}
use amqplex.Base.Maps.{Map, get?}
use amqplex.Upstream.{
  Upstream, ChannelEntry, remove_client, deregister, deregistered,
  schedule_channel_close_if_owned_by,
}
use amqplex.Upstream.Steps.{Reach, here, next, schedules, deregisters}
use amqplex.Client.{Client}
use amqplex.Session.{release_all, release_client_channels, end_session}
use amqplex.Session.Join.{is_new}
use amqplex.Session.Cleanup.{end_session_cleans, owns}
use amqplex.System.Consistent.{IsRegistered, KeepsOthers}

pub Reach-trans : {s m u : Upstream} → Reach s m → Reach m u → Reach s u
Reach-trans r here = r
Reach-trans r (next q st) = next (Reach-trans r q) st

release_all-Reach :
    (channels : Map ℕ) (m : Upstream) (cc : Client) → Reach m (release_all channels m cc).0
unfolding release_all
release_all-Reach [] m cl = here
release_all-Reach ((c, u) ∷ channels) m cl =
    Reach-trans (next here (schedules u cl.identity)) (release_all-Reach channels _ _)

-- The end of a session is a run of the upstream's operations.
pub end_session-Reach : (m : Upstream) (cc : Client) (now : ℕ) → Reach m (end_session m cc now).0
unfolding end_session release_client_channels
end_session-Reach m cl now =
    Reach-trans (next here (deregisters cl.identity now)) (release_all-Reach _ _ cl)

scheduled-clients :
    (m : Upstream) (u cw : ℕ) → (schedule_channel_close_if_owned_by m u cw).0.clients ≡ m.clients
unfolding schedule_channel_close_if_owned_by
scheduled-clients m u cw = ground arith

release_all-clients :
    (channels : Map ℕ) (m : Upstream) (cc : Client)
    → (release_all channels m cc).0.clients ≡ m.clients
unfolding release_all
release_all-clients [] m cl = refl
release_all-clients ((c, u) ∷ channels) m cl =
    release_all-clients channels _ _ ∙ scheduled-clients m u cl.identity

-- Whoever is in the list without a client was in it before.
removed_is_new :
    (i j : ℕ) (cs cs' : List ℕ)
    → remove_client i cs ≡ some cs'
    → is_new j cs' ≡ false
    → is_new j cs ≡ false
unfolding remove_client is_new
removed_is_new i j [] cs' e h = cc
removed_is_new i j (c ∷ cs) cs' e h = elim (Option-cases (remove_client i cs)) [
  | inl absent ↦ ground (arith, absent)
  | inr (r, found) ↦ ground (arith, found, removed_is_new i j cs r found)
]

deregistered-IsRegistered :
    (m : Upstream) (i j now : ℕ) (o : Option (List ℕ))
    → remove_client i m.clients ≡ o
    → IsRegistered j (deregistered m now o)
    → IsRegistered j m
unfolding deregistered
deregistered-IsRegistered m i j now none e h = h
deregistered-IsRegistered m i j now (some cs) e h = removed_is_new i j m.clients cs e h

pub deregister-IsRegistered :
    (m : Upstream) (i j now : ℕ) → IsRegistered j (deregister m i now) → IsRegistered j m
unfolding deregister
deregister-IsRegistered m i j now h = deregistered-IsRegistered m i j now _ refl h

end_session-clients :
    (m : Upstream) (cc : Client) (now : ℕ)
    → (end_session m cc now).0.clients ≡ (deregister m cc.identity now).clients
unfolding end_session release_client_channels
end_session-clients m cl now =
    release_all-clients cl.channel_mapping (deregister m cl.identity now) cl

not_owner :
    (cw k : ℕ) (m : Upstream) (entry : ChannelEntry)
    → entry.owner ≢ cw
    → get? k m.channel_owners ≡ some entry
    → owns m cw k ≡ false
not_owner cw k m entry ne e = rw e (==_ne entry.owner cw ne)

-- The end of a session takes slots from its own client only, and registers nobody.
pub end_session-KeepsOthers :
    (m : Upstream) (cc : Client) (now : ℕ) → KeepsOthers cc.identity m (end_session m cc now).0
end_session-KeepsOthers m cl now = record {
  owners = λ k entry ne e.
      ((end_session_cleans m cl now).1 k (not_owner cl.identity k m entry ne e)).2 ∙ e;
  registered = λ j ne r.
      deregister-IsRegistered m cl.identity j now
        (subst (λ cs. is_new j cs ≡ false) (end_session-clients m cl now) r);
}
