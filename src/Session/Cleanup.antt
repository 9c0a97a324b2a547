-- ===== src/Session/Cleanup.antt =====
-- The cleanup when a client's loop ends.
use amqplex.Base.{ℕ, ◌≡◌, ◌≢◌, refl, sym, ◌∙◌, arith, Bool, true, false, [], ◌∷◌, none}
use amqplex.Base.{if_elim, ◌⊎◌, inl, inr, All, All-append, Bool-cases}
use amqplex.Base.Maps.{Map, get?, has, get?-delete, has-insert, has-delete}
use native.Mathlib.Decide.{ℕ_discrete}
use amqplex.Base.{subst}
use amqplex.Upstream.{
  Upstream, Effect, deliver, abort, channel_closed, send_upstream, close_conn, is_owner,
  schedule_channel_close, schedule_channel_close_if_owned_by, deregister,
}
use amqplex.Upstream.Routing.{SameSlot}
use amqplex.Client.{Client, unmap_channel}
use amqplex.Session.{
  release_one, release_all, release_client_channels, end_session, close_effects,
  channel_close_frame,
}

abbrev pub owns : Upstream → ℕ → ℕ → Bool
owns m cw k = is_owner cw (get? k m.channel_owners)

-- The slot has no owner any more, and is held until the broker's CloseOk.
abbrev pub IsHeld : ℕ → Upstream → Type 0
IsHeld k m = (get? k m.channel_owners ≡ none) × (has k m.pending_close ≡ true)

-- Some client channel of the mapping stands on the upstream channel `k`.
abbrev pub MapsTo : ℕ → Map ℕ → Type 0
MapsTo k [] = ⊥
MapsTo k ((c, u) ∷ r) = (u ≡ k) ⊎ MapsTo k r

pub SameSlot-trans :
    (k : ℕ) (m m' m'' : Upstream) → SameSlot k m m' → SameSlot k m' m'' → SameSlot k m m''
SameSlot-trans k m m' m'' p q = (q.0 ∙ p.0, q.1 ∙ p.1, q.2 ∙ p.2)

abbrev pub scheduled : Upstream → ℕ → ℕ → Upstream
scheduled m u cw = (schedule_channel_close_if_owned_by m u cw).0

-- A slot that the client does not own stays as it is.
schedule-SameSlot :
    (m : Upstream) (u cw k : ℕ) → owns m cw k ≡ false → SameSlot k m (scheduled m u cw)
unfolding schedule_channel_close_if_owned_by schedule_channel_close
schedule-SameSlot m u cw k h =
    if_elim (λ (r : Upstream × Bool). SameSlot k m r.0) (owns m cw u)
      (λ e. elim (ℕ_discrete u k) [
        | yes same ↦ cc (subst (λ j. owns m cw j ≡ false) (sym same) h)
        | no ne ↦ (
          refl,
          ground (arith, has-insert u k tt m.pending_close),
          ground (arith, get?-delete u k m.channel_owners),
        )
      ])
      (λ e. (refl, refl, refl))

-- One that it owns is held afterwards if it is the one that is scheduled, and stays as it is if not.
schedule-IsHeld : (m : Upstream) (u cw : ℕ) → owns m cw u ≡ true → IsHeld u (scheduled m u cw)
unfolding schedule_channel_close_if_owned_by schedule_channel_close
schedule-IsHeld m u cw h =
    if_elim (λ (r : Upstream × Bool). IsHeld u r.0) (owns m cw u)
      (λ e. (
        ground (arith, get?-delete u u m.channel_owners),
        ground (arith, has-insert u u tt m.pending_close),
      ))
      (λ e. cc)

pub schedule-other : (m : Upstream) (u cw k : ℕ) → u ≢ k → SameSlot k m (scheduled m u cw)
unfolding schedule_channel_close_if_owned_by schedule_channel_close
schedule-other m u cw k ne =
    if_elim (λ (r : Upstream × Bool). SameSlot k m r.0) (owns m cw u)
      (λ e. (
        refl,
        ground (arith, has-insert u k tt m.pending_close),
        ground (arith, get?-delete u k m.channel_owners),
      ))
      (λ e. (refl, refl, refl))

pub unmap_channel-identity : (cc : Client) (c : ℕ) → (unmap_channel cc c).identity ≡ cc.identity
unfolding unmap_channel
unmap_channel-identity cc c = ground arith

not_owned : (m : Upstream) (cw k : ℕ) → get? k m.channel_owners ≡ none → owns m cw k ≡ false
not_owned m cw k e = rw e

release_all-SameSlot :
    (channels : Map ℕ) (m : Upstream) (cc : Client) (k : ℕ)
    → owns m cc.identity k ≡ false
    → SameSlot k m (release_all channels m cc).0
unfolding release_all
release_all-SameSlot [] m cc k h = (refl, refl, refl)
release_all-SameSlot ((c, u) ∷ channels) m cc k h =
    let first = schedule-SameSlot m u cc.identity k h in
    SameSlot-trans k m (scheduled m u cc.identity)
      (release_all channels (scheduled m u cc.identity) (unmap_channel cc c)).0 first
      (release_all-SameSlot channels (scheduled m u cc.identity) (unmap_channel cc c) k
        (ground (arith, first.2, unmap_channel-identity cc c)))

release_all-IsHeld :
    (channels : Map ℕ) (m : Upstream) (cc : Client) (k : ℕ)
    → owns m cc.identity k ≡ true
    → MapsTo k channels
    → IsHeld k (release_all channels m cc).0
unfolding release_all
release_all-IsHeld [] m cc k h in_map = absurd in_map
release_all-IsHeld ((c, u) ∷ channels) m cc k h in_map = elim (ℕ_discrete u k) [
  | yes same ↦ held_stays (
      subst (λ j. IsHeld j (scheduled m u cc.identity)) same
        (schedule-IsHeld m u cc.identity (subst (λ j. owns m cc.identity j ≡ true) (sym same) h)))
  | no ne ↦
      release_all-IsHeld channels (scheduled m u cc.identity) (unmap_channel cc c) k
        (ground (arith, (schedule-other m u cc.identity k ne).2, unmap_channel-identity cc c))
        (elim in_map [ inl e ↦ absurd (ne e) | inr r ↦ r ])
]
  where
    held_stays :
        IsHeld k (scheduled m u cc.identity)
        → IsHeld k (release_all channels (scheduled m u cc.identity) (unmap_channel cc c)).0
    held_stays held =
        let same =
          release_all-SameSlot channels (scheduled m u cc.identity) (unmap_channel cc c) k
            (not_owned (scheduled m u cc.identity) _ k held.0) in
        (same.2 ∙ held.0, same.1 ∙ held.1)

-- The effects are Channel.Close frames, on upstream channels that satisfy `P`.
abbrev pub ClosesOnly : (ℕ → Type 0) → Effect → Type 0
ClosesOnly P (send_upstream f) = (u : ℕ) × (f ≡ channel_close_frame u) × P u
ClosesOnly P (deliver c f) = ⊥
ClosesOnly P (abort c) = ⊥
ClosesOnly P (channel_closed c n) = ⊥
ClosesOnly P (close_conn c) = ⊥

-- The upstream channels on which a client channel is still open.
abbrev pub OpenOn : Map ℕ → Client → ℕ → Type 0
OpenOn [] cc k = ⊥
OpenOn ((c, u) ∷ r) cc k = ((u ≡ k) × (has c cc.client_channels ≡ true)) ⊎ OpenOn r cc k

unmap-has :
    (cc : Client) (c d : ℕ)
    → has d (unmap_channel cc c).client_channels ≡ true
    → has d cc.client_channels ≡ true
unfolding unmap_channel
unmap-has cc c d h = ground (arith, has-delete c d cc.client_channels)

OpenOn-unmap : (r : Map ℕ) (cc : Client) (c k : ℕ) → OpenOn r (unmap_channel cc c) k → OpenOn r cc k
OpenOn-unmap [] cc c k h = absurd h
OpenOn-unmap ((d, u) ∷ r) cc c k (inl h) = inl (h.0, unmap-has cc c d h.1)
OpenOn-unmap ((d, u) ∷ r) cc c k (inr h) = inr (OpenOn-unmap r cc c k h)

owns_before : (m : Upstream) (u cw k : ℕ) → owns (scheduled m u cw) cw k ≡ true → owns m cw k ≡ true
owns_before m u cw k h = elim (Bool-cases (owns m cw k)) [
  | inl e ↦ e
  | inr e ↦ ground (arith, (schedule-SameSlot m u cw k e).2)
]

release_one-Closes :
    (P : ℕ → Type 0) (m : Upstream) (cc : Client) (c u : ℕ) (is_open : Bool)
    → (is_open ≡ true → owns m cc.identity u ≡ true → P u)
    → All
        (ClosesOnly P)
        (close_effects is_open (schedule_channel_close_if_owned_by m u cc.identity).1 u)
unfolding schedule_channel_close_if_owned_by
release_one-Closes P m cc c u false p = ground arith
release_one-Closes P m cc c u true p =
    if_elim (λ (r : Upstream × Bool). All (ClosesOnly P) (close_effects true r.1 u))
      (owns m cc.identity u) (λ e. ((u, refl, p refl e), tt)) (λ e. tt)

release_all-Closes :
    (P : ℕ → Type 0) (channels : Map ℕ) (m : Upstream) (cc : Client)
    → ((u : ℕ) → OpenOn channels cc u → owns m cc.identity u ≡ true → P u)
    → All (ClosesOnly P) (release_all channels m cc).2
unfolding release_all
release_all-Closes P [] m cc p = tt
release_all-Closes P ((c, u) ∷ channels) m cc p =
    All-append (ClosesOnly P) (release_one m cc c u).2 _
      (release_one-Closes P m cc c u (has c cc.client_channels) (λ e. p u (inl (refl, e))))
      (release_all-Closes P channels (scheduled m u cc.identity) (unmap_channel cc c) (λ k o w.
        p k (inr (OpenOn-unmap channels cc c k o)) (
          owns_before m u cc.identity k (
            subst (λ i. owns (scheduled m u cc.identity) i k ≡ true) (unmap_channel-identity cc c)
              w))))

pub deregister-tables : (m : Upstream) (cw now k : ℕ) → SameSlot k m (deregister m cw now)
unfolding deregister
deregister-tables m cw now k = (ground arith, ground arith, ground arith)

-- When a client's loop ends, every channel that it owns and has mapped is without an owner and held
-- until the broker's CloseOk; every slot that it does not own is as it was; and all that is sent to
-- the broker are Channel.Close frames, on channels that the client owned and had not closed itself.
pub end_session_cleans :
    (m : Upstream) (cc : Client) (now : ℕ)
    → let r = end_session m cc now in
      ((k : ℕ) → owns m cc.identity k ≡ true → MapsTo k cc.channel_mapping → IsHeld k r.0)
      × ((k : ℕ) → owns m cc.identity k ≡ false → SameSlot k m r.0)
      × All (ClosesOnly (λ u. (owns m cc.identity u ≡ true) × OpenOn cc.channel_mapping cc u)) r.2
unfolding end_session release_client_channels
end_session_cleans m cc now = (
  λ k h in_map. release_all-IsHeld cc.channel_mapping m1 cc k (still k true h) in_map,
  λ k h.
      SameSlot-trans k m m1 (release_all cc.channel_mapping m1 cc).0
        (deregister-tables m cc.identity now k)
        (release_all-SameSlot cc.channel_mapping m1 cc k (still k false h)),
  release_all-Closes _ cc.channel_mapping m1 cc
      (λ u o w. (ground (arith, (deregister-tables m cc.identity now u).2), o)),
)
  where
    m1 : Upstream
    m1 = deregister m cc.identity now

    still : (k : ℕ) (b : Bool) → owns m cc.identity k ≡ b → owns m1 cc.identity k ≡ b
    still k b h = ground (arith, (deregister-tables m cc.identity now k).2)
