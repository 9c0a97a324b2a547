-- ===== src/Session/Leak.antt =====
-- proxy/proxy.go: slots of the shared upstream that the cleanup does not see.
use amqplex.Base.{ℕ, ◌≡◌, ◌≢◌, refl, sym, subst, arith, true, false, List, [], ◌∷◌, some}
use amqplex.Base.{if_elim, ◌==◌, inl, inr, All, Bool-cases}
use amqplex.Base.Maps.{Map, IsMap, get?, has, insert, has-delete}
use amqplex.Frame.{Frame, frame_type_heartbeat}
use amqplex.Method.{is_channel_open, is_channel_close, is_channel_close_ok, is_connection_close}
use amqplex.Upstream.{
  Upstream, Effect, deliver, send_upstream, remap, allocate_channel, allocated, is_taken,
  deregister,
}
use amqplex.Upstream.Invariant.{Inv}
use amqplex.Upstream.Allocated.{Claims, allocate_channel-Claims}
use amqplex.Upstream.Preserve.{is_owner-has}
use amqplex.Upstream.Routing.{SameSlot}
use amqplex.Client.{Client, map_channel, unmap_channel, mark_channel_safety, forget_channel}
use amqplex.Session.{
  goes_on, client_round, pass_on, end_session, release_all, release_client_channels,
}
use amqplex.Session.Open.{marked-mapping, after_open, open_round}
use amqplex.Session.Rounds.{after_round, claim-SameSlot}
use amqplex.Session.Cleanup.{
  owns, IsHeld, MapsTo, OpenOn, ClosesOnly, end_session_cleans, schedule-other, scheduled,
  SameSlot-trans, deregister-tables,
}

-- Every entry that maps to `u` is the one of `c`.
abbrev pub MapsFrom : ℕ → ℕ → Map ℕ → Type 0
MapsFrom c u = All (λ p. p.1 ≡ u → p.0 ≡ c)

get?-MapsTo : (c u : ℕ) (r : Map ℕ) → get? c r ≡ some u → MapsTo u r
unfolding get?
get?-MapsTo c u [] e = cc
get?-MapsTo c u ((d, w) ∷ r) e = elim (Bool-cases (d == c)) [
  | inl h ↦ inl (ground arith)
  | inr h ↦ inr (get?-MapsTo c u r (ground arith))
]

close_ok_kinds :
    (f : Frame)
    → is_channel_close_ok f ≡ true
    → ((f.kind == frame_type_heartbeat) ≡ false)
      × (is_connection_close f ≡ false)
      × (is_channel_open f ≡ false)
      × (is_channel_close f ≡ true)
unfolding is_channel_close_ok is_connection_close is_channel_close is_channel_open
close_ok_kinds f h = ground arith

marked-identity : (f : Frame) (cc : Client) → (mark_channel_safety f cc).identity ≡ cc.identity
unfolding mark_channel_safety
marked-identity f cc = ground arith

-- The client that `delete(cc.ClientChannels, …)` leaves has no channel `c` open.
not-OpenOn :
    (r : Map ℕ) (cc : Client) (c u : ℕ)
    → MapsFrom c u r
    → has c cc.client_channels ≡ false
    → OpenOn r cc u
    → ⊥
not-OpenOn [] cc c u only h o = o
not-OpenOn ((d, w) ∷ r) cc c u only h (inl (e, o)) = ground (arith, only.0 e)
not-OpenOn ((d, w) ∷ r) cc c u only h (inr o) = not-OpenOn r cc c u only.1 h o

ClosesOnly-ne :
    (P : ℕ → Type 0) (u : ℕ) (effects : List Effect)
    → (P u → ⊥)
    → All (ClosesOnly P) effects
    → All (ClosesOnly (λ k. k ≢ u)) effects
ClosesOnly-ne P u [] h a = tt
ClosesOnly-ne P u (send_upstream f ∷ es) h ((k, e, p), a) =
    ((k, e, λ same. h (subst P same p)), ClosesOnly-ne P u es h a)
ClosesOnly-ne P u (deliver c f ∷ es) h a = absurd a.0
ClosesOnly-ne P u (x ∷ es) h a = absurd a.0

-- Behind a Channel.Close or CloseOk that it sent, a client has the same identity and mapping, and has
-- the channel no longer open.
after_close :
    (cc : Client) (f : Frame)
    → is_channel_close f ≡ true
    → ((after_round cc f).identity ≡ cc.identity)
      × ((after_round cc f).channel_mapping ≡ cc.channel_mapping)
      × (has f.channel (after_round cc f).client_channels ≡ false)
unfolding forget_channel
after_close cc f h = rw h (
  marked-identity f cc,
  marked-mapping f cc,
  ground (arith, has-delete f.channel f.channel (mark_channel_safety f cc).client_channels),
)

-- When the broker closes a channel and the client answers with Channel.CloseOk, the answer is sent on
-- under the upstream number `u`. If the client then disconnects, the slot of `u` is held as if a close
-- were under way, but no Channel.Close for `u` is sent: the CloseOk that would free it was never asked
-- for. (Channel `f.channel` alone is mapped to `u`, and the client owns `u`.)
pub close_ok_leaks :
    (m : Upstream) (cc : Client) (f : Frame) (u now : ℕ)
    → is_channel_close_ok f ≡ true
    → get? f.channel cc.channel_mapping ≡ some u
    → MapsFrom f.channel u cc.channel_mapping
    → owns m cc.identity u ≡ true
    → let r = end_session m (after_round cc f) now in
      (client_round m cc f ≡ goes_on m (after_round cc f) (send_upstream (remap u f) ∷ []))
      × IsHeld u r.0
      × All (ClosesOnly (λ k. k ≢ u)) r.2
unfolding client_round pass_on
close_ok_leaks m cc f u now ok maps only own =
    let (hb, close, opens, chan) = close_ok_kinds f ok in
    let (same, mapping, gone) = after_close cc f chan in
    let cleans = end_session_cleans m (after_round cc f) now in
    (
      simp (hb, close, opens, maps),
      cleans.0 u (subst (λ i. owns m i u ≡ true) (sym same) own)
          (subst (MapsTo u) (sym mapping) (get?-MapsTo f.channel u cc.channel_mapping maps)),
      ClosesOnly-ne _ u _
          (λ p.
            not-OpenOn cc.channel_mapping (after_round cc f) f.channel u only gone
              (subst (λ r. OpenOn r (after_round cc f) u) mapping p.1))
          cleans.2,
    )

unmapped_stays :
    (channels : Map ℕ) (m : Upstream) (cc : Client) (k : ℕ)
    → (MapsTo k channels → ⊥)
    → SameSlot k m (release_all channels m cc).0
unfolding release_all
unmapped_stays [] m cc k h = (refl, refl, refl)
unmapped_stays ((c, u) ∷ channels) m cc k h =
    SameSlot-trans k m (scheduled m u cc.identity)
      (release_all channels (scheduled m u cc.identity) (unmap_channel cc c)).0
      (schedule-other m u cc.identity k (λ e. h (inl e)))
      (unmapped_stays channels (scheduled m u cc.identity) (unmap_channel cc c) k (λ p. h (inr p)))

MapsTo-has : (c u : ℕ) (r : Map ℕ) → MapsFrom c u r → MapsTo u r → has c r ≡ true
unfolding has
MapsTo-has c u [] only h = absurd h
MapsTo-has c u ((d, w) ∷ r) only (inl e) = ground (arith, only.0 e)
MapsTo-has c u ((d, w) ∷ r) only (inr h) = ground (arith, MapsTo-has c u r only.1 h)

-- A new entry for `c` takes the place of the one that maps to `u`.
insert-not-MapsTo :
    (c u v : ℕ) (r : Map ℕ) → IsMap r → MapsFrom c u r → v ≢ u → MapsTo u (insert c v r) → ⊥
unfolding insert
insert-not-MapsTo c u v [] d only ne (inl e) = ne e
insert-not-MapsTo c u v [] d only ne (inr e) = e
insert-not-MapsTo c u v ((j, w) ∷ r) d only ne h =
    if_elim (λ (s : Map ℕ). MapsTo u s → ⊥) (j == c) replaced
      (kept (insert-not-MapsTo c u v r d.1 only.1 ne)) h
  where
    replaced : (j == c) ≡ true → MapsTo u ((c, v) ∷ r) → ⊥
    replaced same (inl e) = ne e
    replaced same (inr p) = ground (arith, MapsTo-has c u r only.1 p)

    kept : (MapsTo u (insert c v r) → ⊥) → (j == c) ≡ false → MapsTo u ((j, w) ∷ insert c v r) → ⊥
    kept ih other (inl e) = ground (arith, only.0 e)
    kept ih other (inr p) = ih p

owned-taken : (m : Upstream) (cw u : ℕ) → Inv m → owns m cw u ≡ true → is_taken m u ≡ true
owned-taken m cw u v h = ground (arith, is_owner-has m u cw h, v.covered u)

after_open-parts :
    (cc : Client) (f : Frame) (id : ℕ)
    → ((after_open cc f id).identity ≡ cc.identity)
      × ((after_open cc f id).channel_mapping ≡ insert f.channel id cc.channel_mapping)
unfolding map_channel
after_open-parts cc f id = (
  marked-identity f (map_channel cc f.channel id),
  marked-mapping f (map_channel cc f.channel id),
)

-- A client that opens a channel again which it holds open on the upstream channel `u` is given another
-- upstream channel, and `u` is forgotten: when the client has disconnected, `u` still belongs to it,
-- with its slot as it was. (Channel `f.channel` alone is mapped to `u`.)
pub reopen_leaks :
    (m m' : Upstream) (cc : Client) (f : Frame) (u id now : ℕ)
    → Inv m
    → is_channel_open f ≡ true
    → allocate_channel m f.channel cc.identity ≡ allocated id m'
    → IsMap cc.channel_mapping
    → MapsFrom f.channel u cc.channel_mapping
    → owns m cc.identity u ≡ true
    → let r = end_session m' (after_open cc f id) now in
      (client_round m cc f ≡ goes_on m' (after_open cc f id) (send_upstream (remap id f) ∷ []))
      × (id ≢ u)
      × SameSlot u m r.0
      × (owns r.0 cc.identity u ≡ true)
unfolding end_session release_client_channels
reopen_leaks m m' cl f u id now v op e distinct only own =
    (open_round m m' cl f id op e, new, same, ground (arith, same.2))
  where
    c : Claims m f.channel cl.identity id m'
    c =
        allocate_channel-Claims m m' f.channel cl.identity id v.hint_low v.hint_high v.hint_max
          v.limit e

    taken : is_taken m u ≡ true
    taken = owned-taken m cl.identity u v own

    new : id ≢ u
    new h = cc (taken, subst (λ j. is_taken m j ≡ false) h c.2)

    after' : Client
    after' = after_open cl f id

    m1 : Upstream
    m1 = deregister m' after'.identity now

    lost : MapsTo u after'.channel_mapping → ⊥
    lost p =
        insert-not-MapsTo f.channel u id cl.channel_mapping distinct only new
          (subst (MapsTo u) (after_open-parts cl f id).1 p)

    same : SameSlot u m (release_all after'.channel_mapping m1 after').0
    same =
        SameSlot-trans u m m' (release_all after'.channel_mapping m1 after').0
          (subst (SameSlot u m) (sym c.4) (claim-SameSlot u m id f.channel cl.identity taken c.2))
          (SameSlot-trans u m' m1 (release_all after'.channel_mapping m1 after').0
            (deregister-tables m' after'.identity now u)
            (unmapped_stays after'.channel_mapping m1 after' u lost))
