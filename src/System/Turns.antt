-- ===== src/System/Turns.antt =====
-- A turn of a client, as a run of the upstream's operations and as a change of the tables.
use amqplex.Base.{ℕ, ◌≡◌, refl, sym, ◌∙◌, subst, arith, false, some}
use amqplex.Base.{if_elim, if◌then◌else◌, ◌==◌}
use amqplex.Base.Maps.{get?, get?-insert, has-get?}
use amqplex.Frame.{Frame, frame_type_heartbeat}
use amqplex.Method.{is_channel_open, is_channel_close, is_connection_close}
use amqplex.Upstream.{
  Upstream, Allocation, allocated, no_free_channel, hangs, upstream_reconnecting, allocate_channel,
  claim, is_taken,
}
use amqplex.Upstream.Invariant.{Inv}
use amqplex.Upstream.Allocated.{
  allocate_channel-Claims, allocate_channel_unchanged, allocate_channel_busy,
}
use amqplex.Upstream.Steps.{Reach, here, next, allocates}
use amqplex.Client.{Client, map_channel, forget_channel, mark_channel_safety}
use amqplex.Session.{Round, goes_on, returns, never, opened, pass_on, client_round}
use amqplex.Session.Open.{marked-mapping}
use amqplex.System.Consistent.{Owned, Keeps, same-Keeps}

-- What a turn keeps.
abbrev pub Turned : Upstream → Client → Upstream → Client → Type 0
Turned m cc m' cc' =
    Reach m m' × Keeps m m' × (cc'.identity ≡ cc.identity) × (Owned m cc → Owned m' cc')

abbrev pub TurnKeeps : Upstream → Client → Round → Type 0
TurnKeeps m cc (goes_on m' cc' effects) = Turned m cc m' cc'
TurnKeeps m cc (returns m' cc' effects) = Turned m cc m' cc'
TurnKeeps m cc never = Unit {0}

unturned : (m : Upstream) (cc : Client) → Turned m cc m cc
unturned m cc = (here, same-Keeps m m refl refl, refl, λ o. o)

marked-identity : (f : Frame) (cc : Client) → (mark_channel_safety f cc).identity ≡ cc.identity
unfolding mark_channel_safety
marked-identity f cc = ground arith

-- The client behind `pass_on` has the mapping from before it.
abbrev passed : Client → Frame → Client
passed cc f =
    if is_channel_close f
    then forget_channel (mark_channel_safety f cc) f.channel
    else mark_channel_safety f cc

map_channel-identity : (cc : Client) (c u : ℕ) → (map_channel cc c u).identity ≡ cc.identity
unfolding map_channel
map_channel-identity cl c u = refl

passed_same :
    (cc : Client) (f : Frame)
    → ((passed cc f).identity ≡ cc.identity) × ((passed cc f).channel_mapping ≡ cc.channel_mapping)
unfolding forget_channel
passed_same cc f = ground (arith, marked-identity f cc, marked-mapping f cc)

passed-Owned : (m : Upstream) (cc : Client) (f : Frame) → Owned m cc → Owned m (passed cc f)
passed-Owned m cl f o c u h =
    let (i, s) = passed_same cl f in
    subst (λ j. get? u m.channel_owners ≡ some (record { owner = j; client_chan = c })) (sym i)
      (o c u (subst (λ t. get? c t ≡ some u) s h))

claim-Keeps :
    (m : Upstream) (id client_chan cw : ℕ)
    → Inv m
    → is_taken m id ≡ false
    → Keeps m (claim m id client_chan cw)
unfolding claim
claim-Keeps m id client_chan cw v free = record {
  owners = λ k entry e. ground (
    arith,
    get?-insert id k (record { owner = cw; client_chan = client_chan }) m.channel_owners,
    has-get? k m.channel_owners,
    v.covered k,
  );
  registered = λ j r. r;
}

claim-Owned :
    (m : Upstream) (cc : Client) (id c : ℕ)
    → Keeps m (claim m id c cc.identity)
    → Owned m cc
    → Owned (claim m id c cc.identity) (map_channel cc c id)
unfolding claim map_channel
claim-Owned m cl id c keep o d u h = ground (
  arith,
  get?-insert c d id cl.channel_mapping,
  get?-insert id u (record { owner = cl.identity; client_chan = c }) m.channel_owners,
  o d u,
  keep.owners u (record { owner = cl.identity; client_chan = d }),
)

pass_on-Turned :
    (m m' : Upstream) (cc cc' : Client) (f : Frame)
    → Turned m cc m' cc'
    → TurnKeeps m cc (pass_on m' cc' f)
unfolding pass_on
pass_on-Turned m m' cl cl' f (reach, keep, named, owned) =
    (reach, keep, (passed_same cl' f).0 ∙ named, λ o. passed-Owned m' cl' f (owned o))

opened-TurnKeeps :
    (m : Upstream) (cc : Client) (f : Frame) (a : Allocation)
    → Inv m
    → allocate_channel m f.channel cc.identity ≡ a
    → TurnKeeps m cc (opened cc f a)
unfolding opened
opened-TurnKeeps m cl f (allocated id m') v e =
    let (_, _, free, _, claimed) =
      allocate_channel-Claims m m' f.channel cl.identity id v.hint_low v.hint_high v.hint_max
        v.limit e in
    let keep = claim-Keeps m id f.channel cl.identity v free in
    pass_on-Turned m m' cl (map_channel cl f.channel id) f (
      next here (allocates f.channel cl.identity id e),
      subst (Keeps m) (sym claimed) keep,
      map_channel-identity cl f.channel id,
      subst (λ u. Owned m cl → Owned u (map_channel cl f.channel id)) (sym claimed)
          (claim-Owned m cl id f.channel keep),
    )
opened-TurnKeeps m cl f (upstream_reconnecting m') v e =
    subst (λ u. Turned m cl u cl)
      (sym (allocate_channel_busy m m' f.channel cl.identity v.hint_low e)) (unturned m cl)
opened-TurnKeeps m cl f (no_free_channel m') v e =
    subst (λ u. Turned m cl u cl)
      (sym (allocate_channel_unchanged m m' f.channel cl.identity v.hint_low e)) (unturned m cl)
opened-TurnKeeps m cl f hangs v e = tt

-- A turn of a client is one operation of its upstream at most, keeps the owner of every slot, and
-- whatever the client then has mapped it owns, if that was so before.
pub client_round-TurnKeeps :
    (m : Upstream) (cc : Client) (f : Frame) → Inv m → TurnKeeps m cc (client_round m cc f)
unfolding client_round
client_round-TurnKeeps m cl f v =
    if_elim (TurnKeeps m cl) (f.kind == frame_type_heartbeat) (λ _. unturned m cl)
      λ _.
        if_elim (TurnKeeps m cl) (is_connection_close f) (λ _. unturned m cl)
          λ _.
            if_elim (TurnKeeps m cl) (is_channel_open f) (λ _. opened-TurnKeeps m cl f _ v refl)
              (λ _. pass_on-Turned m m cl cl f (unturned m cl))
