-- ===== src/System/Broker.antt =====
-- A round of `readLoop`, and the states of the clients behind it.
use amqplex.Base.{ℕ, ◌≡◌, ◌≢◌, refl, sym, ◌∙◌, subst, arith, List, [], ◌∷◌, Option, none, some}
use amqplex.Base.{◌==◌, if_elim, Option-cases, inl, inr}
use amqplex.Base.Maps.{Map, get?, has, delete, get?-delete}
use amqplex.Frame.{Frame, frame_type_heartbeat}
use amqplex.Method.{is_channel_close_ok}
use amqplex.Upstream.{
  Upstream, Effect, ChannelEntry, read_round, close_owned, forward, deliver_and_abort,
}
use amqplex.Client.{Client, on_channel_closed}
use amqplex.System.{tell, tell_owner}
use amqplex.System.Consistent.{Owned, Consistent, KeepsOthers, insert-Consistent, absent-Consistent}

-- The tables and the clients agree behind the round, if they did before it.
abbrev Stays : Map Client → Upstream → Upstream × List Effect → Type 0
Stays sessions m r = Consistent m sessions → Consistent r.0 (tell r.1 sessions)

unmapped-get? :
    (cc : Client) (n c u : ℕ)
    → get? c (on_channel_closed cc n).channel_mapping ≡ some u
    → (n ≢ c) × (get? c cc.channel_mapping ≡ some u)
unfolding on_channel_closed
unmapped-get? cl n c u h = elim (Option-cases (get? n cl.channel_mapping)) [
  | inl absent ↦ ground (arith, absent)
  | inr (w, found) ↦ ground (arith, found, get?-delete n c cl.channel_mapping)
]

told-identity : (cc : Client) (n : ℕ) → (on_channel_closed cc n).identity ≡ cc.identity
unfolding on_channel_closed
told-identity cl n = ground arith

-- The tables without the slot of `entry`.
freed : Upstream → ℕ → Upstream
freed m id = record m {
  channel_owners = delete id m.channel_owners;
  used_channels = delete id m.used_channels;
}

freed-KeepsOthers :
    (m : Upstream) (id : ℕ) (entry : ChannelEntry)
    → get? id m.channel_owners ≡ some entry
    → KeepsOthers entry.owner m (freed m id)
unfolding freed
freed-KeepsOthers m id entry e = record {
  owners = λ k other ne h. ground (arith, get?-delete id k m.channel_owners, ne);
  registered = λ j ne r. r;
}

freed-Owned :
    (m : Upstream) (id : ℕ) (entry : ChannelEntry) (cc : Client)
    → get? id m.channel_owners ≡ some entry
    → Owned m cc
    → Owned (freed m id) (on_channel_closed cc entry.client_chan)
unfolding freed
freed-Owned m id entry cl e owned c u h =
    let (ne, before) = unmapped-get? cl entry.client_chan c u h in
    rw (told-identity cl entry.client_chan)
      (ground (arith, get?-delete id u m.channel_owners, owned c u before, ne))

told-Consistent :
    (m : Upstream) (sessions : Map Client) (id : ℕ) (entry : ChannelEntry) (o : Option Client)
    → get? id m.channel_owners ≡ some entry
    → get? entry.owner sessions ≡ o
    → Consistent m sessions
    → Consistent (freed m id) (tell_owner sessions entry.owner entry.client_chan o)
unfolding tell_owner freed
told-Consistent m sessions id entry none e h v =
    absent-Consistent m (freed m id) sessions entry.owner h (freed-KeepsOthers m id entry e) v
told-Consistent m sessions id entry (some cl) e h v =
    let (named, owned) = v entry.owner cl h in
    insert-Consistent m (freed m id) sessions entry.owner (on_channel_closed cl entry.client_chan)
      (freed-KeepsOthers m id entry e)
      (told-identity cl entry.client_chan ∙ named, λ r. freed-Owned m id entry cl e (owned r)) v

close_owned-Stays :
    (sessions : Map Client) (m : Upstream) (f : Frame) (o : Option ChannelEntry)
    → get? f.channel m.channel_owners ≡ o
    → Stays sessions m (close_owned m f o)
unfolding close_owned tell freed
close_owned-Stays sessions m f none e v = v
close_owned-Stays sessions m f (some entry) e v =
    told-Consistent m sessions f.channel entry _ e refl v

forward-Stays :
    (sessions : Map Client) (m : Upstream) (f : Frame) (o : Option ChannelEntry)
    → Stays sessions m (forward m f o)
unfolding forward tell
forward-Stays sessions m f none v = v
forward-Stays sessions m f (some entry) v = v

tell-deliver_and_abort :
    (cs : List ℕ) (f : Frame) (sessions : Map Client)
    → tell (deliver_and_abort cs f) sessions ≡ sessions
unfolding tell deliver_and_abort
tell-deliver_and_abort [] f sessions = refl
tell-deliver_and_abort (c ∷ cs) f sessions = tell-deliver_and_abort cs f sessions

-- A round of `readLoop` keeps the clients' mappings and the upstream's owners in agreement.
pub read_round-Stays :
    (sessions : Map Client) (m : Upstream) (f : Frame)
    → Consistent m sessions
    → Consistent (read_round m f).0 (tell (read_round m f).1 sessions)
unfolding read_round tell
read_round-Stays sessions m f =
    if_elim (Stays sessions m) (f.kind == frame_type_heartbeat) (λ _ v. v)
      λ _.
        if_elim (Stays sessions m) (f.channel == 0)
          (λ _ v. subst (Consistent m) (sym (tell-deliver_and_abort m.clients f sessions)) v)
          λ _.
            if_elim (Stays sessions m) (is_channel_close_ok f)
              (λ _.
                if_elim (Stays sessions m) (has f.channel m.pending_close) (λ _ v. v)
                  (λ _. close_owned-Stays sessions m f _ refl))
              (λ _. forward-Stays sessions m f _)
