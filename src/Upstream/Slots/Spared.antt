-- ===== src/Upstream/Slots/Spared.antt =====
-- A number that stays bound to a client's channel.
use amqplex.Base.{
  ℕ, ◌≡◌, ◌⊎◌, inl, inr, refl, sym, ap, ◌∙◌, arith, true, false, Option, none, some, ◌==◌, ==_iff,
  Bool-cases,
}
use amqplex.Base.Maps.{has, get?}
use amqplex.Upstream.{Upstream, ChannelEntry}
use amqplex.Upstream.Invariant.{Inv}
use amqplex.Upstream.Steps.{Reach, here, next, Reach-keeps}
use amqplex.Upstream.Slots.{
  Slot, free, closing, bound, Slots, Event, opens, abandons, confirms, renews, rests, held_by,
  perform, Permits, owned_slot, slot, event_of, events_of, Spares, SparesAll,
}
use amqplex.Upstream.Slots.Refines.{Step-Follows}

perform-Spares :
    (max cw c id : ℕ) (e : Event) (s : Slots)
    → Permits max e s
    → Spares cw id e
    → s id ≡ bound cw c
    → perform e s id ≡ bound cw c
perform-Spares max cw c id (opens u owner d) s (lim, empty) spares h = elim (Bool-cases (u == id)) [
  | inl same ↦ absurd (taken (sym (ap s ((==_iff u id).0 same)) ∙ empty))
  | inr other ↦ rw other h
]
  where
    taken : s id ≡ free → ⊥
    taken e = cc
perform-Spares max cw c id (abandons u owner) s permits spares h =
    abandoned (Bool-cases (held_by owner (s u))) (Bool-cases (u == id))
  where
    holder : (u == id) ≡ true → held_by owner (s u) ≡ true → (cw == owner) ≡ true
    holder same held = sym (ap (held_by owner) (ap s ((==_iff u id).0 same) ∙ h)) ∙ held

    abandoned :
        ((held_by owner (s u) ≡ true) ⊎ (held_by owner (s u) ≡ false))
        → (((u == id) ≡ true) ⊎ ((u == id) ≡ false))
        → perform (abandons u owner) s id ≡ bound cw c
    abandoned (inr other) same = rw other h
    abandoned (inl held) (inr other) = rw (held, other) h
    abandoned (inl held) (inl same) = absurd (ground (arith, spares, holder same held, same))
perform-Spares max cw c id (confirms u) s permits spares h = ground (arith, spares, h)
perform-Spares max cw c id renews s permits spares h = absurd spares
perform-Spares max cw c id rests s permits spares h = h

Reach-Spares :
    (cw c id : ℕ) {s t : Upstream} (r : Reach s t)
    → Inv s
    → slot s id ≡ bound cw c
    → SparesAll cw id (events_of r)
    → slot t id ≡ bound cw c
Reach-Spares cw c id here v h spared = h
Reach-Spares cw c id {s} {t} (next {t = u} r st) v h (last, spared) =
    let (now, permits) = Step-Follows st (Reach-keeps r v) in
    ap (λ (x : Slots). x id) now
    ∙ perform-Spares u.max_channels cw c id (event_of st) (slot u) permits last
        (Reach-Spares cw c id r v h spared)

abbrev entry_of : Slot → Option ChannelEntry
entry_of free = none
entry_of closing = none
entry_of (bound owner c) = some (record { owner = owner; client_chan = c })

-- A bound slot is the entry of its owner.
slot-bound :
    (m : Upstream) (cw c id : ℕ)
    → slot m id ≡ bound cw c
    → get? id m.channel_owners ≡ some (record { owner = cw; client_chan = c })
slot-bound m cw c id h = elim (Bool-cases (has id m.pending_close)) [
  | inl waits ↦ absurd (not_closing (sym (rw waits refl) ∙ h))
  | inr not_waits ↦ by_owner (get? id m.channel_owners) (sym (rw not_waits refl) ∙ h)
]
  where
    not_closing : closing ≡ bound cw c → ⊥
    not_closing e = cc

    by_owner :
        (o : Option ChannelEntry)
        → owned_slot o ≡ bound cw c
        → o ≡ some (record { owner = cw; client_chan = c })
    by_owner none e = cc
    by_owner (some entry) e = ap entry_of e

-- After a run that leaves it alone, a number still has the owner that it was bound to.
pub spared_owner :
    (cw c id : ℕ) {s t : Upstream} (r : Reach s t)
    → Inv s
    → slot s id ≡ bound cw c
    → SparesAll cw id (events_of r)
    → get? id t.channel_owners ≡ some (record { owner = cw; client_chan = c })
spared_owner cw c id {s} {t} r v h spared = slot-bound t cw c id (Reach-Spares cw c id r v h spared)
