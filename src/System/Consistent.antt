-- ===== src/System/Consistent.antt =====
-- The clients' mappings and the upstream's owners agree.
use amqplex.Base.{ℕ, ◌≡◌, ◌≢◌, sym, ◌∙◌, arith, true, false, none, some}
use amqplex.Base.{◌==◌, ==_iff, subst, Bool-cases, inl, inr}
use amqplex.Base.Maps.{Map, get?, insert, delete, get?-insert, get?-delete}
use amqplex.Upstream.{Upstream, ChannelEntry}
use amqplex.Client.{Client}
use amqplex.Session.Join.{is_new}

-- Each channel of the client stands on an upstream channel that belongs to it as that channel.
abbrev pub Owned : Upstream → Client → Type 0
Owned m cc =
    (c u : ℕ)
    → get? c cc.channel_mapping ≡ some u
    → get? u m.channel_owners ≡ some (record { owner = cc.identity; client_chan = c })

abbrev pub IsRegistered : ℕ → Upstream → Type 0
IsRegistered i m = is_new i m.clients ≡ false

-- So it is for the sessions whose clients are registered on the upstream.
abbrev pub Consistent : Upstream → Map Client → Type 0
Consistent m sessions =
    (i : ℕ) (cc : Client)
    → get? i sessions ≡ some cc
    → (cc.identity ≡ i) × (IsRegistered i m → Owned m cc)

-- The slots of all clients but `i` keep their owners, and none of these is registered newly.
pub record KeepsOthers (i : ℕ) (m : Upstream) (m' : Upstream) : Type 0 where
  pub owners :
      (k : ℕ) (entry : ChannelEntry)
      → entry.owner ≢ i
      → get? k m.channel_owners ≡ some entry
      → get? k m'.channel_owners ≡ some entry
  pub registered : (j : ℕ) → j ≢ i → IsRegistered j m' → IsRegistered j m

-- All slots keep their owners.
pub record Keeps (m : Upstream) (m' : Upstream) : Type 0 where
  pub owners :
      (k : ℕ) (entry : ChannelEntry)
      → get? k m.channel_owners ≡ some entry
      → get? k m'.channel_owners ≡ some entry
  pub registered : (j : ℕ) → IsRegistered j m' → IsRegistered j m

pub Keeps-KeepsOthers : (i : ℕ) (m m' : Upstream) → Keeps m m' → KeepsOthers i m m'
Keeps-KeepsOthers i m m' keep = record {
  owners = λ k entry ne e. keep.owners k entry e;
  registered = λ j ne r. keep.registered j r;
}

pub same-Keeps :
    (m m' : Upstream) → m'.channel_owners ≡ m.channel_owners → m'.clients ≡ m.clients → Keeps m m'
same-Keeps m m' o c = record { owners = λ k entry e. rw (o, e); registered = λ j r. cc (r, c) }

pub Keeps-Consistent :
    (m m' : Upstream) (sessions : Map Client)
    → Keeps m m'
    → Consistent m sessions
    → Consistent m' sessions
Keeps-Consistent m m' sessions keep v i cl e =
    ((v i cl e).0, λ r c u h. keep.owners u _ ((v i cl e).1 (keep.registered i r) c u h))

abbrev pub Fits : Upstream → ℕ → Client → Type 0
Fits m i cc = (cc.identity ≡ i) × (IsRegistered i m → Owned m cc)

other_Fits :
    (m m' : Upstream) (sessions : Map Client) (i j : ℕ) (cc : Client)
    → KeepsOthers i m m'
    → Consistent m sessions
    → get? j sessions ≡ some cc
    → j ≢ i
    → Fits m' j cc
other_Fits m m' sessions i j cl keep v e ne =
    let (named, owned) = v j cl e in
    (
      named,
      λ r c u h. keep.owners u _ (λ k. ne (sym named ∙ k)) (owned (keep.registered j ne r) c u h),
    )

inserted_same :
    (sessions : Map Client) (i j : ℕ) (new cc : Client)
    → get? j (insert i new sessions) ≡ some cc
    → (i == j) ≡ true
    → new ≡ cc
inserted_same sessions i j new cl e same = ground (arith, get?-insert i j new sessions)

different : (i j : ℕ) → (i == j) ≡ false → j ≢ i
different i j e = ground (arith, e)

-- The tables change for the client `i` only, and its session gets a state that fits them.
pub insert-Consistent :
    (m m' : Upstream) (sessions : Map Client) (i : ℕ) (new : Client)
    → KeepsOthers i m m'
    → Fits m' i new
    → Consistent m sessions
    → Consistent m' (insert i new sessions)
insert-Consistent m m' sessions i new keep fits v j cl e = elim (Bool-cases (i == j)) [
  | inl same ↦
      subst (Fits m' j) (inserted_same sessions i j new cl e same)
        (subst (λ k. Fits m' k new) ((==_iff i j).0 same) fits)
  | inr other ↦
      other_Fits m m' sessions i j cl keep v (ground (arith, get?-insert i j new sessions))
        (different i j other)
]

pub delete-Consistent :
    (m m' : Upstream) (sessions : Map Client) (i : ℕ)
    → KeepsOthers i m m'
    → Consistent m sessions
    → Consistent m' (delete i sessions)
delete-Consistent m m' sessions i keep v j cl e = elim (Bool-cases (i == j)) [
  | inl same ↦ absurd (ground (arith, get?-delete i j sessions))
  | inr other ↦
      other_Fits m m' sessions i j cl keep v (ground (arith, get?-delete i j sessions))
        (different i j other)
]

pub absent-Consistent :
    (m m' : Upstream) (sessions : Map Client) (i : ℕ)
    → get? i sessions ≡ none
    → KeepsOthers i m m'
    → Consistent m sessions
    → Consistent m' sessions
absent-Consistent m m' sessions i absent keep v j cl e =
    other_Fits m m' sessions i j cl keep v e
      (λ k. present (subst (λ n. get? n sessions ≡ some cl) k e))
  where
    present : get? i sessions ≡ some cl → ⊥
    present h = ground (arith, absent, h)
