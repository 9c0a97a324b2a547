-- ===== src/Upstream/Scan.antt =====
-- The two scans of `AllocateChannel` for a channel number that is not taken.
use native.Mathlib.Decide.{ℕ_discrete}
use amqplex.Base.{ℕ, zero, suc, ◌+◌, ◌%◌, ◌≤◌, ◌<◌, ◌≡◌, refl, subst, arith, Bool, true, false}
use amqplex.Base.{
  ◌≢◌, Option, none, some, leb, ◌∙◌, ap, ◌-◌, if◌then◌else◌, Bool-cases, inl, inr, leb→le, le→leb,
}

-- `endless`: the rounds ran out before the loop stopped.
pub data ScanEnd : Type 0 where
  found : ℕ → ScanEnd
  exhausted endless : ScanEnd

-- `for id := hint; id <= max; id++` over uint16, for a number of rounds.
unfoldable pub scan_up : ℕ → ℕ → (ℕ → Bool) → ℕ → ScanEnd
scan_up zero max taken id = endless
scan_up (suc rounds) max taken id =
    let rest = scan_up rounds max taken ((id + 1) % 65536) in
    if leb id max then (if taken id then rest else found id) else exhausted

-- `for id := 1; id < hint; id++`, where `rounds` numbers are left. `id` stays below the hint.
unfoldable pub scan_below : ℕ → (ℕ → Bool) → ℕ → Option ℕ
scan_below zero taken id = none
scan_below (suc rounds) taken id = if taken id then scan_below rounds taken (id + 1) else some id

-- Where a scan from `lo` to `max` may end: at the first number that is not taken, or behind the last.
abbrev pub ScansUp : (ℕ → Bool) → ℕ → ℕ → ScanEnd → Type 0
ScansUp taken lo max (found n) =
    (lo ≤ n) × (n ≤ max) × (taken n ≡ false) × ((k : ℕ) → lo ≤ k → k < n → taken k ≡ true)
ScansUp taken lo max exhausted = (k : ℕ) → lo ≤ k → k ≤ max → taken k ≡ true
ScansUp taken lo max endless = ⊥

taken_from :
    (taken : ℕ → Bool) (lo k : ℕ)
    → taken lo ≡ true
    → (lo + 1 ≤ k → taken k ≡ true)
    → lo ≤ k
    → taken k ≡ true
taken_from taken lo k h rest le = elim (ℕ_discrete lo k) [
  | yes e ↦ subst (λ j. taken j ≡ true) e h
  | no ne ↦ rest (omega arith)
]

ScansUp-extend :
    (taken : ℕ → Bool) (lo max : ℕ) (s : ScanEnd)
    → taken lo ≡ true
    → ScansUp taken (lo + 1) max s
    → ScansUp taken lo max s
ScansUp-extend taken lo max (found n) h p =
    (omega arith, p.1, p.2, λ k lo' hi. taken_from taken lo k h (λ le. p.3 k le hi) lo')
ScansUp-extend taken lo max exhausted h p =
    λ k lo' hi. taken_from taken lo k h (λ le. p k le hi) lo'
ScansUp-extend taken lo max endless h p = p

-- Below the largest limit the fast path stops, given a round for each number up to it and one more.
pub scan_up_lem :
    (rounds max : ℕ) (taken : ℕ → Bool) (id : ℕ)
    → max < 65535
    → 0 < rounds
    → max + 1 < id + rounds
    → ScansUp taken id max (scan_up rounds max taken id)
unfolding scan_up
scan_up_lem zero max taken id small pos enough = absurd (omega arith)
scan_up_lem (suc rounds) max taken id small pos enough = elim (Bool-cases (leb id max)) [
  | inr e ↦ rw e (λ k lo hi. ground (arith, e))
  | inl e ↦ elim (Bool-cases (taken id)) [
    | inr t ↦ rw (e, t) (omega arith, leb→le id max e, t, λ k lo hi. absurd (omega arith))
    | inl t ↦
        rw (e, t, wrap id max (leb→le id max e) small)
          (ScansUp-extend taken id max _ t (
            scan_up_lem rounds max taken (id + 1) small (omega (arith, leb→le id max e))
              (omega arith)))
  ]
]
  where
    wrap : (a b : ℕ) → a ≤ b → b < 65535 → (a + 1) % 65536 ≡ a + 1
    wrap a b h k = omega arith

-- The wrapped scan looks at `rounds` numbers from `id` on.
abbrev pub ScansBelow : (ℕ → Bool) → ℕ → ℕ → Option ℕ → Type 0
ScansBelow taken lo hi (some n) =
    (lo ≤ n) × (n < hi) × (taken n ≡ false) × ((k : ℕ) → lo ≤ k → k < n → taken k ≡ true)
ScansBelow taken lo hi none = (k : ℕ) → lo ≤ k → k < hi → taken k ≡ true

ScansBelow-extend :
    (taken : ℕ → Bool) (lo hi : ℕ) (s : Option ℕ)
    → taken lo ≡ true
    → ScansBelow taken (lo + 1) hi s
    → ScansBelow taken lo hi s
ScansBelow-extend taken lo hi (some n) h p =
    (omega arith, p.1, p.2, λ k lo' hi'. taken_from taken lo k h (λ le. p.3 k le hi') lo')
ScansBelow-extend taken lo hi none h p = λ k lo' hi'. taken_from taken lo k h (λ le. p k le hi') lo'

pub scan_below_lem :
    (rounds : ℕ) (taken : ℕ → Bool) (id hi : ℕ)
    → hi ≡ id + rounds
    → ScansBelow taken id hi (scan_below rounds taken id)
unfolding scan_below
scan_below_lem zero taken id hi e = λ k lo hi'. absurd (omega arith)
scan_below_lem (suc rounds) taken id hi e = elim (Bool-cases (taken id)) [
  | inr t ↦ rw t (omega arith, omega arith, t, λ k lo hi'. absurd (omega arith))
  | inl t ↦
      rw t
        (ScansBelow-extend taken id hi _ t (scan_below_lem rounds taken (id + 1) hi (omega arith)))
]

scan_up_step :
    (total rounds : ℕ) (taken : ℕ → Bool) (id next : ℕ)
    → total ≡ suc rounds
    → id ≤ 65535
    → taken id ≡ true
    → (id + 1) % 65536 ≡ next
    → scan_up total 65535 taken id ≡ scan_up rounds 65535 taken next
unfolding scan_up
scan_up_step total rounds taken id next e h t n = rw (e, le→leb id 65535 h, t, n)

-- At the largest limit `id <= max` holds of every uint16. While all that is left up to 65535 is
-- taken, the loop goes on to 65535 and wraps to 0.
pub scan_up_wraps :
    (left rounds : ℕ) (taken : ℕ → Bool) (id : ℕ)
    → id + left ≡ 65535
    → ((k : ℕ) → id ≤ k → k ≤ 65535 → taken k ≡ true)
    → scan_up (suc left + rounds) 65535 taken id ≡ scan_up rounds 65535 taken 0
scan_up_wraps zero rounds taken id e all =
    scan_up_step (1 + rounds) rounds taken id 0 (omega arith) (omega arith)
      (all id (omega arith) (omega arith)) (omega arith)
scan_up_wraps (suc left) rounds taken id e all =
    scan_up_step (suc (suc left) + rounds) (suc left + rounds) taken id (id + 1) (omega arith)
      (omega arith) (all id (omega arith) (omega arith)) (omega arith)
    ∙ scan_up_wraps left rounds taken (id + 1) (omega arith) (λ k lo hi. all k (omega arith) hi)

-- With every number taken the loop has no end, however many rounds it is given.
pub scan_up_endless :
    (rounds : ℕ) (taken : ℕ → Bool) (id : ℕ)
    → id < 65536
    → ((k : ℕ) → k < 65536 → taken k ≡ true)
    → scan_up rounds 65535 taken id ≡ endless
unfolding scan_up
scan_up_endless zero taken id h all = refl
scan_up_endless (suc rounds) taken id h all =
    rw (le→leb id 65535 (omega arith), all id h)
      (scan_up_endless rounds taken ((id + 1) % 65536) (omega arith) all)

scan_up_found :
    (rounds : ℕ) (taken : ℕ → Bool) (id : ℕ)
    → 1 ≤ rounds
    → id ≤ 65535
    → taken id ≡ false
    → scan_up rounds 65535 taken id ≡ found id
unfolding scan_up
scan_up_found zero taken id pos h free = absurd (omega arith)
scan_up_found (suc rounds) taken id pos h free = rw (le→leb id 65535 h, free)

pub scan_up_zero :
    (taken : ℕ → Bool) (hint : ℕ)
    → 1 ≤ hint
    → hint ≤ 65535
    → ((k : ℕ) → hint ≤ k → k ≤ 65535 → taken k ≡ true)
    → taken 0 ≡ false
    → scan_up 65536 65535 taken hint ≡ found 0
scan_up_zero taken hint low high up free =
    ap (λ n. scan_up n 65535 taken hint) rounds
    ∙ scan_up_wraps (65535 - hint) hint taken hint (omega arith) up
    ∙ scan_up_found hint taken 0 low (omega arith) free
  where
    rounds : 65536 ≡ suc (65535 - hint) + hint
    rounds = omega arith

-- What the fast path finds is within the limit and not taken, whatever the limit.
pub scan_up-found_free :
    (rounds max : ℕ) (taken : ℕ → Bool) (id n : ℕ)
    → scan_up rounds max taken id ≡ found n
    → (n ≤ max) × (taken n ≡ false)
unfolding scan_up
scan_up-found_free zero max taken id n e = cc
scan_up-found_free (suc rounds) max taken id n e =
    ground (arith, scan_up-found_free rounds max taken ((id + 1) % 65536) n)

-- At the largest limit the fast path finds a number if there is one among those it comes to.
pub scan_up_reaches :
    (j rounds : ℕ) (taken : ℕ → Bool) (id : ℕ)
    → id < 65536
    → j < rounds
    → taken ((id + j) % 65536) ≡ false
    → (n : ℕ) × (scan_up rounds 65535 taken id ≡ found n)
unfolding scan_up
scan_up_reaches j zero taken id h lt free = absurd (omega arith)
scan_up_reaches zero (suc rounds) taken id h lt free =
    (id, rw (le→leb id 65535 (omega arith), here (omega arith) free))
  where
    here : (id + 0) % 65536 ≡ id → taken ((id + 0) % 65536) ≡ false → taken id ≡ false
    here e f = subst (λ n. taken n ≡ false) e f
scan_up_reaches (suc j) (suc rounds) taken id h lt free = elim (Bool-cases (taken id)) [
  | inr t ↦ (id, rw (le→leb id 65535 (omega arith), t))
  | inl t ↦
      rw (le→leb id 65535 (omega arith), t)
        (scan_up_reaches j rounds taken ((id + 1) % 65536) (omega arith) (omega arith)
          (subst (λ n. taken n ≡ false) moved free))
]
  where
    moved : (id + suc j) % 65536 ≡ ((id + 1) % 65536 + j) % 65536
    moved = omega arith

pub scan_up-ne-exhausted :
    (rounds : ℕ) (taken : ℕ → Bool) (id : ℕ)
    → id < 65536
    → scan_up rounds 65535 taken id ≢ exhausted
unfolding scan_up
scan_up-ne-exhausted zero taken id h e = cc
scan_up-ne-exhausted (suc rounds) taken id h e =
    ground (arith, scan_up-ne-exhausted rounds taken ((id + 1) % 65536) (omega arith))
