-- ===== src/Upstream/Allocate.antt =====
-- `AllocateChannel`: which number it picks, and when it fails.
use amqplex.Base.{subst, ◌%◌, ℕ, ◌+◌, ◌-◌, ◌≤◌, ◌<◌, ◌≡◌, refl, ◌∙◌, ap, arith, Bool, true, false}
use amqplex.Base.{Option, none, some, ◌⊎◌, inl, inr}
use native.Mathlib.Decide.{dec_lt}
use amqplex.Upstream.{
  Upstream, Allocation, allocated, upstream_reconnecting, no_free_channel, hangs, is_taken, claim,
  fix_hint, allocate_scanned, allocate_wrapped, allocate_within, allocate_channel,
}
use amqplex.Upstream.Scan.{
  ScanEnd, found, exhausted, endless, scan_up, ScansUp, scan_up_lem, ScansBelow, scan_below_lem,
  scan_up_zero, scan_up_endless, scan_up_reaches, scan_up-found_free,
}

-- `id` is the first number that is not taken, in the order from `hint` up to `max` and then from 1.
abbrev pub NextFit : (ℕ → Bool) → ℕ → ℕ → ℕ → Type 0
NextFit taken hint max id =
    ((hint ≤ id) × ((k : ℕ) → hint ≤ k → k < id → taken k ≡ true))
    ⊎ ((id < hint)
        × ((k : ℕ) → hint ≤ k → k ≤ max → taken k ≡ true)
        × ((k : ℕ) → 1 ≤ k → k < id → taken k ≡ true))

abbrev pub Allocates : Upstream → ℕ → ℕ → Allocation → Type 0
Allocates m client_chan cw (allocated id m') =
    (1 ≤ id)
    × (id ≤ m.max_channels)
    × (is_taken m id ≡ false)
    × NextFit (is_taken m) m.next_hint m.max_channels id
    × (m' ≡ claim m id client_chan cw)
Allocates m client_chan cw (no_free_channel m') =
    (m' ≡ m) × ((k : ℕ) → 1 ≤ k → k ≤ m.max_channels → is_taken m k ≡ true)
Allocates m client_chan cw (upstream_reconnecting m') = ⊥
Allocates m client_chan cw hangs = ⊥

fix_hint_same : (m : Upstream) → 1 ≤ m.next_hint → fix_hint m ≡ m
unfolding fix_hint
fix_hint_same m h = ground arith

all_taken :
    (taken : ℕ → Bool) (hint max k : ℕ)
    → ((j : ℕ) → hint ≤ j → j ≤ max → taken j ≡ true)
    → ((j : ℕ) → 1 ≤ j → j < hint → taken j ≡ true)
    → 1 ≤ k
    → k ≤ max
    → taken k ≡ true
all_taken taken hint max k up below lo hi = elim (dec_lt k hint) [
  | yes h ↦ below k lo h
  | no h ↦ up k (omega arith) hi
]

allocate_wrapped_lem :
    (m : Upstream) (client_chan cw : ℕ) (s : Option ℕ)
    → m.next_hint ≤ m.max_channels + 1
    → ((k : ℕ) → m.next_hint ≤ k → k ≤ m.max_channels → is_taken m k ≡ true)
    → ScansBelow (is_taken m) 1 m.next_hint s
    → Allocates m client_chan cw (allocate_wrapped m client_chan cw s)
unfolding allocate_wrapped
allocate_wrapped_lem m client_chan cw none h up p =
    (refl, λ k lo hi. all_taken (is_taken m) m.next_hint m.max_channels k up p lo hi)
allocate_wrapped_lem m client_chan cw (some id) h up (lo, hi, free, below) =
    (lo, omega arith, free, inr (hi, up, below), refl)

allocate_scanned_lem :
    (m : Upstream) (client_chan cw : ℕ) (s : ScanEnd)
    → 1 ≤ m.next_hint
    → m.next_hint ≤ m.max_channels + 1
    → ScansUp (is_taken m) m.next_hint m.max_channels s
    → Allocates m client_chan cw (allocate_scanned m client_chan cw s)
unfolding allocate_scanned
allocate_scanned_lem m client_chan cw (found id) low h (lo, hi, free, before) =
    (omega arith, hi, free, inl (lo, before), refl)
allocate_scanned_lem m client_chan cw exhausted low h up =
    allocate_wrapped_lem m client_chan cw _ h up
      (scan_below_lem (m.next_hint - 1) (is_taken m) 1 m.next_hint (omega arith))
allocate_scanned_lem m client_chan cw endless low h p = absurd p

pub allocate_within_lem :
    (fuel : ℕ) (m : Upstream) (client_chan cw : ℕ)
    → 1 ≤ m.next_hint
    → m.reconnecting ≡ false
    → allocate_within fuel m client_chan cw
      ≡ allocate_scanned m client_chan cw (scan_up fuel m.max_channels (is_taken m) m.next_hint)
unfolding allocate_within
allocate_within_lem fuel m client_chan cw low idle = simp (idle, fix_hint_same m low)

-- Below the limit 65535, with the hint in range and no reconnect running, `AllocateChannel` returns.
-- It hands out the first number from 1 to the limit that is neither used nor pending, counted from
-- the hint and around; it fails only where all of them are taken, and then changes nothing.
pub allocate_channel-Allocates :
    (m : Upstream) (client_chan cw : ℕ)
    → m.max_channels < 65535
    → 1 ≤ m.next_hint
    → m.next_hint ≤ m.max_channels + 1
    → m.reconnecting ≡ false
    → Allocates m client_chan cw (allocate_channel m client_chan cw)
unfolding allocate_channel
allocate_channel-Allocates m client_chan cw small low high idle =
    rw (allocate_within_lem 65536 m client_chan cw low idle) (
      allocate_scanned_lem m client_chan cw _ low high (
        scan_up_lem 65536 m.max_channels (is_taken m) m.next_hint small (omega arith)
          (omega arith)))

-- The limit 65535 is the default. There `id <= maxChannels` holds of every uint16: where all numbers
-- from the hint up to 65535 are taken and 0 is not, `AllocateChannel` hands out channel 0, which AMQP
-- reserves for the connection, whatever is free between 1 and the hint.
pub allocate_channel_zero :
    (m : Upstream) (client_chan cw : ℕ)
    → m.max_channels ≡ 65535
    → 1 ≤ m.next_hint
    → m.next_hint ≤ 65535
    → m.reconnecting ≡ false
    → ((k : ℕ) → m.next_hint ≤ k → k ≤ 65535 → is_taken m k ≡ true)
    → is_taken m 0 ≡ false
    → allocate_channel m client_chan cw ≡ allocated 0 (claim m 0 client_chan cw)
unfolding allocate_channel allocate_scanned
allocate_channel_zero m client_chan cw max low high idle up zero_free =
    allocate_within_lem 65536 m client_chan cw low idle
    ∙ ap (allocate_scanned m client_chan cw) (
        ap (λ n. scan_up 65536 n (is_taken m) m.next_hint) max
        ∙ scan_up_zero (is_taken m) m.next_hint low high up zero_free)

-- With all 65536 numbers taken and that limit, the fast path never ends, with the mutex held.
pub allocate_within_hangs :
    (fuel : ℕ) (m : Upstream) (client_chan cw : ℕ)
    → m.max_channels ≡ 65535
    → 1 ≤ m.next_hint
    → m.next_hint ≤ 65535
    → m.reconnecting ≡ false
    → ((k : ℕ) → k < 65536 → is_taken m k ≡ true)
    → allocate_within fuel m client_chan cw ≡ hangs
unfolding allocate_scanned
allocate_within_hangs fuel m client_chan cw max low high idle all =
    allocate_within_lem fuel m client_chan cw low idle
    ∙ ap (allocate_scanned m client_chan cw) (
        ap (λ n. scan_up fuel n (is_taken m) m.next_hint) max
        ∙ scan_up_endless fuel (is_taken m) m.next_hint (omega arith) all)

-- With that limit, a call returns a number that is not taken whenever any of the 65536 is free.
pub allocate_channel_default :
    (m : Upstream) (client_chan cw k : ℕ)
    → m.max_channels ≡ 65535
    → 1 ≤ m.next_hint
    → m.next_hint ≤ 65535
    → m.reconnecting ≡ false
    → k < 65536
    → is_taken m k ≡ false
    → (id : ℕ) × (allocate_channel m client_chan cw ≡ allocated id (claim m id client_chan cw))
      × (id ≤ 65535)
      × (is_taken m id ≡ false)
unfolding allocate_channel allocate_scanned
allocate_channel_default m client_chan cw k max low high idle lt free =
    let (n, e) =
      scan_up_reaches ((k + 65536 - m.next_hint) % 65536) 65536 (is_taken m) m.next_hint
        (omega arith) (omega arith) (subst (λ j. is_taken m j ≡ false) around free) in
    (
      n,
      allocate_within_lem 65536 m client_chan cw low idle
          ∙ ap (allocate_scanned m client_chan cw)
              (ap (λ j. scan_up 65536 j (is_taken m) m.next_hint) max ∙ e),
      (scan_up-found_free 65536 65535 (is_taken m) m.next_hint n e).0,
      (scan_up-found_free 65536 65535 (is_taken m) m.next_hint n e).1,
    )
  where
    around : k ≡ (m.next_hint + (k + 65536 - m.next_hint) % 65536) % 65536
    around = omega arith
