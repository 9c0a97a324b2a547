-- ===== src/Upstream/Allocated.antt =====
-- What a call of `AllocateChannel` has done to the state, however it ends.
use amqplex.Base.{
  ◌≢◌, subst, Bool-cases, ℕ, ◌+◌, ◌-◌, ◌≤◌, ◌<◌, ◌≡◌, refl, ◌∙◌, ap, sym, arith, true, false,
}
use amqplex.Base.{Option, none, some, inl, inr}
use native.Mathlib.Decide.{dec_lt}
use amqplex.Upstream.{
  Upstream, allocated, upstream_reconnecting, no_free_channel, is_taken, claim, allocate_scanned,
  allocate_wrapped, allocate_channel,
}
use amqplex.Upstream.Scan.{
  ScanEnd, found, exhausted, endless, scan_up, scan_below, scan_up-found_free, scan_up-ne-exhausted,
}
use amqplex.Upstream.Allocate.{Allocates, allocate_channel-Allocates, allocate_within_lem}

-- What a call that succeeds has done, whatever the limit.
abbrev pub Claims : Upstream → ℕ → ℕ → ℕ → Upstream → Type 0
Claims m client_chan cw id m' =
    (id ≤ m.max_channels)
    × (m.max_channels < 65535 → 1 ≤ id)
    × (is_taken m id ≡ false)
    × (m.reconnecting ≡ false)
    × (m' ≡ claim m id client_chan cw)

default_Claims :
    (m m' : Upstream) (client_chan cw id : ℕ) (s : ScanEnd)
    → m.max_channels ≡ 65535
    → m.next_hint ≤ 65535
    → m.reconnecting ≡ false
    → scan_up 65536 65535 (is_taken m) m.next_hint ≡ s
    → allocate_scanned m client_chan cw s ≡ allocated id m'
    → Claims m client_chan cw id m'
unfolding allocate_scanned
default_Claims m m' client_chan cw id (found n) max high idle e a =
    ground (arith, scan_up-found_free 65536 65535 (is_taken m) m.next_hint n e)
default_Claims m m' client_chan cw id exhausted max high idle e a =
    absurd (scan_up-ne-exhausted 65536 (is_taken m) m.next_hint (omega arith) e)
default_Claims m m' client_chan cw id endless max high idle e a = cc

small_Claims :
    (m m' : Upstream) (client_chan cw id : ℕ)
    → m.reconnecting ≡ false
    → Allocates m client_chan cw (allocated id m')
    → Claims m client_chan cw id m'
small_Claims m m' client_chan cw id idle (lo, hi, free, _, e) = (hi, λ _. lo, free, idle, e)

pub allocate_channel_refuses :
    (m : Upstream) (client_chan cw : ℕ)
    → m.reconnecting ≡ true
    → allocate_channel m client_chan cw ≡ upstream_reconnecting m
unfolding allocate_channel
allocate_channel_refuses m client_chan cw e = ground arith

pub allocate_channel-Claims :
    (m m' : Upstream) (client_chan cw id : ℕ)
    → 1 ≤ m.next_hint
    → m.next_hint ≤ 65535
    → m.next_hint ≤ m.max_channels + 1
    → m.max_channels ≤ 65535
    → allocate_channel m client_chan cw ≡ allocated id m'
    → Claims m client_chan cw id m'
unfolding allocate_channel
allocate_channel-Claims m m' client_chan cw id low high high' limit e =
    elim (Bool-cases m.reconnecting) [
      | inl busy ↦ cc (allocate_channel_refuses m client_chan cw busy)
      | inr idle ↦ elim (dec_lt m.max_channels 65535) [
        | yes small ↦ small_Claims m m' client_chan cw id idle (
            subst (Allocates m client_chan cw) e
              (allocate_channel-Allocates m client_chan cw small low high' idle))
        | no big ↦
            default_Claims m m' client_chan cw id _ (omega arith) high idle refl
              (sym (at_default idle (omega arith)) ∙ e)
      ]
    ]
  where
    at_default :
        m.reconnecting ≡ false
        → m.max_channels ≡ 65535
        → allocate_channel m client_chan cw
          ≡ allocate_scanned m client_chan cw (scan_up 65536 65535 (is_taken m) m.next_hint)
    at_default idle max =
        allocate_within_lem 65536 m client_chan cw low idle
        ∙ ap (λ j. allocate_scanned m client_chan cw (scan_up 65536 j (is_taken m) m.next_hint)) max

allocate_scanned_unchanged :
    (m m' : Upstream) (client_chan cw : ℕ) (s : ScanEnd)
    → allocate_scanned m client_chan cw s ≡ no_free_channel m'
    → m' ≡ m
unfolding allocate_scanned
allocate_scanned_unchanged m m' client_chan cw (found n) e = cc
allocate_scanned_unchanged m m' client_chan cw exhausted e =
    wrapped (scan_below (m.next_hint - 1) (is_taken m) 1) e
  where
    wrapped : (o : Option ℕ) → allocate_wrapped m client_chan cw o ≡ no_free_channel m' → m' ≡ m
    wrapped none h = cc
    wrapped (some id) h = cc
allocate_scanned_unchanged m m' client_chan cw endless e = cc

-- A call that finds no free channel changes nothing.
pub allocate_channel_unchanged :
    (m m' : Upstream) (client_chan cw : ℕ)
    → 1 ≤ m.next_hint
    → allocate_channel m client_chan cw ≡ no_free_channel m'
    → m' ≡ m
unfolding allocate_channel
allocate_channel_unchanged m m' client_chan cw low e = elim (Bool-cases m.reconnecting) [
  | inl busy ↦ cc (allocate_channel_refuses m client_chan cw busy)
  | inr idle ↦
      allocate_scanned_unchanged m m' client_chan cw _
        (sym (allocate_within_lem 65536 m client_chan cw low idle) ∙ e)
]

allocate_scanned_idle :
    (m m' : Upstream) (client_chan cw : ℕ) (s : ScanEnd)
    → allocate_scanned m client_chan cw s ≢ upstream_reconnecting m'
unfolding allocate_scanned
allocate_scanned_idle m m' client_chan cw (found n) e = cc
allocate_scanned_idle m m' client_chan cw exhausted e =
    wrapped (scan_below (m.next_hint - 1) (is_taken m) 1) e
  where
    wrapped : (o : Option ℕ) → allocate_wrapped m client_chan cw o ≢ upstream_reconnecting m'
    wrapped none h = cc
    wrapped (some id) h = cc
allocate_scanned_idle m m' client_chan cw endless e = cc

-- A call that is refused because of a reconnect changes nothing.
pub allocate_channel_busy :
    (m m' : Upstream) (client_chan cw : ℕ)
    → 1 ≤ m.next_hint
    → allocate_channel m client_chan cw ≡ upstream_reconnecting m'
    → m' ≡ m
unfolding allocate_channel
allocate_channel_busy m m' client_chan cw low e = elim (Bool-cases m.reconnecting) [
  | inl busy ↦ cc (allocate_channel_refuses m client_chan cw busy)
  | inr idle ↦ absurd (
      allocate_scanned_idle m m' client_chan cw _
        (sym (allocate_within_lem 65536 m client_chan cw low idle) ∙ e))
]
