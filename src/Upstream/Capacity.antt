-- ===== src/Upstream/Capacity.antt =====
-- `HasCapacity` against `AllocateChannel`.
use amqplex.Base.{ℕ, ◌≤◌, ◌<◌, ◌≡◌, refl, arith, true, false, ◌⊎◌, inl, inr}
use amqplex.Base.Maps.{
  has, insert, size, has-insert, insert-IsMap, size-insert_new, le-size, size-le,
}
use amqplex.Upstream.{
  Upstream, Allocation, allocated, upstream_reconnecting, no_free_channel, hangs, is_taken,
  allocate_channel, has_capacity,
}
use amqplex.Upstream.Invariant.{Inv}
use amqplex.Upstream.Allocate.{Allocates, allocate_channel-Allocates}

-- A channel number is taken exactly if it is in use.
taken-used : (m : Upstream) (k : ℕ) → Inv m → is_taken m k ≡ has k m.used_channels
taken-used m k v = ground (arith, v.covered k)

used_size : (m : Upstream) → Inv m → m.max_channels < 65535 → size m.used_channels ≤ m.max_channels
used_size m v small =
    size-le m.max_channels m.used_channels v.distinct
      (λ k h. ((v.range k h).1 small, (v.range k h).0))

free_size :
    (m : Upstream) (id : ℕ)
    → Inv m
    → m.max_channels < 65535
    → 1 ≤ id
    → id ≤ m.max_channels
    → has id m.used_channels ≡ false
    → size m.used_channels < m.max_channels
free_size m id v small lo hi free = omega (
  arith,
  size-insert_new id tt m.used_channels free,
  size-le m.max_channels (insert id tt m.used_channels)
      (insert-IsMap id tt m.used_channels v.distinct)
      (λ k h. ground (arith, has-insert id k tt m.used_channels, v.range k)),
)

full_size :
    (m : Upstream)
    → Inv m
    → ((k : ℕ) → 1 ≤ k → k ≤ m.max_channels → is_taken m k ≡ true)
    → m.max_channels ≤ size m.used_channels
full_size m v all =
    le-size m.max_channels m.used_channels
      (λ k lo hi. ground (arith, taken-used m k v, all k lo hi))

abbrev pub Agrees : Upstream → Allocation → Type 0
Agrees m a =
    ((has_capacity m ≡ true) × ((id : ℕ) × (m' : Upstream) × (a ≡ allocated id m')))
    ⊎ ((has_capacity m ≡ false) × (a ≡ no_free_channel m))

agrees :
    (m : Upstream) (client_chan cw : ℕ) (a : Allocation)
    → Inv m
    → m.max_channels < 65535
    → m.reconnecting ≡ false
    → Allocates m client_chan cw a
    → Agrees m a
unfolding has_capacity
agrees m client_chan cw (allocated id m') v small idle (lo, hi, free, _, _) = inl (
  ground (
    arith,
    used_size m v small,
    free_size m id v small lo hi (ground (arith, taken-used m id v)),
  ),
  (id, m', refl),
)
agrees m client_chan cw (no_free_channel m') v small idle (e, all) =
    inr (ground (arith, used_size m v small, full_size m v all), ground arith)
agrees m client_chan cw (upstream_reconnecting m') v small idle p = absurd p
agrees m client_chan cw hangs v small idle p = absurd p

-- On well-formed tables below the limit 65535, while no reconnect runs, `HasCapacity` answers true
-- exactly where `AllocateChannel` then hands out a channel, and false exactly where it reports that
-- none is free.
pub has_capacity-allocate_channel :
    (m : Upstream) (client_chan cw : ℕ)
    → Inv m
    → m.max_channels < 65535
    → m.reconnecting ≡ false
    → Agrees m (allocate_channel m client_chan cw)
has_capacity-allocate_channel m client_chan cw v small idle =
    agrees m client_chan cw _ v small idle
      (allocate_channel-Allocates m client_chan cw small v.hint_low v.hint_max idle)
