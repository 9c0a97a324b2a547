-- ===== src/Upstream/Invariant.antt =====
-- The well-formedness of an upstream's channel tables.
use amqplex.Base.{ℕ, ◌+◌, ◌≤◌, ◌<◌, ◌≡◌, true, false, ◌&&◌, ◌||◌}
use amqplex.Base.Maps.{has, IsMap}
use amqplex.Upstream.{Upstream}

-- A channel number is in use exactly if a client owns it or its close is pending, and never both.
pub record Inv (m : Upstream) : Type 0 where
  pub limit : m.max_channels ≤ 65535
  pub hint_low : 1 ≤ m.next_hint
  pub hint_high : m.next_hint ≤ 65535
  pub hint_max : m.next_hint ≤ m.max_channels + 1
  pub distinct : IsMap m.used_channels
  pub range :
      (k : ℕ)
      → has k m.used_channels ≡ true
      → (k ≤ m.max_channels) × (m.max_channels < 65535 → 1 ≤ k)
  pub covered : (k : ℕ) → has k m.used_channels ≡ (has k m.channel_owners || has k m.pending_close)
  pub apart : (k : ℕ) → (has k m.channel_owners && has k m.pending_close) ≡ false
