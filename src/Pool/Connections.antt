-- ===== src/Pool/Connections.antt =====
-- pool/pool.go: the marks on the pool's connections.
use amqplex.Base.{
  ℕ, zero, suc, ◌≡◌, ◌<◌, ◌&&◌, arith, Bool, true, false, List, [], ◌∷◌, Option, none, some, length,
  ◌==◌, if◌then◌else◌,
}
use amqplex.Base.Maps.{has-insert, has-delete}
use amqplex.Pool.{
  PooledConnection, ConnectionPool, at, update_at, get_connection_by_index, add_safe_channel,
  is_safe_channel, remove_safe_channel,
}

-- The test of a mark on the connection at a place, false where there is none.
abbrev safe_in : ℕ → Option PooledConnection → Bool
safe_in id none = false
safe_in id (some pc) = is_safe_channel pc id

unfoldable pub safe_at : ConnectionPool → ℕ → ℕ → Bool
safe_at p j id = safe_in id (get_connection_by_index p j)

-- The pool once the connection at a place has changed.
abbrev pub changed_at : ℕ → (PooledConnection → PooledConnection) → ConnectionPool → ConnectionPool
changed_at i change p = record p { connections = update_at i change p.connections }

added :
    (i j id k : ℕ) (cs : List PooledConnection)
    → i < length cs
    → safe_in k (at (update_at i (λ pc. add_safe_channel pc id) cs) j)
      ≡ (if i == j && id == k then true else safe_in k (at cs j))
unfolding is_safe_channel add_safe_channel
added i j id k [] h = absurd (omega arith)
added zero zero id k (c ∷ cs) h = ground (arith, has-insert id k tt c.safe_channels)
added zero (suc j) id k (c ∷ cs) h = ground arith
added (suc i) zero id k (c ∷ cs) h = ground arith
added (suc i) (suc j) id k (c ∷ cs) h = ground (arith, added i j id k cs)

removed :
    (i j id k : ℕ) (cs : List PooledConnection)
    → i < length cs
    → safe_in k (at (update_at i (λ pc. remove_safe_channel pc id) cs) j)
      ≡ (if i == j && id == k then false else safe_in k (at cs j))
unfolding is_safe_channel remove_safe_channel
removed i j id k [] h = absurd (omega arith)
removed zero zero id k (c ∷ cs) h = ground (arith, has-delete id k c.safe_channels)
removed zero (suc j) id k (c ∷ cs) h = ground arith
removed (suc i) zero id k (c ∷ cs) h = ground arith
removed (suc i) (suc j) id k (c ∷ cs) h = ground (arith, removed i j id k cs)

-- Marking a channel as safe on a connection of the pool, or taking the mark away, changes the mark of
-- this channel on this connection, and no other mark on any connection.
pub marks_apart :
    (p : ConnectionPool) (i j id k : ℕ)
    → i < length p.connections
    → (safe_at (changed_at i (λ pc. add_safe_channel pc id) p) j k
        ≡ (if i == j && id == k then true else safe_at p j k))
      × (safe_at (changed_at i (λ pc. remove_safe_channel pc id) p) j k
          ≡ (if i == j && id == k then false else safe_at p j k))
unfolding safe_at get_connection_by_index
marks_apart p i j id k h = (added i j id k p.connections h, removed i j id k p.connections h)
