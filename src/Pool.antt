-- ===== src/Pool.antt =====
-- pool/channel.go and pool/pool.go: a pool of connections with the channels on each that are safe to
-- reuse. A connection is a number, the identity of the object behind the interface.
pub mod Safety
pub mod Connections
use amqplex.Base.{
  ℕ, zero, suc, Bool, true, false, not, ◌||◌, List, [], ◌∷◌, ◌++◌, Option, none, some, bytes_eq,
  if◌then◌else◌,
}
use amqplex.Base.Maps.{Map, has, insert, delete}

-- `Operations` is a set of names.
pub record Channel : Type 0 where
  pub id : ℕ
  pub operations : List (List ℕ)
  pub unsafe : Bool

unfoldable pub new_channel : ℕ → Channel
new_channel id = record { id = id; operations = []; unsafe = false }

abbrev pub is_one_of : List ℕ → List (List ℕ) → Bool
is_one_of op [] = false
is_one_of op (name ∷ names) = bytes_eq name op || is_one_of op names

abbrev pub basic_method : List ℕ → List ℕ
basic_method name = b'B' ∷ b'a' ∷ b's' ∷ b'i' ∷ b'c' ∷ b'.' ∷ name

abbrev pub queue_method : List ℕ → List ℕ
queue_method name = b'Q' ∷ b'u' ∷ b'e' ∷ b'u' ∷ b'e' ∷ b'.' ∷ name

abbrev pub exchange_method : List ℕ → List ℕ
exchange_method name = b'E' ∷ b'x' ∷ b'c' ∷ b'h' ∷ b'a' ∷ b'n' ∷ b'g' ∷ b'e' ∷ b'.' ∷ name

abbrev pub basic_consume : List ℕ
basic_consume = basic_method (b'C' ∷ b'o' ∷ b'n' ∷ b's' ∷ b'u' ∷ b'm' ∷ b'e' ∷ [])

abbrev pub basic_qos : List ℕ
basic_qos = basic_method (b'Q' ∷ b'o' ∷ b's' ∷ [])

abbrev pub basic_ack : List ℕ
basic_ack = basic_method (b'A' ∷ b'c' ∷ b'k' ∷ [])

abbrev pub basic_reject : List ℕ
basic_reject = basic_method (b'R' ∷ b'e' ∷ b'j' ∷ b'e' ∷ b'c' ∷ b't' ∷ [])

abbrev pub basic_nack : List ℕ
basic_nack = basic_method (b'N' ∷ b'a' ∷ b'c' ∷ b'k' ∷ [])

abbrev pub queue_bind : List ℕ
queue_bind = queue_method (b'B' ∷ b'i' ∷ b'n' ∷ b'd' ∷ [])

abbrev pub queue_unbind : List ℕ
queue_unbind = queue_method (b'U' ∷ b'n' ∷ b'b' ∷ b'i' ∷ b'n' ∷ b'd' ∷ [])

abbrev pub exchange_bind : List ℕ
exchange_bind = exchange_method (b'B' ∷ b'i' ∷ b'n' ∷ b'd' ∷ [])

abbrev pub exchange_unbind : List ℕ
exchange_unbind = exchange_method (b'U' ∷ b'n' ∷ b'b' ∷ b'i' ∷ b'n' ∷ b'd' ∷ [])

-- The keys of `unsafeOps`.
abbrev pub unsafe_ops : List (List ℕ)
unsafe_ops =
    basic_consume ∷ basic_qos ∷ basic_ack ∷ basic_reject ∷ basic_nack ∷ queue_bind ∷ queue_unbind
    ∷ exchange_bind ∷ exchange_unbind ∷ []

unfoldable pub record_operation : Channel → List ℕ → Channel
record_operation c op = record c {
  operations = if is_one_of op c.operations then c.operations else op ∷ c.operations;
  unsafe = if is_one_of op unsafe_ops then true else c.unsafe;
}

unfoldable pub is_safe : Channel → Bool
is_safe c = not c.unsafe

unfoldable pub reset : Channel → Channel
reset c = record c { operations = []; unsafe = false }

-- A nil connection is `none`.
pub record PooledConnection : Type 0 where
  pub connection : Option ℕ
  pub safe_channels : Map (Unit {0})

-- The idle timeout and the last use are written and never read.
pub record ConnectionPool : Type 0 where
  pub username : List ℕ
  pub password : List ℕ
  pub vhost : List ℕ
  pub max_channels : ℕ
  pub connections : List PooledConnection

unfoldable pub new_connection_pool : List ℕ → List ℕ → List ℕ → ℕ → ConnectionPool
new_connection_pool username password vhost max_channels = record {
  username = username;
  password = password;
  vhost = vhost;
  max_channels = max_channels;
  connections = [];
}

unfoldable pub add_connection : ConnectionPool → Option ℕ → ConnectionPool
add_connection p conn = record p {
  connections = p.connections ++ (record { connection = conn; safe_channels = [] } ∷ []);
}

-- The connection at a place, or none past the end.
abbrev pub at : List PooledConnection → ℕ → Option PooledConnection
at [] i = none
at (c ∷ cs) zero = some c
at (c ∷ cs) (suc i) = at cs i

unfoldable pub get_connection : ConnectionPool → Option PooledConnection
get_connection p = at p.connections 0

-- A negative index, which the code refuses like one past the end, is not modelled.
unfoldable pub get_connection_by_index : ConnectionPool → ℕ → Option PooledConnection
get_connection_by_index p i = at p.connections i

unfoldable pub add_safe_channel : PooledConnection → ℕ → PooledConnection
add_safe_channel pc id = record pc { safe_channels = insert id tt pc.safe_channels }

unfoldable pub is_safe_channel : PooledConnection → ℕ → Bool
is_safe_channel pc id = has id pc.safe_channels

unfoldable pub remove_safe_channel : PooledConnection → ℕ → PooledConnection
remove_safe_channel pc id = record pc { safe_channels = delete id pc.safe_channels }

-- A change of the object that the pool holds at a place.
abbrev pub update_at :
    ℕ → (PooledConnection → PooledConnection) → List PooledConnection → List PooledConnection
update_at i change [] = []
update_at zero change (c ∷ cs) = change c ∷ cs
update_at (suc i) change (c ∷ cs) = c ∷ update_at i change cs

unfoldable pub close_all : List PooledConnection → List ℕ
close_all [] = []
close_all (c ∷ cs) =
    let rest = close_all cs in elim c.connection [ none ↦ rest | some conn ↦ conn ∷ rest ]

-- The empty pool, and the connections that were closed, in order.
unfoldable pub close : ConnectionPool → ConnectionPool × List ℕ
close p = (record p { connections = [] }, close_all p.connections)
