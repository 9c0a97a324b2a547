-- ===== src/Connection.antt =====
-- proxy/proxy.go: `handleConnection` from the protocol header up to the client's loop.
pub mod Arrives
mod Tests
use amqplex.Base.{ℕ, List, [], ◌∷◌, Option, none, some}
use amqplex.Base.Result.{Result, ok, err, Error}
use amqplex.Frame.Stream.{Writer}
use amqplex.Upstream.{Upstream, Effect, deliver}
use amqplex.Client.{Client}
use amqplex.Handshake.{admit_client}
use amqplex.Session.{Joined, joined, rejected, join_upstream, unavailable_frame}
use amqplex.Proxy.{Proxy, Outside, slice, get_or_create_managed_upstream, finish_client}
use amqplex.Proxy.Key.{pool_key}
use amqplex.Proxy.Lookup.{at, put_upstream}

-- A connection that returns before its loop, with what the client is sent, or comes to it: on the
-- upstream at a place of its key's slice, with the bytes that are left to read. `nowhere` is a place
-- that is not in the slice.
pub data Arrival : Type 0 where
  not_admitted : Error → Proxy → Arrival
  unavailable turned_away : Proxy → Client → List Effect → Arrival
  comes : Proxy → Client → ℕ → List ℕ → Arrival
  nowhere : Arrival

abbrev pub own_key : Client → List ℕ
own_key cc = pool_key cc.username cc.password cc.vhost

abbrev with_upstream : Proxy → List ℕ → ℕ → Upstream → Proxy
with_upstream p key i m = record p { upstreams = put_upstream key i m p.upstreams }

unfoldable pub after_join : Proxy → Client → List ℕ → ℕ → Joined → Arrival
after_join p cc r i (joined m) = comes (with_upstream p (own_key cc) i m) cc i r
after_join p cc r i (rejected m effects) =
    turned_away (finish_client (with_upstream p (own_key cc) i m)) cc effects

-- `meanwhile` is what others do to the upstream between the choice and the registration.
unfoldable pub join_at :
    (Upstream → Upstream) → Proxy → Client → List ℕ → ℕ → ℕ → Option Upstream → Arrival
unfolding after_join
join_at meanwhile p cc r now i none = nowhere
join_at meanwhile p cc r now i (some m) = after_join p cc r i (join_upstream (meanwhile m) cc now)

unfoldable pub after_choice :
    (Upstream → Upstream) → Client → List ℕ → ℕ → Proxy × Result ℕ → Arrival
unfolding join_at
after_choice meanwhile cc r now (p, err e) =
    unavailable (finish_client p) cc (deliver cc.identity unavailable_frame ∷ [])
after_choice meanwhile cc r now (p, ok i) =
    join_at meanwhile p cc r now i (at i (slice (own_key cc) p.upstreams))

unfoldable pub after_handshake :
    Outside
    → (Proxy → Proxy)
    → (Upstream → Upstream)
    → Proxy
    → ℕ
    → Result (Client × List ℕ × Writer)
    → Arrival
unfolding after_choice
after_handshake out between meanwhile p now (err e) = not_admitted e (finish_client p)
after_handshake out between meanwhile p now (ok (cc, r, w)) =
    after_choice meanwhile cc r now
      (get_or_create_managed_upstream out between p cc.username cc.password cc.vhost)

-- `between` is what others do to the proxy between the two locks of the choice.
unfoldable pub handle_connection :
    Outside
    → (Proxy → Proxy)
    → (Upstream → Upstream)
    → Proxy
    → Client
    → List ℕ
    → Writer
    → ℕ
    → Arrival
unfolding after_handshake
handle_connection out between meanwhile p cc r w now =
    after_handshake out between meanwhile p now (admit_client cc r w)
