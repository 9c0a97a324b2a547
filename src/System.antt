-- ===== src/System.antt =====
-- proxy/proxy.go and proxy/managed_upstream.go together: one shared upstream, the sessions of its
-- clients, and the broker, in any order of their turns. A turn is the body of a loop on one frame;
-- a session is known by its client's identity, and stays until its loop returns, also when the
-- upstream has dropped its client meanwhile.
pub mod Consistent
pub mod Turns
pub mod Broker
pub mod Leaving
pub mod Joining
pub mod Isolated
pub mod Routes
pub mod Stale
mod Tests
use amqplex.Base.{ℕ, ◌≡◌, Bool, true, false, List, [], ◌∷◌, ◌++◌, Option, none, some}
use amqplex.Base.Maps.{Map, get?, insert, delete}
use amqplex.Frame.{Frame}
use amqplex.Upstream.{
  Upstream, Effect, deliver, abort, channel_closed, send_upstream, close_conn, read_round, returned,
  handle_upstream_failure, reconnected, mark_stopped_if_idle, start, write_frame_to_upstream,
}
use amqplex.Upstream.Steps.{pump, stop, attempt}
use amqplex.Client.{Client, on_channel_closed}
use amqplex.Session.{joined, rejected, join_upstream, goes_on, returns, client_round, end_session}

pub record System : Type 0 where
  pub upstream : Upstream
  pub sessions : Map Client

-- `entry.owner.OnChannelClosed(n)`, where the owner's session may have ended.
unfoldable pub tell_owner : Map Client → ℕ → ℕ → Option Client → Map Client
tell_owner sessions owner n none = sessions
tell_owner sessions owner n (some cc) = insert owner (on_channel_closed cc n) sessions

-- What the effects of `readLoop` do to the states of the clients.
unfoldable pub tell : List Effect → Map Client → Map Client
tell [] sessions = sessions
tell (deliver c f ∷ effects) sessions = tell effects sessions
tell (abort c ∷ effects) sessions = tell effects sessions
tell (channel_closed owner n ∷ effects) sessions =
    tell effects (tell_owner sessions owner n (get? owner sessions))
tell (send_upstream f ∷ effects) sessions = tell effects sessions
tell (close_conn c ∷ effects) sessions = tell effects sessions

-- A turn and what it does to the outside.
pub data Step (s : System) : List Effect → System → Type 0 where
  -- A client behind its handshake, whose object is new, comes to the upstream.
  joins :
      {m' : Upstream} (cc : Client) (now : ℕ)
      → get? cc.identity s.sessions ≡ none
      → cc.channel_mapping ≡ []
      → join_upstream s.upstream cc now ≡ joined m'
      → Step s [] (record { upstream = m'; sessions = insert cc.identity cc s.sessions })
  is_rejected :
      {m' : Upstream} {effects : List Effect} (cc : Client) (now : ℕ)
      → get? cc.identity s.sessions ≡ none
      → join_upstream s.upstream cc now ≡ rejected m' effects
      → Step s effects (record s { upstream = m' })
  -- A session reads a frame of its client, and goes on or returns.
  sends :
      {cc cc' : Client} {m' : Upstream} {effects : List Effect} (i : ℕ) (f : Frame)
      → get? i s.sessions ≡ some cc
      → client_round s.upstream cc f ≡ goes_on m' cc' effects
      → Step s effects (record { upstream = m'; sessions = insert i cc' s.sessions })
  leaves :
      {cc cc' : Client} {m' : Upstream} {effects : List Effect} (i now : ℕ) (f : Frame)
      → get? i s.sessions ≡ some cc
      → client_round s.upstream cc f ≡ returns m' cc' effects
      → Step s
          (effects ++ (end_session m' cc' now).2)
          (record { upstream = (end_session m' cc' now).0; sessions = delete i s.sessions })
  -- The client's connection breaks or is closed.
  breaks :
      {cc : Client} (i now : ℕ)
      → get? i s.sessions ≡ some cc
      → Step s
          (end_session s.upstream cc now).2
          (record { upstream = (end_session s.upstream cc now).0; sessions = delete i s.sessions })
  broker_sends :
      (f : Frame)
      → Step s (read_round s.upstream f).1 (record {
        upstream = (read_round s.upstream f).0;
        sessions = tell (read_round s.upstream f).1 s.sessions;
      })
  -- What the upstream does by itself.
  starts : (conn : ℕ) → Step s [] (record s { upstream = start s.upstream conn })
  writes :
      {m' : Upstream} (pick_done : Bool) (f : Frame)
      → write_frame_to_upstream pick_done s.upstream f ≡ returned m'
      → Step s [] (record s { upstream = m' })
  pumps : Step s [] (record s { upstream = pump s.upstream })
  fails :
      Step s
        (handle_upstream_failure s.upstream).1
        (record s { upstream = (handle_upstream_failure s.upstream).0 })
  attempts : Step s [] (record s { upstream = attempt s.upstream })
  reconnects :
      (conn now : ℕ)
      → s.upstream.reconnecting ≡ true
      → s.upstream.write_done ≡ false
      → Step s [] (record s { upstream = reconnected s.upstream conn now })
  sweeps :
      (timeout now : ℕ)
      → Step s
          (mark_stopped_if_idle s.upstream timeout now).2
          (record s { upstream = (mark_stopped_if_idle s.upstream timeout now).0 })
  stops : Step s [] (record s { upstream = stop s.upstream })

pub data Reach (s : System) : System → Type 0 where
  here : Reach s s
  next : {t u : System} (effects : List Effect) → Reach s t → Step t effects u → Reach s u
