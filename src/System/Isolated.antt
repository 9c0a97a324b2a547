-- ===== src/System/Isolated.antt =====
-- Every turn of the system keeps the upstream's tables and the clients' mappings in agreement.
use amqplex.Base.{ℕ, ◌≡◌, refl, sym, ◌∙◌, subst, arith, Bool, List, []}
use amqplex.Base.{if_elim}
use amqplex.Base.Maps.{Map, get?, delete}
use amqplex.Upstream.{
  Upstream, Effect, handle_upstream_failure, mark_stopped_if_idle, idle_for, reconnected, start,
  returned, write_frame_to_upstream,
}
use amqplex.Upstream.Invariant.{Inv}
use amqplex.Upstream.Steps.{pump, stop, attempt, written_only}
use amqplex.Upstream.Steps
use amqplex.Frame.{Frame}
use amqplex.Client.{Client}
use amqplex.Session.{goes_on, returns, client_round, end_session}
use amqplex.Session.Join.{is_new}
use amqplex.System.{
  System, Step, Reach, joins, is_rejected, sends, leaves, breaks, broker_sends, starts, writes,
  pumps, fails, attempts, reconnects, sweeps, stops, here, next,
}
use amqplex.System.Consistent.{
  Consistent, Fits, KeepsOthers, Keeps-KeepsOthers, Keeps-Consistent, insert-Consistent,
  delete-Consistent, absent-Consistent,
}
use amqplex.System.Turns.{Turned, TurnKeeps, client_round-TurnKeeps}
use amqplex.System.Leaving.{Reach-trans, end_session-Reach, end_session-KeepsOthers}
use amqplex.System.Joining.{Comes, join_upstream-Comes}
use amqplex.System.Broker.{read_round-Stays}

turn_keeps :
    (m m' : Upstream) (cl cl' : Client) (f : Frame) (effects : List Effect)
    → Inv m
    → client_round m cl f ≡ goes_on m' cl' effects
    → Turned m cl m' cl'
turn_keeps m m' cl cl' f effects v e = subst (TurnKeeps m cl) e (client_round-TurnKeeps m cl f v)

turn_returns :
    (m m' : Upstream) (cl cl' : Client) (f : Frame) (effects : List Effect)
    → Inv m
    → client_round m cl f ≡ returns m' cl' effects
    → Turned m cl m' cl'
turn_returns m m' cl cl' f effects v e = subst (TurnKeeps m cl) e (client_round-TurnKeeps m cl f v)

-- A turn of the system is a run of the operations of its upstream.
pub Step-Reach :
    {s t : System} {effects : List Effect}
    → Step s effects t
    → Inv s.upstream
    → Steps.Reach s.upstream t.upstream
Step-Reach {s = s} (joins cl now new fresh e) v =
    (subst (Comes s.upstream cl) e (join_upstream-Comes s.upstream cl now)).0
Step-Reach {s = s} (is_rejected cl now new e) v =
    (subst (Comes s.upstream cl) e (join_upstream-Comes s.upstream cl now)).0
Step-Reach {s = s} (sends {cc = cl} i f there e) v = (turn_keeps s.upstream _ cl _ f _ v e).0
Step-Reach {s = s} (leaves {cc = cl} {cc' = cl'} {m' = m'} i now f there e) v =
    Reach-trans (turn_returns s.upstream m' cl cl' f _ v e).0 (end_session-Reach m' cl' now)
Step-Reach {s = s} (breaks {cc = cl} i now there) v = end_session-Reach s.upstream cl now
Step-Reach (broker_sends f) v = Steps.next Steps.here (Steps.reads f)
Step-Reach (starts conn) v = Steps.next Steps.here (Steps.starts conn)
Step-Reach (writes pick_done f e) v = Steps.next Steps.here (Steps.writes pick_done f e)
Step-Reach pumps v = Steps.next Steps.here Steps.pumps
Step-Reach fails v = Steps.next Steps.here Steps.fails
Step-Reach attempts v = Steps.next Steps.here Steps.attempts
Step-Reach (reconnects conn now e alive) v =
    Steps.next Steps.here (Steps.reconnects conn now e alive)
Step-Reach (sweeps timeout now) v = Steps.next Steps.here (Steps.sweeps timeout now)
Step-Reach stops v = Steps.next Steps.here Steps.stops

-- A client that has opened nothing fits any tables.
fresh-Fits : (m : Upstream) (cc : Client) → cc.channel_mapping ≡ [] → Fits m cc.identity cc
unfolding get?
fresh-Fits m cl fresh = (refl, λ r c u h. absurd (ground (arith, fresh)))

Turned-Fits :
    (m m' : Upstream) (cc cc' : Client) (i : ℕ) → Turned m cc m' cc' → Fits m i cc → Fits m' i cc'
Turned-Fits m m' cl cl' i (reach, keep, named, owned) (at_i, owned_before) =
    (named ∙ at_i, λ r. owned (owned_before (keep.registered i r)))

leaving-Consistent :
    (m : Upstream) (sessions : Map Client) (cc : Client) (i now : ℕ)
    → cc.identity ≡ i
    → Consistent m sessions
    → Consistent (end_session m cc now).0 (delete i sessions)
leaving-Consistent m sessions cl i now named v =
    delete-Consistent m (end_session m cl now).0 sessions i
      (subst (λ j. KeepsOthers j m (end_session m cl now).0) named
        (end_session-KeepsOthers m cl now))
      v

-- After a reconnect nobody is registered.
reconnected-Consistent :
    (m : Upstream) (sessions : Map Client) (conn now : ℕ)
    → Consistent m sessions
    → Consistent (reconnected m conn now) sessions
unfolding reconnected is_new
reconnected-Consistent m sessions conn now v i cl e = ((v i cl e).0, λ r. cc)

written-Consistent :
    (m m' : Upstream) (sessions : Map Client) (pick_done : Bool) (f : Frame)
    → write_frame_to_upstream pick_done m f ≡ returned m'
    → Consistent m sessions
    → Consistent m' sessions
written-Consistent m m' sessions pick_done f e v =
    subst (λ u. Consistent u sessions) (sym (written_only m m' pick_done f e)) v

Step-Consistent :
    {s t : System} {effects : List Effect}
    → Step s effects t
    → Inv s.upstream
    → Consistent s.upstream s.sessions
    → Consistent t.upstream t.sessions
unfolding start pump attempt stop handle_upstream_failure mark_stopped_if_idle
Step-Consistent {s = s} (joins {m' = m'} cl now new fresh e) v k =
    insert-Consistent s.upstream m' s.sessions cl.identity cl
      (subst (Comes s.upstream cl) e (join_upstream-Comes s.upstream cl now)).1
      (fresh-Fits m' cl fresh) k
Step-Consistent {s = s} (is_rejected {m' = m'} cl now new e) v k =
    absent-Consistent s.upstream m' s.sessions cl.identity new
      (subst (Comes s.upstream cl) e (join_upstream-Comes s.upstream cl now)).1 k
Step-Consistent {s = s} (sends {cc = cl} {cc' = cl'} {m' = m'} i f there e) v k =
    let turned = turn_keeps s.upstream m' cl cl' f _ v e in
    insert-Consistent s.upstream m' s.sessions i cl' (Keeps-KeepsOthers i s.upstream m' turned.1)
      (Turned-Fits s.upstream m' cl cl' i turned (k i cl there)) k
Step-Consistent {s = s} (leaves {cc = cl} {cc' = cl'} {m' = m'} i now f there e) v k =
    let turned = turn_returns s.upstream m' cl cl' f _ v e in
    leaving-Consistent m' s.sessions cl' i now
      (Turned-Fits s.upstream m' cl cl' i turned (k i cl there)).0
      (Keeps-Consistent s.upstream m' s.sessions turned.1 k)
Step-Consistent {s = s} (breaks {cc = cl} i now there) v k =
    leaving-Consistent s.upstream s.sessions cl i now (k i cl there).0 k
Step-Consistent {s = s} (broker_sends f) v k = read_round-Stays s.sessions s.upstream f k
Step-Consistent (starts conn) v k = k
Step-Consistent {s = s} (writes {m' = m'} pick_done f e) v k =
    written-Consistent s.upstream m' s.sessions pick_done f e k
Step-Consistent pumps v k = k
Step-Consistent {s = s} fails v k =
    if_elim (λ (r : Upstream × List Effect × Bool). Consistent r.0 s.sessions)
      s.upstream.reconnecting (λ _. k) (λ _. k)
Step-Consistent attempts v k = k
Step-Consistent {s = s} (reconnects conn now e alive) v k =
    reconnected-Consistent s.upstream s.sessions conn now k
Step-Consistent {s = s} (sweeps timeout now) v k =
    if_elim (λ (r : Upstream × Bool × List Effect). Consistent r.0 s.sessions)
      (idle_for s.upstream timeout now s.upstream.last_empty_time) (λ _. k) (λ _. k)
Step-Consistent stops v k = k

-- The upstream's tables are well-formed, and every channel that a registered client has mapped is its
-- own on the upstream.
pub record IsIsolated (s : System) : Type 0 where
  pub inv : Inv s.upstream
  pub consistent : Consistent s.upstream s.sessions

-- A new upstream, and no client yet.
abbrev pub new_system : Upstream → System
new_system m = record { upstream = m; sessions = [] }

new_system-IsIsolated :
    (username password vhost : List ℕ) (n : ℕ)
    → IsIsolated (new_system (Steps.new_upstream username password vhost n))
unfolding get?
new_system-IsIsolated username password vhost n = record {
  inv = Steps.new_upstream-Inv username password vhost n;
  consistent = λ i cl e. cc;
}

Step-IsIsolated :
    {s t : System} {effects : List Effect} → Step s effects t → IsIsolated s → IsIsolated t
Step-IsIsolated st v = record {
  inv = Steps.Reach-keeps (Step-Reach st v.inv) v.inv;
  consistent = Step-Consistent st v.inv v.consistent;
}

pub Reach-keeps : {s t : System} → Reach s t → IsIsolated s → IsIsolated t
Reach-keeps here v = v
Reach-keeps (next effects r st) v = Step-IsIsolated st (Reach-keeps r v)

-- However the turns of the clients, of the broker and of the upstream interleave, with clients that
-- come and go, failures, reconnects, sweeps and stops: the upstream's tables are well-formed, and
-- every channel that a registered client has mapped belongs on the upstream to this client as this
-- channel.
pub Reach-IsIsolated :
    (username password vhost : List ℕ) (n : ℕ) (s : System)
    → Reach (new_system (Steps.new_upstream username password vhost n)) s
    → IsIsolated s
Reach-IsIsolated username password vhost n s r =
    Reach-keeps r (new_system-IsIsolated username password vhost n)
