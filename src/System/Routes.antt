-- ===== src/System/Routes.antt =====
-- Where the frames of registered clients go, and the broker's frames on their channels.
use amqplex.Base.{ℕ, ◌≡◌, ◌≢◌, ◌∙◌, ap, arith, false, List, [], ◌∷◌, some}
use amqplex.Base.{
  ==_ne, refl, Bool, true, false, ◌⊎◌, inl, inr, if_elim, ◌++◌, ◌≤◌, ltb, length, ◌||◌, ◌&&◌,
}
use amqplex.Base.Maps.{get?}
use amqplex.Frame.{Frame, frame_type_heartbeat}
use amqplex.Method.{is_channel_open, is_channel_close_ok, is_connection_close}
use amqplex.Upstream.{
  Upstream, deliver, send_upstream, remap, read_round, Sent, returned, blocks, write_capacity,
  write_frame_to_upstream,
}
use amqplex.Upstream.Steps.{new_upstream}
use amqplex.Client.{Client}
use amqplex.Session.{goes_on, client_round, pass_on}
use amqplex.Session.Open.{forward-owner}
use amqplex.Session.Rounds.{after_round}
use amqplex.System.{System, Reach}
use amqplex.System.Consistent.{IsRegistered}
use amqplex.System.Isolated.{IsIsolated, Reach-IsIsolated, new_system}

-- A client's session, registered, with its channel `c` mapped to `u`.
pub record HasMapped (s : System) (i : ℕ) (cc : Client) (c : ℕ) (u : ℕ) : Type 0 where
  pub session : get? i s.sessions ≡ some cc
  pub registered : IsRegistered i s.upstream
  pub mapped : get? c cc.channel_mapping ≡ some u

owner_of :
    (s : System) (i : ℕ) (cc : Client) (c u : ℕ)
    → IsIsolated s
    → HasMapped s i cc c u
    → get? u s.upstream.channel_owners ≡ some (record { owner = i; client_chan = c })
owner_of s i cl c u v h =
    let (named, owned) = v.consistent i cl h.session in
    owned h.registered c u h.mapped ∙ ap (λ j. some (record { owner = j; client_chan = c })) named

pub mapped_passes :
    (m : Upstream) (cc : Client) (f : Frame) (u : ℕ)
    → get? f.channel cc.channel_mapping ≡ some u
    → f.kind ≢ frame_type_heartbeat
    → is_connection_close f ≡ false
    → is_channel_open f ≡ false
    → client_round m cc f ≡ goes_on m (after_round cc f) (send_upstream (remap u f) ∷ [])
unfolding client_round pass_on
mapped_passes m cl f u e hb close open' =
    simp (==_ne f.kind frame_type_heartbeat hb, close, open', e)

-- In every state that the turns of the clients, the broker and the upstream lead to: no two channels
-- that registered clients have mapped, of two clients or of one, share an upstream channel.
pub channels_apart :
    (username password vhost : List ℕ) (n : ℕ) (s : System)
    → Reach (new_system (new_upstream username password vhost n)) s
    → (i j c d u : ℕ) (cc cc' : Client) → HasMapped s i cc c u
    → HasMapped s j cc' d u
    → (i ≡ j) × (c ≡ d)
channels_apart username password vhost n s r i j c d u cl cl' h h' =
    let v = Reach-IsIsolated username password vhost n s r in
    ground (arith, owner_of s i cl c u v h, owner_of s j cl' d u v h')

-- What becomes of a frame for the broker: it is put behind the frames that wait for the pump; or it is
-- dropped, by an upstream that is stopped or reconnecting or whose pump is told to stop; or the caller
-- waits, while the channel to the pump is full.
abbrev pub IsQueued : Upstream → Frame → Sent → Type 0
IsQueued m f (returned m') =
    (m' ≡ record m { write_ch = m.write_ch ++ (f ∷ []) })
    ⊎ ((m' ≡ m) × ((m.stopped ≡ true) ⊎ ((m.reconnecting ≡ true) ⊎ (m.write_done ≡ true))))
IsQueued m f blocks = write_capacity ≤ length m.write_ch

write_frame_to_upstream-IsQueued :
    (pick_done : Bool) (m : Upstream) (f : Frame)
    → IsQueued m f (write_frame_to_upstream pick_done m f)
unfolding write_frame_to_upstream
write_frame_to_upstream-IsQueued pick_done m f =
    if_elim (IsQueued m f) (m.stopped || m.reconnecting)
      (λ off. inr (refl, either m.stopped m.reconnecting off))
      λ _.
        if_elim (IsQueued m f) (ltb (length m.write_ch) write_capacity)
          (λ _.
            if_elim (IsQueued m f) (m.write_done && pick_done)
              (λ done. inr (refl, inr (inr (ground (arith, done))))) (λ _. inl refl))
          (λ full.
            if_elim (IsQueued m f) m.write_done (λ done. inr (refl, inr (inr done)))
              (λ _. ground (arith, full)))
  where
    either : (a b : Bool) → (a || b) ≡ true → (a ≡ true) ⊎ ((b ≡ true) ⊎ (m.write_done ≡ true))
    either true b h = inl refl
    either false b h = inr (inl h)

-- In every state that the turns of the clients, the broker and the upstream lead to, where a
-- registered client has mapped its channel `c` to `u`: what it sends on `c` is handed to the upstream
-- for the broker under the number `u`. There it is put behind the frames that wait for the pump; or it
-- is dropped, only where the upstream is stopped or reconnecting or its pump is told to stop; or the
-- client waits, only where the channel to the pump is full. And what the broker sends on `u` is
-- delivered to the client, and to nobody else, on `c`. Set apart are heartbeats, Connection.Close and
-- Channel.Open from the client, and from the broker heartbeats, channel 0 and Channel.CloseOk.
pub routes_both_ways :
    (username password vhost : List ℕ) (n : ℕ) (s : System)
    → Reach (new_system (new_upstream username password vhost n)) s
    → (i c u : ℕ) (cc : Client) (f g : Frame) (pick_done : Bool) → HasMapped s i cc c u
    → f.channel ≡ c
    → f.kind ≢ frame_type_heartbeat
    → is_connection_close f ≡ false
    → is_channel_open f ≡ false
    → g.channel ≡ u
    → g.kind ≢ frame_type_heartbeat
    → g.channel ≢ 0
    → is_channel_close_ok g ≡ false
    → (client_round s.upstream cc f
        ≡ goes_on s.upstream (after_round cc f) (send_upstream (remap u f) ∷ []))
      × IsQueued s.upstream (remap u f) (write_frame_to_upstream pick_done s.upstream (remap u f))
      × (read_round s.upstream g ≡ (s.upstream, deliver i (remap c g) ∷ []))
routes_both_ways username password vhost n s r i c u cl f g pick_done h on hb close op at_u hb' nz
      ok =
    let v = Reach-IsIsolated username password vhost n s r in
    (
      mapped_passes s.upstream cl f u (ap (λ k. get? k cl.channel_mapping) on ∙ h.mapped) hb close
          op,
      write_frame_to_upstream-IsQueued pick_done s.upstream (remap u f),
      forward-owner s.upstream g i c
          (ap (λ k. get? k s.upstream.channel_owners) at_u ∙ owner_of s i cl c u v h) hb' nz ok,
    )
