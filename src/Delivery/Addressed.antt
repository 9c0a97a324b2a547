-- ===== src/Delivery/Addressed.antt =====
-- proxy/managed_upstream.go: which frames of the broker `readLoop` writes to the connection of a
-- client.
use amqplex.Base.{
  ℕ, ◌≡◌, ◌≤◌, refl, subst, Bool, false, List, [], ◌∷◌, ◌++◌, Option, none, some, if◌then◌else◌,
  ◌==◌, ◌&&◌, ◌||◌, length, Bool-cases, inl, inr,
}
use amqplex.Base.Maps.{get?, has}
use amqplex.Frame.{Frame, frame_type_heartbeat}
use amqplex.Frame.Stream.{Writer}
use amqplex.Method.{is_channel_close_ok}
use amqplex.Upstream.{
  Upstream, ChannelEntry, Effect, read_round, remap, deliver_and_abort, forward, close_owned,
}
use amqplex.Upstream.Pump.Order.{bytes_of}
use amqplex.Delivery.{read_rounds}
use amqplex.Delivery.Bytes.{delivered, AreSmall, usable_with, written_by, Writes, happen_all-Writes}

-- Whether a client is among these.
abbrev among_clients : ℕ → List ℕ → Bool
among_clients c [] = false
among_clients c (x ∷ xs) = let later = among_clients c xs in x == c || later

-- The frame for the owner of its channel, under the owner's number.
abbrev for_owner : ℕ → Frame → Option ChannelEntry → List Frame
for_owner c f none = []
for_owner c f (some entry) = if entry.owner == c then remap entry.client_chan f ∷ [] else []

abbrev for_client : ℕ → Upstream → Frame → List Frame
for_client c m f =
    if is_channel_close_ok f && has f.channel m.pending_close
    then []
    else for_owner c f (get? f.channel m.channel_owners)

-- What the frames of the broker are to a client, the table of owners changing with them: heartbeats
-- are nothing to it; one on channel 0 is the last for a registered client; one on another channel is
-- for the owner of the channel, but for the answer to a close that the proxy sent.
abbrev pub addressed : ℕ → Upstream → List Frame → List Frame
addressed c m [] = []
addressed c m (f ∷ fs) =
    let later = addressed c (read_round m f).0 fs in
    if f.kind == frame_type_heartbeat
    then later
    else if f.channel == 0
    then (if among_clients c m.clients then f ∷ [] else later)
    else for_client c m f ++ later

delivered-deliver_and_abort :
    (c : ℕ) (cs : List ℕ) (f : Frame) (es : List Effect)
    → delivered c (deliver_and_abort cs f ++ es)
      ≡ (if among_clients c cs then f ∷ [] else delivered c es)
unfolding deliver_and_abort
delivered-deliver_and_abort c [] f es = refl
delivered-deliver_and_abort c (x ∷ cs) f es = elim (Bool-cases (x == c)) [
  | inl mine ↦ rw mine refl
  | inr other ↦ rw other (delivered-deliver_and_abort c cs f es)
]

delivered-forward :
    (c : ℕ) (m : Upstream) (f : Frame) (o : Option ChannelEntry) (es : List Effect)
    → (delivered c ((forward m f o).1 ++ es) ≡ for_owner c f o ++ delivered c es)
      × (delivered c ((close_owned m f o).1 ++ es) ≡ for_owner c f o ++ delivered c es)
unfolding forward close_owned
delivered-forward c m f none es = (refl, refl)
delivered-forward c m f (some entry) es = elim (Bool-cases (entry.owner == c)) [
  | inl mine ↦ rw mine (refl, refl)
  | inr other ↦ rw other (refl, refl)
]

delivered-read_round :
    (c : ℕ) (m : Upstream) (f : Frame) (es : List Effect)
    → delivered c ((read_round m f).1 ++ es) ≡ (
        if f.kind == frame_type_heartbeat
        then delivered c es
        else if f.channel == 0
        then (if among_clients c m.clients then f ∷ [] else delivered c es)
        else for_client c m f ++ delivered c es)
unfolding read_round
delivered-read_round c m f es = elim (Bool-cases (f.kind == frame_type_heartbeat)) [
  | inl beat ↦ rw beat refl
  | inr other ↦ elim (Bool-cases (f.channel == 0)) [
    | inl zero_ ↦ rw (other, zero_) (delivered-deliver_and_abort c m.clients f es)
    | inr numbered ↦ elim (Bool-cases (is_channel_close_ok f)) [
      | inr plain ↦
          rw (other, numbered, plain)
            (delivered-forward c m f (get? f.channel m.channel_owners) es).0
      | inl answer ↦ elim (Bool-cases (has f.channel m.pending_close)) [
        | inl pending ↦ rw (other, numbered, answer, pending) refl
        | inr owned ↦
            rw (other, numbered, answer, owned)
              (delivered-forward c m f (get? f.channel m.channel_owners) es).1
      ]
    ]
  ]
]

delivered-read_rounds :
    (c : ℕ) (m : Upstream) (fs : List Frame) → delivered c (read_rounds m fs).1 ≡ addressed c m fs
unfolding read_rounds
delivered-read_rounds c m [] = refl
delivered-read_rounds c m (f ∷ fs) =
    rw
      (
        delivered-read_round c m f (read_rounds (read_round m f).0 fs).1,
        delivered-read_rounds c (read_round m f).0 fs,
      )
      refl

-- On any upstream and for any frames that the broker sends one after another: what `readLoop` writes
-- to the connection of a client are the bytes of the frames for this client, in the order the broker
-- sent them, each under the client's own channel number, and nothing else. For it are the frames on
-- channels that it owns when they come, among them the answer to its own close, but not the answer to
-- a close of the proxy; and, if it is registered, the first frame on channel 0 that is no heartbeat,
-- after which nothing more is written to it. This is where the connection is usable and takes these
-- bytes, with no payload over the limit.
pub read_rounds-bytes :
    (c : ℕ) (v : Writer) (m : Upstream) (fs : List Frame)
    → AreSmall (addressed c m fs)
    → length (bytes_of (addressed c m fs)) ≤ v.room
    → written_by c (usable_with v) (read_rounds m fs).1 ≡ v.written ++ bytes_of (addressed c m fs)
read_rounds-bytes c v m fs =
    subst (Writes c v (read_rounds m fs).1) (delivered-read_rounds c m fs)
      (happen_all-Writes c v (read_rounds m fs).1)
