-- ===== src/FrameProxy.antt =====
-- proxy/frame_proxy.go: a remapping pair of writers for one client. A nil writer is `none`.
use amqplex.Base.{ℕ, ◌≡◌, ◌≢◌, Option, none, some, if◌then◌else◌, ◌==◌, ==_ne}
use amqplex.Base.Maps.{get?}
use amqplex.Base.Result.{Result, ok, ◌>>=◌}
use amqplex.Frame.{Frame, write_frame}
use amqplex.Frame.Stream.{Writer}
use amqplex.Upstream.{remap}
use amqplex.Client.{Client}
use amqplex.Client.Mapping.{AreInverse}

pub record FrameProxy : Type 0 where
  pub client_conn : Client
  pub upstream_writer : Option Writer
  pub client_writer : Option Writer

-- The frame under a mapped number, and as it is without a mapping.
abbrev pub remap_if_mapped : Option ℕ → Frame → Frame
remap_if_mapped none f = f
remap_if_mapped (some channel) f = remap channel f

write_upstream : FrameProxy → Frame → Option Writer → Result FrameProxy
write_upstream fp f none = ok fp
write_upstream fp f (some w) = do w' ← write_frame w f; ok (record fp { upstream_writer = some w' })

unfoldable pub proxy_client_to_upstream : FrameProxy → Frame → Result FrameProxy
unfolding write_upstream
proxy_client_to_upstream fp f =
    write_upstream fp (remap_if_mapped (get? f.channel fp.client_conn.channel_mapping) f)
      fp.upstream_writer

write_client : FrameProxy → Writer → Frame → Result FrameProxy
write_client fp w f = do w' ← write_frame w f; ok (record fp { client_writer = some w' })

write_mapped : FrameProxy → Writer → Frame → Option ℕ → Result FrameProxy
unfolding write_client
write_mapped fp w f none = ok fp
write_mapped fp w f (some client_id) = write_client fp w (remap client_id f)

to_client : FrameProxy → Frame → Option Writer → Result FrameProxy
unfolding write_client write_mapped
to_client fp f none = ok fp
to_client fp f (some w) =
    if f.channel == 0
    then write_client fp w f
    else write_mapped fp w f (get? f.channel fp.client_conn.reverse_mapping)

unfoldable pub proxy_upstream_to_client : FrameProxy → Frame → Result FrameProxy
unfolding to_client
proxy_upstream_to_client fp f = to_client fp f fp.client_writer

-- A frame that the client sends on a mapped channel goes out under the upstream number, and the same
-- frame coming back under that number is written to the client under the client's number again.
pub proxy_round_trip :
    (fp : FrameProxy) (uw cw : Writer) (f : Frame) (u : ℕ)
    → AreInverse fp.client_conn
    → fp.upstream_writer ≡ some uw
    → fp.client_writer ≡ some cw
    → get? f.channel fp.client_conn.channel_mapping ≡ some u
    → u ≢ 0
    → (proxy_client_to_upstream fp f
        ≡ (write_frame uw (remap u f) >>= λ w. ok (record fp { upstream_writer = some w })))
      × (proxy_upstream_to_client fp (remap u f)
          ≡ (write_frame cw f >>= λ w. ok (record fp { client_writer = some w })))
unfolding proxy_client_to_upstream proxy_upstream_to_client
proxy_round_trip fp uw cw f u v hu hc m ne =
    (simp (hu, m), simp (hc, v.there f.channel u m, ==_ne u 0 ne))
