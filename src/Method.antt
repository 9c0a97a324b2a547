-- ===== src/Method.antt =====
-- proxy/connection.go: the tests that tell AMQP methods apart, and the method payloads that the proxy
-- builds itself.
use amqplex.Base.{
  ℕ, Bool, false, List, [], ◌∷◌, ◌++◌, ◌&&◌, ◌||◌, not, length, ltb, ◌==◌, if◌then◌else◌,
}
use amqplex.Base.Words.{put_uint16}
use amqplex.Wire.{serialize_short_string}
use amqplex.Frame.{Frame, serialize_method_header, frame_type_method, byte_at}

-- `frame.Type != FrameTypeMethod || len(frame.Payload) < 4`
is_short : Frame → Bool
is_short f = not (f.kind == frame_type_method) || ltb (length f.payload) 4

-- The first four bytes of the payload are 0, `c`, 0, `m`.
names_method : ℕ → ℕ → Frame → Bool
names_method c m f =
    (byte_at f.payload 0 == 0 && byte_at f.payload 1 == c)
    && (byte_at f.payload 2 == 0 && byte_at f.payload 3 == m)

unfoldable pub is_channel_open : Frame → Bool
unfolding is_short names_method
is_channel_open f = if is_short f then false else names_method 20 10 f

unfoldable pub is_channel_close_ok : Frame → Bool
unfolding is_short names_method
is_channel_close_ok f = if is_short f then false else names_method 20 41 f

-- Channel.Close (40) and Channel.CloseOk (41).
unfoldable pub is_channel_close : Frame → Bool
unfolding is_short
is_channel_close f =
    if is_short f
    then false
    else if not (byte_at f.payload 0 == 0) || not (byte_at f.payload 1 == 20)
    then false
    else byte_at f.payload 2 == 0 && (byte_at f.payload 3 == 40 || byte_at f.payload 3 == 41)

unfoldable pub is_connection_close : Frame → Bool
unfolding is_short names_method
is_connection_close f = if is_short f || not (f.channel == 0) then false else names_method 10 50 f

-- A lookup in the table `unsafeMethods`: Basic.Consume, Qos, Ack, Reject and Nack.
unfoldable pub is_unsafe_method : Frame → Bool
unfolding names_method
is_unsafe_method f =
    names_method 60 20 f
    || names_method 60 10 f
    || names_method 60 80 f
    || names_method 60 90 f
    || names_method 60 120 f

-- The ensure of `markChannelSafety`, and the lookup behind it.
unfoldable pub marks_unsafe : Frame → Bool
unfolding is_short is_unsafe_method
marks_unsafe f = if is_short f then false else is_unsafe_method f

unfoldable pub serialize_connection_close : ℕ → List ℕ → List ℕ
serialize_connection_close reply_code reply_text =
    serialize_method_header (record { class_id = 10; method_id = 50 })
    ++ (put_uint16 reply_code ++ (serialize_short_string reply_text ++ (0 ∷ 0 ∷ 0 ∷ 0 ∷ [])))

-- The payload of the Channel.Close that `releaseClientChannels` sends.
unfoldable pub channel_close_payload : List ℕ
channel_close_payload =
    serialize_method_header (record { class_id = 20; method_id = 40 })
    ++ (0 ∷ 0 ∷ (serialize_short_string [] ++ (0 ∷ 0 ∷ 0 ∷ 0 ∷ [])))
