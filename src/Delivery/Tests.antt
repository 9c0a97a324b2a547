-- ===== src/Delivery/Tests.antt =====
-- Two clients on one upstream.
use amqplex.Base.{ℕ, ◌≡◌, refl, arith, List, [], ◌∷◌, length}
use amqplex.Base.Maps.{get?, has, insert, delete}
use amqplex.Base.Words.{put_uint16, put_uint32}
use amqplex.Frame.{Frame, frame_header}
use amqplex.Frame.RoundTrip.{frame_bytes}
use amqplex.Method.{is_channel_close_ok}
use amqplex.Upstream.{Upstream, read_round, forward, close_owned, deliver_and_abort}
use amqplex.Upstream.Steps.{new_upstream}
use amqplex.Upstream.Pump.Order.{bytes_of}
use amqplex.Delivery.{read_rounds}
use amqplex.Delivery.Bytes.{usable_with, written_by}
use amqplex.Delivery.Addressed.{read_rounds-bytes}

-- Client 1 has channel 3 as 5, client 2 has channel 3 as 6.
abbrev two_clients : Upstream
two_clients = record (new_upstream [] [] [] 10) {
  clients = 1 ∷ 2 ∷ [];
  used_channels = insert 5 tt (insert 6 tt []);
  channel_owners =
      insert 5 (record { owner = 1; client_chan = 3 })
        (insert 6 (record { owner = 2; client_chan = 3 }) []);
}

-- A method frame without arguments.
abbrev method : ℕ → ℕ → ℕ → Frame
method channel class_id method_id = record {
  kind = 1;
  channel = channel;
  payload = 0 ∷ class_id ∷ 0 ∷ method_id ∷ [];
}

-- The answer to an open for each, a frame for the second, the answer to the first one's close, one
-- more on the closed channel, and the close of the connection.
abbrev sent : List Frame
sent =
    method 5 20 11
    ∷ method 6 20 11
    ∷ method 6 50 11
    ∷ method 5 20 41
    ∷ method 5 50 11
    ∷ method 0 10 50
    ∷ method 6 50 11
    ∷ []

abbrev received : List Frame
received = method 3 20 11 ∷ method 3 20 41 ∷ method 0 10 50 ∷ []

read_rounds-bytes_example :
    written_by 1
      (usable_with (record { written = []; room = 100 }))
      (read_rounds two_clients sent).1
    ≡ bytes_of received
unfolding read_round forward close_owned deliver_and_abort is_channel_close_ok get? has insert
    delete new_upstream bytes_of frame_bytes frame_header put_uint16 put_uint32
read_rounds-bytes_example =
    read_rounds-bytes 1 (record { written = []; room = 100 }) two_clients sent
      (omega arith, (omega arith, (omega arith, tt))) (omega arith)

received_bytes : length (bytes_of received) ≡ 36
unfolding bytes_of frame_bytes frame_header put_uint16 put_uint32
received_bytes = refl
