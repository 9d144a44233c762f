-- ===== src/Client/Tests.antt =====
-- raiot-stclient/src/lib.rs: a client that subscribes and is answered, and the theorems at concrete
-- inputs.
use raiot_rs.Base.{
  ℕ, ◌*◌, ◌≡◌, refl, Bool, true, false, [], ◌∷◌, some, ok, err, List, not_connected, Writer,
  returns, arith,
}
use raiot_rs.Protocol.Text.{Text, codes}
use raiot_rs.Protocol.Types.{at_least_once, from_device_id}
use raiot_rs.Protocol.Messages.{SubError}
use raiot_rs.Protocol.Plain.{plain_crates, tiny_encoder}
use raiot_rs.Protocol.Mqtt.{VariablePacket}
use raiot_rs.Protocol.Encode.{encode_message}
use raiot_rs.Packets.{write_packet}
use raiot_rs.Ring
use raiot_rs.Ring.{
  available_space, valid_length, append_all_bytes, append_from_reader, get_buffer_slice,
  peek_remaining,
}
use raiot_rs.Ring.Slice.{bytes_of}
use raiot_rs.Connection.{write_connection}
use raiot_rs.Packets.{
  PacketResult, packet, malformed, get_next_packet, finish_packet, with_header, take_packet,
}
use raiot_rs.Packets.Small.{decoder_of, small_reads}
use raiot_rs.Connection.Small.{silent, open_socket}
use raiot_rs.Ring.Valid.{IsValid}
use raiot_rs.Client.Process.{process}
use raiot_rs.Client.Process.Ending.{Ended, process-Ended}
use raiot_rs.Protocol.Mqtt.{connack_packet, connection_accepted}
use raiot_rs.Connection.Handshake.{
  complete, read_all, read_round, look, answered_in, answered, process_connack,
}
use raiot_rs.Client.Connecting.{
  IotConnectionInProgress, connected, new_client, completed, complete_client,
}
use raiot_rs.Client.{
  unsubscribed, subscribing, subscribed, sub_failed, IotClient, want_methods, perform,
  process_sub_res, next,
}
use raiot_rs.Client.Fresh.{IsFresh, perform-IsFresh}
use raiot_rs.Client.Completion.{process_sub_res_lem}

-- A device that waits for two answers, 4 for its twin and 5 for its messages. Handlers are numbers.
abbrev waiting : IotClient ℕ Bool
waiting = record {
  connection = record {
    packetizer = record { buffer = record { buffer = 0 ∷ []; read = 0; write = 0; full = false } };
    streamer = record {
      buffer = record { buffer = 0 ∷ 0 ∷ []; read = 1; write = 1; full = false };
    };
    stream = true;
  };
  client_id = from_device_id (codes "pump");
  packets_numerator = record { value = 5 };
  twin_reads = subscribing 10 11 (record { value = 4 });
  dmi = unsubscribed;
  twin_updates = subscribed 12;
  c2d = subscribing 13 14 (record { value = 5 });
}

waiting-IsFresh : IsFresh waiting
waiting-IsFresh = record {
  below = (omega arith, omega arith, tt, tt);
  first = (omega arith, tt, tt);
  others = (tt, tt, tt);
}

abbrev asked : IotClient ℕ Bool
asked = record waiting {
  connection = record {
    packetizer = waiting.connection.packetizer;
    streamer = record {
      buffer = record { buffer = 0 ∷ 1 ∷ []; read = 1; write = 0; full = false };
    };
    stream = true;
  };
  packets_numerator = record { value = 6 };
  dmi = subscribing 20 9 (record { value = 6 });
}

perform-waiting :
    perform plain_crates tiny_encoder 9 waiting (want_methods at_least_once 20) ≡ returns asked
unfolding perform next encode_message write_connection write_packet Ring.write append_all_bytes
    available_space
perform-waiting = refl

perform-IsFresh_example : IsFresh asked
perform-IsFresh_example =
    perform-IsFresh plain_crates tiny_encoder 9 waiting (want_methods at_least_once 20)
      waiting-IsFresh (omega arith) perform-waiting

-- The second subscription is refused, and its error handler is called.
process_sub_res_lem_example :
    process_sub_res {J = Text} {M = Text} waiting
      (record { packet_id = record { value = 5 }; result = err SubError.failure })
    ≡ (record waiting { c2d = unsubscribed }, sub_failed 14 SubError.failure ∷ [])
process_sub_res_lem_example =
    process_sub_res_lem waiting
      (record { packet_id = record { value = 5 }; result = err SubError.failure }) waiting-IsFresh

abbrev closed : Writer (List ℕ)
closed = record {
  write = λ bytes s. (err not_connected, s);
  sent = λ s. s;
  write_le = λ bytes s n e. cc;
  write_sent = λ bytes s n e. cc;
  write_failed = λ bytes s e h. refl;
}

-- A packet of four bytes is a CONNACK that accepts.
abbrev connack_of : List ℕ → PacketResult VariablePacket
connack_of (a ∷ b ∷ c ∷ d ∷ []) = packet (connack_packet connection_accepted)
connack_of bytes = malformed

-- CONNECT was sent, and the answer is there.
abbrev in_progress : IotConnectionInProgress (List ℕ)
in_progress = record {
  connection = record {
    packetizer = record {
      buffer = record { buffer = 32 ∷ 2 ∷ 0 ∷ 0 ∷ 0 ∷ []; read = 0; write = 4; full = false };
    };
    streamer = record { buffer = record { buffer = 0 ∷ []; read = 0; write = 0; full = false } };
    stream = [];
    stopwatch = 0;
    connect_timeout = 10;
  };
  client_id = from_device_id (codes "pump");
}

abbrev completed_client : IotClient ℕ (List ℕ)
completed_client =
    new_client
      (record {
        packetizer = record {
          buffer = record { buffer = 32 ∷ 2 ∷ 0 ∷ 0 ∷ 0 ∷ []; read = 4; write = 4; full = false };
        };
        streamer = record {
          buffer = record { buffer = 0 ∷ []; read = 0; write = 0; full = false };
        };
        stream = [];
      })
      (from_device_id (codes "pump"))

completes :
    complete_client (decoder_of connack_of) silent closed 1 5 in_progress
    ≡ some (returns (ok (connected completed_client)))
unfolding complete_client completed complete read_all read_round look answered_in answered
    process_connack append_from_reader get_next_packet with_header take_packet finish_packet
    Ring.is_empty available_space valid_length Ring.peek Ring.read_bytes get_buffer_slice bytes_of
completes = refl

-- A CONNACK has come after the connection was made, and three bytes wait to go out.
abbrev subscriber : IotClient ℕ (List ℕ)
subscriber = record completed_client {
  connection = record {
    packetizer = in_progress.connection.packetizer;
    streamer = record {
      buffer = record { buffer = 3 ∷ 9 ∷ 1 ∷ 2 ∷ []; read = 2; write = 1; full = false };
    };
    stream = [];
  };
}

subscriber-IsValid : IsValid subscriber.connection.packetizer.buffer
subscriber-IsValid = record {
  positive = omega arith;
  small = omega arith;
  read_in = omega arith;
  write_in = omega arith;
  full_at = λ h. cc;
}

process-Ended_example :
    Ended plain_crates
      (decoder_of connack_of)
      open_socket
      silent
      (λ k. k)
      (λ k. 2 * k)
      6
      subscriber
      (process plain_crates
        (decoder_of connack_of)
        open_socket
        silent
        (λ k. k)
        (λ k. 2 * k)
        7
        6
        subscriber)
process-Ended_example =
    process-Ended plain_crates (decoder_of connack_of) open_socket silent (λ k. k) (λ k. 2 * k) 6
      (small_reads connack_of) 7 subscriber 5 3 subscriber-IsValid (omega arith) (omega arith)
      (omega arith) (omega arith) (omega arith)
