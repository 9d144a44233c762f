-- ===== src/Connection/Tests.antt =====
-- raiot-mqtt/src/connection.rs: sending to a socket that takes all it is given.
use raiot_rs.Base.{ℕ, ◌≡◌, refl, false, List, [], ◌∷◌, some, ok, arith}
use raiot_rs.Ring
use raiot_rs.Ring.{
  CircularBuffer, BufferSlice, consecutive, splitted, size, available_space, valid_length,
  peek_remaining, get_buffer_slice,
}
use raiot_rs.Ring.Valid.{IsValid}
use raiot_rs.Ring.Contents.{contents}
use raiot_rs.Packets.{PacketResult, packet, malformed}
use raiot_rs.Packets.Framing.{frame, judge}
use raiot_rs.Packets.Small.{decoder_of, small_reads}
use raiot_rs.Protocol.Mqtt.{VariablePacket, connack_packet, connection_accepted}
use raiot_rs.Connection.Receiving.{Filled, recv_task-Filled}
use raiot_rs.Connection.{recv_task, MqttConnection, MqttConnectionInProgress, send_task}
use raiot_rs.Connection.Handshake.{Ends, look, look-Ends}
use raiot_rs.Connection.Small.{open_socket, line}

-- Three bytes round the end of a buffer of four.
abbrev sending : MqttConnection (List ℕ)
sending = record {
  packetizer = record { buffer = record { buffer = 0 ∷ []; read = 0; write = 0; full = false } };
  streamer = record {
    buffer = record { buffer = 3 ∷ 9 ∷ 1 ∷ 2 ∷ []; read = 2; write = 1; full = false };
  };
  stream = 7 ∷ [];
}

send_task-sending :
    send_task open_socket (λ k. k) 5 9 sending
    ≡ some (
      ok 0,
      record {
        packetizer = sending.packetizer;
        streamer = record {
          buffer = record { buffer = 3 ∷ 9 ∷ 1 ∷ 2 ∷ []; read = 1; write = 1; full = false };
        };
        stream = 7 ∷ 1 ∷ 2 ∷ 3 ∷ [];
      },
    )
unfolding send_task Ring.write_into peek_remaining get_buffer_slice valid_length
send_task-sending = refl

-- A packet of four bytes is a CONNACK that accepts.
abbrev connack_of : List ℕ → PacketResult VariablePacket
connack_of (a ∷ b ∷ c ∷ d ∷ []) = packet (connack_packet connection_accepted)
connack_of bytes = malformed

-- All of it has come, with the first byte of the next packet.
abbrev answered : CircularBuffer
answered = record { buffer = 32 ∷ 2 ∷ 0 ∷ 0 ∷ 48 ∷ 0 ∷ []; read = 0; write = 5; full = false }

answered-IsValid : IsValid answered
answered-IsValid = record {
  positive = omega arith;
  small = omega arith;
  read_in = omega arith;
  write_in = omega arith;
  full_at = λ h. cc;
}

abbrev in_progress : MqttConnectionInProgress (List ℕ)
in_progress = record {
  packetizer = record { buffer = answered };
  streamer = sending.streamer;
  stream = [];
  stopwatch = 0;
  connect_timeout = 10;
}

look-Ends_example :
    Ends (decoder_of connack_of) in_progress (frame 4) (look (decoder_of connack_of) in_progress)
unfolding judge contents valid_length
look-Ends_example =
    look-Ends (decoder_of connack_of) in_progress (small_reads connack_of) answered-IsValid

-- Three bytes have come, and there is room for three more.
abbrev receiving : MqttConnection (List ℕ)
receiving = record {
  packetizer = record {
    buffer = record { buffer = 32 ∷ 2 ∷ 0 ∷ 0 ∷ 0 ∷ 0 ∷ []; read = 0; write = 3; full = false };
  };
  streamer = sending.streamer;
  stream = [];
}

receiving-IsValid : IsValid receiving.packetizer.buffer
receiving-IsValid = record {
  positive = omega arith;
  small = omega arith;
  read_in = omega arith;
  write_in = omega arith;
  full_at = λ h. cc;
}

recv_task-Filled_example :
    Filled VariablePacket line receiving (recv_task VariablePacket line (λ k. k) 5 9 receiving)
recv_task-Filled_example =
    recv_task-Filled VariablePacket line (λ k. k) 5 9 5 receiving receiving-IsValid (omega arith)
      (omega arith)
