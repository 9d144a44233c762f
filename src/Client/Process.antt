-- ===== src/Client/Process.antt =====
-- raiot-stclient/src/lib.rs: `process`, which sends and receives for a while and then handles every
-- packet that is complete.
pub mod Handling
pub mod Ending
use raiot_rs.Base.{
  ℕ, zero, suc, List, [], ◌++◌, Option, none, some, IoResult, ok, err, Call, returns, panics,
  Reader, Writer,
}
use raiot_rs.Protocol.Messages.{MsgFromHub}
use raiot_rs.Protocol.Mqtt.{VariablePacket, Crates}
use raiot_rs.Protocol.Errors.{Coded, done, fails, panicked}
use raiot_rs.Protocol.Decode.{decode_packet}
use raiot_rs.Packets.{Decoder}
use raiot_rs.Connection.{MqttConnection, read_connection, send_task, recv_task}
use raiot_rs.Client.{IotClient, Event, process_msg}

-- What `process` comes to: nothing when the fuel ran out, a panic, or the client with the handlers called.
abbrev pub Processed : (H J M S : Type 0) → Type 0
Processed H J M S = Option (Call (IotClient H S × List (Event H J M)))

-- `MAX_TASK_DURATION`, in milliseconds
abbrev pub max_task_duration : ℕ
max_task_duration = 5

module _ {H J M S : Type 0} where
  -- What a packet does, with its message and the rounds that follow.
  pub with_msg :
      Coded (MsgFromHub J M)
      → IotClient H S
      → List (Event H J M)
      → (IotClient H S → List (Event H J M) → Processed H J M S)
      → Processed H J M S
  with_msg (fails e) c events again = some panics
  with_msg panicked c events again = some panics
  with_msg (done msg) c events again = again (process_msg c msg).0 (events ++ (process_msg c msg).1)

module _ {H J M S : Type 0} (crates : Crates J M) (mqtt : Decoder VariablePacket) where
  -- What a round of the loop does with the result of `read`.
  pub with_packet :
      Call (IoResult (Option VariablePacket) × MqttConnection S)
      → IotClient H S
      → List (Event H J M)
      → (IotClient H S → List (Event H J M) → Processed H J M S)
      → Processed H J M S
  unfolding with_msg
  with_packet panics c events again = some panics
  with_packet (returns (err e, conn)) c events again = some panics
  with_packet (returns (ok none, conn)) c events again =
      some (returns (record c { connection = conn }, events))
  with_packet (returns (ok (some packet), conn)) c events again =
      with_msg (decode_packet crates packet) (record c { connection = conn }) events again

  -- The loop of `process` on fuel.
  unfoldable pub handle_packets : ℕ → IotClient H S → List (Event H J M) → Processed H J M S
  unfolding with_packet
  handle_packets zero c events = none
  handle_packets (suc fuel) c events =
      with_packet (read_connection mqtt c.connection) c events (λ c' es. handle_packets fuel c' es)

  module _ (writer : Writer S) (reader : Reader S) (send_clock recv_clock : ℕ → ℕ) where
    -- What `process` does after `recv_task`.
    pub received :
        ℕ
        → IotClient H S
        → Option (IoResult (Option VariablePacket) × MqttConnection S)
        → Processed H J M S
    unfolding handle_packets
    received fuel c none = none
    received fuel c (some (err e, conn)) = some panics
    received fuel c (some (ok _, conn)) = handle_packets fuel (record c { connection = conn }) []

    -- And after `send_task`.
    pub sent_some :
        ℕ → ℕ → IotClient H S → Option (IoResult ℕ × MqttConnection S) → Processed H J M S
    unfolding received
    sent_some fuel looks c none = none
    sent_some fuel looks c (some (err e, conn)) = some panics
    sent_some fuel looks c (some (ok _, conn)) =
        received fuel c (recv_task VariablePacket reader recv_clock max_task_duration looks conn)

    -- `process`, with fuel for packets and a number of looks at its clock for each task
    unfoldable pub process : ℕ → ℕ → IotClient H S → Processed H J M S
    unfolding sent_some
    process fuel looks c =
        sent_some fuel looks c (send_task writer send_clock max_task_duration looks c.connection)
