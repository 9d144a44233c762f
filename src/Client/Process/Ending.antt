-- ===== src/Client/Process/Ending.antt =====
-- raiot-stclient/src/lib.rs: `process` ends.
use raiot_rs.Base.{
  ℕ, ◌≤◌, ◌<◌, ◌≡◌, refl, ap, ◌∙◌, List, [], ◌++◌, Option, none, some, IoResult, ErrorKind, ok, err,
  panics, Reader, Writer, arith,
}
use raiot_rs.Ring.{size}
use raiot_rs.Ring.Valid.{IsValid, available_space-add-valid_length}
use raiot_rs.Ring.Contents.{contents, length-contents}
use raiot_rs.Protocol.Mqtt.{VariablePacket, Crates}
use raiot_rs.Packets.{Decoder}
use raiot_rs.Packets.Framing.{ReadsHeaders}
use raiot_rs.Connection.{MqttConnection, send_task, recv_task}
use raiot_rs.Connection.Sending.{send_task-Over}
use raiot_rs.Connection.Receiving.{Filled, recv_task-Filled}
use raiot_rs.Client.{IotClient}
use raiot_rs.Client.Process.{Processed, max_task_duration, received, sent_some, process}
use raiot_rs.Client.Process.Handling.{held_by, room_of, Handled, handle_packets-Handled}

module _ {S : Type 0} (looks : ℕ) (clock : ℕ → ℕ) where
  abbrev pub send : Writer S → MqttConnection S → Option (IoResult ℕ × MqttConnection S)
  send writer = send_task writer clock max_task_duration looks

  abbrev pub receive :
      Reader S → MqttConnection S → Option (IoResult (Option VariablePacket) × MqttConnection S)
  receive reader = recv_task VariablePacket reader clock max_task_duration looks

module _ {H J M S : Type 0} (crates : Crates J M) (mqtt : Decoder VariablePacket)
    (writer : Writer S) (reader : Reader S) (send_clock recv_clock : ℕ → ℕ) (looks : ℕ) where
  -- The call has ended: by a panic on an error of one of its tasks, or after its loop over the packets in
  -- the bytes that waited before and those that arrived.
  pub data Ended (c : IotClient H S) (run : Processed H J M S) : Type 0 where
    send_failed :
        (e : ErrorKind) (conn : MqttConnection S)
        → send looks send_clock writer c.connection ≡ some (err e, conn)
        → run ≡ some panics
        → Ended c run
    recv_failed :
        (n : ℕ) (e : ErrorKind) (conn conn' : MqttConnection S)
        → send looks send_clock writer c.connection ≡ some (ok n, conn)
        → receive looks recv_clock reader conn ≡ some (err e, conn')
        → run ≡ some panics
        → Ended c run
    handled :
        (n : ℕ) (conn conn' : MqttConnection S) (bytes : List ℕ)
        → send looks send_clock writer c.connection ≡ some (ok n, conn)
        → receive looks recv_clock reader conn ≡ some (ok none, conn')
        → contents conn'.packetizer.buffer ≡ held_by c ++ bytes
        → reader.given conn'.stream ≡ reader.given conn.stream ++ bytes
        → Handled crates mqtt run (record c { connection = conn' }) []
        → Ended c run

  module _ (std : ReadsHeaders mqtt) (fuel : ℕ) (c : IotClient H S) where
    received-Ended :
        (n : ℕ) (conn conn' : MqttConnection S) (res : IoResult (Option VariablePacket))
        (bytes : List ℕ)
        → send looks send_clock writer c.connection ≡ some (ok n, conn)
        → receive looks recv_clock reader conn ≡ some (res, conn')
        → ((found : Option VariablePacket) → res ≡ ok found → found ≡ none)
        → contents conn'.packetizer.buffer ≡ held_by c ++ bytes
        → reader.given conn'.stream ≡ reader.given conn.stream ++ bytes
        → IsValid conn'.packetizer.buffer
        → size conn'.packetizer.buffer < fuel
        → Ended c
            (received crates mqtt writer reader send_clock recv_clock fuel c (some (res, conn')))
    unfolding received
    received-Ended n conn conn' (err e) bytes s r empty held handed v enough =
        recv_failed n e conn conn' s r refl
    received-Ended n conn conn' (ok found) bytes s r empty held handed v enough =
        let same : ok found ≡ ok none = ap ok (empty found refl) in
        handled n conn conn' bytes s (r ∙ ap (λ x. some (x, conn')) same) held handed (
          handle_packets-Handled crates mqtt std fuel (record c { connection = conn' }) [] v
            (omega (arith, length-contents v, available_space-add-valid_length v)))

    sent-Ended :
        (conn : MqttConnection S) (res : IoResult ℕ)
        → send looks send_clock writer c.connection ≡ some (res, conn)
        → conn.packetizer ≡ c.connection.packetizer
        → Filled VariablePacket reader conn (receive looks recv_clock reader conn)
        → room_of c < fuel
        → Ended c (
            sent_some crates mqtt writer reader send_clock recv_clock fuel looks c
              (some (res, conn)))
    unfolding sent_some
    sent-Ended conn (err e) s same f enough = send_failed e conn s refl
    sent-Ended conn (ok n) s same f enough =
        let bytes = ap (λ p. contents p.buffer) same in
        let fits : size f.after.packetizer.buffer < fuel =
          omega (arith, f.same, ap (λ p. size p.buffer) same) in
        rw f.ended (
          received-Ended n conn f.after f.res f.bytes s f.ended f.empty
            (f.held ∙ ap (λ xs. xs ++ f.bytes) bytes) f.handed f.valid fits)

    -- With a valid incoming buffer `process` ends, when the clock reaches five milliseconds at one of the
    -- looks of each of its tasks, with fuel for more packets than that buffer has bytes. It panics on an
    -- error of a task. Otherwise it handles the packets in what waited before and what has arrived since,
    -- one after the other from the front: the message of each goes to `process_msg` in its turn, what that
    -- calls is added to the events, and it returns when no complete packet is left, or panics at the first
    -- bytes that begin with no packet or with one that is no message of the hub.
    pub process-Ended :
        (k l : ℕ)
        → IsValid c.connection.packetizer.buffer
        → k < looks
        → max_task_duration ≤ send_clock k
        → l < looks
        → max_task_duration ≤ recv_clock l
        → room_of c < fuel
        → Ended c (process crates mqtt writer reader send_clock recv_clock fuel looks c)
    unfolding process
    process-Ended k l vp lk late ll late' enough =
        let w = send_task-Over writer send_clock max_task_duration looks k c.connection lk late in
        let f =
          recv_task-Filled VariablePacket reader recv_clock max_task_duration looks l w.after
            (rw w.incoming vp) ll late' in
        rw w.ended (sent-Ended w.after w.res w.ended w.incoming f enough)
