-- ===== src/Socket/Ctl/Shared.antt =====
-- raiot-client/src/iot_socket.rs: two messages that carry the same identifier.
use raiot_rs.Base.{ℕ, ◌≡◌, ◌≢◌, refl, List, none, returns, arith}
use raiot_rs.Packets.{Encoder}
use raiot_rs.Protocol.Messages.{publication_succeeded}
use raiot_rs.Protocol.Mqtt.{VariablePacket, Crates}
use raiot_rs.Protocol.Types.{PacketId}
use raiot_rs.Socket.{acknowledged}
use raiot_rs.Socket.Ctl.{NonblockingSocket, find, IotSocketCtl, handle_ack, handle_incoming_msg}
use raiot_rs.Socket.Ctl.Acks.{find-remove, cell-handle_ack, awaiting_acks-handle_ack}
use raiot_rs.Socket.Ctl.Runs.{Action, run, AllAllowed, run_keeps}
use raiot_rs.Socket.Ctl.Waking.{Awaited, NoAnswer, act-Awaited}

module _ {J M S : Type 0} (crates : Crates J M) (mqtt : Encoder VariablePacket)
    (io : NonblockingSocket S) where
  -- The table has one place for an identifier. Once the state `q` has that of `id`, then after any run
  -- without an answer to `id`, in which other messages with that identifier may have been sent, its
  -- acknowledgement completes `q` and nothing else: every other state, that of such another message
  -- too, stays as it is, and no state waits for `id` any more.
  pub one_acknowledged :
      (id q : ℕ) (c c1 : IotSocketCtl J M S) (as_ : List (Action J M))
      → Awaited id q c
      → AllAllowed crates mqtt io (λ (c : IotSocketCtl J M S). Unit {0}) (NoAnswer id) as_
      → run crates mqtt io c as_ ≡ returns c1
      → (c2 : IotSocketCtl J M S) × (handle_incoming_msg c1
            (publication_succeeded (record { value = id }))
          ≡ returns c2)
        × (c2.heap.cell q ≡ record { status = acknowledged; waker = none })
        × ((p : ℕ) → p ≢ q → c2.heap.cell p ≡ c1.heap.cell p)
        × (find id c2.awaiting_acks ≡ none)
  unfolding handle_incoming_msg
  one_acknowledged id q c c1 as_ h ok e =
      let k : PacketId = record { value = id } in
      let entry =
        run_keeps crates mqtt io (Awaited id q) (NoAnswer id) (act-Awaited crates mqtt io id q) as_
          c ok h e in
      (
        handle_ack c1 k acknowledged,
        refl,
        ground (arith, cell-handle_ack c1 k acknowledged q entry q),
        λ p ne. ground (arith, ne, cell-handle_ack c1 k acknowledged q entry p),
        ground (
          arith,
          awaiting_acks-handle_ack c1 k acknowledged q entry,
          find-remove id id c1.awaiting_acks,
        ),
      )
