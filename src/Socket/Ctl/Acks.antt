-- ===== src/Socket/Ctl/Acks.antt =====
-- raiot-client/src/iot_socket.rs: the table of the messages that wait for an acknowledgement.
use raiot_rs.Base.{ℕ, ◌≡◌, [], ◌∷◌, Option, none, some, arith, ◌==◌, if◌then◌else◌}
use raiot_rs.Protocol.Types.{PacketId}
use raiot_rs.Socket.{MsgStatus}
use raiot_rs.Socket.Ctl.{Acks, find, remove, register, IotSocketCtl, handle_ack}

pub find-remove :
    (k id : ℕ) (acks : Acks) → find k (remove id acks) ≡ (if k == id then none else find k acks)
find-remove k id [] = ground arith
find-remove k id ((j, p) ∷ acks) = ground (arith, find-remove k id acks)

-- An identifier that has an entry keeps it.
pub find-register :
    (id : Option PacketId) (p k q : ℕ) (acks : Acks)
    → find k acks ≡ some q
    → find k (register id p acks) ≡ some q
unfolding register
find-register none p k q acks h = h
find-register (some id) p k q acks h = ground arith

module _ {J M S : Type 0} (c : IotSocketCtl J M S) (id : PacketId) (status : MsgStatus) where
  module _ (p : ℕ) (entry : find id.value c.awaiting_acks ≡ some p) where
    pub cell-handle_ack :
        (q : ℕ)
        → (handle_ack c id status).heap.cell q
          ≡ (if p == q then record { status = status; waker = none } else c.heap.cell q)
    unfolding handle_ack
    cell-handle_ack q = ground arith

    pub woken-handle_ack :
        (handle_ack c id status).heap.woken
        ≡ elim (c.heap.cell p).waker [ none ↦ c.heap.woken | some w ↦ w ∷ c.heap.woken ]
    unfolding handle_ack
    woken-handle_ack = ground arith

    pub awaiting_acks-handle_ack :
        (handle_ack c id status).awaiting_acks ≡ remove id.value c.awaiting_acks
    unfolding handle_ack
    awaiting_acks-handle_ack = ground arith
