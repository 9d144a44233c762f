-- ===== src/Socket.antt =====
-- raiot-client/src/iot_socket.rs: messages on their way. Callers put messages into a queue and hold a
-- future for each; a thread encodes and sends them, matches the acknowledgements of the hub with the
-- messages by packet identifier, and passes all else on.

pub mod Ctl
pub mod Connect
mod Tests
use raiot_rs.Base.{
  ℕ, suc, ◌+◌, ◌==◌, Bool, true, false, List, [], ◌∷◌, ◌++◌, Option, none, some, if◌then◌else◌,
  Result, ok, err,
}
use raiot_rs.Protocol.Messages.{SubRes, MsgToHub, packet_id}

pub data MsgStatus : Type 0 where
  pending sent send_failed acknowledged rejected timed_out : MsgStatus

-- `From<SubRes> for MsgStatus`
unfoldable pub status_of : SubRes → MsgStatus
status_of res = elim res.result [ ok _ ↦ acknowledged | err _ ↦ rejected ]

-- Wakers are numbers.
pub record MessageState : Type 0 where
  pub status : MsgStatus
  pub waker : Option ℕ

-- The states behind the `Arc`s, by address, and the wakers that were woken, the last one first. A state
-- is read and written under its lock.
pub record Heap : Type 0 where
  pub cell : ℕ → MessageState
  pub next : ℕ
  pub woken : List ℕ

abbrev pub update : (ℕ → MessageState) → ℕ → MessageState → ℕ → MessageState
update f p v q = if p == q then v else f q

abbrev pub store : Heap → ℕ → MessageState → Heap
store h p v = record h { cell = update h.cell p v }

pub record MessageFuture : Type 0 where
  pub state : ℕ
  pub ack_required : Bool

pub data Poll (A : Type 0) : Type 0 where
  ready : A → Poll A
  not_ready : Poll A

abbrev pub MsgTxResult : Type 0
MsgTxResult = Result (Unit {0}) (Unit {0})

abbrev wait_with : Heap → MessageFuture → ℕ → Heap
wait_with h f w = store h f.state (record (h.cell f.state) { waker = some w })

-- `MessageFuture::poll` by a task with the waker `w`
unfoldable pub poll : Heap → MessageFuture → ℕ → Poll MsgTxResult × Heap
poll h f w = elim (h.cell f.state).status [
  | pending ↦ (not_ready, wait_with h f w)
  | send_failed ↦ (ready (err tt), h)
  | timed_out ↦ (ready (err tt), h)
  | sent ↦ if f.ack_required then (not_ready, wait_with h f w) else (ready (ok tt), h)
  | acknowledged ↦ (ready (ok tt), h)
  | rejected ↦ (ready (err tt), h)
]

-- A channel of std::sync::mpsc: what waits in it, and whether its other end is still there.
pub record Channel (A : Type 0) : Type 0 where
  pub waiting : List A
  pub connected : Bool

abbrev pub put : {A : Type 0} → Channel A → A → Option (Channel A)
put ch a = if ch.connected then some (record ch { waiting = ch.waiting ++ (a ∷ []) }) else none

pub data Received (A : Type 0) : Type 0 where
  got : A → Channel A → Received A
  empty disconnected : Received A

abbrev pub try_recv : {A : Type 0} → Channel A → Received A
try_recv ch = elim ch.waiting [
  | a ∷ more ↦ got a (record ch { waiting = more })
  | [] ↦ if ch.connected then empty else disconnected
]

pub record MessageInFlight (J M : Type 0) : Type 0 where
  pub msg : MsgToHub J M
  pub state : ℕ

abbrev pub is_some : {A : Type 0} → Option A → Bool
is_some none = false
is_some (some a) = true
