-- ===== src/Devices.antt =====
-- raiot-client/src/lib.rs: `DeviceClient`, with the thread that takes what the hub sends: it hands the
-- answers about twins to the futures that wait for them, and calls the handlers.
pub mod Twins
mod Tests
use raiot_rs.Base.{
  ℕ, suc, ◌+◌, ◌==◌, ◌&&◌, Bool, true, false, List, [], ◌∷◌, Option, none, some, if◌then◌else◌,
  Result, ok, err, Call, returns, panics,
}
use raiot_rs.Protocol.Text.{Text, text_eq, pos}
use raiot_rs.Protocol.Types.{
  ClientIdentity, device, module_, PacketId, DeliveryGuarantees, at_least_once,
}
use raiot_rs.Protocol.Messages.{
  PropertyBag, C2DMsg, DirectMethodReq, DirectMethodRes, ReadTwinRes, TwinReadSub, ReadTwinReq,
  MsgFromHub, twin_response_message, direct_method_invocation, cloud_to_device_message, MsgToHub,
  telemetry, acknowledge, read_twin, subscribe_to_twin_reads, subscribe_to_c2d,
  subscribe_to_methods, direct_method_response,
}
use raiot_rs.Socket.{Poll, ready, not_ready}
use raiot_rs.Client.{PacketsNumerator, next, D2CMsg, DmiResult}

-- `DMIRequest` and the `C2DMsg` of c2d.rs, what handlers are given.
pub record DmiRequest (J : Type 0) : Type 0 where
  pub method_name : Text
  pub body : Option J

pub record CloudMsg : Type 0 where
  pub props : Option PropertyBag
  pub body : Option Text

-- `RequestState`; wakers are numbers.
pub record RequestState (J M : Type 0) : Type 0 where
  pub result : Option (Result (Unit {0}) (MsgFromHub J M))
  pub waker : Option ℕ

-- `HashMap<String, …>`, from request identifiers to addresses.
abbrev pub Requests : Type 0
Requests = List (Text × ℕ)

abbrev pub find_request : Text → Requests → Option ℕ
find_request id [] = none
find_request id ((k, p) ∷ waiting) = if text_eq k id then some p else find_request id waiting

abbrev pub remove_request : Text → Requests → Requests
remove_request id [] = []
remove_request id ((k, p) ∷ waiting) =
    let rest = remove_request id waiting in if text_eq k id then rest else (k, p) ∷ rest

-- `insert` puts a new address in the place of an old one.
abbrev pub insert_request : Text → ℕ → Requests → Requests
insert_request id p waiting = (id, p) ∷ remove_request id waiting

-- A call of a handler, on a thread of its own.
pub data Spawned (H J : Type 0) : Type 0 where
  method : H → DirectMethodReq J → Spawned H J
  cloud : H → C2DMsg → Spawned H J

-- `DeviceClient`, with the states behind the `Arc`s by address, the wakers that were woken, the messages
-- that were sent, and the threads that were started, all of these the last one first. Handlers are
-- from `H`.
pub record DeviceClient (H J M : Type 0) : Type 0 where
  pub id : ClientIdentity
  pub packet_id : PacketsNumerator
  pub subscribed_to_twin : Bool
  pub awaiting_response : Requests
  pub states : ℕ → RequestState J M
  pub next_state : ℕ
  pub woken : List ℕ
  pub dmi_handler : Option H
  pub c2d_handler : Option H
  pub tx : List (MsgToHub J M)
  pub spawned : List (Spawned H J)

module _ {H J M : Type 0} where
  abbrev set_state : DeviceClient H J M → ℕ → RequestState J M → DeviceClient H J M
  set_state c p s = record c { states = λ q. if p == q then s else c.states q }

  abbrev send_msg : DeviceClient H J M → MsgToHub J M → DeviceClient H J M
  send_msg c msg = record c { tx = msg ∷ c.tx }

  -- What `TwinFuture::poll` does with the result that it takes out.
  pub poll_result :
      Option (Result (Unit {0}) (MsgFromHub J M))
      → DeviceClient H J M
      → ℕ
      → ℕ
      → Call (Poll (ReadTwinRes J) × DeviceClient H J M)
  poll_result none c p w =
      returns (not_ready, set_state c p (record { result = none; waker = some w }))
  poll_result (some (ok (twin_response_message resp))) c p w =
      returns (ready resp, set_state c p (record (c.states p) { result = none }))
  poll_result (some _) c p w = panics

  -- `TwinFuture::poll` of the future with the state `p` by a task with the waker `w`
  unfoldable pub poll_twin :
      DeviceClient H J M → ℕ → ℕ → Call (Poll (ReadTwinRes J) × DeviceClient H J M)
  unfolding poll_result
  poll_twin c p w = poll_result (c.states p).result c p w

  -- `set_c2d_handler`
  unfoldable pub set_c2d_handler :
      DeviceClient H J M → H → DeliveryGuarantees → Call (DeviceClient H J M)
  set_c2d_handler c handler mode =
      let c' = record c { c2d_handler = some handler } in
      elim c.c2d_handler [
        | some old ↦ returns c'
        | none ↦ elim c.id [
          | module_ m ↦ panics
          | device d ↦
              let (id, n) = next c.packet_id in
              returns (
                send_msg (record c' { packet_id = n })
                  (subscribe_to_c2d (record { packet_id = id; device_id = d; mode = mode })))
        ]
      ]

  -- `set_dmi_handler`
  unfoldable pub set_dmi_handler : DeviceClient H J M → H → DeliveryGuarantees → DeviceClient H J M
  set_dmi_handler c handler mode =
      let c' = record c { dmi_handler = some handler } in
      elim c.dmi_handler [
        | some old ↦ c'
        | none ↦
            let (id, n) = next c.packet_id in
            send_msg (record c' { packet_id = n })
              (subscribe_to_methods (record { packet_id = id; mode = mode }))
      ]

  -- The answer to the request with the state `p` has come.
  abbrev answered : DeviceClient H J M → Text → ℕ → ReadTwinRes J → DeviceClient H J M
  answered c id p resp =
      let c' =
        set_state (record c { awaiting_response = remove_request id c.awaiting_response }) p
          (record { result = some (ok (twin_response_message resp)); waker = none }) in
      elim (c.states p).waker [ none ↦ c' | some w ↦ record c' { woken = w ∷ c.woken } ]

  -- A round of the thread that `new` starts.
  unfoldable pub handle_msg : DeviceClient H J M → MsgFromHub J M → DeviceClient H J M
  handle_msg c (twin_response_message resp) =
      elim (find_request resp.request_id c.awaiting_response) [
        | none ↦ c
        | some p ↦ answered c resp.request_id p resp
      ]
  handle_msg c (direct_method_invocation req) = elim c.dmi_handler [
    | some handler ↦ record c { spawned = method handler req ∷ c.spawned }
    | none ↦ send_msg c (
        direct_method_response (record {
          packet_id = none;
          status = pos 501;
          request_id = req.request_id;
          payload = none;
        }))
  ]
  handle_msg c (cloud_to_device_message msg) = elim c.c2d_handler [
    | some handler ↦ record c { spawned = cloud handler msg ∷ c.spawned }
    | none ↦ c
  ]
  handle_msg c _ = c

  -- What the thread of a method sends when its handler returns.
  unfoldable pub run_method :
      (H → DmiRequest J → DmiResult J) → H → DirectMethodReq J → MsgToHub J M
  run_method apply handler req =
      let out = apply handler (record { method_name = req.method_name; body = req.body }) in
      direct_method_response (record {
        packet_id = none;
        status = out.status;
        request_id = req.request_id;
        payload = out.payload;
      })

  -- `send_telemetry`, up to where it waits for the message
  unfoldable pub send_telemetry : DeviceClient H J M → D2CMsg J → DeviceClient H J M
  send_telemetry c msg =
      let (id, n) = next c.packet_id in
      send_msg (record c { packet_id = n })
        (telemetry (record {
          client_id = c.id;
          content = msg.content;
          headers = msg.headers;
          packet_id = some id;
        }))

  -- The subscription of `read_twin`, if it is the first; afterwards it waits for its acknowledgement.
  unfoldable pub subscribe_to_twin : DeviceClient H J M → DeviceClient H J M
  subscribe_to_twin c =
      let (id, n) = next c.packet_id in
      if c.subscribed_to_twin
      then c
      else send_msg (record c { packet_id = n })
          (subscribe_to_twin_reads (record { packet_id = id; mode = at_least_once }))

  -- The rest of it, with `request_id` from the uuid crate: the address of the future that it waits for.
  unfoldable pub request_twin : DeviceClient H J M → Text → ℕ × DeviceClient H J M
  request_twin c request_id =
      let (id, n) = next c.packet_id in
      let p = c.next_state in
      let c' =
        set_state
          (record c {
            subscribed_to_twin = true;
            packet_id = n;
            next_state = suc p;
            awaiting_response = insert_request request_id p c.awaiting_response;
          })
          p (record { result = none; waker = none }) in
      (p, send_msg c' (read_twin (record { request_id = request_id; packet_id = some id })))

-- What the thread of a message sends when its handler returns.
unfoldable pub run_cloud : {J M : Type 0} → C2DMsg → Option (MsgToHub J M)
run_cloud msg = elim msg.packet_id [
  | none ↦ none
  | some id ↦ some (acknowledge (record { packet_id = id }))
]
