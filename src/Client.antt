-- ===== src/Client.antt =====
-- raiot-stclient/src/lib.rs and sub.rs, and the numbering of packets of raiot-client-base: a client
-- that sends messages, subscribes to four kinds of them, and calls the handlers of what arrives.
pub mod Fresh
pub mod Completion
pub mod Connecting
pub mod Process
mod Tests
use raiot_rs.Base.{
  ℕ, ◌+◌, ◌%◌, ◌^◌, Bool, true, false, List, [], ◌∷◌, Option, none, some, if◌then◌else◌, ◌==◌, ok,
  err, Call, returns, panics,
}
use raiot_rs.Protocol.Text.{Text, ℤ}
use raiot_rs.Protocol.Types.{
  ClientIdentity, device, module_, PacketId, DeliveryGuarantees, at_most_once, at_least_once,
}
use raiot_rs.Protocol.Messages.{
  PropertyBag, SubError, SubRes, C2DMsg, DirectMethodReq, DesiredPropsUpdated, MsgFromHub,
  subscription_response_message, cloud_to_device_message, direct_method_invocation,
  desired_properties_updated, MsgToHub, telemetry, read_twin, subscribe_to_twin_reads,
  subscribe_to_twin_updates, subscribe_to_c2d, subscribe_to_methods, direct_method_response,
}
use raiot_rs.Protocol.Mqtt.{VariablePacket, Crates}
use raiot_rs.Protocol.Errors.{done, fails, panicked}
use raiot_rs.Protocol.Encode.{encode_message}
use raiot_rs.Packets.{Encoder}
use raiot_rs.Connection.{MqttConnection, write_connection}

-- `PacketsNumerator`; the u16 wraps.
pub record PacketsNumerator : Type 0 where
  pub value : ℕ

unfoldable pub next : PacketsNumerator → PacketId × PacketsNumerator
next n = let value = (n.value + 1) % 2 ^ 16 in (record { value = value }, record { value = value })

-- `SubState`, with handlers from `H`.
pub data SubState (H : Type 0) : Type 0 where
  unsubscribed : SubState H
  subscribing : H → H → PacketId → SubState H
  subscribed : H → SubState H

-- The handlers that were called, with their arguments.
pub data Event (H J M : Type 0) : Type 0 where
  sub_failed : H → SubError → Event H J M
  c2d_arrived : H → C2DMsg → Event H J M
  method_invoked : H → DirectMethodReq J → Event H J M
  props_updated : H → DesiredPropsUpdated M → Event H J M

-- `SubState::try_complete`: whether the answer was for this subscription, what becomes of it, and the
-- handler called.
unfoldable pub try_complete :
    {H J M : Type 0} → SubState H → SubRes → Bool × SubState H × List (Event H J M)
try_complete unsubscribed res = (false, unsubscribed, [])
try_complete (subscribed h) res = (false, subscribed h, [])
try_complete (subscribing h e id) res =
    if id.value == res.packet_id.value
    then elim res.result [
      | ok _ ↦ (true, subscribed h, [])
      | err error ↦ (true, unsubscribed, sub_failed e error ∷ [])
    ]
    else (false, subscribing h e id, [])

pub record D2CMsg (J : Type 0) : Type 0 where
  pub content : Option J
  pub headers : Option PropertyBag

pub record DmiResult (J : Type 0) : Type 0 where
  pub status : ℤ
  pub payload : Option J

pub record IotClient (H S : Type 0) : Type 0 where
  pub connection : MqttConnection S
  pub client_id : ClientIdentity
  pub packets_numerator : PacketsNumerator
  pub twin_reads : SubState H
  pub dmi : SubState H
  pub twin_updates : SubState H
  pub c2d : SubState H

module _ {H S : Type 0} where
  -- The packet identifier of a message that is sent with a guarantee.
  abbrev pub id_for : DeliveryGuarantees → IotClient H S → Option PacketId × IotClient H S
  id_for at_most_once c = (none, c)
  id_for at_least_once c =
      let (id, n) = next c.packets_numerator in (some id, record c { packets_numerator = n })

  -- The identifier of a subscription.
  abbrev pub numbered : IotClient H S → PacketId × IotClient H S
  numbered c = let (id, n) = next c.packets_numerator in (id, record c { packets_numerator = n })

module _ {J M H S : Type 0} (crates : Crates J M) (mqtt : Encoder VariablePacket) where
  -- `IotCodec::encode_message(…).unwrap()` and `self.connection.write(…).unwrap()`
  unfoldable pub send : IotClient H S → MsgToHub J M → Call (IotClient H S)
  send c msg = elim (encode_message crates msg) [
    | fails e ↦ panics
    | panicked ↦ panics
    | done packet ↦
        let (res, conn) = write_connection mqtt c.connection packet in
        elim res [ err e ↦ panics | ok _ ↦ returns (record c { connection = conn }) ]
  ]

  unfoldable pub send_d2c : IotClient H S → D2CMsg J → DeliveryGuarantees → Call (IotClient H S)
  unfolding send
  send_d2c c msg mode =
      let (id, c') = id_for mode c in
      send c' (
        telemetry (record {
          client_id = c.client_id;
          content = msg.content;
          headers = msg.headers;
          packet_id = id;
        }))

  unfoldable pub send_dmi_res :
      IotClient H S → Text → DmiResult J → DeliveryGuarantees → Call (IotClient H S)
  unfolding send
  send_dmi_res c request_id res mode =
      let (id, c') = id_for mode c in
      send c' (
        direct_method_response (record {
          request_id = request_id;
          status = res.status;
          payload = res.payload;
          packet_id = id;
        }))

  -- `prints` stands for the closures that print what they are given.
  module _ (prints : H) where
    unfoldable pub sub_dmi : IotClient H S → DeliveryGuarantees → H → Call (IotClient H S)
    unfolding send
    sub_dmi c mode handler =
        let (id, c') = numbered c in
        send (record c' { dmi = subscribing handler prints id })
          (subscribe_to_methods (record { packet_id = id; mode = mode }))

    unfoldable pub sub_c2d : IotClient H S → DeliveryGuarantees → H → H → Call (IotClient H S)
    unfolding send
    sub_c2d c mode msg_handler error_handler = elim c.client_id [
      | module_ m ↦ panics
      | device d ↦
          let (id, c') = numbered c in
          send (record c' { c2d = subscribing msg_handler error_handler id })
            (subscribe_to_c2d (record { packet_id = id; device_id = d; mode = mode }))
    ]

    unfoldable pub sub_twin_updates : IotClient H S → DeliveryGuarantees → H → Call (IotClient H S)
    unfolding send
    sub_twin_updates c mode handler =
        let (id, c') = numbered c in
        send (record c' { twin_updates = subscribing handler prints id })
          (subscribe_to_twin_updates (record { packet_id = id; mode = mode }))

    unfoldable pub sub_twin_reads : IotClient H S → Call (IotClient H S)
    unfolding send
    sub_twin_reads c =
        let (id, c') = numbered c in
        send (record c' { twin_reads = subscribing prints prints id })
          (subscribe_to_twin_reads (record { packet_id = id; mode = at_least_once }))

    -- `uuid` is the text of the new identifier.
    unfoldable pub request_twin : IotClient H S → Text → Call (IotClient H S)
    unfolding send
    request_twin c uuid =
        let (id, c') = numbered c in
        send c' (read_twin (record { request_id = uuid; packet_id = some id }))

    -- `IotClient::read_twin`
    unfoldable pub poll_twin : IotClient H S → Text → Call (IotClient H S)
    unfolding request_twin sub_twin_reads
    poll_twin c uuid = elim c.twin_reads [
      | subscribed h ↦ request_twin c uuid
      | unsubscribed ↦ sub_twin_reads c
      | subscribing h e id ↦ returns c
    ]

-- The call of a handler, if there is one.
abbrev pub handled : {H J M : Type 0} → SubState H → (H → Event H J M) → List (Event H J M)
handled (subscribed h) event = event h ∷ []
handled _ event = []

module _ {J M H S : Type 0} where
  unfoldable pub process_sub_res : IotClient H S → SubRes → IotClient H S × List (Event H J M)
  unfolding try_complete
  process_sub_res c res =
      let (hit1, twin_reads, e1) = try_complete c.twin_reads res in
      let (hit2, c2d, e2) = try_complete c.c2d res in
      let (hit3, dmi, e3) = try_complete c.dmi res in
      let (hit4, twin_updates, e4) = try_complete c.twin_updates res in
      if hit1
      then (record c { twin_reads = twin_reads }, e1)
      else if hit2
      then (record c { c2d = c2d }, e2)
      else if hit3
      then (record c { dmi = dmi }, e3)
      else if hit4
      then (record c { twin_updates = twin_updates }, e4)
      else (c, [])

  unfoldable pub process_msg : IotClient H S → MsgFromHub J M → IotClient H S × List (Event H J M)
  unfolding process_sub_res
  process_msg c (subscription_response_message res) = process_sub_res c res
  process_msg c (cloud_to_device_message msg) = (c, handled c.c2d (λ h. c2d_arrived h msg))
  process_msg c (direct_method_invocation msg) = (c, handled c.dmi (λ h. method_invoked h msg))
  process_msg c (desired_properties_updated msg) =
      (c, handled c.twin_updates (λ h. props_updated h msg))
  process_msg c _ = (c, [])

-- What makes the client move: the calls of its user, and the messages that arrive.
pub data Action (J M H : Type 0) : Type 0 where
  send_telemetry : D2CMsg J → DeliveryGuarantees → Action J M H
  respond : Text → DmiResult J → DeliveryGuarantees → Action J M H
  want_methods : DeliveryGuarantees → H → Action J M H
  want_c2d : DeliveryGuarantees → H → H → Action J M H
  want_updates : DeliveryGuarantees → H → Action J M H
  want_twin : Text → Action J M H
  arrives : MsgFromHub J M → Action J M H

module _ {J M H S : Type 0} (crates : Crates J M) (mqtt : Encoder VariablePacket) (prints : H) where
  unfoldable pub perform : IotClient H S → Action J M H → Call (IotClient H S)
  unfolding send_d2c send_dmi_res sub_dmi sub_c2d sub_twin_updates poll_twin process_msg
  perform c (send_telemetry msg mode) = send_d2c crates mqtt c msg mode
  perform c (respond request_id res mode) = send_dmi_res crates mqtt c request_id res mode
  perform c (want_methods mode h) = sub_dmi crates mqtt prints c mode h
  perform c (want_c2d mode h e) = sub_c2d crates mqtt prints c mode h e
  perform c (want_updates mode h) = sub_twin_updates crates mqtt prints c mode h
  perform c (want_twin uuid) = poll_twin crates mqtt prints c uuid
  perform c (arrives msg) = returns (process_msg c msg).0
