-- ===== src/Protocol/Encode.antt =====
-- raiot-protocol/src/iot_codec.rs: from a message for the hub to an MQTT packet.
pub mod Ids
pub mod Topics
pub mod Total
pub mod Buffer
use raiot_rs.Base.{
  ℕ, Bool, true, false, ◌∷◌, [], ◌++◌, List, Option, none, some, if◌then◌else◌, Call, returns,
  panics,
}
use raiot_rs.Protocol.Text.{Text, codes, display_i32}
use raiot_rs.Protocol.Types.{
  ClientIdentity, device, module_, PacketId, DeliveryGuarantees, at_most_once, at_least_once,
  SessionMode, clean, dirty,
}
use raiot_rs.Protocol.Messages.{
  PropertyBag, AckMsg, ConnectMsg, TelemetryMsg, C2DSub, DirectMethodsSub, DirectMethodRes,
  ReadTwinReq, TwinReadSub, TwinUpdatesSub, UpdateReportedPropsReq, MsgToHub, connect, acknowledge,
  telemetry, read_twin, subscribe_to_twin_reads, subscribe_to_twin_updates,
  update_reported_properties, subscribe_to_c2d, subscribe_to_methods, direct_method_response,
}
use raiot_rs.Protocol.Mqtt.{
  QualityOfService, QosWithPacketIdentifier, level0, level1, ConnectPacket, PublishPacket,
  SubscribePacket, VariablePacket, connect_packet, publish_packet, puback_packet, subscribe_packet,
  Crates,
}
use raiot_rs.Protocol.Errors.{Coded, done, panicked, ◌>>=◌, unwrap}

-- `packet_id_to_qos`
unfoldable pub packet_id_to_qos : Option PacketId → QosWithPacketIdentifier
packet_id_to_qos (some id) = level1 id.value
packet_id_to_qos none = level0

-- `encode_ack_message`
unfoldable pub encode_ack_message : AckMsg → VariablePacket
encode_ack_message msg = puback_packet msg.packet_id.value

pub is_clean : SessionMode → Bool
is_clean clean = true
is_clean dirty = false

pub client_identifier : ClientIdentity → Text
client_identifier (device d) = d.device_id
client_identifier (module_ m) = m.device_id ++ (codes "/" ++ m.module_id)

pub user_name : Text → ClientIdentity → Text
user_name server (device d) =
    server ++ (codes "/" ++ (d.device_id ++ codes "/api-version=2018-06-30"))
user_name server (module_ m) =
    server
    ++ (codes "/"
        ++ (m.device_id ++ (codes "/" ++ (m.module_id ++ codes "/api-version=2018-06-30"))))

abbrev set_password : Option Text → ConnectPacket → ConnectPacket
set_password (some token) packet = record packet { password = some token }
set_password none packet = packet

-- The channel of a client's telemetry, without the properties.
unfoldable pub telemetry_channel : ClientIdentity → Text
telemetry_channel (device d) = codes "devices/" ++ (d.device_id ++ codes "/messages/events/")
telemetry_channel (module_ m) =
    codes "devices/"
    ++ (m.device_id ++ (codes "/modules/" ++ (m.module_id ++ codes "/messages/events/")))

abbrev subscription_qos : DeliveryGuarantees → QualityOfService
subscription_qos at_least_once = QualityOfService.level1
subscription_qos at_most_once = QualityOfService.level0

abbrev pub reads_filter : Text
reads_filter = codes "$iothub/twin/res/#"

abbrev pub updates_filter : Text
updates_filter = codes "$iothub/twin/PATCH/properties/desired/#"

abbrev pub methods_filter : Text
methods_filter = codes "$iothub/methods/POST/#"

abbrev pub c2d_filter : Text → Text
c2d_filter device_id = codes "devices/" ++ (device_id ++ codes "/messages/devicebound/#")

module _ {J M : Type 0} (crates : Crates J M) where
  open crates use {new_connect, is_topic_name, is_topic_filter, json_text, map_text, percent_encode}

  -- `TopicName::new(…).unwrap()` before `PublishPacket::new`
  pub publish : Text → QosWithPacketIdentifier → Text → Coded VariablePacket
  publish topic qos payload =
      if is_topic_name topic
      then done (publish_packet (record { topic_name = topic; qos = qos; payload = payload }))
      else panicked

  unfoldable pub encode_connect_message : ConnectMsg → VariablePacket
  unfolding is_clean client_identifier user_name
  encode_connect_message msg = connect_packet (
      set_password msg.sas_token (record (new_connect (client_identifier msg.client_id)) {
        clean_session = is_clean msg.session_mode;
        user_name = some (user_name msg.server_addr msg.client_id);
      }))

  -- The loop over the headers; `first` says that nothing stands in the bag yet.
  unfoldable pub property_bag : Bool → PropertyBag → Text
  property_bag first [] = []
  property_bag first ((key, value) ∷ headers) =
      let pair = percent_encode key ++ (codes "=" ++ percent_encode value) in
      (if first then [] else codes "&") ++ (pair ++ property_bag false headers)

  abbrev header_text : Option PropertyBag → Text
  header_text none = []
  header_text (some headers) = property_bag true headers

  abbrev content_text : Option J → Text
  content_text none = []
  content_text (some value) = json_text value

  unfoldable pub encode_telemetry_message : TelemetryMsg J → Coded VariablePacket
  unfolding publish packet_id_to_qos
  encode_telemetry_message msg =
      publish (telemetry_channel msg.client_id ++ header_text msg.headers)
        (packet_id_to_qos msg.packet_id) (content_text msg.content)

  unfoldable pub encode_twin_update : UpdateReportedPropsReq M → Coded VariablePacket
  unfolding publish packet_id_to_qos
  encode_twin_update msg = do
    payload ← unwrap (map_text msg.reported)
    publish (codes "$iothub/twin/PATCH/properties/reported/?$rid=" ++ msg.request_id)
        (packet_id_to_qos msg.packet_id) payload

  unfoldable pub encode_read_twin : ReadTwinReq → Coded VariablePacket
  unfolding publish packet_id_to_qos
  encode_read_twin msg =
      publish (codes "$iothub/twin/GET/?$rid=" ++ msg.request_id) (packet_id_to_qos msg.packet_id)
        []

  unfoldable pub encode_direct_method_response : DirectMethodRes J → Coded VariablePacket
  unfolding publish packet_id_to_qos
  encode_direct_method_response msg =
      publish
        (codes "$iothub/methods/res/"
          ++ (display_i32 msg.status ++ (codes "/?$rid=" ++ msg.request_id)))
        (packet_id_to_qos msg.packet_id) (content_text msg.payload)

  unfoldable pub encode_subscription : PacketId → Text → DeliveryGuarantees → Coded VariablePacket
  encode_subscription packet_id filter mode =
      if is_topic_filter filter
      then done (
          subscribe_packet (record {
            packet_identifier = packet_id.value;
            subscribes = (filter, subscription_qos mode) ∷ [];
          }))
      else panicked

  unfoldable pub encode_twin_subscription : TwinReadSub → Coded VariablePacket
  unfolding encode_subscription
  encode_twin_subscription msg = encode_subscription msg.packet_id reads_filter msg.mode

  unfoldable pub encode_twin_updates_subscription : TwinUpdatesSub → Coded VariablePacket
  unfolding encode_subscription
  encode_twin_updates_subscription msg = encode_subscription msg.packet_id updates_filter msg.mode

  unfoldable pub encode_c2d_messages_subscription : C2DSub → Coded VariablePacket
  unfolding encode_subscription
  encode_c2d_messages_subscription msg =
      encode_subscription msg.packet_id (c2d_filter msg.device_id.device_id) msg.mode

  unfoldable pub encode_c2d_methods_subscription : DirectMethodsSub → Coded VariablePacket
  unfolding encode_subscription
  encode_c2d_methods_subscription msg = encode_subscription msg.packet_id methods_filter msg.mode

  unfoldable pub encode_message : MsgToHub J M → Coded VariablePacket
  unfolding encode_connect_message encode_ack_message encode_read_twin encode_telemetry_message
      encode_c2d_messages_subscription encode_c2d_methods_subscription encode_twin_subscription
      encode_direct_method_response encode_twin_updates_subscription encode_twin_update
  encode_message (connect msg) = done (encode_connect_message msg)
  encode_message (acknowledge msg) = done (encode_ack_message msg)
  encode_message (read_twin msg) = encode_read_twin msg
  encode_message (telemetry msg) = encode_telemetry_message msg
  encode_message (subscribe_to_c2d msg) = encode_c2d_messages_subscription msg
  encode_message (subscribe_to_methods msg) = encode_c2d_methods_subscription msg
  encode_message (subscribe_to_twin_reads msg) = encode_twin_subscription msg
  encode_message (direct_method_response msg) = encode_direct_method_response msg
  encode_message (subscribe_to_twin_updates msg) = encode_twin_updates_subscription msg
  encode_message (update_reported_properties msg) = encode_twin_update msg
