-- ===== src/Protocol/Convert.antt =====
-- raiot-protocol/src/messages/mod.rs: the `From` of each kind of message, and the texts of messages.
use raiot_rs.Base.{ℕ, ◌++◌, Option, ok, err}
use raiot_rs.Protocol.Text.{Text, codes, decimal}
use raiot_rs.Protocol.Messages.{
  AckMsg, ConnectMsg, ConnectRes, SubRes, C2DSub, C2DMsg, DirectMethodsSub, DirectMethodReq,
  DirectMethodRes, TelemetryMsg, TwinReadSub, TwinUpdatesSub, ReadTwinReq, ReadTwinRes,
  DesiredPropsUpdated, UpdateReportedPropsReq, StatusCode, PropertyBag, MsgFromHub, unknown_message,
  connect_response_message, twin_response_message, desired_properties_updated,
  cloud_to_device_message, direct_method_invocation, subscription_response_message,
  publication_succeeded, MsgToHub, connect, acknowledge, telemetry, read_twin,
  subscribe_to_twin_reads, subscribe_to_twin_updates, update_reported_properties, subscribe_to_c2d,
  subscribe_to_methods, direct_method_response,
}
use raiot_rs.Protocol.Types.{PacketId}

-- `Into` of std
pub record Into (A B : Type 0) : Type 0 where
  pub into : A → B

module _ {J M : Type 0} where
  instance abbrev pub from_connect_res : Into ConnectRes (MsgFromHub J M)
  from_connect_res = record { into = λ response. connect_response_message response }

  instance abbrev pub from_c2d_msg : Into C2DMsg (MsgFromHub J M)
  from_c2d_msg = record { into = λ c2d. cloud_to_device_message c2d }

  instance abbrev pub from_read_twin_res : Into (ReadTwinRes J) (MsgFromHub J M)
  from_read_twin_res = record { into = λ response. twin_response_message response }

  instance abbrev pub from_desired_props_updated : Into (DesiredPropsUpdated M) (MsgFromHub J M)
  from_desired_props_updated = record { into = λ update. desired_properties_updated update }

  instance abbrev pub from_direct_method_req : Into (DirectMethodReq J) (MsgFromHub J M)
  from_direct_method_req = record { into = λ invocation. direct_method_invocation invocation }

  instance abbrev pub from_sub_res : Into SubRes (MsgFromHub J M)
  from_sub_res = record { into = λ response. subscription_response_message response }

  instance abbrev pub from_connect_msg : Into ConnectMsg (MsgToHub J M)
  from_connect_msg = record { into = λ msg. connect msg }

  instance abbrev pub from_ack_msg : Into AckMsg (MsgToHub J M)
  from_ack_msg = record { into = λ msg. acknowledge msg }

  instance abbrev pub from_telemetry_msg : Into (TelemetryMsg J) (MsgToHub J M)
  from_telemetry_msg = record { into = λ msg. telemetry msg }

  instance abbrev pub from_read_twin_req : Into ReadTwinReq (MsgToHub J M)
  from_read_twin_req = record { into = λ msg. read_twin msg }

  instance abbrev pub from_twin_read_sub : Into TwinReadSub (MsgToHub J M)
  from_twin_read_sub = record { into = λ msg. subscribe_to_twin_reads msg }

  instance abbrev pub from_twin_updates_sub : Into TwinUpdatesSub (MsgToHub J M)
  from_twin_updates_sub = record { into = λ msg. subscribe_to_twin_updates msg }

  instance abbrev pub from_update_reported_props_req :
      Into (UpdateReportedPropsReq M) (MsgToHub J M)
  from_update_reported_props_req = record { into = λ msg. update_reported_properties msg }

  instance abbrev pub from_c2d_sub : Into C2DSub (MsgToHub J M)
  from_c2d_sub = record { into = λ msg. subscribe_to_c2d msg }

  instance abbrev pub from_direct_methods_sub : Into DirectMethodsSub (MsgToHub J M)
  from_direct_methods_sub = record { into = λ msg. subscribe_to_methods msg }

  instance abbrev pub from_direct_method_res : Into (DirectMethodRes J) (MsgToHub J M)
  from_direct_method_res = record { into = λ msg. direct_method_response msg }

-- The texts that `{:?}` gives, which are derived or those of serde_json and std.
pub record DebugTexts (J : Type 0) : Type 0 where
  pub status_code : StatusCode → Text
  pub version : Option ℕ → Text
  pub body : Option J → Text
  pub text : Text → Text
  pub text_body : Option Text → Text
  pub props : Option PropertyBag → Text
  pub packet_id : Option PacketId → Text

-- `Display for PacketId`
unfoldable pub display_packet_id : PacketId → Text
display_packet_id id = decimal id.value

module _ {J : Type 0} (debug : DebugTexts J) where
  open debug use {status_code, version, body, text, text_body, props, packet_id}

  abbrev display_sub_res : SubRes → Text
  display_sub_res res = elim res.result [
    | ok _ ↦ codes "Subscription succeeded, packet id: " ++ display_packet_id res.packet_id
    | err _ ↦ codes "Subscription failed, packet id: " ++ display_packet_id res.packet_id
  ]

  -- `Display for MsgFromHub`
  unfoldable pub display_msg_from_hub : {M : Type 0} → MsgFromHub J M → Text
  unfolding display_packet_id
  display_msg_from_hub (subscription_response_message res) = display_sub_res res
  display_msg_from_hub (publication_succeeded id) =
      codes "Publication succeeded: " ++ display_packet_id id
  display_msg_from_hub (twin_response_message res) =
      codes "Twin Response: "
      ++ status_code res.status_code
      ++ codes " "
      ++ version res.version
      ++ codes " "
      ++ body res.body
  display_msg_from_hub (desired_properties_updated msg) =
      codes "Desired properties updated, version: " ++ decimal msg.desired_properties_version
  display_msg_from_hub (cloud_to_device_message msg) = codes "C2D Msg"
  display_msg_from_hub (direct_method_invocation dmi) =
      codes "Direct MEthod invocation, method: " ++ dmi.method_name
  display_msg_from_hub unknown_message = codes "Unknown msg"
  display_msg_from_hub _ = codes "Some other msg"

  -- `Display for C2DMsg`, which names the body and the properties the wrong way round
  unfoldable pub display_c2d_msg : C2DMsg → Text
  display_c2d_msg msg =
      codes "Props: "
      ++ text_body msg.body
      ++ codes ", Body: "
      ++ props msg.props
      ++ codes ", PacketID: "
      ++ packet_id msg.packet_id

  -- `Display for DirectMethodReq`
  unfoldable pub display_direct_method_req : DirectMethodReq J → Text
  display_direct_method_req msg =
      codes "Method: "
      ++ text msg.method_name
      ++ codes ", Body: "
      ++ body msg.body
      ++ codes ", Request ID: "
      ++ text msg.request_id
      ++ codes " PacketID: "
      ++ packet_id msg.packet_id
