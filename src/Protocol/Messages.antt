-- ===== src/Protocol/Messages.antt =====
-- raiot-protocol/src/messages: the messages between a device and the hub. `J` and `M` stand for the
-- JSON values and objects of the serde_json crate.
use raiot_rs.Base.{ℕ, Option, none, some, List, ErrorKind, Result}
use raiot_rs.Protocol.Text.{Text, ℤ}
use raiot_rs.Protocol.Types.{
  ClientIdentity, DeviceIdentity, PacketId, DeliveryGuarantees, SessionMode,
}

-- `HashMap<String, String>`, in the order in which the map is walked.
abbrev pub PropertyBag : Type 0
PropertyBag = List (Text × Text)

pub record AckMsg : Type 0 where
  pub packet_id : PacketId

pub record ConnectMsg : Type 0 where
  pub client_id : ClientIdentity
  pub server_addr : Text
  pub sas_token : Option Text
  pub session_mode : SessionMode

pub data ConnectRes : Type 0 where
  accepted authentication_failed unauthorized service_unavailable timeout : ConnectRes
  unacceptable_protocol_version : ConnectRes
  mqtt_reserved_error_code : ℕ → ConnectRes
  protocol_violation : ConnectRes
  io_error : ErrorKind → ConnectRes

pub data SubError : Type 0 where
  timeout failure : SubError

pub record SubRes : Type 0 where
  pub packet_id : PacketId
  pub result : Result SubError (Unit {0})

pub record C2DSub : Type 0 where
  pub packet_id : PacketId
  pub device_id : DeviceIdentity
  pub mode : DeliveryGuarantees

pub record C2DMsg : Type 0 where
  pub packet_id : Option PacketId
  pub body : Option Text
  pub device_id : Text
  pub props : Option PropertyBag

pub record DirectMethodsSub : Type 0 where
  pub packet_id : PacketId
  pub mode : DeliveryGuarantees

pub record DirectMethodReq (J : Type 0) : Type 0 where
  pub packet_id : Option PacketId
  pub request_id : Text
  pub method_name : Text
  pub body : Option J

pub record DirectMethodRes (J : Type 0) : Type 0 where
  pub request_id : Text
  pub status : ℤ
  pub payload : Option J
  pub packet_id : Option PacketId

pub record TelemetryMsg (J : Type 0) : Type 0 where
  pub client_id : ClientIdentity
  pub content : Option J
  pub packet_id : Option PacketId
  pub headers : Option PropertyBag

pub record TwinReadSub : Type 0 where
  pub packet_id : PacketId
  pub mode : DeliveryGuarantees

pub record TwinUpdatesSub : Type 0 where
  pub packet_id : PacketId
  pub mode : DeliveryGuarantees

pub record ReadTwinReq : Type 0 where
  pub request_id : Text
  pub packet_id : Option PacketId

pub data StatusCode : Type 0 where
  ok_status no_content too_many_requests bad_request : StatusCode
  server_error unknown_status_code : ℕ → StatusCode

pub record ReadTwinRes (J : Type 0) : Type 0 where
  pub packet_id : Option PacketId
  pub request_id : Text
  pub status_code : StatusCode
  pub body : Option J
  pub version : Option ℕ

pub record DesiredPropsUpdated (M : Type 0) : Type 0 where
  pub packet_id : Option PacketId
  pub body : M
  pub desired_properties_version : ℕ

pub record UpdateReportedPropsReq (M : Type 0) : Type 0 where
  pub request_id : Text
  pub reported : M
  pub packet_id : Option PacketId

pub data MsgFromHub (J M : Type 0) : Type 0 where
  unknown_message : MsgFromHub J M
  connect_response_message : ConnectRes → MsgFromHub J M
  twin_response_message : ReadTwinRes J → MsgFromHub J M
  desired_properties_updated : DesiredPropsUpdated M → MsgFromHub J M
  cloud_to_device_message : C2DMsg → MsgFromHub J M
  direct_method_invocation : DirectMethodReq J → MsgFromHub J M
  subscription_response_message : SubRes → MsgFromHub J M
  publication_succeeded : PacketId → MsgFromHub J M

pub data MsgToHub (J M : Type 0) : Type 0 where
  connect : ConnectMsg → MsgToHub J M
  acknowledge : AckMsg → MsgToHub J M
  telemetry : TelemetryMsg J → MsgToHub J M
  read_twin : ReadTwinReq → MsgToHub J M
  subscribe_to_twin_reads : TwinReadSub → MsgToHub J M
  subscribe_to_twin_updates : TwinUpdatesSub → MsgToHub J M
  update_reported_properties : UpdateReportedPropsReq M → MsgToHub J M
  subscribe_to_c2d : C2DSub → MsgToHub J M
  subscribe_to_methods : DirectMethodsSub → MsgToHub J M
  direct_method_response : DirectMethodRes J → MsgToHub J M

-- `MsgToHub::packet_id`
unfoldable pub packet_id : {J M : Type 0} → MsgToHub J M → Option PacketId
packet_id (connect msg) = none
packet_id (acknowledge msg) = some msg.packet_id
packet_id (read_twin msg) = msg.packet_id
packet_id (telemetry msg) = msg.packet_id
packet_id (subscribe_to_c2d msg) = some msg.packet_id
packet_id (subscribe_to_methods msg) = some msg.packet_id
packet_id (direct_method_response msg) = msg.packet_id
packet_id (subscribe_to_twin_reads msg) = some msg.packet_id
packet_id (subscribe_to_twin_updates msg) = some msg.packet_id
packet_id (update_reported_properties msg) = msg.packet_id
