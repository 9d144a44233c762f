-- ===== src/Protocol/Mqtt.antt =====
-- The packets of the mqtt crate as the codec fills and reads them, and the crates that it calls.
use raiot_rs.Base.{ℕ, Bool, List, Option}
use raiot_rs.Protocol.Text.{Text}

pub data QualityOfService : Type 0 where
  level0 level1 level2 : QualityOfService

pub data QosWithPacketIdentifier : Type 0 where
  level0 : QosWithPacketIdentifier
  level1 level2 : ℕ → QosWithPacketIdentifier

pub data ConnectReturnCode : Type 0 where
  connection_accepted unacceptable_protocol_version identifier_rejected : ConnectReturnCode
  service_unavailable bad_user_name_or_password not_authorized : ConnectReturnCode
  reserved : ℕ → ConnectReturnCode

pub data SubscribeReturnCode : Type 0 where
  maximum_qos_level0 maximum_qos_level1 maximum_qos_level2 failure : SubscribeReturnCode

pub record ConnectPacket : Type 0 where
  pub client_identifier : Text
  pub clean_session : Bool
  pub user_name : Option Text
  pub password : Option Text

pub record PublishPacket : Type 0 where
  pub topic_name : Text
  pub qos : QosWithPacketIdentifier
  pub payload : Text

pub record SubscribePacket : Type 0 where
  pub packet_identifier : ℕ
  pub subscribes : List (Text × QualityOfService)

pub record SubackPacket : Type 0 where
  pub packet_identifier : ℕ
  pub subscribes : List SubscribeReturnCode

-- `other` stands for the packets that the codec neither makes nor reads.
pub data VariablePacket : Type 0 where
  connect_packet : ConnectPacket → VariablePacket
  connack_packet : ConnectReturnCode → VariablePacket
  publish_packet : PublishPacket → VariablePacket
  puback_packet : ℕ → VariablePacket
  subscribe_packet : SubscribePacket → VariablePacket
  suback_packet : SubackPacket → VariablePacket
  other_packet : ℕ → VariablePacket

-- The url crate's `Url`, as far as it is read.
pub record Url : Type 0 where
  pub path_segments : Option (List Text)
  pub query_pairs : List (Text × Text)

-- The functions of the crates mqtt, serde_json, percent_encoding and url that the codec calls.
-- `none` is an error of theirs.
pub record Crates (J M : Type 0) : Type 0 where
  pub new_connect : Text → ConnectPacket
  pub is_topic_name : Text → Bool
  pub is_topic_filter : Text → Bool
  pub json_text : J → Text
  pub map_text : M → Option Text
  pub json_text_body : Text → Option (Option Text)
  pub json_body : Text → Option (Option J)
  pub json_map_body : Text → Option (Option M)
  pub percent_encode : Text → Text
  pub percent_decode : Text → Option Text
  pub form_parse : Text → List (Text × Text)
  pub parse_url : Text → Option Url
