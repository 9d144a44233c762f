-- ===== src/Protocol/Decode.antt =====
-- raiot-protocol/src/iot_codec.rs: from an MQTT packet to a message from the hub.
pub mod Answers
pub mod Dispatch
pub mod Kinds
pub mod Twin
pub mod Cloud
use raiot_rs.Base.{
  ℕ, ◌∷◌, [], ◌++◌, ◌^◌, List, Bool, true, false, Option, none, some, if◌then◌else◌, leb, ◌==◌,
  ◌&&◌, ok, err, drop,
}
use raiot_rs.Protocol.Text.{Text, codes, text_eq, starts_with, split, slice, parse_uint}
use raiot_rs.Protocol.Types.{PacketId}
use raiot_rs.Protocol.Messages.{
  PropertyBag, ConnectRes, accepted, authentication_failed, unauthorized, service_unavailable,
  unacceptable_protocol_version, mqtt_reserved_error_code, SubRes, failure, C2DMsg, DirectMethodReq,
  StatusCode, ok_status, no_content, too_many_requests, server_error, unknown_status_code,
  ReadTwinRes, DesiredPropsUpdated, MsgFromHub, unknown_message, connect_response_message,
  twin_response_message, desired_properties_updated, cloud_to_device_message,
  direct_method_invocation, subscription_response_message, publication_succeeded,
}
use raiot_rs.Protocol.Mqtt.{
  QosWithPacketIdentifier, level0, level1, level2, ConnectReturnCode, connection_accepted,
  bad_user_name_or_password, identifier_rejected, not_authorized, reserved, SubscribeReturnCode,
  SubackPacket, PublishPacket, VariablePacket, connack_packet, publish_packet, puback_packet,
  suback_packet, Url, Crates,
}
use raiot_rs.Protocol.Errors.{
  CodecError, unexpected_mqtt_packet_type, invalid_mqtt_packet, invalid_message_body, invalid_topic,
  missing_rid, missing_device_id, missing_method_name, missing_version, missing_status_code,
  invalid_version_identifier, Coded, done, fails, panicked, ◌>>=◌, unwrap, ok_or, called,
}

-- `qos_to_packet_id`
unfoldable pub qos_to_packet_id : QosWithPacketIdentifier → Option PacketId
qos_to_packet_id level0 = none
qos_to_packet_id (level1 id) = some (record { value = id })
qos_to_packet_id (level2 id) = some (record { value = id })

-- `decode_connack_packet`
unfoldable pub decode_connack_packet : ConnectReturnCode → ConnectRes
decode_connack_packet connection_accepted = accepted
decode_connack_packet bad_user_name_or_password = authentication_failed
decode_connack_packet ConnectReturnCode.service_unavailable = ConnectRes.service_unavailable
decode_connack_packet ConnectReturnCode.unacceptable_protocol_version =
    ConnectRes.unacceptable_protocol_version
decode_connack_packet identifier_rejected = authentication_failed
decode_connack_packet not_authorized = unauthorized
decode_connack_packet (reserved code) = mqtt_reserved_error_code code

-- `decode_suback_packet` reads the first return code only; without any, the index is out of range.
unfoldable pub decode_suback_packet : SubackPacket → Coded SubRes
decode_suback_packet packet = elim packet.subscribes [
  | [] ↦ panicked
  | code ∷ more ↦ done (record {
    packet_id = record { value = packet.packet_identifier };
    result = elim code [ SubscribeReturnCode.failure ↦ err failure | _ ↦ ok tt ];
  })
]

-- `get_status_code`
unfoldable pub get_status_code : ℕ → StatusCode
get_status_code code =
    if code == 429
    then too_many_requests
    else if code == 200
    then ok_status
    else if code == 204
    then no_content
    else if leb 500 code && leb code 599
    then server_error code
    else unknown_status_code code

-- `get` of a map collected from pairs: the last pair with the key counts.
unfoldable pub query_get : Text → List (Text × Text) → Option Text
query_get key [] = none
query_get key ((k, v) ∷ pairs) =
    let found = query_get key pairs in
    elim found [ some w ↦ some w | none ↦ if text_eq k key then some v else none ]

abbrev pub twin_response_prefix : Text
twin_response_prefix = codes "$iothub/twin/res/"

abbrev pub desired_prefix : Text
desired_prefix = codes "$iothub/twin/PATCH/properties/desired/"

abbrev pub methods_prefix : Text
methods_prefix = codes "$iothub/methods/POST/"

abbrev pub devices_prefix : Text
devices_prefix = codes "devices/"

abbrev pub u16_limit : ℕ
u16_limit = 2 ^ 16

abbrev pub u64_limit : ℕ
u64_limit = 2 ^ 64

-- `extract_version`
unfoldable pub extract_version : Option Text → Coded (Option ℕ)
extract_version none = done none
extract_version (some t) = elim (parse_uint u64_limit t) [
  | some n ↦ done (some n)
  | none ↦ fails invalid_version_identifier
]

-- The third of the segments of a method's path is its name.
abbrev pub third_segment : List Text → Coded Text
third_segment [] = fails invalid_topic
third_segment (s ∷ []) = fails invalid_topic
third_segment (s ∷ t ∷ []) = fails missing_method_name
third_segment (s ∷ t ∷ name ∷ more) = done name

-- The second segment of a topic is the device, the fifth holds the properties.
abbrev pub device_segment : List Text → Coded Text
device_segment [] = fails invalid_topic
device_segment (s ∷ []) = fails missing_device_id
device_segment (s ∷ id ∷ more) = done id

abbrev pub fifth_segment : List Text → Option Text
fifth_segment (a ∷ b ∷ c ∷ d ∷ value ∷ more) = some value
fifth_segment _ = none

-- `HashMap` collected from the pairs: a pair with a key that is there takes its place.
unfoldable pub bag_insert : Text × Text → PropertyBag → PropertyBag
bag_insert (k, v) [] = (k, v) ∷ []
bag_insert (k, v) ((j, w) ∷ bag) =
    let rest = bag_insert (k, v) bag in if text_eq j k then (k, v) ∷ bag else (j, w) ∷ rest

unfoldable pub collect : PropertyBag → List (Text × Text) → PropertyBag
collect bag [] = bag
collect bag (pair ∷ pairs) = collect (bag_insert pair bag) pairs

module _ {J M : Type 0} (crates : Crates J M) where
  open crates use {json_text_body, json_body, json_map_body, percent_decode, form_parse, parse_url}

  abbrev props_of : Option Text → Option PropertyBag
  props_of none = none
  props_of (some value) = some (collect [] (form_parse value))

  unfoldable pub decode_c2d_message : PublishPacket → Coded (C2DMsg)
  unfolding collect bag_insert
  decode_c2d_message packet = do
    body ← ok_or invalid_message_body (json_text_body packet.payload)
    let segments = split b'/' packet.topic_name
    device_id ← device_segment segments
    done (record {
      packet_id = qos_to_packet_id packet.qos;
      body = body;
      device_id = device_id;
      props = props_of (fifth_segment segments);
    })

  abbrev parse_topic : Text → Coded Url
  parse_topic topic = unwrap (parse_url (codes "mqtt://" ++ topic))

  unfoldable pub decode_direct_method_invocation : PublishPacket → Coded (DirectMethodReq J)
  decode_direct_method_invocation packet = do
    url ← parse_topic packet.topic_name
    request_id ← ok_or missing_rid (query_get (codes "$rid") url.query_pairs)
    body ← ok_or invalid_message_body (json_body packet.payload)
    segments ← unwrap url.path_segments
    name ← third_segment segments
    method_name ← unwrap (percent_decode name)
    done (record {
      body = body;
      request_id = request_id;
      method_name = method_name;
      packet_id = qos_to_packet_id packet.qos;
    })

  unfoldable pub decode_desired_properties_update : PublishPacket → Coded (DesiredPropsUpdated M)
  decode_desired_properties_update packet = do
    url ← parse_topic packet.topic_name
    text ← ok_or missing_version (query_get (codes "$version") url.query_pairs)
    version ← ok_or invalid_version_identifier (parse_uint u64_limit text)
    found ← ok_or invalid_message_body (json_map_body packet.payload)
    body ← ok_or invalid_message_body found
    done (record {
      packet_id = qos_to_packet_id packet.qos;
      body = body;
      desired_properties_version = version;
    })

  -- Only an answer with status 200 has a body.
  abbrev pub response_body : ℕ → Text → Coded (Option J)
  response_body code payload =
      if code == 200 then ok_or invalid_message_body (json_body payload) else done none

  unfoldable pub decode_twin_response : PublishPacket → Coded (ReadTwinRes J)
  decode_twin_response packet = do
    url ← parse_topic packet.topic_name
    rid ← ok_or missing_rid (query_get (codes "$rid") url.query_pairs)
    digits ← called (slice packet.topic_name 17 20)
    code ← ok_or missing_status_code (parse_uint u16_limit digits)
    body ← response_body code packet.payload
    version ← extract_version (query_get (codes "$version") url.query_pairs)
    done (record {
      packet_id = qos_to_packet_id packet.qos;
      request_id = rid;
      status_code = get_status_code code;
      body = body;
      version = version;
    })

  abbrev wrap {ℓ} : {A : Type ℓ} → (A → MsgFromHub J M) → Coded A → Coded (MsgFromHub J M)
  wrap f m = m >>= λ a. done (f a)

  unfoldable pub decode_publish_packet : PublishPacket → Coded (MsgFromHub J M)
  decode_publish_packet packet =
      if starts_with twin_response_prefix packet.topic_name
      then wrap twin_response_message (decode_twin_response packet)
      else if starts_with desired_prefix packet.topic_name
      then wrap desired_properties_updated (decode_desired_properties_update packet)
      else if starts_with methods_prefix packet.topic_name
      then wrap direct_method_invocation (decode_direct_method_invocation packet)
      else if starts_with devices_prefix packet.topic_name
      then wrap cloud_to_device_message (decode_c2d_message packet)
      else done unknown_message

  unfoldable pub decode_packet : VariablePacket → Coded (MsgFromHub J M)
  decode_packet (connack_packet code) = done (connect_response_message (decode_connack_packet code))
  decode_packet (publish_packet packet) = decode_publish_packet packet
  decode_packet (puback_packet id) = done (publication_succeeded (record { value = id }))
  decode_packet (suback_packet packet) =
      wrap subscription_response_message (decode_suback_packet packet)
  decode_packet _ = fails unexpected_mqtt_packet_type

  -- `IotCodec::decode`; `read_packet` is `VariablePacket::decode`, and `none` its error.
  unfoldable pub decode : (Text → Option VariablePacket) → Text → Coded (MsgFromHub J M)
  unfolding decode_packet
  decode read_packet bytes = ok_or invalid_mqtt_packet (read_packet bytes) >>= decode_packet
