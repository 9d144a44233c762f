-- ===== src/Protocol/Encode/Ids.antt =====
-- raiot-protocol/src/iot_codec.rs: the packet identifier that an encoded message carries.
use raiot_rs.Base.{ℕ, ◌≡◌, Option, none, some, arith}
use raiot_rs.Protocol.Types.{PacketId}
use raiot_rs.Protocol.Messages.{MsgToHub, connect, acknowledge, packet_id}
use raiot_rs.Protocol.Mqtt.{
  QosWithPacketIdentifier, level0, level1, level2, VariablePacket, connect_packet, connack_packet,
  publish_packet, puback_packet, subscribe_packet, suback_packet, other_packet, Crates,
}
use raiot_rs.Protocol.Errors.{done}
use raiot_rs.Protocol.Encode.{encode_message}

abbrev pub qos_identifier : QosWithPacketIdentifier → Option ℕ
qos_identifier level0 = none
qos_identifier (level1 id) = some id
qos_identifier (level2 id) = some id

-- The identifier in the variable header of a packet.
abbrev pub packet_identifier : VariablePacket → Option ℕ
packet_identifier (connect_packet p) = none
packet_identifier (connack_packet code) = none
packet_identifier (publish_packet p) = qos_identifier p.qos
packet_identifier (puback_packet id) = some id
packet_identifier (subscribe_packet p) = some p.packet_identifier
packet_identifier (suback_packet p) = some p.packet_identifier
packet_identifier (other_packet n) = none

abbrev id_value : Option PacketId → Option ℕ
id_value none = none
id_value (some id) = some id.value

-- Whatever the message, the packet that it is encoded to carries just the identifier that
-- `packet_id` announces, by which its acknowledgement will be matched, and none if that is none.
pub packet_identifier-encode_message :
    {J M : Type 0} (crates : Crates J M) (msg : MsgToHub J M) {p : VariablePacket}
    → encode_message crates msg ≡ done p
    → packet_identifier p ≡ id_value (packet_id msg)
unfolding encode_message packet_id
packet_identifier-encode_message crates (connect msg) e = ground arith
packet_identifier-encode_message crates (acknowledge msg) e = ground arith
packet_identifier-encode_message crates msg e = ground arith
