-- ===== src/Protocol.antt =====
-- raiot-protocol/src: identities, qualities of service, messages, and the codec between the
-- messages and MQTT packets.
pub mod Text
pub mod Types
pub mod Messages
pub mod Mqtt
pub mod Plain
pub mod Errors
pub mod Encode
pub mod Decode
pub mod Auth
pub mod Convert
mod Tests
