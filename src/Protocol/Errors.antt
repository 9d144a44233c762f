-- ===== src/Protocol/Errors.antt =====
-- raiot-protocol/src/iot_codec.rs: the errors of the codec, and computations that fail or panic.
use raiot_rs.Base.{Option, none, some, Call, returns, panics}
use raiot_rs.Protocol.Text.{Text, codes}

pub data CodecError : Type 0 where
  unexpected_mqtt_packet_type invalid_mqtt_packet invalid_message_body invalid_topic : CodecError
  missing_rid missing_device_id missing_method_name missing_version : CodecError
  missing_status_code invalid_version_identifier : CodecError

-- `CodecError::get_text`
unfoldable pub get_text : CodecError → Text
get_text unexpected_mqtt_packet_type = codes "Unexpected MQTT Packet Type"
get_text invalid_mqtt_packet = codes "Invalid MQTT Packet"
get_text invalid_message_body = codes "Invalid Message Body"
get_text invalid_topic = codes "Invalid Topic"
get_text missing_rid = codes "Missing Request IDentifier (RID)"
get_text missing_device_id = codes "Missing Device ID"
get_text missing_method_name = codes "Missing Direct Method Name"
get_text missing_version = codes "Missing Version Identifier"
get_text missing_status_code = codes "Missing Status Code"
get_text invalid_version_identifier = codes "Invalid Twin Version Identifier"

-- A codec call ends with a value, with an error, or by a panic.
pub data Coded {ℓ} (A : Type ℓ) : Type ℓ where
  done : A → Coded A
  fails : CodecError → Coded A
  panicked : Coded A

infixl 5 ◌>>=◌
abbrev pub ◌>>=◌ {ℓ κ} : {A : Type ℓ} {B : Type κ} → Coded A → (A → Coded B) → Coded B
done a >>= f = f a
fails e >>= f = fails e
panicked >>= f = panicked

-- `unwrap` and `expect`
abbrev pub unwrap {ℓ} : {A : Type ℓ} → Option A → Coded A
unwrap (some a) = done a
unwrap none = panicked

-- `ok_or`
abbrev pub ok_or {ℓ} : {A : Type ℓ} → CodecError → Option A → Coded A
ok_or e (some a) = done a
ok_or e none = fails e

abbrev pub called {ℓ} : {A : Type ℓ} → Call A → Coded A
called (returns a) = done a
called panics = panicked
