-- ===== src/Protocol/Plain.antt =====
-- Small crates and a small encoder for runs at concrete inputs.
use raiot_rs.Base.{true, [], ◌∷◌, none, some}
use raiot_rs.Protocol.Text.{Text}
use raiot_rs.Protocol.Mqtt.{VariablePacket, Crates}
use raiot_rs.Packets.{Encoder}

abbrev pub plain_crates : Crates Text Text
plain_crates = record {
  new_connect = λ id. record {
    client_identifier = id;
    clean_session = true;
    user_name = none;
    password = none;
  };
  is_topic_name = λ t. true;
  is_topic_filter = λ t. true;
  json_text = λ t. t;
  map_text = λ t. some t;
  json_text_body = λ t. some (some t);
  json_body = λ t. some (some t);
  json_map_body = λ t. some (some t);
  percent_encode = λ t. t;
  percent_decode = λ t. some t;
  form_parse = λ t. [];
  parse_url = λ t. none;
}

-- Every packet takes one byte.
abbrev pub tiny_encoder : Encoder VariablePacket
tiny_encoder = record { pieces = λ p. (1 ∷ []) ∷ []; encoded_length = λ p. 1 }
