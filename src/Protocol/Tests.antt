-- ===== src/Protocol/Tests.antt =====
-- raiot-protocol/src/iot_codec.rs: small crates, runs of the codec, and the theorems at concrete
-- inputs.
use mathlib.Core.List.{flatten}
use raiot_rs.Base.{
  ℕ, ◌+◌, ◌/◌, returns, ◌^◌, ◌≡◌, ◌≢◌, refl, true, [], ◌∷◌, ◌++◌, map, none, some, ok, ◌==◌, ◌||◌,
  if◌then◌else◌, arith,
}
use raiot_rs.Protocol.Text.{Text, codes, pos, display_i32, split, decimal, parse_uint}
use raiot_rs.Protocol.Types.{at_least_once, from_device_id, clean}
use raiot_rs.Protocol.Messages.{
  MsgToHub, acknowledge, direct_method_response, subscribe_to_twin_reads, packet_id, MsgFromHub,
  subscription_response_message,
}
use raiot_rs.Protocol.Mqtt.{
  VariablePacket, QualityOfService, level0, level1, PublishPacket, SubscribePacket, publish_packet,
  subscribe_packet, Url, Crates, SubackPacket, suback_packet, SubscribeReturnCode,
}
use raiot_rs.Protocol.Auth.{
  TokenCrates, SasToken, ConnectionSettings, sas, generate_sas_token, token_for, for_device,
  get_sas_token,
}
use raiot_rs.Protocol.Auth.Tokens.{Serializes, fields, generate_sas_token_lem}
use raiot_rs.Protocol.Errors.{done, panicked}
use raiot_rs.Protocol.Encode.{encode_message, property_bag, reads_filter}
use raiot_rs.Protocol.Encode.Buffer.{encode, encode_lem}
use raiot_rs.Protocol.Plain.{plain_crates, tiny_encoder}
use raiot_rs.Protocol.Encode.Ids.{packet_identifier, packet_identifier-encode_message}
use raiot_rs.Protocol.Encode.Topics.{Encodes, split-property_bag}
use raiot_rs.Protocol.Encode.Total.{Accepts, topic_text, IsPlain, encode_message_total}
use raiot_rs.Protocol.Decode.{
  decode_packet, decode_suback_packet, decode_publish_packet, decode_twin_response,
  twin_response_prefix, query_get,
}
use raiot_rs.Protocol.Decode.Answers.{Answer}
use raiot_rs.Protocol.Decode.Dispatch.{decoder_for, matches, decode_publish_packet-subscribed}
use raiot_rs.Protocol.Decode.Kinds.{Fits, decode_packet-Fits}
use raiot_rs.Protocol.Decode.Twin.{decode_twin_response_lem, decode_twin_response_panics}

abbrev masked : ℕ → ℕ
masked c = if c == b'&' || c == b'=' || c == b'#' || c == b'+' then b'_' else c

abbrev mask : Text → Text
mask [] = []
mask (c ∷ t) = masked c ∷ mask t

-- JSON values and objects that are their own text.
abbrev small_crates : Crates Text Text
small_crates = record {
  new_connect = λ id. record {
    client_identifier = id;
    clean_session = true;
    user_name = none;
    password = none;
  };
  is_topic_name = λ t. true;
  is_topic_filter = λ t. true;
  json_text = λ t. t;
  map_text = λ t. some t;
  json_text_body = λ t. some (some t);
  json_body = λ t. some (some t);
  json_map_body = λ t. some (some t);
  percent_encode = mask;
  percent_decode = λ t. some t;
  form_parse = λ t. (codes "all", t) ∷ [];
  parse_url = λ t. some (record {
    path_segments = some (split b'/' t);
    query_pairs = (codes "$rid", codes "7") ∷ (codes "$version", codes "3") ∷ [];
  });
}

masked_lem : (c : ℕ) → (masked c ≢ b'&') × (masked c ≢ b'=') × (masked c ≢ b'#') × (masked c ≢ b'+')
masked_lem c = ground arith

small_encodes : Encodes small_crates
small_encodes [] = (tt, tt, tt, tt)
small_encodes (c ∷ t) =
    let (a, b, d, e) = masked_lem c in
    let (as_, bs, ds, es) = small_encodes t in ((a, as_), (b, bs), (d, ds), (e, es))

small_accepts : Accepts small_crates
small_accepts = record {
  names = λ t h p k. refl;
  filters = λ t h k. refl;
  maps = λ m. (m, refl);
  encodes = small_encodes;
}

abbrev answer : MsgToHub Text Text
answer = direct_method_response (record {
  request_id = codes "12";
  status = pos 200;
  payload = some (codes "{}");
  packet_id = some (record { value = 9 });
})

abbrev answer_packet : VariablePacket
answer_packet = publish_packet (record {
  topic_name = codes "$iothub/methods/res/200/?$rid=12";
  qos = level1 9;
  payload = codes "{}";
})

encode_answer : encode_message small_crates answer ≡ done answer_packet
unfolding encode_message display_i32
encode_answer = refl

packet_identifier-encode_message_example : packet_identifier answer_packet ≡ some 9
unfolding packet_id
packet_identifier-encode_message_example =
    packet_identifier-encode_message small_crates answer encode_answer

encode_message_total_example : (p : VariablePacket) × (encode_message small_crates answer ≡ done p)
unfolding topic_text IsPlain display_i32
encode_message_total_example =
    encode_message_total small_crates answer small_accepts (omega arith) (omega arith)

split-property_bag_example :
    map (split b'=') (
      split b'&'
        (property_bag small_crates true ((codes "k", codes "a=b") ∷ (codes "l", codes "m") ∷ [])))
    ≡ (codes "k" ∷ codes "a_b" ∷ []) ∷ (codes "l" ∷ codes "m" ∷ []) ∷ []
split-property_bag_example =
    split-property_bag small_crates (codes "k") (codes "a=b") ((codes "l", codes "m") ∷ [])
      small_encodes

abbrev reads_sub : MsgToHub Text Text
reads_sub =
    subscribe_to_twin_reads (record { packet_id = record { value = 4 }; mode = at_least_once })

abbrev reads_packet : SubscribePacket
reads_packet = record {
  packet_identifier = 4;
  subscribes = (reads_filter, QualityOfService.level1) ∷ [];
}

encode_reads_sub : encode_message small_crates reads_sub ≡ done (subscribe_packet reads_packet)
unfolding encode_message
encode_reads_sub = refl

abbrev twin_packet : PublishPacket
twin_packet = record {
  topic_name = codes "$iothub/twin/res/200/?$rid=7";
  qos = level0;
  payload = codes "{}";
}

twin_packet_matches : matches reads_filter twin_packet.topic_name ≡ true
unfolding matches
twin_packet_matches = refl

decode_publish_packet-subscribed_example :
    decode_publish_packet small_crates twin_packet ≡ decoder_for small_crates reads_sub twin_packet
decode_publish_packet-subscribed_example =
    decode_publish_packet-subscribed small_crates reads_sub reads_packet reads_filter
      QualityOfService.level1 twin_packet encode_reads_sub refl twin_packet_matches

abbrev small_url : Text → Url
small_url t = record {
  path_segments = some (split b'/' t);
  query_pairs = (codes "$rid", codes "7") ∷ (codes "$version", codes "3") ∷ [];
}

small_rid : (t : Text) → query_get (codes "$rid") (small_url t).query_pairs ≡ some (codes "7")
unfolding query_get
small_rid t = refl

decode_twin_response_lem_example :
    Answer small_crates twin_packet 200
      (codes "7")
      (some (codes "3"))
      (decode_twin_response small_crates twin_packet)
unfolding query_get
decode_twin_response_lem_example =
    decode_twin_response_lem small_crates twin_packet
      (small_url (codes "mqtt://" ++ twin_packet.topic_name)) (codes "7") b'2' b'0' b'0' b'/'
      (codes "?$rid=7") refl refl (small_rid (codes "mqtt://" ++ twin_packet.topic_name))
      (omega arith) (omega arith) (omega arith) (omega arith)

-- Two digits and the letter e with an acute accent, two bytes of UTF-8.
abbrev broken_packet : PublishPacket
broken_packet = record {
  topic_name = twin_response_prefix ++ (b'2' ∷ b'0' ∷ 195 ∷ 169 ∷ codes "/?$rid=7");
  qos = level0;
  payload = [];
}

decode_twin_response_panics_example : decode_twin_response small_crates broken_packet ≡ panicked
decode_twin_response_panics_example =
    decode_twin_response_panics small_crates broken_packet
      (small_url (codes "mqtt://" ++ broken_packet.topic_name)) (codes "7") b'2' b'0' 195 169
      (codes "/?$rid=7") refl refl (small_rid (codes "mqtt://" ++ broken_packet.topic_name))
      (omega arith)

abbrev cloud_packet : PublishPacket
cloud_packet = record {
  topic_name = codes "devices/pump/messages/devicebound/a=1";
  qos = level1 5;
  payload = codes "hi";
}

-- The packet of an acknowledgement takes one byte of a buffer of two.
encode_lem_example :
    encode plain_crates tiny_encoder
      (acknowledge (record { packet_id = record { value = 5 } }))
      (0 ∷ 9 ∷ [])
    ≡ done (1, 1 ∷ 9 ∷ [])
unfolding encode_message flatten
encode_lem_example =
    encode_lem plain_crates tiny_encoder (acknowledge (record { packet_id = record { value = 5 } }))
      (0 ∷ 9 ∷ []) (λ p. refl)

-- A key that is its own text, and a hash that is the key before the message.
abbrev small_tokens : TokenCrates
small_tokens = record {
  base64_decode = λ t. some t;
  base64_encode = λ bytes. bytes;
  hmac_sha256 = λ key bytes. key ++ bytes;
  byte_serialize = λ t. mask t;
  percent_encode = λ t. mask t;
  expiry = λ ttl. some (1000 + ttl / 1000);
}

small_tokens-Serializes : Serializes small_tokens
small_tokens-Serializes = record {
  no_ampersand = λ t. (small_encodes t).0;
  no_equals = λ t. (small_encodes t).1;
}

abbrev pump_settings : ConnectionSettings
pump_settings = record {
  hostname = codes "hub";
  port = 8883;
  client_id = from_device_id (codes "p=1");
  session_mode = clean;
  timeout = 30000;
  token_ttl = 60000;
  credentials = sas (codes "k");
}

abbrev pump_token : SasToken
pump_token = record {
  value = codes "SharedAccessSignature sr=hub/devices/p_1&sig=khub/devices/p_1\n1060&se=1060";
}

generate-pump : generate_sas_token small_tokens pump_settings (codes "k") ≡ returns pump_token
unfolding generate_sas_token token_for for_device get_sas_token decimal
generate-pump = refl

generate_sas_token_lem_example :
    (key : Text) × (se : ℕ) × (some (codes "k") ≡ some key)
    × (some 1060 ≡ some se)
    × (fields small_tokens pump_token.value
        ≡ (codes "sr" ∷ codes "hub/devices/p_1" ∷ [])
          ∷ (codes "sig"
              ∷ small_tokens.byte_serialize (
                  small_tokens.base64_encode (
                    small_tokens.hmac_sha256 key
                      (codes "hub/devices/p_1" ++ (codes "\n" ++ decimal se))))
              ∷ [])
          ∷ (codes "se" ∷ decimal se ∷ [])
          ∷ [])
generate_sas_token_lem_example =
    generate_sas_token_lem small_tokens pump_settings (codes "k") pump_token small_tokens-Serializes
      generate-pump

decimal_digits : decimal 4079 ≡ codes "4079"
unfolding decimal
decimal_digits = refl

parse_overflow : parse_uint (2 ^ 16) (codes "65536") ≡ none
unfolding parse_uint
parse_overflow = refl

-- The hub grants one filter and refuses another; the first answer counts.
abbrev granted : SubackPacket
granted = record {
  packet_identifier = 7;
  subscribes = SubscribeReturnCode.maximum_qos_level0 ∷ SubscribeReturnCode.failure ∷ [];
}

abbrev granted_res : MsgFromHub Text Text
granted_res =
    subscription_response_message (record { packet_id = record { value = 7 }; result = ok tt })

decode_packet-granted : decode_packet plain_crates (suback_packet granted) ≡ done granted_res
unfolding decode_packet decode_suback_packet
decode_packet-granted = refl

decode_packet-Fits_example : Fits (suback_packet granted) granted_res
decode_packet-Fits_example =
    decode_packet-Fits plain_crates (suback_packet granted) granted_res decode_packet-granted
