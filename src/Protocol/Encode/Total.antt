-- ===== src/Protocol/Encode/Total.antt =====
-- raiot-protocol/src/iot_codec.rs: every message whose identifiers hold no wildcard is encoded; none
-- of the `unwrap` and `expect` calls on topic names, filters and JSON panics.
use raiot_rs.Base.{
  ℕ, zero, suc, ◌+◌, ◌%◌, ◌/◌, ◌^◌, ◌<◌, ◌≡◌, refl, [], ◌∷◌, ◌++◌, length, Bool, true, false,
  Option, none, some, if◌then◌else◌, arith, append_assoc,
}
use raiot_rs.Protocol.Text.{Text, codes, ℤ, pos, negsuc, display_i32, digits_before}
use raiot_rs.Protocol.Types.{ClientIdentity, device, module_, PacketId, DeliveryGuarantees}
use raiot_rs.Protocol.Messages.{
  PropertyBag, MsgToHub, connect, acknowledge, telemetry, read_twin, subscribe_to_twin_reads,
  subscribe_to_twin_updates, update_reported_properties, subscribe_to_c2d, subscribe_to_methods,
  direct_method_response,
}
use raiot_rs.Protocol.Mqtt.{VariablePacket, Crates, QosWithPacketIdentifier}
use raiot_rs.Protocol.Errors.{done}
use raiot_rs.Protocol.Decode.Cloud.{Without}
use raiot_rs.Protocol.Encode.{
  property_bag, telemetry_channel, publish, encode_subscription, encode_message, header_text,
  reads_filter, updates_filter, methods_filter, c2d_filter,
}
use raiot_rs.Protocol.Encode.Topics.{Encodes, Without-append}

-- No wildcard of MQTT.
abbrev pub Plain : Text → Type 0
Plain t = Without b'#' t × Without b'+' t

Plain-append : (s t : Text) → Plain s → Plain t → Plain (s ++ t)
Plain-append s t h k = (Without-append b'#' s t h.0 k.0, Without-append b'+' s t h.1 k.1)

digits_before-Plain : (fuel n : ℕ) (acc : Text) → Plain acc → Plain (digits_before fuel n acc)
unfolding digits_before
digits_before-Plain zero n acc h = h
digits_before-Plain (suc fuel) n acc h =
    ground (arith, digits_before-Plain fuel (n / 10) ((b'0' + n % 10) ∷ acc))

display_i32-Plain : (n : ℤ) → Plain (display_i32 n)
unfolding display_i32
display_i32-Plain (pos n) = digits_before-Plain 20 n [] (tt, tt)
display_i32-Plain (negsuc n) =
    Plain-append (b'-' ∷ []) _ (omega arith) (digits_before-Plain 20 (suc n) [] (tt, tt))

abbrev pub PlainClient : ClientIdentity → Type 0
PlainClient (device d) = Plain d.device_id
PlainClient (module_ m) = Plain m.device_id × Plain m.module_id

telemetry_channel-Plain : (c : ClientIdentity) → PlainClient c → Plain (telemetry_channel c)
unfolding telemetry_channel
telemetry_channel-Plain (device d) h =
    Plain-append (codes "devices/") _ (omega arith) (Plain-append d.device_id _ h (omega arith))
telemetry_channel-Plain (module_ m) h = Plain-append (codes "devices/") _ (omega arith) (
    Plain-append m.device_id _ h.0 (
      Plain-append (codes "/modules/") _ (omega arith)
        (Plain-append m.module_id _ h.1 (omega arith))))

telemetry_pos : (c : ClientIdentity) (t : Text) → 0 < length (telemetry_channel c ++ t)
unfolding telemetry_channel
telemetry_pos (device d) t = omega arith
telemetry_pos (module_ m) t = omega arith

module _ {J M : Type 0} (crates : Crates J M) where
  -- What the crates promise: a topic name is refused only when it is empty, for a wildcard, or for a
  -- length of 64 KiB and more, and so is a filter that ends in a wildcard level; a JSON object is always printed.
  pub record Accepts : Type 0 where
    pub names :
        (t : Text) → Plain t → 0 < length t → length t < 2 ^ 16 → crates.is_topic_name t ≡ true
    pub filters :
        (t : Text)
        → Plain t
        → length (t ++ codes "/#") < 2 ^ 16
        → crates.is_topic_filter (t ++ codes "/#") ≡ true
    pub maps : (m : M) → (t : Text) × (crates.map_text m ≡ some t)
    pub encodes : Encodes crates

  -- The topic or the filter that a message goes out with.
  unfoldable pub topic_text : MsgToHub J M → Text
  topic_text (connect m) = []
  topic_text (acknowledge m) = []
  topic_text (telemetry m) = telemetry_channel m.client_id ++ header_text crates m.headers
  topic_text (read_twin m) = codes "$iothub/twin/GET/?$rid=" ++ m.request_id
  topic_text (update_reported_properties m) =
      codes "$iothub/twin/PATCH/properties/reported/?$rid=" ++ m.request_id
  topic_text (direct_method_response m) =
      codes "$iothub/methods/res/" ++ (display_i32 m.status ++ (codes "/?$rid=" ++ m.request_id))
  topic_text (subscribe_to_twin_reads m) = reads_filter
  topic_text (subscribe_to_twin_updates m) = updates_filter
  topic_text (subscribe_to_methods m) = methods_filter
  topic_text (subscribe_to_c2d m) = c2d_filter m.device_id.device_id

  unfoldable pub IsPlain : MsgToHub J M → Type 0
  IsPlain (telemetry m) = PlainClient m.client_id
  IsPlain (read_twin m) = Plain m.request_id
  IsPlain (update_reported_properties m) = Plain m.request_id
  IsPlain (direct_method_response m) = Plain m.request_id
  IsPlain (subscribe_to_c2d m) = Plain m.device_id.device_id
  IsPlain _ = Unit {0}

  property_bag-Plain :
      (enc : Encodes crates) (first : Bool) (headers : PropertyBag)
      → Plain (property_bag crates first headers)
  unfolding property_bag
  property_bag-Plain enc first [] = (tt, tt)
  property_bag-Plain enc first ((k, v) ∷ headers) =
      Plain-append (if first then [] else codes "&") _ (amp first) (
        Plain-append (crates.percent_encode k ++ (codes "=" ++ crates.percent_encode v)) _
          (Plain-append (crates.percent_encode k) _ ((enc k).2, (enc k).3)
            (Plain-append (codes "=") _ (omega arith) ((enc v).2, (enc v).3)))
          (property_bag-Plain enc false headers))
    where
      amp : (b : Bool) → Plain (if b then [] else codes "&")
      amp true = (tt, tt)
      amp false = omega arith

  header_text-Plain :
      (enc : Encodes crates) (headers : Option PropertyBag) → Plain (header_text crates headers)
  header_text-Plain enc none = (tt, tt)
  header_text-Plain enc (some headers) = property_bag-Plain enc true headers

  publish_ok :
      (a : Accepts) (topic : Text) (qos : QosWithPacketIdentifier) (payload : Text)
      → Plain topic
      → 0 < length topic
      → length topic < 2 ^ 16
      → (p : VariablePacket) × (publish crates topic qos payload ≡ done p)
  unfolding publish
  publish_ok a topic qos payload h some_byte k = rw (a.names topic h some_byte k) (_, refl)

  subscription_ok :
      (a : Accepts) (id : PacketId) (t filter : Text) (mode : DeliveryGuarantees)
      → filter ≡ t ++ codes "/#"
      → Plain t
      → length filter < 2 ^ 16
      → (p : VariablePacket) × (encode_subscription crates id filter mode ≡ done p)
  unfolding encode_subscription
  subscription_ok a id t filter mode e h k = rw (e, a.filters t h (rw e at k)) (_, refl)

  -- With crates that accept topic names that are not empty and without wildcard, and filters, below 64 KiB,
  -- as `Accepts` says, a message whose identifiers hold no wildcard, with a topic of less than 64 KiB, is
  -- encoded to a packet: the codec neither panics nor fails on it.
  pub encode_message_total :
      (msg : MsgToHub J M)
      → Accepts
      → IsPlain msg
      → length (topic_text msg) < 2 ^ 16
      → (p : VariablePacket) × (encode_message crates msg ≡ done p)
  unfolding encode_message topic_text IsPlain
  encode_message_total (connect m) a h k = (_, refl)
  encode_message_total (acknowledge m) a h k = (_, refl)
  encode_message_total (telemetry m) a h k =
      publish_ok a _ _ _
        (Plain-append (telemetry_channel m.client_id) _ (telemetry_channel-Plain m.client_id h)
          (header_text-Plain a.encodes m.headers))
        (telemetry_pos m.client_id _) k
  encode_message_total (read_twin m) a h k =
      publish_ok a _ _ _ (Plain-append (codes "$iothub/twin/GET/?$rid=") _ (omega arith) h)
        (omega arith) k
  encode_message_total (update_reported_properties m) a h k =
      let (t, printed) = a.maps m.reported in
      rw printed (
        publish_ok a _ _ t
          (Plain-append (codes "$iothub/twin/PATCH/properties/reported/?$rid=") _ (omega arith) h)
          (omega arith) k)
  encode_message_total (direct_method_response m) a h k =
      publish_ok a _ _ _
        (Plain-append (codes "$iothub/methods/res/") _ (omega arith) (
          Plain-append (display_i32 m.status) _ (display_i32-Plain m.status)
            (Plain-append (codes "/?$rid=") _ (omega arith) h)))
        (omega arith) k
  encode_message_total (subscribe_to_twin_reads m) a h k =
      subscription_ok a m.packet_id (codes "$iothub/twin/res") reads_filter m.mode refl
        (omega arith) k
  encode_message_total (subscribe_to_twin_updates m) a h k =
      subscription_ok a m.packet_id (codes "$iothub/twin/PATCH/properties/desired") updates_filter
        m.mode refl (omega arith) k
  encode_message_total (subscribe_to_methods m) a h k =
      subscription_ok a m.packet_id (codes "$iothub/methods/POST") methods_filter m.mode refl
        (omega arith) k
  encode_message_total (subscribe_to_c2d m) a h k =
      subscription_ok a m.packet_id
        (codes "devices/" ++ (m.device_id.device_id ++ codes "/messages/devicebound"))
        (c2d_filter m.device_id.device_id) m.mode (c2d_lem m.device_id.device_id)
        (Plain-append (codes "devices/") _ (omega arith)
          (Plain-append m.device_id.device_id _ h (omega arith)))
        k
    where
      c2d_lem :
          (id : Text)
          → c2d_filter id
            ≡ (codes "devices/" ++ (id ++ codes "/messages/devicebound")) ++ codes "/#"
      c2d_lem id =
          rw
            (
              append_assoc (codes "devices/") (id ++ codes "/messages/devicebound") (codes "/#"),
              append_assoc id (codes "/messages/devicebound") (codes "/#"),
            )
            refl
