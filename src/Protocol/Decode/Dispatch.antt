-- ===== src/Protocol/Decode/Dispatch.antt =====
-- raiot-protocol/src/iot_codec.rs: which decoder a topic goes to, and the filters subscribed to.
use raiot_rs.Base.{
  ◌≡◌, refl, sym, subst, [], ◌∷◌, ◌++◌, Bool, true, false, ◌==◌, ◌&&◌, ◌||◌, arith, drop, length,
}
use raiot_rs.Protocol.Text.{Text, codes, starts_with, text_eq}
use raiot_rs.Protocol.Types.{PacketId, DeliveryGuarantees}
use raiot_rs.Protocol.Messages.{
  MsgFromHub, unknown_message, twin_response_message, desired_properties_updated,
  cloud_to_device_message, direct_method_invocation, MsgToHub, subscribe_to_twin_reads,
  subscribe_to_twin_updates, subscribe_to_c2d, subscribe_to_methods, connect,
}
use raiot_rs.Protocol.Mqtt.{
  QualityOfService, PublishPacket, subscribe_packet, SubscribePacket, Crates,
}
use raiot_rs.Protocol.Errors.{Coded, done}
use raiot_rs.Protocol.Encode.{
  encode_message, reads_filter, updates_filter, methods_filter, c2d_filter, encode_subscription,
}
use raiot_rs.Protocol.Decode.Cloud.{Without}
use raiot_rs.Protocol.Decode.{
  twin_response_prefix, desired_prefix, methods_prefix, devices_prefix, wrap, decode_publish_packet,
  decode_twin_response, decode_desired_properties_update, decode_direct_method_invocation,
  decode_c2d_message,
}

starts_with-append : (p t : Text) → starts_with p t ≡ true → t ≡ p ++ drop (length p) t
starts_with-append [] t h = refl
starts_with-append (c ∷ p) [] h = cc
starts_with-append (c ∷ p) (d ∷ t) h = ground (arith, starts_with-append p t)

-- A topic filter that ends in the wildcard for all further levels, against a topic. (The level above
-- the wildcard, which the MQTT standard matches too, is left out: no message is published there.)
unfoldable pub matches : Text → Text → Bool
matches [] [] = true
matches [] (c ∷ t) = false
matches (f ∷ fs) [] = f == b'#'
matches (f ∷ fs) (c ∷ t) = f == b'#' || (f == c && matches fs t)

matches_front : (p q t : Text) → Without b'#' p → matches (p ++ q) t ≡ true → starts_with p t ≡ true
unfolding matches
matches_front [] q t k h = refl
matches_front (c ∷ p) q [] k h = ground arith
matches_front (c ∷ p) q (d ∷ t) k h = ground (arith, matches_front p q t)

-- The four prefixes exclude one another, so the order of the tests does not matter.
pub record Only (p : Text) (t : Text) : Type 0 where
  pub twin : starts_with twin_response_prefix t ≡ text_eq p twin_response_prefix
  pub desired : starts_with desired_prefix t ≡ text_eq p desired_prefix
  pub methods : starts_with methods_prefix t ≡ text_eq p methods_prefix
  pub devices : starts_with devices_prefix t ≡ text_eq p devices_prefix

Only-append :
    (rest : Text)
    → Only twin_response_prefix (twin_response_prefix ++ rest)
      × Only desired_prefix (desired_prefix ++ rest)
      × Only methods_prefix (methods_prefix ++ rest)
      × Only devices_prefix (devices_prefix ++ rest)
Only-append rest = (
  record { twin = refl; desired = refl; methods = refl; devices = refl },
  record { twin = refl; desired = refl; methods = refl; devices = refl },
  record { twin = refl; desired = refl; methods = refl; devices = refl },
  record { twin = refl; desired = refl; methods = refl; devices = refl },
)

Only-at : (p t : Text) → ((rest : Text) → Only p (p ++ rest)) → starts_with p t ≡ true → Only p t
Only-at p t all h = subst (Only p) (sym (starts_with-append p t h)) (all (drop (length p) t))

-- The filter that a subscription is encoded with.
filter_of :
    {J M : Type 0} (crates : Crates J M) (id : PacketId) (wanted filter : Text)
    (mode : DeliveryGuarantees) (q : QualityOfService) (s : SubscribePacket)
    → encode_subscription crates id wanted mode ≡ done (subscribe_packet s)
    → s.subscribes ≡ (filter, q) ∷ []
    → filter ≡ wanted
unfolding encode_subscription
filter_of crates id wanted filter mode q s e one = ground arith

-- A topic under a filter that begins with one of the prefixes has that prefix alone.
Only-under :
    (p q t filter : Text)
    → ((rest : Text) → Only p (p ++ rest))
    → Without b'#' p
    → filter ≡ p ++ q
    → matches filter t ≡ true
    → Only p t
Only-under p q t filter all plain e h = Only-at p t all (matches_front p q t plain (rw e at h))

module _ {J M : Type 0} (crates : Crates J M) where
  -- The decoder that a subscription asks for.
  pub decoder_for : MsgToHub J M → PublishPacket → Coded (MsgFromHub J M)
  decoder_for (subscribe_to_twin_reads msg) p =
      wrap crates twin_response_message (decode_twin_response crates p)
  decoder_for (subscribe_to_twin_updates msg) p =
      wrap crates desired_properties_updated (decode_desired_properties_update crates p)
  decoder_for (subscribe_to_methods msg) p =
      wrap crates direct_method_invocation (decode_direct_method_invocation crates p)
  decoder_for (subscribe_to_c2d msg) p =
      wrap crates cloud_to_device_message (decode_c2d_message crates p)
  decoder_for _ p = done unknown_message

  -- For each prefix, the decoder that a topic with it goes to.
  module _ (p : PublishPacket) where
    dispatch_twin :
        Only twin_response_prefix p.topic_name
        → decode_publish_packet crates p
          ≡ wrap crates twin_response_message (decode_twin_response crates p)
    unfolding decode_publish_packet
    dispatch_twin o = rw o.twin refl

    dispatch_desired :
        Only desired_prefix p.topic_name
        → decode_publish_packet crates p
          ≡ wrap crates desired_properties_updated (decode_desired_properties_update crates p)
    unfolding decode_publish_packet
    dispatch_desired o = rw (o.twin, o.desired) refl

    dispatch_methods :
        Only methods_prefix p.topic_name
        → decode_publish_packet crates p
          ≡ wrap crates direct_method_invocation (decode_direct_method_invocation crates p)
    unfolding decode_publish_packet
    dispatch_methods o = rw (o.twin, o.desired, o.methods) refl

    dispatch_devices :
        Only devices_prefix p.topic_name
        → decode_publish_packet crates p
          ≡ wrap crates cloud_to_device_message (decode_c2d_message crates p)
    unfolding decode_publish_packet
    dispatch_devices o = rw (o.twin, o.desired, o.methods, o.devices) refl

  -- A message on a topic that a subscription's filter covers goes to the decoder of that kind of
  -- message.
  pub decode_publish_packet-subscribed :
      (msg : MsgToHub J M) (s : SubscribePacket) (filter : Text) (q : QualityOfService)
      (p : PublishPacket)
      → encode_message crates msg ≡ done (subscribe_packet s)
      → s.subscribes ≡ (filter, q) ∷ []
      → matches filter p.topic_name ≡ true
      → decode_publish_packet crates p ≡ decoder_for msg p
  unfolding encode_message decoder_for
  decode_publish_packet-subscribed (subscribe_to_twin_reads m) s filter q p e one h =
      dispatch_twin p (
        Only-under twin_response_prefix (codes "#") p.topic_name filter
          (λ rest. (Only-append rest).0) (omega arith)
          (filter_of crates m.packet_id reads_filter filter m.mode q s e one) h)
  decode_publish_packet-subscribed (subscribe_to_twin_updates m) s filter q p e one h =
      dispatch_desired p (
        Only-under desired_prefix (codes "#") p.topic_name filter (λ rest. (Only-append rest).1)
          (omega arith) (filter_of crates m.packet_id updates_filter filter m.mode q s e one) h)
  decode_publish_packet-subscribed (subscribe_to_methods m) s filter q p e one h =
      dispatch_methods p (
        Only-under methods_prefix (codes "#") p.topic_name filter (λ rest. (Only-append rest).2)
          (omega arith) (filter_of crates m.packet_id methods_filter filter m.mode q s e one) h)
  decode_publish_packet-subscribed (subscribe_to_c2d m) s filter q p e one h = dispatch_devices p (
      Only-under devices_prefix _ p.topic_name filter (λ rest. (Only-append rest).3) (omega arith)
        (filter_of crates m.packet_id (c2d_filter m.device_id.device_id) filter m.mode q s e one) h)
  decode_publish_packet-subscribed (connect m) s filter q p e one h = cc
  decode_publish_packet-subscribed msg s filter q p e one h = ground arith
