-- ===== src/Protocol/Decode/Kinds.antt =====
-- raiot-protocol/src/iot_codec.rs: what kind of message a kind of packet decodes to.
use raiot_rs.Base.{
  ℕ, ◌≡◌, refl, subst, true, false, arith, List, Bool, if◌then◌else◌, sym, [], ◌∷◌, ◌≢◌, ◌↔◌, ok,
  err, Result, Option, ◌⊎◌, inl, inr,
}
use raiot_rs.Protocol.Messages.{
  SubError, failure, ConnectRes, accepted, authentication_failed, unauthorized,
  mqtt_reserved_error_code, ReadTwinRes, DesiredPropsUpdated, DirectMethodReq, C2DMsg, SubRes,
  MsgFromHub, unknown_message, connect_response_message, twin_response_message,
  desired_properties_updated, cloud_to_device_message, direct_method_invocation,
  subscription_response_message, publication_succeeded,
}
use raiot_rs.Protocol.Mqtt.{
  VariablePacket, connect_packet, connack_packet, publish_packet, puback_packet, subscribe_packet,
  suback_packet, other_packet, PublishPacket, SubscribeReturnCode, Crates, SubackPacket,
  ConnectReturnCode, connection_accepted, bad_user_name_or_password, identifier_rejected,
  not_authorized, reserved,
}
use raiot_rs.Protocol.Types.{PacketId}
use raiot_rs.Protocol.Errors.{Coded, done, fails, panicked}
use raiot_rs.Protocol.Text.{starts_with}
use raiot_rs.Protocol.Decode.Answers.{HasId, qos_to_packet_id-HasId}
use raiot_rs.Protocol.Decode.{
  decode_packet, decode_publish_packet, decode_suback_packet, decode_connack_packet, wrap,
  decode_twin_response, decode_desired_properties_update, decode_direct_method_invocation,
  decode_c2d_message, qos_to_packet_id, twin_response_prefix, desired_prefix, methods_prefix,
  devices_prefix,
}

-- The codes of the hub that each answer to a connection is read from.
abbrev pub FromCode : ConnectReturnCode → ConnectRes → Type 0
FromCode code accepted = code ≡ connection_accepted
FromCode code authentication_failed =
    (code ≡ bad_user_name_or_password) ⊎ (code ≡ identifier_rejected)
FromCode code unauthorized = code ≡ not_authorized
FromCode code ConnectRes.service_unavailable = code ≡ ConnectReturnCode.service_unavailable
FromCode code ConnectRes.unacceptable_protocol_version =
    code ≡ ConnectReturnCode.unacceptable_protocol_version
FromCode code (mqtt_reserved_error_code n) = code ≡ reserved n
FromCode code _ = ⊥

decode_connack_packet-FromCode :
    (code : ConnectReturnCode) → FromCode code (decode_connack_packet code)
unfolding decode_connack_packet
decode_connack_packet-FromCode connection_accepted = refl
decode_connack_packet-FromCode bad_user_name_or_password = inl refl
decode_connack_packet-FromCode ConnectReturnCode.service_unavailable = refl
decode_connack_packet-FromCode ConnectReturnCode.unacceptable_protocol_version = refl
decode_connack_packet-FromCode identifier_rejected = inr refl
decode_connack_packet-FromCode not_authorized = refl
decode_connack_packet-FromCode (reserved n) = refl

-- The answer to a subscription has the packet's identifier, and is a success just when the first of the
-- return codes is no failure.
pub record Granted (packet : SubackPacket) (res : SubRes) : Type 0 where
  pub code : SubscribeReturnCode
  pub more : List SubscribeReturnCode
  pub codes : packet.subscribes ≡ code ∷ more
  pub id : res.packet_id.value ≡ packet.packet_identifier
  pub success : (res.result ≡ ok tt) ↔ (code ≢ SubscribeReturnCode.failure)

module _ {J M : Type 0} where
  -- A message that the hub published: its topic has the prefix of its kind, or none of the four, and
  -- it has the packet's identifier.
  abbrev pub Published : PublishPacket → MsgFromHub J M → Type 0
  Published packet (twin_response_message res) =
      (starts_with twin_response_prefix packet.topic_name ≡ true) × HasId packet.qos res.packet_id
  Published packet (desired_properties_updated msg) =
      (starts_with desired_prefix packet.topic_name ≡ true) × HasId packet.qos msg.packet_id
  Published packet (direct_method_invocation req) =
      (starts_with methods_prefix packet.topic_name ≡ true) × HasId packet.qos req.packet_id
  Published packet (cloud_to_device_message msg) =
      (starts_with devices_prefix packet.topic_name ≡ true) × HasId packet.qos msg.packet_id
  Published packet unknown_message =
      (starts_with twin_response_prefix packet.topic_name ≡ false)
      × (starts_with desired_prefix packet.topic_name ≡ false)
      × (starts_with methods_prefix packet.topic_name ≡ false)
      × (starts_with devices_prefix packet.topic_name ≡ false)
  Published packet _ = ⊥

  -- The message that a packet stands for.
  abbrev pub Fits : VariablePacket → MsgFromHub J M → Type 0
  Fits (connack_packet code) msg =
      (res : ConnectRes) × (msg ≡ connect_response_message res) × FromCode code res
  Fits (puback_packet id) msg = msg ≡ publication_succeeded (record { value = id })
  Fits (suback_packet packet) msg =
      (res : SubRes) × (msg ≡ subscription_response_message res) × Granted packet res
  Fits (publish_packet packet) msg = Published packet msg
  Fits (connect_packet packet) msg = ⊥
  Fits (subscribe_packet packet) msg = ⊥
  Fits (other_packet n) msg = ⊥

-- What the first code makes of the answer.
success_of :
    (code : SubscribeReturnCode) (r : Result SubError (Unit {0}))
    → (elim code [ SubscribeReturnCode.failure ↦ err failure | _ ↦ ok tt ]) ≡ r
    → (r ≡ ok tt) ↔ (code ≢ SubscribeReturnCode.failure)
success_of SubscribeReturnCode.failure r h = (λ same. cc, λ ne. absurd (ne refl))
success_of SubscribeReturnCode.maximum_qos_level0 r h = (λ same other. cc, λ ne. sym h)
success_of SubscribeReturnCode.maximum_qos_level1 r h = (λ same other. cc, λ ne. sym h)
success_of SubscribeReturnCode.maximum_qos_level2 r h = (λ same other. cc, λ ne. sym h)

suback-Granted :
    (id : ℕ) (answers : List SubscribeReturnCode) (res : SubRes)
    → decode_suback_packet (record { packet_identifier = id; subscribes = answers }) ≡ done res
    → Granted (record { packet_identifier = id; subscribes = answers }) res
unfolding decode_suback_packet
suback-Granted id [] res h = cc
suback-Granted id (code ∷ more) res h = record {
  code = code;
  more = more;
  codes = refl;
  id = ground (arith, h);
  success = success_of code res.result (ground (arith, h));
}

module _ {J M : Type 0} (crates : Crates J M) (packet : PublishPacket) where
  twin-id :
      (res : ReadTwinRes J)
      → decode_twin_response crates packet ≡ done res
      → res.packet_id ≡ qos_to_packet_id packet.qos
  unfolding decode_twin_response
  twin-id res h = ground (arith, h)

  desired-id :
      (msg : DesiredPropsUpdated M)
      → decode_desired_properties_update crates packet ≡ done msg
      → msg.packet_id ≡ qos_to_packet_id packet.qos
  unfolding decode_desired_properties_update
  desired-id msg h = ground (arith, h)

  method-id :
      (req : DirectMethodReq J)
      → decode_direct_method_invocation crates packet ≡ done req
      → req.packet_id ≡ qos_to_packet_id packet.qos
  unfolding decode_direct_method_invocation
  method-id req h = ground (arith, h)

  c2d-id :
      (msg : C2DMsg)
      → decode_c2d_message crates packet ≡ done msg
      → msg.packet_id ≡ qos_to_packet_id packet.qos
  unfolding decode_c2d_message
  c2d-id msg h = ground (arith, h)

module _ {J M : Type 0} (crates : Crates J M) where
  wrap-eq-done :
      {A : Type 0} (f : A → MsgFromHub J M) (x : Coded A) (msg : MsgFromHub J M)
      → wrap crates f x ≡ done msg
      → (a : A) × (x ≡ done a) × (msg ≡ f a)
  wrap-eq-done f (done a) msg h = (a, refl, cc)
  wrap-eq-done f (fails k) msg h = cc
  wrap-eq-done f panicked msg h = cc

  -- Whatever holds of the results of both branches.
  either_branch :
      (P : MsgFromHub J M → Type 0) (b : Bool) (x y : Coded (MsgFromHub J M)) (msg : MsgFromHub J M)
      → (b ≡ true → x ≡ done msg → P msg)
      → (b ≡ false → y ≡ done msg → P msg)
      → (if b then x else y) ≡ done msg
      → P msg
  either_branch P true x y msg f g h = f refl h
  either_branch P false x y msg f g h = g refl h

  module _ (packet : PublishPacket) where
    -- The identifier of a message whose reader keeps that of the packet.
    kept_id : {id : Option PacketId} → id ≡ qos_to_packet_id packet.qos → HasId packet.qos id
    kept_id same = subst (HasId packet.qos) (sym same) (qos_to_packet_id-HasId packet.qos)

    -- A branch of the dispatch.
    wrapped :
        {A : Type 0} (f : A → MsgFromHub J M) (x : Coded A) (msg : MsgFromHub J M)
        → ((a : A) → x ≡ done a → Published packet (f a))
        → wrap crates f x ≡ done msg
        → Published packet msg
    wrapped f x msg each h =
        let (a, found, same) = wrap-eq-done f x msg h in
        subst (Published packet) (sym same) (each a found)

    publish-Published :
        (msg : MsgFromHub J M)
        → decode_publish_packet crates packet ≡ done msg
        → Published packet msg
    unfolding decode_publish_packet
    publish-Published msg =
        either_branch (Published packet) (starts_with twin_response_prefix packet.topic_name) _ _
          msg
          (λ t.
            wrapped twin_response_message _ msg (λ a e. (t, kept_id (twin-id crates packet a e))))
          (λ no1.
            either_branch (Published packet) (starts_with desired_prefix packet.topic_name) _ _ msg
              (λ t.
                wrapped desired_properties_updated _ msg
                  (λ a e. (t, kept_id (desired-id crates packet a e))))
              (λ no2.
                either_branch (Published packet) (starts_with methods_prefix packet.topic_name) _ _
                  msg
                  (λ t.
                    wrapped direct_method_invocation _ msg
                      (λ a e. (t, kept_id (method-id crates packet a e))))
                  (λ no3.
                    either_branch (Published packet) (starts_with devices_prefix packet.topic_name)
                      _ _ msg
                      (λ t.
                        wrapped cloud_to_device_message _ msg
                          (λ a e. (t, kept_id (c2d-id crates packet a e))))
                      (λ no4 h.
                        let same : unknown_message ≡ msg = cc in
                        subst (Published packet) same (no1, no2, no3, no4)))))

  -- Where `decode_packet` returns, the packet and the message are of one kind. A CONNACK becomes the
  -- answer to a connection for its return code, accepted for that code only. A PUBACK becomes the
  -- acknowledgement of its identifier. A SUBACK becomes the answer to the subscription with its
  -- identifier, a success just when the first return code is no failure. A PUBLISH becomes the message
  -- whose prefix its topic has, with its packet identifier, or an unknown message if its topic has none
  -- of the four. No other packet becomes a message.
  pub decode_packet-Fits :
      (packet : VariablePacket) (msg : MsgFromHub J M)
      → decode_packet crates packet ≡ done msg
      → Fits packet msg
  unfolding decode_packet
  decode_packet-Fits (connack_packet code) msg h =
      (decode_connack_packet code, cc, decode_connack_packet-FromCode code)
  decode_packet-Fits (publish_packet packet) msg h = publish-Published packet msg h
  decode_packet-Fits (puback_packet id) msg h = cc
  decode_packet-Fits (suback_packet packet) msg h =
      let (res, found, same) =
        wrap-eq-done subscription_response_message (decode_suback_packet packet) msg h in
      (res, same, suback-Granted packet.packet_identifier packet.subscribes res found)
  decode_packet-Fits (connect_packet packet) msg h = cc
  decode_packet-Fits (subscribe_packet packet) msg h = cc
  decode_packet-Fits (other_packet n) msg h = cc
