-- ===== src/Protocol/Decode/Answers.antt =====
-- raiot-protocol/src/iot_codec.rs: what an answer to a twin request may come to, field by field.
use raiot_rs.Base.{
  ℕ, ◌≤◌, ◌≡◌, ◌≢◌, refl, Bool, true, false, Option, none, some, arith, ◌==◌, ◌⊎◌, inl, inr,
  Option-cases,
}
use raiot_rs.Protocol.Text.{Text, parse_uint}
use raiot_rs.Protocol.Types.{PacketId}
use raiot_rs.Protocol.Messages.{
  StatusCode, ok_status, no_content, too_many_requests, bad_request, server_error,
  unknown_status_code, ReadTwinRes,
}
use raiot_rs.Protocol.Mqtt.{QosWithPacketIdentifier, level0, level1, level2, PublishPacket, Crates}
use raiot_rs.Protocol.Errors.{
  Coded, done, fails, ◌>>=◌, invalid_message_body, invalid_version_identifier,
}
use raiot_rs.Protocol.Decode.{
  qos_to_packet_id, get_status_code, u64_limit, extract_version, response_body,
}

-- The packet identifier that goes with a quality of service; level 0 has none.
abbrev pub HasId : QosWithPacketIdentifier → Option PacketId → Type 0
HasId level0 id = id ≡ none
HasId (level1 n) id = id ≡ some (record { value = n })
HasId (level2 n) id = id ≡ some (record { value = n })

pub qos_to_packet_id-HasId : (qos : QosWithPacketIdentifier) → HasId qos (qos_to_packet_id qos)
unfolding qos_to_packet_id
qos_to_packet_id-HasId level0 = refl
qos_to_packet_id-HasId (level1 n) = refl
qos_to_packet_id-HasId (level2 n) = refl

-- The numbers that each status is read from; no number is read as a bad request.
abbrev pub IsStatus : ℕ → StatusCode → Type 0
IsStatus code ok_status = code ≡ 200
IsStatus code no_content = code ≡ 204
IsStatus code too_many_requests = code ≡ 429
IsStatus code bad_request = ⊥
IsStatus code (server_error k) = (k ≡ code) × (500 ≤ code) × (code ≤ 599)
IsStatus code (unknown_status_code k) =
    (k ≡ code) × (code ≢ 200) × (code ≢ 204) × (code ≢ 429) × ¬ ((500 ≤ code) × (code ≤ 599))

pub get_status_code-IsStatus : (code : ℕ) → IsStatus code (get_status_code code)
unfolding get_status_code
get_status_code-IsStatus code = ground arith

-- The version that the query gives: none, or a number below 2 ^ 64.
pub data HasVersion (text : Option Text) : Option ℕ → Type 0 where
  unversioned : text ≡ none → HasVersion text none
  versioned :
      (t : Text) (n : ℕ)
      → text ≡ some t
      → parse_uint u64_limit t ≡ some n
      → HasVersion text (some n)

if-cases : (b : Bool) → (b ≡ true) ⊎ (b ≡ false)
if-cases true = inl refl
if-cases false = inr refl

module _ {J M : Type 0} (crates : Crates J M) where
  -- The body of an answer: with status 200 what the JSON reader makes of the payload, else none.
  pub data HasBody (code : ℕ) (payload : Text) (body : Option J) : Type 0 where
    read : code ≡ 200 → crates.json_body payload ≡ some body → HasBody code payload body
    unread : code ≢ 200 → body ≡ none → HasBody code payload body

  -- What decoding comes to, given the number of the status, the request identifier and the text of the
  -- version: a payload that is no JSON, a version that is no number, or an answer with these fields.
  pub data Answer (packet : PublishPacket) (code : ℕ) (rid : Text) (text : Option Text)
      (out : Coded (ReadTwinRes J)) : Type 0 where
    bad_body :
        code ≡ 200
        → crates.json_body packet.payload ≡ none
        → out ≡ fails invalid_message_body
        → Answer packet code rid text out
    bad_version :
        (body : Option J) (t : Text)
        → HasBody code packet.payload body
        → text ≡ some t
        → parse_uint u64_limit t ≡ none
        → out ≡ fails invalid_version_identifier
        → Answer packet code rid text out
    answered :
        (res : ReadTwinRes J)
        → out ≡ done res
        → res.request_id ≡ rid
        → HasId packet.qos res.packet_id
        → IsStatus code res.status_code
        → HasBody code packet.payload res.body
        → HasVersion text res.version
        → Answer packet code rid text out

  -- The code behind the status line.
  abbrev pub rest_of : PublishPacket → ℕ → Text → Option Text → Coded (ReadTwinRes J)
  rest_of packet code rid text = do
    body ← response_body crates code packet.payload
    version ← extract_version text
    done (record {
      packet_id = qos_to_packet_id packet.qos;
      request_id = rid;
      status_code = get_status_code code;
      body = body;
      version = version;
    })

  abbrev BodyCases : ℕ → Text → Coded (Option J) → Type 0
  BodyCases code payload out =
      ((code ≡ 200) × (crates.json_body payload ≡ none) × (out ≡ fails invalid_message_body))
      ⊎ ((body : Option J) × (out ≡ done body) × HasBody code payload body)

  response_body-cases :
      (code : ℕ) (payload : Text) → BodyCases code payload (response_body crates code payload)
  response_body-cases code payload = elim (if-cases (code == 200)) [
    | inl same ↦ elim (Option-cases (crates.json_body payload)) [
      | inl bad ↦ inl (ground (arith, same), bad, rw (same, bad) refl)
      | inr (body, good) ↦ inr (body, rw (same, good) refl, read (ground (arith, same)) good)
    ]
    | inr other ↦ inr (none, rw other refl, unread (ground (arith, other)) refl)
  ]

  extract_version-cases :
      (text : Option Text)
      → ((t : Text) × (text ≡ some t)
          × (parse_uint u64_limit t ≡ none)
          × (extract_version text ≡ fails invalid_version_identifier))
        ⊎ ((version : Option ℕ) × (extract_version text ≡ done version) × HasVersion text version)
  unfolding extract_version
  extract_version-cases none = inr (none, refl, unversioned refl)
  extract_version-cases (some t) = elim (Option-cases (parse_uint u64_limit t)) [
    | inl bad ↦ inl (t, refl, bad, rw (extract_version, bad) refl)
    | inr (n, good) ↦ inr (some n, rw (extract_version, good) refl, versioned t n refl good)
  ]

  pub rest_of-Answer :
      (packet : PublishPacket) (code : ℕ) (rid : Text) (text : Option Text)
      → Answer packet code rid text (rest_of packet code rid text)
  rest_of-Answer packet code rid text = elim (response_body-cases code packet.payload) [
    | inl (ok200, bad, e) ↦ bad_body ok200 bad (rw e refl)
    | inr (body, e, h) ↦ elim (extract_version-cases text) [
      | inl (t, given, bad, e') ↦ bad_version body t h given bad (rw (e, e') refl)
      | inr (version, e', k) ↦
          answered _ (rw (e, e') refl) refl (qos_to_packet_id-HasId packet.qos)
            (get_status_code-IsStatus code) h k
    ]
  ]
