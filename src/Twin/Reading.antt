-- ===== src/Twin/Reading.antt =====
-- raiot-twin/src/lib.rs: when `read_twin` gives a twin.
use raiot_rs.Base.{
  arith, ℕ, ◌≡◌, ◌↔◌, refl, ap, List, Option, none, some, IoResult, Result, ok, err, Call, returns,
  panics,
}
use raiot_rs.Protocol.Text.{Text}
use raiot_rs.Protocol.Messages.{StatusCode, ok_status, no_content, unknown_status_code}
use raiot_rs.Twin.{
  DeviceTwinError, MessageFromServer, subscription_succeeded, twin_response_message, other_message,
  TwinCrates, error_code_to_twin_error, parsed, parse_twin_packet, written, send, confirmed,
  answered, beside, read_twin,
}

module _ {S R M J T : Type 0} (crates : TwinCrates S R M J T) where
  open crates use {
    write_all, encode_read_twin, encode_twin_subscription, decode, status_code, body, new_twin,
  }

  -- What has to happen for `read_twin` to give a twin: the subscription is written, the first message is
  -- its confirmation, then the request is written, and the next message is an answer for a twin with
  -- status 200, the body of which is the twin.
  pub record Reads (rid : Text) (s s' : S) (twin : T) : Type 0 where
    pub sub : List ℕ
    pub request : List ℕ
    pub id : ℕ
    pub response : R
    pub json : J
    pub s1 : S
    pub s2 : S
    pub s3 : S
    pub encoded_sub : encode_twin_subscription 10 ≡ some sub
    pub sent_sub : write_all sub s ≡ (ok tt, s1)
    pub confirmed_sub : decode s1 ≡ (some (subscription_succeeded id), s2)
    pub encoded_request : encode_read_twin rid none ≡ some request
    pub sent_request : write_all request s2 ≡ (ok tt, s3)
    pub answered_request : decode s3 ≡ (some (twin_response_message response), s')
    pub status : status_code response ≡ ok_status
    pub told : body response ≡ some json
    pub same : new_twin json ≡ some twin

  written-eq-ok :
      {A : Type 0} (res : IoResult (Unit {0}) × S) (next : S → Call (Result DeviceTwinError A × S))
      (a : A) (s' : S)
      → written crates res next ≡ returns (ok a, s')
      → (s1 : S) × (res ≡ (ok tt, s1)) × (next s1 ≡ returns (ok a, s'))
  unfolding written
  written-eq-ok (err e, s) next a s' h = cc
  written-eq-ok (ok _, s) next a s' h = (s, refl, h)

  send-eq-ok :
      {A : Type 0} (encoded : Option (List ℕ)) (s : S)
      (next : S → Call (Result DeviceTwinError A × S)) (a : A) (s' : S)
      → send crates encoded s next ≡ returns (ok a, s')
      → (buf : List ℕ) × (s1 : S) × (encoded ≡ some buf)
        × (write_all buf s ≡ (ok tt, s1))
        × (next s1 ≡ returns (ok a, s'))
  unfolding send
  send-eq-ok none s next a s' h = cc
  send-eq-ok (some buf) s next a s' h =
      let (s1, wrote, rest) = written-eq-ok (write_all buf s) next a s' h in
      (buf, s1, refl, wrote, rest)

  confirmed-eq-ok :
      (res : Option (MessageFromServer R) × S) (next : S → Call (Result DeviceTwinError T × S))
      (a : T) (s' : S)
      → confirmed crates res next ≡ returns (ok a, s')
      → (id : ℕ) × (s1 : S) × (res ≡ (some (subscription_succeeded id), s1))
        × (next s1 ≡ returns (ok a, s'))
  unfolding confirmed
  confirmed-eq-ok (none, s) next a s' h = cc
  confirmed-eq-ok (some (subscription_succeeded id), s) next a s' h = (id, s, refl, h)
  confirmed-eq-ok (some (twin_response_message r), s) next a s' h = cc
  confirmed-eq-ok (some other_message, s) next a s' h = cc

  parsed-eq-ok :
      (status : StatusCode) (found : Option J) (twin : T)
      → parsed crates status found ≡ returns (ok twin)
      → (json : J) × (status ≡ ok_status) × (found ≡ some json) × (new_twin json ≡ some twin)
  unfolding parsed error_code_to_twin_error
  parsed-eq-ok ok_status none twin h = cc
  parsed-eq-ok ok_status (some json) twin h = (json, refl, refl, ground (arith, h))
  parsed-eq-ok no_content found twin h = cc
  parsed-eq-ok StatusCode.too_many_requests found twin h = cc
  parsed-eq-ok StatusCode.bad_request found twin h = cc
  parsed-eq-ok (StatusCode.server_error code) found twin h = cc
  parsed-eq-ok (unknown_status_code code) found twin h = cc

  beside-eq-ok :
      (res : Call (Result DeviceTwinError T)) (s s' : S) (twin : T)
      → beside crates s res ≡ returns (ok twin, s')
      → (s ≡ s') × (res ≡ returns (ok twin))
  unfolding beside
  beside-eq-ok panics s s' twin h = cc
  beside-eq-ok (returns res) s s' twin h = (cc, cc)

  answered-eq-ok :
      (res : Option (MessageFromServer R) × S) (twin : T) (s' : S)
      → answered crates res ≡ returns (ok twin, s')
      → (response : R) × (res ≡ (some (twin_response_message response), s'))
        × (parse_twin_packet crates response ≡ returns (ok twin))
  unfolding answered
  answered-eq-ok (none, s) twin s' h = cc
  answered-eq-ok (some (subscription_succeeded id), s) twin s' h = cc
  answered-eq-ok (some other_message, s) twin s' h = cc
  answered-eq-ok (some (twin_response_message response), s) twin s' h =
      let (same, rest) = beside-eq-ok (parse_twin_packet crates response) s s' twin h in
      (response, ap (λ s. (some (twin_response_message response), s)) same, rest)

  -- `read_twin` gives a twin just when its subscription is confirmed before it sends its request, and the
  -- next message is an answer with status 200 and a body that `Twin::new` parses: the twin is what that
  -- gives, and the stream stands behind that answer.
  pub read_twin_iff :
      (rid : Text) (s s' : S) (twin : T)
      → (read_twin crates rid s ≡ returns (ok twin, s')) ↔ Reads rid s s' twin
  unfolding read_twin parse_twin_packet
  read_twin_iff rid s s' twin = (
    λ h.
        let (sub, s1, encoded_sub, sent_sub, h1) =
          send-eq-ok (encode_twin_subscription 10) s _ twin s' h in
        let (id, s2, confirmed_sub, h2) = confirmed-eq-ok (decode s1) _ twin s' h1 in
        let (request, s3, encoded_request, sent_request, h3) =
          send-eq-ok (encode_read_twin rid none) s2 _ twin s' h2 in
        let (response, answered_request, h4) = answered-eq-ok (decode s3) twin s' h3 in
        let (json, status, told, same) =
          parsed-eq-ok (status_code response) (body response) twin h4 in
        record {
          sub = sub;
          request = request;
          id = id;
          response = response;
          json = json;
          s1 = s1;
          s2 = s2;
          s3 = s3;
          encoded_sub = encoded_sub;
          sent_sub = sent_sub;
          confirmed_sub = confirmed_sub;
          encoded_request = encoded_request;
          sent_request = sent_request;
          answered_request = answered_request;
          status = status;
          told = told;
          same = same;
        },
    λ h.
        rw
          (
            h.encoded_sub, send, h.sent_sub, written, h.confirmed_sub, confirmed, h.encoded_request,
            h.sent_request, h.answered_request, answered, h.status, h.told, parsed, beside, h.same,
          )
          refl,
  )
