-- ===== src/Protocol/Decode/Twin.antt =====
-- raiot-protocol/src/iot_codec.rs: the answers to twin requests.
use raiot_rs.Base.{
  ℕ, ◌+◌, ◌-◌, ◌*◌, ◌≤◌, ◌<◌, ◌≡◌, ◌≢◌, ◌↔◌, refl, sym, subst, [], ◌∷◌, ◌++◌, some, arith, returns,
  panics,
}
use raiot_rs.Protocol.Text.{Text, codes, slice, parse_uint, parse_digits}
use raiot_rs.Protocol.Messages.{
  StatusCode, ok_status, no_content, too_many_requests, bad_request, server_error,
  unknown_status_code,
}
use raiot_rs.Protocol.Mqtt.{PublishPacket, Url, Crates}
use raiot_rs.Protocol.Errors.{panicked}
use raiot_rs.Protocol.Decode.Answers.{Answer, rest_of, rest_of-Answer}
use raiot_rs.Protocol.Decode.{
  get_status_code, query_get, twin_response_prefix, u16_limit, decode_twin_response,
}

-- The number that a status stands for; a bad request is 400.
abbrev pub status_value : StatusCode → ℕ
status_value ok_status = 200
status_value no_content = 204
status_value too_many_requests = 429
status_value bad_request = 400
status_value (server_error code) = code
status_value (unknown_status_code code) = code

-- Every status code is kept: the status stands for the number that was received. Those from 500 to
-- 599, and no others, are server errors.
pub get_status_code_lem :
    (code : ℕ)
    → (status_value (get_status_code code) ≡ code)
      × ((get_status_code code ≡ server_error code) ↔ ((500 ≤ code) × (code ≤ 599)))
unfolding get_status_code
get_status_code_lem code = ground arith

-- No code is reported as a bad request: 400 comes out as unknown.
pub get_status_code-ne-bad_request :
    (code : ℕ)
    → (get_status_code code ≢ bad_request) × (get_status_code 400 ≡ unknown_status_code 400)
unfolding get_status_code
get_status_code-ne-bad_request code = (ground arith, refl)

-- The three bytes after the prefix, as a number if they are digits.
abbrev pub status_of : ℕ → ℕ → ℕ → ℕ
status_of a b c = (a - b'0') * 100 + (b - b'0') * 10 + (c - b'0')

abbrev pub IsDigit : ℕ → Type 0
IsDigit c = (b'0' ≤ c) × (c ≤ b'9')

-- A byte that goes on with a character that began before it.
abbrev pub IsContinuation : ℕ → Type 0
IsContinuation c = (128 ≤ c) × (c < 192)

slice_status :
    (a b c d : ℕ) (more : Text)
    → IsDigit a
    → (d < 128)
    → slice (twin_response_prefix ++ (a ∷ b ∷ c ∷ d ∷ more)) 17 20 ≡ returns (a ∷ b ∷ c ∷ [])
unfolding slice
slice_status a b c d more h k = ground arith

parse_status :
    (a b c : ℕ)
    → IsDigit a
    → IsDigit b
    → IsDigit c
    → parse_uint u16_limit (a ∷ b ∷ c ∷ []) ≡ some (status_of a b c)
unfolding parse_uint parse_digits
parse_status a b c ha hb hc = ground arith

slice_inside_character :
    (a b c d : ℕ) (more : Text)
    → IsContinuation d
    → slice (twin_response_prefix ++ (a ∷ b ∷ c ∷ d ∷ more)) 17 20 ≡ panics
unfolding slice
slice_inside_character a b c d more h = ground arith

module _ {J M : Type 0} (crates : Crates J M) (packet : PublishPacket) (url : Url) (rid : Text)
    (a b c d : ℕ) (more : Text)
    (topic : packet.topic_name ≡ twin_response_prefix ++ (a ∷ b ∷ c ∷ d ∷ more))
    (parsed : crates.parse_url (codes "mqtt://" ++ packet.topic_name) ≡ some url)
    (found : query_get (codes "$rid") url.query_pairs ≡ some rid) where
  reads_status :
      IsDigit a
      → IsDigit b
      → IsDigit c
      → d < 128
      → decode_twin_response crates packet
        ≡ rest_of crates packet (status_of a b c) rid (query_get (codes "$version") url.query_pairs)
  unfolding decode_twin_response
  reads_status ha hb hc hd =
      rw (parsed, found, topic, slice_status a b c d more ha hd, parse_status a b c ha hb hc) refl

  -- A topic with three digits after the prefix is read as the answer with that number for a status
  -- and with the request identifier of the query. With status 200 a payload that is no JSON is an
  -- error; then so is a version that is there and no number below 2 ^ 64. Else the answer comes with the
  -- identifier of its packet, the status that the table says, a body for status 200 only, and the
  -- version, if there is one.
  pub decode_twin_response_lem :
      IsDigit a
      → IsDigit b
      → IsDigit c
      → d < 128
      → Answer crates packet
          (status_of a b c)
          rid
          (query_get (codes "$version") url.query_pairs)
          (decode_twin_response crates packet)
  decode_twin_response_lem ha hb hc hd =
      let text = query_get (codes "$version") url.query_pairs in
      subst (Answer crates packet (status_of a b c) rid text) (sym (reads_status ha hb hc hd))
        (rest_of-Answer crates packet (status_of a b c) rid text)

  -- A topic whose fourth byte after the prefix goes on with a character panics.
  pub decode_twin_response_panics : IsContinuation d → decode_twin_response crates packet ≡ panicked
  unfolding decode_twin_response
  decode_twin_response_panics h =
      rw (parsed, found, topic, slice_inside_character a b c d more h) refl
