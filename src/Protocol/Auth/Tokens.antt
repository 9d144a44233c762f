-- ===== src/Protocol/Auth/Tokens.antt =====
-- raiot-protocol/src/auth/sas.rs: what can be read back from a token.
use raiot_rs.Base.{
  ℕ, zero, suc, ◌+◌, ◌/◌, ◌%◌, ◌<◌, ◌⊎◌, inr, inl, Option-cases, ◌≡◌, ap, ◌∙◌, ◌++◌, List, [], ◌∷◌,
  some, ok, err, Call, returns, panics, map, drop, arith,
}
use raiot_rs.Protocol.Text.{Text, codes, decimal, digits_before, split}
use raiot_rs.Protocol.Decode.Cloud.{Without, split-append, split_one}
use raiot_rs.Protocol.Encode.Topics.{Without-append}
use raiot_rs.Protocol.Types.{ClientIdentity, device, module_}
use raiot_rs.Protocol.Auth.{
  TokenCrates, SasToken, token_text, signature, get_sas_token, for_device, for_module, device_uri,
  module_uri, ConnectionSettings, TokenResult, token_for, expect_token, generate_sas_token,
}

-- `byte_serialize` leaves letters, digits, `*`, `-`, `.`, `_` and writes a space as `+` and all else as `%XX`.
pub record Serializes (crates : TokenCrates) : Type 0 where
  pub no_ampersand : (t : Text) → Without b'&' (crates.byte_serialize t)
  pub no_equals : (t : Text) → Without b'=' (crates.byte_serialize t)

digits_before-Without :
    (sep fuel n : ℕ) (acc : Text)
    → (sep < b'0') ⊎ (b'9' < sep)
    → Without sep acc
    → Without sep (digits_before fuel n acc)
unfolding digits_before
digits_before-Without sep zero n acc h w = w
digits_before-Without sep (suc fuel) n acc h w =
    let more = digits_before-Without sep fuel (n / 10) ((b'0' + n % 10) ∷ acc) h in
    ground (arith, more)

pub decimal-Without : (sep n : ℕ) → (sep < b'0') ⊎ (b'9' < sep) → Without sep (decimal n)
unfolding decimal
decimal-Without sep n h = digits_before-Without sep 20 n [] h tt

field :
    (name value : Text)
    → Without b'=' name
    → Without b'=' value
    → split b'=' (name ++ (b'=' ∷ value)) ≡ name ∷ value ∷ []
field name value h k = split-append b'=' name value h ∙ ap (◌∷◌ name) (split_one b'=' value k)

three :
    {A : Type 0} {a a' b b' c c' : A}
    → a ≡ a'
    → b ≡ b'
    → c ≡ c'
    → a ∷ b ∷ c ∷ [] ≡ a' ∷ b' ∷ c' ∷ []
three e f g = cc

expect_token_returns :
    (x : Call TokenResult) (token : SasToken)
    → expect_token x ≡ returns token
    → x ≡ returns (ok token)
expect_token_returns panics token e = cc
expect_token_returns (returns (err _)) token e = cc
expect_token_returns (returns (ok t)) token e = cc

module _ (crates : TokenCrates) where
  -- The resource that a client asks for.
  abbrev pub resource : Text → ClientIdentity → Text
  resource hostname (device d) = device_uri crates hostname d.device_id
  resource hostname (module_ m) = module_uri crates hostname m.device_id m.module_id

  -- The names and the values of a token, after its first word.
  abbrev pub fields : Text → List (List Text)
  fields token = map (split b'=') (split b'&' (drop 22 token))

  -- The token of the key that `text` stands for, for a resource.
  pub record Signed (text uri : Text) (ttl : ℕ) (token : SasToken) : Type 0 where
    pub key : List ℕ
    pub se : ℕ
    pub decoded : crates.base64_decode text ≡ some key
    pub expires : crates.expiry ttl ≡ some se
    pub same : token.value ≡ token_text crates key uri se

  fields-token_text :
      (key : List ℕ) (uri : Text) (se : ℕ)
      → Serializes crates
      → fields (token_text crates key uri se)
        ≡ (codes "sr" ∷ crates.byte_serialize uri ∷ [])
          ∷ (codes "sig" ∷ signature crates key (crates.byte_serialize uri) se ∷ [])
          ∷ (codes "se" ∷ decimal se ∷ [])
          ∷ []
  fields-token_text key uri se std =
      let u = crates.byte_serialize uri in
      let sig = signature crates key u se in
      ap (map (split b'=')) (
        split-append b'&' (codes "sr=" ++ u) (codes "sig=" ++ (sig ++ (codes "&se=" ++ decimal se)))
          (Without-append b'&' (codes "sr=") u (omega arith) (std.no_ampersand uri))
        ∙ ap (◌∷◌ (codes "sr=" ++ u)) (
            split-append b'&' (codes "sig=" ++ sig) (codes "se=" ++ decimal se)
              (Without-append b'&' (codes "sig=") sig (omega arith) (std.no_ampersand _))
            ∙ ap (◌∷◌ (codes "sig=" ++ sig)) (
                split_one b'&' (codes "se=" ++ decimal se) (
                  Without-append b'&' (codes "se=") (decimal se) (omega arith)
                    (decimal-Without b'&' se (omega arith))))))
      ∙ three (field (codes "sr") u (omega arith) (std.no_equals uri))
          (field (codes "sig") sig (omega arith) (std.no_equals _))
          (field (codes "se") (decimal se) (omega arith) (decimal-Without b'=' se (omega arith)))

  token-get_sas_token :
      (text uri : Text) (ttl : ℕ) (token : SasToken)
      → get_sas_token crates text uri ttl ≡ returns (ok token)
      → Signed text uri ttl token
  unfolding get_sas_token
  token-get_sas_token text uri ttl token e = elim (Option-cases (crates.base64_decode text)) [
    | inl none_left ↦ absurd (ground (arith, none_left))
    | inr (key, k) ↦ elim (Option-cases (crates.expiry ttl)) [
      | inl none_left ↦ absurd (ground (arith, none_left))
      | inr (se, x) ↦ record { key = key; se = se; decoded = k; expires = x; same = ground arith }
    ]
  ]

  token-token_for :
      (settings : ConnectionSettings) (id : ClientIdentity) (text : Text) (token : SasToken)
      → token_for crates settings id text ≡ returns (ok token)
      → Signed text (resource settings.hostname id) settings.token_ttl token
  unfolding token_for for_device for_module
  token-token_for settings (device d) text token e =
      token-get_sas_token text (device_uri crates settings.hostname d.device_id) settings.token_ttl
        token (ground (arith, e))
  token-token_for settings (module_ m) text token e =
      token-get_sas_token text (module_uri crates settings.hostname m.device_id m.module_id)
        settings.token_ttl token (ground (arith, e))

  -- From every token that is made for a client, the hub can read back the resource that it is for and the
  -- time at which it expires. The signature is the form-encoded base64 text of the HMAC-SHA256 of these two
  -- as they stand in the token, with a line break in between, with the key that the settings hold in base64,
  -- if form encoding leaves neither `&` nor `=`.
  pub generate_sas_token_lem :
      (settings : ConnectionSettings) (text : Text) (token : SasToken)
      → Serializes crates
      → generate_sas_token crates settings text ≡ returns token
      → let uri = crates.byte_serialize (resource settings.hostname settings.client_id) in
        (key : List ℕ) × (se : ℕ) × (crates.base64_decode text ≡ some key)
        × (crates.expiry settings.token_ttl ≡ some se)
        × (fields token.value
            ≡ (codes "sr" ∷ uri ∷ [])
              ∷ (codes "sig"
                  ∷ crates.byte_serialize (
                      crates.base64_encode
                        (crates.hmac_sha256 key (uri ++ (codes "\n" ++ decimal se))))
                  ∷ [])
              ∷ (codes "se" ∷ decimal se ∷ [])
              ∷ [])
  unfolding generate_sas_token
  generate_sas_token_lem settings text token std e =
      let s =
        token-token_for settings settings.client_id text token (expect_token_returns _ token e) in
      (s.key, s.se, s.decoded, s.expires, ap fields s.same ∙ fields-token_text s.key _ s.se std)
