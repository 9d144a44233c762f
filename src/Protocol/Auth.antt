-- ===== src/Protocol/Auth.antt =====
-- raiot-protocol/src/auth and raiot-client-base/src/lib.rs: credentials, the tokens made of a shared key,
-- and the settings of a connection.
pub mod Tokens
use raiot_rs.Base.{
  ℕ, zero, suc, ◌+◌, ◌/◌, ◌==◌, ◌++◌, List, Option, none, some, if◌then◌else◌, Result, ok, err,
  Call, returns, panics,
}
use raiot_rs.Protocol.Text.{Text, codes, decimal}
use raiot_rs.Protocol.Types.{ClientIdentity, device, module_, SessionMode}
use raiot_rs.Protocol.Messages.{ConnectMsg}

pub record DeviceCertificate : Type 0 where
  pub bytes : List ℕ
  pub password : Text

pub data DeviceCredentials : Type 0 where
  sas : Text → DeviceCredentials
  certificate : DeviceCertificate → DeviceCredentials

pub record SasToken : Type 0 where
  pub value : Text

-- The functions of the crates base64, hmac with sha2, url, percent_encoding and chrono that tokens are
-- made with. `expiry` is the timestamp in seconds at which a time to live that begins now ends, `none`
-- where chrono panics. Other `none`s are errors.
pub record TokenCrates : Type 0 where
  pub base64_decode : Text → Option (List ℕ)
  pub base64_encode : List ℕ → Text
  pub hmac_sha256 : List ℕ → List ℕ → List ℕ
  pub byte_serialize : Text → Text
  pub percent_encode : Text → Text
  pub expiry : ℕ → Option ℕ

-- `TokenResult`
abbrev pub TokenResult : Type 0
TokenResult = Result (Unit {0}) SasToken

module _ (crates : TokenCrates) where
  open crates use {
    base64_decode, base64_encode, hmac_sha256, byte_serialize, percent_encode, expiry,
  }

  abbrev pub string_to_sign : Text → ℕ → Text
  string_to_sign encoded_uri se = encoded_uri ++ (codes "\n" ++ decimal se)

  abbrev pub signature : List ℕ → Text → ℕ → Text
  signature key encoded_uri se =
      byte_serialize (base64_encode (hmac_sha256 key (string_to_sign encoded_uri se)))

  abbrev pub token_text : List ℕ → Text → ℕ → Text
  token_text key uri se =
      codes "SharedAccessSignature sr="
      ++ (byte_serialize uri
          ++ (codes "&sig="
              ++ (signature key (byte_serialize uri) se ++ (codes "&se=" ++ decimal se))))

  unfoldable pub get_sas_token : Text → Text → ℕ → Call TokenResult
  get_sas_token key uri ttl = elim (base64_decode key) [
    | none ↦ returns (err tt)
    | some bytes ↦ elim (expiry ttl) [
      | none ↦ panics
      | some se ↦ returns (ok (record { value = token_text bytes uri se }))
    ]
  ]

  abbrev pub device_uri : Text → Text → Text
  device_uri server_addr device_id = server_addr ++ (codes "/devices/" ++ percent_encode device_id)

  abbrev pub module_uri : Text → Text → Text → Text
  module_uri server_addr device_id module_id =
      server_addr
      ++ (codes "/devices/"
          ++ (percent_encode device_id ++ (codes "/modules/" ++ percent_encode module_id)))

  -- `SasToken::for_device`; times to live are milliseconds.
  unfoldable pub for_device : Text → Text → Text → ℕ → Call TokenResult
  unfolding get_sas_token
  for_device server_addr device_id key ttl =
      if ttl / 1000 == 0 then panics else get_sas_token key (device_uri server_addr device_id) ttl

  -- `SasToken::for_module`
  unfoldable pub for_module : Text → Text → Text → Text → ℕ → Call TokenResult
  unfolding get_sas_token
  for_module server_addr device_id module_id key ttl =
      if ttl / 1000 == 0
      then panics
      else get_sas_token key (module_uri server_addr device_id module_id) ttl

-- `ConnectionSettings`; times are milliseconds.
pub record ConnectionSettings : Type 0 where
  pub hostname : Text
  pub port : ℕ
  pub client_id : ClientIdentity
  pub session_mode : SessionMode
  pub timeout : ℕ
  pub token_ttl : ℕ
  pub credentials : DeviceCredentials

-- `.expect("Token expected to be valid")`
abbrev pub expect_token : Call TokenResult → Call SasToken
expect_token panics = panics
expect_token (returns (err e)) = panics
expect_token (returns (ok token)) = returns token

module _ (crates : TokenCrates) where
  -- The call that `generate_sas_token` makes for each kind of client.
  unfoldable pub token_for : ConnectionSettings → ClientIdentity → Text → Call TokenResult
  unfolding for_device for_module
  token_for settings (device d) key =
      for_device crates settings.hostname d.device_id key settings.token_ttl
  token_for settings (module_ m) key =
      for_module crates settings.hostname m.device_id m.module_id key settings.token_ttl

  -- `generate_sas_token` of raiot-client-base, of which raiot-client has a copy
  unfoldable pub generate_sas_token : ConnectionSettings → Text → Call SasToken
  unfolding token_for
  generate_sas_token settings key = expect_token (token_for settings settings.client_id key)

  abbrev pub with_token : ConnectionSettings → Option Text → ConnectMsg
  with_token settings token = record {
    client_id = settings.client_id;
    server_addr = settings.hostname;
    sas_token = token;
    session_mode = settings.session_mode;
  }

  -- The CONNECT message of a client: with a token if its credentials are a shared key.
  unfoldable pub connect_msg : ConnectionSettings → Call ConnectMsg
  unfolding generate_sas_token
  connect_msg settings = elim settings.credentials [
    | certificate c ↦ returns (with_token settings none)
    | sas key ↦ elim (generate_sas_token settings key) [
      | panics ↦ panics
      | returns token ↦ returns (with_token settings (some token.value))
    ]
  ]

-- The certificate with which the stream is opened.
abbrev pub client_certificate : DeviceCredentials → Option DeviceCertificate
client_certificate (certificate c) = some c
client_certificate (sas key) = none
