-- ===== src/Cli.antt =====
-- raiot-cli/src/lib.rs: the settings of a connection from the options of the command line.
use raiot_rs.Base.{ℕ, ◌*◌, ◌%◌, ◌^◌, Option, none, some, List, Call, returns, panics}
use raiot_rs.Protocol.Text.{Text}
use raiot_rs.Protocol.Types.{from_device_id, clean}
use raiot_rs.Protocol.Auth.{DeviceCredentials, sas, certificate, ConnectionSettings}

pub record Options : Type 0 where
  pub port : ℕ
  pub hostname : Text
  pub device_id : Text
  pub key : Option Text
  pub cert_file : Option Text
  pub cert_pass : Option Text
  pub connect_timeout_secs : ℕ
  pub token_ttl_mins : ℕ

-- `get_credentials`, where `read_file` is `std::fs::read`: a key comes before a certificate.
unfoldable pub get_credentials : (Text → Option (List ℕ)) → Options → Call DeviceCredentials
get_credentials read_file o = elim o.key [
  | some key ↦ returns (sas key)
  | none ↦ elim o.cert_file [
    | none ↦ panics
    | some file ↦ elim o.cert_pass [
      | none ↦ panics
      | some pass ↦ elim (read_file file) [
        | none ↦ panics
        | some bytes ↦ returns (certificate (record { bytes = bytes; password = pass }))
      ]
    ]
  ]
]

-- `get_connection_settings`; times are milliseconds, and the seconds of a lifetime wrap at 64 bits.
unfoldable pub get_connection_settings :
    (Text → Option (List ℕ)) → Options → Call ConnectionSettings
unfolding get_credentials
get_connection_settings read_file o = elim (get_credentials read_file o) [
  | panics ↦ panics
  | returns credentials ↦ returns (record {
    hostname = o.hostname;
    port = o.port;
    client_id = from_device_id o.device_id;
    session_mode = clean;
    timeout = o.connect_timeout_secs * 1000;
    token_ttl = (60 * o.token_ttl_mins) % 2 ^ 64 * 1000;
    credentials = credentials;
  })
]
