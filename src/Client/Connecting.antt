-- ===== src/Client/Connecting.antt =====
-- raiot-stclient/src/conn.rs: a client from its settings to an established connection.
use raiot_rs.Base.{
  ℕ, ◌-◌, ltb, if◌then◌else◌, Option, none, some, IoResult, invalid_data, ok, err, Call, returns,
  panics, Reader, Writer,
}
use raiot_rs.Protocol.Text.{Text}
use raiot_rs.Protocol.Types.{ClientIdentity}
use raiot_rs.Protocol.Messages.{ConnectMsg, connect}
use raiot_rs.Protocol.Mqtt.{VariablePacket, connect_packet, ConnectReturnCode, Crates}
use raiot_rs.Protocol.Errors.{Coded, done, fails, panicked}
use raiot_rs.Protocol.Encode.{encode_message}
use raiot_rs.Protocol.Auth.{
  TokenCrates, ConnectionSettings, DeviceCertificate, client_certificate, connect_msg,
}
use raiot_rs.Packets.{Encoder, Decoder}
use raiot_rs.Connection.{
  MqttConnection, MqttConnectionInProgress, create, with_timeout, connect_over,
}
use raiot_rs.Connection.Handshake.{Completion, waits, protocol_violation, io_failed, complete}
use raiot_rs.Client.{IotClient, unsubscribed}

pub record IotConnectionInProgress (S : Type 0) : Type 0 where
  pub connection : MqttConnectionInProgress S
  pub client_id : ClientIdentity

pub data IotConnState (H S : Type 0) : Type 0 where
  connected : IotClient H S → IotConnState H S
  connecting : IotConnectionInProgress S → IotConnState H S
  connect_failed : ConnectReturnCode → IotConnState H S

module _ {H S : Type 0} where
  -- A client on a connection that was just made.
  abbrev pub new_client : MqttConnection S → ClientIdentity → IotClient H S
  new_client connection client_id = record {
    connection = connection;
    client_id = client_id;
    packets_numerator = record { value = 0 };
    twin_reads = unsubscribed;
    dmi = unsubscribed;
    twin_updates = unsubscribed;
    c2d = unsubscribed;
  }

  -- What the client makes of the result of the handshake of its connection.
  unfoldable pub completed :
      Call (Completion S) → ClientIdentity → Call (IoResult (IotConnState H S))
  completed panics id = panics
  completed (returns (Completion.connected c)) id = returns (ok (connected (new_client c id)))
  completed (returns (io_failed e)) id = returns (err e)
  completed (returns (waits c)) id =
      returns (ok (connecting (record { connection = c; client_id = id })))
  completed (returns (Completion.connect_failed code)) id = returns (ok (connect_failed code))
  completed (returns protocol_violation) id = returns (err invalid_data)

module _ {H S : Type 0} (mqtt : Decoder VariablePacket) (reader : Reader S)
    (writer : Writer S) where
  -- `IotConnectionInProgress::complete`, on the terms of that of the connection
  unfoldable pub complete_client :
      ℕ → ℕ → IotConnectionInProgress S → Option (Call (IoResult (IotConnState H S)))
  unfolding complete completed
  complete_client fuel now c = elim (complete mqtt reader writer fuel now c.connection) [
    | none ↦ none
    | some out ↦ some (completed out c.client_id)
  ]

module _ {J M S : Type 0} (crates : Crates J M) (tokens : TokenCrates)
    (mqtt : Encoder VariablePacket) where
  -- `MqttConnector::connect` on the encoded message, with what is left of the timeout
  pub connect_encoded :
      Coded VariablePacket
      → ConnectionSettings
      → S
      → ℕ
      → ℕ
      → Call (IoResult (IotConnectionInProgress S))
  unfolding connect_over
  connect_encoded (fails e) settings stream elapsed now = panics
  connect_encoded panicked settings stream elapsed now = panics
  connect_encoded (done (connect_packet p)) settings stream elapsed now =
      if ltb settings.timeout elapsed
      then panics
      else elim (connect_over mqtt (with_timeout (create stream) (settings.timeout - elapsed))
          (connect_packet p) now) [
            | panics ↦ panics
            | returns (err e) ↦ returns (err e)
            | returns (ok c) ↦
                returns (ok (record { connection = c; client_id = settings.client_id }))
          ]
  connect_encoded (done _) settings stream elapsed now = panics

  -- With the message of the settings, made on the stream.
  pub connect_on :
      Call ConnectMsg → ConnectionSettings → S → ℕ → ℕ → Call (IoResult (IotConnectionInProgress S))
  unfolding connect_encoded
  connect_on panics settings stream elapsed now = panics
  connect_on (returns msg) settings stream elapsed now =
      connect_encoded (encode_message crates (connect msg)) settings stream elapsed now

  -- With the stream that was opened.
  pub connect_opened :
      Call (IoResult S) → ConnectionSettings → ℕ → ℕ → Call (IoResult (IotConnectionInProgress S))
  unfolding connect_on
  connect_opened panics settings elapsed now = panics
  connect_opened (returns (err e)) settings elapsed now = returns (err e)
  connect_opened (returns (ok stream)) settings elapsed now =
      connect_on (connect_msg tokens settings) settings stream elapsed now

  -- `IotClient::connect`; `open_stream` is `open_nonblocking_stream`, `elapsed` the time since the start
  -- at which the connector is made, and `now` that at which its stopwatch starts.
  unfoldable pub connect_client :
      (Text → ℕ → ℕ → Option DeviceCertificate → Call (IoResult S))
      → ConnectionSettings
      → ℕ
      → ℕ
      → Call (IoResult (IotConnectionInProgress S))
  unfolding connect_opened
  connect_client open_stream settings elapsed now =
      connect_opened
        (open_stream settings.hostname settings.port settings.timeout
          (client_certificate settings.credentials))
        settings elapsed now
