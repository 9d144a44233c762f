-- ===== src/Twin.antt =====
-- raiot-twin/src/lib.rs: reading the twin of a device, and reporting properties, over a blocking stream.
-- The crates raiot_types and raiot_codec, which it is written for, are not in the repository: what it
-- calls of them is a parameter, with the variants that it names.
pub mod Reading
mod Tests
use raiot_rs.Base.{
  ℕ, List, ◌++◌, Option, none, some, ErrorKind, IoResult, Result, ok, err, Call, returns, panics,
}
use raiot_rs.Protocol.Text.{Text, codes, decimal}
use raiot_rs.Protocol.Messages.{StatusCode, ok_status, no_content, unknown_status_code}

pub data DeviceTwinError : Type 0 where
  bad_request : DeviceTwinError
  failure : Text → DeviceTwinError
  server_error unknown_error : ℕ → DeviceTwinError
  too_many_requests : DeviceTwinError
  io_error : ErrorKind → DeviceTwinError

-- A message that `decode` of the codec gives; `R` are the answers for twins.
pub data MessageFromServer (R : Type 0) : Type 0 where
  subscription_succeeded : ℕ → MessageFromServer R
  twin_response_message : R → MessageFromServer R
  other_message : MessageFromServer R

-- The errors of the mqtt crate for a packet.
pub data PacketError : Type 0 where
  io_error : ErrorKind → PacketError
  other_error : PacketError

-- A packet, as far as it is looked at.
pub data Reply : Type 0 where
  publish_packet other_packet : Reply

-- Streams `S`, answers `R`, reported properties `M`, JSON values `J` and twins `T`. A failed `encode` is
-- `none`; each reader of the stream gives what is left of it. `new_twin`
-- is `none` where `Twin::new` panics, which unwraps what it parses.
pub record TwinCrates (S R M J T : Type 0) : Type 0 where
  pub description : ErrorKind → Text
  pub write_all : List ℕ → S → IoResult (Unit {0}) × S
  pub encode_twin_update : Text → M → Option ℕ → Option (List ℕ)
  pub encode_read_twin : Text → Option ℕ → Option (List ℕ)
  pub encode_twin_subscription : ℕ → Option (List ℕ)
  pub decode : S → Option (MessageFromServer R) × S
  pub decode_packet : S → Option Reply × S
  pub status_code : R → StatusCode
  pub body : R → Option J
  pub new_twin : J → Option T

-- `Display for DeviceTwinError`
unfoldable pub display : (ErrorKind → Text) → DeviceTwinError → Text
display shown (failure error) = codes "Failure getting device twin (" ++ error ++ codes ")"
display shown too_many_requests = codes "Too many requests (throttled)"
display shown (server_error code) = codes "Server Error " ++ decimal code
display shown (io_error e) = shown e
display shown bad_request = codes "Bad request"
display shown (unknown_error code) = codes "Unknown error " ++ decimal code

-- `Error::description` for `DeviceTwinError`
unfoldable pub describe : (ErrorKind → Text) → DeviceTwinError → Text
describe description (server_error code) = codes "Server error occured"
describe description too_many_requests = codes "Too many requests (throttled)"
describe description (failure error) = error
describe description (io_error e) = description e
describe description bad_request = codes "Bad request"
describe description (unknown_error code) = codes "Unknown error"

-- `From<io::Error> for DeviceTwinError`
unfoldable pub from_io : (ErrorKind → Text) → ErrorKind → DeviceTwinError
from_io description e = failure (codes "I/O Error occured: " ++ description e)

-- `From<PacketError<T>> for DeviceTwinError`
unfoldable pub from_packet_error : PacketError → DeviceTwinError
from_packet_error (io_error e) = io_error e
from_packet_error other_error = failure (codes "Packet Error occured")

abbrev pub unexpected_packet : DeviceTwinError
unexpected_packet = failure (codes "Unexpected response packet")

unfoldable pub error_code_to_twin_error : StatusCode → Call DeviceTwinError
error_code_to_twin_error StatusCode.too_many_requests = returns too_many_requests
error_code_to_twin_error StatusCode.bad_request = returns bad_request
error_code_to_twin_error (StatusCode.server_error code) = returns (server_error code)
error_code_to_twin_error (unknown_status_code code) = returns (unknown_error code)
error_code_to_twin_error ok_status = panics
error_code_to_twin_error no_content = panics

module _ {S R M J T : Type 0} (crates : TwinCrates S R M J T) where
  open crates use {
    description, write_all, encode_twin_update, encode_read_twin, encode_twin_subscription, decode,
    decode_packet, status_code, body, new_twin,
  }

  -- What `parse_twin_packet` makes of a status and a body.
  unfoldable pub parsed : StatusCode → Option J → Call (Result DeviceTwinError T)
  unfolding error_code_to_twin_error
  parsed ok_status none = panics
  parsed ok_status (some json) = elim (new_twin json) [
    | none ↦ panics
    | some twin ↦ returns (ok twin)
  ]
  parsed other json = elim (error_code_to_twin_error other) [
    | panics ↦ panics
    | returns e ↦ returns (err e)
  ]

  unfoldable pub parse_twin_packet : R → Call (Result DeviceTwinError T)
  unfolding parsed
  parse_twin_packet packet = parsed (status_code packet) (body packet)

  -- What `?` does with the result of a write.
  unfoldable pub written :
      {A : Type 0}
      → IoResult (Unit {0}) × S
      → (S → Call (Result DeviceTwinError A × S))
      → Call (Result DeviceTwinError A × S)
  unfolding from_io
  written (err e, s) next = returns (err (from_io description e), s)
  written (ok _, s) next = next s

  -- Writing what was encoded, where the result of the encoder is unwrapped.
  unfoldable pub send :
      {A : Type 0}
      → Option (List ℕ)
      → S
      → (S → Call (Result DeviceTwinError A × S))
      → Call (Result DeviceTwinError A × S)
  unfolding written
  send none s next = panics
  send (some buf) s next = written (write_all buf s) next

  -- What `read_twin` does with the answer to its subscription.
  unfoldable pub confirmed :
      Option (MessageFromServer R) × S
      → (S → Call (Result DeviceTwinError T × S))
      → Call (Result DeviceTwinError T × S)
  confirmed (none, s) next = panics
  confirmed (some (subscription_succeeded id), s) next = next s
  confirmed (some _, s) next = panics

  unfoldable pub beside : S → Call (Result DeviceTwinError T) → Call (Result DeviceTwinError T × S)
  beside s panics = panics
  beside s (returns res) = returns (res, s)

  -- And with the answer to its request.
  unfoldable pub answered : Option (MessageFromServer R) × S → Call (Result DeviceTwinError T × S)
  unfolding parse_twin_packet beside
  answered (none, s) = panics
  answered (some (twin_response_message response), s) = beside s (parse_twin_packet response)
  answered (some _, s) = returns (err unexpected_packet, s)

  -- `read_twin`, with the identifier that Uuid gives; its first `send` is `subscribe_to_twin_result`.
  unfoldable pub read_twin : Text → S → Call (Result DeviceTwinError T × S)
  unfolding send confirmed answered
  read_twin rid s = send (encode_twin_subscription 10) s λ s1.
      confirmed (decode s1) λ s2. send (encode_read_twin rid none) s2 λ s3. answered (decode s3)

  -- What `update_reported_properties` does with the packet that comes back.
  unfoldable pub reported_with : Option Reply → Result DeviceTwinError (Unit {0})
  reported_with none = err unexpected_packet
  reported_with (some publish_packet) = ok tt
  reported_with (some _) = err unexpected_packet

  unfoldable pub update_reported_properties :
      Text → M → S → Call (Result DeviceTwinError (Unit {0}) × S)
  unfolding send reported_with
  update_reported_properties rid reported s =
      send (encode_twin_update rid reported (some 10)) s
        λ s1. returns (reported_with (decode_packet s1).0, (decode_packet s1).1)
