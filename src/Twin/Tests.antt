-- ===== src/Twin/Tests.antt =====
-- raiot-twin/src/lib.rs: a hub that confirms and answers, and the theorems at concrete inputs.
use raiot_rs.Base.{
  ◌==◌, if◌then◌else◌, ℕ, ◌≡◌, refl, List, [], ◌∷◌, ◌++◌, Option, none, some, ok, returns, panics,
}
use raiot_rs.Protocol.Text.{codes}
use raiot_rs.Protocol.Messages.{StatusCode, ok_status, no_content}
use raiot_rs.Twin.{
  MessageFromServer, subscription_succeeded, twin_response_message, TwinCrates, beside, parsed,
  written, send, confirmed, answered, read_twin, error_code_to_twin_error, parse_twin_packet,
  publish_packet,
}
use raiot_rs.Twin.Reading.{Reads, read_twin_iff}

-- A stream is the list of the messages to come and the bytes that were written.
abbrev Wire : Type 0
Wire = List (MessageFromServer (StatusCode × ℕ)) × List ℕ

abbrev next : Wire → Option (MessageFromServer (StatusCode × ℕ)) × Wire
next ([], out) = (none, ([], out))
next (msg ∷ more, out) = (some msg, (more, out))

-- Requests are single bytes, and a twin is the number in its answer.
abbrev small_crates : TwinCrates Wire (StatusCode × ℕ) ℕ ℕ ℕ
small_crates = record {
  description = λ e. codes "broken";
  write_all = λ buf s. (ok tt, (s.0, s.1 ++ buf));
  encode_twin_update = λ rid reported version. some (3 ∷ []);
  encode_read_twin = λ rid version. some (2 ∷ []);
  encode_twin_subscription = λ id. some (1 ∷ []);
  decode = next;
  decode_packet = λ s. (some publish_packet, s);
  status_code = λ r. r.0;
  body = λ r. some r.1;
  new_twin = λ json. if json == 9 then none else some json;
}

abbrev answering : Wire
answering = (subscription_succeeded 10 ∷ twin_response_message (ok_status, 7) ∷ [], [])

reads_seven : read_twin small_crates (codes "r") answering ≡ returns (ok 7, ([], 1 ∷ 2 ∷ []))
unfolding read_twin send written confirmed answered beside parse_twin_packet parsed
reads_seven = refl

-- An answer without content, which reports no failure, makes it panic.
no_content_panics :
    read_twin small_crates
      (codes "r")
      (subscription_succeeded 10 ∷ twin_response_message (no_content, 7) ∷ [], [])
    ≡ panics
unfolding read_twin send written confirmed answered beside parse_twin_packet parsed
    error_code_to_twin_error
no_content_panics = refl

-- So does one with a body that is no twin.
malformed_panics :
    read_twin small_crates
      (codes "r")
      (subscription_succeeded 10 ∷ twin_response_message (ok_status, 9) ∷ [], [])
    ≡ panics
unfolding read_twin send written confirmed answered beside parse_twin_packet parsed
malformed_panics = refl

read_twin_iff_example : Reads small_crates (codes "r") answering ([], 1 ∷ 2 ∷ []) 7
read_twin_iff_example =
    (read_twin_iff small_crates (codes "r") answering ([], 1 ∷ 2 ∷ []) 7).0 reads_seven
