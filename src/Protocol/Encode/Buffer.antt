-- ===== src/Protocol/Encode/Buffer.antt =====
-- raiot-protocol/src/iot_codec.rs: `encode`, which prints the packet of a message into a buffer.
use mathlib.Core.List.{flatten}
use mathlib.Core.Option
use raiot_rs.Base.{
  ℕ, ◌≡◌, refl, List, [], ◌∷◌, ◌++◌, Option, none, some, length, drop, leb, if◌then◌else◌, arith,
  length-append, length-drop, drop_add, append_assoc,
}
use raiot_rs.Packets.{Encoder}
use raiot_rs.Protocol.Messages.{MsgToHub}
use raiot_rs.Protocol.Mqtt.{VariablePacket, Crates}
use raiot_rs.Protocol.Errors.{Coded, done, fails, panicked, ◌>>=◌, unwrap}
use raiot_rs.Protocol.Encode.{encode_message}

-- The writer that a slice of bytes is: each piece goes to the start of what is left of it, and one that
-- does not fit is an error, `none`.
unfoldable pub fill : List ℕ → List (List ℕ) → Option (List ℕ)
fill buf [] = some buf
fill buf (piece ∷ more) =
    let rest = fill (drop (length piece) buf) more in
    if leb (length piece) (length buf) then Option.map (λ tail. piece ++ tail) rest else none

-- `IotCodec::encode`: the length of the packet, and the buffer afterwards.
unfoldable pub encode :
    {J M : Type 0}
    → Crates J M
    → Encoder VariablePacket
    → MsgToHub J M
    → List ℕ
    → Coded (ℕ × List ℕ)
unfolding fill
encode crates mqtt msg buf = do
  packet ← encode_message crates msg
  buf' ← unwrap (fill buf (mqtt.pieces packet))
  done (mqtt.encoded_length packet, buf')

fill_lem :
    (pieces : List (List ℕ)) (buf : List ℕ)
    → fill buf pieces ≡ (
        if leb (length (flatten pieces)) (length buf)
        then some (flatten pieces ++ drop (length (flatten pieces)) buf)
        else none)
unfolding fill flatten
fill_lem [] buf = ground arith
fill_lem (piece ∷ more) buf = ground (
  arith,
  fill_lem more (drop (length piece) buf),
  length-append piece (flatten more),
  length-drop (length piece) buf,
  drop_add (length piece) (length (flatten more)) buf,
  append_assoc piece (flatten more) (drop (length (flatten more)) (drop (length piece) buf)),
)

-- The bytes of a packet at the start of a buffer, if they fit.
abbrev pub printed : Encoder VariablePacket → List ℕ → VariablePacket → Coded (ℕ × List ℕ)
printed mqtt buf p =
    let bytes = flatten (mqtt.pieces p) in
    if leb (length bytes) (length buf)
    then done (length bytes, bytes ++ drop (length bytes) buf)
    else panicked

-- A packet that fits the buffer is printed at its start, the rest of the buffer stays, and the number
-- returned is the length of the packet, provided that this is the length that it announces; for one
-- that does not fit, `encode` panics. The error or the panic of `encode_message` is passed on.
pub encode_lem :
    {J M : Type 0} (crates : Crates J M) (mqtt : Encoder VariablePacket) (msg : MsgToHub J M)
    (buf : List ℕ)
    → ((p : VariablePacket) → mqtt.encoded_length p ≡ length (flatten (mqtt.pieces p)))
    → encode crates mqtt msg buf ≡ (encode_message crates msg >>= printed mqtt buf)
unfolding encode
encode_lem crates mqtt msg buf announced = encode_cases (encode_message crates msg)
  where
    encode_cases :
        (m : Coded VariablePacket)
        → (do p ← m; buf' ← unwrap (fill buf (mqtt.pieces p)); done (mqtt.encoded_length p, buf'))
          ≡ (m >>= printed mqtt buf)
    encode_cases (fails e) = refl
    encode_cases panicked = refl
    encode_cases (done p) = ground (arith, fill_lem (mqtt.pieces p) buf, announced p)
