-- ===== src/Packets/Streamer.antt =====
-- raiot-mqtt/src/packets/streamer.rs: a packet goes into the outgoing buffer whole or not at all.
use mathlib.Core.List.{flatten}
use raiot_rs.Base.{
  ℕ, zero, suc, ◌+◌, ◌-◌, ◌≤◌, min, ◌≡◌, refl, sym, ap, ◌∙◌, inl, inr, true, false, List, [], ◌∷◌,
  ◌++◌, length, take, ltb, if◌then◌else◌, ok, err, write_zero, invalid_input, IoResult, arith,
  append-nil, append_assoc, take_all, drop_all, length-append, Bool-cases, ◌==◌,
}
use raiot_rs.Ring
use raiot_rs.Ring.{CircularBuffer, size, valid_length, available_space}
use raiot_rs.Ring.Valid.{IsValid, available_space-add-valid_length}
use raiot_rs.Ring.Contents.{contents, length-contents}
use raiot_rs.Ring.Append.{write_lem}
use raiot_rs.Packets.{Encoder, MqttStreamer, write_all, encode_pieces, write_packet}

-- All of `bytes` went into the buffer.
pub record Appended (r : CircularBuffer) (bytes : List ℕ)
    (out : IoResult (Unit {0}) × CircularBuffer) : Type 0 where
  pub done : out.0 ≡ ok tt
  pub valid : IsValid out.1
  pub same : size out.1 ≡ size r
  pub held : contents out.1 ≡ contents r ++ bytes

Appended-none : {r : CircularBuffer} → IsValid r → Appended r [] (ok tt, r)
Appended-none v = record { done = refl; valid = v; same = refl; held = sym (append-nil _) }

write_all-nil : (fuel : ℕ) (r : CircularBuffer) → write_all fuel r [] ≡ (ok tt, r)
unfolding write_all
write_all-nil zero r = refl
write_all-nil (suc fuel) r = refl

-- With room for all of the bytes one write takes them all.
write_whole :
    (r : CircularBuffer) (bytes : List ℕ)
    → IsValid r
    → length bytes + valid_length r ≤ size r
    → ((Ring.write r bytes).0 ≡ ok (length bytes))
      × (contents (Ring.write r bytes).1 ≡ contents r ++ bytes)
write_whole r bytes v fits =
    let all : min (size r - valid_length r) (length bytes) ≡ length bytes = omega arith in
    let (_, _, res, held) = write_lem bytes v in
    (
      rw all at res,
      held
          ∙ ap (λ n. contents r ++ take n bytes) all
          ∙ ap (◌++◌ (contents r)) (take_all (length bytes) bytes (omega arith)),
    )

write_all_lem :
    (fuel : ℕ) (r : CircularBuffer) (bytes : List ℕ)
    → IsValid r
    → length bytes ≤ fuel
    → length bytes + valid_length r ≤ size r
    → Appended r bytes (write_all fuel r bytes)
unfolding write_all
write_all_lem zero r [] v enough fits = Appended-none v
write_all_lem zero r (b ∷ bs) v enough fits = absurd (omega arith)
write_all_lem (suc fuel) r [] v enough fits = Appended-none v
write_all_lem (suc fuel) r (b ∷ bs) v enough fits =
    let (res, held) = write_whole r (b ∷ bs) v fits in
    let more : (length (b ∷ bs) == 0) ≡ false = ground arith in
    rw
      (
        res,
        write_all,
        more,
        drop_all (length (b ∷ bs)) (b ∷ bs) (omega arith),
        write_all-nil fuel (Ring.write r (b ∷ bs)).1,
      )
      (record {
        done = refl;
        valid = (write_lem (b ∷ bs) v).0;
        same = (write_lem (b ∷ bs) v).1;
        held = held;
      })

module _ {P : Type 0} (mqtt : Encoder P) where
  encode_pieces_lem :
      (pieces : List (List ℕ)) (r : CircularBuffer)
      → IsValid r
      → length (flatten pieces) + valid_length r ≤ size r
      → Appended r (flatten pieces) (encode_pieces mqtt r pieces)
  unfolding encode_pieces flatten
  encode_pieces_lem [] r v fits = Appended-none v
  encode_pieces_lem (piece ∷ more) r v fits =
      let a =
        write_all_lem (length piece) r piece v (omega arith)
          (omega (arith, length-append piece (flatten more))) in
      let r' = (write_all (length piece) r piece).1 in
      let b = encode_pieces_lem more r' a.valid (
        omega (
          arith,
          length-append piece (flatten more),
          length-append (contents r) piece,
          ap length a.held,
          length-contents a.valid,
          length-contents v,
          a.same,
        )) in
      rw (a.done, encode_pieces)
        (record {
          done = b.done;
          valid = b.valid;
          same = b.same ∙ a.same;
          held =
              b.held
              ∙ ap (λ bytes. bytes ++ flatten more) a.held
              ∙ append_assoc (contents r) piece (flatten more);
        })

  -- A packet longer than the whole buffer is refused with InvalidInput, one longer than the free space
  -- with WriteZero, and both leave the streamer as it was. Any other goes in whole, behind what the
  -- buffer held, provided that the announced length is the length of what `encode` writes.
  pub write_packet_lem :
      (s : MqttStreamer) (p : P)
      → IsValid s.buffer
      → mqtt.encoded_length p ≡ length (flatten (mqtt.pieces p))
      → let bytes = flatten (mqtt.pieces p) in
        let (res, s') = write_packet mqtt s p in
        IsValid s'.buffer
        × (size s'.buffer ≡ size s.buffer)
        × (if ltb (size s.buffer) (length bytes)
            then (res ≡ err invalid_input) × (s' ≡ s)
            else if ltb (size s.buffer) (valid_length s.buffer + length bytes)
            then (res ≡ err write_zero) × (s' ≡ s)
            else (res ≡ ok tt) × (contents s'.buffer ≡ contents s.buffer ++ bytes))
  unfolding write_packet
  write_packet_lem s p v announced =
      let bytes = flatten (mqtt.pieces p) in
      let total = available_space-add-valid_length v in
      elim (Bool-cases (ltb (size s.buffer) (length bytes))) [
        | inl large ↦ rw (announced, large) (v, refl, (refl, refl))
        | inr fits ↦ elim (Bool-cases (ltb (available_space s.buffer) (length bytes))) [
          | inl busy ↦
              let busy' : ltb (size s.buffer) (valid_length s.buffer + length bytes) ≡ true =
                ground arith in
              rw (announced, fits, busy, busy') (v, refl, (refl, refl))
          | inr room ↦
              let room' : ltb (size s.buffer) (valid_length s.buffer + length bytes) ≡ false =
                ground arith in
              let a = encode_pieces_lem (mqtt.pieces p) s.buffer v (ground arith) in
              rw (announced, fits, room, room', a.done) (a.valid, a.same, (refl, a.held))
        ]
      ]
