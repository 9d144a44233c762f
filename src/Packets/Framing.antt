-- ===== src/Packets/Framing.antt =====
-- raiot-mqtt/src/packets/packetizer.rs: finding the next packet in the bytes that have arrived.
pub mod Cutting
use raiot_rs.Base.{
  ℕ, ◌+◌, ◌≤◌, ◌<◌, ◌%◌, ◌^◌, min, ◌≡◌, ◌≢◌, refl, sym, ap, ◌∙◌, inl, inr, false, Option, none,
  List, ◌++◌, length, drop, take, leb, ltb, if◌then◌else◌, ok, err, unexpected_eof, invalid_data,
  IoResult, arith, returns, Call, length-append, Bool-cases, take-min,
}
use raiot_rs.Ring.{size, valid_length}
use raiot_rs.Ring.Slice.{bytes_of}
use raiot_rs.Ring.Valid.{IsValid}
use raiot_rs.Ring.Contents.{contents, length-contents}
use raiot_rs.Ring.Take.{read_bytes_ok, peek_ok}
use raiot_rs.Packets.{
  FixedHeader, HeaderResult, header, io_error, malformed, Decoder, MqttPacketizer, finish_packet,
  take_packet, with_header, get_next_packet,
}

-- What the MQTT standard says of a fixed header: a type byte and one to four bytes of remaining
-- length, a number of at most 28 bits.
pub record ReadsHeaders {P : Type 0} (mqtt : Decoder P) : Type 0 where
  -- No byte after the fifth matters.
  pub five : (bytes : List ℕ) → mqtt.decode_header (take 5 bytes) ≡ mqtt.decode_header bytes
  pub sizes :
      (bytes : List ℕ) (h : FixedHeader)
      → mqtt.decode_header bytes ≡ header h
      → (2 ≤ h.encoded_length) × (h.encoded_length ≤ 5) × (h.remaining_length < 2 ^ 28)
  -- Once there are bytes enough for an answer, more of them do not change it.
  pub settled :
      (bytes more : List ℕ)
      → mqtt.decode_header bytes ≢ io_error unexpected_eof
      → mqtt.decode_header (bytes ++ more) ≡ mqtt.decode_header bytes

-- What the packetizer makes of a sequence of bytes, for a buffer of `cap` bytes: more are needed, the
-- stream is no MQTT or a packet does not fit the buffer, or the first `n` bytes are a packet.
pub data Verdict : Type 0 where
  wait : Verdict
  invalid : Verdict
  frame : ℕ → Verdict

module _ {P : Type 0} (mqtt : Decoder P) where
  pub judge_header : ℕ → List ℕ → HeaderResult → Verdict
  judge_header cap bytes (header h) =
      let n = h.encoded_length + h.remaining_length in
      if ltb (length bytes) n then if ltb cap n then invalid else wait else frame n
  judge_header cap bytes (io_error unexpected_eof) = wait
  judge_header cap bytes _ = invalid

  unfoldable pub judge : ℕ → List ℕ → Verdict
  unfolding judge_header
  judge cap bytes =
      if leb (length bytes) 1 then wait else judge_header cap bytes (mqtt.decode_header bytes)

  -- What a poll does for a verdict.
  unfoldable pub Polls :
      MqttPacketizer → Verdict → Call (IoResult (Option P) × MqttPacketizer) → Type 0
  Polls p wait out = out ≡ returns (ok none, p)
  Polls p invalid out = out ≡ returns (err invalid_data, p)
  Polls p (frame n) out =
      (p' : MqttPacketizer) × (out
        ≡ returns (finish_packet mqtt (mqtt.decode_packet (take n (contents p.buffer))), p'))
      × (contents p'.buffer ≡ drop n (contents p.buffer))
      × IsValid p'.buffer
      × (size p'.buffer ≡ size p.buffer)

  module _ (p : MqttPacketizer) (v : IsValid p.buffer) where
    take_packet-Polls :
        (n : ℕ) → 0 < n → n ≤ valid_length p.buffer → Polls p (frame n) (take_packet mqtt p n)
    unfolding take_packet Polls
    take_packet-Polls n pos le =
        let (slice, r', answer, lent, left, valid, same) = read_bytes_ok n v pos le in
        rw (answer, take_packet, lent) (record { buffer = r' }, refl, left, valid, same)

    with_header-Polls :
        (bytes : List ℕ) (res : HeaderResult)
        → bytes ≡ contents p.buffer
        → ((h : FixedHeader)
            → res ≡ header h
            → (2 ≤ h.encoded_length) × (h.encoded_length ≤ 5) × (h.remaining_length < 2 ^ 28))
        → Polls p (judge_header (size p.buffer) bytes res) (with_header mqtt p res)
    unfolding with_header judge_header Polls
    with_header-Polls bytes malformed e sizes = refl
    with_header-Polls bytes (io_error unexpected_eof) e sizes = refl
    with_header-Polls bytes (io_error k) e sizes = refl
    with_header-Polls bytes (header h) e sizes =
        let n = h.encoded_length + h.remaining_length in
        let bounds = sizes h refl in
        let exact : n % 2 ^ 32 ≡ n = omega arith in
        let held : length bytes ≡ valid_length p.buffer = ap length e ∙ length-contents v in
        elim (Bool-cases (ltb (valid_length p.buffer) n)) [
          | inr here ↦ rw (exact, held, here) (take_packet-Polls n (omega arith) (ground arith))
          | inl partial ↦ elim (Bool-cases (ltb (size p.buffer) n)) [
            | inl large ↦ rw (exact, held, partial, large) refl
            | inr fits ↦ rw (exact, held, partial, fits) refl
          ]
        ]

pub get_next_packet-Polls :
    {P : Type 0} (mqtt : Decoder P) (p : MqttPacketizer)
    → ReadsHeaders mqtt
    → IsValid p.buffer
    → Polls mqtt p (judge mqtt (size p.buffer) (contents p.buffer)) (get_next_packet mqtt p)
unfolding get_next_packet judge
get_next_packet-Polls mqtt p std v =
    let bytes = contents p.buffer in
    let n = min (valid_length p.buffer) 5 in
    elim (Bool-cases (leb (valid_length p.buffer) 1)) [
      | inl few ↦ rw (length-contents v, few) (unfold Polls in refl)
      | inr more ↦
          let (slice, answer, lent) = peek_ok n v (omega arith) in
          let front : take n bytes ≡ take 5 bytes =
            ap (λ k. take (min k 5) bytes) (sym (length-contents v)) ∙ take-min 5 bytes in
          let same : mqtt.decode_header (bytes_of slice) ≡ mqtt.decode_header bytes =
            rw (lent, front) (std.five bytes) in
          rw (length-contents v, more, answer, same)
            (with_header-Polls mqtt p v bytes (mqtt.decode_header bytes) refl
              (λ h e. std.sizes bytes h e))
    ]

judge_header-append :
    {P : Type 0} (mqtt : Decoder P) (cap : ℕ) (bytes more : List ℕ) (res : HeaderResult)
    → length (bytes ++ more) ≤ cap
    → judge_header mqtt cap bytes res ≢ wait
    → judge_header mqtt cap (bytes ++ more) res ≡ judge_header mqtt cap bytes res
unfolding judge_header
judge_header-append mqtt cap bytes more malformed fits h = refl
judge_header-append mqtt cap bytes more (io_error k) fits h = ground arith
judge_header-append mqtt cap bytes more (header x) fits h = ground (arith, length-append bytes more)

eof_waits :
    {P : Type 0} (mqtt : Decoder P) (cap : ℕ) (bytes : List ℕ)
    → judge_header mqtt cap bytes (io_error unexpected_eof) ≡ wait
unfolding judge_header
eof_waits mqtt cap bytes = refl

-- Once the bytes call for an answer, bytes that arrive later do not change it, as long as the buffer
-- holds them: a packet is found at the same place however the stream is cut into reads.
pub judge-append :
    {P : Type 0} (mqtt : Decoder P) (cap : ℕ) (bytes more : List ℕ)
    → ReadsHeaders mqtt
    → length (bytes ++ more) ≤ cap
    → judge mqtt cap bytes ≢ wait
    → judge mqtt cap (bytes ++ more) ≡ judge mqtt cap bytes
unfolding judge
judge-append mqtt cap bytes more std fits h = elim (Bool-cases (leb (length bytes) 1)) [
  | inl few ↦ absurd (h (rw few refl))
  | inr many ↦
      let longer : leb (length (bytes ++ more)) 1 ≡ false =
        ground (arith, length-append bytes more) in
      let answered : judge_header mqtt cap bytes (mqtt.decode_header bytes) ≢ wait =
        λ e. h (rw many e) in
      let same = std.settled bytes more (λ e. answered (rw e (eof_waits mqtt cap bytes))) in
      rw (longer, many, same)
        (judge_header-append mqtt cap bytes more (mqtt.decode_header bytes) fits answered)
]

judge_header-frame :
    {P : Type 0} (mqtt : Decoder P) (cap : ℕ) (bytes : List ℕ) (res : HeaderResult) (n : ℕ)
    → ((h : FixedHeader) → res ≡ header h → 2 ≤ h.encoded_length)
    → judge_header mqtt cap bytes res ≡ frame n
    → (2 ≤ n) × (n ≤ length bytes)
unfolding judge_header
judge_header-frame mqtt cap bytes malformed n sizes e = cc
judge_header-frame mqtt cap bytes (io_error k) n sizes e = ground arith
judge_header-frame mqtt cap bytes (header h) n sizes e = ground (arith, sizes h refl)

-- A packet takes two bytes at least, and they are all there.
pub judge-frame :
    {P : Type 0} (mqtt : Decoder P) (cap : ℕ) (bytes : List ℕ) (n : ℕ)
    → ReadsHeaders mqtt
    → judge mqtt cap bytes ≡ frame n
    → (2 ≤ n) × (n ≤ length bytes)
unfolding judge
judge-frame mqtt cap bytes n std e = elim (Bool-cases (leb (length bytes) 1)) [
  | inl few ↦ let never : wait ≡ frame n = rw few at e in cc
  | inr many ↦
      judge_header-frame mqtt cap bytes (mqtt.decode_header bytes) n
        (λ h same. (std.sizes bytes h same).0) (rw many at e)
]
