-- ===== src/Packets/Small.antt =====
-- A small mqtt for runs at concrete inputs: a type byte, one byte of length, and a body.
use raiot_rs.Base.{
  ℕ, ◌≤◌, ◌<◌, ◌^◌, ◌≡◌, ◌≢◌, refl, List, [], ◌∷◌, ◌++◌, take, ltb, if◌then◌else◌, unexpected_eof,
  arith,
}
use raiot_rs.Packets.{FixedHeader, HeaderResult, header, io_error, malformed, PacketResult, Decoder}
use raiot_rs.Packets.Framing.{ReadsHeaders}

-- A type byte, one byte of length below 128, and the body.
abbrev pub small_header : List ℕ → HeaderResult
small_header [] = io_error unexpected_eof
small_header (t ∷ []) = io_error unexpected_eof
small_header (t ∷ n ∷ body) =
    if ltb n 128 then header (record { encoded_length = 2; remaining_length = n }) else malformed

abbrev pub decoder_of : {P : Type 0} → (List ℕ → PacketResult P) → Decoder P
decoder_of packet_of = record { decode_header = small_header; decode_packet = packet_of }

small_five : (bytes : List ℕ) → small_header (take 5 bytes) ≡ small_header bytes
small_five [] = refl
small_five (t ∷ []) = refl
small_five (t ∷ n ∷ body) = refl

small_sizes :
    (bytes : List ℕ) (h : FixedHeader)
    → small_header bytes ≡ header h
    → (2 ≤ h.encoded_length) × (h.encoded_length ≤ 5) × (h.remaining_length < 2 ^ 28)
small_sizes [] h e = cc
small_sizes (t ∷ []) h e = cc
small_sizes (t ∷ n ∷ body) h e = ground arith

small_settled :
    (bytes more : List ℕ)
    → small_header bytes ≢ io_error unexpected_eof
    → small_header (bytes ++ more) ≡ small_header bytes
small_settled [] more h = absurd (h refl)
small_settled (t ∷ []) more h = absurd (h refl)
small_settled (t ∷ n ∷ body) more h = refl

pub small_reads :
    {P : Type 0} (packet_of : List ℕ → PacketResult P) → ReadsHeaders (decoder_of packet_of)
small_reads packet_of = record { five = small_five; sizes = small_sizes; settled = small_settled }
