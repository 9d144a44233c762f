-- ===== src/Packets/Tests.antt =====
-- raiot-mqtt/src/packets: a small mqtt, runs on small buffers, and the theorems at concrete inputs.
use mathlib.Core.List.{flatten}
use raiot_rs.Base.{
  ℕ, ◌+◌, ◌≡◌, refl, false, List, [], ◌∷◌, ◌++◌, none, some, length, ltb, if◌then◌else◌, ok, err,
  ErrorKind, write_zero, returns, arith,
}
use raiot_rs.Ring
use raiot_rs.Ring.{CircularBuffer, size, valid_length, available_space, append_all_bytes}
use raiot_rs.Ring.Valid.{IsValid}
use raiot_rs.Ring.Contents.{contents}
use raiot_rs.Packets.{Encoder, packet, Decoder, write_packet, get_next_packet, append_bytes}
use raiot_rs.Packets.Small.{decoder_of, small_reads}
use raiot_rs.Packets.Streamer.{write_packet_lem}
use raiot_rs.Packets.Framing.Cutting.{reads, polls, turns, Cuts, turns-Cuts}
use raiot_rs.Connection.Small.{line}

abbrev small_decoder : Decoder (List ℕ)
small_decoder = decoder_of (λ bytes. packet bytes)

abbrev small_encoder : Encoder (List ℕ)
small_encoder = record {
  pieces = λ body. (48 ∷ []) ∷ (length body ∷ []) ∷ body ∷ [];
  encoded_length = λ body. 2 + length body;
}

-- A packet of three bytes and the start of another, round the end of a buffer of six.
abbrev arrived : CircularBuffer
arrived = record { buffer = 7 ∷ 64 ∷ 9 ∷ 9 ∷ 48 ∷ 1 ∷ []; read = 4; write = 2; full = false }

arrived-IsValid : IsValid arrived
arrived-IsValid = record {
  positive = omega arith;
  small = omega arith;
  read_in = omega arith;
  write_in = omega arith;
  full_at = λ h. cc;
}

poll_arrived :
    get_next_packet small_decoder (record { buffer = arrived })
    ≡ returns (ok (some (48 ∷ 1 ∷ 7 ∷ [])), record { buffer = record arrived { read = 1 } })
unfolding get_next_packet Ring.read_bytes Ring.peek Ring.get_buffer_slice valid_length
poll_arrived = refl

poll_rest :
    get_next_packet small_decoder (record { buffer = record arrived { read = 1 } })
    ≡ returns (ok none, record { buffer = record arrived { read = 1 } })
unfolding get_next_packet valid_length
poll_rest = refl

append_bytes_cut : (append_bytes (record { buffer = arrived }) (1 ∷ 2 ∷ 3 ∷ [])).0 ≡ ok 2
unfolding append_bytes append_all_bytes available_space valid_length
append_bytes_cut = refl

-- The second packet is complete with the byte that the line has.
turns-Cuts_example :
    Cuts small_decoder line
      (record { buffer = arrived })
      []
      (turns small_decoder line
        (polls ∷ polls ∷ reads ∷ polls ∷ [])
        (record { buffer = arrived })
        [])
turns-Cuts_example =
    turns-Cuts small_decoder line (polls ∷ polls ∷ reads ∷ polls ∷ []) (record { buffer = arrived })
      [] (small_reads (λ bytes. packet bytes)) arrived-IsValid

-- A packet of three bytes goes in behind the four bytes of a buffer of eight.
abbrev outgoing : CircularBuffer
outgoing = record { buffer = 4 ∷ 0 ∷ 0 ∷ 0 ∷ 0 ∷ 1 ∷ 2 ∷ 3 ∷ []; read = 5; write = 1; full = false }

outgoing-IsValid : IsValid outgoing
outgoing-IsValid = record {
  positive = omega arith;
  small = omega arith;
  read_in = omega arith;
  write_in = omega arith;
  full_at = λ h. cc;
}

write_packet-outgoing :
    (write_packet small_encoder (record { buffer = outgoing }) (9 ∷ [])).1.buffer.buffer
    ≡ 4 ∷ 48 ∷ 1 ∷ 9 ∷ 0 ∷ 1 ∷ 2 ∷ 3 ∷ []
unfolding write_packet Ring.write append_all_bytes available_space valid_length
write_packet-outgoing = refl

write_packet_lem_example :
    let (res, s) = write_packet small_encoder (record { buffer = outgoing }) (9 ∷ []) in
    IsValid s.buffer
    × (size s.buffer ≡ 8)
    × (if false
        then (res ≡ err ErrorKind.invalid_input) × (s ≡ record { buffer = outgoing })
        else if ltb 8 (valid_length outgoing + 3)
        then (res ≡ err write_zero) × (s ≡ record { buffer = outgoing })
        else (res ≡ ok tt) × (contents s.buffer ≡ contents outgoing ++ 48 ∷ 1 ∷ 9 ∷ []))
unfolding flatten
write_packet_lem_example =
    write_packet_lem small_encoder (record { buffer = outgoing }) (9 ∷ []) outgoing-IsValid refl
