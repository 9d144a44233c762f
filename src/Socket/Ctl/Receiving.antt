-- ===== src/Socket/Ctl/Receiving.antt =====
-- raiot-client/src/iot_socket.rs: `recv_next` ends, and loses no byte.
use raiot_rs.Base.{
  ℕ, zero, suc, ◌+◌, ◌≤◌, ◌<◌, ◌≡◌, refl, sym, ap, subst, ◌∙◌, Bool, true, false, List, [], ◌++◌,
  length, take, drop, Option, some, IoResult, would_block, interrupted, ok, err, Call, returns,
  panics, arith, append-nil, append_assoc, length-append, ◌⊎◌, inl, inr, returns_injective,
}
use raiot_rs.Ring.{CircularBuffer, size, append_from_reader}
use raiot_rs.Ring.Valid.{IsValid, available_space-add-valid_length}
use raiot_rs.Ring.Contents.{contents, length-contents}
use raiot_rs.Packets.{
  Decoder, MqttPacketizer, PacketResult, packet, io_error, malformed, get_next_packet,
  finish_packet,
}
use raiot_rs.Packets.Framing.{
  judge, ReadsHeaders, Verdict, wait, invalid, frame, Polls, get_next_packet-Polls,
}
use raiot_rs.Connection.Receiving.{Takes, append_from_reader-Takes}
use raiot_rs.Protocol.Messages.{MsgFromHub}
use raiot_rs.Protocol.Mqtt.{VariablePacket, Crates}
use raiot_rs.Protocol.Errors.{Coded, done, fails, panicked}
use raiot_rs.Protocol.Decode.{decode_packet}
use raiot_rs.Socket.Ctl.{
  NonblockingSocket, IotSocketCtl, handle_ack, handle_incoming_msg, Reception, receive_msg,
  recv_round, after_append, read_on, recv_next,
}

Call-cases : {A : Type 0} (x : Call A) → (x ≡ panics) ⊎ ((a : A) × (x ≡ returns a))
Call-cases panics = inl refl
Call-cases (returns a) = inr (a, refl)

abbrev held_by : {J M S : Type 0} → IotSocketCtl J M S → List ℕ
held_by c = contents c.packetizer.buffer

abbrev room_of : {J M S : Type 0} → IotSocketCtl J M S → ℕ
room_of c = size c.packetizer.buffer

module _ {J M S : Type 0} where
  handle_incoming_msg-keeps :
      (c c' : IotSocketCtl J M S) (msg : MsgFromHub J M)
      → handle_incoming_msg c msg ≡ returns c'
      → (c'.packetizer ≡ c.packetizer) × (c'.stream ≡ c.stream)
  unfolding handle_incoming_msg handle_ack
  handle_incoming_msg-keeps c c' msg e = ground arith

module _ {J M S : Type 0} (mqtt : Decoder VariablePacket) (io : NonblockingSocket S) where
  -- The stream handed out just `bytes`, and they came in behind what was held; of all that either nothing
  -- was taken off the front, or the `n` bytes of the packet that it begins with.
  pub record Kept (c c' : IotSocketCtl J M S) : Type 0 where
    pub n : ℕ
    pub bytes : List ℕ
    pub taken : (n ≡ 0) ⊎ (judge mqtt (room_of c) (held_by c ++ bytes) ≡ frame n)
    pub held : held_by c' ≡ drop n (held_by c ++ bytes)
    pub handed : io.reader.given c'.stream ≡ io.reader.given c.stream ++ bytes
    pub valid : IsValid c'.packetizer.buffer
    pub same : room_of c' ≡ room_of c

  -- The call ends, and where it returns no byte is lost.
  pub record Receives (c : IotSocketCtl J M S) (run : Option (Call (Bool × IotSocketCtl J M S)))
      : Type 0 where
    pub out : Call (Bool × IotSocketCtl J M S)
    pub ended : run ≡ some out
    pub kept : (more : Bool) (c' : IotSocketCtl J M S) → out ≡ returns (more, c') → Kept c c'

  Kept-trans :
      (c c1 c' : IotSocketCtl J M S) (bytes : List ℕ)
      → held_by c1 ≡ held_by c ++ bytes
      → io.reader.given c1.stream ≡ io.reader.given c.stream ++ bytes
      → room_of c1 ≡ room_of c
      → Kept c1 c'
      → Kept c c'
  Kept-trans c c1 c' bytes held handed same k = record {
    n = k.n;
    bytes = bytes ++ k.bytes;
    taken =
        let all : held_by c1 ++ k.bytes ≡ held_by c ++ (bytes ++ k.bytes) =
          rw held (append_assoc (held_by c) bytes k.bytes) in
        rw (same, all) at k.taken;
    held = k.held ∙ ap (drop k.n) (rw held (append_assoc (held_by c) bytes k.bytes));
    handed = k.handed ∙ rw handed (append_assoc (io.reader.given c.stream) bytes k.bytes);
    valid = k.valid;
    same = k.same ∙ same;
  }

  panicked-Receives : (c : IotSocketCtl J M S) → Receives c (some panics)
  panicked-Receives c = record { out = panics; ended = refl; kept = λ more c' e. cc }

module _ {J M S : Type 0} (crates : Crates J M) (mqtt : Decoder VariablePacket)
    (io : NonblockingSocket S) where
  receive_msg-keeps :
      (x : Coded (MsgFromHub J M)) (c c' : IotSocketCtl J M S) (more : Bool)
      → receive_msg crates mqtt io x c ≡ returns (more, c')
      → (c'.packetizer ≡ c.packetizer) × (c'.stream ≡ c.stream)
  unfolding receive_msg
  receive_msg-keeps (fails k) c c' more e = cc
  receive_msg-keeps panicked c c' more e = cc
  receive_msg-keeps (done msg) c c' more e = elim (Call-cases (handle_incoming_msg c msg)) [
    | inl broken ↦ absurd (ground (arith, broken))
    | inr (c1, h) ↦ handle_incoming_msg-keeps c c' msg (ground (arith, h))
  ]

  module _ (c : IotSocketCtl J M S)
      (t : Takes io.reader c.packetizer.buffer c.stream
        (append_from_reader io.reader c.packetizer.buffer c.stream)) where
    abbrev taken : IotSocketCtl J M S
    taken = record c { packetizer = record { buffer = t.out.1 }; stream = t.out.2 }

    -- A round that ends the call.
    stopped : (more : Bool) → Receives mqtt io c (some (returns (more, taken)))
    stopped more = record {
      out = returns (more, taken);
      ended = refl;
      kept = λ more' c' e.
          let same = ap (λ (x : Bool × IotSocketCtl J M S). x.1) (returns_injective e) in
          subst (Kept mqtt io c) same (record {
            n = 0;
            bytes = t.bytes;
            taken = inl refl;
            held = t.held;
            handed = t.handed;
            valid = t.valid;
            same = t.same;
          });
    }

    after_append-Receives :
        (res : IoResult ℕ) (again : IotSocketCtl J M S → Reception crates mqtt io)
        → res ≡ t.out.0
        → ((read : ℕ)
            → 0 < length t.bytes
            → Receives mqtt io
                (record taken { total_bytes_read = read })
                (again (record taken { total_bytes_read = read })))
        → Receives mqtt io c (after_append crates mqtt io res taken again)
    unfolding after_append
    after_append-Receives (ok zero) again e rest = stopped false
    after_append-Receives (ok (suc n)) again e rest =
        let count : suc n ≡ length t.bytes = t.counted (suc n) (sym e) in
        let r = rest _ (omega arith) in
        record {
          out = r.out;
          ended = r.ended;
          kept = λ more c' same.
              Kept-trans mqtt io c _ c' t.bytes t.held t.handed t.same (r.kept more c' same);
        }
    after_append-Receives (err would_block) again e rest = stopped false
    after_append-Receives (err interrupted) again e rest = stopped true
    after_append-Receives (err x) again e rest = panicked-Receives mqtt io c

  -- A packet of `n` bytes was taken off the front.
  received-Receives :
      (n : ℕ) (p : MqttPacketizer) (c : IotSocketCtl J M S) (x : Coded (MsgFromHub J M))
      → judge mqtt (room_of c) (held_by c) ≡ frame n
      → contents p.buffer ≡ drop n (held_by c)
      → IsValid p.buffer
      → size p.buffer ≡ room_of c
      → Receives mqtt io c (some (receive_msg crates mqtt io x (record c { packetizer = p })))
  received-Receives n p c x judged held v same = record {
    out = receive_msg crates mqtt io x (record c { packetizer = p });
    ended = refl;
    kept = λ more c' e.
        let (packetizer, stream) = receive_msg-keeps x (record c { packetizer = p }) c' more e in
        let buffer = ap (λ (x : MqttPacketizer). x.buffer) packetizer in
        record {
          n = n;
          bytes = [];
          taken = inr (rw (append-nil (held_by c)) judged);
          held = ap contents buffer ∙ held ∙ ap (drop n) (sym (append-nil (held_by c)));
          handed = ap io.reader.given stream ∙ sym (append-nil _);
          valid = subst IsValid (sym buffer) v;
          same = ap size buffer ∙ same;
        };
  }

  frame-Receives :
      (res : PacketResult VariablePacket) (n : ℕ) (p : MqttPacketizer) (c : IotSocketCtl J M S)
      (again : IotSocketCtl J M S → Reception crates mqtt io)
      → judge mqtt (room_of c) (held_by c) ≡ frame n
      → contents p.buffer ≡ drop n (held_by c)
      → IsValid p.buffer
      → size p.buffer ≡ room_of c
      → Receives mqtt io c (recv_round crates mqtt io (returns (finish_packet mqtt res, p)) c again)
  unfolding recv_round finish_packet
  frame-Receives (packet x) n p c again judged held v same =
      received-Receives n p c (decode_packet crates x) judged held v same
  frame-Receives (io_error e) n p c again judged held v same = panicked-Receives mqtt io c
  frame-Receives malformed n p c again judged held v same = panicked-Receives mqtt io c

  module _ (std : ReadsHeaders mqtt) where
    -- What the induction knows of the rounds that follow.
    abbrev Rest : IotSocketCtl J M S → (IotSocketCtl J M S → Reception crates mqtt io) → Type 0
    Rest c again =
        (c1 : IotSocketCtl J M S)
        → IsValid c1.packetizer.buffer
        → room_of c1 ≡ room_of c
        → length (held_by c) < length (held_by c1)
        → Receives mqtt io c1 (again c1)

    read_on-Receives :
        (c : IotSocketCtl J M S) (again : IotSocketCtl J M S → Reception crates mqtt io)
        → IsValid c.packetizer.buffer
        → Rest c again
        → Receives mqtt io c (read_on crates mqtt io c again)
    unfolding read_on
    read_on-Receives c again v rest =
        let t = append_from_reader-Takes io.reader c.packetizer.buffer c.stream v in
        rw (t.ended, read_on)
          (after_append-Receives c t t.out.0 again refl (λ read pos.
            rest (record (taken c t) { total_bytes_read = read }) t.valid t.same
              (omega (arith, ap length t.held, length-append (held_by c) t.bytes))))

    round-Receives :
        (v : Verdict) (c : IotSocketCtl J M S)
        (again : IotSocketCtl J M S → Reception crates mqtt io)
        → judge mqtt (room_of c) (held_by c) ≡ v
        → Polls mqtt c.packetizer v (get_next_packet mqtt c.packetizer)
        → IsValid c.packetizer.buffer
        → Rest c again
        → Receives mqtt io c (recv_round crates mqtt io (get_next_packet mqtt c.packetizer) c again)
    unfolding recv_round Polls
    round-Receives wait c again judged e v rest = rw e (read_on-Receives c again v rest)
    round-Receives invalid c again judged e v rest = rw e (panicked-Receives mqtt io c)
    round-Receives (frame n) c again judged (p, e, held, v', same) v rest =
        rw e
          (frame-Receives (mqtt.decode_packet (take n (held_by c))) n p c again judged held v' same)

    full_lem : (r : CircularBuffer) → IsValid r → length (contents r) ≤ size r
    full_lem r v = omega (arith, length-contents v, available_space-add-valid_length v)

    -- With a valid buffer, and with fuel for more rounds than there is room in it, `recv_next`
    -- ends. Where it returns, the bytes that the stream handed out, and no others, came in order
    -- behind those that were held. Off the front of all these nothing is gone, or just the bytes of the
    -- packet that they begin with.
    pub recv_next-Receives :
        (fuel : ℕ) (c : IotSocketCtl J M S)
        → IsValid c.packetizer.buffer
        → room_of c < length (held_by c) + fuel
        → Receives mqtt io c (recv_next crates mqtt io fuel c)
    unfolding recv_next
    recv_next-Receives zero c v enough = absurd (omega (arith, full_lem c.packetizer.buffer v))
    recv_next-Receives (suc fuel) c v enough =
        round-Receives _ c (λ c'. recv_next crates mqtt io fuel c') refl
          (get_next_packet-Polls mqtt c.packetizer std v) v
          (λ c1 v1 same longer. recv_next-Receives fuel c1 v1 (omega arith))
