-- ===== src/Packets/Framing/Cutting.antt =====
-- raiot-mqtt/src/packets/packetizer.rs: any interleaving of reading from a stream and of asking for
-- packets, against cutting all the bytes at once.
use raiot_rs.Base.{
  ℕ, zero, suc, ◌≡◌, refl, sym, ap, ◌∙◌, inl, inr, true, false, List, [], ◌∷◌, ◌++◌, length, take,
  drop, leb, Option, none, some, IoResult, ok, err, invalid_data, Call, returns, panics, Reader,
  arith, append-nil, append_assoc, length-append, take-append, drop-append, Bool-cases,
}
use raiot_rs.Ring.{size, CircularBuffer, append_from_reader}
use raiot_rs.Ring.Valid.{IsValid}
use raiot_rs.Ring.Contents.{contents}
use raiot_rs.Connection.Receiving.{Takes, append_from_reader-Takes}
use raiot_rs.Packets.{
  Decoder, MqttPacketizer, HeaderResult, header, io_error, malformed, get_next_packet,
  finish_packet,
}
use raiot_rs.Packets.Framing.{
  ReadsHeaders, Verdict, wait, invalid, frame, judge, judge_header, judge-frame, eof_waits, Polls,
  get_next_packet-Polls,
}

-- The owner of a packetizer takes in what the stream has, or asks for the next packet.
pub data Turn : Type 0 where
  reads polls : Turn

module _ {P S : Type 0} (mqtt : Decoder P) (io : Reader S) where
  -- The answers to the polls, with the packetizer and the stream; `none` would be a turn that does not
  -- return.
  abbrev pub Answered : Type 0
  Answered = Option (List (IoResult (Option P)) × MqttPacketizer × S)

  unfoldable pub after_turn :
      Call (IoResult (Option P) × MqttPacketizer) → (MqttPacketizer → Answered) → Answered
  after_turn panics again = none
  after_turn (returns (res, p)) again = elim (again p) [
    | none ↦ none
    | some (out, p', s) ↦ some (res ∷ out, p', s)
  ]

  unfoldable pub after_intake :
      Option (IoResult ℕ × CircularBuffer × S) → (MqttPacketizer → S → Answered) → Answered
  after_intake none again = none
  after_intake (some (res, r, s)) again = again (record { buffer = r }) s

  unfoldable pub turns : List Turn → MqttPacketizer → S → Answered
  unfolding after_turn after_intake
  turns [] p s = some ([], p, s)
  turns (reads ∷ script) p s =
      after_intake (append_from_reader io p.buffer s) (λ p' s'. turns script p' s')
  turns (polls ∷ script) p s = after_turn (get_next_packet mqtt p) (λ p'. turns script p' s)

module _ {P : Type 0} (mqtt : Decoder P) where
  -- The reference: up to `k` packets cut off the front of a sequence of bytes, and what is left.
  unfoldable pub cut : ℕ → List ℕ → List (List ℕ) × List ℕ
  cut zero bytes = ([], bytes)
  cut (suc k) bytes = elim (judge mqtt (length bytes) bytes) [
    | wait ↦ ([], bytes)
    | invalid ↦ ([], bytes)
    | frame n ↦ (take n bytes ∷ (cut k (drop n bytes)).0, (cut k (drop n bytes)).1)
  ]

  -- The answers are what the packets decode to, one after the other, with polls in between that found
  -- none or failed with InvalidData.
  pub data Answers : List (List ℕ) → List (IoResult (Option P)) → Type 0 where
    over : Answers [] []
    none_yet :
        {packets : List (List ℕ)} {out : List (IoResult (Option P))}
        → Answers packets out
        → Answers packets (ok none ∷ out)
    never :
        {packets : List (List ℕ)} {out : List (IoResult (Option P))}
        → Answers packets out
        → Answers packets (err invalid_data ∷ out)
    found :
        {packets : List (List ℕ)} {out : List (IoResult (Option P))} (packet : List ℕ)
        → Answers packets out
        → Answers (packet ∷ packets) (finish_packet mqtt (mqtt.decode_packet packet) ∷ out)

  judge_header-grows :
      (cap cap' : ℕ) (bytes more : List ℕ) (res : HeaderResult) (n : ℕ)
      → judge_header mqtt cap bytes res ≡ frame n
      → judge_header mqtt cap' (bytes ++ more) res ≡ frame n
  unfolding judge_header
  judge_header-grows cap cap' bytes more malformed n h = cc
  judge_header-grows cap cap' bytes more (io_error k) n h = ground arith
  judge_header-grows cap cap' bytes more (header x) n h = ground (arith, length-append bytes more)

  -- A packet at the front stays there, whatever comes behind it and whatever buffer it is in.
  judge-grows :
      (cap cap' : ℕ) (bytes more : List ℕ) (n : ℕ)
      → ReadsHeaders mqtt
      → judge mqtt cap bytes ≡ frame n
      → judge mqtt cap' (bytes ++ more) ≡ frame n
  unfolding judge
  judge-grows cap cap' bytes more n std h = elim (Bool-cases (leb (length bytes) 1)) [
    | inl few ↦ let never : wait ≡ frame n = rw few at h in absurd cc
    | inr many ↦
        let longer : leb (length (bytes ++ more)) 1 ≡ false =
          ground (arith, length-append bytes more) in
        let answered : judge_header mqtt cap bytes (mqtt.decode_header bytes) ≡ frame n =
          rw many at h in
        let same = std.settled bytes more (λ e.
          let never : wait ≡ frame n = sym (eof_waits mqtt cap bytes) ∙ (rw e at answered) in
          absurd cc) in
        rw (longer, same)
          (judge_header-grows cap cap' bytes more (mqtt.decode_header bytes) n answered)
  ]

  cut-frame :
      (k cap : ℕ) (bytes more : List ℕ) (n : ℕ)
      → ReadsHeaders mqtt
      → judge mqtt cap bytes ≡ frame n
      → cut (suc k) (bytes ++ more)
        ≡ (take n bytes ∷ (cut k (drop n bytes ++ more)).0, (cut k (drop n bytes ++ more)).1)
  unfolding cut
  cut-frame k cap bytes more n std h =
      let there : leb n (length bytes) ≡ true =
        ground (arith, judge-frame mqtt cap bytes n std h) in
      let front : take n (bytes ++ more) ≡ take n bytes = rw there at (take-append n bytes more) in
      let back : drop n (bytes ++ more) ≡ drop n bytes ++ more =
        rw there at (drop-append n bytes more) in
      rw (judge-grows cap (length (bytes ++ more)) bytes more n std h, cut, front, back) refl

module _ {P S : Type 0} (mqtt : Decoder P) (io : Reader S) where
  -- The turns have all returned. The stream handed out `bytes`; cutting these at once, behind the bytes
  -- held before, gives the packets that were found, and what is left is what is still held.
  pub record Cuts (p : MqttPacketizer) (s : S) (run : Answered mqtt io) : Type 0 where
    pub out : List (IoResult (Option P))
    pub after : MqttPacketizer
    pub stream : S
    pub bytes : List ℕ
    pub k : ℕ
    pub ended : run ≡ some (out, after, stream)
    pub handed : io.given stream ≡ io.given s ++ bytes
    pub answers : Answers mqtt (cut mqtt k (contents p.buffer ++ bytes)).0 out
    pub left : contents after.buffer ≡ (cut mqtt k (contents p.buffer ++ bytes)).1
    pub valid : IsValid after.buffer

  -- A turn that reads.
  intake-Cuts :
      (p : MqttPacketizer) (s : S) (again : MqttPacketizer → S → Answered mqtt io)
      (t : Takes io p.buffer s (append_from_reader io p.buffer s))
      → Cuts (record { buffer = t.out.1 }) t.out.2 (again (record { buffer = t.out.1 }) t.out.2)
      → Cuts p s (after_intake mqtt io (append_from_reader io p.buffer s) again)
  unfolding after_intake
  intake-Cuts p s again t c =
      let all : contents t.out.1 ++ c.bytes ≡ contents p.buffer ++ (t.bytes ++ c.bytes) =
        rw t.held (append_assoc (contents p.buffer) t.bytes c.bytes) in
      record {
        out = c.out;
        after = c.after;
        stream = c.stream;
        bytes = t.bytes ++ c.bytes;
        k = c.k;
        ended = rw (t.ended, after_intake) c.ended;
        handed = c.handed ∙ rw t.handed (append_assoc (io.given s) t.bytes c.bytes);
        answers = rw all at c.answers;
        left = c.left ∙ ap (λ xs. (cut mqtt c.k xs).1) all;
        valid = c.valid;
      }

  poll-Cuts :
      (v : Verdict) (p : MqttPacketizer) (s : S) (again : MqttPacketizer → Answered mqtt io)
      → ReadsHeaders mqtt
      → judge mqtt (size p.buffer) (contents p.buffer) ≡ v
      → Polls mqtt p v (get_next_packet mqtt p)
      → IsValid p.buffer
      → ((p' : MqttPacketizer) → IsValid p'.buffer → Cuts p' s (again p'))
      → Cuts p s (after_turn mqtt io (get_next_packet mqtt p) again)
  unfolding after_turn Polls
  poll-Cuts wait p s again std j e valid rest =
      let c = rest p valid in
      record {
        out = ok none ∷ c.out;
        after = c.after;
        stream = c.stream;
        bytes = c.bytes;
        k = c.k;
        ended = rw (e, after_turn, c.ended) refl;
        handed = c.handed;
        answers = none_yet c.answers;
        left = c.left;
        valid = c.valid;
      }
  poll-Cuts invalid p s again std j e valid rest =
      let c = rest p valid in
      record {
        out = err invalid_data ∷ c.out;
        after = c.after;
        stream = c.stream;
        bytes = c.bytes;
        k = c.k;
        ended = rw (e, after_turn, c.ended) refl;
        handed = c.handed;
        answers = never c.answers;
        left = c.left;
        valid = c.valid;
      }
  poll-Cuts (frame n) p s again std j (p', e, held, valid', same) valid rest =
      let c = rest p' valid' in
      let first = cut-frame mqtt c.k (size p.buffer) (contents p.buffer) c.bytes n std j in
      record {
        out = finish_packet mqtt (mqtt.decode_packet (take n (contents p.buffer))) ∷ c.out;
        after = c.after;
        stream = c.stream;
        bytes = c.bytes;
        k = suc c.k;
        ended = rw (e, after_turn, c.ended) refl;
        handed = c.handed;
        answers = rw first (found (take n (contents p.buffer)) (rw held at c.answers));
        left = rw first (rw held at c.left);
        valid = c.valid;
      }

  -- However the bytes of a stream are cut into reads, and wherever in between a packetizer with a
  -- valid buffer is asked for packets, nothing panics, and the packets that it finds are, for some
  -- `k`, the first `k` of those that cutting all the bytes at once gives, each with the same bytes
  -- and in the same order. What that leaves over is still held. The polls that find no packet
  -- return none or InvalidData.
  pub turns-Cuts :
      (script : List Turn) (p : MqttPacketizer) (s : S)
      → ReadsHeaders mqtt
      → IsValid p.buffer
      → Cuts p s (turns mqtt io script p s)
  unfolding turns cut
  turns-Cuts [] p s std v = record {
    out = [];
    after = p;
    stream = s;
    bytes = [];
    k = 0;
    ended = refl;
    handed = sym (append-nil _);
    answers = over;
    left = sym (append-nil _);
    valid = v;
  }
  turns-Cuts (reads ∷ script) p s std v =
      let t = append_from_reader-Takes io p.buffer s v in
      intake-Cuts p s (λ p' s'. turns mqtt io script p' s') t
        (turns-Cuts script (record { buffer = t.out.1 }) t.out.2 std t.valid)
  turns-Cuts (polls ∷ script) p s std v =
      poll-Cuts _ p s (λ p'. turns mqtt io script p' s) std refl
        (get_next_packet-Polls mqtt p std v) v (λ p' v'. turns-Cuts script p' s std v')
