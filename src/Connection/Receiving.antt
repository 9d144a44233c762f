-- ===== src/Connection/Receiving.antt =====
-- raiot-mqtt/src/connection.rs: `recv_task` ends by its deadline, and takes in what arrives in order.
use raiot_rs.Base.{
  ℕ, zero, suc, ◌+◌, ◌≤◌, ◌<◌, ◌≡◌, refl, sym, ◌∙◌, inl, inr, List, [], ◌++◌, length, Option, none,
  some, IoResult, would_block, interrupted, write_zero, ok, err, Reader, arith, leb, ◌==◌,
  Bool-cases, if◌then◌else◌, append-nil, append_assoc,
}
use raiot_rs.Ring.{CircularBuffer, size, available_space, append_from_reader}
use raiot_rs.Ring.Valid.{IsValid}
use raiot_rs.Ring.Contents.{contents}
use raiot_rs.Ring.Intake.{Took, Ending, filled, exhausted, broken, append_from_reader_lem}
use raiot_rs.Connection.{MqttConnection, after_read, recv_loop, recv_task}
use raiot_rs.Connection.Clock.{later}

module _ {S : Type 0} (io : Reader S) where
  zero_add : (n : ℕ) → 0 + n ≡ n
  zero_add n = omega arith

  -- An append from the reader has returned: the bytes that the reader handed out, and no others, stand at
  -- the end of the buffer, and a number that it returns is how many they are.
  pub record Takes (r : CircularBuffer) (s : S) (run : Option (IoResult ℕ × CircularBuffer × S))
      : Type 0 where
    pub out : IoResult ℕ × CircularBuffer × S
    pub bytes : List ℕ
    pub ended : run ≡ some out
    pub valid : IsValid out.1
    pub same : size out.1 ≡ size r
    pub held : contents out.1 ≡ contents r ++ bytes
    pub handed : io.given out.2 ≡ io.given s ++ bytes
    pub counted : (n : ℕ) → out.0 ≡ ok n → n ≡ length bytes

  ending_count :
      (out : IoResult ℕ × CircularBuffer × S) (total n : ℕ)
      → Ending io total out
      → out.0 ≡ ok n
      → n ≡ total
  ending_count out total n (filled full same) e = ground arith
  ending_count out total n (exhausted k s pos read same) e = ground arith
  ending_count out total n (broken k s x read same) e = cc

  pub append_from_reader-Takes :
      (r : CircularBuffer) (s : S) → IsValid r → Takes r s (append_from_reader io r s)
  append_from_reader-Takes r s v =
      cases (append_from_reader io r s) (append_from_reader_lem io r s v)
    where
      cases :
          (run : Option (IoResult ℕ × CircularBuffer × S))
          → (if available_space r == 0
              then run ≡ some (err write_zero, r, s)
              else Took io r s 0 run)
          → Takes r s run
      cases run h = elim (Bool-cases (available_space r == 0)) [
        | inl full ↦ record {
          out = (err write_zero, r, s);
          bytes = [];
          ended = rw full at h;
          valid = v;
          same = refl;
          held = sym (append-nil _);
          handed = sym (append-nil _);
          counted = λ n e. cc;
        }
        | inr room ↦
            let t : Took io r s 0 run = rw room at h in
            record {
              out = t.out;
              bytes = t.bytes;
              ended = t.ended;
              valid = t.valid;
              same = t.same;
              held = t.held;
              handed = t.handed;
              counted = λ n e.
                  ending_count t.out (0 + length t.bytes) n t.ending e ∙ zero_add (length t.bytes);
            }
      ]

module _ (P : Type 0) {S : Type 0} (io : Reader S) where
  -- The task has ended: the bytes that the reader handed out, and no others, stand at the end of the
  -- buffer, what goes out is as it was, and no packet is returned.
  pub record Filled (c : MqttConnection S) (run : Option (IoResult (Option P) × MqttConnection S))
      : Type 0 where
    pub res : IoResult (Option P)
    pub after : MqttConnection S
    pub bytes : List ℕ
    pub ended : run ≡ some (res, after)
    pub valid : IsValid after.packetizer.buffer
    pub same : size after.packetizer.buffer ≡ size c.packetizer.buffer
    pub held : contents after.packetizer.buffer ≡ contents c.packetizer.buffer ++ bytes
    pub handed : io.given after.stream ≡ io.given c.stream ++ bytes
    pub streamer : after.streamer ≡ c.streamer
    pub empty : (found : Option P) → res ≡ ok found → found ≡ none

  at_once : (c : MqttConnection S) → IsValid c.packetizer.buffer → Filled c (some (ok none, c))
  at_once c v = record {
    res = ok none;
    after = c;
    bytes = [];
    ended = refl;
    valid = v;
    same = refl;
    held = sym (append-nil _);
    handed = sym (append-nil _);
    streamer = refl;
    empty = λ found e. cc;
  }

  module _ (c : MqttConnection S)
      (t : Takes io c.packetizer.buffer c.stream
        (append_from_reader io c.packetizer.buffer c.stream)) where
    abbrev taken : MqttConnection S
    taken = record c { packetizer = record { buffer = t.out.1 }; stream = t.out.2 }

    -- A round that goes on, before rounds that end.
    carried :
        {rest : Option (IoResult (Option P) × MqttConnection S)} → Filled taken rest → Filled c rest
    carried f = record {
      res = f.res;
      after = f.after;
      bytes = t.bytes ++ f.bytes;
      ended = f.ended;
      valid = f.valid;
      same = f.same ∙ t.same;
      held = rw (f.held, t.held) (append_assoc _ t.bytes f.bytes);
      handed = rw (f.handed, t.handed) (append_assoc _ t.bytes f.bytes);
      streamer = f.streamer;
      empty = f.empty;
    }

    -- A round that ends the task.
    stopped :
        (shown : IoResult (Option P))
        → ((found : Option P) → shown ≡ ok found → found ≡ none)
        → Filled c (some (shown, taken))
    stopped shown empty = record {
      res = shown;
      after = taken;
      bytes = t.bytes;
      ended = refl;
      valid = t.valid;
      same = t.same;
      held = t.held;
      handed = t.handed;
      streamer = refl;
      empty = empty;
    }

    after_read-Filled :
        (clock : ℕ → ℕ) (timeout : ℕ) (res : IoResult ℕ)
        (rest : Option (IoResult (Option P) × MqttConnection S))
        → Filled taken rest
        → Filled c (after_read P io clock timeout res taken rest)
    unfolding after_read
    after_read-Filled clock timeout (ok n) rest f = carried f
    after_read-Filled clock timeout (err interrupted) rest f = carried f
    after_read-Filled clock timeout (err would_block) rest f = stopped (ok none) (λ found e. cc)
    after_read-Filled clock timeout (err e) rest f = stopped (err e) (λ found h. cc)

  module _ (clock : ℕ → ℕ) (timeout : ℕ) where
    recv_loop_lem :
        (fuel k : ℕ) (c : MqttConnection S)
        (t : Takes io c.packetizer.buffer c.stream
          (append_from_reader io c.packetizer.buffer c.stream))
        → recv_loop P io clock timeout (suc fuel) k c ≡ (
            if leb timeout (clock k)
            then some (ok none, c)
            else after_read P io clock timeout t.out.0
                (taken c t)
                (recv_loop P io clock timeout fuel (suc k) (taken c t)))
    unfolding recv_loop
    recv_loop_lem fuel k c t = rw (t.ended, recv_loop) refl

    recv_loop-Filled :
        (fuel k n : ℕ) (c : MqttConnection S)
        → IsValid c.packetizer.buffer
        → n < fuel
        → timeout ≤ clock (k + n)
        → Filled c (recv_loop P io clock timeout fuel k c)
    recv_loop-Filled zero k n c v h late = absurd (omega arith)
    recv_loop-Filled (suc fuel) k n c v h late =
        let t = append_from_reader-Takes io c.packetizer.buffer c.stream v in
        elim (Bool-cases (leb timeout (clock k))) [
          | inl over ↦ rw (recv_loop_lem fuel k c t, over) (at_once c v)
          | inr early ↦
              rw (recv_loop_lem fuel k c t, early)
                (after_read-Filled c t clock timeout t.out.0 _ (
                  later clock timeout k n early late (λ m same e.
                    recv_loop-Filled fuel (suc k) m (taken c t) t.valid (omega arith) e)))
        ]

  -- With a valid buffer `recv_task` returns when the clock reaches the timeout at one of the looks that its
  -- fuel allows. The bytes that the stream handed out, and no others, then stand at the end of the
  -- buffer in order, the outgoing bytes are as they were, and no packet is returned.
  pub recv_task-Filled :
      (clock : ℕ → ℕ) (timeout looks n : ℕ) (c : MqttConnection S)
      → IsValid c.packetizer.buffer
      → n < looks
      → timeout ≤ clock n
      → Filled c (recv_task P io clock timeout looks c)
  unfolding recv_task
  recv_task-Filled clock timeout looks n c v h late =
      let zero_add : 0 + n ≡ n = omega arith in
      recv_loop-Filled clock timeout looks 0 n c v h (rw zero_add late)
