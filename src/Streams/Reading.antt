-- ===== src/Streams/Reading.antt =====
-- raiot-streams/src/lib.rs: what the reading calls of a client take from the stream.
use raiot_rs.Base.{
  ℕ, zero, suc, ◌≤◌, ◌<◌, ◌≡◌, ◌≢◌, refl, sym, ◌∙◌, List, [], ◌∷◌, ◌++◌, some, length, IoResult,
  ErrorKind, interrupted, would_block, connection_reset, ok, err, Reader, append-nil, arith,
}
use raiot_rs.Streams.{Reads, buffer_round, try_read_into_buffer}

module _ {S : Type 0} (io : Reader S) where
  -- A stream that interrupts a read only so many times.
  pub record IsPatient : Type 0 where
    pub left : S → ℕ
    pub interruption :
        (n : ℕ) (s : S) → (io.read n s).0 ≡ err interrupted → left (io.read n s).1 < left s

  -- What becomes of the last answer of the stream: no bytes are the end of the connection, a stream that
  -- would block counts as no bytes, and all else is passed on.
  pub data Becomes : IoResult (List ℕ) → IoResult (List ℕ) → Type 0 where
    closed : Becomes (ok []) (err connection_reset)
    given : (b : ℕ) (bytes : List ℕ) → Becomes (ok (b ∷ bytes)) (ok (b ∷ bytes))
    idle : Becomes (err would_block) (ok [])
    failed : (e : ErrorKind) → e ≢ interrupted → e ≢ would_block → Becomes (err e) (err e)

  -- A call that has ended. Its last read, of a state `last` to which no byte had been handed out yet, decides
  -- the result; a result with bytes holds at most `n`, the next of the stream, and an error comes without any.
  pub record Took (n : ℕ) (s : S) (run : Reads S (List ℕ)) : Type 0 where
    pub res : IoResult (List ℕ)
    pub after : S
    pub last : S
    pub ended : run ≡ some (res, after)
    pub untouched : io.given last ≡ io.given s
    pub left_at : after ≡ (io.read n last).1
    pub becomes : Becomes (io.read n last).0 res
    pub handed :
        (bytes : List ℕ)
        → res ≡ ok bytes
        → (length bytes ≤ n) × (io.given after ≡ io.given s ++ bytes)
    pub failed : (e : ErrorKind) → res ≡ err e → io.given after ≡ io.given s

  buffer_round-Took :
      (p : IsPatient) (fuel n : ℕ) (s : S) (res : IoResult (List ℕ)) (again : S → Reads S (List ℕ))
      → (io.read n s).0 ≡ res
      → p.left s ≤ fuel
      → ((s' : S) → p.left s' < fuel → Took n s' (again s'))
      → Took n s (buffer_round res (io.read n s).1 again)
  unfolding buffer_round
  buffer_round-Took p fuel n s (ok []) again e h rest = record {
    res = err connection_reset;
    after = (io.read n s).1;
    last = s;
    ended = refl;
    untouched = refl;
    left_at = refl;
    becomes = rw e closed;
    handed = λ bytes x. cc;
    failed = λ x same. io.read_given n s [] e ∙ append-nil (io.given s);
  }
  buffer_round-Took p fuel n s (ok (b ∷ bs)) again e h rest = record {
    res = ok (b ∷ bs);
    after = (io.read n s).1;
    last = s;
    ended = refl;
    untouched = refl;
    left_at = refl;
    becomes = rw e (given b bs);
    handed = λ bytes same.
        let e' : (io.read n s).0 ≡ ok bytes = e ∙ same in
        (io.read_le n s bytes e', io.read_given n s bytes e');
    failed = λ x same. cc;
  }
  buffer_round-Took p fuel n s (err interrupted) again e h rest =
      let t = rest (io.read n s).1 (omega (arith, p.interruption n s e)) in
      let same = io.read_failed n s interrupted e in
      record {
        res = t.res;
        after = t.after;
        last = t.last;
        ended = t.ended;
        untouched = t.untouched ∙ same;
        left_at = t.left_at;
        becomes = t.becomes;
        handed = λ bytes x. rw same at (t.handed bytes x);
        failed = λ x y. t.failed x y ∙ same;
      }
  buffer_round-Took p fuel n s (err would_block) again e h rest = record {
    res = ok [];
    after = (io.read n s).1;
    last = s;
    ended = refl;
    untouched = refl;
    left_at = refl;
    becomes = rw e idle;
    handed = λ bytes x.
        let none_left : bytes ≡ [] = cc in
        rw none_left
          (omega arith, io.read_failed n s would_block e ∙ sym (append-nil (io.given s)));
    failed = λ x same. cc;
  }
  buffer_round-Took p fuel n s (err x) again e h rest = record {
    res = err x;
    after = (io.read n s).1;
    last = s;
    ended = refl;
    untouched = refl;
    left_at = refl;
    becomes = rw e (failed x (λ z. cc) (λ z. cc));
    handed = λ bytes same. cc;
    failed = λ y same. io.read_failed n s x e;
  }

  -- On a stream that interrupts a read only so many times, `try_read_into_buffer`, by which the client's
  -- stream reads, returns. Its last read decides: what the stream hands out is passed on, the next bytes of
  -- the stream and at most as many as the buffer holds; where the stream would block, the answer is `Ok(0)`;
  -- where it hands out none, the end of the connection, it is ConnectionReset; any other error is passed on.
  -- No byte is taken with an error, and an interruption is never the answer.
  pub try_read_into_buffer-Took :
      (p : IsPatient) (fuel n : ℕ) (s : S)
      → p.left s < fuel
      → Took n s (try_read_into_buffer io fuel n s)
  unfolding try_read_into_buffer
  try_read_into_buffer-Took p zero n s h = absurd (omega arith)
  try_read_into_buffer-Took p (suc fuel) n s h =
      buffer_round-Took p fuel n s (io.read n s).0 (λ s'. try_read_into_buffer io fuel n s') refl
        (omega arith) (λ s' k. try_read_into_buffer-Took p fuel n s' k)
