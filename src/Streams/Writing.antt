-- ===== src/Streams/Writing.antt =====
-- raiot-streams/src/lib.rs: what `try_send` and `send` put on the stream.
use raiot_rs.Base.{
  ℕ, zero, suc, ◌+◌, ◌≤◌, ◌<◌, ◌≡◌, ◌≢◌, refl, sym, ◌∙◌, List, [], ◌∷◌, ◌++◌, some, length, take,
  drop, IoResult, ErrorKind, interrupted, would_block, write_zero, ok, err, Writer, append-nil,
  append_assoc, length-drop, take_add, take_all, arith,
}
use raiot_rs.Streams.{write_round, write_all, Sends, try_send_round, try_send, send_round, send}

module _ {S : Type 0} (io : Writer S) where
  -- A stream that interrupts a write only so many times.
  pub record IsPatient : Type 0 where
    pub left : S → ℕ
    pub interruption :
        (bytes : List ℕ) (s : S)
        → (io.write bytes s).0 ≡ err interrupted
        → left (io.write bytes s).1 < left s
    pub acceptance :
        (bytes : List ℕ) (s : S) (n : ℕ)
        → (io.write bytes s).0 ≡ ok n
        → left (io.write bytes s).1 ≤ left s

  -- A call that has ended: the stream has taken the first `count` bytes, all of them if the call
  -- succeeds, and the call does not fail by an interruption.
  pub record Wrote (s : S) (buf : List ℕ) (run : Sends S) : Type 0 where
    pub res : IoResult (Unit {0})
    pub after : S
    pub count : ℕ
    pub ended : run ≡ some (res, after)
    pub within : count ≤ length buf
    pub accepted : io.sent after ≡ io.sent s ++ take count buf
    pub whole : res ≡ ok tt → count ≡ length buf
    pub steady : res ≢ err interrupted

  -- A write that ends the call.
  Wrote-none :
      (s s' : S) (buf : List ℕ) (e : ErrorKind)
      → io.sent s' ≡ io.sent s
      → e ≢ interrupted
      → Wrote s buf (some (err e, s'))
  Wrote-none s s' buf e same ne = record {
    res = err e;
    after = s';
    count = 0;
    ended = refl;
    within = omega arith;
    accepted = same ∙ sym (append-nil (io.sent s));
    whole = λ h. cc;
    steady = λ h. ne (cc);
  }

  -- A write that took `n` bytes, before a call that writes the others.
  Wrote-more :
      (s s' : S) (buf : List ℕ) (n : ℕ) {run : Sends S}
      → n ≤ length buf
      → io.sent s' ≡ io.sent s ++ take n buf
      → Wrote s' (drop n buf) run
      → Wrote s buf run
  Wrote-more s s' buf n le sent w = record {
    res = w.res;
    after = w.after;
    count = n + w.count;
    ended = w.ended;
    within = omega (arith, w.within, length-drop n buf);
    accepted =
        rw (w.accepted, sent, take_add n w.count buf le)
          (append_assoc (io.sent s) (take n buf) (take w.count (drop n buf)));
    whole = λ h. omega (arith, w.whole h, length-drop n buf);
    steady = w.steady;
  }

  -- An interrupted write, before a call that writes everything.
  Wrote-again :
      (s s' : S) (buf : List ℕ) {run : Sends S}
      → io.sent s' ≡ io.sent s
      → Wrote s' buf run
      → Wrote s buf run
  Wrote-again s s' buf same w = record {
    res = w.res;
    after = w.after;
    count = w.count;
    ended = w.ended;
    within = w.within;
    accepted = rw (w.accepted, same) refl;
    whole = w.whole;
    steady = w.steady;
  }

  write_round-Wrote :
      (p : IsPatient) (fuel : ℕ) (buf : List ℕ) (s : S) (res : IoResult ℕ)
      (again : List ℕ → S → Sends S)
      → (io.write buf s).0 ≡ res
      → length buf + p.left s ≤ fuel
      → ((buf' : List ℕ) (s' : S) → length buf' + p.left s' < fuel → Wrote s' buf' (again buf' s'))
      → Wrote s buf (write_round res (io.write buf s).1 buf again)
  unfolding write_round
  write_round-Wrote p fuel buf s (ok zero) again e h rest =
      Wrote-none s (io.write buf s).1 buf write_zero
        (io.write_sent buf s 0 e ∙ append-nil (io.sent s)) (λ x. cc)
  write_round-Wrote p fuel buf s (ok (suc n)) again e h rest =
      let le = io.write_le buf s (suc n) e in
      Wrote-more s (io.write buf s).1 buf (suc n) le (io.write_sent buf s (suc n) e) (
        rest (drop (suc n) buf) (io.write buf s).1
          (omega (arith, p.acceptance buf s (suc n) e, length-drop (suc n) buf)))
  write_round-Wrote p fuel buf s (err interrupted) again e h rest =
      Wrote-again s (io.write buf s).1 buf (io.write_failed buf s interrupted e)
        (rest buf (io.write buf s).1 (omega (arith, p.interruption buf s e)))
  write_round-Wrote p fuel buf s (err x) again e h rest =
      Wrote-none s (io.write buf s).1 buf x (io.write_failed buf s x e) (λ y. cc)

  write_all-Wrote :
      (p : IsPatient) (fuel : ℕ) (buf : List ℕ) (s : S)
      → length buf + p.left s < fuel
      → Wrote s buf (write_all io fuel buf s)
  unfolding write_all
  write_all-Wrote p zero buf s h = absurd (omega arith)
  write_all-Wrote p (suc fuel) [] s h = record {
    res = ok tt;
    after = s;
    count = 0;
    ended = refl;
    within = omega arith;
    accepted = sym (append-nil (io.sent s));
    whole = λ _. refl;
    steady = λ e. cc;
  }
  write_all-Wrote p (suc fuel) (b ∷ bs) s h =
      write_round-Wrote p fuel (b ∷ bs) s (io.write (b ∷ bs) s).0
        (λ buf s'. write_all io fuel buf s') refl (omega arith)
        (λ buf s' k. write_all-Wrote p fuel buf s' k)

  try_send_round_lem :
      (res : IoResult (Unit {0})) (s : S) (again : S → Sends S)
      → res ≢ err interrupted
      → try_send_round (some (res, s)) again ≡ some (res, s)
  unfolding try_send_round
  try_send_round_lem (ok _) s again ne = refl
  try_send_round_lem (err interrupted) s again ne = absurd (ne refl)
  try_send_round_lem (err e) s again ne = refl

  -- On a stream that interrupts a write only so many times, `try_send` returns: the stream has then
  -- taken the start of the bytes and no others, all of them if the call succeeds. An interruption is
  -- never the answer.
  pub try_send-Wrote :
      (p : IsPatient) (rounds writes : ℕ) (buf : List ℕ) (s : S)
      → length buf + p.left s < writes
      → Wrote s buf (try_send io (suc rounds) writes buf s)
  unfolding try_send
  try_send-Wrote p rounds writes buf s h =
      let w = write_all-Wrote p writes buf s h in
      rw
        (
          w.ended,
          try_send_round_lem w.res w.after (λ s'. try_send io rounds writes buf s') w.steady,
        )
        (record {
          res = w.res;
          after = w.after;
          count = w.count;
          ended = refl;
          within = w.within;
          accepted = w.accepted;
          whole = w.whole;
          steady = w.steady;
        })

  -- `send` begins anew where the stream would have blocked: what it had taken of the bytes by then, a
  -- start of `k` of them, goes out twice, and the call succeeds.
  pub send_repeats :
      (p : IsPatient) (rounds writes : ℕ) (buf : List ℕ) (s s1 s2 : S)
      → length buf + p.left s < writes
      → length buf + p.left s1 < writes
      → write_all io writes buf s ≡ some (err would_block, s1)
      → write_all io writes buf s1 ≡ some (ok tt, s2)
      → (k : ℕ) × (io.sent s1 ≡ io.sent s ++ take k buf)
        × (send io (suc (suc rounds)) writes buf s ≡ some (ok tt, s2))
        × (io.sent s2 ≡ io.sent s ++ (take k buf ++ buf))
  unfolding send send_round
  send_repeats p rounds writes buf s s1 s2 h h1 blocked done =
      let w = write_all-Wrote p writes buf s h in
      let v = write_all-Wrote p writes buf s1 h1 in
      let same : w.after ≡ s1 = cc (w.ended, blocked) in
      let same2 : v.after ≡ s2 = cc (v.ended, done) in
      let fine : v.res ≡ ok tt = cc (v.ended, done) in
      let first : io.sent s1 ≡ io.sent s ++ take w.count buf = rw same at w.accepted in
      let all : take v.count buf ≡ buf = take_all v.count buf (omega (arith, v.whole fine)) in
      let second : io.sent s2 ≡ io.sent s1 ++ take v.count buf = rw same2 at v.accepted in
      (
        w.count,
        first,
        rw (blocked, done) refl,
        second ∙ rw (all, first) (append_assoc (io.sent s) (take w.count buf) buf),
      )
