-- ===== src/Ring/Drain.antt =====
-- raiot-buffers/src/lib.rs: `write_into`, which sends the bytes held to a writer.
use raiot_rs.Base.{
  ℕ, ◌+◌, ◌-◌, ◌≤◌, ◌<◌, ◌≢◌, ◌≡◌, refl, ap, sym, ◌∙◌, inl, inr, true, List, [], ◌++◌, length, take,
  drop, arith, add_usize, ok, err, Result-cases, IoResult, ErrorKind, Writer, append-nil,
  append_assoc, length-append, take_all, length-take, length-drop, take-length_add,
}
use raiot_rs.Ring.{
  CircularBuffer, BufferSlice, consecutive, splitted, size, valid_length, peek_remaining,
  get_buffer_slice, advance, second_write, finish_write, write_slice, write_into,
}
use raiot_rs.Ring.Slice.{bytes_of}
use raiot_rs.Ring.Valid.{IsValid, valid_length-le-size}
use raiot_rs.Ring.Contents.{contents, length-contents, peek_remaining-contents}
use raiot_rs.Ring.Take.{
  advance-IsValid, contents-advance, take-contents-advance, contents-advance_zero_full,
}

abbrev first_length : BufferSlice → ℕ
first_length (consecutive buf) = length buf
first_length (splitted buf1 buf2) = length buf1

second_write_err : (e : ErrorKind) → (second_write (err e)).0 ≡ 0
unfolding second_write
second_write_err e = ground arith

second_write_ok : (n : ℕ) → (second_write (ok n)).0 ≡ n
unfolding second_write
second_write_ok n = refl

-- The first part of a split slice is not empty.
splitted_first :
    (r : CircularBuffer) (buf1 buf2 : List ℕ)
    → IsValid r
    → peek_remaining r ≡ splitted buf1 buf2
    → 0 < length buf1
unfolding peek_remaining get_buffer_slice
splitted_first r buf1 buf2 v h = ground (
  arith,
  length-drop r.read r.buffer,
  length-take (size r - r.read) (drop r.read r.buffer),
  ap first_length h,
)

module _ {S : Type 0} (io : Writer S) where
  -- The second write counts the bytes that the writer accepts, and none if it fails.
  second_write_lem :
      (buf : List ℕ) (s : S)
      → let n = (second_write (io.write buf s).0).0 in
        (n ≤ length buf) × (io.sent (io.write buf s).1 ≡ io.sent s ++ take n buf)
  second_write_lem buf s = elim (Result-cases (io.write buf s).0) [
    | inl (n, e) ↦
        let shown : (second_write (io.write buf s).0).0 ≡ n = rw e (second_write_ok n) in
        rw shown (io.write_le buf s n e, io.write_sent buf s n e)
    | inr (x, e) ↦
        let shown : (second_write (io.write buf s).0).0 ≡ 0 = rw e (second_write_err x) in
        rw (shown, append-nil) (omega arith, io.write_failed buf s x e)
  ]

  abbrev Outcome : Type 0
  Outcome = IoResult ℕ × CircularBuffer × S

  -- No byte is lost, doubled or moved: what was sent and what is held make up the same sequence.
  pub record Conserves (r : CircularBuffer) (s : S) (out : Outcome) : Type 0 where
    pub valid : IsValid out.1
    pub same : size out.1 ≡ size r
    pub kept : io.sent out.2 ++ contents out.1 ≡ io.sent s ++ contents r

  -- A writer that does what the code counts on: it does not answer a full buffer by Ok(0), and it
  -- accepts the first part of a split slice whole or not at all.
  abbrev pub Steady : CircularBuffer → S → BufferSlice → Type 0
  Steady r s (consecutive buf) = r.full ≡ true → (io.write buf s).0 ≢ ok 0
  Steady r s (splitted buf1 buf2) = (n : ℕ) → (io.write buf1 s).0 ≡ ok n → n ≡ length buf1

  module _ (r : CircularBuffer) (v : IsValid r) (s s' : S) (res : IoResult ℕ) where
    advance-Conserves :
        (n : ℕ)
        → n ≤ valid_length r
        → (r.full ≡ true → 0 < n)
        → io.sent s' ≡ io.sent s ++ take n (contents r)
        → Conserves r s (res, advance r n, s')
    advance-Conserves n h some_if_full sent = record {
      valid = advance-IsValid {r = r} n v h;
      same = refl;
      kept = rw sent (
          append_assoc (io.sent s) (take n (contents r)) (contents (advance r n))
          ∙ ap (◌++◌ (io.sent s)) (take-contents-advance r v n h some_if_full));
    }

  -- The error path leaves the buffer as it was.
  failed-Conserves :
      (r : CircularBuffer) (s s' : S) (res : IoResult ℕ)
      → IsValid r
      → io.sent s' ≡ io.sent s
      → Conserves r s (res, r, s')
  failed-Conserves r s s' res v e = record { valid = v; same = refl; kept = rw e refl }

  module _ (r : CircularBuffer) (s : S) (v : IsValid r) where
    consecutive-Conserves :
        (buf : List ℕ)
        → buf ≡ contents r
        → Steady r s (consecutive buf)
        → Conserves r s (write_slice io r (consecutive buf) s)
    unfolding write_slice
    consecutive-Conserves buf e steady = elim (Result-cases (io.write buf s).0) [
      | inr (x, failed) ↦
          rw (failed, write_slice)
            (failed-Conserves r s _ (err x) v (io.write_failed buf s x failed))
      | inl (n, wrote) ↦
          rw (wrote, write_slice)
            (advance-Conserves r v s _ (ok n) n
              (omega (arith, io.write_le buf s n wrote, ap length e, length-contents v))
              (λ full. ground (arith, steady full)) (rw (← e) (io.write_sent buf s n wrote)))
    ]

    splitted-Conserves :
        (buf1 buf2 : List ℕ)
        → buf1 ++ buf2 ≡ contents r
        → 0 < length buf1
        → Steady r s (splitted buf1 buf2)
        → Conserves r s (write_slice io r (splitted buf1 buf2) s)
    unfolding write_slice
    splitted-Conserves buf1 buf2 e pos steady = elim (Result-cases (io.write buf1 s).0) [
      | inr (x, failed) ↦
          rw (failed, write_slice)
            (failed-Conserves r s _ (err x) v (io.write_failed buf1 s x failed))
      | inl (n, wrote) ↦
          rw (wrote, write_slice) (both n wrote (second_write_lem buf2 (io.write buf1 s).1))
    ]
      where
        s1 : S
        s1 = (io.write buf1 s).1

        m : ℕ
        m = (second_write (io.write buf2 s1).0).0

        both :
            (n : ℕ) (wrote : (io.write buf1 s).0 ≡ ok n)
            → (m ≤ length buf2) × (io.sent (io.write buf2 s1).1 ≡ io.sent s1 ++ take m buf2)
            → Conserves r s (
              finish_write (second_write (io.write buf2 s1).0).1 (add_usize n m),
              advance r (add_usize n m),
              (io.write buf2 s1).1,
            )
        both n wrote (le, sent2) =
            let whole = steady n wrote in
            let held : length buf1 + length buf2 ≡ valid_length r =
              omega (arith, length-append buf1 buf2, ap length e, length-contents v) in
            let exact : add_usize n m ≡ length buf1 + m = omega (arith, valid_length-le-size v) in
            rw exact (
              advance-Conserves r v s (io.write buf2 s1).1 _ (length buf1 + m) (omega arith)
                (λ full. omega arith)
                (rw
                  (
                    ← e,
                    take-length_add buf1 buf2 m,
                    sent2,
                    io.write_sent buf1 s n wrote,
                    whole,
                    take_all (length buf1) buf1 (omega arith),
                  )
                  (append_assoc (io.sent s) buf1 (take m buf2))))

  slice-Conserves :
      (r : CircularBuffer) (s : S) (b : BufferSlice)
      → IsValid r
      → peek_remaining r ≡ b
      → Steady r s b
      → Conserves r s (write_slice io r b s)
  slice-Conserves r s (consecutive buf) v e steady =
      consecutive-Conserves r s v buf (ap bytes_of (sym e) ∙ peek_remaining-contents v) steady
  slice-Conserves r s (splitted buf1 buf2) v e steady =
      splitted-Conserves r s v buf1 buf2 (ap bytes_of (sym e) ∙ peek_remaining-contents v)
        (splitted_first r buf1 buf2 v e) steady

  -- Writing a valid buffer out to a steady writer loses, doubles and moves no byte: what the writer
  -- has accepted, followed by what the buffer still holds, is the same sequence before and after, on
  -- the error paths too. The buffer stays valid, of the same size.
  pub write_into-Conserves :
      (r : CircularBuffer) (s : S)
      → IsValid r
      → Steady r s (peek_remaining r)
      → Conserves r s (write_into io r s)
  unfolding write_into
  write_into-Conserves r s v steady = slice-Conserves r s (peek_remaining r) v refl steady

  -- A full buffer whose bytes stand in one piece forgets all of them if the writer answers Ok(0).
  pub write_into_forgets :
      (r : CircularBuffer) (s : S) (buf : List ℕ)
      → IsValid r
      → r.full ≡ true
      → peek_remaining r ≡ consecutive buf
      → (io.write buf s).0 ≡ ok 0
      → (contents (write_into io r s).1 ≡ []) × (io.sent (write_into io r s).2 ≡ io.sent s)
  unfolding write_into write_slice
  write_into_forgets r s buf v full e wrote =
      rw (e, wrote, write_slice)
        (contents-advance_zero_full r v full, io.write_sent buf s 0 wrote ∙ append-nil _)

  -- A partial write of the first part of a split slice, followed by a write of the second, sends the
  -- two starts, while the buffer drops as many bytes off its front.
  pub write_into_skips :
      (r : CircularBuffer) (s : S) (buf1 buf2 : List ℕ) (n1 n2 : ℕ)
      → IsValid r
      → peek_remaining r ≡ splitted buf1 buf2
      → (io.write buf1 s).0 ≡ ok n1
      → (io.write buf2 (io.write buf1 s).1).0 ≡ ok n2
      → 0 < n1 + n2
      → let (res, r', s') = write_into io r s in
        (res ≡ ok (n1 + n2))
        × (io.sent s' ≡ io.sent s ++ (take n1 buf1 ++ take n2 buf2))
        × (contents r' ≡ drop (n1 + n2) (buf1 ++ buf2))
  unfolding write_into write_slice second_write finish_write
  write_into_skips r s buf1 buf2 n1 n2 v e wrote1 wrote2 pos =
      let whole : buf1 ++ buf2 ≡ contents r = ap bytes_of (sym e) ∙ peek_remaining-contents v in
      let held : n1 + n2 ≤ valid_length r = omega (
        arith,
        io.write_le buf1 s n1 wrote1,
        io.write_le buf2 (io.write buf1 s).1 n2 wrote2,
        length-append buf1 buf2,
        ap length whole,
        length-contents v,
      ) in
      let exact : add_usize n1 n2 ≡ n1 + n2 = omega (arith, valid_length-le-size v) in
      rw (e, wrote1, write_slice, wrote2, exact, whole)
        (
          refl,
          rw (io.write_sent buf2 (io.write buf1 s).1 n2 wrote2, io.write_sent buf1 s n1 wrote1)
              (append_assoc (io.sent s) (take n1 buf1) (take n2 buf2)),
          contents-advance {r = r} (n1 + n2) v held pos,
        )
