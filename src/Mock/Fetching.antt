-- ===== src/Mock/Fetching.antt =====
-- raiot-test-utils/src/lib.rs: the loop that moves waiting pieces into a buffer.
use mathlib.Core.List.{flatten}
use raiot_rs.Base.{
  ℕ, suc, ◌+◌, ◌-◌, ◌≤◌, min, ltb, ◌≡◌, refl, sym, ap, ◌∙◌, inl, inr, Bool, false, List, [], ◌∷◌,
  ◌++◌, length, take, drop, some, IoResult, ok, Call, returns, arith, Bool-cases, append_assoc,
  length-append, take_all, append-nil, drop_all,
}
use raiot_rs.Ring
use raiot_rs.Ring.{CircularBuffer, size, valid_length}
use raiot_rs.Ring.Valid.{IsValid}
use raiot_rs.Ring.Contents.{contents, length-contents}
use raiot_rs.Ring.Append.{write_lem}
use raiot_rs.Streams.{Sends, write_round}
use raiot_rs.Mock.{store_all, stored, fetch}

-- Bytes that fit were put in behind the others.
record Stored (r : CircularBuffer) (bytes : List ℕ) (run : Call CircularBuffer) : Type 0 where
  after : CircularBuffer
  ended : run ≡ returns after
  valid : IsValid after
  same : size after ≡ size r
  held : contents after ≡ contents r ++ bytes

round-Stored :
    (r : CircularBuffer) (b : ℕ) (bs : List ℕ) (res : IoResult ℕ) (r' : CircularBuffer)
    (again : List ℕ → CircularBuffer → Sends CircularBuffer)
    → res ≡ ok (suc (length bs))
    → IsValid r'
    → size r' ≡ size r
    → contents r' ≡ contents r ++ b ∷ bs
    → again [] r' ≡ some (ok tt, r')
    → Stored r (b ∷ bs) (stored (write_round res r' (b ∷ bs) again))
unfolding stored write_round
round-Stored r b bs res r' again e v same held over =
    let all : drop (length bs) bs ≡ [] = drop_all (length bs) bs (omega arith) in
    record {
      after = r';
      ended = rw (e, write_round, all, over, stored) refl;
      valid = v;
      same = same;
      held = held;
    }

store_all-Stored :
    (r : CircularBuffer) (bytes : List ℕ)
    → IsValid r
    → valid_length r + length bytes ≤ size r
    → Stored r bytes (stored (store_all (suc (length bytes)) bytes r))
unfolding store_all stored
store_all-Stored r [] v fits = record {
  after = r;
  ended = refl;
  valid = v;
  same = refl;
  held = sym (append-nil _);
}
store_all-Stored r (b ∷ bs) v fits =
    let w = write_lem {r = r} (b ∷ bs) v in
    let all : min (size r - valid_length r) (length (b ∷ bs)) ≡ suc (length bs) = omega arith in
    round-Stored r b bs (Ring.write r (b ∷ bs)).0 (Ring.write r (b ∷ bs)).1
      (λ buf r'. store_all (suc (length bs)) buf r') (w.2 ∙ ap ok all) w.0 w.1
      (w.3
        ∙ ap (λ xs. contents r ++ xs)
            (ap (λ n. take n (b ∷ bs)) all ∙ take_all (suc (length bs)) (b ∷ bs) (omega arith)))
      refl

-- What waits has come, in order, in front of what still waits.
pub record Fetched (wanted : ℕ) (pieces : List (List ℕ)) (r : CircularBuffer)
    (run : Call (List (List ℕ) × CircularBuffer)) : Type 0 where
  pub left : List (List ℕ)
  pub after : CircularBuffer
  pub ended : run ≡ returns (left, after)
  pub valid : IsValid after
  pub all : contents after ++ flatten left ≡ contents r ++ flatten pieces
  pub enough : wanted ≤ valid_length after

at_once :
    (wanted : ℕ) (pieces : List (List ℕ)) (r : CircularBuffer)
    → IsValid r
    → ltb (valid_length r) wanted ≡ false
    → Fetched wanted pieces r (returns (pieces, r))
at_once wanted pieces r v enough = record {
  left = pieces;
  after = r;
  ended = refl;
  valid = v;
  all = refl;
  enough = ground arith;
}

pub fetch-Fetched :
    (wanted : ℕ) (pieces : List (List ℕ)) (connected : Bool) (r : CircularBuffer)
    → IsValid r
    → length (contents r ++ flatten pieces) ≤ size r
    → wanted ≤ length (contents r ++ flatten pieces)
    → Fetched wanted pieces r (fetch wanted pieces connected r)
unfolding fetch flatten
fetch-Fetched wanted [] connected r v fits there =
    let enough : ltb (valid_length r) wanted ≡ false =
      ground (arith, length-append (contents r) [], length-contents v) in
    rw enough (at_once wanted [] r v enough)
fetch-Fetched wanted (bytes ∷ more) connected r v fits there =
    elim (Bool-cases (ltb (valid_length r) wanted)) [
      | inr enough ↦ rw enough (at_once wanted (bytes ∷ more) r v enough)
      | inl short ↦
          let sum = length-append (contents r) (bytes ++ flatten more) in
          let held = length-contents v in
          let t =
            store_all-Stored r bytes v
              (omega (arith, sum, held, length-append bytes (flatten more))) in
          let same : contents t.after ++ flatten more ≡ contents r ++ (bytes ++ flatten more) =
            rw t.held (append_assoc (contents r) bytes (flatten more)) in
          let total = ap length same in
          let f =
            fetch-Fetched wanted more connected t.after t.valid (omega (arith, total, t.same))
              (omega (arith, total)) in
          rw (short, t.ended)
            (record {
              left = f.left;
              after = f.after;
              ended = f.ended;
              valid = f.valid;
              all = f.all ∙ same;
              enough = f.enough;
            })
    ]
