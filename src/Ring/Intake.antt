-- ===== src/Ring/Intake.antt =====
-- raiot-buffers/src/lib.rs: `append_from_reader`, the loop that fills the buffer from a reader.
use raiot_rs.Base.{
  ℕ, zero, suc, ◌+◌, ◌-◌, ◌≤◌, ◌<◌, ◌≡◌, refl, ap₂, sym, ◌∙◌, inl, inr, false, Option, some, List,
  [], ◌∷◌, ◌++◌, length, if◌then◌else◌, arith, mod_once, add_usize, ok, err, write_zero, ◌==◌,
  Bool-cases, Result-cases, IoResult, ErrorKind, Reader, append-nil, append_assoc, isize_max,
  length-append,
}
use raiot_rs.Ring.{
  CircularBuffer, size, valid_length, available_space, get_next_consecutive_free_space, take_in,
  intake_loop, append_from_reader, store_bytes,
}
use raiot_rs.Ring.Valid.{IsValid, available_space-add-valid_length}
use raiot_rs.Ring.Contents.{contents}
use raiot_rs.Ring.Append.{appended, appended_lem, contents-appended, length-store_bytes}

abbrev pub room : CircularBuffer → ℕ
room r = (get_next_consecutive_free_space r).1 - (get_next_consecutive_free_space r).0

-- The next consecutive range is free, and not empty while there is space.
pub room-bounds :
    {r : CircularBuffer}
    → IsValid r
    → 0 < available_space r
    → (0 < room r) × (room r ≤ available_space r) × (r.write + room r ≤ size r)
unfolding get_next_consecutive_free_space available_space
room-bounds v h = ground arith

-- A round of the loop is an append.
take_in-appended :
    (r : CircularBuffer) (bytes : List ℕ)
    → IsValid r
    → 0 < available_space r
    → 0 < length bytes
    → length bytes ≤ room r
    → take_in r bytes ≡ appended r bytes
unfolding take_in get_next_consecutive_free_space available_space store_bytes
take_in-appended r bytes v h pos le = ground (arith, mod_once (r.write + length bytes) (size r))

-- Space is left exactly while the write index is off the read index, once something is held.
space-of-indices :
    {r : CircularBuffer}
    → IsValid r
    → 0 < valid_length r
    → if r.write == r.read then (available_space r ≡ 0) else (0 < available_space r)
unfolding available_space valid_length
space-of-indices v h = ground arith

module _ {S : Type 0} (io : Reader S) where
  abbrev Outcome : Type 0
  Outcome = IoResult ℕ × CircularBuffer × S

  -- Why the loop ended: the buffer is full, the reader had no more, or the reader failed.
  pub data Ending (total : ℕ) (out : Outcome) : Type 0 where
    filled : available_space out.1 ≡ 0 → out.0 ≡ ok total → Ending total out
    exhausted :
        (k : ℕ) (s : S) → 0 < k → io.read k s ≡ (ok [], out.2) → out.0 ≡ ok total → Ending total out
    broken :
        (k : ℕ) (s : S) (e : ErrorKind)
        → io.read k s ≡ (err e, out.2)
        → out.0 ≡ err e
        → Ending total out

  -- What the loop has done when it ends, started with `total` bytes counted.
  pub record Took (r : CircularBuffer) (s : S) (total : ℕ) (run : Option Outcome) : Type 0 where
    pub out : Outcome
    pub bytes : List ℕ
    pub ended : run ≡ some out
    pub valid : IsValid out.1
    pub same : size out.1 ≡ size r
    pub held : contents out.1 ≡ contents r ++ bytes
    pub handed : io.given out.2 ≡ io.given s ++ bytes
    pub ending : Ending (total + length bytes) out

  module _ (fuel total : ℕ) (r : CircularBuffer) (s : S) where
    loop_err :
        (e : ErrorKind)
        → (io.read (room r) s).0 ≡ err e
        → intake_loop io (suc fuel) total r s ≡ some (err e, r, (io.read (room r) s).1)
    unfolding intake_loop
    loop_err e h = ground arith

    loop_ok :
        (bytes : List ℕ)
        → (io.read (room r) s).0 ≡ ok bytes
        → intake_loop io (suc fuel) total r s ≡ (
            if length bytes == 0
            then some (ok total, r, (io.read (room r) s).1)
            else if (take_in r bytes).write == (take_in r bytes).read
            then some (ok (add_usize total (length bytes)), take_in r bytes, (io.read (room r) s).1)
            else intake_loop io fuel
                (add_usize total (length bytes))
                (take_in r bytes)
                (io.read (room r) s).1)
    unfolding intake_loop
    loop_ok bytes h = rw (h, intake_loop) refl

  -- What one round has done that takes in some bytes.
  record Round (r : CircularBuffer) (s : S) (bytes : List ℕ) (r' : CircularBuffer) (s' : S)
      : Type 0 where
    valid : IsValid r'
    same : size r' ≡ size r
    held : contents r' ≡ contents r ++ bytes
    handed : io.given s' ≡ io.given s ++ bytes
    shrunk : available_space r' + length bytes ≡ available_space r
    stop : if r'.write == r'.read then (available_space r' ≡ 0) else (0 < available_space r')

  take_in-Round :
      (r : CircularBuffer) (s : S) (bytes : List ℕ)
      → IsValid r
      → 0 < available_space r
      → (io.read (room r) s).0 ≡ ok bytes
      → 0 < length bytes
      → Round r s bytes (take_in r bytes) (io.read (room r) s).1
  take_in-Round r s bytes v space e pos =
      let le : length bytes ≤ room r = io.read_le (room r) s bytes e in
      let fits : length bytes ≤ available_space r = omega (arith, room-bounds v space) in
      let (valid, longer) = appended_lem r bytes v fits in
      let total = available_space-add-valid_length v in
      let same = length-store_bytes r bytes v (omega arith) in
      rw (take_in-appended r bytes v space pos le) (record {
        valid = valid;
        same = same;
        held = contents-appended r bytes v fits;
        handed = io.read_given (room r) s bytes e;
        shrunk = omega (arith, available_space-add-valid_length valid);
        stop = space-of-indices valid (omega arith);
      })

  Took-next :
      {r r' : CircularBuffer} {s s' : S} {total : ℕ} (bytes : List ℕ) {run : Option Outcome}
      → Round r s bytes r' s'
      → Took r' s' (total + length bytes) run
      → Took r s total run
  Took-next {r} {r'} {s} {s'} {total} bytes a t = record {
    out = t.out;
    bytes = bytes ++ t.bytes;
    ended = t.ended;
    valid = t.valid;
    same = t.same ∙ a.same;
    held = rw (t.held, a.held) (append_assoc (contents r) bytes t.bytes);
    handed = rw (t.handed, a.handed) (append_assoc (io.given s) bytes t.bytes);
    ending =
        let e : total + length (bytes ++ t.bytes) ≡ total + length bytes + length t.bytes =
          omega (arith, length-append bytes t.bytes) in
        rw e t.ending;
  }

  -- The loop as it stops after a round without bytes: nothing was taken in.
  Took-none :
      {r : CircularBuffer} {s s' : S} {total : ℕ} {res : IoResult ℕ}
      → IsValid r
      → io.given s' ≡ io.given s
      → Ending total (res, r, s')
      → Took r s total (some (res, r, s'))
  Took-none {r} {s} {s'} {total} {res} v g e = record {
    out = (res, r, s');
    bytes = [];
    ended = refl;
    valid = v;
    same = refl;
    held = sym (append-nil _);
    handed = g ∙ sym (append-nil _);
    ending = let z : total + 0 ≡ total = omega arith in rw z e;
  }

  -- A round without bytes ends the loop.
  exhausted-Took :
      (total : ℕ) (r : CircularBuffer) (s : S)
      → IsValid r
      → 0 < room r
      → (io.read (room r) s).0 ≡ ok []
      → Took r s total (some (ok total, r, (io.read (room r) s).1))
  exhausted-Took total r s v pos got =
      Took-none v (io.read_given (room r) s [] got ∙ append-nil _)
        (exhausted (room r) s pos (ap₂ (λ a b. (a, b)) got refl) refl)

  -- A round with bytes ends the loop if the indices meet, and otherwise hands on to the next.
  Round-Took :
      (fuel total : ℕ) (r r' : CircularBuffer) (s s' : S) (bytes : List ℕ)
      → Round r s bytes r' s'
      → (0 < available_space r'
          → Took r' s' (total + length bytes) (intake_loop io fuel (total + length bytes) r' s'))
      → Took r s total (
          if r'.write == r'.read
          then some (ok (total + length bytes), r', s')
          else intake_loop io fuel (total + length bytes) r' s')
  Round-Took fuel total r r' s s' bytes a rest = elim (Bool-cases (r'.write == r'.read)) [
    | inl met ↦ rw met (Took-next bytes a (Took-none a.valid refl (filled (rw met at a.stop) refl)))
    | inr apart ↦ rw apart (Took-next bytes a (rest (rw apart at a.stop)))
  ]

  -- With more fuel than free space the loop ends, and has done what `Took` says.
  intake_loop-Took :
      (fuel total : ℕ) (r : CircularBuffer) (s : S)
      → IsValid r
      → 0 < available_space r
      → available_space r < fuel
      → total + available_space r ≤ isize_max
      → Took r s total (intake_loop io fuel total r s)
  intake_loop-Took zero total r s v space enough small = absurd (omega arith)
  intake_loop-Took (suc fuel) total r s v space enough small =
      elim (Result-cases (io.read (room r) s).0) [
        | inr (e, failed) ↦ rw (loop_err fuel total r s e failed) (
            Took-none v (io.read_failed (room r) s e failed)
              (broken (room r) s e (ap₂ (λ a b. (a, b)) failed refl) refl))
        | inl ([], got) ↦
            rw (loop_ok fuel total r s [] got)
              (exhausted-Took total r s v (room-bounds v space).0 got)
        | inl (b ∷ bs, got) ↦
            let a = take_in-Round r s (b ∷ bs) v space got (omega arith) in
            let exact : add_usize total (length (b ∷ bs)) ≡ total + length (b ∷ bs) =
              omega (arith, a.shrunk) in
            let filled : (length (b ∷ bs) == 0) ≡ false = ground arith in
            rw (loop_ok fuel total r s (b ∷ bs) got, filled, exact)
              (Round-Took fuel total r (take_in r (b ∷ bs)) s (io.read (room r) s).1 (b ∷ bs) a
                (λ more.
                  intake_loop-Took fuel (total + length (b ∷ bs)) (take_in r (b ∷ bs))
                    (io.read (room r) s).1 a.valid more (omega (arith, a.shrunk))
                    (omega (arith, a.shrunk))))
      ]

  -- `append_from_reader` always returns. On a full buffer it fails with WriteZero and does nothing.
  -- Otherwise the bytes that the reader handed out, and no others, are appended in order, also where
  -- the reader fails in the end; the buffer stays valid, of the same size. It ends because the
  -- buffer is full or the reader had no more, and returns the number of these bytes, or because the
  -- reader failed, and returns that error.
  pub append_from_reader_lem :
      (r : CircularBuffer) (s : S)
      → IsValid r
      → if available_space r == 0
        then append_from_reader io r s ≡ some (err write_zero, r, s)
        else Took r s 0 (append_from_reader io r s)
  unfolding append_from_reader
  append_from_reader_lem r s v = elim (Bool-cases (available_space r == 0)) [
    | inl none_left ↦ rw none_left refl
    | inr some_left ↦ rw some_left (
        intake_loop-Took (suc (available_space r)) 0 r s v (ground arith) (omega arith)
          (omega (arith, available_space-add-valid_length v)))
  ]
