-- ===== src/Connection/Small.antt =====
-- A small socket for runs at concrete inputs.
use raiot_rs.Base.{
  Reader, refl, [], ◌∷◌, zero, suc, ◌≤◌, err, would_block, IoResult, ErrorKind, ℕ, ◌<◌, ◌≡◌, sym,
  ap, ◌∙◌, true, List, ◌++◌, ok, Writer, length, take_all, arith,
}
use raiot_rs.Ring.{CircularBuffer, BufferSlice, consecutive, splitted, valid_length}
use raiot_rs.Ring.Slice.{bytes_of}
use raiot_rs.Ring.Valid.{IsValid}
use raiot_rs.Ring.Contents.{contents, length-contents}
use raiot_rs.Ring.Drain.{Steady}

-- A socket that takes all it is given; its state is what it has taken.
abbrev pub open_socket : Writer (List ℕ)
open_socket = record {
  write = λ bytes s. (ok (length bytes), s ++ bytes);
  sent = λ s. s;
  write_le = λ bytes s n e. ground arith;
  write_sent = λ bytes s n e. ap (◌++◌ s) (sym (take_all n bytes (ground arith)));
  write_failed = λ bytes s e h. cc;
}

full_length : (r : CircularBuffer) → IsValid r → r.full ≡ true → 0 < valid_length r
unfolding valid_length
full_length r v full = ground arith

pub open_socket-Steady :
    (r : CircularBuffer) (s : List ℕ) (slice : BufferSlice)
    → IsValid r
    → bytes_of slice ≡ contents r
    → Steady open_socket r s slice
open_socket-Steady r s (consecutive buf) v e = λ full h.
    let held : length buf ≡ valid_length r = ap length e ∙ length-contents v in
    let zero_held : length buf ≡ 0 = cc in absurd (omega (arith, full_length r v full))
open_socket-Steady r s (splitted buf1 buf2) v e = λ n h. cc

-- A line with one byte on it, and then silence; the state is what was handed out.
pub line_read : ℕ → List ℕ → IoResult (List ℕ) × List ℕ
line_read n [] = elim n [ zero ↦ (err would_block, []) | suc k ↦ (ok (0 ∷ []), 0 ∷ []) ]
line_read n (b ∷ bytes) = (err would_block, b ∷ bytes)

pub line_ok :
    (n : ℕ) (s : List ℕ) (bytes : List ℕ)
    → (line_read n s).0 ≡ ok bytes
    → (length bytes ≤ n) × ((line_read n s).1 ≡ s ++ bytes)
unfolding line_read
line_ok zero [] bytes e = cc
line_ok (suc k) [] bytes e = ground arith
line_ok n (b ∷ more) bytes e = cc

pub line_err :
    (n : ℕ) (s : List ℕ) (e : ErrorKind) → (line_read n s).0 ≡ err e → (line_read n s).1 ≡ s
unfolding line_read
line_err zero [] e h = refl
line_err (suc k) [] e h = cc
line_err n (b ∷ more) e h = refl

abbrev pub line : Reader (List ℕ)
line = record {
  read = line_read;
  given = λ s. s;
  read_le = λ n s bytes e. (line_ok n s bytes e).0;
  read_given = λ n s bytes e. (line_ok n s bytes e).1;
  read_failed = line_err;
}

-- A stream that never has anything to read.
abbrev pub silent : Reader (List ℕ)
silent = record {
  read = λ n s. (err would_block, s);
  given = λ s. [];
  read_le = λ n s bytes e. cc;
  read_given = λ n s bytes e. cc;
  read_failed = λ n s e h. refl;
}
