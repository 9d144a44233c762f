-- ===== src/Base/Io.antt =====
-- What the sources take from std::io: error kinds, results, and the traits Read and Write.
use Prim.Native.Nat.{ℕ, ◌+◌, ◌-◌, ◌^◌, ◌%◌, ◌≤◌}
use mathlib.Core.Path.{◌≡◌, refl}
use mathlib.Core.Logic.{◌⊎◌, inl, inr}
use mathlib.Core.List.{List, ◌++◌}
use raiot_rs.Base.Lists.{length, take}

-- The kinds that the sources name; `other` stands for the rest of std::io::ErrorKind.
pub data ErrorKind : Type 0 where
  would_block interrupted write_zero invalid_input invalid_data : ErrorKind
  unexpected_eof timed_out connection_aborted connection_reset not_connected : ErrorKind
  other : ℕ → ErrorKind

pub data Result {ℓ} (E : Type 0) (A : Type ℓ) : Type ℓ where
  ok : A → Result E A
  err : E → Result E A

abbrev pub IoResult : Type 0 → Type 0
IoResult = Result ErrorKind

-- A call that may panic.
pub data Call {ℓ} (A : Type ℓ) : Type ℓ where
  returns : A → Call A
  panics : Call A

-- usize sums on a 64-bit target.
abbrev pub add_usize : ℕ → ℕ → ℕ
add_usize a b = (a + b) % 2 ^ 64

-- The largest size of an allocation, isize::MAX.
abbrev pub isize_max : ℕ
isize_max = 2 ^ 63 - 1

-- std::io::Read over a state: `read n` gets a buffer of n bytes and returns the bytes put at its
-- start. `given` is all that the reader has handed out. The trait promises that a call hands out no
-- more than n bytes, and that with an error it hands out none.
pub record Reader (S : Type 0) : Type 0 where
  pub read : ℕ → S → IoResult (List ℕ) × S
  pub given : S → List ℕ
  pub read_le : (n : ℕ) (s : S) (bytes : List ℕ) → (read n s).0 ≡ ok bytes → length bytes ≤ n
  pub read_given :
      (n : ℕ) (s : S) (bytes : List ℕ)
      → (read n s).0 ≡ ok bytes
      → given (read n s).1 ≡ given s ++ bytes
  pub read_failed :
      (n : ℕ) (s : S) (e : ErrorKind) → (read n s).0 ≡ err e → given (read n s).1 ≡ given s

-- std::io::Write over a state. `sent` is all that the writer has accepted; the trait promises that
-- `Ok(n)` means that the first n bytes were accepted, and an error that none was.
pub record Writer (S : Type 0) : Type 0 where
  pub write : List ℕ → S → IoResult ℕ × S
  pub sent : S → List ℕ
  pub write_le : (bytes : List ℕ) (s : S) (n : ℕ) → (write bytes s).0 ≡ ok n → n ≤ length bytes
  pub write_sent :
      (bytes : List ℕ) (s : S) (n : ℕ)
      → (write bytes s).0 ≡ ok n
      → sent (write bytes s).1 ≡ sent s ++ take n bytes
  pub write_failed :
      (bytes : List ℕ) (s : S) (e : ErrorKind)
      → (write bytes s).0 ≡ err e
      → sent (write bytes s).1 ≡ sent s

pub Result-cases {ℓ} :
    {E : Type 0} {A : Type ℓ} (x : Result E A) → ((a : A) × (x ≡ ok a)) ⊎ ((e : E) × (x ≡ err e))
Result-cases (ok a) = inl (a, refl)
Result-cases (err e) = inr (e, refl)

pub returns_injective : {A : Type 0} {x y : A} → returns x ≡ returns y → x ≡ y
returns_injective e = cc
