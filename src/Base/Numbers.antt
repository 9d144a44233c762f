-- ===== src/Base/Numbers.antt =====
-- Remainders that wrap at most once.
use Prim.Native.Nat.{ℕ, ◌+◌, ◌-◌, ◌%◌, ◌<◌}
use mathlib.Core.Path.{◌≡◌, ◌∙◌}
use mathlib.Core.Logic.{inl, inr}
use native.Mathlib.Nat.{mod-eq_of_lt, mod-eq-sub-mod}
use native.Mathlib.Omega.{arith}
use raiot_rs.Base.Tests.{ltb, if◌then◌else◌, Bool-cases, ltb→lt}

-- Below twice the modulus a remainder is one test and one subtraction.
pub mod_once : (x n : ℕ) → x < n + n → x % n ≡ (if ltb x n then x else x - n)
mod_once x n h = elim (Bool-cases (ltb x n)) [
  | inl below ↦ rw below (mod-eq_of_lt (ltb→lt x n below))
  | inr above ↦ rw above (
      mod-eq-sub-mod {n = x} {m = n} (ground arith)
      ∙ mod-eq_of_lt {n = x - n} {m = n} (ground arith))
]
