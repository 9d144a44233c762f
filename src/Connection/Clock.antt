-- ===== src/Connection/Clock.antt =====
-- raiot-mqtt/src/connection.rs: looks at the clock before and after a deadline.
use raiot_rs.Base.{ℕ, zero, suc, ◌+◌, ◌≤◌, ◌≡◌, refl, false, leb, arith}

module _ (clock : ℕ → ℕ) (timeout : ℕ) where
  shift : (k m : ℕ) → suc k + m ≡ k + suc m
  shift k m = omega arith

  -- A look that comes before the deadline is followed by another.
  pub later :
      {A : Type 0} (k n : ℕ)
      → leb timeout (clock k) ≡ false
      → timeout ≤ clock (k + n)
      → ((m : ℕ) → n ≡ suc m → timeout ≤ clock (suc k + m) → A)
      → A
  later k zero early late go = absurd (ground arith)
  later k (suc m) early late go = go m refl (rw (shift k m) late)
