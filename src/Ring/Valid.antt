-- ===== src/Ring/Valid.antt =====
-- raiot-buffers/src/lib.rs: the representation invariant of the buffer, its sizes and its ranges.
use raiot_rs.Base.{
  ℕ, ◌+◌, ◌-◌, ◌≤◌, ◌<◌, ◌≡◌, refl, true, zero, suc, returns, panics, arith, isize_max,
  length-replicate, ltb, if◌then◌else◌,
}
use raiot_rs.Ring.{CircularBuffer, new, size, valid_length, available_space}

pub record IsValid (r : CircularBuffer) : Type 0 where
  pub positive : 0 < size r
  pub small : size r ≤ isize_max
  pub read_in : r.read < size r
  pub write_in : r.write < size r
  pub full_at : r.full ≡ true → r.read ≡ r.write

-- Making a buffer of no bytes panics; one of any other size that can be allocated is valid, empty,
-- and has the size asked for.
pub new-IsValid :
    (n : ℕ)
    → n ≤ isize_max
    → if ltb 0 n
      then ((r : CircularBuffer) × (new n ≡ returns r)
          × IsValid r
          × (size r ≡ n)
          × (valid_length r ≡ 0))
      else (new n ≡ panics)
unfolding new valid_length
new-IsValid zero h = refl
new-IsValid (suc n) h = ground (arith, length-replicate {A = ℕ} (suc n) 0)

-- The bytes held and the free space make up the capacity: neither sum wraps.
pub available_space-add-valid_length :
    {r : CircularBuffer} → IsValid r → available_space r + valid_length r ≡ size r
unfolding available_space valid_length
available_space-add-valid_length v = ground arith

pub valid_length-le-size : {r : CircularBuffer} → IsValid r → valid_length r ≤ size r
valid_length-le-size v = omega (arith, available_space-add-valid_length v)

-- The write index is the read index moved on by the bytes held, round the end of the buffer.
pub write_cases :
    {r : CircularBuffer}
    → IsValid r
    → r.write ≡ (
        if ltb (r.read + valid_length r) (size r)
        then r.read + valid_length r
        else r.read + valid_length r - size r)
unfolding valid_length
write_cases v = ground arith
