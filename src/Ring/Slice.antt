-- ===== src/Ring/Slice.antt =====
-- raiot-buffers/src/lib.rs: reading from a lent slice.
use raiot_rs.Base.{
  ℕ, ◌≡◌, refl, List, ◌++◌, length, take, drop, arith, take_all, drop_all, take-append, drop-append,
}
use raiot_rs.Ring.{BufferSlice, consecutive, splitted, read_slice}

-- The bytes of a slice, in order.
abbrev pub bytes_of : BufferSlice → List ℕ
bytes_of (consecutive bytes) = bytes
bytes_of (splitted part1 part2) = part1 ++ part2

-- Reading from a slice takes bytes from its front, as many as there are up to the size of the
-- caller's buffer, and leaves the others, whether or not the slice is split.
pub read_slice_lem :
    (n : ℕ) (b : BufferSlice)
    → let (bytes, rest) = read_slice n b in
      (bytes ≡ take n (bytes_of b)) × (bytes_of rest ≡ drop n (bytes_of b))
unfolding read_slice
read_slice_lem n (consecutive bytes) = (refl, refl)
read_slice_lem n (splitted part1 part2) = ground (
  arith,
  take-append n part1 part2,
  drop-append n part1 part2,
  take_all (length part1) part1,
  drop_all (length part1) part1,
  take_all n part1,
  drop_all n part1,
)
