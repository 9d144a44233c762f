-- ===== src/Ring/Take.antt =====
-- raiot-buffers/src/lib.rs: reading bytes out of the buffer, and looking at them.
use raiot_rs.Base.{
  ℕ, zero, suc, ◌+◌, ◌-◌, ◌≤◌, ◌<◌, ◌≡◌, refl, inl, inr, true, false, [], ◌++◌, take, drop,
  get_elem?, leb, ltb, if◌then◌else◌, arith, list_ext, get_elem?-drop, mod_once, ◌==◌, ◌&&◌,
  Bool-cases, take-take, take-append-drop, eq_nil_of_length, returns, panics,
}
use raiot_rs.Ring.{
  CircularBuffer, BufferSlice, size, valid_length, advance, get_buffer_slice, peek, read_bytes,
}
use raiot_rs.Ring.Slice.{bytes_of}
use raiot_rs.Ring.Valid.{IsValid, valid_length-le-size}
use raiot_rs.Ring.Contents.{contents, length-contents, get_elem?-contents, get_buffer_slice-window}

-- Moving the read index on drops as many bytes, but for a full buffer moved by none: the flag goes
-- and all its bytes with it.
module _ {r : CircularBuffer} (n : ℕ) (v : IsValid r) (h : n ≤ valid_length r) where
  pub advance-IsValid : IsValid (advance r n)
  advance-IsValid = ground (arith, valid_length-le-size v, mod_once (r.read + n) (size r))

  pub valid_length-advance :
      valid_length (advance r n)
      ≡ (if (n == 0) then (if r.full then 0 else valid_length r) else valid_length r - n)
  unfolding valid_length
  valid_length-advance = ground (arith, mod_once (r.read + n) (size r))

  get_elem?-contents-advance :
      (i : ℕ) → 0 < n → get_elem? (contents (advance r n)) i ≡ get_elem? (drop n (contents r)) i
  get_elem?-contents-advance i pos =
      rw
        (
          get_elem?-contents {r = advance r n} i advance-IsValid,
          valid_length-advance,
          get_elem?-drop n (contents r) i,
          get_elem?-contents {r = r} (n + i) v,
        )
        (ground (arith, valid_length-le-size v, mod_once (r.read + n) (size r)))

  pub contents-advance : 0 < n → contents (advance r n) ≡ drop n (contents r)
  contents-advance pos = list_ext _ _ (λ i. get_elem?-contents-advance i pos)

  pub get_buffer_slice-take : bytes_of (get_buffer_slice r r.read n) ≡ take n (contents r)
  unfolding contents
  get_buffer_slice-take =
      rw
        (
          get_buffer_slice-window r r.read n v v.read_in (omega (arith, valid_length-le-size v)),
          take-take n (valid_length r) (drop r.read r.buffer ++ take r.read r.buffer) h,
        )
        refl

-- A slice depends on the storage alone.
get_buffer_slice-advance :
    (r : CircularBuffer) (n from len : ℕ)
    → get_buffer_slice (advance r n) from len ≡ get_buffer_slice r from len
unfolding get_buffer_slice
get_buffer_slice-advance r n from len = refl

-- Reading `n` bytes panics for none and for more than are held; otherwise it lends the oldest `n`
-- bytes in order, and drops just these. The buffer stays valid, of the same size.
pub read_bytes_lem :
    {r : CircularBuffer} (n : ℕ)
    → IsValid r
    → if ltb 0 n && leb n (valid_length r)
      then ((slice : BufferSlice) × (r' : CircularBuffer) × (read_bytes r n ≡ returns (slice, r'))
          × (bytes_of slice ≡ take n (contents r))
          × (contents r' ≡ drop n (contents r))
          × IsValid r'
          × (size r' ≡ size r))
      else (read_bytes r n ≡ panics)
unfolding read_bytes
read_bytes_lem {r} n v = elim (Bool-cases (ltb 0 n && leb n (valid_length r))) [
  | inl fine ↦ rw fine (
    get_buffer_slice (advance r n) r.read n,
    advance r n,
    ground arith,
    rw (get_buffer_slice-advance r n r.read n) (get_buffer_slice-take {r = r} n v (ground arith)),
    contents-advance {r = r} n v (ground arith) (ground arith),
    advance-IsValid {r = r} n v (ground arith),
    refl,
  )
  | inr bad ↦ rw bad (ground arith)
]

-- Peeking panics for more bytes than are held, and otherwise lends the oldest ones.
pub peek_lem :
    {r : CircularBuffer} (n : ℕ)
    → IsValid r
    → if leb n (valid_length r)
      then ((slice : BufferSlice) × (peek r n ≡ returns slice)
          × (bytes_of slice ≡ take n (contents r)))
      else (peek r n ≡ panics)
unfolding peek
peek_lem {r} n v = elim (Bool-cases (leb n (valid_length r))) [
  | inl fine ↦
      rw fine (
        get_buffer_slice r r.read n,
        ground arith,
        get_buffer_slice-take {r = r} n v (ground arith),
      )
  | inr bad ↦ rw bad (ground arith)
]

not_full_of : (r : CircularBuffer) → (r.full ≡ true → 0 < 0) → r.full ≡ false
not_full_of r h = ground arith

module _ (r : CircularBuffer) (v : IsValid r) where
  pub advance_zero : r.full ≡ false → advance r 0 ≡ r
  advance_zero h = ground (arith, mod_once (r.read + 0) (size r))

  pub contents-advance_zero_full : r.full ≡ true → contents (advance r 0) ≡ []
  contents-advance_zero_full h = eq_nil_of_length (contents (advance r 0)) (
      ground (
        arith,
        length-contents (advance-IsValid {r = r} 0 v (omega arith)),
        valid_length-advance {r = r} 0 v,
      ))

  -- Dropping bytes off the front keeps what is behind them.
  pub take-contents-advance :
      (n : ℕ)
      → n ≤ valid_length r
      → (r.full ≡ true → 0 < n)
      → take n (contents r) ++ contents (advance r n) ≡ contents r
  take-contents-advance zero h some_if_full = rw (advance_zero (not_full_of r some_if_full)) refl
  take-contents-advance (suc n) h some_if_full =
      rw (contents-advance {r = r} (suc n) v h (omega arith))
        (take-append-drop (suc n) (contents r))

-- The two calls where they do not panic.
module _ {r : CircularBuffer} (n : ℕ) (v : IsValid r) where
  pub read_bytes_ok :
      0 < n
      → n ≤ valid_length r
      → (slice : BufferSlice) × (r' : CircularBuffer) × (read_bytes r n ≡ returns (slice, r'))
        × (bytes_of slice ≡ take n (contents r))
        × (contents r' ≡ drop n (contents r))
        × IsValid r'
        × (size r' ≡ size r)
  read_bytes_ok pos le =
      let inside : (ltb 0 n && leb n (valid_length r)) ≡ true = ground arith in
      rw inside at (read_bytes_lem {r = r} n v)

  pub peek_ok :
      n ≤ valid_length r
      → (slice : BufferSlice) × (peek r n ≡ returns slice) × (bytes_of slice ≡ take n (contents r))
  peek_ok le =
      let inside : leb n (valid_length r) ≡ true = ground arith in
      rw inside at (peek_lem {r = r} n v)
