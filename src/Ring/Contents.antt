-- ===== src/Ring/Contents.antt =====
-- raiot-buffers/src/lib.rs: the bytes that a buffer holds, oldest first, and the slices of them.
use raiot_rs.Base.{
  ℕ, ◌+◌, ◌-◌, ◌≤◌, ◌<◌, ◌≡◌, none, List, ◌++◌, length, take, drop, get_elem?, ltb, if◌then◌else◌,
  arith, get_elem?-take, get_elem?-drop, get_elem?-append, length-take, length-drop, length-append,
  mod_once, take-append, take_all, take-take,
}
use raiot_rs.Ring.{CircularBuffer, size, valid_length, get_buffer_slice, peek_remaining}
use raiot_rs.Ring.Slice.{bytes_of}
use raiot_rs.Ring.Valid.{IsValid, valid_length-le-size}

-- The index of the `i`-th byte from index `from` on.
abbrev pub slot : List ℕ → ℕ → ℕ → ℕ
slot buf from i = if ltb (from + i) (length buf) then from + i else from + i - length buf

-- `n` bytes of `buf` from index `from` on, going round at its end.
abbrev pub window : List ℕ → ℕ → ℕ → List ℕ
window buf from n = take n (drop from buf ++ take from buf)

unfoldable pub contents : CircularBuffer → List ℕ
contents r = window r.buffer r.read (valid_length r)

module _ (buf : List ℕ) (from n : ℕ) where
  pub length-window : from < length buf → n ≤ length buf → length (window buf from n) ≡ n
  length-window h k = omega (
    arith,
    length-take n (drop from buf ++ take from buf),
    length-append (drop from buf) (take from buf),
    length-drop from buf,
    length-take from buf,
  )

  pub get_elem?-window :
      (i : ℕ)
      → from < length buf
      → n ≤ length buf
      → get_elem? (window buf from n) i
        ≡ (if ltb i n then get_elem? buf (slot buf from i) else none)
  get_elem?-window i h k =
      rw
        (
          get_elem?-take n (drop from buf ++ take from buf) i,
          get_elem?-append (drop from buf) (take from buf) i,
          get_elem?-drop from buf i,
          get_elem?-take from buf (i - length (drop from buf)),
          length-drop from buf,
        )
        (ground arith)

pub length-contents : {r : CircularBuffer} → IsValid r → length (contents r) ≡ valid_length r
unfolding contents
length-contents {r} v =
    length-window r.buffer r.read (valid_length r) v.read_in (valid_length-le-size v)

-- Every slice that the buffer lends holds the bytes from its first index on, also round the end.
pub get_buffer_slice-window :
    (r : CircularBuffer) (from len : ℕ)
    → IsValid r
    → from < size r
    → len ≤ size r
    → bytes_of (get_buffer_slice r from len) ≡ window r.buffer from len
unfolding get_buffer_slice
get_buffer_slice-window r from len v h k = ground (
  arith,
  mod_once (from + len) (size r),
  take-append len (drop from r.buffer) (take from r.buffer),
  length-drop from r.buffer,
  take_all (size r - from) (drop from r.buffer),
  take-take (len - (size r - from)) from r.buffer,
)

-- The remaining slice is all that the buffer holds.
pub peek_remaining-contents :
    {r : CircularBuffer} → IsValid r → bytes_of (peek_remaining r) ≡ contents r
unfolding peek_remaining contents
peek_remaining-contents {r} v =
    get_buffer_slice-window r r.read (valid_length r) v v.read_in (valid_length-le-size v)

pub get_elem?-contents :
    {r : CircularBuffer}
    → (i : ℕ) → IsValid r
    → get_elem? (contents r) i
      ≡ (if ltb i (valid_length r) then get_elem? r.buffer (slot r.buffer r.read i) else none)
unfolding contents
get_elem?-contents {r} i v =
    get_elem?-window r.buffer r.read (valid_length r) i v.read_in (valid_length-le-size v)
