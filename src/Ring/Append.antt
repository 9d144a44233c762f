-- ===== src/Ring/Append.antt =====
-- raiot-buffers/src/lib.rs: appending bytes, by `append_all_bytes` and through the Write trait.
use raiot_rs.Base.{
  ℕ, ◌+◌, ◌-◌, ◌%◌, ◌≤◌, ◌<◌, min, ◌≡◌, refl, inl, inr, true, List, ◌++◌, length, take, drop,
  get_elem?, leb, ltb, if◌then◌else◌, arith, list_ext, get_elem?-take, get_elem?-drop,
  get_elem?-append, length-take, length-drop, length-append, mod_once, add_usize, get_elem?_past,
  ok, err, write_zero, ◌==◌, Bool-cases,
}
use raiot_rs.Ring.{
  CircularBuffer, size, valid_length, available_space, copy_into, store_bytes, append_all_bytes,
  write,
}
use raiot_rs.Ring.Valid.{IsValid, write_cases, available_space-add-valid_length}
use raiot_rs.Ring.Contents.{contents, length-contents, slot, get_elem?-contents}

module _ (buf : List ℕ) (at : ℕ) (bytes : List ℕ) where
  pub length-copy_into :
      at + length bytes ≤ length buf → length (copy_into buf at bytes) ≡ length buf
  length-copy_into fits = omega (
    arith,
    length-append (take at buf) (bytes ++ drop (at + length bytes) buf),
    length-append bytes (drop (at + length bytes) buf),
    length-take at buf,
    length-drop (at + length bytes) buf,
  )

  pub get_elem?-copy_into :
      (i : ℕ)
      → at + length bytes ≤ length buf
      → get_elem? (copy_into buf at bytes) i ≡ (
          if ltb i at
          then get_elem? buf i
          else if ltb i (at + length bytes)
          then get_elem? bytes (i - at)
          else get_elem? buf i)
  get_elem?-copy_into i fits =
      rw
        (
          get_elem?-append (take at buf) (bytes ++ drop (at + length bytes) buf) i,
          get_elem?-append bytes (drop (at + length bytes) buf) (i - length (take at buf)),
          get_elem?-take at buf i,
          get_elem?-drop (at + length bytes) buf (i - length (take at buf) - length bytes),
          length-take at buf,
        )
        (ground arith)

-- What `store_bytes` leaves at each index: the bytes from the write index on, going round.
module _ (r : CircularBuffer) (bytes : List ℕ) where
  pub length-store_bytes : IsValid r → length bytes ≤ size r → length (store_bytes r bytes) ≡ size r
  unfolding store_bytes
  length-store_bytes v fits =
      let k = size r - r.write in
      ground (
        arith,
        length-copy_into r.buffer r.write bytes,
        length-copy_into r.buffer r.write (take k bytes),
        length-copy_into (copy_into r.buffer r.write (take k bytes)) 0 (drop k bytes),
        length-take k bytes,
        length-drop k bytes,
      )

  pub get_elem?-store_bytes :
      (i : ℕ)
      → IsValid r
      → length bytes ≤ size r
      → i < size r
      → let j = if ltb i r.write then i + size r - r.write else i - r.write in
        get_elem? (store_bytes r bytes) i
        ≡ (if ltb j (length bytes) then get_elem? bytes j else get_elem? r.buffer i)
  unfolding store_bytes
  get_elem?-store_bytes i v fits h =
      let k = size r - r.write in
      ground (
        arith,
        get_elem?-copy_into r.buffer r.write bytes i,
        length-copy_into r.buffer r.write (take k bytes),
        get_elem?-copy_into r.buffer r.write (take k bytes) i,
        get_elem?-copy_into (copy_into r.buffer r.write (take k bytes)) 0 (drop k bytes) i,
        length-take k bytes,
        length-drop k bytes,
        get_elem?-take k bytes (i - r.write),
        get_elem?-drop k bytes i,
      )

-- The buffer once `bytes` are stored.
abbrev pub appended : CircularBuffer → List ℕ → CircularBuffer
appended r bytes = record r {
  buffer = store_bytes r bytes;
  write = add_usize r.write (length bytes) % size r;
  full = if length bytes == available_space r then true else r.full;
}

module _ (r : CircularBuffer) (bytes : List ℕ) (v : IsValid r)
    (fits : length bytes ≤ available_space r) where
  pub appended_lem :
      IsValid (appended r bytes) × (valid_length (appended r bytes) ≡ valid_length r + length bytes)
  unfolding available_space valid_length
  appended_lem =
      ground (arith, length-store_bytes r bytes, mod_once (r.write + length bytes) (size r))

  -- The bytes held stay where they are.
  get_elem?-store_old :
      (i : ℕ)
      → i < valid_length r
      → get_elem? (store_bytes r bytes) (slot r.buffer r.read i)
        ≡ get_elem? r.buffer (slot r.buffer r.read i)
  get_elem?-store_old i h = ground (
    arith,
    available_space-add-valid_length v,
    get_elem?-store_bytes r bytes (slot r.buffer r.read i),
    write_cases v,
  )

  -- The new bytes follow them.
  get_elem?-store_new :
      (k : ℕ)
      → k < length bytes
      → get_elem? (store_bytes r bytes) (slot r.buffer r.read (valid_length r + k))
        ≡ get_elem? bytes k
  get_elem?-store_new k h = ground (
    arith,
    available_space-add-valid_length v,
    get_elem?-store_bytes r bytes (slot r.buffer r.read (valid_length r + k)),
    write_cases v,
  )

  get_elem?-contents-appended :
      (i : ℕ) → get_elem? (contents (appended r bytes)) i ≡ get_elem? (contents r ++ bytes) i
  get_elem?-contents-appended i =
      rw
        (
          get_elem?-contents {r = appended r bytes} i appended_lem.0,
          appended_lem.1,
          length-store_bytes r bytes v (omega (arith, available_space-add-valid_length v)),
          get_elem?-append (contents r) bytes i,
          length-contents v,
          get_elem?-contents i v,
        )
        (ground (
          arith,
          get_elem?-store_old i,
          get_elem?-store_new (i - valid_length r),
          get_elem?_past bytes (i - valid_length r),
        ))

  pub contents-appended : contents (appended r bytes) ≡ contents r ++ bytes
  contents-appended = list_ext _ _ get_elem?-contents-appended

append_all_bytes_fits :
    (r : CircularBuffer) (bytes : List ℕ)
    → length bytes ≤ available_space r
    → append_all_bytes r bytes ≡ (ok tt, appended r bytes)
unfolding append_all_bytes
append_all_bytes_fits r bytes h = ground arith

-- Appending adds all of the bytes at the end if they fit, and otherwise fails with WriteZero and
-- leaves the buffer as it was. The buffer stays valid, of the same size.
pub append_all_bytes_lem :
    {r : CircularBuffer} (bytes : List ℕ)
    → IsValid r
    → let (res, r') = append_all_bytes r bytes in
      IsValid r'
      × (size r' ≡ size r)
      × (if leb (valid_length r + length bytes) (size r)
          then (res ≡ ok tt) × (contents r' ≡ contents r ++ bytes)
          else (res ≡ err write_zero) × (r' ≡ r))
unfolding append_all_bytes
append_all_bytes_lem {r} bytes v = elim (Bool-cases (ltb (available_space r) (length bytes))) [
  | inl large ↦ rw large (ground (arith, available_space-add-valid_length v))
  | inr fits ↦ rw fits (
      ground (
        arith,
        available_space-add-valid_length v,
        appended_lem r bytes v,
        contents-appended r bytes v,
        length-store_bytes r bytes v,
      ))
]

write-append :
    (r : CircularBuffer) (bytes : List ℕ)
    → let n = min (available_space r) (length bytes) in
      write r bytes ≡ (ok n, appended r (take n bytes))
unfolding write
write-append r bytes =
    let n = min (available_space r) (length bytes) in
    ground (arith, append_all_bytes_fits r (take n bytes), length-take n bytes)

-- A write takes as many of the bytes as there is room for, in order, says how many, and never fails.
pub write_lem :
    {r : CircularBuffer} (bytes : List ℕ)
    → IsValid r
    → let (res, r') = write r bytes in
      let n = min (size r - valid_length r) (length bytes) in
      IsValid r' × (size r' ≡ size r) × (res ≡ ok n) × (contents r' ≡ contents r ++ take n bytes)
write_lem {r} bytes v =
    let n = min (available_space r) (length bytes) in
    let space : size r - valid_length r ≡ available_space r =
      omega (arith, available_space-add-valid_length v) in
    let fits : length (take n bytes) ≤ available_space r = omega (arith, length-take n bytes) in
    rw (write-append r bytes, space)
      (
        (appended_lem r (take n bytes) v fits).0,
        length-store_bytes r (take n bytes) v (omega arith),
        refl,
        contents-appended r (take n bytes) v fits,
      )
