-- ===== src/Ring.antt =====
-- raiot-buffers/src/lib.rs: the circular byte buffer and the slices that it lends.
-- A method on `&mut self` returns its result beside the new buffer.
pub mod Slice
pub mod Valid
pub mod Contents
pub mod Append
pub mod Take
pub mod Fifo
pub mod Intake
pub mod Drain
mod Tests
use raiot_rs.Base.{
  ℕ, zero, suc, ◌+◌, ◌-◌, ◌%◌, min, Bool, true, false, not, ◌&&◌, Option, none, some, List, [],
  ◌++◌, length, take, drop, replicate, leb, ltb, ◌==◌, if◌then◌else◌, ErrorKind, would_block,
  interrupted, write_zero, IoResult, Result, ok, err, Call, returns, panics, add_usize, Reader,
  Writer,
}

pub data BufferSlice : Type 0 where
  consecutive : List ℕ → BufferSlice
  splitted : List ℕ → List ℕ → BufferSlice

-- `Read for BufferSlice`, into a buffer of `n` bytes: the bytes read, and the slice left.
unfoldable pub read_slice : ℕ → BufferSlice → List ℕ × BufferSlice
read_slice n (consecutive bytes) = (take n bytes, consecutive (drop n bytes))
read_slice n (splitted part1 part2) =
    let k = length part1 in
    if leb n k
    then (take n part1, splitted (drop n part1) part2)
    else (take k part1 ++ take (n - k) part2, splitted (drop k part1) (drop (n - k) part2))

pub record CircularBuffer : Type 0 where
  pub buffer : List ℕ
  pub read : ℕ
  pub write : ℕ
  pub full : Bool

unfoldable pub new : ℕ → Call CircularBuffer
new size =
    if ltb 0 size
    then returns (record { buffer = replicate size 0; read = 0; write = 0; full = false })
    else panics

abbrev pub is_full : CircularBuffer → Bool
is_full r = r.full

abbrev pub is_empty : CircularBuffer → Bool
is_empty r = (r.read == r.write) && not r.full

abbrev pub size : CircularBuffer → ℕ
size r = length r.buffer

unfoldable pub valid_length : CircularBuffer → ℕ
valid_length r =
    if is_full r
    then size r
    else if is_empty r
    then 0
    else if leb r.read r.write
    then r.write - r.read
    else add_usize (size r) r.write - r.read

unfoldable pub available_space : CircularBuffer → ℕ
available_space r =
    if is_empty r
    then size r
    else if is_full r
    then 0
    else if leb r.read r.write
    then size r - (r.write - r.read)
    else size r - (add_usize r.write (size r) - r.read)

-- `&buf[from..to]`. `Valid` shows that every range is in bounds.
abbrev pub range : List ℕ → ℕ → ℕ → List ℕ
range buf from to = take (to - from) (drop from buf)

unfoldable pub get_buffer_slice : CircularBuffer → ℕ → ℕ → BufferSlice
get_buffer_slice r from len =
    let end_pos = add_usize from len in
    if leb end_pos (size r)
    then consecutive (range r.buffer from end_pos)
    else splitted (range r.buffer from (size r)) (range r.buffer 0 (end_pos % size r))

unfoldable pub peek : CircularBuffer → ℕ → Call BufferSlice
peek r len = if ltb (valid_length r) len then panics else returns (get_buffer_slice r r.read len)

unfoldable pub peek_remaining : CircularBuffer → BufferSlice
peek_remaining r = get_buffer_slice r r.read (valid_length r)

-- `self.read = (self.read + n) % self.size(); self.full = false`
abbrev pub advance : CircularBuffer → ℕ → CircularBuffer
advance r n = record r { read = add_usize r.read n % size r; full = false }

unfoldable pub read_bytes : CircularBuffer → ℕ → Call (BufferSlice × CircularBuffer)
read_bytes r len =
    if ltb 0 len
    then if ltb (valid_length r) len
      then panics
      else returns (get_buffer_slice (advance r len) r.read len, advance r len)
    else panics

-- `buf[at..at + bytes.len()].copy_from_slice(bytes)`
abbrev pub copy_into : List ℕ → ℕ → List ℕ → List ℕ
copy_into buf at bytes = take at buf ++ (bytes ++ drop (at + length bytes) buf)

-- The stores of `append_all_bytes`.
pub store_bytes : CircularBuffer → List ℕ → List ℕ
store_bytes r bytes =
    if leb (add_usize r.write (length bytes)) (size r)
    then copy_into r.buffer r.write bytes
    else let first_half_size = size r - r.write in
      copy_into (copy_into r.buffer r.write (take first_half_size bytes)) 0
        (drop first_half_size bytes)

unfoldable pub append_all_bytes : CircularBuffer → List ℕ → IoResult (Unit {0}) × CircularBuffer
unfolding store_bytes
append_all_bytes r bytes = if ltb (available_space r) (length bytes) then (err write_zero, r) else (
  ok tt,
  record r {
    buffer = store_bytes r bytes;
    write = add_usize r.write (length bytes) % size r;
    full = if length bytes == available_space r then true else r.full;
  },
)

-- `Write for CircularBuffer`
unfoldable pub write : CircularBuffer → List ℕ → IoResult ℕ × CircularBuffer
write r buf =
    let write_size = min (available_space r) (length buf) in
    let (res, r') = append_all_bytes r (take write_size buf) in
    elim res [ ok _ ↦ (ok write_size, r') | err e ↦ (err e, r') ]

unfoldable pub get_next_consecutive_free_space : CircularBuffer → ℕ × ℕ
get_next_consecutive_free_space r =
    if ltb r.write r.read then (r.write, r.read) else (r.write, size r)

-- One round of the loop: `Ok(size)` with `size > 0` puts the bytes in place.
pub take_in : CircularBuffer → List ℕ → CircularBuffer
take_in r bytes =
    let moved = add_usize r.write (length bytes) % size r in
    record r {
      buffer = copy_into r.buffer (get_next_consecutive_free_space r).0 bytes;
      write = moved;
      full = if moved == r.read then true else r.full;
    }

module _ {S : Type 0} (io : Reader S) where
  -- The loop on fuel; `none` means that the fuel ran out.
  pub intake_loop : ℕ → ℕ → CircularBuffer → S → Option (IoResult ℕ × CircularBuffer × S)
  intake_loop zero total r s = none
  intake_loop (suc fuel) total r s =
      let (from, to) = get_next_consecutive_free_space r in
      let (res, s') = io.read (to - from) s in
      elim res [
        | err e ↦ some (err e, r, s')
        | ok bytes ↦
            let r' = take_in r bytes in
            let total' = add_usize total (length bytes) in
            let rest = intake_loop fuel total' r' s' in
            if length bytes == 0
            then some (ok total, r, s')
            else if r'.write == r'.read
            then some (ok total', r', s')
            else rest
      ]

  -- Every round but the last takes in a byte or more, so the free space is fuel enough.
  unfoldable pub append_from_reader : CircularBuffer → S → Option (IoResult ℕ × CircularBuffer × S)
  unfolding intake_loop take_in
  append_from_reader r s =
      if available_space r == 0
      then some (err write_zero, r, s)
      else intake_loop (suc (available_space r)) 0 r s

-- What the second write of a split slice adds to the count, and the error it leaves.
pub second_write : IoResult ℕ → ℕ × Option ErrorKind
second_write (ok n) = (n, none)
second_write (err would_block) = (0, none)
second_write (err interrupted) = (0, none)
second_write (err e) = (0, some e)

pub finish_write : Option ErrorKind → ℕ → IoResult ℕ
finish_write (some e) n = err e
finish_write none n = ok n

module _ {S : Type 0} (io : Writer S) where
  pub write_slice : CircularBuffer → BufferSlice → S → IoResult ℕ × CircularBuffer × S
  unfolding second_write finish_write
  write_slice r (consecutive buf) s =
      let (res, s') = io.write buf s in
      elim res [ err e ↦ (err e, r, s') | ok n ↦ (ok n, advance r n, s') ]
  write_slice r (splitted buf1 buf2) s =
      let (res1, s1) = io.write buf1 s in
      elim res1 [
        | err e ↦ (err e, r, s1)
        | ok n1 ↦
            let (res2, s2) = io.write buf2 s1 in
            let (n2, failed) = second_write res2 in
            let n = add_usize n1 n2 in (finish_write failed n, advance r n, s2)
      ]

  unfoldable pub write_into : CircularBuffer → S → IoResult ℕ × CircularBuffer × S
  unfolding write_slice
  write_into r s = write_slice r (peek_remaining r) s
