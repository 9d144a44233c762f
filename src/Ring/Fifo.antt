-- ===== src/Ring/Fifo.antt =====
-- raiot-buffers/src/lib.rs: what a client of the circular buffer may rely on. A bounded queue of
-- bytes, oldest first, as the specification, and the calls of a client in order.
use raiot_rs.Base.{
  ℕ, ◌+◌, ◌-◌, min, ◌≡◌, refl, List, [], ◌∷◌, ◌++◌, length, take, drop, leb, ltb, if◌then◌else◌,
  arith, ok, err, ErrorKind, write_zero, ◌&&◌, returns, panics, IoResult, Call,
}
use raiot_rs.Ring.{CircularBuffer, BufferSlice, size, peek, read_bytes, append_all_bytes, write}
use raiot_rs.Ring.Slice.{bytes_of}
use raiot_rs.Ring.Valid.{IsValid}
use raiot_rs.Ring.Contents.{contents, length-contents}
use raiot_rs.Ring.Append.{append_all_bytes_lem, write_lem}
use raiot_rs.Ring.Take.{read_bytes_lem, peek_lem}

pub data Request : Type 0 where
  append_all write_some : List ℕ → Request
  read_out look : ℕ → Request

-- What the client sees of a call.
pub data Reply : Type 0 where
  appended : Reply
  failed : ErrorKind → Reply
  wrote : ℕ → Reply
  lent : List ℕ → Reply
  panicked : Reply

append_reply : IoResult (Unit {0}) → Reply
append_reply (ok _) = appended
append_reply (err e) = failed e

write_reply : IoResult ℕ → Reply
write_reply (ok n) = wrote n
write_reply (err e) = failed e

look_reply : Call BufferSlice → Reply
look_reply (returns slice) = lent (bytes_of slice)
look_reply panics = panicked

read_reply : CircularBuffer → Call (BufferSlice × CircularBuffer) → Reply × CircularBuffer
read_reply r (returns (slice, r')) = (lent (bytes_of slice), r')
read_reply r panics = (panicked, r)

-- One call on the circular buffer.
unfoldable pub call : CircularBuffer → Request → Reply × CircularBuffer
unfolding append_reply write_reply look_reply read_reply
call r (append_all bytes) = let (res, r') = append_all_bytes r bytes in (append_reply res, r')
call r (write_some bytes) = let (res, r') = write r bytes in (write_reply res, r')
call r (read_out n) = read_reply r (read_bytes r n)
call r (look n) = (look_reply (peek r n), r)

unfoldable pub run : CircularBuffer → List Request → List Reply
run r [] = []
run r (c ∷ cs) = let (reply, r') = call r c in reply ∷ run r' cs

-- The same calls on a queue of at most `cap` bytes.
module _ (cap : ℕ) where
  pub queue_call : List ℕ → Request → Reply × List ℕ
  queue_call q (append_all bytes) =
      if leb (length q + length bytes) cap then (appended, q ++ bytes) else (failed write_zero, q)
  queue_call q (write_some bytes) =
      let n = min (cap - length q) (length bytes) in (wrote n, q ++ take n bytes)
  queue_call q (read_out n) =
      if ltb 0 n && leb n (length q) then (lent (take n q), drop n q) else (panicked, q)
  queue_call q (look n) = if leb n (length q) then (lent (take n q), q) else (panicked, q)

  pub queue_run : List ℕ → List Request → List Reply
  queue_run q [] = []
  queue_run q (c ∷ cs) = let (reply, q') = queue_call q c in reply ∷ queue_run q' cs

-- A call on a valid buffer answers as the queue of its contents does, and leaves a valid buffer that
-- holds what the queue is left with.
pub call_refines :
    {r : CircularBuffer} (c : Request)
    → IsValid r
    → let (reply, r') = call r c in
      IsValid r' × (size r' ≡ size r) × ((reply, contents r') ≡ queue_call (size r) (contents r) c)
unfolding call queue_call
call_refines {r} (append_all bytes) v =
    rw (length-contents v) (ground (arith, append_all_bytes_lem bytes v))
call_refines {r} (write_some bytes) v = rw (length-contents v) (ground (arith, write_lem bytes v))
call_refines {r} (look n) v = rw (length-contents v) (ground (arith, peek_lem n v))
call_refines {r} (read_out n) v = rw (length-contents v) (ground (arith, read_bytes_lem n v))

-- No sequence of appends, writes, reads and peeks tells a valid buffer from the bounded queue.
pub run_refines :
    (cs : List Request) {r : CircularBuffer}
    → IsValid r
    → run r cs ≡ queue_run (size r) (contents r) cs
unfolding run queue_run
run_refines [] v = refl
run_refines (c ∷ cs) {r} v =
    let (v', same, answer) = call_refines {r = r} c v in rw (run_refines cs v', same, ← answer) refl
