-- ===== src/Ring/Tests.antt =====
-- raiot-buffers/src/lib.rs: runs on small buffers, and the theorems at concrete inputs.
use raiot_rs.Base.{
  ℕ, ◌+◌, ◌≤◌, ◌≡◌, refl, true, false, List, [], ◌∷◌, ◌++◌, length, take, drop, min, IoResult,
  ErrorKind, ok, err, write_zero, Reader, Writer, arith, length-take,
}
use raiot_rs.Ring
use raiot_rs.Ring.{
  CircularBuffer, BufferSlice, consecutive, splitted, read_slice, size, valid_length,
  available_space, get_buffer_slice, peek_remaining, read_bytes, append_all_bytes,
  append_from_reader, write_into, intake_loop, take_in, second_write, finish_write,
  get_next_consecutive_free_space,
}
use raiot_rs.Ring.Valid.{IsValid, available_space-add-valid_length}
use raiot_rs.Ring.Contents.{contents}
use raiot_rs.Ring.Fifo.{
  Request, append_all, write_some, read_out, look, lent, wrote, failed, appended, panicked, run,
  queue_run, call, run_refines,
}
use raiot_rs.Ring.Intake.{Took, append_from_reader_lem}
use raiot_rs.Ring.Drain.{
  Conserves, Steady, write_into-Conserves, write_into_forgets, write_into_skips,
}

-- 1, 2, 3 round the end of a buffer of four.
abbrev wrapped : CircularBuffer
wrapped = record { buffer = 3 ∷ 9 ∷ 1 ∷ 2 ∷ []; read = 2; write = 1; full = false }

abbrev brimful : CircularBuffer
brimful = record { buffer = 1 ∷ 2 ∷ []; read = 0; write = 0; full = true }

wrapped-IsValid : IsValid wrapped
wrapped-IsValid = record {
  positive = omega arith;
  small = omega arith;
  read_in = omega arith;
  write_in = omega arith;
  full_at = λ h. cc;
}

brimful-IsValid : IsValid brimful
brimful-IsValid = record {
  positive = omega arith;
  small = omega arith;
  read_in = omega arith;
  write_in = omega arith;
  full_at = λ h. refl;
}

contents-wrapped : contents wrapped ≡ 1 ∷ 2 ∷ 3 ∷ []
unfolding contents valid_length
contents-wrapped = refl

abbrev script : List Request
script =
    append_all (4 ∷ [])
    ∷ append_all (5 ∷ [])
    ∷ look 2
    ∷ read_out 3
    ∷ write_some (6 ∷ 7 ∷ 8 ∷ 9 ∷ [])
    ∷ read_out 5
    ∷ []

run-wrapped :
    run wrapped script
    ≡ appended
      ∷ failed write_zero
      ∷ lent (1 ∷ 2 ∷ [])
      ∷ lent (1 ∷ 2 ∷ 3 ∷ [])
      ∷ wrote 3
      ∷ panicked
      ∷ []
unfolding run call Ring.write append_all_bytes Ring.peek read_bytes valid_length available_space
    get_buffer_slice
run-wrapped = refl

run_refines_example : run wrapped script ≡ queue_run 4 (contents wrapped) script
run_refines_example = run_refines script wrapped-IsValid

available_space-add-valid_length_example : available_space wrapped + valid_length wrapped ≡ 4
available_space-add-valid_length_example = available_space-add-valid_length wrapped-IsValid

-- A source that hands out what it holds; the state is what is left and what was handed out.
supply_read : ℕ → List ℕ × List ℕ → IoResult (List ℕ) × (List ℕ × List ℕ)
supply_read n (left, out) = (ok (take n left), (drop n left, out ++ take n left))

supply_ok :
    (n : ℕ) (s : List ℕ × List ℕ) (bytes : List ℕ)
    → (supply_read n s).0 ≡ ok bytes
    → (length bytes ≤ n) × ((supply_read n s).1.1 ≡ s.1 ++ bytes)
unfolding supply_read
supply_ok n (left, out) bytes e = ground (arith, length-take n left)

supply_err :
    (n : ℕ) (s : List ℕ × List ℕ) (e : ErrorKind)
    → (supply_read n s).0 ≡ err e
    → (supply_read n s).1.1 ≡ s.1
unfolding supply_read
supply_err n (left, out) e h = cc

abbrev supply : Reader (List ℕ × List ℕ)
supply = record {
  read = supply_read;
  given = λ s. s.1;
  read_le = λ n s bytes e. (supply_ok n s bytes e).0;
  read_given = λ n s bytes e. (supply_ok n s bytes e).1;
  read_failed = supply_err;
}

append_from_reader_lem_example :
    Took supply wrapped (4 ∷ 5 ∷ [], []) 0 (append_from_reader supply wrapped (4 ∷ 5 ∷ [], []))
unfolding available_space
append_from_reader_lem_example =
    append_from_reader_lem supply wrapped (4 ∷ 5 ∷ [], []) wrapped-IsValid

-- A sink that accepts up to `quota` bytes of each call.
sink_write : ℕ → List ℕ → List ℕ → IoResult ℕ × List ℕ
sink_write quota bytes s =
    (ok (min quota (length bytes)), s ++ take (min quota (length bytes)) bytes)

sink_ok :
    (quota : ℕ) (bytes s : List ℕ) (n : ℕ)
    → (sink_write quota bytes s).0 ≡ ok n
    → (n ≤ length bytes) × ((sink_write quota bytes s).1 ≡ s ++ take n bytes)
unfolding sink_write
sink_ok quota bytes s n e = ground arith

sink_err :
    (quota : ℕ) (bytes s : List ℕ) (e : ErrorKind)
    → (sink_write quota bytes s).0 ≡ err e
    → (sink_write quota bytes s).1 ≡ s
unfolding sink_write
sink_err quota bytes s e h = cc

abbrev sink : ℕ → Writer (List ℕ)
sink quota = record {
  write = sink_write quota;
  sent = λ s. s;
  write_le = λ bytes s n e. (sink_ok quota bytes s n e).0;
  write_sent = λ bytes s n e. (sink_ok quota bytes s n e).1;
  write_failed = sink_err quota;
}

wide-Steady : Steady (sink 8) wrapped [] (peek_remaining wrapped)
unfolding peek_remaining get_buffer_slice valid_length sink_write
wide-Steady n e = ground arith

write_into-Conserves_example : Conserves (sink 8) wrapped [] (write_into (sink 8) wrapped [])
write_into-Conserves_example = write_into-Conserves (sink 8) wrapped [] wrapped-IsValid wide-Steady

write_into_forgets_example :
    (contents (write_into (sink 0) brimful []).1 ≡ []) × ((write_into (sink 0) brimful []).2 ≡ [])
unfolding peek_remaining get_buffer_slice valid_length sink_write
write_into_forgets_example =
    write_into_forgets (sink 0) brimful [] (1 ∷ 2 ∷ []) brimful-IsValid refl refl refl

-- One byte of each part goes out, 1 and 3, while 1 and 2 are dropped.
write_into_skips_example :
    let (res, r, s) = write_into (sink 1) wrapped [] in
    (res ≡ ok 2) × (s ≡ 1 ∷ 3 ∷ []) × (contents r ≡ 3 ∷ [])
unfolding peek_remaining get_buffer_slice valid_length sink_write
write_into_skips_example =
    write_into_skips (sink 1) wrapped [] (1 ∷ 2 ∷ []) (3 ∷ []) 1 1 wrapped-IsValid refl refl refl
      (omega arith)
