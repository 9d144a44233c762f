-- ===== src/Streams/Tests.antt =====
-- raiot-streams/src/lib.rs: a stream that takes two bytes at a time, and the theorems on it.
use raiot_rs.Base.{
  panics, ℕ, zero, suc, ◌≤◌, ◌<◌, ◌≡◌, refl, sym, ap, min, List, [], ◌∷◌, ◌++◌, some, length, take,
  drop, IoResult, ErrorKind, interrupted, would_block, ok, err, Reader, Writer, length-take,
  take_all, arith,
}
use raiot_rs.Streams.{write_all, try_send, send, try_read_into_buffer}
use raiot_rs.Streams.Opening.{
  TcpCalls, open_nonblocking_stream, open_tcp_stream, with_addrs, with_stream, after_tcp,
}
use raiot_rs.Protocol.Text.{codes}
use raiot_rs.Streams.{connected, broken}
use raiot_rs.Streams.Writing
use raiot_rs.Streams.Writing.{Wrote, try_send-Wrote, send_repeats}
use raiot_rs.Streams.Reading
use raiot_rs.Streams.Reading.{Took, try_read_into_buffer-Took}

-- The calls to come: an interruption, a stream that would block, or so many bytes.
data Answer : Type 0 where
  stops blocks : Answer
  takes : ℕ → Answer

abbrev Wire : Type 0
Wire = List Answer × List ℕ

wire_write : List ℕ → Wire → IoResult ℕ × Wire
wire_write bytes ([], out) = (ok (length bytes), ([], out ++ bytes))
wire_write bytes (stops ∷ more, out) = (err interrupted, (more, out))
wire_write bytes (blocks ∷ more, out) = (err would_block, (more, out))
wire_write bytes (takes n ∷ more, out) =
    (ok (min n (length bytes)), (more, out ++ take (min n (length bytes)) bytes))

wire_le : (bytes : List ℕ) (s : Wire) (n : ℕ) → (wire_write bytes s).0 ≡ ok n → n ≤ length bytes
unfolding wire_write
wire_le bytes ([], out) n e = ground arith
wire_le bytes (stops ∷ more, out) n e = cc
wire_le bytes (blocks ∷ more, out) n e = cc
wire_le bytes (takes k ∷ more, out) n e = ground arith

wire_sent :
    (bytes : List ℕ) (s : Wire) (n : ℕ)
    → (wire_write bytes s).0 ≡ ok n
    → (wire_write bytes s).1.1 ≡ s.1 ++ take n bytes
unfolding wire_write
wire_sent bytes ([], out) n e = ap (◌++◌ out) (sym (take_all n bytes (ground arith)))
wire_sent bytes (stops ∷ more, out) n e = cc
wire_sent bytes (blocks ∷ more, out) n e = cc
wire_sent bytes (takes k ∷ more, out) n e =
    let same : min k (length bytes) ≡ n = ground arith in rw same refl

wire_failed :
    (bytes : List ℕ) (s : Wire) (e : ErrorKind)
    → (wire_write bytes s).0 ≡ err e
    → (wire_write bytes s).1.1 ≡ s.1
unfolding wire_write
wire_failed bytes ([], out) x e = cc
wire_failed bytes (stops ∷ more, out) x e = refl
wire_failed bytes (blocks ∷ more, out) x e = refl
wire_failed bytes (takes k ∷ more, out) x e = cc

abbrev wire : Writer Wire
wire = record {
  write = wire_write;
  sent = λ s. s.1;
  write_le = wire_le;
  write_sent = wire_sent;
  write_failed = wire_failed;
}

wire_interruption :
    (bytes : List ℕ) (s : Wire)
    → (wire_write bytes s).0 ≡ err interrupted
    → length (wire_write bytes s).1.0 < length s.0
unfolding wire_write
wire_interruption bytes ([], out) e = cc
wire_interruption bytes (a ∷ more, out) e = ground arith

wire_acceptance :
    (bytes : List ℕ) (s : Wire) (n : ℕ)
    → (wire_write bytes s).0 ≡ ok n
    → length (wire_write bytes s).1.0 ≤ length s.0
unfolding wire_write
wire_acceptance bytes ([], out) n e = omega arith
wire_acceptance bytes (a ∷ more, out) n e = ground arith

abbrev wire_patience : Writing.IsPatient wire
wire_patience = record {
  left = λ s. length s.0;
  interruption = wire_interruption;
  acceptance = wire_acceptance;
}

abbrev hindered : Wire
hindered = (takes 2 ∷ stops ∷ blocks ∷ [], [])

abbrev body : List ℕ
body = 1 ∷ 2 ∷ 3 ∷ []

abbrev started : List ℕ
started = 1 ∷ 2 ∷ []

abbrev doubled : List ℕ
doubled = 1 ∷ 2 ∷ 1 ∷ 2 ∷ 3 ∷ []

-- Two of three bytes are taken before the stream would block.
try_send_hindered : try_send wire 1 9 body hindered ≡ some (err would_block, ([], started))
unfolding try_send write_all wire_write
try_send_hindered = refl

try_send-Wrote_example : Wrote wire hindered body (try_send wire 1 9 body hindered)
try_send-Wrote_example = try_send-Wrote wire wire_patience 0 9 body hindered (omega arith)

first_try : write_all wire 9 body hindered ≡ some (err would_block, ([], started))
unfolding write_all wire_write
first_try = refl

second_try : write_all wire 9 body ([], started) ≡ some (ok tt, ([], doubled))
unfolding write_all wire_write
second_try = refl

send_repeats_example :
    (k : ℕ) × (started ≡ take k body)
    × (send wire 2 9 body hindered ≡ some (ok tt, ([], doubled)))
    × (doubled ≡ take k body ++ body)
send_repeats_example =
    send_repeats wire wire_patience 0 9 body hindered ([], started) ([], doubled) (omega arith)
      (omega arith) first_try second_try

-- A source that holds bytes to come and those it has handed out, after so many interruptions.
abbrev Source : Type 0
Source = ℕ × List ℕ × List ℕ

source_read : ℕ → Source → IoResult (List ℕ) × Source
source_read n (zero, coming, out) = (ok (take n coming), (0, drop n coming, out ++ take n coming))
source_read n (suc k, coming, out) = (err interrupted, (k, coming, out))

source_le :
    (n : ℕ) (s : Source) (bytes : List ℕ) → (source_read n s).0 ≡ ok bytes → length bytes ≤ n
unfolding source_read
source_le n (zero, coming, out) bytes e = ground (arith, length-take n coming)
source_le n (suc k, coming, out) bytes e = cc

source_given :
    (n : ℕ) (s : Source) (bytes : List ℕ)
    → (source_read n s).0 ≡ ok bytes
    → (source_read n s).1.2 ≡ s.2 ++ bytes
unfolding source_read
source_given n (zero, coming, out) bytes e = let same : take n coming ≡ bytes = cc in rw same refl
source_given n (suc k, coming, out) bytes e = cc

source_failed :
    (n : ℕ) (s : Source) (e : ErrorKind) → (source_read n s).0 ≡ err e → (source_read n s).1.2 ≡ s.2
unfolding source_read
source_failed n (zero, coming, out) x e = cc
source_failed n (suc k, coming, out) x e = refl

abbrev source : Reader Source
source = record {
  read = source_read;
  given = λ s. s.2;
  read_le = source_le;
  read_given = source_given;
  read_failed = source_failed;
}

source_interruption :
    (n : ℕ) (s : Source) → (source_read n s).0 ≡ err interrupted → (source_read n s).1.0 < s.0
unfolding source_read
source_interruption n (zero, coming, out) e = cc
source_interruption n (suc k, coming, out) e = omega arith

abbrev source_patience : Reading.IsPatient source
source_patience = record { left = λ s. s.0; interruption = source_interruption }

try_read_into_buffer-Took_example :
    Took source 2 (1, 5 ∷ 6 ∷ 7 ∷ [], []) (try_read_into_buffer source 2 2 (1, 5 ∷ 6 ∷ 7 ∷ [], []))
try_read_into_buffer-Took_example =
    try_read_into_buffer-Took source source_patience 2 2 (1, 5 ∷ 6 ∷ 7 ∷ [], []) (omega arith)

-- A connection that takes 30 milliseconds of the 20 that are allowed.
abbrev slow : TcpCalls ℕ ℕ
slow = record {
  to_socket_addrs = λ text. ok (1 ∷ []);
  connect_timeout = λ addr timeout. ok addr;
  set_read_timeout = λ timeout s. ok s;
  set_nonblocking = λ s. ok s;
}

open_late :
    open_nonblocking_stream slow {T = ℕ}
      (λ c. connected c)
      (λ t. broken)
      (λ k. k)
      5
      30
      (codes "hub")
      8883
      20
    ≡ some panics
unfolding open_nonblocking_stream open_tcp_stream with_addrs with_stream after_tcp
open_late = refl
