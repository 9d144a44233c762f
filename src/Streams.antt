-- ===== src/Streams.antt =====
-- raiot-streams/src/lib.rs: reading from and writing to the TLS stream of a client, which does not
-- block. The stream of the native_tls crate is a reader and a writer over a state.
pub mod Writing
pub mod Reading
pub mod Opening
mod Tests
use raiot_rs.Base.{
  ℕ, zero, suc, ◌*◌, ◌==◌, ◌++◌, ◌-◌, List, [], ◌∷◌, Option, none, some, length, drop, replicate,
  leb, if◌then◌else◌, IoResult, ErrorKind, would_block, interrupted, write_zero, connection_reset,
  timed_out, ok, err, Call, returns, panics, Reader, Writer,
}

abbrev pub Sends : Type 0 → Type 0
Sends S = Option (IoResult (Unit {0}) × S)

-- What `write_all` does with the result of one write of `buf`.
unfoldable pub write_round :
    {S : Type 0} → IoResult ℕ → S → List ℕ → (List ℕ → S → Sends S) → Sends S
write_round (ok zero) s buf again = some (err write_zero, s)
write_round (ok (suc n)) s buf again = again (drop (suc n) buf) s
write_round (err interrupted) s buf again = again buf s
write_round (err e) s buf again = some (err e, s)

-- `Write::write_all` of std: it goes on after an interruption, and `Ok(0)` is an error. `none` means
-- that the fuel, a number of writes, ran out.
unfoldable pub write_all : {S : Type 0} → Writer S → ℕ → List ℕ → S → Sends S
unfolding write_round
write_all io zero buf s = none
write_all io (suc fuel) [] s = some (ok tt, s)
write_all io (suc fuel) (b ∷ bs) s =
    write_round (io.write (b ∷ bs) s).0 (io.write (b ∷ bs) s).1 (b ∷ bs)
      (λ buf s'. write_all io fuel buf s')

module _ {S : Type 0} where
  -- What `try_send` does with the result of a `write_all`; `again` is the next round of its loop.
  pub try_send_round : Sends S → (S → Sends S) → Sends S
  try_send_round none again = none
  try_send_round (some (ok _, s)) again = some (ok tt, s)
  try_send_round (some (err interrupted, s)) again = again s
  try_send_round (some (err e, s)) again = some (err e, s)

  -- What `send` does with it.
  pub send_round : Sends S → (S → Sends S) → Sends S
  send_round none again = none
  send_round (some (ok _, s)) again = some (ok tt, s)
  send_round (some (err interrupted, s)) again = again s
  send_round (some (err would_block, s)) again = again s
  send_round (some (err e, s)) again = some (err e, s)

module _ {S : Type 0} (io : Writer S) where
  -- `try_send`, for so many rounds of at most `writes` writes each.
  unfoldable pub try_send : ℕ → ℕ → List ℕ → S → Sends S
  unfolding try_send_round
  try_send zero writes buf s = none
  try_send (suc rounds) writes buf s =
      try_send_round (write_all io writes buf s) (λ s'. try_send rounds writes buf s')

  -- `send`, which sleeps and tries again where the stream would block.
  unfoldable pub send : ℕ → ℕ → List ℕ → S → Sends S
  unfolding send_round
  send zero writes buf s = none
  send (suc rounds) writes buf s =
      send_round (write_all io writes buf s) (λ s'. send rounds writes buf s')

abbrev pub Reads : Type 0 → Type 0 → Type 0
Reads S A = Option (IoResult A × S)

abbrev pub read_size : ℕ
read_size = 1024 * 1024

-- The buffer of zeros after a read that put `bytes` at its start.
abbrev pub filled : List ℕ → List ℕ
filled bytes = bytes ++ replicate (read_size - length bytes) 0

module _ {S : Type 0} where
  -- What `try_read_into_buffer` does with the result of one read: a stream that would block counts as
  -- no bytes, and no bytes are the end of the connection.
  pub buffer_round : IoResult (List ℕ) → S → (S → Reads S (List ℕ)) → Reads S (List ℕ)
  buffer_round (ok []) s again = some (err connection_reset, s)
  buffer_round (ok (b ∷ bs)) s again = some (ok (b ∷ bs), s)
  buffer_round (err interrupted) s again = again s
  buffer_round (err would_block) s again = some (ok [], s)
  buffer_round (err e) s again = some (err e, s)

  -- What `try_read` does with it.
  pub read_round :
      IoResult (List ℕ) → S → (S → Reads S (Option (List ℕ))) → Reads S (Option (List ℕ))
  read_round (ok []) s again = some (err connection_reset, s)
  read_round (ok (b ∷ bs)) s again = some (ok (some (b ∷ bs)), s)
  read_round (err interrupted) s again = again s
  read_round (err would_block) s again = some (ok none, s)
  read_round (err e) s again = some (err e, s)

  -- What `read_blocking` does with it.
  pub blocking_round : IoResult (List ℕ) → S → (S → Reads S (List ℕ)) → Reads S (List ℕ)
  blocking_round (ok bytes) s again = some (ok (filled bytes), s)
  blocking_round (err interrupted) s again = again s
  blocking_round (err would_block) s again = again s
  blocking_round (err e) s again = some (err e, s)

module _ {S : Type 0} (io : Reader S) where
  -- `try_read_into_buffer` with a buffer of `n` bytes
  unfoldable pub try_read_into_buffer : ℕ → ℕ → S → Reads S (List ℕ)
  unfolding buffer_round
  try_read_into_buffer zero n s = none
  try_read_into_buffer (suc fuel) n s =
      buffer_round (io.read n s).0 (io.read n s).1 (λ s'. try_read_into_buffer fuel n s')

  -- `try_read`
  unfoldable pub try_read : ℕ → S → Reads S (Option (List ℕ))
  unfolding read_round
  try_read zero s = none
  try_read (suc fuel) s =
      read_round (io.read read_size s).0 (io.read read_size s).1 (λ s'. try_read fuel s')

  -- `read_blocking`
  unfoldable pub read_blocking : ℕ → S → Reads S (List ℕ)
  unfolding blocking_round
  read_blocking zero s = none
  read_blocking (suc fuel) s =
      blocking_round (io.read read_size s).0 (io.read read_size s).1 (λ s'. read_blocking fuel s')

-- `handshake` of native_tls: done, not ready, or failed. `T` are streams in the middle of the handshake.
pub data Shaken (T S : Type 0) : Type 0 where
  connected : S → Shaken T S
  unready : T → Shaken T S
  broken : Shaken T S

module _ {T S : Type 0} (handshake : T → Shaken T S) (clock : ℕ → ℕ) (timeout : ℕ) where
  -- `handshake_loop`, where `clock k` is the time that has passed at the k-th look at the clock.
  unfoldable pub handshake_loop : ℕ → ℕ → T → Option (Call (IoResult S))
  handshake_loop zero k t = none
  handshake_loop (suc fuel) k t = elim (handshake t) [
    | connected s ↦ some (returns (ok s))
    | broken ↦ some panics
    | unready t' ↦
        let rest = handshake_loop fuel (suc k) t' in
        if leb timeout (clock k) then some (returns (err timed_out)) else rest
  ]

  -- `open_nonblocking_tls_stream`; `begin` is `connect` of native_tls with its certificate.
  unfoldable pub open_nonblocking_tls_stream :
      {C : Type 0} → (C → Shaken T S) → ℕ → C → Option (Call (IoResult S))
  unfolding handshake_loop
  open_nonblocking_tls_stream begin fuel c = elim (begin c) [
    | connected s ↦ some (returns (ok s))
    | unready t ↦ handshake_loop fuel 0 t
    | broken ↦ some panics
  ]
