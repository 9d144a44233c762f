-- ===== src/Streams/Opening.antt =====
-- raiot-streams/src/lib.rs: opening a stream: TCP first, and TLS over it. What std::net and native_tls do
-- is a parameter.
use raiot_rs.Base.{
  ℕ, ◌-◌, ◌++◌, ltb, if◌then◌else◌, List, [], ◌∷◌, Option, none, some, IoResult, ok, err, Call,
  returns, panics,
}
use raiot_rs.Protocol.Text.{Text, codes, decimal}
use raiot_rs.Streams.{Shaken, open_nonblocking_tls_stream}

-- The calls of std::net, for addresses `A` and TCP streams `C`. Times are in milliseconds.
pub record TcpCalls (A C : Type 0) : Type 0 where
  pub to_socket_addrs : Text → IoResult (List A)
  pub connect_timeout : A → ℕ → IoResult C
  pub set_read_timeout : ℕ → C → IoResult C
  pub set_nonblocking : C → IoResult C

module _ {A C : Type 0} (tcp : TcpCalls A C) where
  open tcp use {to_socket_addrs, connect_timeout, set_read_timeout, set_nonblocking}

  abbrev server_socket : Text → ℕ → Text
  server_socket addr port = addr ++ codes ":" ++ decimal port

  -- What `open_tcp_stream` does with the stream.
  unfoldable pub with_stream : IoResult C → Call (IoResult C)
  with_stream (err e) = returns (err e)
  with_stream (ok stream) = returns (set_read_timeout 1000 stream)

  -- And with the addresses: the first one counts, and there has to be one.
  unfoldable pub with_addrs : ℕ → IoResult (List A) → Call (IoResult C)
  unfolding with_stream
  with_addrs timeout (err e) = returns (err e)
  with_addrs timeout (ok []) = panics
  with_addrs timeout (ok (addr ∷ more)) = with_stream (connect_timeout addr timeout)

  unfoldable pub open_tcp_stream : Text → ℕ → ℕ → Call (IoResult C)
  unfolding with_addrs
  open_tcp_stream addr port timeout = with_addrs timeout (to_socket_addrs (server_socket addr port))

  -- `open_tls_stream`, over `connect` of native_tls, the result of which is unwrapped.
  unfoldable pub open_tls_stream : {S : Type 0} → (C → Option S) → C → Call (IoResult S)
  open_tls_stream connect stream = elim (connect stream) [ none ↦ panics | some s ↦ returns (ok s) ]

  -- `open_stream`, which blocks.
  unfoldable pub open_stream : {S : Type 0} → (C → Option S) → Text → ℕ → ℕ → Call (IoResult S)
  unfolding open_tcp_stream open_tls_stream
  open_stream connect addr port timeout = elim (open_tcp_stream addr port timeout) [
    | panics ↦ panics
    | returns (err e) ↦ returns (err e)
    | returns (ok stream) ↦ open_tls_stream connect stream
  ]

  module _ {T S : Type 0} (begin : C → Shaken T S) (handshake : T → Shaken T S)
      (clock : ℕ → ℕ) where
    -- What `open_nonblocking_stream` does with the TCP stream, when `elapsed` has passed since the start: the
    -- difference of the two durations panics when it would be negative.
    unfoldable pub after_tcp : ℕ → ℕ → ℕ → Call (IoResult C) → Option (Call (IoResult S))
    after_tcp fuel elapsed timeout panics = some panics
    after_tcp fuel elapsed timeout (returns (err e)) = some (returns (err e))
    after_tcp fuel elapsed timeout (returns (ok stream)) = elim (set_nonblocking stream) [
      | err e ↦ some (returns (err e))
      | ok stream' ↦
          if ltb timeout elapsed
          then some panics
          else open_nonblocking_tls_stream handshake clock (timeout - elapsed) begin fuel stream'
    ]

    -- `open_nonblocking_stream`, with the fuel of the handshake
    unfoldable pub open_nonblocking_stream : ℕ → ℕ → Text → ℕ → ℕ → Option (Call (IoResult S))
    unfolding after_tcp open_tcp_stream
    open_nonblocking_stream fuel elapsed addr port timeout =
        if ltb 0 timeout
        then after_tcp fuel elapsed timeout (open_tcp_stream addr port timeout)
        else some panics
