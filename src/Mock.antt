-- ===== src/Mock.antt =====
-- raiot-test-utils/src/lib.rs: a pair of sockets for tests. The server's end decides how much each call
-- of the client's end may move, and with what error it fails.
pub mod Fetching
pub mod Reading
mod Tests
use raiot_rs.Base.{
  ℕ, zero, suc, ◌+◌, ◌*◌, ◌==◌, min, ltb, if◌then◌else◌, Bool, true, List, [], ◌∷◌, ◌++◌, Option,
  none, some, length, take, drop, IoResult, would_block, ok, err, Call, returns, panics,
}
use raiot_rs.Ring
use raiot_rs.Ring.{CircularBuffer, BufferSlice, read_slice, read_bytes, valid_length}
use raiot_rs.Socket.{Channel, put, Received, got, empty, disconnected, try_recv}
use raiot_rs.Streams.{Sends, write_round}

-- The channels between `MockClientSocket` and `MockServerSocket`, with the buffer of each.
pub record MockSocket : Type 0 where
  pub to_client : Channel (List ℕ)
  pub to_server : Channel (List ℕ)
  pub read_ctl : Channel (IoResult ℕ)
  pub write_ctl : Channel (IoResult ℕ)
  pub client_buf : CircularBuffer
  pub server_buf : CircularBuffer

abbrev pub buf_size : ℕ
buf_size = 1024 * 1024

abbrev open_channel : {A : Type 0} → Channel A
open_channel = record { waiting = []; connected = true }

abbrev joined : CircularBuffer → CircularBuffer → MockSocket
joined client server = record {
  to_client = open_channel;
  to_server = open_channel;
  read_ctl = open_channel;
  write_ctl = open_channel;
  client_buf = client;
  server_buf = server;
}

-- `MockSocket::create`
unfoldable pub create : Call MockSocket
create = elim (Ring.new buf_size) [
  | panics ↦ panics
  | returns client ↦ elim (Ring.new buf_size) [
    | panics ↦ panics
    | returns server ↦ returns (joined client server)
  ]
]

-- `Write::write_all` of std over `CircularBuffer`, on fuel for its writes.
unfoldable pub store_all : ℕ → List ℕ → CircularBuffer → Sends CircularBuffer
unfolding write_round
store_all zero buf r = none
store_all (suc fuel) [] r = some (ok tt, r)
store_all (suc fuel) (b ∷ bs) r =
    write_round (Ring.write r (b ∷ bs)).0 (Ring.write r (b ∷ bs)).1 (b ∷ bs)
      (λ buf r'. store_all fuel buf r')

-- What `unwrap` makes of it.
unfoldable pub stored : Sends CircularBuffer → Call CircularBuffer
stored (some (ok _, r)) = returns r
stored _ = panics

-- The loop of `read_from_buffer`, of either end: it moves what waits in the channel into the buffer, until
-- that holds `wanted` bytes.
unfoldable pub fetch :
    ℕ → List (List ℕ) → Bool → CircularBuffer → Call (List (List ℕ) × CircularBuffer)
unfolding store_all stored
fetch wanted [] connected r =
    if ltb (valid_length r) wanted
    then if connected then returns ([], r) else panics
    else returns ([], r)
fetch wanted (bytes ∷ more) connected r =
    if ltb (valid_length r) wanted
    then elim (stored (store_all (suc (length bytes)) bytes r)) [
      | panics ↦ panics
      | returns r' ↦ fetch wanted more connected r'
    ]
    else returns (bytes ∷ more, r)

-- `read_exact` of std on a slice; a read of a slice gives all that it can, so there is nothing after a
-- short one.
abbrev pub read_exact : ℕ → BufferSlice → Option (List ℕ)
read_exact n slice =
    if length (read_slice n slice).0 == n then some (read_slice n slice).0 else none

-- The bytes for a buffer of `room` bytes, out of one that holds enough or too little: a slice is taken,
-- and `exactly` so many bytes are read from it.
unfoldable pub lend : ℕ → ℕ → CircularBuffer → Call (List ℕ × CircularBuffer)
lend taken exactly r = elim (read_bytes r taken) [
  | panics ↦ panics
  | returns (slice, r') ↦ elim (read_exact exactly slice) [
    | none ↦ panics
    | some bytes ↦ returns (bytes, r')
  ]
]

unfoldable pub handed_out :
    List (List ℕ) → MockSocket → Call (List ℕ × CircularBuffer) → Call (List ℕ × MockSocket)
handed_out waiting m panics = panics
handed_out waiting m (returns (bytes, r)) =
    returns
      (bytes, record m { to_client = record m.to_client { waiting = waiting }; client_buf = r })

-- What `MockClientSocket::read_from_buffer` does after its loop: it hands out what there is.
unfoldable pub client_fetched :
    ℕ → Call (List (List ℕ) × CircularBuffer) → MockSocket → Call (List ℕ × MockSocket)
unfolding lend handed_out
client_fetched wanted panics m = panics
client_fetched wanted (returns (waiting, r)) m =
    handed_out waiting m (lend (min (valid_length r) wanted) (min (valid_length r) wanted) r)

-- `MockClientSocket::read_from_buffer`, with the bytes that go to the start of the caller's buffer.
unfoldable pub client_read_from_buffer : ℕ → MockSocket → Call (List ℕ × MockSocket)
unfolding fetch client_fetched
client_read_from_buffer wanted m =
    client_fetched wanted (fetch wanted m.to_client.waiting m.to_client.connected m.client_buf) m

-- What `read` of `MockClientSocket` returns, with the caller's buffer: the number of bytes that it was
-- allowed to read, whether or not there were as many.
unfoldable pub client_result :
    ℕ → List ℕ → Call (List ℕ × MockSocket) → Call ((IoResult ℕ × List ℕ) × MockSocket)
client_result read_size buf panics = panics
client_result read_size buf (returns (bytes, m)) =
    returns ((ok read_size, bytes ++ drop (length bytes) buf), m)

-- `read` of `MockClientSocket`, with the caller's buffer before and after
unfoldable pub client_read : List ℕ → MockSocket → Call ((IoResult ℕ × List ℕ) × MockSocket)
unfolding client_read_from_buffer client_result
client_read buf m = elim (try_recv m.read_ctl) [
  | got (ok allowed) ctl ↦
      let read_size = min (length buf) allowed in
      client_result read_size buf (client_read_from_buffer read_size (record m { read_ctl = ctl }))
  | got (err e) ctl ↦ returns ((err e, buf), record m { read_ctl = ctl })
  | empty ↦ returns ((err would_block, buf), m)
  | disconnected ↦ panics
]

-- `write` of `MockClientSocket`
unfoldable pub client_write : List ℕ → MockSocket → Call (IoResult ℕ × MockSocket)
client_write buf m = elim (try_recv m.write_ctl) [
  | empty ↦ returns (err would_block, m)
  | disconnected ↦ panics
  | got (ok size) ctl ↦
      let send_size = min (length buf) size in
      elim (put m.to_server (take send_size buf)) [
        | none ↦ panics
        | some ch ↦ returns (ok send_size, record m { write_ctl = ctl; to_server = ch })
      ]
  | got (err e) ctl ↦ returns (err e, record m { write_ctl = ctl })
]

-- `push_read_ctl`, `push_write_ctl` and `push_data` of `MockServerSocket`
unfoldable pub push_read_ctl : IoResult ℕ → MockSocket → Call MockSocket
push_read_ctl ctl m = elim (put m.read_ctl ctl) [
  | none ↦ panics
  | some ch ↦ returns (record m { read_ctl = ch })
]

unfoldable pub push_write_ctl : IoResult ℕ → MockSocket → Call MockSocket
push_write_ctl ctl m = elim (put m.write_ctl ctl) [
  | none ↦ panics
  | some ch ↦ returns (record m { write_ctl = ch })
]

unfoldable pub push_data : List ℕ → MockSocket → Call MockSocket
push_data buf m = elim (put m.to_client buf) [
  | none ↦ panics
  | some ch ↦ returns (record m { to_client = ch })
]

-- What `MockServerSocket::read_from_buffer` does after its loop. The caller's buffer of `room` bytes must
-- be filled.
unfoldable pub server_fetched :
    ℕ → Call (List (List ℕ) × CircularBuffer) → MockSocket → Call ((ℕ × List ℕ) × MockSocket)
unfolding lend
server_fetched room panics m = panics
server_fetched room (returns (waiting, r)) m =
    let n = min room (valid_length r) in
    elim (lend n room r) [
      | panics ↦ panics
      | returns (bytes, r') ↦ returns (
        (n, bytes),
        record m { to_server = record m.to_server { waiting = waiting }; server_buf = r' },
      )
    ]

-- `read` of `MockServerSocket`, into a buffer of `room` bytes
unfoldable pub server_read : ℕ → MockSocket → Call ((ℕ × List ℕ) × MockSocket)
unfolding fetch server_fetched
server_read room m =
    server_fetched room (fetch room m.to_server.waiting m.to_server.connected m.server_buf) m
