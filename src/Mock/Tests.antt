-- ===== src/Mock/Tests.antt =====
-- raiot-test-utils/src/lib.rs: a pair of sockets, and the theorems at concrete inputs.
use mathlib.Core.List.{flatten}
use raiot_rs.Base.{◌≡◌, refl, true, false, [], ◌∷◌, ok, returns, panics, arith}
use raiot_rs.Ring
use raiot_rs.Ring.{CircularBuffer, valid_length}
use raiot_rs.Ring.Valid.{IsValid}
use raiot_rs.Ring.Contents.{contents}
use raiot_rs.Socket.{Channel}
use raiot_rs.Mock.{
  MockSocket, push_data, push_read_ctl, client_read, client_read_from_buffer, client_result, fetch,
  client_fetched, handed_out, lend, server_read, server_fetched, store_all, stored,
}
use raiot_rs.Mock.Reading.{to_come, push_data-client_read}

abbrev open_channel : {A : Type 0} → Channel A
open_channel = record { waiting = []; connected = true }

-- One byte, 9, is in the client's buffer.
abbrev pair_of : MockSocket
pair_of = record {
  to_client = open_channel;
  to_server = open_channel;
  read_ctl = open_channel;
  write_ctl = open_channel;
  client_buf = record { buffer = 0 ∷ 0 ∷ 9 ∷ 0 ∷ 0 ∷ []; read = 2; write = 3; full = false };
  server_buf = record { buffer = 0 ∷ 0 ∷ []; read = 0; write = 0; full = false };
}

pair_of-IsValid : IsValid pair_of.client_buf
pair_of-IsValid = record {
  positive = omega arith;
  small = omega arith;
  read_in = omega arith;
  write_in = omega arith;
  full_at = λ h. cc;
}

abbrev pushed : MockSocket
pushed = record pair_of { to_client = record { waiting = (1 ∷ 2 ∷ 3 ∷ []) ∷ []; connected = true } }

abbrev allowed : MockSocket
allowed = record pushed { read_ctl = record { waiting = ok 3 ∷ []; connected = true } }

push_data-pair_of : push_data (1 ∷ 2 ∷ 3 ∷ []) pair_of ≡ returns pushed
unfolding push_data
push_data-pair_of = refl

push_read_ctl-pushed : push_read_ctl (ok 3) pushed ≡ returns allowed
unfolding push_read_ctl
push_read_ctl-pushed = refl

push_data-client_read_example :
    (m : MockSocket) × (client_read (0 ∷ 0 ∷ 0 ∷ 7 ∷ []) allowed
      ≡ returns ((ok 3, 9 ∷ 1 ∷ 2 ∷ 7 ∷ []), m))
    × (to_come m ≡ 3 ∷ [])
    × IsValid m.client_buf
unfolding contents valid_length flatten
push_data-client_read_example =
    push_data-client_read (1 ∷ 2 ∷ 3 ∷ []) (0 ∷ 0 ∷ 0 ∷ 7 ∷ []) 3 pair_of pushed allowed
      pair_of-IsValid refl (omega arith) (omega arith) (omega arith) push_data-pair_of
      push_read_ctl-pushed

-- One byte is there and three are allowed: three is the number returned.
reads_too_many :
    client_read (0 ∷ 0 ∷ 0 ∷ []) (record pair_of { read_ctl = allowed.read_ctl })
    ≡ returns (
      (ok 3, 9 ∷ 0 ∷ 0 ∷ []),
      record pair_of { client_buf = record pair_of.client_buf { read = 3 } },
    )
unfolding client_read client_read_from_buffer client_result fetch client_fetched handed_out lend
    Ring.read_bytes Ring.read_slice Ring.get_buffer_slice valid_length
reads_too_many = refl

-- One byte is there for the server's end, which has room for two.
server_panics :
    server_read 2
      (record pair_of { to_server = record { waiting = (5 ∷ []) ∷ []; connected = true } })
    ≡ panics
unfolding server_read fetch store_all stored server_fetched lend Ring.write Ring.append_all_bytes
    Ring.read_bytes Ring.read_slice Ring.get_buffer_slice Ring.available_space valid_length
server_panics = refl
