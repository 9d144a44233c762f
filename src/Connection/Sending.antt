-- ===== src/Connection/Sending.antt =====
-- raiot-mqtt/src/connection.rs: `send_task` ends by its deadline, and sends what waits in order.
use raiot_rs.Base.{
  ℕ, zero, suc, ◌+◌, ◌≤◌, ◌<◌, ◌≡◌, refl, inl, inr, ◌++◌, Option, some, IoResult, would_block,
  interrupted, ok, err, Writer, arith, leb, Bool-cases,
}
use raiot_rs.Ring
use raiot_rs.Ring.{size, valid_length, peek_remaining, write_into}
use raiot_rs.Ring.Valid.{IsValid}
use raiot_rs.Ring.Contents.{contents}
use raiot_rs.Ring.Drain.{Steady}
use raiot_rs.Packets.{is_empty}
use raiot_rs.Connection.Clock.{later}
use raiot_rs.Connection.{MqttConnection, after_write, send_loop, send_task}

module _ {S : Type 0} (io : Writer S) where
  -- The connection after one write of what waits.
  abbrev pub after_one : MqttConnection S → MqttConnection S
  after_one c = record c {
    streamer = record { buffer = (write_into io c.streamer.buffer c.stream).1 };
    stream = (write_into io c.streamer.buffer c.stream).2;
  }

  -- In the next `k` rounds from `c` the writer takes the first part of a split slice whole or not at all,
  -- and does not answer a full buffer by Ok(0).
  abbrev pub SteadyFor : ℕ → MqttConnection S → Type 0
  SteadyFor zero c = Unit {0}
  SteadyFor (suc k) c =
      Steady io c.streamer.buffer c.stream (peek_remaining c.streamer.buffer)
      × SteadyFor k (after_one c)

  -- The task has ended, and the incoming bytes are as they were.
  pub record Over (c : MqttConnection S) (run : Option (IoResult ℕ × MqttConnection S))
      : Type 0 where
    pub res : IoResult ℕ
    pub after : MqttConnection S
    pub ended : run ≡ some (res, after)
    pub incoming : after.packetizer ≡ c.packetizer

  -- The task has ended: no byte is lost, doubled or moved, a number that it returns is the number of bytes
  -- that still wait, and the incoming bytes are as they were.
  pub record Finished (c : MqttConnection S) (run : Option (IoResult ℕ × MqttConnection S))
      : Type 0 where
    pub res : IoResult ℕ
    pub after : MqttConnection S
    pub ended : run ≡ some (res, after)
    pub valid : IsValid after.streamer.buffer
    pub same : size after.streamer.buffer ≡ size c.streamer.buffer
    pub kept :
        io.sent after.stream ++ contents after.streamer.buffer
        ≡ io.sent c.stream ++ contents c.streamer.buffer
    pub pending : (n : ℕ) → res ≡ ok n → n ≡ valid_length after.streamer.buffer
    pub incoming : after.packetizer ≡ c.packetizer

  module _ (clock : ℕ → ℕ) (timeout : ℕ) where
    zero_add : (n : ℕ) → 0 + n ≡ n
    zero_add n = omega arith

    after_write-Over :
        (res : IoResult ℕ) (c : MqttConnection S) (rest : Option (IoResult ℕ × MqttConnection S))
        → Over (after_one c) rest
        → Over c (after_write io clock timeout res (after_one c) rest)
    unfolding after_write
    after_write-Over (ok n) c rest o = record {
      res = o.res;
      after = o.after;
      ended = o.ended;
      incoming = o.incoming;
    }
    after_write-Over (err interrupted) c rest o = record {
      res = o.res;
      after = o.after;
      ended = o.ended;
      incoming = o.incoming;
    }
    after_write-Over (err would_block) c rest o = record {
      res = _;
      after = after_one c;
      ended = refl;
      incoming = refl;
    }
    after_write-Over (err e) c rest o = record {
      res = err e;
      after = after_one c;
      ended = refl;
      incoming = refl;
    }

    send_loop-Over :
        (fuel k n : ℕ) (c : MqttConnection S)
        → n < fuel
        → timeout ≤ clock (k + n)
        → Over c (send_loop io clock timeout fuel k c)
    unfolding send_loop
    send_loop-Over zero k n c h late = absurd (omega arith)
    send_loop-Over (suc fuel) k n c h late = elim (Bool-cases (leb timeout (clock k))) [
      | inl over ↦ rw over (record { res = _; after = c; ended = refl; incoming = refl })
      | inr early ↦ elim (Bool-cases (is_empty c.streamer)) [
        | inl done ↦ rw (early, done) (record { res = _; after = c; ended = refl; incoming = refl })
        | inr more ↦
            rw (early, more)
              (after_write-Over (write_into io c.streamer.buffer c.stream).0 c
                (send_loop io clock timeout fuel (suc k) (after_one c))
                (later clock timeout k n early late
                  (λ m same e. send_loop-Over fuel (suc k) m (after_one c) (omega arith) e)))
      ]
    ]

  -- Whatever the writer does, `send_task` ends.
  pub send_task-Over :
      (clock : ℕ → ℕ) (timeout looks n : ℕ) (c : MqttConnection S)
      → n < looks
      → timeout ≤ clock n
      → Over c (send_task io clock timeout looks c)
  unfolding send_task
  send_task-Over clock timeout looks n c h late =
      send_loop-Over clock timeout looks 0 n c h (rw (zero_add clock timeout n) late)
