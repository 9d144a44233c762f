-- ===== src/Devices/Tests.antt =====
-- raiot-client/src/lib.rs: the theorem at a concrete input.
use raiot_rs.Base.{ℕ, ◌≡◌, refl, false, [], ◌∷◌, none, some, ◌==◌, if◌then◌else◌, returns}
use raiot_rs.Protocol.Text.{Text, codes}
use raiot_rs.Protocol.Types.{from_device_id}
use raiot_rs.Protocol.Messages.{ok_status, unknown_message, ReadTwinRes, twin_response_message}
use raiot_rs.Socket.{ready}
use raiot_rs.Socket.Ctl.Runs.{second}
use raiot_rs.Devices.{DeviceClient, poll_twin, poll_result, handle_msg, request_twin}
use raiot_rs.Devices.Twins.{arrives, polls, run, twin_answered}

-- Another request waits already, with the identifier "a".
abbrev pump : DeviceClient ℕ Text Text
pump = record {
  id = from_device_id (codes "pump");
  packet_id = record { value = 3 };
  subscribed_to_twin = false;
  awaiting_response = (codes "a", 0) ∷ [];
  states = λ p. record { result = none; waker = none };
  next_state = 1;
  woken = [];
  dmi_handler = none;
  c2d_handler = none;
  tx = [];
  spawned = [];
}

abbrev answer_to : Text → ReadTwinRes Text
answer_to id = record {
  packet_id = none;
  request_id = id;
  status_code = ok_status;
  body = none;
  version = none;
}

abbrev asked : DeviceClient ℕ Text Text
asked = (request_twin pump (codes "b")).1

-- The task 9 asks for the new one, and a message without meaning arrives.
abbrev polled : DeviceClient ℕ Text Text
polled = record asked {
  states = λ p. if 1 == p then record { result = none; waker = some 9 } else asked.states p;
}

run-asked : run asked (polls 1 9 ∷ arrives unknown_message ∷ []) ≡ returns polled
unfolding run second poll_twin poll_result handle_msg request_twin
run-asked = refl

twin_answered_example :
    let c2 = handle_msg polled (twin_response_message (answer_to (codes "b"))) in
    (c3 : DeviceClient ℕ Text Text) × (poll_twin c2 1 3
      ≡ returns (ready (answer_to (codes "b")), c3))
    × (c2.woken ≡ 9 ∷ [])
unfolding request_twin
twin_answered_example =
    twin_answered pump polled (polls 1 9 ∷ arrives unknown_message ∷ []) (answer_to (codes "b")) 3
      (tt, (tt, tt)) run-asked
