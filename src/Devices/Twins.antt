-- ===== src/Devices/Twins.antt =====
-- raiot-client/src/lib.rs: the answer to a request for a twin reaches the future of that request.
use raiot_rs.Base.{
  ℕ, ◌≡◌, ◌≢◌, refl, ap, subst, true, List, [], ◌∷◌, none, some, if◌then◌else◌, ◌==◌, ok, Call,
  returns, arith, returns_injective,
}
use raiot_rs.Protocol.Text.{Text, text_eq, text_eq_iff}
use raiot_rs.Protocol.Messages.{ReadTwinRes, MsgFromHub, twin_response_message}
use raiot_rs.Socket.{Poll, ready}
use raiot_rs.Socket.Ctl.Runs.{bind, bind-eq-returns, second, second-eq-returns}
use raiot_rs.Devices.{
  DeviceClient, RequestState, Requests, find_request, remove_request, poll_result, poll_twin,
  handle_msg, request_twin,
}

-- The thread takes a message; a task with a waker polls a future.
pub data Event (J M : Type 0) : Type 0 where
  arrives : MsgFromHub J M → Event J M
  polls : ℕ → ℕ → Event J M

-- No answer to the request.
abbrev pub NoAnswer : {J M : Type 0} → Text → Event J M → Type 0
NoAnswer id (arrives (twin_response_message resp)) = resp.request_id ≢ id
NoAnswer id _ = Unit {0}

abbrev pub NoAnswers : {J M : Type 0} → Text → List (Event J M) → Type 0
NoAnswers id [] = Unit {0}
NoAnswers id (e ∷ es) = NoAnswer id e × NoAnswers id es

module _ {H J M : Type 0} where
  abbrev pub happen : DeviceClient H J M → Event J M → Call (DeviceClient H J M)
  happen c (arrives msg) = returns (handle_msg c msg)
  happen c (polls p w) = second (poll_twin c p w)

  unfoldable pub run : DeviceClient H J M → List (Event J M) → Call (DeviceClient H J M)
  run c [] = returns c
  run c (e ∷ es) = bind (happen c e) (λ c'. run c' es)

text_eq_refl : (t : Text) → text_eq t t ≡ true
text_eq_refl t = (text_eq_iff t t).1 refl

find-remove_request :
    (id k : Text) (waiting : Requests)
    → k ≢ id
    → find_request id (remove_request k waiting) ≡ find_request id waiting
find-remove_request id k [] ne = refl
find-remove_request id k ((j, p) ∷ waiting) ne =
    ground (arith, find-remove_request id k waiting ne, text_eq_iff j k, text_eq_iff j id)

-- The request waits with the state `p`.
abbrev Waits : {H J M : Type 0} → Text → ℕ → DeviceClient H J M → Type 0
Waits id p c = find_request id c.awaiting_response ≡ some p

module _ {H J M : Type 0} (id : Text) (p : ℕ) where
  poll_result-Waits :
      (res : _) (c c' : DeviceClient H J M) (q w : ℕ) (out : Poll (ReadTwinRes J))
      → Waits id p c
      → poll_result res c q w ≡ returns (out, c')
      → Waits id p c'
  unfolding poll_result
  poll_result-Waits res c c' q w out h e = ground arith

  handle_msg-Waits :
      (c : DeviceClient H J M) (msg : MsgFromHub J M)
      → NoAnswer id (arrives msg)
      → Waits id p c
      → Waits id p (handle_msg c msg)
  unfolding handle_msg
  handle_msg-Waits c (twin_response_message resp) ne h =
      ground (arith, find-remove_request id resp.request_id c.awaiting_response ne)
  handle_msg-Waits c msg ne h = ground arith

  happen-Waits :
      (c c' : DeviceClient H J M) (e : Event J M)
      → NoAnswer id e
      → Waits id p c
      → happen c e ≡ returns c'
      → Waits id p c'
  unfolding poll_twin
  happen-Waits c c' (arrives msg) ne h e =
      subst (Waits id p) (returns_injective e) (handle_msg-Waits c msg ne h)
  happen-Waits c c' (polls q w) ne h e =
      let (out, e') = second-eq-returns (poll_twin c q w) e in
      poll_result-Waits (c.states q).result c c' q w out h e'

  run-Waits :
      (es : List (Event J M)) (c c' : DeviceClient H J M)
      → NoAnswers id es
      → Waits id p c
      → run c es ≡ returns c'
      → Waits id p c'
  unfolding run
  run-Waits [] c c' ne h e = subst (Waits id p) (returns_injective e) h
  run-Waits (x ∷ es) c c' ne h e =
      let (c1, first, rest) = bind-eq-returns (happen c x) (λ c2. run c2 es) e in
      run-Waits es c1 c' ne.1 (happen-Waits c c1 x ne.0 h first) rest

module _ {H J M : Type 0} where
  request_twin-Waits :
      (c : DeviceClient H J M) (id : Text) → Waits id (request_twin c id).0 (request_twin c id).1
  unfolding request_twin
  request_twin-Waits c id = rw (text_eq_refl id) refl

  handle_answer :
      (c : DeviceClient H J M) (resp : ReadTwinRes J) (p : ℕ)
      → Waits resp.request_id p c
      → let c' = handle_msg c (twin_response_message resp) in
        (c'.states p ≡ record { result = some (ok (twin_response_message resp)); waker = none })
        × (c'.woken ≡ elim (c.states p).waker [ none ↦ c.woken | some w ↦ w ∷ c.woken ])
  unfolding handle_msg
  handle_answer c resp p h = ground arith

  -- Whatever else arrives and whoever polls between a request for a twin and the answer with its
  -- identifier, the future of the request is then ready with just this answer, and the task that last
  -- asked for it, if one did, has just been woken.
  pub twin_answered :
      (c c1 : DeviceClient H J M) (es : List (Event J M)) (resp : ReadTwinRes J) (w : ℕ)
      → NoAnswers resp.request_id es
      → run (request_twin c resp.request_id).1 es ≡ returns c1
      → let p = (request_twin c resp.request_id).0 in
        let c2 = handle_msg c1 (twin_response_message resp) in
        (c3 : DeviceClient H J M) × (poll_twin c2 p w ≡ returns (ready resp, c3))
        × (c2.woken ≡ elim (c1.states p).waker [ none ↦ c1.woken | some v ↦ v ∷ c1.woken ])
  unfolding poll_twin poll_result
  twin_answered c c1 es resp w ne e =
      let p = (request_twin c resp.request_id).0 in
      let waits =
        run-Waits resp.request_id p es (request_twin c resp.request_id).1 c1 ne
          (request_twin-Waits c resp.request_id) e in
      let (cell, woken) = handle_answer c1 resp p waits in
      let result = ap (λ (s : RequestState J M). s.result) cell in
      let c2 = handle_msg c1 (twin_response_message resp) in
      let c3 = record c2 {
        states = λ q. if p == q then record (c2.states p) { result = none } else c2.states q;
      } in
      (c3, ap (λ r. poll_result r c2 p w) result, woken)
