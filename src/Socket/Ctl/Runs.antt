-- ===== src/Socket/Ctl/Runs.antt =====
-- raiot-client/src/iot_socket.rs: any interleaving of what callers, tasks and the thread of a socket do.
use raiot_rs.Base.{ℕ, ◌≡◌, refl, subst, List, [], ◌∷◌, Call, returns, panics, returns_injective}
use raiot_rs.Packets.{Encoder}
use raiot_rs.Protocol.Messages.{MsgToHub, MsgFromHub}
use raiot_rs.Protocol.Mqtt.{VariablePacket, Crates}
use raiot_rs.Socket.{MessageFuture, poll}
use raiot_rs.Socket.Ctl.{NonblockingSocket, IotSocketCtl, tx_send, send_next, handle_incoming_msg}

-- A caller sends a message; a task with a waker polls a future; the thread sends the next message; a
-- message arrives from the hub.
pub data Action (J M : Type 0) : Type 0 where
  puts : MsgToHub J M → Action J M
  polls : MessageFuture → ℕ → Action J M
  sends : Action J M
  arrives : MsgFromHub J M → Action J M

abbrev pub bind : {A B : Type 0} → Call A → (A → Call B) → Call B
bind panics f = panics
bind (returns a) f = f a

pub bind-eq-returns :
    {A B : Type 0} (x : Call A) (f : A → Call B) {b : B}
    → bind x f ≡ returns b
    → (a : A) × (x ≡ returns a) × (f a ≡ returns b)
bind-eq-returns panics f h = cc
bind-eq-returns (returns a) f h = (a, refl, h)

unfoldable pub second : {A B : Type 0} → Call (A × B) → Call B
second panics = panics
second (returns (a, b)) = returns b

pub second-eq-returns :
    {A B : Type 0} (x : Call (A × B)) {b : B}
    → second x ≡ returns b
    → (a : A) × (x ≡ returns (a, b))
unfolding second
second-eq-returns panics h = cc
second-eq-returns (returns (a, b)) h = (a, cc)

module _ {J M S : Type 0} (crates : Crates J M) (mqtt : Encoder VariablePacket)
    (io : NonblockingSocket S) where
  unfoldable pub act : IotSocketCtl J M S → Action J M → Call (IotSocketCtl J M S)
  unfolding second
  act c (puts msg) = second (tx_send c msg)
  act c (polls f w) = returns (record c { heap = (poll c.heap f w).1 })
  act c sends = second (send_next crates mqtt io c)
  act c (arrives msg) = handle_incoming_msg c msg

  -- A run that panics is over.
  unfoldable pub run : IotSocketCtl J M S → List (Action J M) → Call (IotSocketCtl J M S)
  unfolding act
  run c [] = returns c
  run c (a ∷ as_) = bind (act c a) (λ c'. run c' as_)

  -- What every action that returns keeps, a run that returns keeps.
  module _ (P : IotSocketCtl J M S → Type 0) (Allowed : Action J M → Type 0) where
    abbrev pub AllAllowed : List (Action J M) → Type 0
    AllAllowed [] = Unit {0}
    AllAllowed (a ∷ as_) = Allowed a × AllAllowed as_

    pub run_keeps :
        ((c : IotSocketCtl J M S) (a : Action J M) (c' : IotSocketCtl J M S)
          → Allowed a
          → P c
          → act c a ≡ returns c'
          → P c')
        → (as_ : List (Action J M)) (c : IotSocketCtl J M S) {c' : IotSocketCtl J M S}
        → AllAllowed as_
        → P c
        → run c as_ ≡ returns c'
        → P c'
    unfolding run
    run_keeps keep [] c ok p h = subst P (returns_injective h) p
    run_keeps keep (a ∷ as_) c ok p h =
        let (c1, first, rest) = bind-eq-returns (act c a) (λ c'. run c' as_) h in
        run_keeps keep as_ c1 ok.1 (keep c a c1 ok.0 p first) rest
