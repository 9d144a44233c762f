-- ===== src/Client/Fresh.antt =====
-- raiot-stclient/src/lib.rs: the packet identifiers of the subscriptions that wait for an answer.
use raiot_rs.Base.{
  returns_injective, ℕ, ◌+◌, ◌-◌, ◌%◌, ◌^◌, ◌≤◌, ◌<◌, ◌≡◌, ◌≢◌, refl, Option, none, some, arith,
  returns, Bool-cases, inl, inr, subst, ◌⊎◌,
}
use raiot_rs.Protocol.Text.{Text}
use raiot_rs.Protocol.Types.{
  DeliveryGuarantees, at_most_once, at_least_once, ClientIdentity, device, module_,
}
use raiot_rs.Protocol.Messages.{SubRes, MsgFromHub, subscription_response_message, MsgToHub}
use raiot_rs.Protocol.Mqtt.{VariablePacket, Crates}
use raiot_rs.Packets.{Encoder}
use raiot_rs.Connection.{write_connection}
use raiot_rs.Client.{
  SubState, unsubscribed, subscribing, subscribed, IotClient, next, try_complete, send,
  process_sub_res, process_msg, Action, send_telemetry, respond, want_methods, want_c2d,
  want_updates, want_twin, arrives, perform, send_d2c, send_dmi_res, sub_dmi, sub_c2d,
  sub_twin_updates, D2CMsg, DmiResult, poll_twin, request_twin, sub_twin_reads,
}

-- The identifier whose answer a subscription waits for.
abbrev pub awaits : {H : Type 0} → SubState H → Option ℕ
awaits unsubscribed = none
awaits (subscribed h) = none
awaits (subscribing h e id) = some id.value

abbrev pub Below : ℕ → Option ℕ → Type 0
Below v none = Unit {0}
Below v (some n) = n ≤ v

abbrev pub Apart : Option ℕ → Option ℕ → Type 0
Apart none o = Unit {0}
Apart (some n) none = Unit {0}
Apart (some n) (some m) = n ≢ m

-- Four identifiers, given out up to `v`, no two of them the same.
pub record Distinct (v : ℕ) (a b c d : Option ℕ) : Type 0 where
  pub below : Below v a × Below v b × Below v c × Below v d
  pub first : Apart a b × Apart a c × Apart a d
  pub others : Apart b c × Apart b d × Apart c d

Apart-next :
    (v : ℕ) (o : Option ℕ)
    → Below v o
    → Apart (some (v + 1)) o × Apart o (some (v + 1)) × Below (v + 1) o
Apart-next v none h = (tt, tt, tt)
Apart-next v (some n) h = ground arith

Apart-none : (o : Option ℕ) → Apart o none
Apart-none none = tt
Apart-none (some n) = tt

module _ {v : ℕ} {a b c d : Option ℕ} (x : Distinct v a b c d) where
  Distinct-a : Distinct (v + 1) (some (v + 1)) b c d
  Distinct-a =
      let (ba, bb, bc, bd) = x.below in
      record {
        below = (omega arith, (Apart-next v b bb).2, (Apart-next v c bc).2, (Apart-next v d bd).2);
        first = ((Apart-next v b bb).0, (Apart-next v c bc).0, (Apart-next v d bd).0);
        others = x.others;
      }

  Distinct-b : Distinct (v + 1) a (some (v + 1)) c d
  Distinct-b =
      let (ba, bb, bc, bd) = x.below in
      record {
        below = ((Apart-next v a ba).2, omega arith, (Apart-next v c bc).2, (Apart-next v d bd).2);
        first = ((Apart-next v a ba).1, x.first.1, x.first.2);
        others = ((Apart-next v c bc).0, (Apart-next v d bd).0, x.others.2);
      }

  Distinct-c : Distinct (v + 1) a b (some (v + 1)) d
  Distinct-c =
      let (ba, bb, bc, bd) = x.below in
      record {
        below = ((Apart-next v a ba).2, (Apart-next v b bb).2, omega arith, (Apart-next v d bd).2);
        first = (x.first.0, (Apart-next v a ba).1, x.first.2);
        others = ((Apart-next v b bb).1, x.others.1, (Apart-next v d bd).0);
      }

  Distinct-d : Distinct (v + 1) a b c (some (v + 1))
  Distinct-d =
      let (ba, bb, bc, bd) = x.below in
      record {
        below = ((Apart-next v a ba).2, (Apart-next v b bb).2, (Apart-next v c bc).2, omega arith);
        first = (x.first.0, x.first.1, (Apart-next v a ba).1);
        others = (x.others.0, (Apart-next v b bb).1, (Apart-next v c bc).1);
      }

  Distinct-later : Distinct (v + 1) a b c d
  Distinct-later =
      let (ba, bb, bc, bd) = x.below in
      record {
        below = (
          (Apart-next v a ba).2,
          (Apart-next v b bb).2,
          (Apart-next v c bc).2,
          (Apart-next v d bd).2,
        );
        first = x.first;
        others = x.others;
      }

next_exact : (v : ℕ) → v < 2 ^ 16 - 1 → (v + 1) % 2 ^ 16 ≡ v + 1
next_exact v small = omega arith

-- An identifier that is no longer awaited.
abbrev pub Kept : Option ℕ → Option ℕ → Type 0
Kept o' o = (o' ≡ o) ⊎ (o' ≡ none)

module _ {H : Type 0} (J M : Type 0) where
  awaits-try_complete :
      (st : SubState H) (res : SubRes)
      → Kept (awaits (try_complete {J = J} {M = M} st res).1) (awaits st)
  unfolding try_complete
  awaits-try_complete unsubscribed res = inl refl
  awaits-try_complete (subscribed h) res = inl refl
  awaits-try_complete (subscribing h e id) res = ground arith

Below-Kept : (v : ℕ) (o' o : Option ℕ) → Kept o' o → Below v o → Below v o'
Below-Kept v none o k h = tt
Below-Kept v (some n) o k h = ground arith

Apart-Kept : (a' a b' b : Option ℕ) → Kept a' a → Kept b' b → Apart a b → Apart a' b'
Apart-Kept none a b' b k l h = tt
Apart-Kept (some n) a none b k l h = tt
Apart-Kept (some n) a (some m) b k l h = ground arith

Distinct-Kept :
    {v : ℕ} {a b c d a' b' c' d' : Option ℕ}
    → Kept a' a
    → Kept b' b
    → Kept c' c
    → Kept d' d
    → Distinct v a b c d
    → Distinct v a' b' c' d'
Distinct-Kept ka kb kc kd x = record {
  below = (
    Below-Kept _ _ _ ka x.below.0,
    Below-Kept _ _ _ kb x.below.1,
    Below-Kept _ _ _ kc x.below.2,
    Below-Kept _ _ _ kd x.below.3,
  );
  first = (
    Apart-Kept _ _ _ _ ka kb x.first.0,
    Apart-Kept _ _ _ _ ka kc x.first.1,
    Apart-Kept _ _ _ _ ka kd x.first.2,
  );
  others = (
    Apart-Kept _ _ _ _ kb kc x.others.0,
    Apart-Kept _ _ _ _ kb kd x.others.1,
    Apart-Kept _ _ _ _ kc kd x.others.2,
  );
}

module _ {H S : Type 0} where
  -- No two subscriptions wait for the same identifier, and the next one is new.
  abbrev pub IsFresh : IotClient H S → Type 0
  IsFresh c =
      Distinct c.packets_numerator.value (awaits c.twin_reads) (awaits c.c2d) (awaits c.dmi)
        (awaits c.twin_updates)

  module _ {J M : Type 0} (crates : Crates J M) (mqtt : Encoder VariablePacket) where
    send-IsFresh :
        (c : IotClient H S) (msg : MsgToHub J M) {c' : IotClient H S}
        → IsFresh c
        → send crates mqtt c msg ≡ returns c'
        → IsFresh c'
    unfolding send write_connection
    send-IsFresh c msg x e = ground arith

    -- The actions that take a number, one by one.
    send_d2c-IsFresh :
        (c : IotClient H S) (msg : D2CMsg J) (mode : DeliveryGuarantees) {c' : IotClient H S}
        → IsFresh c
        → c.packets_numerator.value < 2 ^ 16 - 1
        → send_d2c crates mqtt c msg mode ≡ returns c'
        → IsFresh c'
    unfolding send_d2c next
    send_d2c-IsFresh c msg at_most_once x small e = send-IsFresh _ _ x e
    send_d2c-IsFresh c msg at_least_once x small e =
        send-IsFresh _ _ (rw (next_exact c.packets_numerator.value small) (Distinct-later x)) e

    send_dmi_res-IsFresh :
        (c : IotClient H S) (id : Text) (res : DmiResult J) (mode : DeliveryGuarantees)
        {c' : IotClient H S}
        → IsFresh c
        → c.packets_numerator.value < 2 ^ 16 - 1
        → send_dmi_res crates mqtt c id res mode ≡ returns c'
        → IsFresh c'
    unfolding send_dmi_res next
    send_dmi_res-IsFresh c id res at_most_once x small e = send-IsFresh _ _ x e
    send_dmi_res-IsFresh c id res at_least_once x small e =
        send-IsFresh _ _ (rw (next_exact c.packets_numerator.value small) (Distinct-later x)) e

    poll_twin-IsFresh :
        (prints : H) (c : IotClient H S) (uuid : Text) (st : SubState H) {c' : IotClient H S}
        → c.twin_reads ≡ st
        → IsFresh c
        → c.packets_numerator.value < 2 ^ 16 - 1
        → poll_twin crates mqtt prints c uuid ≡ returns c'
        → IsFresh c'
    unfolding poll_twin request_twin sub_twin_reads next
    poll_twin-IsFresh prints c uuid (subscribed h) same x small e =
        send-IsFresh _ _
          (rw (next_exact c.packets_numerator.value small) (rw same at (Distinct-later x)))
          (rw same at e)
    poll_twin-IsFresh prints c uuid unsubscribed same x small e =
        send-IsFresh _ _ (rw (next_exact c.packets_numerator.value small) (Distinct-a x))
          (rw same at e)
    poll_twin-IsFresh prints c uuid (subscribing h k id) same x small e = ground arith

    sub_c2d-IsFresh :
        (prints : H) (c : IotClient H S) (mode : DeliveryGuarantees) (h k : H)
        (who : ClientIdentity) {c' : IotClient H S}
        → c.client_id ≡ who
        → IsFresh c
        → c.packets_numerator.value < 2 ^ 16 - 1
        → sub_c2d crates mqtt prints c mode h k ≡ returns c'
        → IsFresh c'
    unfolding sub_c2d next
    sub_c2d-IsFresh prints c mode h k (module_ m) same x small e = ground arith
    sub_c2d-IsFresh prints c mode h k (device d) same x small e =
        send-IsFresh _ _ (rw (next_exact c.packets_numerator.value small) (Distinct-b x))
          (rw same at e)

  process_sub_res-IsFresh :
      (J M : Type 0) (c : IotClient H S) (res : SubRes)
      → IsFresh c
      → IsFresh (process_sub_res {J = J} {M = M} c res).0
  unfolding process_sub_res
  process_sub_res-IsFresh J M c res x =
      let r = awaits-try_complete J M c.twin_reads res in
      let k = awaits-try_complete J M c.c2d res in
      let l = awaits-try_complete J M c.dmi res in
      let m = awaits-try_complete J M c.twin_updates res in
      elim (Bool-cases (try_complete {J = J} {M = M} c.twin_reads res).0) [
        | inl hit ↦ rw hit (Distinct-Kept r (inl refl) (inl refl) (inl refl) x)
        | inr miss1 ↦ elim (Bool-cases (try_complete {J = J} {M = M} c.c2d res).0) [
          | inl hit ↦ rw (miss1, hit) (Distinct-Kept (inl refl) k (inl refl) (inl refl) x)
          | inr miss2 ↦ elim (Bool-cases (try_complete {J = J} {M = M} c.dmi res).0) [
            | inl hit ↦ rw (miss1, miss2, hit) (Distinct-Kept (inl refl) (inl refl) l (inl refl) x)
            | inr miss3 ↦ elim (Bool-cases (try_complete {J = J} {M = M} c.twin_updates res).0) [
              | inl hit ↦
                  rw (miss1, miss2, miss3, hit) (Distinct-Kept (inl refl) (inl refl) (inl refl) m x)
              | inr miss4 ↦ rw (miss1, miss2, miss3, miss4) x
            ]
          ]
        ]
      ]

  pub process_msg-IsFresh :
      {J M : Type 0} (c : IotClient H S) (msg : MsgFromHub J M)
      → IsFresh c
      → IsFresh (process_msg c msg).0
  unfolding process_msg
  process_msg-IsFresh {J} {M} c (subscription_response_message res) x =
      process_sub_res-IsFresh J M c res x
  process_msg-IsFresh c msg x = x

-- Whatever the user asks for and whatever arrives, no two subscriptions ever wait for the same packet
-- identifier, and none for one that is not given out yet: every action that returns keeps this, until
-- the 65535 identifiers have been used up.
pub perform-IsFresh :
    {J M H S : Type 0} (crates : Crates J M) (mqtt : Encoder VariablePacket) (prints : H)
    (c : IotClient H S) (action : Action J M H) {c' : IotClient H S}
    → IsFresh c
    → c.packets_numerator.value < 2 ^ 16 - 1
    → perform crates mqtt prints c action ≡ returns c'
    → IsFresh c'
unfolding perform sub_dmi sub_c2d sub_twin_updates next
perform-IsFresh crates mqtt prints c (send_telemetry msg mode) x small e =
    send_d2c-IsFresh crates mqtt c msg mode x small e
perform-IsFresh crates mqtt prints c (respond id res mode) x small e =
    send_dmi_res-IsFresh crates mqtt c id res mode x small e
perform-IsFresh crates mqtt prints c (want_methods mode h) x small e =
    send-IsFresh crates mqtt _ _ (rw (next_exact c.packets_numerator.value small) (Distinct-c x)) e
perform-IsFresh crates mqtt prints c (want_updates mode h) x small e =
    send-IsFresh crates mqtt _ _ (rw (next_exact c.packets_numerator.value small) (Distinct-d x)) e
perform-IsFresh crates mqtt prints c (want_c2d mode h k) x small e =
    sub_c2d-IsFresh crates mqtt prints c mode h k c.client_id refl x small e
perform-IsFresh crates mqtt prints c (want_twin uuid) x small e =
    poll_twin-IsFresh crates mqtt prints c uuid c.twin_reads refl x small e
perform-IsFresh {J} {M} crates mqtt prints c (arrives msg) x small e =
    subst IsFresh (returns_injective e) (process_msg-IsFresh c msg x)
