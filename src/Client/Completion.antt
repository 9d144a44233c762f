-- ===== src/Client/Completion.antt =====
-- raiot-stclient/src/lib.rs: an answer to a subscription reaches the subscription that asked.
use raiot_rs.Base.{
  ℕ, ◌≡◌, refl, Bool, true, false, List, [], ◌∷◌, ◌++◌, Option, none, some, arith, ok, err, ◌==◌,
  if◌then◌else◌, Bool-cases, inl, inr, append-nil,
}
use raiot_rs.Protocol.Messages.{SubRes}
use raiot_rs.Client.{
  SubState, unsubscribed, subscribing, subscribed, Event, sub_failed, IotClient, try_complete,
  process_sub_res,
}
use raiot_rs.Client.Fresh.{awaits, Apart, IsFresh}

-- Whether the answer is the one that a subscription waits for.
abbrev pub is_for : Option ℕ → ℕ → Bool
is_for none n = false
is_for (some m) n = m == n

-- What an answer makes of a subscription by itself.
abbrev pub answered : {H : Type 0} → SubState H → SubRes → SubState H
answered unsubscribed res = unsubscribed
answered (subscribed h) res = subscribed h
answered (subscribing h e id) res =
    if id.value == res.packet_id.value
    then elim res.result [ ok _ ↦ subscribed h | err _ ↦ unsubscribed ]
    else subscribing h e id

-- The error handlers that the answer calls.
abbrev pub reported : {H J M : Type 0} → SubState H → SubRes → List (Event H J M)
reported unsubscribed res = []
reported (subscribed h) res = []
reported (subscribing h e id) res =
    if id.value == res.packet_id.value
    then elim res.result [ ok _ ↦ [] | err error ↦ sub_failed e error ∷ [] ]
    else []

try_complete_lem :
    {H J M : Type 0} (st : SubState H) (res : SubRes)
    → try_complete {J = J} {M = M} st res
      ≡ (is_for (awaits st) res.packet_id.value, answered st res, reported st res)
unfolding try_complete
try_complete_lem unsubscribed res = refl
try_complete_lem (subscribed h) res = refl
try_complete_lem (subscribing h e id) res = ground arith

answered_other :
    {H : Type 0} (st : SubState H) (res : SubRes)
    → is_for (awaits st) res.packet_id.value ≡ false
    → answered st res ≡ st
answered_other unsubscribed res h = refl
answered_other (subscribed k) res h = refl
answered_other (subscribing k e id) res h = rw h refl

reported_other :
    {H J M : Type 0} (st : SubState H) (res : SubRes)
    → is_for (awaits st) res.packet_id.value ≡ false
    → reported {J = J} {M = M} st res ≡ []
reported_other unsubscribed res h = refl
reported_other (subscribed k) res h = refl
reported_other (subscribing k e id) res h = rw h refl

-- An answer is for one subscription at most.
is_for-Apart : (a b : Option ℕ) (n : ℕ) → Apart a b → is_for a n ≡ true → is_for b n ≡ false
is_for-Apart none b n x h = cc
is_for-Apart (some m) none n x h = refl
is_for-Apart (some m) (some k) n x h = ground arith

-- The client after every subscription has taken the answer for itself.
abbrev pub all_answered : {H S : Type 0} → IotClient H S → SubRes → IotClient H S
all_answered c res = record c {
  twin_reads = answered c.twin_reads res;
  c2d = answered c.c2d res;
  dmi = answered c.dmi res;
  twin_updates = answered c.twin_updates res;
}

abbrev pub all_reported : {H S J M : Type 0} → IotClient H S → SubRes → List (Event H J M)
all_reported c res =
    reported c.twin_reads res
    ++ (reported c.c2d res ++ (reported c.dmi res ++ reported c.twin_updates res))

-- A subscription that the answer is not for: nothing comes of it.
abbrev Misses : {H : Type 0} (J M : Type 0) → SubState H → SubRes → Type 0
Misses {H} J M st res =
    (answered st res ≡ st)
    × (reported {J = J} {M = M} st res ≡ [])
    × (try_complete {J = J} {M = M} st res ≡ (false, st, []))

miss_lem :
    {H J M : Type 0} (st : SubState H) (res : SubRes)
    → is_for (awaits st) res.packet_id.value ≡ false
    → Misses J M st res
miss_lem {H} {J} {M} st res h =
    let a = answered_other st res h in
    let r = reported_other {J = J} {M = M} st res h in
    (a, r, rw (try_complete_lem {J = J} {M = M} st res, h, a, r) refl)

last_lem :
    {H S J M : Type 0} (c : IotClient H S) (res : SubRes)
    → Misses J M c.twin_reads res
    → Misses J M c.c2d res
    → Misses J M c.dmi res
    → process_sub_res {J = J} {M = M} c res ≡ (all_answered c res, all_reported c res)
unfolding process_sub_res
last_lem {J} {M} c res m1 m2 m3 =
    elim (Bool-cases (is_for (awaits c.twin_updates) res.packet_id.value)) [
      | inl hit ↦
          rw
            (
              m1.2,
              m1.0,
              m1.1,
              m2.2,
              m2.0,
              m2.1,
              m3.2,
              m3.0,
              m3.1,
              try_complete_lem {J = J} {M = M} c.twin_updates res,
              hit,
            )
            refl
      | inr e4 ↦
          let m4 = miss_lem {J = J} {M = M} c.twin_updates res e4 in
          rw (m1.2, m1.0, m1.1, m2.2, m2.0, m2.1, m3.2, m3.0, m3.1, m4.2, m4.0, m4.1) refl
    ]

-- As long as no two subscriptions wait for the same identifier, offering an answer to them in turn
-- until one takes it is the same as giving it to all: the subscription that waits for it is completed
-- or, if the answer is an error, given up with a call of its error handler, and all others stay.
pub process_sub_res_lem :
    {H S J M : Type 0} (c : IotClient H S) (res : SubRes)
    → IsFresh c
    → process_sub_res {J = J} {M = M} c res ≡ (all_answered c res, all_reported c res)
unfolding process_sub_res
process_sub_res_lem {J} {M} c res x =
    let n = res.packet_id.value in
    elim (Bool-cases (is_for (awaits c.twin_reads) n)) [
      | inl hit ↦
          let m2 = miss_lem {J = J} {M = M} c.c2d res (is_for-Apart _ _ n x.first.0 hit) in
          let m3 = miss_lem {J = J} {M = M} c.dmi res (is_for-Apart _ _ n x.first.1 hit) in
          let m4 = miss_lem {J = J} {M = M} c.twin_updates res (is_for-Apart _ _ n x.first.2 hit) in
          rw
            (
              try_complete_lem {J = J} {M = M} c.twin_reads res,
              hit,
              m2.0,
              m2.1,
              m3.0,
              m3.1,
              m4.0,
              m4.1,
              append-nil (reported {J = J} {M = M} c.twin_reads res),
            )
            refl
      | inr e1 ↦
          let m1 = miss_lem {J = J} {M = M} c.twin_reads res e1 in
          elim (Bool-cases (is_for (awaits c.c2d) n)) [
            | inl hit ↦
                let m3 = miss_lem {J = J} {M = M} c.dmi res (is_for-Apart _ _ n x.others.0 hit) in
                let m4 =
                  miss_lem {J = J} {M = M} c.twin_updates res (is_for-Apart _ _ n x.others.1 hit) in
                rw
                  (
                    m1.2,
                    m1.0,
                    m1.1,
                    try_complete_lem {J = J} {M = M} c.c2d res,
                    hit,
                    m3.0,
                    m3.1,
                    m4.0,
                    m4.1,
                    append-nil (reported {J = J} {M = M} c.c2d res),
                  )
                  refl
            | inr e2 ↦
                let m2 = miss_lem {J = J} {M = M} c.c2d res e2 in
                elim (Bool-cases (is_for (awaits c.dmi) n)) [
                  | inl hit ↦
                      let m4 =
                        miss_lem {J = J} {M = M} c.twin_updates res
                          (is_for-Apart _ _ n x.others.2 hit) in
                      rw
                        (
                          m1.2,
                          m1.0,
                          m1.1,
                          m2.2,
                          m2.0,
                          m2.1,
                          try_complete_lem {J = J} {M = M} c.dmi res,
                          hit,
                          m4.0,
                          m4.1,
                          append-nil (reported {J = J} {M = M} c.dmi res),
                        )
                        refl
                  | inr e3 ↦ last_lem c res m1 m2 (miss_lem {J = J} {M = M} c.dmi res e3)
                ]
          ]
    ]
