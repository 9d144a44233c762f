-- ===== src/Mock/Reading.antt =====
-- raiot-test-utils/src/lib.rs: the client's end reads what the server's end pushed.
use mathlib.Core.List.{flatten}
use raiot_rs.Base.{
  ℕ, ◌≤◌, ◌<◌, ◌==◌, min, ◌≡◌, refl, sym, ap, ◌∙◌, true, List, [], ◌∷◌, ◌++◌, length, take, drop,
  IoResult, ok, Call, returns, arith, append_assoc, take_all, append-nil, leb, length-take,
  take-append, drop-append,
}
use raiot_rs.Ring.{CircularBuffer, size, valid_length}
use raiot_rs.Ring.Slice.{read_slice_lem}
use raiot_rs.Ring.Valid.{IsValid}
use raiot_rs.Ring.Contents.{contents, length-contents}
use raiot_rs.Ring.Take.{read_bytes_ok}
use raiot_rs.Mock.{
  MockSocket, lend, client_fetched, client_read_from_buffer, client_result, handed_out, client_read,
  push_data, push_read_ctl,
}
use raiot_rs.Mock.Fetching.{Fetched, fetch-Fetched}

lend_lem :
    (n : ℕ) (r : CircularBuffer)
    → IsValid r
    → 0 < n
    → n ≤ valid_length r
    → (r' : CircularBuffer) × (lend n n r ≡ returns (take n (contents r), r'))
      × (contents r' ≡ drop n (contents r))
      × IsValid r'
unfolding lend
lend_lem n r v pos le =
    let (slice, r', answer, lent, left, valid, same) = read_bytes_ok n v pos le in
    let short : length (take n (contents r)) ≡ n =
      omega (arith, length-take n (contents r), length-contents v) in
    let read =
      (read_slice_lem n slice).0
      ∙ ap (take n) lent
      ∙ take_all n (take n (contents r)) (omega arith) in
    let whole : (length (take n (contents r)) == n) ≡ true = ground arith in
    (r', rw (answer, lend, read, whole) refl, left, valid)

-- The bytes on their way to the client's end, in order.
abbrev pub to_come : MockSocket → List ℕ
to_come m = contents m.client_buf ++ flatten m.to_client.waiting

client_fetched-returns :
    (n : ℕ) (waiting : List (List ℕ)) (r : CircularBuffer) (m : MockSocket)
    → client_fetched n (returns (waiting, r)) m
      ≡ handed_out waiting m (lend (min (valid_length r) n) (min (valid_length r) n) r)
unfolding client_fetched
client_fetched-returns n waiting r m = refl

client_fetched_lem :
    (n : ℕ) (pieces : List (List ℕ)) (m : MockSocket) (run : Call (List (List ℕ) × CircularBuffer))
    → Fetched n pieces m.client_buf run
    → pieces ≡ m.to_client.waiting
    → 0 < n
    → (m' : MockSocket) × (client_fetched n run m ≡ returns (take n (to_come m), m'))
      × (to_come m' ≡ drop n (to_come m))
      × IsValid m'.client_buf
unfolding handed_out
client_fetched_lem n pieces m run f same pos =
    let (r', lent, left, valid) = lend_lem n f.after f.valid pos f.enough in
    let exact : min (valid_length f.after) n ≡ n = omega (arith, f.enough) in
    let inside : leb n (length (contents f.after)) ≡ true =
      ground (arith, f.enough, length-contents f.valid) in
    let all : contents f.after ++ flatten f.left ≡ to_come m = rw same at f.all in
    let front : take n (contents f.after) ≡ take n (to_come m) =
      sym (rw inside at (take-append n (contents f.after) (flatten f.left))) ∙ ap (take n) all in
    let back : drop n (contents f.after) ++ flatten f.left ≡ drop n (to_come m) =
      sym (rw inside at (drop-append n (contents f.after) (flatten f.left))) ∙ ap (drop n) all in
    (
      record m { to_client = record m.to_client { waiting = f.left }; client_buf = r' },
      rw (f.ended, client_fetched-returns n f.left f.after m, exact, lent, handed_out, front) refl,
      ap (λ xs. xs ++ flatten f.left) left ∙ back,
      valid,
    )

-- A read that is allowed to, of bytes that are there and fit the client's buffer.
client_read_lem :
    (buf : List ℕ) (allowed : ℕ) (m : MockSocket) (ctls : List (IoResult ℕ))
    → IsValid m.client_buf
    → m.read_ctl.waiting ≡ ok allowed ∷ ctls
    → length (to_come m) ≤ size m.client_buf
    → 0 < min (length buf) allowed
    → min (length buf) allowed ≤ length (to_come m)
    → let n = min (length buf) allowed in
      (m' : MockSocket) × (client_read buf m
        ≡ returns ((ok n, take n (to_come m) ++ drop n buf), m'))
      × (to_come m' ≡ drop n (to_come m))
      × IsValid m'.client_buf
unfolding client_read client_read_from_buffer
client_read_lem buf allowed m ctls v told fits pos there =
    let n = min (length buf) allowed in
    let m1 : MockSocket = record m { read_ctl = record m.read_ctl { waiting = ctls } } in
    let f = fetch-Fetched n m.to_client.waiting m.to_client.connected m.client_buf v fits there in
    let (m', answer, left, valid) = client_fetched_lem n m.to_client.waiting m1 _ f refl pos in
    let whole : length (take n (to_come m)) ≡ n = omega (arith, length-take n (to_come m), there) in
    (m', rw (told, answer, client_result, whole) refl, left, valid)

flatten-put :
    (pieces : List (List ℕ)) (bytes : List ℕ)
    → flatten (pieces ++ bytes ∷ []) ≡ flatten pieces ++ bytes
unfolding flatten
flatten-put [] bytes = append-nil bytes
flatten-put (piece ∷ pieces) bytes =
    ap (λ xs. piece ++ xs) (flatten-put pieces bytes)
    ∙ sym (append_assoc piece (flatten pieces) bytes)

push_data_lem :
    (bytes : List ℕ) (m m1 : MockSocket)
    → push_data bytes m ≡ returns m1
    → (m1.to_client.waiting ≡ m.to_client.waiting ++ bytes ∷ [])
      × (m1.client_buf ≡ m.client_buf)
      × (m1.read_ctl ≡ m.read_ctl)
unfolding push_data
push_data_lem bytes m m1 h = ground arith

push_read_ctl_lem :
    (ctl : IoResult ℕ) (m m1 : MockSocket)
    → push_read_ctl ctl m ≡ returns m1
    → (m1.read_ctl.waiting ≡ m.read_ctl.waiting ++ ctl ∷ [])
      × (m1.client_buf ≡ m.client_buf)
      × (m1.to_client ≡ m.to_client)
unfolding push_read_ctl
push_read_ctl_lem ctl m m1 h = ground arith

-- What the server's end pushes reaches the client's end in order. After a push of data the client's
-- end is allowed to read so many bytes, with no such permission left from before. Its read then
-- puts the oldest bytes that were pushed and not yet read into the caller's buffer, as many as are
-- allowed and find room in it, if that is at least one, at least so many are there, and all that is
-- there fits the client's buffer, which is valid; the others are still to come.
pub push_data-client_read :
    (bytes buf : List ℕ) (allowed : ℕ) (m m1 m2 : MockSocket)
    → IsValid m.client_buf
    → m.read_ctl.waiting ≡ []
    → length (to_come m ++ bytes) ≤ size m.client_buf
    → 0 < min (length buf) allowed
    → min (length buf) allowed ≤ length (to_come m ++ bytes)
    → push_data bytes m ≡ returns m1
    → push_read_ctl (ok allowed) m1 ≡ returns m2
    → let n = min (length buf) allowed in
      (m3 : MockSocket) × (client_read buf m2
        ≡ returns ((ok n, take n (to_come m ++ bytes) ++ drop n buf), m3))
      × (to_come m3 ≡ drop n (to_come m ++ bytes))
      × IsValid m3.client_buf
push_data-client_read bytes buf allowed m m1 m2 v none_told fits pos there pushed told =
    let (waits, buffer, ctl) = push_data_lem bytes m m1 pushed in
    let (tells, buffer2, line) = push_read_ctl_lem (ok allowed) m1 m2 told in
    let same : m2.client_buf ≡ m.client_buf = buffer2 ∙ buffer in
    let all : to_come m2 ≡ to_come m ++ bytes =
      rw (same, line, waits, flatten-put m.to_client.waiting bytes)
        (sym (append_assoc (contents m.client_buf) (flatten m.to_client.waiting) bytes)) in
    let first : m2.read_ctl.waiting ≡ ok allowed ∷ [] = rw (ctl, none_told) at tells in
    rw all at
      (client_read_lem buf allowed m2 [] (rw same v) first (rw (all, same) fits) pos (rw all there))
