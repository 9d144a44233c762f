-- ===== src/Base/Slices.antt =====
-- Lists compared index by index: each list operation as a case on the index.
use Prim.Native.Nat.{ℕ, zero, suc, ◌+◌, ◌-◌, ◌≤◌, min}
use mathlib.Core.Path.{◌≡◌, refl, ap, ap₂}
use mathlib.Core.List.{List, [], ◌∷◌, ◌++◌}
use mathlib.Core.Logic.{inl, inr}
use mathlib.Core.Option.{none}
use native.Mathlib.Omega.{arith}
use raiot_rs.Base.Tests.{Bool-cases, ltb, leb, if◌then◌else◌}
use raiot_rs.Base.Lists.{length, get_elem?, take, drop, take_all}

module _ {ℓ} {A : Type ℓ} where
  -- Two lists that agree at every index are equal.
  pub list_ext : (xs ys : List A) → ((i : ℕ) → get_elem? xs i ≡ get_elem? ys i) → xs ≡ ys
  list_ext [] [] h = refl
  list_ext [] (y ∷ ys) h = cc (h 0)
  list_ext (x ∷ xs) [] h = cc (h 0)
  list_ext (x ∷ xs) (y ∷ ys) h = ap₂ ◌∷◌ (cc (h 0)) (list_ext xs ys (λ i. h (suc i)))

  pub get_elem?_past : (xs : List A) (i : ℕ) → length xs ≤ i → get_elem? xs i ≡ none
  get_elem?_past [] i h = refl
  get_elem?_past (x ∷ xs) zero h = absurd (omega arith)
  get_elem?_past (x ∷ xs) (suc i) h = get_elem?_past xs i (omega arith)

  pub get_elem?-take :
      (n : ℕ) (xs : List A) (i : ℕ)
      → get_elem? (take n xs) i ≡ (if ltb i n then get_elem? xs i else none)
  get_elem?-take zero xs i = ground arith
  get_elem?-take (suc n) [] i = ground arith
  get_elem?-take (suc n) (x ∷ xs) zero = ground arith
  get_elem?-take (suc n) (x ∷ xs) (suc i) = ground (arith, get_elem?-take n xs i)

  pub get_elem?-drop :
      (n : ℕ) (xs : List A) (i : ℕ) → get_elem? (drop n xs) i ≡ get_elem? xs (n + i)
  get_elem?-drop zero xs i = ground arith
  get_elem?-drop (suc n) [] i = refl
  get_elem?-drop (suc n) (x ∷ xs) i =
      let e : suc n + i ≡ suc (n + i) = omega arith in rw e (get_elem?-drop n xs i)

  pub get_elem?-append :
      (xs ys : List A) (i : ℕ)
      → get_elem? (xs ++ ys) i
        ≡ (if ltb i (length xs) then get_elem? xs i else get_elem? ys (i - length xs))
  get_elem?-append [] ys i = ground arith
  get_elem?-append (x ∷ xs) ys zero = ground arith
  get_elem?-append (x ∷ xs) ys (suc i) = ground (arith, get_elem?-append xs ys i)

  pub take-append :
      (n : ℕ) (xs ys : List A)
      → take n (xs ++ ys) ≡ (if leb n (length xs) then take n xs else xs ++ take (n - length xs) ys)
  take-append zero xs ys = ground arith
  take-append (suc n) [] ys = ground arith
  take-append (suc n) (x ∷ xs) ys = ground (arith, take-append n xs ys)

  pub drop-append :
      (n : ℕ) (xs ys : List A)
      → drop n (xs ++ ys) ≡ (if leb n (length xs) then drop n xs ++ ys else drop (n - length xs) ys)
  drop-append zero xs ys = ground arith
  drop-append (suc n) [] ys = ground arith
  drop-append (suc n) (x ∷ xs) ys = ground (arith, drop-append n xs ys)

  pub take-length_add : (xs ys : List A) (m : ℕ) → take (length xs + m) (xs ++ ys) ≡ xs ++ take m ys
  take-length_add [] ys m = let e : 0 + m ≡ m = omega arith in rw e refl
  take-length_add (x ∷ xs) ys m =
      let e : length (x ∷ xs) + m ≡ suc (length xs + m) = omega arith in
      rw e (ap (◌∷◌ x) (take-length_add xs ys m))

  pub take_add :
      (n m : ℕ) (xs : List A) → n ≤ length xs → take (n + m) xs ≡ take n xs ++ take m (drop n xs)
  take_add zero m xs h = let e : 0 + m ≡ m = omega arith in rw e refl
  take_add (suc n) m [] h = absurd (omega arith)
  take_add (suc n) m (x ∷ xs) h =
      let e : suc n + m ≡ suc (n + m) = omega arith in
      rw e (ap (◌∷◌ x) (take_add n m xs (omega arith)))

  pub drop_add : (n m : ℕ) (xs : List A) → drop (n + m) xs ≡ drop m (drop n xs)
  drop_add zero m xs = let e : 0 + m ≡ m = omega arith in rw e refl
  drop_add (suc n) zero [] = let e : suc n + 0 ≡ suc n = omega arith in rw e refl
  drop_add (suc n) (suc m) [] = let e : suc n + suc m ≡ suc (n + suc m) = omega arith in rw e refl
  drop_add (suc n) m (x ∷ xs) =
      let e : suc n + m ≡ suc (n + m) = omega arith in rw e (drop_add n m xs)

  pub take-min : (k : ℕ) (xs : List A) → take (min (length xs) k) xs ≡ take k xs
  take-min k xs = elim (Bool-cases (leb k (length xs))) [
    | inl long ↦ let e : min (length xs) k ≡ k = ground arith in rw e refl
    | inr short ↦
        let e : min (length xs) k ≡ length xs = ground arith in
        rw (e, take_all (length xs) xs (omega arith), take_all k xs (ground arith)) refl
  ]
