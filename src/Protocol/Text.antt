-- ===== src/Protocol/Text.antt =====
-- Texts as the sequences of their UTF-8 bytes, with the methods of `str` that the codec calls.
use Prim.Native.Char.{code}
use Prim.Native.String.{String}
use raiot_rs.Base.{
  ℕ, zero, suc, ◌+◌, ◌-◌, ◌*◌, ◌/◌, ◌%◌, ◌≡◌, ◌↔◌, refl, Bool, true, false, not, ◌&&◌, List, [],
  ◌∷◌, Option, none, some, length, take, drop, get_elem?, leb, ltb, ◌==◌, if◌then◌else◌, Call,
  returns, panics, arith,
}

abbrev pub Text : Type 0
Text = List ℕ

-- The bytes of a literal, which is ASCII.
abbrev pub codes : String → Text
codes String.[] = []
codes (String.◌∷◌ c s) = code c ∷ codes s

abbrev pub text_eq : Text → Text → Bool
text_eq [] [] = true
text_eq [] (y ∷ ys) = false
text_eq (x ∷ xs) [] = false
text_eq (x ∷ xs) (y ∷ ys) = x == y && text_eq xs ys

pub text_eq_iff : (s t : Text) → (text_eq s t ≡ true) ↔ (s ≡ t)
text_eq_iff [] [] = (λ _. refl, λ _. refl)
text_eq_iff [] (y ∷ ys) = (λ h. cc, λ h. cc)
text_eq_iff (x ∷ xs) [] = (λ h. cc, λ h. cc)
text_eq_iff (x ∷ xs) (y ∷ ys) = ground (arith, text_eq_iff xs ys)

-- `starts_with`
abbrev pub starts_with : Text → Text → Bool
starts_with [] t = true
starts_with (p ∷ ps) [] = false
starts_with (p ∷ ps) (c ∷ t) = p == c && starts_with ps t

abbrev push_first : ℕ → List Text → List Text
push_first c [] = (c ∷ []) ∷ []
push_first c (s ∷ ss) = (c ∷ s) ∷ ss

-- `split(sep)`: the pieces between the separators, one more than there are separators.
unfoldable pub split : ℕ → Text → List Text
split sep [] = [] ∷ []
split sep (c ∷ t) = let rest = split sep t in if c == sep then [] ∷ rest else push_first c rest

-- A slice may begin and end only where a character does.
abbrev pub is_char_boundary : Text → ℕ → Bool
is_char_boundary t i =
    if i == 0
    then true
    else elim (get_elem? t i) [ none ↦ i == length t | some b ↦ not (leb 128 b && ltb b 192) ]

-- `&t[from..to]`, for `from` not after `to`.
unfoldable pub slice : Text → ℕ → ℕ → Call Text
slice t from to =
    if is_char_boundary t from && is_char_boundary t to
    then returns (take (to - from) (drop from t))
    else panics

-- The loop of `parse` for an unsigned type with values below `limit`.
unfoldable pub parse_digits : ℕ → ℕ → Text → Option ℕ
parse_digits limit n [] = some n
parse_digits limit n (c ∷ t) =
    let next = n * 10 + (c - b'0') in
    let rest = parse_digits limit next t in
    if leb b'0' c && leb c b'9' && ltb next limit then rest else none

-- `parse::<u16>` and `parse::<u64>`: one or more digits after an optional plus.
unfoldable pub parse_uint : ℕ → Text → Option ℕ
unfolding parse_digits
parse_uint limit [] = none
parse_uint limit (c ∷ []) = if c == b'+' then none else parse_digits limit 0 (c ∷ [])
parse_uint limit (c ∷ d ∷ t) =
    let after = parse_digits limit 0 (d ∷ t) in
    let whole = parse_digits limit 0 (c ∷ d ∷ t) in if c == b'+' then after else whole

-- The decimal digits of a number below ten to the `fuel`, before `acc`.
unfoldable pub digits_before : ℕ → ℕ → Text → Text
digits_before zero n acc = acc
digits_before (suc fuel) n acc =
    let more = digits_before fuel (n / 10) ((b'0' + n % 10) ∷ acc) in
    if ltb n 10 then (b'0' + n) ∷ acc else more

-- What `{}` prints for an unsigned number of up to 64 bits.
unfoldable pub decimal : ℕ → Text
unfolding digits_before
decimal n = digits_before 20 n []

-- An i32; `negsuc n` is -(n + 1).
pub data ℤ : Type 0 where
  pos : ℕ → ℤ
  negsuc : ℕ → ℤ

unfoldable pub display_i32 : ℤ → Text
unfolding decimal
display_i32 (pos n) = decimal n
display_i32 (negsuc n) = b'-' ∷ decimal (suc n)
