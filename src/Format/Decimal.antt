-- ===== src/Format/Decimal.antt =====
-- The verb %d: fmt.Sprintf of a natural number, and fmt.Sscanf into an unsigned or a signed integer.
-- Of the spaces that Sscanf skips, the ASCII ones.
use hockey_libs.Prelude.{
  ℕ, zero, suc, ◌+◌, ◌-◌, ◌*◌, ◌/◌, ◌%◌, ◌<◌, ◌≡◌, refl, ap, ◌∙◌, Bool, true, false, not, ◌&&◌,
  ◌||◌, Option, none, some, [], ◌∷◌, ◌++◌, ◌==◌, ltb, leb, ℤ, pos, negsuc, if◌then◌else◌, arith,
  Bool-cases, inl, inr,
}
use mathlib.Core.List.{append_assoc}
use hockey_libs.Format.Bytes.{Bytes, free, free-append}

digits_of : ℕ → ℕ → Bytes
digits_of zero n = []
digits_of (suc fuel) n =
    let front = digits_of fuel (n / 10) in
    if ltb n 10 then (48 + n) ∷ [] else front ++ (48 + n % 10) ∷ []

-- A number has no more digits than one more than itself.
unfoldable pub digits : ℕ → Bytes
unfolding digits_of
digits n = digits_of (suc n) n

abbrev pub is_digit : ℕ → Bool
is_digit c = leb 48 c && leb c 57

-- The value of the digits that come first, after `acc`, and what follows them.
unfoldable pub scan_digits : ℕ → Bytes → ℕ × Bytes
scan_digits acc [] = (acc, [])
scan_digits acc (c ∷ cs) =
    if is_digit c then scan_digits (acc * 10 + (c - 48)) cs else (acc, c ∷ cs)

abbrev pub is_space : ℕ → Bool
is_space c = c == 32 || c == 9 || c == 11 || c == 12 || c == 13

-- `SkipSpace`, which refuses a new line.
unfoldable pub skip_space : Bytes → Option Bytes
skip_space [] = some []
skip_space (c ∷ cs) =
    let rest = skip_space cs in if c == 10 then none else if is_space c then rest else some (c ∷ cs)

unfoldable pub scan_number : Bytes → Option (ℕ × Bytes)
unfolding scan_digits
scan_number [] = none
scan_number (c ∷ cs) = if is_digit c then some (scan_digits 0 (c ∷ cs)) else none

abbrev pub below : ℕ → Option (ℕ × Bytes) → Option (ℕ × Bytes)
below bound none = none
below bound (some (n, rest)) = if ltb n bound then some (n, rest) else none

-- An unsigned integer below a bound, the size of its type.
unfoldable pub scan_uint : ℕ → Bytes → Option (ℕ × Bytes)
unfolding skip_space scan_number
scan_uint bound text = elim (skip_space text) [
  | none ↦ none
  | some rest ↦ below bound (scan_number rest)
]

abbrev pub negated : Option (ℕ × Bytes) → Option (ℤ × Bytes)
negated none = none
negated (some (zero, rest)) = some (pos 0, rest)
negated (some (suc n, rest)) = some (negsuc n, rest)

abbrev pub positive : Option (ℕ × Bytes) → Option (ℤ × Bytes)
positive none = none
positive (some (n, rest)) = some (pos n, rest)

abbrev pub int64_limit : ℕ
int64_limit = 9223372036854775808

abbrev pub signed : Bytes → Option (ℤ × Bytes)
unfolding scan_number
signed [] = none
signed (c ∷ cs) =
    if c == 45
    then negated (below (int64_limit + 1) (scan_number cs))
    else positive (below int64_limit (scan_number (if c == 43 then cs else c ∷ cs)))

-- An int, with or without a sign.
unfoldable pub scan_int : Bytes → Option (ℤ × Bytes)
unfolding skip_space scan_number
scan_int text = elim (skip_space text) [ none ↦ none | some rest ↦ signed rest ]

abbrev pub starts_with_digit : Bytes → Bool
starts_with_digit [] = false
starts_with_digit (c ∷ cs) = is_digit c

starts-append : (xs ys : Bytes) → starts_with_digit xs ≡ true → starts_with_digit (xs ++ ys) ≡ true
starts-append [] ys h = cc
starts-append (x ∷ xs) ys h = h

digits_of-start : (fuel n : ℕ) → n < fuel → starts_with_digit (digits_of fuel n) ≡ true
unfolding digits_of
digits_of-start zero n h = absurd (omega arith)
digits_of-start (suc fuel) n h = elim (Bool-cases (ltb n 10)) [
  | inl t ↦ rw t (ground arith)
  | inr t ↦
      rw t
        (starts-append (digits_of fuel (n / 10)) _ (digits_of-start fuel (n / 10) (ground arith)))
]

scan_digits_step :
    (acc d : ℕ) (rest : Bytes)
    → d < 10
    → scan_digits acc ((48 + d) ∷ rest) ≡ scan_digits (acc * 10 + d) rest
unfolding scan_digits
scan_digits_step acc d rest h =
    let value : 48 + d - 48 ≡ d = omega arith in
    let is : is_digit (48 + d) ≡ true = ground arith in rw (is, value) refl

scan_digits-digits_of :
    (fuel n : ℕ) (rest : Bytes)
    → n < fuel
    → scan_digits 0 (digits_of fuel n ++ rest) ≡ scan_digits n rest
unfolding digits_of
scan_digits-digits_of zero n rest h = absurd (omega arith)
scan_digits-digits_of (suc fuel) n rest h = elim (Bool-cases (ltb n 10)) [
  | inl t ↦
      rw t (scan_digits_step 0 n rest (ground arith) ∙ ap (λ k. scan_digits k rest) (omega arith))
  | inr t ↦
      let last = (48 + n % 10) ∷ [] in
      let value : n / 10 * 10 + n % 10 ≡ n = omega arith in
      rw t (
        ap (scan_digits 0) (append_assoc (digits_of fuel (n / 10)) last rest)
        ∙ scan_digits-digits_of fuel (n / 10) (last ++ rest) (ground arith)
        ∙ scan_digits_step (n / 10) (n % 10) rest (omega arith)
        ∙ ap (λ k. scan_digits k rest) value)
]

digits_of-free : (fuel n d : ℕ) → d < 48 → free d (digits_of fuel n) ≡ true
unfolding digits_of free
digits_of-free zero n d h = refl
digits_of-free (suc fuel) n d h = elim (Bool-cases (ltb n 10)) [
  | inl t ↦ rw t (ground arith)
  | inr t ↦ rw t (
      free-append d (digits_of fuel (n / 10)) ((48 + n % 10) ∷ [])
        (digits_of-free fuel (n / 10) d h) (ground arith))
]

pub digits-free : (n d : ℕ) → d < 48 → free d (digits n) ≡ true
unfolding digits
digits-free n d h = digits_of-free (suc n) n d h

skip_space_digit : (text : Bytes) → starts_with_digit text ≡ true → skip_space text ≡ some text
unfolding skip_space
skip_space_digit [] h = cc
skip_space_digit (c ∷ cs) h = ground arith

scan_number_digit :
    (text : Bytes) → starts_with_digit text ≡ true → scan_number text ≡ some (scan_digits 0 text)
unfolding scan_number
scan_number_digit [] h = cc
scan_number_digit (c ∷ cs) h = rw h refl

abbrev pub stops_here : Bytes → Bool
stops_here [] = true
stops_here (c ∷ cs) = not (is_digit c)

scan_digits-stop : (n : ℕ) (rest : Bytes) → stops_here rest ≡ true → scan_digits n rest ≡ (n, rest)
unfolding scan_digits
scan_digits-stop n [] h = refl
scan_digits-stop n (c ∷ cs) h = ground arith

pub scan_uint-digits :
    (n bound : ℕ) (rest : Bytes)
    → n < bound
    → stops_here rest ≡ true
    → scan_uint bound (digits n ++ rest) ≡ some (n, rest)
unfolding scan_uint digits
scan_uint-digits n bound rest h s =
    let start =
      starts-append (digits_of (suc n) n) rest (digits_of-start (suc n) n (omega arith)) in
    let value = scan_digits-digits_of (suc n) n rest (omega arith) ∙ scan_digits-stop n rest s in
    rw (scan_uint, skip_space_digit _ start, scan_number_digit _ start, value) (ground arith)

signed-digit :
    (text : Bytes)
    → starts_with_digit text ≡ true
    → signed text ≡ positive (below int64_limit (scan_number text))
unfolding signed scan_number
signed-digit [] h = cc
signed-digit (c ∷ cs) h =
    let minus : (c == 45) ≡ false = ground arith in
    let plus : (c == 43) ≡ false = ground arith in rw (signed, minus, plus) refl

pub scan_int-digits :
    (n : ℕ) (rest : Bytes)
    → n < int64_limit
    → stops_here rest ≡ true
    → scan_int (digits n ++ rest) ≡ some (pos n, rest)
unfolding digits scan_int
scan_int-digits n rest h s =
    let start =
      starts-append (digits_of (suc n) n) rest (digits_of-start (suc n) n (omega arith)) in
    let value = scan_digits-digits_of (suc n) n rest (omega arith) ∙ scan_digits-stop n rest s in
    rw (scan_int, skip_space_digit _ start, signed-digit _ start, scan_number_digit _ start, value)
      (ground arith)
