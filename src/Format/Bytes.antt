-- ===== src/Format/Bytes.antt =====
-- strings.Split by one byte, and the literal parts of a format of fmt.Sscanf.
use hockey_libs.Prelude.{
  ℕ, ◌≡◌, refl, Bool, true, false, not, ◌&&◌, Option, none, some, List, [], ◌∷◌, ◌++◌, ◌==◌,
  if◌then◌else◌, arith,
}

abbrev pub Bytes : Type 0
Bytes = List ℕ

abbrev pub push : ℕ → List Bytes → List Bytes
push c [] = (c ∷ []) ∷ []
push c (word ∷ words) = (c ∷ word) ∷ words

unfoldable pub split_on : ℕ → Bytes → List Bytes
split_on d [] = [] ∷ []
split_on d (c ∷ cs) = let words = split_on d cs in if c == d then [] ∷ words else push c words

-- The byte does not occur.
unfoldable pub free : ℕ → Bytes → Bool
free d [] = true
free d (c ∷ cs) = not (c == d) && free d cs

-- A literal part of a format has to stand in the text.
unfoldable pub expect : Bytes → Bytes → Option Bytes
expect [] text = some text
expect (p ∷ ps) [] = none
expect (p ∷ ps) (c ∷ cs) = let rest = expect ps cs in if c == p then rest else none

-- Equal bytes.
unfoldable pub bytes_eq : Bytes → Bytes → Bool
bytes_eq [] [] = true
bytes_eq [] (c ∷ cs) = false
bytes_eq (b ∷ bs) [] = false
bytes_eq (b ∷ bs) (c ∷ cs) = b == c && bytes_eq bs cs

pub bytes_eq_refl : (bs : Bytes) → bytes_eq bs bs ≡ true
unfolding bytes_eq
bytes_eq_refl [] = refl
bytes_eq_refl (b ∷ bs) = ground (arith, bytes_eq_refl bs)

pub bytes_eq_sound : (bs cs : Bytes) → bytes_eq bs cs ≡ true → bs ≡ cs
unfolding bytes_eq
bytes_eq_sound [] [] h = refl
bytes_eq_sound [] (c ∷ cs) h = cc
bytes_eq_sound (b ∷ bs) [] h = cc
bytes_eq_sound (b ∷ bs) (c ∷ cs) h = ground (arith, bytes_eq_sound bs cs)

pub free-append :
    (d : ℕ) (xs ys : Bytes) → free d xs ≡ true → free d ys ≡ true → free d (xs ++ ys) ≡ true
unfolding free
free-append d [] ys h k = k
free-append d (x ∷ xs) ys h k = ground (arith, free-append d xs ys)

pub split_on-free : (d : ℕ) (xs : Bytes) → free d xs ≡ true → split_on d xs ≡ xs ∷ []
unfolding split_on free
split_on-free d [] h = refl
split_on-free d (x ∷ xs) h = ground (arith, split_on-free d xs)

pub split_on-append :
    (d : ℕ) (xs rest : Bytes)
    → free d xs ≡ true
    → split_on d (xs ++ d ∷ rest) ≡ xs ∷ split_on d rest
unfolding split_on free
split_on-append d [] rest h = ground arith
split_on-append d (x ∷ xs) rest h = ground (arith, split_on-append d xs rest)
