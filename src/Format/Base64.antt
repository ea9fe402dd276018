-- ===== src/Format/Base64.antt =====
-- base64.RawStdEncoding: the encoder, and the strict decoder, which passes over line ends.
use hockey_libs.Prelude.{
  ℕ, ◌+◌, ◌-◌, ◌*◌, ◌/◌, ◌%◌, ◌<◌, ◌≡◌, refl, Bool, true, false, ◌&&◌, ◌||◌, Option, none, some,
  List, [], ◌∷◌, map, ◌==◌, ltb, leb, if◌then◌else◌, arith,
}
use hockey_libs.Format.Bytes.{Bytes, free}

-- The letter of six bits.
unfoldable pub letter : ℕ → ℕ
letter v =
    if ltb v 26
    then 65 + v
    else if ltb v 52
    then 71 + v
    else if ltb v 62
    then v - 4
    else if v == 62
    then 43
    else 47

-- The six bits of a letter; 64 for a byte that is none.
unfoldable pub six_bits : ℕ → ℕ
six_bits c =
    if leb 65 c && leb c 90
    then c - 65
    else if leb 97 c && leb c 122
    then c - 71
    else if leb 48 c && leb c 57
    then c + 4
    else if c == 43
    then 62
    else if c == 47
    then 63
    else 64

-- Bytes in groups of six bits, the last of them filled up with zeros.
unfoldable pub sextets : Bytes → List ℕ
sextets [] = []
sextets (a ∷ []) = a / 4 ∷ a % 4 * 16 ∷ []
sextets (a ∷ b ∷ []) = a / 4 ∷ (a % 4 * 16 + b / 16) ∷ b % 16 * 4 ∷ []
sextets (a ∷ b ∷ c ∷ rest) =
    a / 4 ∷ (a % 4 * 16 + b / 16) ∷ (b % 16 * 4 + c / 64) ∷ c % 64 ∷ sextets rest

unfoldable pub encode : Bytes → Bytes
unfolding letter sextets
encode bytes = map letter (sextets bytes)

abbrev pub group : ℕ → ℕ → ℕ → ℕ → Option Bytes → Option Bytes
group x y z w none = none
group x y z w (some rest) =
    some ((x * 4 + y / 16) ∷ (y % 16 * 16 + z / 4) ∷ (z % 4 * 64 + w) ∷ rest)

-- `Strict`: the bits that fill up the last group are zero.
unfoldable pub octets : List ℕ → Option Bytes
octets [] = some []
octets (x ∷ []) = none
octets (x ∷ y ∷ []) = if y % 16 == 0 then some ((x * 4 + y / 16) ∷ []) else none
octets (x ∷ y ∷ z ∷ []) =
    if z % 4 == 0 then some ((x * 4 + y / 16) ∷ (y % 16 * 16 + z / 4) ∷ []) else none
octets (x ∷ y ∷ z ∷ w ∷ rest) = let more = octets rest in group x y z w more

abbrev pub letter_to : ℕ → Option (List ℕ) → Option (List ℕ)
letter_to v none = none
letter_to v (some vs) = if ltb v 64 then some (v ∷ vs) else none

-- The groups of a text, if all its bytes but line ends are letters.
unfoldable pub letters : Bytes → Option (List ℕ)
unfolding six_bits
letters [] = some []
letters (c ∷ cs) =
    let rest = letters cs in if c == 10 || c == 13 then rest else letter_to (six_bits c) rest

unfoldable pub decode : Bytes → Option Bytes
unfolding letters octets
decode text = elim (letters text) [ none ↦ none | some vs ↦ octets vs ]

-- Every number of a list is below a bound.
abbrev pub all_below : ℕ → List ℕ → Bool
all_below bound [] = true
all_below bound (n ∷ ns) = ltb n bound && all_below bound ns

six_bits-letter : (v : ℕ) → v < 64 → six_bits (letter v) ≡ v
unfolding six_bits letter
six_bits-letter v h = ground arith

letter_range :
    (v : ℕ)
    → v < 64
    → ((letter v == 36) ≡ false) × ((letter v == 10) ≡ false) × ((letter v == 13) ≡ false)
unfolding letter
letter_range v h = ground arith

sextets-all_below :
    (bytes : Bytes) → all_below 256 bytes ≡ true → all_below 64 (sextets bytes) ≡ true
unfolding sextets
sextets-all_below [] h = refl
sextets-all_below (a ∷ []) h = ground arith
sextets-all_below (a ∷ b ∷ []) h = ground arith
sextets-all_below (a ∷ b ∷ c ∷ rest) h = ground (arith, sextets-all_below rest)

octets-sextets : (bytes : Bytes) → all_below 256 bytes ≡ true → octets (sextets bytes) ≡ some bytes
unfolding octets sextets
octets-sextets [] h = refl
octets-sextets (a ∷ []) h = ground arith
octets-sextets (a ∷ b ∷ []) h = ground arith
octets-sextets (a ∷ b ∷ c ∷ rest) h = ground (arith, octets-sextets rest)

letters-letter : (vs : List ℕ) → all_below 64 vs ≡ true → letters (map letter vs) ≡ some vs
unfolding letters
letters-letter [] h = refl
letters-letter (v ∷ vs) h = ground (arith, letters-letter vs, six_bits-letter v, letter_range v)

letters-free : (vs : List ℕ) → all_below 64 vs ≡ true → free 36 (map letter vs) ≡ true
unfolding free
letters-free [] h = refl
letters-free (v ∷ vs) h = ground (arith, letters-free vs, letter_range v)

pub encode-free : (bytes : Bytes) → all_below 256 bytes ≡ true → free 36 (encode bytes) ≡ true
unfolding encode
encode-free bytes h = letters-free (sextets bytes) (sextets-all_below bytes h)

pub decode-encode :
    (bytes : Bytes) → all_below 256 bytes ≡ true → decode (encode bytes) ≡ some bytes
unfolding decode encode
decode-encode bytes h =
    rw (decode, letters-letter (sextets bytes) (sextets-all_below bytes h)) (octets-sextets bytes h)
