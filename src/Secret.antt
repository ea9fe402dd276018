-- ===== src/Secret.antt =====
-- secret/secret.go: random tokens and codes, and hashes of tokens, as bytes. SHA-256 and the source of
-- random numbers are parameters.
use hockey_libs.Prelude.{
  ℕ, ◌+◌, ◌-◌, ◌/◌, ◌%◌, ◌≡◌, ap, sym, ◌∙◌, ◌↔◌, ℤ, pos, pos_part, Bool, true, List, [], ◌∷◌, map,
  ltb, leb_ℤ, ◌==◌, if◌then◌else◌,
}
use hockey_libs.Errors.{plain, wrapped, Result, ret, err}
use hockey_libs.Format.Bytes.{Bytes, bytes_eq, bytes_eq_refl, bytes_eq_sound}
use hockey_libs.Format.Base64.{sextets}

abbrev pub default_token_bytes : ℤ
default_token_bytes = pos 32

-- A letter of base64.RawURLEncoding.
abbrev pub url_letter : ℕ → ℕ
url_letter v =
    if ltb v 26
    then 65 + v
    else if ltb v 52
    then 71 + v
    else if ltb v 62
    then v - 4
    else if v == 62
    then 45
    else 95

-- `Token`, where `random` fills as many bytes as it is asked for.
unfoldable pub token : (ℕ → Result Bytes) → ℤ → Result Bytes
unfolding sextets
token random size =
    elim (random (pos_part (if leb_ℤ size (pos 0) then default_token_bytes else size))) [
      | err e ↦ err (wrapped "secret: read random" e)
      | ret bytes ↦ ret (map url_letter (sextets bytes))
    ]

abbrev pub hex_digit : ℕ → ℕ
hex_digit n = if ltb n 10 then 48 + n else 87 + n

unfoldable pub hex : Bytes → Bytes
hex [] = []
hex (b ∷ bytes) = hex_digit (b / 16) ∷ hex_digit (b % 16) ∷ hex bytes

-- `Hash`, over SHA-256.
unfoldable pub hash : (Bytes → Bytes) → Bytes → Bytes
unfolding hex
hash sha256 secret = hex (sha256 secret)

-- `Equal`
unfoldable pub equal : Bytes → Bytes → Bool
unfolding bytes_eq
equal a b = bytes_eq a b

unfoldable pub matches : (Bytes → Bytes) → Bytes → Bytes → Bool
unfolding hash equal
matches sha256 secret hashed = equal (hash sha256 secret) hashed

-- The digits of a code, of which each is drawn below ten; the first failure ends it.
unfoldable pub draw : List (Result ℕ) → Result Bytes
draw [] = ret []
draw (err e ∷ more) = err (wrapped "secret: read random" e)
draw (ret n ∷ more) = elim (draw more) [ err e ↦ err e | ret rest ↦ ret ((48 + n) ∷ rest) ]

-- `NumericCode`, where `random` gives as many draws as it is asked for.
unfoldable pub numeric_code : (ℕ → List (Result ℕ)) → ℤ → Result Bytes
unfolding draw
numeric_code random size =
    if leb_ℤ size (pos 0)
    then err (plain "secret: code length must be positive")
    else draw (random (pos_part size))

-- A token matches exactly the hash that is made of it.
pub matches_iff :
    (sha256 : Bytes → Bytes) (secret hashed : Bytes)
    → (matches sha256 secret hashed ≡ true) ↔ (hash sha256 secret ≡ hashed)
unfolding matches equal
matches_iff sha256 secret hashed = (
  bytes_eq_sound (hash sha256 secret) hashed,
  λ e. ap (bytes_eq (hash sha256 secret)) (sym e) ∙ bytes_eq_refl (hash sha256 secret),
)
