-- ===== src/Token/Jwt.antt =====
-- token/token.go: what the package uses of github.com/golang-jwt/jwt/v5, encoding/pem and crypto/x509.
use hockey_libs.Prelude.{
  ◌≡◌, String, Bool, true, false, Option, none, some, List, Duration, Time, leb_ℤ, ltb_ℤ, ◌+ℤ◌,
  ◌-ℤ◌, contains, str_eq, [], ◌⊎◌,
}
use hockey_libs.Errors.{Err, Result, ret}
use hockey_libs.Token.{Claims}

abbrev pub alg_hs256 : String
alg_hs256 = "HS256"

abbrev pub alg_eddsa : String
alg_eddsa = "EdDSA"

-- The options of `jwt.NewParser`; an expiration is required.
pub record Options : Type 0 where
  pub methods : List String
  pub issuer : String
  pub leeway : Duration
  pub audiences : List String

-- What `ParseWithClaims` leaves: the claims that it filled, `Valid`, and its error.
pub record Parsed : Type 0 where
  pub claims : Claims
  pub valid : Bool
  pub failure : Option Err

-- A list of audiences that the library does not take for a missing one: a token whose audiences are
-- all empty has none for it.
abbrev pub IsNamed : List String → Type 0
IsNamed audience =
    (audience ≡ []) ⊎ ((a : String) × (contains audience a ≡ true) × (str_eq a "" ≡ false))

-- A token that a parser with these options accepts: the method and the issuer are the expected
-- ones, every audience is among the token's, and the instant is in the token's time, which the leeway
-- extends at both ends, or cuts where it is negative.
pub record Accepted (o : Options) (alg : String) (now : Time) (c : Claims) : Type 0 where
  pub method : contains o.methods alg ≡ true
  pub issuer : c.issuer ≡ o.issuer
  pub audiences : (a : String) → contains o.audiences a ≡ true → contains c.audience a ≡ true
  pub named : IsNamed c.audience
  pub begun : leb_ℤ (c.not_before -ℤ o.leeway) now ≡ true
  pub running : ltb_ℤ now (c.expires_at +ℤ o.leeway) ≡ true

-- github.com/golang-jwt/jwt/v5, encoding/pem and crypto/x509. `Matches s v` says that `v` verifies
-- what `s` signs. `numeric_date` is `jwt.NewNumericDate`, which drops fractions of a second.
pub record Jwt (Key Block ParsedKey : Type 0) : Type 1 where
  pub secret_key : String → Key
  pub pem_decode : String → Option Block
  pub parse_pkcs8 : Block → Result ParsedKey
  pub parse_pkix : Block → Result ParsedKey
  pub as_private : ParsedKey → Option Key
  pub as_public : ParsedKey → Option Key
  pub public_of : Key → Key
  pub numeric_date : Time → Time
  pub sign : String → Key → Claims → Result String
  pub parse : Options → Option Key → Time → String → Parsed
  pub Matches : String → Key → Key → Type 0
  pub secret_matches : (s : String) → Matches alg_hs256 (secret_key s) (secret_key s)
  pub public_matches : (k : Key) → Matches alg_eddsa k (public_of k)
  pub numeric_date_le : (t : Time) → leb_ℤ (numeric_date t) t ≡ true
  pub parse-sign :
      (o : Options) (alg : String) (s v : Key) (now : Time) (c : Claims) (raw : String)
      → sign alg s c ≡ ret raw
      → Matches alg s v
      → Accepted o alg now c
      → parse o (some v) now raw ≡ (record { claims = c; valid = true; failure = none })
