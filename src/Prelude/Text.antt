-- ===== src/Prelude/Text.antt =====
-- Texts character by character: strings.Split at one character, and strings.TrimSpace.
use Prim.Native.Char.{Char, char, code}
use text.Mathlib.TextEquality.{eq_iff}
use text.Mathlib.TextLemmas.{nil-append, cons-append}
use Prim.Native.Nat.{ℕ}
use Prim.Native.String.{String}
use Prim.Native.String
use mathlib.Core.Path.{◌≡◌, refl, ap, ◌∙◌}
use text.Mathlib.Text.{◌==◌ as str_eq}
use mathlib.Core.Logic.{◌≢◌, inl, inr}
use mathlib.Core.Bool.{Bool, false, ◌&&◌, ◌||◌}
use mathlib.Core.List.{List, [], ◌∷◌, ◌++◌}
use native.Mathlib.Omega.{arith}
use hockey_libs.Prelude.Tests.{leb, ◌==◌, Bool-cases, if◌then◌else◌}

abbrev extend : Char → List String → List String
extend c [] = (String.◌∷◌ c "") ∷ []
extend c (w ∷ ws) = (String.◌∷◌ c w) ∷ ws

-- `strings.Split(s, sep)` for a separator of one character.
unfoldable pub split : ℕ → String → List String
split sep String.[] = "" ∷ []
split sep (String.◌∷◌ c s) =
    let rest = split sep s in if code c == sep then "" ∷ rest else extend c rest

split-cons : (sep : ℕ) (s : String) → (w : String) × (ws : List String) × (split sep s ≡ w ∷ ws)
unfolding split
split-cons sep String.[] = (_, _, refl)
split-cons sep (String.◌∷◌ c s) =
    let (w, ws, e) = split-cons sep s in
    elim (Bool-cases (code c == sep)) [ inl h ↦ rw h (_, _, refl) | inr h ↦ rw (h, e) (_, _, refl) ]

extend-append :
    (c : Char) (sep : ℕ) (s : String) (more : List String)
    → extend c (split sep s ++ more) ≡ extend c (split sep s) ++ more
extend-append c sep s more = let (w, ws, e) = split-cons sep s in rw e refl

split-append :
    (sep : ℕ) (s t : String) (c : Char)
    → code c ≡ sep
    → split sep (String.◌++◌ s (String.◌∷◌ c t)) ≡ split sep s ++ split sep t
unfolding split
split-append sep String.[] t c h = rw (nil-append (String.◌∷◌ c t)) (ground arith)
split-append sep (String.◌∷◌ d s) t c h =
    rw (cons-append d s (String.◌∷◌ c t)) (elim (Bool-cases (code d == sep)) [
      | inl e ↦ rw (e, split-append sep s t c h) refl
      | inr e ↦ rw (e, split-append sep s t c h) (extend-append d sep s (split sep t))
    ])

-- unicode.IsSpace
abbrev pub is_space : ℕ → Bool
is_space n =
    (leb 9 n && leb n 13)
    || n == 32
    || n == 133
    || n == 160
    || n == 5760
    || (leb 8192 n && leb n 8202)
    || n == 8232
    || n == 8233
    || n == 8239
    || n == 8287
    || n == 12288

abbrev trim_start : String → String
trim_start String.[] = ""
trim_start (String.◌∷◌ c s) =
    let rest = trim_start s in if is_space (code c) then rest else String.◌∷◌ c s

abbrev keep : Char → String → String
keep c String.[] = if is_space (code c) then "" else String.◌∷◌ c ""
keep c (String.◌∷◌ d s) = String.◌∷◌ c (String.◌∷◌ d s)

abbrev trim_end : String → String
trim_end String.[] = ""
trim_end (String.◌∷◌ c s) = keep c (trim_end s)

unfoldable pub trim_space : String → String
trim_space s = trim_end (trim_start s)

spaces_test : trim_space " a b  " ≡ "a b"
unfolding trim_space
spaces_test = refl

comma_test : split b',' "a,b,,c" ≡ "a" ∷ "b" ∷ "" ∷ "c" ∷ []
unfolding split
comma_test = refl

abbrev comma : Char
comma = char 44 tt

comma-append : (t : String) → String.◌++◌ "," t ≡ String.◌∷◌ comma t
comma-append t = cons-append comma "" t ∙ ap (String.◌∷◌ comma) (nil-append t)

-- Splitting at a separator that stands between two texts.
pub split-concat :
    (s t : String) → split b',' (String.◌++◌ s (String.◌++◌ "," t)) ≡ split b',' s ++ split b',' t
split-concat s t = rw (comma-append t) (split-append b',' s t comma refl)

cons-ne-nil : (c : Char) (s : String) → String.◌∷◌ c s ≢ String.[]
cons-ne-nil c s e = cc

cons-ne-empty : (c : Char) (s : String) → str_eq (String.◌∷◌ c s) "" ≡ false
cons-ne-empty c s = elim (Bool-cases (str_eq (String.◌∷◌ c s) "")) [
  | inl e ↦ absurd (cons-ne-nil c s ((eq_iff (String.◌∷◌ c s) "").0 e))
  | inr e ↦ e
]

-- A text with a separator in it is not empty.
pub concat-ne-empty : (s t : String) → str_eq (String.◌++◌ s (String.◌++◌ "," t)) "" ≡ false
concat-ne-empty String.[] t =
    rw (comma-append t, nil-append (String.◌∷◌ comma t)) (cons-ne-empty comma t)
concat-ne-empty (String.◌∷◌ c s) t =
    rw (cons-append c s (String.◌++◌ "," t)) (cons-ne-empty c (String.◌++◌ s (String.◌++◌ "," t)))
