-- ===== src/Prelude/Dict.antt =====
-- Go maps with string keys as association lists: `m[k]` is `lookup`, `m[k] = v` is `insert`.
use Prim.Native.String.{String}
use Prim.Native.String
use mathlib.Core.Path.{◌≡◌, refl}
use mathlib.Core.Bool.{Bool, true, false}
use mathlib.Core.Option.{Option, none, some}
use mathlib.Core.List.{List, [], ◌∷◌}
use native.Mathlib.Omega.{arith}
use text.Mathlib.Text.{◌==◌ as str_eq}
use text.Mathlib.TextEquality.{eq_iff}
use hockey_libs.Prelude.Tests.{if◌then◌else◌}

-- `fmt.Sprintf` of texts, `+` on strings.
abbrev pub concat : List String → String
concat [] = ""
concat (s ∷ ss) = String.◌++◌ s (concat ss)

-- Membership in a list of strings, which is a lookup in the set that Go builds from it.
unfoldable pub contains : List String → String → Bool
contains [] k = false
contains (x ∷ xs) k = if str_eq x k then true else contains xs k

pub str_eq_comm : (s t : String) → str_eq s t ≡ str_eq t s
str_eq_comm s t = ground (arith, eq_iff s t, eq_iff t s)

-- The value of the first entry under a key; a store replaces that entry or ends the list.
unfoldable pub lookup {ℓ} : {A : Type ℓ} → String → List (String × A) → Option A
lookup key [] = none
lookup key (entry ∷ rest) =
    let later = lookup key rest in if str_eq entry.0 key then some entry.1 else later

unfoldable pub insert {ℓ} : {A : Type ℓ} → String → A → List (String × A) → List (String × A)
insert key value [] = (key, value) ∷ []
insert key value (entry ∷ rest) =
    let below = entry ∷ insert key value rest in
    if str_eq entry.0 key then (key, value) ∷ rest else below

pub lookup-insert {ℓ} :
    {A : Type ℓ} (stored key : String) (value : A) (dict : List (String × A))
    → lookup key (insert stored value dict)
      ≡ (if str_eq stored key then some value else lookup key dict)
unfolding lookup insert
lookup-insert stored key value [] = refl
lookup-insert stored key value (entry ∷ rest) =
    let induction = lookup-insert stored key value rest in
    ground (arith, eq_iff entry.0 key, eq_iff entry.0 stored, eq_iff stored key)
