-- ===== src/Apperr/Chains.antt =====
-- apperr/apperr.go: what `As`, `KindOf` and `CodeOf` find in a chain of wrapped errors, and the
-- clones of `WithField`.
use hockey_libs.Prelude.{
  ◌≡◌, refl, String, some, List, [], ◌∷◌, arith, lookup, lookup-insert, if◌then◌else◌, str_eq,
}
use hockey_libs.Errors.{Err, wrapped}
use hockey_libs.Apperr.{Error, boxed, with_field, as_error, kind_of, code_of}

-- `fmt.Errorf("...: %w", err)`, any number of times; the outermost text stands first.
abbrev pub layers : List String → Err → Err
layers [] e = e
layers (t ∷ ts) e = wrapped t (layers ts e)

pub as_error-boxed : (e : Error) → as_error (boxed e) ≡ some e
unfolding as_error boxed
as_error-boxed e = ground arith

pub as_error-layers : (ts : List String) (e : Err) → as_error (layers ts e) ≡ as_error e
unfolding as_error
as_error-layers [] e = refl
as_error-layers (t ∷ ts) e = as_error-layers ts e

-- A domain error is found under any number of `%w` layers, with its kind and its code, whatever
-- domain errors it wraps itself.
pub kind_of-layers :
    (ts : List String) (e : Error)
    → (kind_of (some (layers ts (boxed e))) ≡ e.kind)
      × (code_of (some (layers ts (boxed e))) ≡ e.code)
unfolding kind_of code_of
kind_of-layers ts e = ground (arith, as_error-layers ts (boxed e), as_error-boxed e)

-- `WithField` sets one key of the clone, keeps every other field, and touches nothing else.
pub with_field-lookup :
    (e : Error) (key value j : String)
    → (lookup j (with_field e key value).fields
        ≡ (if str_eq key j then some value else lookup j e.fields))
      × ((with_field e key value).kind ≡ e.kind)
      × ((with_field e key value).code ≡ e.code)
      × ((with_field e key value).message ≡ e.message)
      × ((with_field e key value).err ≡ e.err)
unfolding with_field
with_field-lookup e key value j = (lookup-insert key j value e.fields, refl, refl, refl, refl)
