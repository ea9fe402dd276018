-- ===== src/Apperr.antt =====
-- apperr/apperr.go: domain errors that know nothing of a transport.
pub mod Chains
use hockey_libs.Prelude.{
  ℕ, ◌≡◌, String, Bool, true, false, Option, none, some, List, [], ◌∷◌, concat, insert, str_eq, not,
  ◌&&◌, if◌then◌else◌,
}
use hockey_libs.Errors.{
  Kind, AppError, Err, app, app_wrap, wrapped, joined, walk, first, is_some, Sentinel,
}

unfoldable pub string : Kind → String
string Kind.invalid_argument = "invalid_argument"
string Kind.unauthenticated = "unauthenticated"
string Kind.permission_denied = "permission_denied"
string Kind.not_found = "not_found"
string Kind.already_exists = "already_exists"
string Kind.conflict = "conflict"
string Kind.failed_precondition = "failed_precondition"
string Kind.rate_limited = "rate_limited"
string Kind.timeout = "timeout"
string Kind.unavailable = "unavailable"
string Kind.internal = "internal"
string Kind.unknown = "unknown"

-- `Error`: the exported fields and the wrapped error.
pub record Error : Type 0 where
  pub head : AppError
  pub open head use *
  pub err : Option Err

-- A `*Error` as a value of the interface `error`.
unfoldable pub boxed : Error → Err
boxed e = elim e.err [ none ↦ app e.head | some inner ↦ app_wrap e.head inner ]

-- `new` is `New`.
unfoldable pub new : Kind → String → String → Error
new kind code message = record {
  head = record { kind = kind; code = code; message = message; fields = [] };
  err = none;
}

unfoldable pub wrap : Option Err → Kind → String → String → Option Error
wrap none kind code message = none
wrap (some e) kind code message = some (record {
  head = record { kind = kind; code = code; message = message; fields = [] };
  err = some e;
})

-- `(*Error).Error`; `render` is the `%v` of the wrapped error.
unfoldable pub error_text : (Err → String) → Error → String
error_text render e = elim e.err [
  | some inner ↦
      if str_eq e.message ""
      then concat (e.code ∷ ": " ∷ render inner ∷ [])
      else concat (e.code ∷ ": " ∷ e.message ∷ ": " ∷ render inner ∷ [])
  | none ↦ if str_eq e.message "" then e.code else concat (e.code ∷ ": " ∷ e.message ∷ [])
]

unfoldable pub unwrap : Error → Option Err
unwrap e = e.err

-- A clone with one more field: the receiver is a value here, so it cannot change.
unfoldable pub with_field : Error → String → String → Error
with_field e key value = record e { head = record (e.head) { fields = insert key value e.fields } }

abbrev pub app_probe : Err → Option Error
app_probe (app f) = some (record { head = f; err = none })
app_probe (app_wrap f e) = some (record { head = f; err = some e })
app_probe _ = none

-- `As`, on an error that is not nil.
unfoldable pub as_error : Err → Option Error
unfolding walk
as_error e = walk app_probe e

unfoldable pub find_error : Option Err → Option Error
unfolding as_error
find_error none = none
find_error (some e) = as_error e

unfoldable pub kind_of : Option Err → Kind
unfolding find_error
kind_of err = elim (find_error err) [ some e ↦ e.kind | none ↦ Kind.unknown ]

unfoldable pub code_of : Option Err → String
unfolding find_error
code_of err = elim (find_error err) [ some e ↦ e.code | none ↦ "" ]

Kind-discrete : Discrete Kind
Kind-discrete = hlevel

unfoldable pub is_kind : Option Err → Kind → Bool
unfolding kind_of Kind-discrete
is_kind err kind = elim (Kind-discrete (kind_of err) kind) [ yes _ ↦ true | no _ ↦ false ]

unfoldable pub invalid_argument : String → String → Error
unfolding new
invalid_argument code message = new Kind.invalid_argument code message

unfoldable pub unauthenticated : String → String → Error
unfolding new
unauthenticated code message = new Kind.unauthenticated code message

unfoldable pub permission_denied : String → String → Error
unfolding new
permission_denied code message = new Kind.permission_denied code message

unfoldable pub not_found : String → String → Error
unfolding new
not_found code message = new Kind.not_found code message

unfoldable pub already_exists : String → String → Error
unfolding new
already_exists code message = new Kind.already_exists code message

unfoldable pub conflict : String → String → Error
unfolding new
conflict code message = new Kind.conflict code message

unfoldable pub failed_precondition : String → String → Error
unfolding new
failed_precondition code message = new Kind.failed_precondition code message

unfoldable pub rate_limited : String → String → Error
unfolding new
rate_limited code message = new Kind.rate_limited code message

unfoldable pub internal : String → String → Error
unfolding new
internal code message = new Kind.internal code message
