-- ===== src/Grpcserver/ErrorMap.antt =====
-- grpcserver/errors.go: domain errors become gRPC statuses. The gRPC status package is a parameter.
mod Examples
pub mod Sample
pub mod Laws
use hockey_libs.Prelude.{
  ◌≡◌, String, Bool, true, false, Option, none, some, List, [], ◌∷◌, str_eq, if◌then◌else◌,
}
use hockey_libs.Errors.{Kind, Code, Status, Detail, error_info, Err, Sentinel, is}
use hockey_libs.Errors
use hockey_libs.Apperr.{Error, as_error}

-- google.golang.org/grpc/status: `has_status e` is the Boolean of `status.FromError(e)`,
-- `status_code` is `status.Code`, and
-- `with_details` is `(*Status).WithDetails`, `none` for its error.
pub record StatusLib : Type 0 where
  pub has_status : Err → Bool
  pub with_details : Status → Detail → Option Status
  pub status_code : Option Err → Code
  pub has_status-status : (s : Status) → has_status (Errors.status s) ≡ true
  pub with_details_keeps :
      (s t : Status) (d : Detail)
      → with_details s d ≡ some t
      → (t.code ≡ s.code) × (t.message ≡ s.message)

abbrev pub error_domain : String
error_domain = "hockeynights"

-- `status.Error`
abbrev pub status_error : Code → String → Err
status_error code message = Errors.status (record { code = code; message = message; details = [] })

unfoldable pub code_of : Kind → Code
code_of Kind.invalid_argument = Code.invalid_argument
code_of Kind.unauthenticated = Code.unauthenticated
code_of Kind.permission_denied = Code.permission_denied
code_of Kind.not_found = Code.not_found
code_of Kind.already_exists = Code.already_exists
code_of Kind.conflict = Code.aborted
code_of Kind.failed_precondition = Code.failed_precondition
code_of Kind.rate_limited = Code.resource_exhausted
code_of Kind.timeout = Code.deadline_exceeded
code_of Kind.unavailable = Code.unavailable
code_of Kind.unknown = Code.internal
code_of Kind.internal = Code.internal

abbrev pub is_internal : Code → Bool
is_internal Code.internal = true
is_internal _ = false

module _ (lib : StatusLib) where
  -- `code` of the application goes to the details, if there is one.
  unfoldable pub with_reason : Status → String → Status
  with_reason st code =
      if str_eq code "" then st else elim (lib.with_details st (error_info code error_domain)) [
        | none ↦ st
        | some detailed ↦ detailed
      ]

  unfoldable pub map_app_error : Error → Err
  unfolding with_reason code_of
  map_app_error e =
      if is_internal (code_of e.kind)
      then status_error Code.internal "internal server error"
      else Errors.status
          (with_reason (record { code = code_of e.kind; message = e.message; details = [] }) e.code)

  -- The branch of `MapError` for an error with no domain error in its chain.
  unfoldable pub map_foreign : Err → Err
  map_foreign err =
      if lib.has_status err
      then err
      else if is Sentinel.canceled err
      then status_error Code.canceled "request canceled"
      else if is Sentinel.deadline_exceeded err
      then status_error Code.deadline_exceeded "request timed out"
      else status_error Code.internal "internal server error"

  -- `MapError` on an error that is not nil.
  unfoldable pub map_some : Err → Err
  map_some err = elim (as_error err) [ some e ↦ map_app_error e | none ↦ map_foreign err ]

  unfoldable pub map_error : Option Err → Option Err
  unfolding map_some
  map_error none = none
  map_error (some err) = some (map_some err)
