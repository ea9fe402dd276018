-- ===== src/Postgresql/ErrorMap.antt =====
-- postgresql/errors.go: database errors become domain errors.
mod Examples
pub mod Laws
use hockey_libs.Prelude.{
  ◌≡◌, String, Bool, true, false, Option, none, some, List, [], ◌∷◌, str_eq, contains, ◌||◌, ◌&&◌,
  if◌then◌else◌,
}
use hockey_libs.Errors.{Kind, Err, PgError, pg, Sentinel, walk, is}
use hockey_libs.Apperr.{Error, boxed, wrap, with_field}

abbrev pub code_unique_violation : String
code_unique_violation = "23505"

abbrev pub code_foreign_key_violation : String
code_foreign_key_violation = "23503"

abbrev pub code_not_null_violation : String
code_not_null_violation = "23502"

abbrev pub code_check_violation : String
code_check_violation = "23514"

abbrev pub code_exclusion_violation : String
code_exclusion_violation = "23P01"

abbrev pub code_serialization_failure : String
code_serialization_failure = "40001"

abbrev pub code_deadlock_detected : String
code_deadlock_detected = "40P01"

abbrev pub code_query_canceled : String
code_query_canceled = "57014"

abbrev pub code_lock_not_available : String
code_lock_not_available = "55P03"

abbrev pub pg_probe : Err → Option PgError
pg_probe (pg p) = some p
pg_probe _ = none

unfoldable pub as_pg_error : Err → Option PgError
unfolding walk
as_pg_error e = walk pg_probe e

abbrev box : Option Error → Option Err
box none = none
box (some e) = some (boxed e)

-- The closure `mapped` of `MapError`. `Wrap` returns nil for a nil error only.
abbrev pub tagged : PgError → Option Error → Option Error
tagged p none = none
tagged p (some e) =
    some (with_field (with_field e "pg_code" p.code) "pg_constraint" p.constraint_name)

unfoldable pub mapped : Err → PgError → Kind → String → String → Option Err
mapped err p kind code message = box (tagged p (wrap (some err) kind code message))

pub record Mapping : Type 0 where
  pub kind : Kind
  pub code : String
  pub message : String

-- The `switch` over the SQLSTATE: the arguments of the call of `mapped` in each case.
unfoldable pub mapping : String → Mapping
mapping code =
    if str_eq code code_unique_violation
    then record {
      kind = Kind.already_exists;
      code = "already_exists";
      message = "resource already exists";
    }
    else if str_eq code code_foreign_key_violation
    then record {
      kind = Kind.failed_precondition;
      code = "foreign_key_violation";
      message = "related resource is missing";
    }
    else if str_eq code code_not_null_violation
        || str_eq code code_check_violation
        || str_eq code code_exclusion_violation
    then record {
      kind = Kind.invalid_argument;
      code = "constraint_violation";
      message = "request violates a data constraint";
    }
    else if str_eq code code_serialization_failure
        || str_eq code code_deadlock_detected
        || str_eq code code_lock_not_available
    then record {
      kind = Kind.conflict;
      code = "write_conflict";
      message = "concurrent update, please retry";
    }
    else if str_eq code code_query_canceled
    then record { kind = Kind.timeout; code = "query_canceled"; message = "request timed out" }
    else record { kind = Kind.internal; code = "database_error"; message = "internal error" }

unfoldable pub map_pg_error : Err → PgError → Option Err
unfolding mapped mapping
map_pg_error err p = let m = mapping p.code in mapped err p m.kind m.code m.message

unfoldable pub map_error : Option Err → Option Err
unfolding is as_pg_error
map_error none = none
map_error (some err) =
    if is Sentinel.no_rows err
    then box (wrap (some err) Kind.not_found "not_found" "resource not found")
    else elim (as_pg_error err) [
      | none ↦ box (wrap (some err) Kind.internal "database_error" "internal error")
      | some p ↦ map_pg_error err p
    ]

abbrev pub find_pg_error : Option Err → Option PgError
find_pg_error none = none
find_pg_error (some e) = as_pg_error e

abbrev is_empty {ℓ} : {A : Type ℓ} → List A → Bool
is_empty [] = true
is_empty (x ∷ xs) = false

unfoldable pub is_unique_violation : Option Err → List String → Bool
unfolding contains
is_unique_violation err constraints = elim (find_pg_error err) [
  | none ↦ false
  | some p ↦
      str_eq p.code code_unique_violation
      && (if is_empty constraints then true else contains constraints p.constraint_name)
]

unfoldable pub is_foreign_key_violation : Option Err → Bool
is_foreign_key_violation err = elim (find_pg_error err) [
  | none ↦ false
  | some p ↦ str_eq p.code code_foreign_key_violation
]

unfoldable pub is_no_rows : Option Err → Bool
unfolding is
is_no_rows none = false
is_no_rows (some e) = is Sentinel.no_rows e
