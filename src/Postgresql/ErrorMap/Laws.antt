-- ===== src/Postgresql/ErrorMap/Laws.antt =====
-- postgresql/errors.go: what the mapping of database errors keeps and what it decides.
use hockey_libs.Prelude.{
  ◌≡◌, refl, String, false, Option, none, some, List, [], ◌∷◌, arith, lookup, insert, str_eq_comm,
  Bool-cases, Option-cases, inl, inr,
}
use hockey_libs.Errors.{Kind, Err, AppError, app_wrap, PgError, Sentinel, is}
use hockey_libs.Apperr.{Error, find_error, boxed, wrap, with_field}
use hockey_libs.Postgresql.ErrorMap.{
  as_pg_error, map_error, map_pg_error, mapped, mapping, is_no_rows, is_unique_violation,
  is_foreign_key_violation,
}

-- Every mapped error is a domain error around the original one.
abbrev Wraps : Err → Option Err → Type 0
Wraps err r = (f : AppError) × (r ≡ some (app_wrap f err))

map_error-Wraps : (err : Err) → Wraps err (map_error (some err))
unfolding map_error map_pg_error mapped wrap with_field boxed
map_error-Wraps err = elim (Bool-cases (is Sentinel.no_rows err)) [
  | inl e ↦ rw e (_, refl)
  | inr e ↦ elim (Option-cases (as_pg_error err)) [
    | inl n ↦ rw (e, n) (_, refl)
    | inr (p, n) ↦ rw (e, n) (_, refl)
  ]
]

-- Mapping an error hides none of the database facts: the tests for a unique violation, a foreign
-- key violation and a missing row answer on the mapped error as on the original.
pub map_error_keeps :
    (err : Option Err) (constraints : List String)
    → (is_unique_violation (map_error err) constraints ≡ is_unique_violation err constraints)
      × (is_foreign_key_violation (map_error err) ≡ is_foreign_key_violation err)
      × (is_no_rows (map_error err) ≡ is_no_rows err)
unfolding is_unique_violation is_foreign_key_violation is_no_rows
map_error_keeps none constraints = unfold map_error in (refl, refl, refl)
map_error_keeps (some err) constraints =
    let (f, e) = map_error-Wraps err in rw e (unfold as_pg_error is in (refl, refl, refl))

-- The kinds by SQLSTATE, as a table.
abbrev pub kinds : List (String × Kind)
kinds =
    ("23505", Kind.already_exists)
    ∷ ("23503", Kind.failed_precondition)
    ∷ ("23502", Kind.invalid_argument)
    ∷ ("23514", Kind.invalid_argument)
    ∷ ("23P01", Kind.invalid_argument)
    ∷ ("40001", Kind.conflict)
    ∷ ("40P01", Kind.conflict)
    ∷ ("55P03", Kind.conflict)
    ∷ ("57014", Kind.timeout)
    ∷ []

abbrev pub kind_or : Kind → Option Kind → Kind
kind_or k none = k
kind_or k (some j) = j

mapping-kinds : (code : String) → (mapping code).kind ≡ kind_or Kind.internal (lookup code kinds)
unfolding mapping lookup
mapping-kinds code = ground (
  arith,
  str_eq_comm "23505" code,
  str_eq_comm "23503" code,
  str_eq_comm "23502" code,
  str_eq_comm "23514" code,
  str_eq_comm "23P01" code,
  str_eq_comm "40001" code,
  str_eq_comm "40P01" code,
  str_eq_comm "55P03" code,
  str_eq_comm "57014" code,
)

-- A database error that is no missing row gets the kind that the table gives for its SQLSTATE,
-- `internal` if the table has none, and the domain error carries the SQLSTATE and the constraint.
pub map_error_table :
    (err : Err) (p : PgError)
    → is_no_rows (some err) ≡ false
    → as_pg_error err ≡ some p
    → (e : Error) × (find_error (map_error (some err)) ≡ some e)
      × (e.kind ≡ kind_or Kind.internal (lookup p.code kinds))
      × (lookup "pg_code" e.fields ≡ some p.code)
      × (lookup "pg_constraint" e.fields ≡ some p.constraint_name)
unfolding map_error map_pg_error mapped wrap with_field boxed is_no_rows find_error lookup insert
map_error_table err p n h =
    let m = mapping p.code in
    let plain : Error = record {
      head = record { kind = m.kind; code = m.code; message = m.message; fields = [] };
      err = some err;
    } in
    let tagged : Error =
      with_field (with_field plain "pg_code" p.code) "pg_constraint" p.constraint_name in
    (tagged, rw (n, h) refl, mapping-kinds p.code, refl, refl)
