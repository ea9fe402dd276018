-- ===== src/Postgresql/ErrorMap/Examples.antt =====
-- postgresql/errors.go: the theorems at a unique violation that a repository wrapped.
use hockey_libs.Prelude.{◌≡◌, refl, false, some, [], ◌∷◌}
use hockey_libs.Errors.{Err, PgError, pg, wrapped, walk, is}
use hockey_libs.Postgresql.ErrorMap.{
  as_pg_error, map_error, is_no_rows, is_unique_violation, is_foreign_key_violation,
}
use hockey_libs.Postgresql.ErrorMap.Laws.{map_error_keeps}

abbrev violation : PgError
violation = record { code = "23505"; constraint_name = "users_email_key" }

abbrev insert_failed : Err
insert_failed = wrapped "insert user" (pg violation)

map_error_keeps_example :
    (is_unique_violation (map_error (some insert_failed)) ("users_email_key" ∷ [])
      ≡ is_unique_violation (some insert_failed) ("users_email_key" ∷ []))
    × (is_foreign_key_violation (map_error (some insert_failed))
        ≡ is_foreign_key_violation (some insert_failed))
    × (is_no_rows (map_error (some insert_failed)) ≡ is_no_rows (some insert_failed))
map_error_keeps_example = map_error_keeps (some insert_failed) ("users_email_key" ∷ [])

no_rows_test : is_no_rows (some insert_failed) ≡ false
unfolding is_no_rows is walk
no_rows_test = refl

as_pg_error_test : as_pg_error insert_failed ≡ some violation
unfolding as_pg_error walk
as_pg_error_test = refl
