-- ===== src/Outbox/Repository/WellFormed.antt =====
-- outbox/outbox.go: what holds of the table after any calls, by any workers.
use hockey_libs.Prelude.{pos, negsuc, String, Bool, List, [], ◌∷◌, ◌==◌}
use hockey_libs.Outbox.Queue.{Uuid}
use hockey_libs.Outbox.Repository.{
  Row, Table, Call, picked, retry_row, defer_row, fail_row, is_expired, update_id, delete_where,
  complete_row, retry, defer, fail, claim, new_row, attempts_or_default, exec,
}
use hockey_libs.Outbox.Repository.Rows.{Distinct, KeepsId}
use hockey_libs.Outbox.Repository.Loss.{fail_row-KeepsId, retry_row-KeepsId, defer_row-KeepsId}
use hockey_libs.Outbox.Repository.Ops.{
  Op, claims, completes, retries, defers, fails, cleans, enqueues, step, steps, exec-keeps,
  claim_rows-keeps, delete_old_failed-keeps, enqueue-keeps,
}
use hockey_libs.Outbox.Repository.PrimaryKey.{
  Distinct-update, Distinct-lease, Distinct-delete, Distinct-append,
}
use hockey_libs.Outbox.Repository.Columns.{
  IsRow, AllRows, AllRows-update, AllRows-lease, AllRows-delete, AllRows-append, fail_row-IsRow,
  retry_row-IsRow, defer_row-IsRow, new_row-IsRow,
}

-- The primary key holds, every error text fits its column, every count of attempts is a smallint,
-- and every message may be attempted.
pub record WellFormed (t : Table) : Type 0 where
  pub distinct : Distinct t
  pub rows : AllRows t

updated-WellFormed :
    (c : Call) (context : String) (id : Uuid) (f : Row → Row) (t : Table)
    → KeepsId f
    → ((r : Row) → IsRow r → IsRow (f r))
    → WellFormed t
    → WellFormed (exec c context (update_id id f) t).1
updated-WellFormed c context id f t k h w =
    exec-keeps WellFormed c context (update_id id f) t w (record {
      distinct = Distinct-update id f k t w.distinct;
      rows = AllRows-update id f h t w.rows;
    })

deleted-WellFormed : (p : Row → Bool) (t : Table) → WellFormed t → WellFormed (delete_where p t)
deleted-WellFormed p t w = record {
  distinct = Distinct-delete p t w.distinct;
  rows = AllRows-delete p t w.rows;
}

-- Every call keeps the table well formed, with or without failures of the database.
pub step-WellFormed : (op : Op) (t : Table) → WellFormed t → WellFormed (step op t)
unfolding step
step-WellFormed (claims c (pos limit) visibility) t w =
    unfold claim in
    claim_rows-keeps WellFormed c t w limit visibility λ fits. record {
      distinct = Distinct-lease c visibility (picked c limit t) t w.distinct;
      rows = AllRows-lease c visibility (picked c limit t) t w.rows fits;
    }
step-WellFormed (claims c (negsuc n) visibility) t w = unfold claim in w
step-WellFormed (completes c i) t w =
    unfold complete_row in
    exec-keeps WellFormed c "outbox: complete" (delete_where (λ s. s.id == i)) t w
      (deleted-WellFormed (λ s. s.id == i) t w)
step-WellFormed (retries c i backoff reason) t w =
    unfold retry in
    updated-WellFormed c "outbox: retry" i (retry_row c backoff reason) t
      (retry_row-KeepsId c backoff reason) (retry_row-IsRow c backoff reason) w
step-WellFormed (defers c i delay) t w =
    unfold defer in
    updated-WellFormed c "outbox: defer" i (defer_row c delay) t (defer_row-KeepsId c delay)
      (defer_row-IsRow c delay) w
step-WellFormed (fails c i reason) t w =
    unfold fail in
    updated-WellFormed c "outbox: fail" i (fail_row c reason) t (fail_row-KeepsId c reason)
      (fail_row-IsRow c reason) w
step-WellFormed (cleans c retention) t w =
    delete_old_failed-keeps WellFormed c t w retention
      (deleted-WellFormed (is_expired c retention) t w)
step-WellFormed (enqueues c fresh kind payload limit) t w =
    enqueue-keeps WellFormed c t w fresh kind payload limit λ i new. record {
      distinct =
          Distinct-append t (new_row c i kind payload (attempts_or_default limit)) w.distinct
            (unfold new_row in new);
      rows = AllRows-append t _ w.rows (new_row-IsRow c i kind payload limit);
    }

-- So the table is well formed after any history that starts with the empty table.
pub steps-WellFormed : (ops : List Op) (t : Table) → WellFormed t → WellFormed (steps ops t)
unfolding steps
steps-WellFormed [] t w = w
steps-WellFormed (op ∷ ops) t w = steps-WellFormed ops (step op t) (step-WellFormed op t w)
