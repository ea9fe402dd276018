-- ===== src/Outbox/Repository.antt =====
-- outbox/outbox.go: the queue as a table of PostgreSQL. Each function is the SQL statement of its
-- method, over the table of outbox/migrations/20260813000000_outbox.sql.
mod Statements
mod Claiming
pub mod Claim
pub mod Taken
pub mod Rows
pub mod Ops
pub mod Loss
pub mod PrimaryKey
pub mod Columns
pub mod WellFormed
pub mod Life
pub mod Earliest
unfoldable pub use Statements.*
unfoldable pub use Claiming.*
use Prim.Native.String
use hockey_libs.Prelude.{
  ℕ, suc, ◌-◌, ℤ, pos, pos_part, Duration, String, Bool, false, not, Option, none, some, List, [],
  ◌∷◌, ◌++◌, length, ◌==◌, str_eq, leb, ltb_ℤ, leb_ℤ, ◌-ℤ◌, ◌*ℤ◌, nanos, int32_seconds,
  if◌then◌else◌,
}
use hockey_libs.Errors.{Err, wrapped, plain, pg}
use hockey_libs.Outbox.Queue.{Uuid, Queue}

unfoldable pub complete_row : Call → Uuid → Table → Option Err × Table
complete_row c id t = exec c "outbox: complete" (delete_where (λ r. r.id == id)) t

-- CASE WHEN attempts >= max_attempts THEN now() ELSE NULL END
unfoldable pub retry_row : Call → Duration → String → Row → Row
retry_row c backoff reason r = record r {
  next_attempt_at = later c backoff;
  last_error = truncate reason;
  failed_at = if leb r.max_attempts r.attempts then some c.now else none;
}

unfoldable pub retry : Call → Uuid → Duration → String → Table → Option Err × Table
retry c id backoff reason t = exec c "outbox: retry" (update_id id (retry_row c backoff reason)) t

-- GREATEST(attempts - 1, 0)
unfoldable pub defer_row : Call → Duration → Row → Row
defer_row c delay r = record r { next_attempt_at = later c delay; attempts = r.attempts - 1 }

unfoldable pub defer : Call → Uuid → Duration → Table → Option Err × Table
defer c id delay t = exec c "outbox: defer" (update_id id (defer_row c delay)) t

-- WHERE id = $1 AND failed_at IS NULL
unfoldable pub fail_row : Call → String → Row → Row
fail_row c reason r =
    if is_none r.failed_at
    then record r { failed_at = some c.now; last_error = truncate reason }
    else r

unfoldable pub fail : Call → Uuid → String → Table → Option Err × Table
fail c id reason t = exec c "outbox: fail" (update_id id (fail_row c reason)) t

unfoldable pub count_where : (Row → Bool) → Table → ℕ
count_where p [] = 0
count_where p (r ∷ t) = let rest = count_where p t in if p r then suc rest else rest

abbrev pub query_row : Call → String → ℕ → ℕ × Option Err
query_row c context n = elim c.failure [
  | none ↦ (n, none)
  | some f ↦ (0, some (wrapped context f.error))
]

unfoldable pub count_pending : Call → Table → ℕ × Option Err
count_pending c t = query_row c "outbox: count pending" (count_where (λ r. is_none r.failed_at) t)

unfoldable pub count_failed : Call → Table → ℕ × Option Err
count_failed c t =
    query_row c "outbox: count failed" (count_where (λ r. not (is_none r.failed_at)) t)

-- WHERE failed_at IS NOT NULL AND failed_at < now() - make_interval(secs => $1::int)
unfoldable pub is_expired : Call → Duration → Row → Bool
is_expired c retention r = elim r.failed_at [
  | none ↦ false
  | some at ↦ ltb_ℤ at (c.now -ℤ int32_seconds c.convert retention *ℤ pos nanos)
]

unfoldable pub delete_old_failed : Call → Duration → Table → ℕ × Option Err × Table
delete_old_failed c retention t = elim c.failure [
  | none ↦ (count_where (is_expired c retention) t, none, delete_where (is_expired c retention) t)
  | some f ↦ (
    0,
    some (wrapped "outbox: cleanup" f.error),
    if f.applied then delete_where (is_expired c retention) t else t,
  )
]

-- Enqueue: `fresh` is the result of `uuid.NewV7`.
abbrev pub default_max_attempts : ℕ
default_max_attempts = 5

abbrev pub nil_uuid : Uuid
nil_uuid = 0

unfoldable pub new_row : Call → Uuid → String → List ℕ → ℕ → Row
new_row c id kind payload max_attempts = record {
  id = id;
  kind = kind;
  payload = c.jsonb payload;
  attempts = 0;
  max_attempts = max_attempts;
  next_attempt_at = c.now;
  failed_at = none;
  last_error = none;
  created_at = c.now;
}

-- INSERT, with the primary key of the table.
unfoldable pub insert_row : Call → Row → Table → Uuid × Option Err × Table
insert_row c r t =
    if is_member r.id (ids t)
    then (
      nil_uuid,
      some (
          wrapped "outbox: enqueue"
            (pg (record { code = "23505"; constraint_name = "outbox_pkey" }))),
      t,
    )
    else elim c.failure [
      | none ↦ (r.id, none, t ++ r ∷ [])
      | some f ↦
          (nil_uuid, some (wrapped "outbox: enqueue" f.error), if f.applied then t ++ r ∷ [] else t)
    ]

abbrev pub attempts_or_default : ℤ → ℕ
attempts_or_default limit = if leb_ℤ limit (pos 0) then default_max_attempts else pos_part limit

unfoldable pub enqueue :
    Call → Option Uuid → String → List ℕ → ℤ → Table → Uuid × Option Err × Table
enqueue c fresh kind payload max_attempts t =
    if str_eq kind ""
    then (nil_uuid, some (plain "outbox: kind is required"), t)
    else if leb (length payload) 0
    then (nil_uuid, some (plain "outbox: payload is required"), t)
    else elim fresh [
      | none ↦ (nil_uuid, some (wrapped "outbox: generate id" (plain "uuid")), t)
      | some id ↦ insert_row c (new_row c id kind payload (attempts_or_default max_attempts)) t
    ]

-- `NewRepository`: the table behind the worker's interfaces.
abbrev pub repository : Queue Table Call
repository = record {
  claim = claim;
  complete = complete_row;
  retry = retry;
  defer = defer;
  fail = fail;
  delete_old_failed = delete_old_failed;
  counter = some (record { count_pending = count_pending; count_failed = count_failed });
}
