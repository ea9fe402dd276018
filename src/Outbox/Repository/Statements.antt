-- ===== src/Outbox/Repository/Statements.antt =====
-- outbox/outbox.go: the table of outbox/migrations/20260813000000_outbox.sql, what the database adds to
-- a call, and the shapes of the statements that change rows.
use hockey_libs.Prelude.{
  ℕ, zero, suc, ℤ, pos, Duration, Time, String, Bool, true, false, Option, none, some, List, [],
  ◌∷◌, ◌==◌, str_eq, ltb, ◌+ℤ◌, ◌*ℤ◌, nanos, int32_seconds, if◌then◌else◌,
}
use hockey_libs.Errors.{Err, wrapped}
use hockey_libs.Outbox.Queue.{Uuid}

pub record Row : Type 0 where
  pub id : Uuid
  pub kind : String
  pub payload : List ℕ
  pub attempts : ℕ
  pub max_attempts : ℕ
  pub next_attempt_at : Time
  pub failed_at : Option Time
  pub last_error : Option String
  pub created_at : Time

abbrev pub Table : Type 0
Table = List Row

-- How a statement that fails ends: its error, and whether it took effect before the error.
pub record Failure : Type 0 where
  pub error : Err
  pub applied : Bool

-- How the rows of a query are read: all of them, some before `rows.Err`, or a failing `Scan`.
pub data Reading : Type 0 where
  complete : Reading
  broken : ℕ → Err → Reading
  unscannable : Err → Reading

-- What the database contributes to one statement: its clock, the rows that other transactions
-- lock, what `jsonb` makes of a payload, and failures.
pub record Call : Type 0 where
  pub now : Time
  pub locked : Uuid → Bool
  pub jsonb : List ℕ → List ℕ
  pub convert : ℤ → ℤ
  pub failure : Option Failure
  pub reading : Reading

-- `db.Exec`: the error, wrapped, and the table after the statement.
abbrev pub exec : Call → String → (Table → Table) → Table → Option Err × Table
exec c context statement t = elim c.failure [
  | none ↦ (none, statement t)
  | some f ↦ (some (wrapped context f.error), if f.applied then statement t else t)
]

-- `now() + make_interval(secs => ...)`
abbrev pub later : Call → Duration → Time
later c d = c.now +ℤ int32_seconds c.convert d *ℤ pos nanos

-- UPDATE ... WHERE id = $1
unfoldable pub update_id : Uuid → (Row → Row) → Table → Table
update_id id f [] = []
update_id id f (r ∷ t) = (if r.id == id then f r else r) ∷ update_id id f t

-- DELETE ... WHERE p
unfoldable pub delete_where : (Row → Bool) → Table → Table
delete_where p [] = []
delete_where p (r ∷ t) = let rest = delete_where p t in if p r then rest else r ∷ rest

abbrev pub is_none {ℓ} : {A : Type ℓ} → Option A → Bool
is_none none = true
is_none (some x) = false

-- `truncate`: NULL for an empty text, else its first 512 runes.
abbrev pub max_error_length : ℕ
max_error_length = 512

abbrev pub runes : String → ℕ
runes String.[] = 0
runes (String.◌∷◌ c s) = suc (runes s)

unfoldable pub take_runes : ℕ → String → String
take_runes zero s = ""
take_runes (suc n) String.[] = ""
take_runes (suc n) (String.◌∷◌ c s) = String.◌∷◌ c (take_runes n s)

unfoldable pub truncate : String → Option String
truncate reason =
    if str_eq reason ""
    then none
    else if ltb max_error_length (runes reason)
    then some (take_runes max_error_length reason)
    else some reason
