-- ===== src/Outbox/Repository/Claiming.antt =====
-- outbox/outbox.go: `Claim`.
use hockey_libs.Prelude.{
  ℕ, ◌+◌, ℤ, pos, negsuc, Duration, Bool, true, false, not, ◌&&◌, ◌||◌, Option, none, some, List,
  [], ◌∷◌, take, ◌==◌, ltb, leb_ℤ, if◌then◌else◌, map,
}
use hockey_libs.Errors.{Err, wrapped, plain}
use hockey_libs.Outbox.Queue.{Uuid, Message}
use hockey_libs.Outbox.Repository.Statements.{
  Row, Table, Reading, Call, later, is_none, complete, broken, unscannable,
}

-- Claim: the rows that are due, the earliest first, at most a batch of them.
abbrev pub is_due : Call → Row → Bool
is_due c r = is_none r.failed_at && leb_ℤ r.next_attempt_at c.now

abbrev pub insert_by_time : Row → List Row → List Row
insert_by_time r [] = r ∷ []
insert_by_time r (s ∷ rows) =
    let rest = insert_by_time r rows in
    if leb_ℤ r.next_attempt_at s.next_attempt_at then r ∷ s ∷ rows else s ∷ rest

-- ORDER BY next_attempt_at; rows of one instant stay in the table's order.
unfoldable pub order_by_time : List Row → List Row
order_by_time [] = []
order_by_time (r ∷ rows) = insert_by_time r (order_by_time rows)

-- WHERE failed_at IS NULL AND next_attempt_at <= now() FOR UPDATE SKIP LOCKED
unfoldable pub candidates : Call → Table → List Row
candidates c [] = []
candidates c (r ∷ t) =
    let rest = candidates c t in if is_due c r && not (c.locked r.id) then r ∷ rest else rest

abbrev pub ids : Table → List Uuid
ids = map (λ r. r.id)

unfoldable pub picked : Call → ℕ → Table → List Uuid
picked c limit t = ids (take limit (order_by_time (candidates c t)))

unfoldable pub is_member : Uuid → List Uuid → Bool
is_member id [] = false
is_member id (x ∷ xs) = x == id || is_member id xs

-- SET attempts = attempts + 1, next_attempt_at = now() + make_interval(secs => $1::int)
unfoldable pub lease_row : Call → Duration → Row → Row
lease_row c visibility r = record r {
  attempts = r.attempts + 1;
  next_attempt_at = later c visibility;
}

unfoldable pub lease : Call → Duration → List Uuid → Table → Table
lease c visibility chosen [] = []
lease c visibility chosen (r ∷ t) =
    (if is_member r.id chosen then lease_row c visibility r else r) ∷ lease c visibility chosen t

abbrev pub message_of : Row → Message
message_of r = record {
  id = r.id;
  kind = r.kind;
  payload = r.payload;
  attempts = r.attempts;
  max_attempts = r.max_attempts;
}

-- RETURNING id, kind, payload, attempts, max_attempts, after the update.
unfoldable pub returning : List Uuid → Table → List Message
returning chosen [] = []
returning chosen (r ∷ t) =
    let rest = returning chosen t in if is_member r.id chosen then message_of r ∷ rest else rest

-- A smallint column takes 32767 at most.
unfoldable pub fits_smallint : Table → Bool
fits_smallint [] = true
fits_smallint (r ∷ t) = ltb r.attempts 32768 && fits_smallint t

abbrev pub read_rows : Reading → List Message → List Message × Option Err
read_rows complete ms = (ms, none)
read_rows (broken n e) ms = (take n ms, some e)
read_rows (unscannable e) ms = ([], some (wrapped "outbox: scan" e))

unfoldable pub claim_rows : Call → ℕ → Duration → Table → List Message × Option Err × Table
claim_rows c limit visibility t =
    let chosen = picked c limit t in
    let leased = lease c visibility chosen t in
    if not (fits_smallint leased)
    then ([], some (wrapped "outbox: claim" (plain "smallint out of range")), t)
    else elim c.failure [
      | some f ↦ ([], some (wrapped "outbox: claim" f.error), if f.applied then leased else t)
      | none ↦
          let (messages, err) = read_rows c.reading (returning chosen leased) in
          (messages, err, leased)
    ]

unfoldable pub claim : Call → ℤ → Duration → Table → List Message × Option Err × Table
claim c (pos limit) visibility t = claim_rows c limit visibility t
claim c (negsuc _) visibility t =
    ([], some (wrapped "outbox: claim" (plain "LIMIT must not be negative")), t)
