-- ===== src/Outbox/Repository/Life.antt =====
-- outbox/outbox.go: what the queue promises about one message, whatever its kind, its payload, its
-- texts and the rest of the table are.
pub mod Refines
use hockey_libs.Prelude.{
  ℕ, ◌+◌, ◌-◌, ℤ, pos, negsuc, Duration, Time, String, Bool, true, false, Option, none, some, List,
  [], ◌∷◌, ◌++◌, ◌==◌, ==_iff, ◌≡◌, refl, arith, leb, leb_ℤ, ltb_ℤ, ◌+ℤ◌, ◌-ℤ◌, ◌*ℤ◌, int32_seconds,
  nanos, Bool-cases, Option-cases, inl, inr, if◌then◌else◌,
}
use hockey_libs.Outbox.Queue.{Uuid}
use hockey_libs.Outbox.Repository.{
  Row, Table, Call, later, lease, lease_row, picked, is_member, is_due, is_expired, ids, retry_row,
  defer_row, fail_row, new_row, attempts_or_default, update_id, delete_where, exec, claim,
  complete_row, retry, defer, fail,
}
use hockey_libs.Outbox.Repository.Rows.{
  find, Distinct, KeepsId, map_row, find-update_id, find-delete_id, find-delete_where,
  find-delete-absent, find_of_not_member,
}
use hockey_libs.Outbox.Repository.Taken.{Takes, picked-Takes}
use hockey_libs.Outbox.Repository.Loss.{fail_row-KeepsId, retry_row-KeepsId, defer_row-KeepsId}
use hockey_libs.Outbox.Repository.Ops.{
  Op, claims, completes, retries, defers, fails, cleans, enqueues, step, steps, exec-keeps,
  claim_rows-keeps, delete_old_failed-keeps, enqueue-keeps,
}

-- Where a message stands: not in the queue, or in it with its attempts, their limit, the instant at
-- which it is due, and the instant at which it failed, if it did.
pub data Life : Type 0 where
  absent : Life
  queued : (attempts limit : ℕ) (due : Time) (failed : Option Time) → Life

abbrev pub life_of : Row → Life
life_of r = queued r.attempts r.max_attempts r.next_attempt_at r.failed_at

abbrev pub life_in : Option Row → Life
life_in none = absent
life_in (some r) = life_of r

abbrev pub life : Uuid → Table → Life
life id t = life_in (find id t)

-- The turns that a call may give the message with an id.
pub data Turn : Op → Uuid → Life → Life → Type 0 where
  stays : {op : Op} {id : Uuid} {l : Life} → Turn op id l l
  leased :
      {c : Call} {size : ℤ} {visibility : Duration} {id : Uuid} {a m : ℕ} {due : Time}
      → leb_ℤ due c.now ≡ true
      → c.locked id ≡ false
      → Turn
          (claims c size visibility)
          id
          (queued a m due none)
          (queued (a + 1) m (later c visibility) none)
  acknowledged : {c : Call} {id : Uuid} {l : Life} → Turn (completes c id) id l absent
  rescheduled :
      {c : Call} {id : Uuid} {backoff : Duration} {reason : String} {a m : ℕ} {due : Time}
      {at : Option Time}
      → leb m a ≡ false
      → Turn
          (retries c id backoff reason)
          id
          (queued a m due at)
          (queued a m (later c backoff) none)
  exhausted :
      {c : Call} {id : Uuid} {backoff : Duration} {reason : String} {a m : ℕ} {due : Time}
      {at : Option Time}
      → leb m a ≡ true
      → Turn
          (retries c id backoff reason)
          id
          (queued a m due at)
          (queued a m (later c backoff) (some c.now))
  postponed :
      {c : Call} {id : Uuid} {delay : Duration} {a m : ℕ} {due : Time} {at : Option Time}
      → Turn (defers c id delay) id (queued a m due at) (queued (a - 1) m (later c delay) at)
  refused :
      {c : Call} {id : Uuid} {reason : String} {a m : ℕ} {due : Time}
      → Turn (fails c id reason) id (queued a m due none) (queued a m due (some c.now))
  expired :
      {c : Call} {retention : Duration} {id : Uuid} {a m : ℕ} {due at : Time}
      → ltb_ℤ at (c.now -ℤ int32_seconds c.convert retention *ℤ pos nanos) ≡ true
      → Turn (cleans c retention) id (queued a m due (some at)) absent
  entered :
      {c : Call} {fresh : Option Uuid} {kind : String} {payload : List ℕ} {limit : ℤ} {id : Uuid}
      → Turn
          (enqueues c fresh kind payload limit)
          id
          absent
          (queued 0 (attempts_or_default limit) c.now none)

-- A statement that changes the row with one id.
pub updated-Turn :
    (op : Op) (c : Call) (context : String) (i : Uuid) (f : Row → Row) (id : Uuid) (t : Table)
    → KeepsId f
    → ((r : Row) → i ≡ id → find id t ≡ some r → Turn op id (life_of r) (life_of (f r)))
    → Turn op id (life id t) (life id (exec c context (update_id i f) t).1)
updated-Turn op c context i f id t k turn =
    exec-keeps (λ x. Turn op id (life id t) (life id x)) c context (update_id i f) t stays
      (elim (Bool-cases (i == id)) [
        | inr e ↦ rw (find-update_id i id f t k, e) stays
        | inl e ↦ elim (Option-cases (find id t)) [
          | inl n ↦ rw (find-update_id i id f t k, e, n) stays
          | inr (r, s) ↦ rw (find-update_id i id f t k, e, s) (turn r ((==_iff i id).0 e) s)
        ]
      ])

-- A deletion by a predicate.
pub deleted-Turn :
    (op : Op) (p : Row → Bool) (id : Uuid) (t : Table)
    → Distinct t
    → ((r : Row) → p r ≡ true → find id t ≡ some r → Turn op id (life_of r) absent)
    → Turn op id (life id t) (life id (delete_where p t))
deleted-Turn op p id t d turn = elim (Option-cases (find id t)) [
  | inl n ↦ rw (n, find-delete-absent p id t n) stays
  | inr (r, s) ↦ elim (Bool-cases (p r)) [
    | inl e ↦ rw (find-delete_where p id t r d s, e, s) (turn r e s)
    | inr e ↦ rw (find-delete_where p id t r d s, e, s) stays
  ]
]

pub find-append :
    (id : Uuid) (t : Table) (s : Row)
    → is_member s.id (ids t) ≡ false
    → find id (t ++ s ∷ []) ≡ (if s.id == id then some s else find id t)
unfolding find is_member
find-append id [] s h = refl
find-append id (r ∷ t) s h =
    ground (arith, find-append id t s, ==_iff s.id id, ==_iff r.id id, ==_iff r.id s.id)

pub find-lease :
    (c : Call) (visibility : Duration) (chosen : List Uuid) (id : Uuid) (t : Table)
    → find id (lease c visibility chosen t)
      ≡ (if is_member id chosen then map_row (lease_row c visibility) (find id t) else find id t)
unfolding find lease lease_row
find-lease c visibility chosen id [] = ground arith
find-lease c visibility chosen id (r ∷ t) = elim (Bool-cases (is_member r.id chosen)) [
  | inl e ↦ rw e (ground (arith, find-lease c visibility chosen id t, ==_iff r.id id))
  | inr e ↦ rw e (ground (arith, find-lease c visibility chosen id t, ==_iff r.id id))
]

pub fail_row-Turn :
    (c : Call) (reason : String) (id : Uuid) (r : Row)
    → Turn (fails c id reason) id (life_of r) (life_of (fail_row c reason r))
unfolding fail_row
fail_row-Turn c reason id r = elim (Option-cases r.failed_at) [
  | inl e ↦ rw e refused
  | inr (x, e) ↦ rw e stays
]

pub retry_row-Turn :
    (c : Call) (backoff : Duration) (reason : String) (id : Uuid) (r : Row)
    → Turn (retries c id backoff reason) id (life_of r) (life_of (retry_row c backoff reason r))
unfolding retry_row
retry_row-Turn c backoff reason id r = elim (Bool-cases (leb r.max_attempts r.attempts)) [
  | inl e ↦ rw e (exhausted e)
  | inr e ↦ rw e (rescheduled e)
]

pub expired-Turn :
    (c : Call) (retention : Duration) (id : Uuid) (r : Row)
    → is_expired c retention r ≡ true
    → Turn (cleans c retention) id (life_of r) absent
unfolding is_expired
expired-Turn c retention id r h = elim (Option-cases r.failed_at) [
  | inl e ↦ cc (rw e at h)
  | inr (x, e) ↦ rw e (expired (rw e at h))
]

pub leased-Turn :
    (c : Call) (limit : ℕ) (visibility : Duration) (id : Uuid) (t : Table)
    → Distinct t
    → Turn
        (claims c (pos limit) visibility)
        id
        (life id t)
        (life id (lease c visibility (picked c limit t) t))
unfolding lease_row
leased-Turn c limit visibility id t d = elim (Bool-cases (is_member id (picked c limit t))) [
  | inr e ↦ rw (find-lease c visibility (picked c limit t) id t, e) stays
  | inl e ↦
      let (r, found, due, free) = picked-Takes c limit id t d e in
      elim (Option-cases r.failed_at) [
        | inl n ↦
            rw (find-lease c visibility (picked c limit t) id t, e, found, n)
              (leased (ground arith) free)
        | inr (x, n) ↦ cc (rw n at due)
      ]
]
