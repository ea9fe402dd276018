-- ===== src/Outbox/Repository/Life/Refines.antt =====
-- outbox/outbox.go: every call, and every sequence of calls, against the life of one message.
use hockey_libs.Prelude.{
  pos, negsuc, false, List, [], ◌∷◌, ◌++◌, ◌==◌, ==_iff, ◌≡◌, refl, Bool-cases, inl, inr, String, ℕ,
  ℤ, Option,
}
use hockey_libs.Outbox.Queue.{Uuid}
use hockey_libs.Outbox.Repository.{
  Table, Call, is_expired, is_member, ids, retry_row, defer_row, fail_row, new_row,
  attempts_or_default, delete_where, claim, complete_row, retry, defer, fail,
}
use hockey_libs.Outbox.Repository.Rows.{Distinct, find_of_not_member}
use hockey_libs.Outbox.Repository.Loss.{
  completed, fail_row-KeepsId, retry_row-KeepsId, defer_row-KeepsId,
}
use hockey_libs.Outbox.Repository.WellFormed.{WellFormed, step-WellFormed}
use hockey_libs.Outbox.Repository.Ops.{
  Op, claims, completes, retries, defers, fails, cleans, enqueues, step, steps, exec-keeps,
  claim_rows-keeps, delete_old_failed-keeps, enqueue-keeps,
}
use hockey_libs.Outbox.Repository.Life.{
  Life, life, Turn, stays, acknowledged, postponed, entered, updated-Turn, deleted-Turn,
  find-append, retry_row-Turn, fail_row-Turn, expired-Turn, leased-Turn,
}

completed-Turn :
    (c : Call) (i id : Uuid) (t : Table)
    → Distinct t
    → Turn (completes c i) id (life id t) (life id (delete_where (λ r. r.id == i) t))
completed-Turn c i id t d =
    deleted-Turn (completes c i) (λ r. r.id == i) id t d
      (λ r e s. rw (completed i id t r s e) acknowledged)

entered_here :
    (c : Call) (fresh : Option Uuid) (kind : String) (payload : List ℕ) (limit : ℤ) (id : Uuid)
    (t : Table)
    → is_member id (ids t) ≡ false
    → Turn
        (enqueues c fresh kind payload limit)
        id
        (life id t)
        (life id (t ++ new_row c id kind payload (attempts_or_default limit) ∷ []))
unfolding new_row
entered_here c fresh kind payload limit id t h =
    rw
      (
        find-append id t (new_row c id kind payload (attempts_or_default limit)) h,
        (==_iff id id).1 refl,
        find_of_not_member id t h,
      )
      entered

entered-Turn :
    (c : Call) (fresh : Option Uuid) (kind : String) (payload : List ℕ) (limit : ℤ) (i id : Uuid)
    (t : Table)
    → is_member i (ids t) ≡ false
    → Turn
        (enqueues c fresh kind payload limit)
        id
        (life id t)
        (life id (t ++ new_row c i kind payload (attempts_or_default limit) ∷ []))
unfolding new_row
entered-Turn c fresh kind payload limit i id t h = elim (Bool-cases (i == id)) [
  | inl e ↦
      let q = (==_iff i id).0 e in rw q (entered_here c fresh kind payload limit id t (rw q at h))
  | inr e ↦ rw (find-append id t (new_row c i kind payload (attempts_or_default limit)) h, e) stays
]

-- Over a table of distinct ids, every call of the repository, whatever the other rows are and
-- whatever fails in it, gives each message one of the turns of its life.
pub step-Turn :
    (op : Op) (id : Uuid) (t : Table) → Distinct t → Turn op id (life id t) (life id (step op t))
unfolding step
step-Turn (claims c (pos limit) visibility) id t d =
    unfold claim in
    claim_rows-keeps (λ x. Turn (claims c (pos limit) visibility) id (life id t) (life id x)) c t
      stays limit visibility (λ _. leased-Turn c limit visibility id t d)
step-Turn (claims c (negsuc n) visibility) id t d = unfold claim in stays
step-Turn (completes c i) id t d =
    unfold complete_row in
    exec-keeps (λ x. Turn (completes c i) id (life id t) (life id x)) c "outbox: complete"
      (delete_where (λ r. r.id == i)) t stays (completed-Turn c i id t d)
step-Turn (retries c i backoff reason) id t d =
    unfold retry in
    updated-Turn (retries c i backoff reason) c "outbox: retry" i (retry_row c backoff reason) id t
      (retry_row-KeepsId c backoff reason) (λ r e s. rw e (retry_row-Turn c backoff reason id r))
step-Turn (defers c i delay) id t d =
    unfold defer in
    updated-Turn (defers c i delay) c "outbox: defer" i (defer_row c delay) id t
      (defer_row-KeepsId c delay) (λ r e s. unfold defer_row in rw e postponed)
step-Turn (fails c i reason) id t d =
    unfold fail in
    updated-Turn (fails c i reason) c "outbox: fail" i (fail_row c reason) id t
      (fail_row-KeepsId c reason) (λ r e s. rw e (fail_row-Turn c reason id r))
step-Turn (cleans c retention) id t d =
    delete_old_failed-keeps (λ x. Turn (cleans c retention) id (life id t) (life id x)) c t stays
      retention
      (deleted-Turn (cleans c retention) (is_expired c retention) id t d
        (λ r e s. expired-Turn c retention id r e))
step-Turn (enqueues c fresh kind payload limit) id t d =
    enqueue-keeps (λ x. Turn (enqueues c fresh kind payload limit) id (life id t) (life id x)) c t
      stays fresh kind payload limit (λ i h. entered-Turn c fresh kind payload limit i id t h)

-- The turns that a sequence of calls gives a message, one after another.
abbrev pub Turns : List Op → Uuid → Life → Life → Type 0
Turns [] id l l' = l ≡ l'
Turns (op ∷ ops) id l l' = (m : Life) × Turn op id l m × Turns ops id m l'

-- Every sequence of calls over a well-formed table refines the life of each message: the message
-- takes one turn of its life for every call, and stands at the end where these turns lead.
pub steps-Turns :
    (ops : List Op) (id : Uuid) (t : Table)
    → WellFormed t
    → Turns ops id (life id t) (life id (steps ops t))
unfolding steps
steps-Turns [] id t w = refl
steps-Turns (op ∷ ops) id t w = (
  life id (step op t),
  step-Turn op id t w.distinct,
  steps-Turns ops id (step op t) (step-WellFormed op t w),
)
