-- ===== src/Outbox/Repository/Loss.antt =====
-- outbox/outbox.go: no message is lost.
use hockey_libs.Prelude.{
  pos, negsuc, Duration, String, Bool, true, false, some, List, [], ◌∷◌, ◌++◌, ◌==◌, ==_iff, ◌≡◌,
  refl, sym, ◌∙◌, arith, ◌||◌,
}
use hockey_libs.Outbox.Queue.{Uuid}
use hockey_libs.Outbox.Repository.{
  Row, Table, Call, ids, claim, lease, lease_row, picked, is_member, retry_row, defer_row, fail_row,
  is_expired, update_id, delete_where, complete_row, retry, defer, fail, exec, new_row,
  attempts_or_default,
}
use hockey_libs.Outbox.Repository.Rows.{find, KeepsId}
use hockey_libs.Outbox.Repository.Ops.{
  Op, claims, completes, retries, defers, fails, cleans, enqueues, step, exec-keeps,
  claim_rows-keeps, delete_old_failed-keeps, enqueue-keeps,
}

abbrev pub present : Uuid → Table → Bool
present id t = is_member id (ids t)

-- The calls that may remove the row `r` with this id.
abbrev pub Removes : Uuid → Row → Op → Type 0
Removes id r (completes c i) = i ≡ id
Removes id r (cleans c retention) = is_expired c retention r ≡ true
Removes id r _ = ⊥

pub present_found : (id : Uuid) (t : Table) (r : Row) → find id t ≡ some r → present id t ≡ true
unfolding find is_member
present_found id [] r h = cc
present_found id (s ∷ t) r h = ground (arith, present_found id t r)

pub present-update :
    (id j : Uuid) (f : Row → Row) (t : Table)
    → KeepsId f
    → present j (update_id id f t) ≡ present j t
unfolding update_id is_member
present-update id j f [] k = refl
present-update id j f (r ∷ t) k = ground (arith, present-update id j f t k, k r)

pub present-lease :
    (c : Call) (visibility : Duration) (chosen : List Uuid) (id : Uuid) (t : Table)
    → present id (lease c visibility chosen t) ≡ present id t
unfolding lease lease_row is_member
present-lease c visibility chosen id [] = refl
present-lease c visibility chosen id (r ∷ t) =
    ground (arith, present-lease c visibility chosen id t)

pub present-append :
    (id : Uuid) (t : Table) (s : Row) → present id (t ++ s ∷ []) ≡ (present id t || s.id == id)
unfolding is_member
present-append id [] s = ground arith
present-append id (r ∷ t) s = ground (arith, present-append id t s)

-- A deletion that removes the row with an id removes it by its predicate.
removed_by :
    (p : Row → Bool) (id : Uuid) (t : Table) (r : Row)
    → find id t ≡ some r
    → present id (delete_where p t) ≡ false
    → p r ≡ true
unfolding find delete_where is_member
removed_by p id [] r h g = cc
removed_by p id (s ∷ t) r h g = ground (arith, removed_by p id t r)

pub fail_row-KeepsId : (c : Call) (reason : String) → KeepsId (fail_row c reason)
unfolding fail_row
fail_row-KeepsId c reason r = ground arith

pub retry_row-KeepsId :
    (c : Call) (backoff : Duration) (reason : String) → KeepsId (retry_row c backoff reason)
unfolding retry_row
retry_row-KeepsId c backoff reason r = refl

pub defer_row-KeepsId : (c : Call) (delay : Duration) → KeepsId (defer_row c delay)
unfolding defer_row
defer_row-KeepsId c delay r = refl

found_id : (id : Uuid) (t : Table) (r : Row) → find id t ≡ some r → r.id ≡ id
unfolding find
found_id id [] r h = cc
found_id id (s ∷ t) r h = ground (arith, found_id id t r, ==_iff s.id id)

pub completed :
    (i id : Uuid) (t : Table) (r : Row) → find id t ≡ some r → (r.id == i) ≡ true → i ≡ id
completed i id t r h e = sym ((==_iff r.id i).0 e) ∙ found_id id t r h

updated :
    (c : Call) (context : String) (i id : Uuid) (f : Row → Row) (t : Table) (r : Row)
    → KeepsId f
    → find id t ≡ some r
    → present id (exec c context (update_id i f) t).1 ≡ true
updated c context i id f t r k h =
    exec-keeps (λ x. present id x ≡ true) c context (update_id i f) t (present_found id t r h)
      (present-update i id f t k ∙ present_found id t r h)

-- A row leaves the table in two ways only: its message is completed, or the cleanup finds it failed
-- longer ago than the retention. No other call, whatever fails in it, loses a message.
pub step-Removes :
    (op : Op) (id : Uuid) (t : Table) (r : Row)
    → find id t ≡ some r
    → present id (step op t) ≡ false
    → Removes id r op
unfolding step
step-Removes (claims c (pos limit) visibility) id t r h gone =
    unfold claim in
    cc (
      claim_rows-keeps (λ x. present id x ≡ true) c t (present_found id t r h) limit visibility
        (λ _. present-lease c visibility (picked c limit t) id t ∙ present_found id t r h))
step-Removes (claims c (negsuc n) visibility) id t r h gone =
    unfold claim in cc (present_found id t r h)
step-Removes (completes c i) id t r h gone =
    unfold complete_row in
    exec-keeps (λ x. present id x ≡ false → i ≡ id) c "outbox: complete"
      (delete_where (λ s. s.id == i)) t (λ g. cc (present_found id t r h))
      (λ g. completed i id t r h (removed_by (λ s. s.id == i) id t r h g)) gone
step-Removes (retries c i backoff reason) id t r h gone =
    unfold retry in
    cc (
      updated c "outbox: retry" i id (retry_row c backoff reason) t r
        (retry_row-KeepsId c backoff reason) h)
step-Removes (defers c i delay) id t r h gone =
    unfold defer in
    cc (updated c "outbox: defer" i id (defer_row c delay) t r (defer_row-KeepsId c delay) h)
step-Removes (fails c i reason) id t r h gone =
    unfold fail in
    cc (updated c "outbox: fail" i id (fail_row c reason) t r (fail_row-KeepsId c reason) h)
step-Removes (cleans c retention) id t r h gone =
    delete_old_failed-keeps (λ x. present id x ≡ false → is_expired c retention r ≡ true) c t
      (λ g. cc (present_found id t r h)) retention
      (λ g. removed_by (is_expired c retention) id t r h g) gone
step-Removes (enqueues c fresh kind payload limit) id t r h gone = cc (
    enqueue-keeps (λ x. present id x ≡ true) c t (present_found id t r h) fresh kind payload limit
      (λ i _. ground (
        arith,
        present-append id t (new_row c i kind payload (attempts_or_default limit)),
        present_found id t r h,
      )))
