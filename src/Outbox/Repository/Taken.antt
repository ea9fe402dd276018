-- ===== src/Outbox/Repository/Taken.antt =====
-- outbox/outbox.go: the rows that `Claim` takes are due and free.
use hockey_libs.Prelude.{
  ℕ, pos, Duration, true, false, some, List, [], ◌∷◌, take, ◌==◌, ==_iff, ◌≡◌, refl, arith,
  Bool-cases, inl, inr,
}
use hockey_libs.Outbox.Queue.{Uuid}
use hockey_libs.Outbox.Repository.Rows.{find, Distinct}
use hockey_libs.Outbox.Repository.{
  Row, Table, Call, claim, is_due, ids, is_member, order_by_time, candidates, picked,
}
use hockey_libs.Outbox.Repository.Claim.{
  message_ids, is_member-order, is_member-take, claim_rows_returns,
}

-- The row of a table with this id that a claim may take.
abbrev pub Takes : Call → Uuid → Table → Type 0
Takes c id t = (r : Row) × (find id t ≡ some r) × (is_due c r ≡ true) × (c.locked id ≡ false)

pub is_member-candidates-ids :
    (c : Call) (id : Uuid) (t : Table)
    → is_member id (ids (candidates c t)) ≡ true
    → is_member id (ids t) ≡ true
unfolding is_member candidates
is_member-candidates-ids c id [] h = h
is_member-candidates-ids c id (r ∷ t) h = ground (arith, is_member-candidates-ids c id t)

candidates-Takes :
    (c : Call) (id : Uuid) (t : Table)
    → Distinct t
    → is_member id (ids (candidates c t)) ≡ true
    → Takes c id t
unfolding is_member candidates find
candidates-Takes c id [] d h = cc
candidates-Takes c id (r ∷ t) (fresh, d) h = elim (Bool-cases (r.id == id)) [
  | inl e ↦
      let same : r.id ≡ id = (==_iff r.id id).0 e in
      (
        r,
        rw e refl,
        ground (arith, is_member-candidates-ids c id t),
        ground (arith, is_member-candidates-ids c id t),
      )
  | inr e ↦
      let (s, found, due, free) = candidates-Takes c id t d (ground arith) in
      (s, rw e found, due, free)
]

is_member-take-true :
    (id : Uuid) (n : ℕ) (rows : List Row)
    → is_member id (ids (take n rows)) ≡ true
    → is_member id (ids rows) ≡ true
is_member-take-true id n rows h = elim (Bool-cases (is_member id (ids rows))) [
  | inl e ↦ e
  | inr e ↦ cc (is_member-take id n rows e)
]

pub picked-Takes :
    (c : Call) (limit : ℕ) (id : Uuid) (t : Table)
    → Distinct t
    → is_member id (picked c limit t) ≡ true
    → Takes c id t
unfolding picked
picked-Takes c limit id t d chosen = candidates-Takes c id t d (
    cc (
      is_member-order id (candidates c t),
      is_member-take-true id limit (order_by_time (candidates c t)) chosen,
    ))

-- Over distinct ids, a claim returns a message only if the row with its id was due, had not failed
-- and was not locked by another transaction.
pub claim-Takes :
    (c : Call) (limit : ℕ) (visibility : Duration) (id : Uuid) (t : Table)
    → Distinct t
    → is_member id (message_ids (claim c (pos limit) visibility t).0) ≡ true
    → Takes c id t
unfolding claim
claim-Takes c limit visibility id t d h =
    picked-Takes c limit id t d (claim_rows_returns c limit visibility id t h).0
