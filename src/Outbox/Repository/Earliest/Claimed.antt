-- ===== src/Outbox/Repository/Earliest/Claimed.antt =====
-- outbox/outbox.go: `Claim` takes as many messages as it may, and none later than one that it leaves.
use hockey_libs.Prelude.{
  ℕ, pos, Duration, Bool, true, false, Option, none, some, List, [], ◌∷◌, take, length, ◌==◌,
  ==_iff, ◌≡◌, refl, ap, ◌∙◌, subst, arith, leb_ℤ, Bool-cases, inl, inr,
}
use hockey_libs.Outbox.Queue.{Uuid, Message}
use hockey_libs.Outbox.Repository.{
  Row, Table, Call, Failure, Reading, complete, broken, unscannable, is_due, ids, is_member,
  order_by_time, candidates, picked, lease, returning, fits_smallint, claim, claim_rows,
}
use hockey_libs.Outbox.Repository.Rows.{find, Distinct}
use hockey_libs.Outbox.Repository.Loss.{present_found, present-lease}
use hockey_libs.Outbox.Repository.PrimaryKey.{Distinct-lease}
use hockey_libs.Outbox.Repository.Claim.{message_ids, is_member-returning}
use hockey_libs.Outbox.Repository.Earliest.{
  Listed, NoneLater, order-Ordered, order-Listed, order-Listed-back, take-NoneLater,
}
use hockey_libs.Outbox.Repository.Earliest.Counting.{
  candidates-Listed, Listed-find, order-Distinct, candidates-Distinct, take-Distinct, take-Listed,
  length-returning,
}

-- No message of the list was due after the row `s`.
abbrev pub NoneAfter : Table → Row → List Message → Type 0
NoneAfter t s [] = Unit
NoneAfter t s (m ∷ ms) =
    ((r : Row) × (find m.id t ≡ some r) × (leb_ℤ r.next_attempt_at s.next_attempt_at ≡ true))
    × NoneAfter t s ms

NoneAfter-each :
    (t : Table) (s : Row) (ms : List Message)
    → ((id : Uuid)
        → is_member id (message_ids ms) ≡ true
        → (r : Row) × (find id t ≡ some r) × (leb_ℤ r.next_attempt_at s.next_attempt_at ≡ true))
    → NoneAfter t s ms
unfolding is_member
NoneAfter-each t s [] h = tt
NoneAfter-each t s (m ∷ ms) h = (
  h m.id (ground (arith, ==_iff m.id m.id)),
  NoneAfter-each t s ms (λ id e. h id (ground (arith, e))),
)

is_member-returned :
    (id : Uuid) (chosen : List Uuid) (t : Table)
    → is_member id chosen ≡ true
    → is_member id (ids t) ≡ true
    → is_member id (message_ids (returning chosen t)) ≡ true
unfolding returning is_member
is_member-returned id chosen [] h k = cc
is_member-returned id chosen (r ∷ t) h k = elim (Bool-cases (r.id == id)) [
  | inl e ↦ let q = (==_iff r.id id).0 e in ground (arith, e, ap (λ i. is_member i chosen) q, h)
  | inr e ↦ ground (arith, is_member-returned id chosen t h)
]

-- The row of a member, and what holds of the rows that are not later.
NoneLater-member :
    (s : Row) (rows : List Row) (id : Uuid)
    → NoneLater s rows
    → is_member id (ids rows) ≡ true
    → (r : Row) × Listed r rows × (r.id ≡ id) × (leb_ℤ r.next_attempt_at s.next_attempt_at ≡ true)
unfolding is_member
NoneLater-member s [] id k h = cc
NoneLater-member s (r ∷ rows) id (k, ks) h = elim (Bool-cases (r.id == id)) [
  | inl e ↦ (r, inl refl, (==_iff r.id id).0 e, k)
  | inr e ↦ let (x, m, q, l) = NoneLater-member s rows id ks (rw e at h) in (x, inr m, q, l)
]

claim_rows-returns :
    (c : Call) (limit : ℕ) (visibility : Duration) (t : Table)
    → (claim_rows c limit visibility t).1 ≡ none
    → (claim_rows c limit visibility t).0
      ≡ returning (picked c limit t) (lease c visibility (picked c limit t) t)
unfolding claim_rows
claim_rows-returns c limit visibility t h =
    split (fits_smallint (lease c visibility (picked c limit t) t)) c.failure c.reading refl refl
      refl
  where
    split :
        (b : Bool) (o : Option Failure) (reading : Reading)
        → fits_smallint (lease c visibility (picked c limit t) t) ≡ b
        → c.failure ≡ o
        → c.reading ≡ reading
        → (claim_rows c limit visibility t).0
          ≡ returning (picked c limit t) (lease c visibility (picked c limit t) t)
    split false o reading e f g = cc
    split true none complete e f g = simp (e, f, g, claim_rows) refl
    split true none (broken n x) e f g = cc (simp (e, f, g, claim_rows) at h)
    split true none (unscannable x) e f g = cc (simp (e, f, g, claim_rows) at h)
    split true (some x) reading e f g = cc (simp (e, f, claim_rows) at h)

module _ (c : Call) (limit : ℕ) (t : Table) (distinct : Distinct t) where
  -- The rows that a claim picks.
  abbrev first_rows : List Row
  first_rows = take limit (order_by_time (candidates c t))

  first-find : (r : Row) → Listed r first_rows → find r.id t ≡ some r
  first-find r m =
      Listed-find c r t distinct (order-Listed-back r (candidates c t) (take-Listed limit r _ m))

  left_out :
      (s : Row)
      → find s.id t ≡ some s
      → is_due c s ≡ true
      → c.locked s.id ≡ false
      → is_member s.id (ids first_rows) ≡ false
      → (length first_rows ≡ limit) × NoneLater s first_rows
  left_out s found due free out =
      take-NoneLater limit s (order_by_time (candidates c t)) (order-Ordered (candidates c t))
        (order-Listed s (candidates c t) (candidates-Listed c s t found due free)) out

  -- A successful claim over distinct ids leaves a message that is due and not locked only if it
  -- returns as many messages as it may, none of them due later: no message is passed over for a
  -- later one.
  pub claim-NoneAfter :
      (visibility : Duration) (s : Row)
      → find s.id t ≡ some s
      → is_due c s ≡ true
      → c.locked s.id ≡ false
      → (claim c (pos limit) visibility t).1 ≡ none
      → is_member s.id (message_ids (claim c (pos limit) visibility t).0) ≡ false
      → (length (claim c (pos limit) visibility t).0 ≡ limit)
        × NoneAfter t s (claim c (pos limit) visibility t).0
  unfolding claim picked
  claim-NoneAfter visibility s found due free ok out =
      let leased = lease c visibility (ids first_rows) t in
      let back : is_member s.id (ids first_rows) ≡ false = not_picked (rw returned at out) in
      let (full, before) = left_out s found due free back in
      rw returned (
        length-returning first_rows leased (Distinct-lease c visibility (ids first_rows) t distinct)
              (take-Distinct limit _ (order-Distinct _ (candidates-Distinct c t distinct)))
              (λ r m. stays r.id (present_found r.id t r (first-find r m)))
            ∙ full,
        NoneAfter-each t s (returning (ids first_rows) leased) (λ id m.
            let (r, l, q, le) =
              NoneLater-member s first_rows id before (is_member-returning id _ leased m) in
            (r, subst (λ i. find i t ≡ some r) q (first-find r l), le)),
      )
    where
      returned :
          (claim_rows c limit visibility t).0
          ≡ returning (ids first_rows) (lease c visibility (ids first_rows) t)
      returned = claim_rows-returns c limit visibility t ok

      stays :
          (id : Uuid)
          → is_member id (ids t) ≡ true
          → is_member id (ids (lease c visibility (ids first_rows) t)) ≡ true
      stays id m = present-lease c visibility (ids first_rows) id t ∙ m

      not_picked :
          is_member s.id
              (message_ids (returning (ids first_rows) (lease c visibility (ids first_rows) t)))
            ≡ false
          → is_member s.id (ids first_rows) ≡ false
      not_picked o = elim (Bool-cases (is_member s.id (ids first_rows))) [
        | inr e ↦ e
        | inl e ↦ cc (
          is_member-returned s.id (ids first_rows) (lease c visibility (ids first_rows) t) e
              (stays s.id (present_found s.id t s found)),
          o,
        )
      ]
