-- ===== src/Outbox/Repository/Earliest.antt =====
-- outbox/outbox.go: the order in which `Claim` takes messages.
pub mod Counting
pub mod Claimed
use hockey_libs.Prelude.{
  ℕ, zero, suc, pos, Duration, Bool, true, false, not, ◌&&◌, ◌||◌, none, some, List, [], ◌∷◌, map,
  take, length, ◌==◌, ==_iff, ◌≡◌, refl, ap, ◌∙◌, sym, arith, leb_ℤ, Bool-cases, Option-cases, inl,
  inr, if◌then◌else◌, ◌⊎◌, Option,
}
use hockey_libs.Outbox.Queue.{Uuid, Message}
use hockey_libs.Outbox.Repository.Rows.{find, Distinct}
use hockey_libs.Outbox.Repository.{
  Row, Table, Call, is_due, ids, is_member, insert_by_time, order_by_time, candidates, picked,
}

-- The row is in the list.
abbrev pub Listed : Row → List Row → Type 0
Listed s [] = ⊥
Listed s (r ∷ rows) = (r ≡ s) ⊎ Listed s rows

abbrev pub NoneLater : Row → List Row → Type 0
NoneLater s [] = Unit
NoneLater s (r ∷ rows) = (leb_ℤ r.next_attempt_at s.next_attempt_at ≡ true) × NoneLater s rows

abbrev pub NoneEarlier : Row → List Row → Type 0
NoneEarlier r [] = Unit
NoneEarlier r (s ∷ rows) = (leb_ℤ r.next_attempt_at s.next_attempt_at ≡ true) × NoneEarlier r rows

abbrev pub Ordered : List Row → Type 0
Ordered [] = Unit
Ordered (r ∷ rows) = NoneEarlier r rows × Ordered rows

NoneEarlier-trans :
    (r s : Row) (rows : List Row)
    → leb_ℤ r.next_attempt_at s.next_attempt_at ≡ true
    → NoneEarlier s rows
    → NoneEarlier r rows
NoneEarlier-trans r s [] h k = tt
NoneEarlier-trans r s (x ∷ rows) h (k, ks) = (ground arith, NoneEarlier-trans r s rows h ks)

insert-NoneEarlier :
    (r s : Row) (rows : List Row)
    → leb_ℤ r.next_attempt_at s.next_attempt_at ≡ true
    → NoneEarlier r rows
    → NoneEarlier r (insert_by_time s rows)
insert-NoneEarlier r s [] h k = (h, tt)
insert-NoneEarlier r s (x ∷ rows) h (k, ks) =
    elim (Bool-cases (leb_ℤ s.next_attempt_at x.next_attempt_at)) [
      | inl e ↦ rw e (h, (k, ks))
      | inr e ↦ rw e (k, insert-NoneEarlier r s rows h ks)
    ]

insert-Ordered : (r : Row) (rows : List Row) → Ordered rows → Ordered (insert_by_time r rows)
insert-Ordered r [] o = (tt, tt)
insert-Ordered r (s ∷ rows) (k, o) = elim (Bool-cases (leb_ℤ r.next_attempt_at s.next_attempt_at)) [
  | inl e ↦ rw e ((e, NoneEarlier-trans r s rows e k), (k, o))
  | inr e ↦ rw e (insert-NoneEarlier s r rows (ground (arith, e)) k, insert-Ordered r rows o)
]

pub order-Ordered : (rows : List Row) → Ordered (order_by_time rows)
unfolding order_by_time
order-Ordered [] = tt
order-Ordered (r ∷ rows) = insert-Ordered r (order_by_time rows) (order-Ordered rows)

insert-Listed :
    (s r : Row) (rows : List Row) → Listed s (r ∷ rows) → Listed s (insert_by_time r rows)
insert-Listed s r [] h = h
insert-Listed s r (x ∷ rows) h = elim (Bool-cases (leb_ℤ r.next_attempt_at x.next_attempt_at)) [
  | inl e ↦ rw e h
  | inr e ↦ rw e (elim h [
    | inl q ↦ inr (insert-Listed s r rows (inl q))
    | inr (inl q) ↦ inl q
    | inr (inr m) ↦ inr (insert-Listed s r rows (inr m))
  ])
]

pub order-Listed : (s : Row) (rows : List Row) → Listed s rows → Listed s (order_by_time rows)
unfolding order_by_time
order-Listed s [] h = h
order-Listed s (r ∷ rows) (inl q) = insert-Listed s r (order_by_time rows) (inl q)
order-Listed s (r ∷ rows) (inr m) =
    insert-Listed s r (order_by_time rows) (inr (order-Listed s rows m))

Listed-later :
    (r s : Row) (rows : List Row)
    → NoneEarlier r rows
    → Listed s rows
    → leb_ℤ r.next_attempt_at s.next_attempt_at ≡ true
Listed-later r s [] k m = elim m [ ]
Listed-later r s (x ∷ rows) (k, ks) (inl q) = rw q at k
Listed-later r s (x ∷ rows) (k, ks) (inr m) = Listed-later r s rows ks m

-- A row that is not among the first of an ordered list has that many before it, none of them later.
pub take-NoneLater :
    (n : ℕ) (s : Row) (rows : List Row)
    → Ordered rows
    → Listed s rows
    → is_member s.id (ids (take n rows)) ≡ false
    → (length (take n rows) ≡ n) × NoneLater s (take n rows)
unfolding is_member
take-NoneLater zero s rows o h g = (refl, tt)
take-NoneLater (suc n) s [] o h g = elim h [ ]
take-NoneLater (suc n) s (r ∷ rows) (k, o) h g = elim h [
  | inl q ↦ ground (arith, g, ap (λ x. x.id) q)
  | inr m ↦
      let (l, ks) = take-NoneLater n s rows o m (ground (arith, g)) in
      (ap suc l, (Listed-later r s rows k m, ks))
]

-- Back from an ordered list to the rows that were ordered.
insert-Listed-back :
    (s r : Row) (rows : List Row) → Listed s (insert_by_time r rows) → Listed s (r ∷ rows)
insert-Listed-back s r [] h = h
insert-Listed-back s r (x ∷ rows) h =
    elim (Bool-cases (leb_ℤ r.next_attempt_at x.next_attempt_at)) [
      | inl e ↦ rw e at h
      | inr e ↦ later (insert-Listed-back s r rows) (rw e at h)
    ]
  where
    later :
        (Listed s (insert_by_time r rows) → Listed s (r ∷ rows))
        → Listed s (x ∷ insert_by_time r rows)
        → Listed s (r ∷ x ∷ rows)
    later back (inl q) = inr (inl q)
    later back (inr m) = elim (back m) [ inl q ↦ inl q | inr k ↦ inr (inr k) ]

pub order-Listed-back : (s : Row) (rows : List Row) → Listed s (order_by_time rows) → Listed s rows
unfolding order_by_time
order-Listed-back s [] h = h
order-Listed-back s (r ∷ rows) h = elim (insert-Listed-back s r (order_by_time rows) h) [
  | inl q ↦ inl q
  | inr m ↦ inr (order-Listed-back s rows m)
]
