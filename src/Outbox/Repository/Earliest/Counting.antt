-- ===== src/Outbox/Repository/Earliest/Counting.antt =====
-- outbox/outbox.go: the candidates of a claim, and how many messages it returns.
use hockey_libs.Prelude.{
  ℕ, zero, suc, true, false, not, ◌&&◌, some, List, [], ◌∷◌, take, length, ◌==◌, ==_iff, ◌≡◌, refl,
  ap, subst, ◌∙◌, sym, arith, leb_ℤ, Bool-cases, inl, inr, if◌then◌else◌,
}
use hockey_libs.Outbox.Queue.{Uuid}
use hockey_libs.Outbox.Repository.Rows.{find, Distinct}
use hockey_libs.Outbox.Repository.Loss.{present_found}
use hockey_libs.Outbox.Repository.Taken.{is_member-candidates-ids}
use hockey_libs.Outbox.Repository.Claim.{is_member-order, is_member-take, is_member-insert}
use hockey_libs.Outbox.Repository.{
  Row, Table, Call, is_due, ids, is_member, insert_by_time, order_by_time, candidates, returning,
}
use hockey_libs.Outbox.Repository.Earliest.{Listed}

some-row-inj : (r s : Row) → some r ≡ some s → r ≡ s
some-row-inj r s e = cc

candidates-later :
    (c : Call) (r s : Row) (t : Table) → Listed s (candidates c t) → Listed s (candidates c (r ∷ t))
unfolding candidates
candidates-later c r s t h = elim (Bool-cases (is_due c r && not (c.locked r.id))) [
  | inl b ↦ rw b (inr h)
  | inr b ↦ rw b h
]

pub candidates-Listed :
    (c : Call) (s : Row) (t : Table)
    → find s.id t ≡ some s
    → is_due c s ≡ true
    → c.locked s.id ≡ false
    → Listed s (candidates c t)
unfolding find candidates
candidates-Listed c s [] h d l = cc
candidates-Listed c s (r ∷ t) h d l = elim (Bool-cases (r.id == s.id)) [
  | inl e ↦ head (some-row-inj r s (rw e at h))
  | inr e ↦ candidates-later c r s t (candidates-Listed c s t (rw e at h) d l)
]
  where
    head : r ≡ s → Listed s (candidates c (r ∷ t))
    head q =
        let due : (is_due c r && not (c.locked r.id)) ≡ true =
          subst (λ x. (is_due c x && not (c.locked x.id)) ≡ true) (sym q) (ground (arith, d, l)) in
        rw due (inl q)

not_again :
    (r s : Row) (t : Table)
    → is_member r.id (ids t) ≡ false
    → find s.id t ≡ some s
    → (if r.id == s.id then some r else find s.id t) ≡ some s
not_again r s t fresh h = elim (Bool-cases (r.id == s.id)) [
  | inl e ↦ cc (present_found s.id t s h, (==_iff r.id s.id).0 e)
  | inr e ↦ rw e h
]

same_id : (r s : Row) (t : Table) → r ≡ s → (if r.id == s.id then some r else find s.id t) ≡ some s
same_id r s t q = rw ((==_iff r.id s.id).1 (ap (λ x. x.id) q)) (ap some q)

pub Listed-find :
    (c : Call) (s : Row) (t : Table) → Distinct t → Listed s (candidates c t) → find s.id t ≡ some s
unfolding find candidates
Listed-find c s [] d h = elim h [ ]
Listed-find c s (r ∷ t) (fresh, d) h = elim (Bool-cases (is_due c r && not (c.locked r.id))) [
  | inr b ↦ not_again r s t fresh (Listed-find c s t d (rw b at h))
  | inl b ↦ taken (λ m. not_again r s t fresh (Listed-find c s t d m)) (rw b at h)
]
  where
    taken :
        (Listed s (candidates c t) → (if r.id == s.id then some r else find s.id t) ≡ some s)
        → Listed s (r ∷ candidates c t)
        → (if r.id == s.id then some r else find s.id t) ≡ some s
    taken later (inl q) = same_id r s t q
    taken later (inr m) = later m

-- Counting the messages that a claim returns.
returning_none : (t : Table) → returning [] t ≡ []
unfolding returning is_member
returning_none [] = refl
returning_none (r ∷ t) = returning_none t

returning-absent :
    (x : Uuid) (chosen : List Uuid) (t : Table)
    → is_member x (ids t) ≡ false
    → returning (x ∷ chosen) t ≡ returning chosen t
unfolding returning is_member
returning-absent x chosen [] h = refl
returning-absent x chosen (r ∷ t) h =
    ground (arith, returning-absent x chosen t, ==_iff r.id x, ==_iff x r.id)

length-returning-cons :
    (x : Uuid) (chosen : List Uuid) (t : Table)
    → Distinct t
    → is_member x (ids t) ≡ true
    → is_member x chosen ≡ false
    → length (returning (x ∷ chosen) t) ≡ suc (length (returning chosen t))
unfolding returning is_member
length-returning-cons x chosen [] d h g = cc
length-returning-cons x chosen (r ∷ t) (fresh, d) h g = elim (Bool-cases (r.id == x)) [
  | inl e ↦
      let q : r.id ≡ x = (==_iff r.id x).0 e in
      let same = ap length (returning-absent x chosen t (rw q at fresh)) in
      ground (arith, same, q, ap (λ i. is_member i chosen) q)
  | inr e ↦ ground (arith, length-returning-cons x chosen t d, ==_iff r.id x)
]

insert-Distinct :
    (r : Row) (rows : List Row)
    → is_member r.id (ids rows) ≡ false
    → Distinct rows
    → Distinct (insert_by_time r rows)
unfolding is_member
insert-Distinct r [] h d = (refl, tt)
insert-Distinct r (s ∷ rows) h (fresh, d) =
    elim (Bool-cases (leb_ℤ r.next_attempt_at s.next_attempt_at)) [
      | inl e ↦ rw e (h, (fresh, d))
      | inr e ↦ rw e (
        ground (arith, is_member-insert s.id r rows, ==_iff r.id s.id, ==_iff s.id r.id),
        insert-Distinct r rows (ground (arith, h)) d,
      )
    ]

pub order-Distinct : (rows : List Row) → Distinct rows → Distinct (order_by_time rows)
unfolding order_by_time
order-Distinct [] d = tt
order-Distinct (r ∷ rows) (fresh, d) =
    insert-Distinct r (order_by_time rows) (is_member-order r.id rows ∙ fresh)
      (order-Distinct rows d)

not_candidate :
    (c : Call) (id : Uuid) (t : Table)
    → is_member id (ids t) ≡ false
    → is_member id (ids (candidates c t)) ≡ false
not_candidate c id t h = elim (Bool-cases (is_member id (ids (candidates c t)))) [
  | inl e ↦ cc (is_member-candidates-ids c id t e)
  | inr e ↦ e
]

pub candidates-Distinct : (c : Call) (t : Table) → Distinct t → Distinct (candidates c t)
unfolding candidates
candidates-Distinct c [] d = tt
candidates-Distinct c (r ∷ t) (fresh, d) = elim (Bool-cases (is_due c r && not (c.locked r.id))) [
  | inl e ↦ rw e (not_candidate c r.id t fresh, candidates-Distinct c t d)
  | inr e ↦ rw e (candidates-Distinct c t d)
]

pub take-Distinct : (n : ℕ) (rows : List Row) → Distinct rows → Distinct (take n rows)
take-Distinct zero rows d = tt
take-Distinct (suc n) [] d = tt
take-Distinct (suc n) (r ∷ rows) (fresh, d) =
    (is_member-take r.id n rows fresh, take-Distinct n rows d)

pub take-Listed : (n : ℕ) (s : Row) (rows : List Row) → Listed s (take n rows) → Listed s rows
take-Listed zero s rows h = elim h [ ]
take-Listed (suc n) s [] h = h
take-Listed (suc n) s (r ∷ rows) (inl q) = inl q
take-Listed (suc n) s (r ∷ rows) (inr m) = inr (take-Listed n s rows m)

pub length-returning :
    (rows : List Row) (t : Table)
    → Distinct t
    → Distinct rows
    → ((s : Row) → Listed s rows → is_member s.id (ids t) ≡ true)
    → length (returning (ids rows) t) ≡ length rows
length-returning [] t d e h = ap length (returning_none t)
length-returning (r ∷ rows) t d (fresh, e) h =
    length-returning-cons r.id (ids rows) t d (h r (inl refl)) fresh
    ∙ ap suc (length-returning rows t d e (λ s m. h s (inr m)))
