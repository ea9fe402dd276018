-- ===== src/Outbox/Repository/Claim.antt =====
-- outbox/outbox.go: which rows `Claim` takes.
use hockey_libs.Prelude.{
  ℕ, zero, suc, pos, Duration, Bool, true, false, ◌||◌, Option, none, some, List, [], ◌∷◌, map,
  take, ◌==◌, ==_iff, ◌≡◌, refl, ap, ◌∙◌, arith, leb_ℤ, Bool-cases, inl, inr, ◌⊎◌, if◌then◌else◌,
}
use hockey_libs.Outbox.Queue.{Uuid, Message}
use hockey_libs.Outbox.Repository.{
  Row, Table, Call, Reading, complete, broken, unscannable, read_rows, returning, Failure,
  fits_smallint, claim_rows, claim, is_due, ids, is_member, insert_by_time, order_by_time,
  candidates, picked, lease, lease_row, later,
}

-- No row of the table with this id may be taken.
abbrev NoneDue : Call → Uuid → Table → Type 0
NoneDue c id [] = Unit
NoneDue c id (r ∷ t) = (r.id ≡ id → is_due c r ≡ false) × NoneDue c id t

is_member-candidates :
    (c : Call) (id : Uuid) (t : Table)
    → NoneDue c id t
    → is_member id (ids (candidates c t)) ≡ false
unfolding is_member candidates
is_member-candidates c id [] h = refl
is_member-candidates c id (r ∷ t) (h, hs) =
    ground (arith, is_member-candidates c id t hs, ==_iff r.id id)

pub is_member-insert :
    (id : Uuid) (r : Row) (rows : List Row)
    → is_member id (ids (insert_by_time r rows)) ≡ (r.id == id || is_member id (ids rows))
unfolding is_member
is_member-insert id r [] = refl
is_member-insert id r (s ∷ rows) = ground (arith, is_member-insert id r rows)

pub is_member-order :
    (id : Uuid) (rows : List Row)
    → is_member id (ids (order_by_time rows)) ≡ is_member id (ids rows)
unfolding is_member order_by_time
is_member-order id [] = refl
is_member-order id (r ∷ rows) =
    is_member-insert id r (order_by_time rows) ∙ ap (λ b. r.id == id || b) (is_member-order id rows)

pub is_member-take :
    (id : Uuid) (n : ℕ) (rows : List Row)
    → is_member id (ids rows) ≡ false
    → is_member id (ids (take n rows)) ≡ false
unfolding is_member
is_member-take id zero rows h = refl
is_member-take id (suc n) [] h = refl
is_member-take id (suc n) (r ∷ rows) h = ground (arith, is_member-take id n rows)

is_member-picked :
    (c : Call) (id : Uuid) (limit : ℕ) (t : Table)
    → NoneDue c id t
    → is_member id (picked c limit t) ≡ false
unfolding picked
is_member-picked c id limit t h =
    is_member-take id limit (order_by_time (candidates c t))
      (is_member-order id (candidates c t) ∙ is_member-candidates c id t h)

lease_row-not-due :
    (c d : Call) (visibility : Duration) (r : Row)
    → leb_ℤ (later c visibility) d.now ≡ false
    → is_due d (lease_row c visibility r) ≡ false
unfolding lease_row
lease_row-not-due c d visibility r l = ground arith

lease-NoneDue :
    (c d : Call) (id : Uuid) (visibility : Duration) (chosen : List Uuid) (t : Table)
    → is_member id chosen ≡ true
    → leb_ℤ (later c visibility) d.now ≡ false
    → NoneDue d id (lease c visibility chosen t)
unfolding lease
lease-NoneDue c d id visibility chosen [] h l = tt
lease-NoneDue c d id visibility chosen (r ∷ t) h l =
    (head, lease-NoneDue c d id visibility chosen t h l)
  where
    head :
        (if is_member r.id chosen then lease_row c visibility r else r).id ≡ id
        → is_due d (if is_member r.id chosen then lease_row c visibility r else r) ≡ false
    head = elim (Bool-cases (is_member r.id chosen)) [
      | inl e ↦ rw e (λ _. lease_row-not-due c d visibility r l)
      | inr e ↦ rw e (λ q. cc)
    ]

abbrev pub message_ids : List Message → List Uuid
message_ids = map (λ m. m.id)

not_returned :
    (id : Uuid) (chosen : List Uuid) (r : Row) (t : Table)
    → is_member id chosen ≡ false
    → (is_member id (message_ids (returning chosen t)) ≡ true → is_member id chosen ≡ true)
    → is_member id (message_ids (returning chosen (r ∷ t))) ≡ true
    → ⊥
unfolding returning is_member
not_returned id chosen r t e ih h = ground (arith, ==_iff r.id id)

pub is_member-returning :
    (id : Uuid) (chosen : List Uuid) (t : Table)
    → is_member id (message_ids (returning chosen t)) ≡ true
    → is_member id chosen ≡ true
unfolding returning is_member
is_member-returning id chosen [] h = cc
is_member-returning id chosen (r ∷ t) h = elim (Bool-cases (is_member id chosen)) [
  | inl e ↦ e
  | inr e ↦ absurd (not_returned id chosen r t e (is_member-returning id chosen t) h)
]

is_member-take_messages :
    (id : Uuid) (n : ℕ) (ms : List Message)
    → is_member id (message_ids (take n ms)) ≡ true
    → is_member id (message_ids ms) ≡ true
unfolding is_member
is_member-take_messages id zero ms h = cc
is_member-take_messages id (suc n) [] h = cc
is_member-take_messages id (suc n) (m ∷ ms) h = ground (arith, is_member-take_messages id n ms)

is_member-read :
    (id : Uuid) (reading : Reading) (ms : List Message)
    → is_member id (message_ids (read_rows reading ms).0) ≡ true
    → is_member id (message_ids ms) ≡ true
is_member-read id complete ms h = h
is_member-read id (broken n e) ms h = is_member-take_messages id n ms h
is_member-read id (unscannable e) ms h = unfold is_member in cc

claim_rows_cases :
    (c : Call) (limit : ℕ) (visibility : Duration) (t : Table)
    → let chosen = picked c limit t in
      let leased = lease c visibility chosen t in
      ((claim_rows c limit visibility t).0 ≡ [])
      ⊎ (((claim_rows c limit visibility t).0 ≡ (read_rows c.reading (returning chosen leased)).0)
          × ((claim_rows c limit visibility t).2 ≡ leased))
unfolding claim_rows
claim_rows_cases c limit visibility t =
    split (fits_smallint (lease c visibility (picked c limit t) t)) c.failure refl refl
  where
    split :
        (b : Bool) (o : Option Failure)
        → fits_smallint (lease c visibility (picked c limit t) t) ≡ b
        → c.failure ≡ o
        → ((claim_rows c limit visibility t).0 ≡ [])
          ⊎ (((claim_rows c limit visibility t).0
                ≡ (read_rows c.reading
                    (returning (picked c limit t) (lease c visibility (picked c limit t) t))).0)
              × ((claim_rows c limit visibility t).2 ≡ lease c visibility (picked c limit t) t))
    split false o e f = inl (rw e refl)
    split true none e f = inr (simp (e, f) refl, simp (e, f) refl)
    split true (some x) e f = inl (simp (e, f) refl)

-- A claim that returns a message has picked its row and leased all that it picked.
pub claim_rows_returns :
    (c : Call) (limit : ℕ) (visibility : Duration) (id : Uuid) (t : Table)
    → is_member id (message_ids (claim_rows c limit visibility t).0) ≡ true
    → (is_member id (picked c limit t) ≡ true)
      × ((claim_rows c limit visibility t).2 ≡ lease c visibility (picked c limit t) t)
claim_rows_returns c limit visibility id t h = elim (claim_rows_cases c limit visibility t) [
  | inl e ↦ absurd (unfold is_member in (cc (rw e at h)))
  | inr (e, f) ↦ (is_member-returning id _ _ (is_member-read id c.reading _ (rw e at h)), f)
]

-- A claimed message is leased: until its lease ends, a later claim, by any worker, of any size and
-- whatever rows it finds locked, does not return it again.
pub claim_exclusive :
    (c d : Call) (limit limit' : ℕ) (visibility visibility' : Duration) (id : Uuid) (t : Table)
    → is_member id (message_ids (claim c (pos limit) visibility t).0) ≡ true
    → leb_ℤ (later c visibility) d.now ≡ false
    → is_member id
        (message_ids (claim d (pos limit') visibility' (claim c (pos limit) visibility t).2).0)
      ≡ false
unfolding claim
claim_exclusive c d limit limit' visibility visibility' id t h l =
    let (chosen, leased) = claim_rows_returns c limit visibility id t h in
    let free =
      is_member-picked d id limit' _
        (lease-NoneDue c d id visibility (picked c limit t) t chosen l) in
    rw leased
      (elim (Bool-cases (
        is_member id (
          message_ids
            (claim_rows d limit' visibility' (lease c visibility (picked c limit t) t)).0))) [
              | inr e ↦ e
              | inl e ↦ cc (claim_rows_returns d limit' visibility' id _ e).0
            ])
