-- ===== src/Outbox/Worker/Fate.antt =====
-- outbox/worker.go over outbox/outbox.go: what one delivery does to the table.
use hockey_libs.Prelude.{
  Bool, true, false, Option, none, some, [], ◌∷◌, ◌==◌, ==_iff, ◌≡◌, refl, ◌≢◌, ◌∙◌, arith,
  if◌then◌else◌, String, Bool-cases, Option-cases, inl, inr,
}
use hockey_libs.Errors.{Err}
use hockey_libs.Outbox.Terminal.{is_terminal, is_conflict}
use hockey_libs.Outbox.Queue.{Uuid, Message}
use hockey_libs.Outbox.Config.{Config}
use hockey_libs.Outbox.Repository.{
  Row, Table, Call, Failure, update_id, delete_where, repository, retry_row, defer_row, fail_row,
  complete_row, retry, defer, fail, exec,
}
use hockey_libs.Outbox.Repository.Rows.{find, Distinct, find_of_not_member}
use hockey_libs.Outbox.Worker.{
  Delivery, World, after_send, deliver, finish, give_up, postpone, reschedule, backoff_for,
}

-- A statement that names one id, row by row: `none` deletes the row.
unfoldable pub change : Uuid → (Row → Option Row) → Table → Table
change id f [] = []
change id f (r ∷ t) =
    let rest = change id f t in
    if r.id == id then elim (f r) [ none ↦ rest | some s ↦ s ∷ rest ] else r ∷ rest

update_id-change :
    (id : Uuid) (f : Row → Row) (t : Table) → update_id id f t ≡ change id (λ r. some (f r)) t
unfolding update_id change
update_id-change id f [] = refl
update_id-change id f (r ∷ t) = ground (arith, update_id-change id f t)

delete-change : (id : Uuid) (t : Table) → delete_where (λ r. r.id == id) t ≡ change id (λ r. none) t
unfolding delete_where change
delete-change id [] = refl
delete-change id (r ∷ t) = ground (arith, delete-change id t)

keep-change : (id : Uuid) (t : Table) → t ≡ change id some t
unfolding change
keep-change id [] = refl
keep-change id (r ∷ t) = ground (arith, keep-change id t)

-- A statement that fails may have taken effect before its error.
abbrev pub reaches : Call → Bool
reaches c = elim c.failure [ none ↦ true | some f ↦ f.applied ]

-- What a statement that changes a row by `f` makes of it.
abbrev pub under : Call → (Row → Option Row) → Row → Option Row
under c f = if reaches c then f else some

-- What a delivery makes of its row, by the answer of `Send`. `none`: the row is deleted.
abbrev pub fate_of : (Err → String) → Config → Message → Option Err → Bool → Call → Row → Option Row
fate_of render cfg m none canceled c = under c (λ r. none)
fate_of render cfg m (some err) canceled c =
    if canceled
    then some
    else if is_terminal err
    then under c (λ r. some (fail_row c (render err) r))
    else if is_conflict err
    then under c (λ r. some (defer_row c cfg.conflict_backoff r))
    else under c (λ r. some (retry_row c (backoff_for cfg m.attempts) (render err) r))

abbrev pub fate : (Err → String) → Config → Message → Delivery Call → Row → Option Row
fate render cfg m d = fate_of render cfg m d.answer d.canceled d.env

under-change :
    (c : Call) (id : Uuid) (f : Row → Option Row) (context : String) (statement : Table → Table)
    (t : Table)
    → statement t ≡ change id f t
    → (exec c context statement t).1 ≡ change id (under c f) t
under-change c id f context statement t h = split c.failure refl
  where
    split :
        (o : Option Failure)
        → c.failure ≡ o
        → (exec c context statement t).1 ≡ change id (under c f) t
    split none e = rw e h
    split (some x) e = rw e (applied x.applied)
      where
        applied : (b : Bool) → (if b then statement t else t) ≡ change id (if b then f else some) t
        applied true = h
        applied false = keep-change id t

finish-state :
    (render : Err → String) (cfg : Config) (m : Message) (c : Call) (w : World Table)
    → (finish repository render cfg m c w).state ≡ (complete_row c m.id w.state).1
unfolding finish
finish-state render cfg m c w = elim (Option-cases (complete_row c m.id w.state).0) [
  | inl e ↦ rw (e, finish) refl
  | inr (x, e) ↦ rw (e, finish) refl
]

module _ (render : Err → String) (cfg : Config) where
  after_send-change :
      (m : Message) (answer : Option Err) (canceled : Bool) (c : Call) (w : World Table)
      → (after_send repository render cfg m answer canceled c w).state
        ≡ change m.id (fate_of render cfg m answer canceled c) w.state
  unfolding after_send finish give_up postpone reschedule complete_row fail defer retry
  after_send-change m none canceled c w =
      finish-state render cfg m c w
      ∙ under-change c m.id (λ r. none) "outbox: complete" (delete_where (λ r. r.id == m.id))
          w.state (delete-change m.id w.state)
  after_send-change m (some err) true c w = keep-change m.id w.state
  after_send-change m (some err) false c w = elim (Bool-cases (is_terminal err)) [
    | inl e ↦ rw e (updated "outbox: fail" (fail_row c (render err)))
    | inr e ↦ elim (Bool-cases (is_conflict err)) [
      | inl f ↦ rw (e, f) (updated "outbox: defer" (defer_row c cfg.conflict_backoff))
      | inr f ↦
          rw (e, f)
            (updated "outbox: retry" (retry_row c (backoff_for cfg m.attempts) (render err)))
    ]
  ]
    where
      updated :
          (context : String) (f : Row → Row)
          → (exec c context (update_id m.id f) w.state).1
            ≡ change m.id (under c (λ r. some (f r))) w.state
      updated context f =
          under-change c m.id (λ r. some (f r)) context (update_id m.id f) w.state
            (update_id-change m.id f w.state)

  pub deliver-change :
      (m : Message) (d : Delivery Call) (w : World Table)
      → (deliver repository render cfg m d w).state ≡ change m.id (fate render cfg m d) w.state
  unfolding deliver
  deliver-change m d w = after_send-change m d.answer d.canceled d.env w

-- The row with a given id, after a statement that names one.
abbrev pub bind_row : (Row → Option Row) → Option Row → Option Row
bind_row f none = none
bind_row f (some r) = f r

abbrev pub KeepsIdIn : (Row → Option Row) → Type 0
KeepsIdIn f = (r s : Row) → f r ≡ some s → s.id ≡ r.id

pub fate-KeepsIdIn :
    (render : Err → String) (cfg : Config) (m : Message) (answer : Option Err) (canceled : Bool)
    (c : Call)
    → KeepsIdIn (fate_of render cfg m answer canceled c)
unfolding fail_row defer_row retry_row
fate-KeepsIdIn render cfg m none canceled c r s h = ground arith
fate-KeepsIdIn render cfg m (some err) canceled c r s h = ground arith

pub find-change :
    (id j : Uuid) (f : Row → Option Row) (t : Table)
    → KeepsIdIn f
    → Distinct t
    → find j (change id f t) ≡ (if id == j then bind_row f (find j t) else find j t)
unfolding change find
find-change id j f [] k d = ground arith
find-change id j f (r ∷ t) k (fresh, d) = elim (Option-cases (f r)) [
  | inl e ↦ rw e (
      ground (
        arith,
        find-change id j f t k d,
        find_of_not_member r.id t fresh,
        ==_iff r.id id,
        ==_iff id j,
        ==_iff r.id j,
      ))
  | inr (s, e) ↦ rw e (
      ground (
        arith,
        find-change id j f t k d,
        k r s e,
        ==_iff r.id id,
        ==_iff id j,
        ==_iff r.id j,
        ==_iff s.id j,
      ))
]

pub change_comm :
    (i j : Uuid) (f g : Row → Option Row) (t : Table)
    → i ≢ j
    → KeepsIdIn f
    → KeepsIdIn g
    → change i f (change j g t) ≡ change j g (change i f t)
unfolding change
change_comm i j f g [] n kf kg = refl
change_comm i j f g (r ∷ t) n kf kg = elim (Option-cases (f r)) [
  | inl e ↦ elim (Option-cases (g r)) [
    | inl e' ↦ ground (arith, change_comm i j f g t n kf kg, ==_iff r.id i, ==_iff r.id j)
    | inr (s, e') ↦
        ground (arith, change_comm i j f g t n kf kg, kg r s e', ==_iff r.id i, ==_iff r.id j)
  ]
  | inr (s, e) ↦ elim (Option-cases (g r)) [
    | inl e' ↦ ground (arith, change_comm i j f g t n kf kg, kf r s e, ==_iff r.id i, ==_iff r.id j)
    | inr (s', e') ↦
        ground
          (arith, change_comm i j f g t n kf kg, kf r s e, kg r s' e', ==_iff r.id i, ==_iff r.id j)
  ]
]

module _ (render : Err → String) (cfg : Config) where
  -- A delivery changes the row of its message alone: the row is deleted, failed, deferred,
  -- rescheduled or left as it is, as its fate says; every other row stays.
  pub deliver-find :
      (m : Message) (d : Delivery Call) (w : World Table) (j : Uuid)
      → Distinct w.state
      → find j (deliver repository render cfg m d w).state
        ≡ (if m.id == j then bind_row (fate render cfg m d) (find j w.state) else find j w.state)
  deliver-find m d w j distinct = rw (deliver-change render cfg m d w) (
      find-change m.id j _ w.state (fate-KeepsIdIn render cfg m d.answer d.canceled d.env) distinct)
