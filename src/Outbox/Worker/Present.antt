-- ===== src/Outbox/Worker/Present.antt =====
-- outbox/worker.go over outbox/outbox.go: which changes of a row keep a message in the table.
use hockey_libs.Prelude.{
  Bool, true, false, Option, some, [], ◌∷◌, ◌==◌, ==_iff, ◌≡◌, refl, ◌∙◌, arith, if◌then◌else◌,
  String, Bool-cases, Option-cases, inl, inr,
}
use hockey_libs.Errors.{Err}
use hockey_libs.Outbox.Queue.{Uuid, Message}
use hockey_libs.Outbox.Config.{Config}
use hockey_libs.Outbox.Terminal.{is_terminal, is_conflict}
use hockey_libs.Outbox.Repository.{Row, Table, Call, is_member, fail_row, defer_row, retry_row}
use hockey_libs.Outbox.Repository.Rows.{find, Distinct}
use hockey_libs.Outbox.Repository.Loss.{present}
use hockey_libs.Outbox.Worker.{backoff_for}
use hockey_libs.Outbox.Worker.Fate.{change, fate_of, under, reaches, KeepsIdIn}

pub present-find : (id : Uuid) (t : Table) → present id t ≡ true → (r : Row) × (find id t ≡ some r)
unfolding find is_member
present-find id [] h = cc
present-find id (r ∷ t) h = elim (Bool-cases (r.id == id)) [
  | inl e ↦ (r, rw e refl)
  | inr e ↦ rw e (present-find id t (rw e at h))
]

pub present-change-other :
    (i id : Uuid) (f : Row → Option Row) (t : Table)
    → KeepsIdIn f
    → (i == id) ≡ false
    → present id (change i f t) ≡ present id t
unfolding change is_member
present-change-other i id f [] k n = refl
present-change-other i id f (r ∷ t) k n = elim (Option-cases (f r)) [
  | inl e ↦ rw e (
      ground (arith, present-change-other i id f t k n, ==_iff r.id i, ==_iff r.id id, ==_iff i id))
  | inr (s, e) ↦ rw e (ground (arith, present-change-other i id f t k n, k r s e))
]

-- A change that never deletes a row.
abbrev pub Keeps : (Row → Option Row) → Type 0
Keeps f = (r : Row) → (s : Row) × (f r ≡ some s)

pub present-change :
    (i id : Uuid) (f : Row → Option Row) (t : Table)
    → KeepsIdIn f
    → Keeps f
    → present id (change i f t) ≡ present id t
unfolding change is_member
present-change i id f [] k keeps = refl
present-change i id f (r ∷ t) k keeps =
    let (s, e) = keeps r in rw e (ground (arith, present-change i id f t k keeps, k r s e))

pub Distinct-change :
    (id : Uuid) (f : Row → Option Row) (t : Table)
    → KeepsIdIn f
    → Keeps f
    → Distinct t
    → Distinct (change id f t)
unfolding change
Distinct-change id f [] k keeps d = tt
Distinct-change id f (r ∷ t) k keeps (fresh, d) =
    let (s, e) = keeps r in
    let rest = Distinct-change id f t k keeps d in
    elim (Bool-cases (r.id == id)) [
      | inl b ↦ rw (e, b) (rw (k r s e) (present-change id r.id f t k keeps ∙ fresh), rest)
      | inr b ↦ rw (e, b) (present-change id r.id f t k keeps ∙ fresh, rest)
    ]

under-Keeps : (c : Call) (f : Row → Row) → Keeps (under c (λ r. some (f r)))
under-Keeps c f r = elim (Bool-cases (reaches c)) [
  | inl e ↦ rw e (f r, refl)
  | inr e ↦ rw e (r, refl)
]

if-Keeps : (b : Bool) (f g : Row → Option Row) → Keeps f → Keeps g → Keeps (if b then f else g)
if-Keeps true f g kf kg = kf
if-Keeps false f g kf kg = kg

pub fate-Keeps :
    (render : Err → String) (cfg : Config) (m : Message) (err : Err) (canceled : Bool) (c : Call)
    → Keeps (fate_of render cfg m (some err) canceled c)
fate-Keeps render cfg m err canceled c =
    if-Keeps canceled _ _ (λ r. (r, refl))
      (if-Keeps (is_terminal err) _ _ (under-Keeps c (fail_row c (render err))) (
        if-Keeps (is_conflict err) _ _ (under-Keeps c (defer_row c cfg.conflict_backoff))
          (under-Keeps c (retry_row c (backoff_for cfg m.attempts) (render err)))))
