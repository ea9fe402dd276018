-- ===== src/Outbox/Repository/Ops.antt =====
-- outbox/outbox.go: the calls that change the table, as the steps of a machine.
use hockey_libs.Prelude.{
  ℕ, ℤ, Duration, String, Bool, true, false, Option, none, some, List, [], ◌∷◌, ◌++◌, ◌≡◌, refl,
  if◌then◌else◌, str_eq, leb, length,
}
use hockey_libs.Outbox.Queue.{Uuid}
use hockey_libs.Outbox.Repository.{
  Table, Call, Failure, exec, claim, complete_row, retry, defer, fail, delete_old_failed, enqueue,
  insert_row, new_row, attempts_or_default, claim_rows, picked, lease, fits_smallint, is_member,
  ids, Row, delete_where, is_expired,
}

pub data Op : Type 0 where
  claims : Call → ℤ → Duration → Op
  completes : Call → Uuid → Op
  retries : Call → Uuid → Duration → String → Op
  defers : Call → Uuid → Duration → Op
  fails : Call → Uuid → String → Op
  cleans : Call → Duration → Op
  enqueues : Call → Option Uuid → String → List ℕ → ℤ → Op

unfoldable pub step : Op → Table → Table
step (claims c limit visibility) t = (claim c limit visibility t).2
step (completes c id) t = (complete_row c id t).1
step (retries c id backoff reason) t = (retry c id backoff reason t).1
step (defers c id delay) t = (defer c id delay t).1
step (fails c id reason) t = (fail c id reason t).1
step (cleans c retention) t = (delete_old_failed c retention t).2
step (enqueues c fresh kind payload limit) t = (enqueue c fresh kind payload limit t).2

unfoldable pub steps : List Op → Table → Table
steps [] t = t
steps (op ∷ ops) t = steps ops (step op t)

-- A statement takes effect or it does not.
pub exec-keeps {ℓ} :
    (P : Table → Type ℓ) (c : Call) (context : String) (statement : Table → Table) (t : Table)
    → P t
    → P (statement t)
    → P (exec c context statement t).1
exec-keeps P c context statement t old new = split c.failure refl
  where
    applied : (b : Bool) → P (if b then statement t else t)
    applied true = new
    applied false = old

    split : (o : Option Failure) → c.failure ≡ o → P (exec c context statement t).1
    split none e = rw e new
    split (some f) e = rw e (applied f.applied)

module _ {ℓ} (P : Table → Type ℓ) (c : Call) (t : Table) (old : P t) where
  take_effect : (x : Table) → P x → (b : Bool) → P (if b then x else t)
  take_effect x new true = new
  take_effect x new false = old

  -- What a claim leaves: the table, or the table with the picked rows leased.
  pub claim_rows-keeps :
      (limit : ℕ) (visibility : Duration)
      → (fits_smallint (lease c visibility (picked c limit t) t) ≡ true
          → P (lease c visibility (picked c limit t) t))
      → P (claim_rows c limit visibility t).2
  unfolding claim_rows
  claim_rows-keeps limit visibility new =
      split (fits_smallint (lease c visibility (picked c limit t) t)) c.failure refl refl
    where
      split :
          (b : Bool) (o : Option Failure)
          → fits_smallint (lease c visibility (picked c limit t) t) ≡ b
          → c.failure ≡ o
          → P (claim_rows c limit visibility t).2
      split false o e f = rw (e, claim_rows) old
      split true none e f = simp (e, f, claim_rows) (new e)
      split true (some x) e f = simp (e, f, claim_rows) (take_effect _ (new e) x.applied)

  -- What an insertion leaves: the table, or the table with one more row at its end.
  pub insert_row-keeps :
      (r : Row) → (is_member r.id (ids t) ≡ false → P (t ++ r ∷ [])) → P (insert_row c r t).2
  unfolding insert_row
  insert_row-keeps r new = split (is_member r.id (ids t)) c.failure refl refl
    where
      split :
          (b : Bool) (o : Option Failure)
          → is_member r.id (ids t) ≡ b
          → c.failure ≡ o
          → P (insert_row c r t).2
      split true o e f = rw (e, insert_row) old
      split false none e f = simp (e, f, insert_row) (new e)
      split false (some x) e f = simp (e, f, insert_row) (take_effect _ (new e) x.applied)

  -- What a cleanup leaves: the table, or the table without the expired rows.
  pub delete_old_failed-keeps :
      (retention : Duration)
      → P (delete_where (is_expired c retention) t)
      → P (delete_old_failed c retention t).2
  unfolding delete_old_failed
  delete_old_failed-keeps retention new = split c.failure refl
    where
      split : (o : Option Failure) → c.failure ≡ o → P (delete_old_failed c retention t).2
      split none f = simp (f, delete_old_failed) new
      split (some x) f = simp (f, delete_old_failed) (take_effect _ new x.applied)

  -- What an enqueuing leaves: the table, or the table with a new row for a fresh id.
  pub enqueue-keeps :
      (fresh : Option Uuid) (kind : String) (payload : List ℕ) (limit : ℤ)
      → ((id : Uuid)
          → is_member id (ids t) ≡ false
          → P (t ++ new_row c id kind payload (attempts_or_default limit) ∷ []))
      → P (enqueue c fresh kind payload limit t).2
  unfolding enqueue
  enqueue-keeps fresh kind payload limit new =
      split fresh (str_eq kind "") (leb (length payload) 0) refl refl
    where
      split :
          (o : Option Uuid) (a b : Bool)
          → str_eq kind "" ≡ a
          → leb (length payload) 0 ≡ b
          → P (enqueue c o kind payload limit t).2
      split o true b e f = rw (e, enqueue) old
      split o false true e f = rw (e, f, enqueue) old
      split none false false e f = rw (e, f, enqueue) old
      split (some id) false false e f =
          rw (e, f, enqueue)
            (insert_row-keeps (new_row c id kind payload (attempts_or_default limit))
              (unfold new_row in new id))
