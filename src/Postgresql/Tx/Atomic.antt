-- ===== src/Postgresql/Tx/Atomic.antt =====
-- postgresql/tx.go: a transaction takes effect as a whole or not at all.
use hockey_libs.Prelude.{◌≡◌, refl, ap, ◌∙◌, ◌⊎◌, inl, inr, Option, none, some}
use hockey_libs.Errors.{Result-cases, Err, wrapped, ret, err}
use hockey_libs.Postgresql.Tx.{
  Database, Ending, returns, panics, after_commit, settle, run_tx, in_tx,
}

module _ {S T : Type 0} (db : Database S T) where
  -- The function ended so, on a transaction that became `tx`; the caller gets `r.0`, and the state of
  -- the database is `r.1`.
  pub data Outcome (s : S) (tx : T) (ending : Ending) (r : Ending × S) : Type 0 where
    committed :
        ending ≡ returns none
        → (db.commit tx).0 ≡ none
        → r ≡ (returns none, db.effect tx)
        → Outcome s tx ending r
    refused :
        (e : Err) → ending ≡ returns (some e) → r ≡ (returns (some e), s) → Outcome s tx ending r
    panicked : ending ≡ panics → r ≡ (panics, s) → Outcome s tx ending r
    commit_failed :
        (e : Err)
        → ending ≡ returns none
        → (db.commit tx).0 ≡ some e
        → r.0 ≡ returns (some (wrapped "postgresql: commit tx" e))
        → (r.1 ≡ s) ⊎ (r.1 ≡ db.effect tx)
        → Outcome s tx ending r

  -- The transaction has ended, seen from the database.
  abbrev seen : Ending × T → Ending × S
  seen (ending, tx) = (ending, db.left tx)

  either_way :
      (s : S) (tx t : T)
      → db.before tx ≡ s
      → (db.left t ≡ db.before tx) ⊎ (db.left t ≡ db.effect tx)
      → (db.left t ≡ s) ⊎ (db.left t ≡ db.effect tx)
  either_way s tx t b (inl h) = inl (h ∙ b)
  either_way s tx t b (inr h) = inr h

  after_commit-Outcome :
      (s : S) (tx : T) (r : Option Err × T)
      → db.IsOpen tx
      → db.before tx ≡ s
      → db.commit tx ≡ r
      → Outcome s tx (returns none) (seen (after_commit db r))
  unfolding after_commit
  after_commit-Outcome s tx (none, t) o b c =
      committed refl (ap (λ x. x.0) c) (ap (λ x. (returns none, x)) (db.commits tx t o c))
  after_commit-Outcome s tx (some e, t) o b c =
      commit_failed e refl (ap (λ x. x.0) c) refl
        (rw (db.ended tx t (some e) o c) (either_way s tx t b (db.commits_or_not tx t e o c)))

  settle-Outcome :
      (s : S) (tx : T) (ending : Ending)
      → db.IsOpen tx
      → db.before tx ≡ s
      → Outcome s tx ending (seen (settle db ending tx))
  unfolding settle
  settle-Outcome s tx panics o b = panicked refl (ap (λ x. (panics, x)) (db.rolls_back tx o ∙ b))
  settle-Outcome s tx (returns (some e)) o b =
      refused e refl (ap (λ x. (returns (some e), x)) (db.rolls_back tx o ∙ b))
  settle-Outcome s tx (returns none) o b = after_commit-Outcome s tx (db.commit tx) o b refl

  -- For a function that leaves its transaction open: if the transaction cannot begin, the caller gets
  -- that error and nothing changes. If the function ends in an error or a panic, the caller gets it and
  -- the state is the one before. If it returns no error and the commit succeeds, the caller gets no
  -- error and the state has all the effects. If the commit fails, the caller gets its error, and the
  -- state is the one before or has all the effects.
  pub in_tx-atomic :
      (fn : T → Ending × T) (s : S)
      → ((tx : T) → db.begin s ≡ ret tx → db.IsOpen (fn tx).1 × (db.before (fn tx).1 ≡ s))
      → ((e : Err) × (db.begin s ≡ err e)
          × (in_tx db fn s ≡ (returns (some (wrapped "postgresql: begin tx" e)), s)))
        ⊎ ((tx : T) × (db.begin s ≡ ret tx) × Outcome s (fn tx).1 (fn tx).0 (in_tx db fn s))
  unfolding in_tx run_tx
  in_tx-atomic fn s works = elim (Result-cases (db.begin s)) [
    | inl (e, b) ↦ inl (e, b, rw (in_tx, b) refl)
    | inr (tx, b) ↦
        let (o, same) = works tx b in
        inr (tx, b, rw (in_tx, b) (settle-Outcome s (fn tx).1 (fn tx).0 o same))
  ]
