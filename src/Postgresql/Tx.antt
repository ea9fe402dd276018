-- ===== src/Postgresql/Tx.antt =====
-- postgresql/tx.go: a function in a transaction. The database is a parameter: `S` is its state, and
-- `T` that of a transaction, open or ended.
mod Examples
pub mod Atomic
use hockey_libs.Prelude.{◌≡◌, ◌⊎◌, Option, none, some}
use hockey_libs.Errors.{Err, wrapped, Result, ret, err}

-- pgx: `begin` opens a transaction on a state, `commit` and `rollback` end it, and `left` is the state
-- of the database after that. An open transaction began on `before` and would make `effect` of it.
-- A commit ends the transaction also where it fails, so that a rollback has nothing left to do; where
-- it fails, as when the connection is lost, the server may have committed or not.
pub record Database (S T : Type 0) : Type 1 where
  pub begin : S → Result T
  pub commit : T → Option Err × T
  pub rollback : T → T
  pub left : T → S
  pub IsOpen : T → Type 0
  pub before : T → S
  pub effect : T → S
  pub rolls_back : (t : T) → IsOpen t → left (rollback t) ≡ before t
  pub commits : (t t' : T) → IsOpen t → commit t ≡ (none, t') → left t' ≡ effect t
  pub commits_or_not :
      (t t' : T) (e : Err)
      → IsOpen t
      → commit t ≡ (some e, t')
      → (left t' ≡ before t) ⊎ (left t' ≡ effect t)
  pub ended : (t t' : T) (e : Option Err) → IsOpen t → commit t ≡ (e, t') → rollback t' ≡ t'

-- How a function ends inside a transaction: an error or none, or a panic.
pub data Ending : Type 0 where
  returns : Option Err → Ending
  panics : Ending

module _ {S T : Type 0} (db : Database S T) where
  -- What follows the commit in `runTx`.
  unfoldable pub after_commit : Option Err × T → Ending × T
  after_commit (none, tx) = (returns none, tx)
  after_commit (some e, tx) = (returns (some (wrapped "postgresql: commit tx" e)), db.rollback tx)

  -- How `runTx` ends a transaction, the deferred rollback included.
  unfoldable pub settle : Ending → T → Ending × T
  unfolding after_commit
  settle panics tx = (panics, db.rollback tx)
  settle (returns (some e)) tx = (returns (some e), db.rollback tx)
  settle (returns none) tx = after_commit (db.commit tx)

  -- `runTx`: the ending, and the transaction that has ended.
  unfoldable pub run_tx : (T → Ending × T) → T → Ending × T
  unfolding settle
  run_tx fn tx = let (ending, open_tx) = fn tx in settle ending open_tx

  -- `InTx`, and `InTxOptions` with a `begin` that has the options: the ending, and the state of the
  -- database.
  unfoldable pub in_tx : (T → Ending × T) → S → Ending × S
  unfolding run_tx
  in_tx fn s = elim (db.begin s) [
    | err e ↦ (returns (some (wrapped "postgresql: begin tx" e)), s)
    | ret tx ↦ let (ending, tx') = run_tx fn tx in (ending, db.left tx')
  ]
