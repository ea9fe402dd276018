-- ===== src/Postgresql/Tx/Examples.antt =====
-- postgresql/tx.go: a counter as the database, whose connection is lost in the commit of a large
-- number, and a function that adds one to it.
use hockey_libs.Prelude.{
  ℕ, ◌+◌, ◌≡◌, refl, sym, ap, ◌⊎◌, inr, Option, none, some, leb, if◌then◌else◌,
}
use hockey_libs.Errors.{Err, plain, wrapped, ret-inj, ret, err}
use hockey_libs.Postgresql.Tx.{Database, Ending, returns, after_commit, settle, run_tx, in_tx}
use hockey_libs.Postgresql.Tx.Atomic.{Outcome, in_tx-atomic}

-- A transaction is the value before it, the value that it sees, and the value that it has left.
abbrev Counting : Type 0
Counting = ℕ × ℕ × Option ℕ

abbrev left : Counting → ℕ
left (b, v, none) = b
left (b, v, some n) = n

abbrev rollback : Counting → Counting
rollback (b, v, none) = (b, v, some b)
rollback (b, v, some n) = (b, v, some n)

abbrev commit : Counting → Option Err × Counting
commit (b, v, o) = (if leb 100 v then some (plain "connection lost") else none, (b, v, some v))

rolls_back : (t : Counting) → t.2 ≡ none → left (rollback t) ≡ t.0
rolls_back (b, v, none) h = refl
rolls_back (b, v, some n) h = cc

ended : (t t' : Counting) (e : Option Err) → t.2 ≡ none → commit t ≡ (e, t') → rollback t' ≡ t'
ended t t' e h c = rw (← ap (λ x. x.1) c) refl

abbrev counter : Database ℕ Counting
counter = record {
  begin = λ s. ret (s, s, none);
  commit = commit;
  rollback = rollback;
  left = left;
  IsOpen = λ t. t.2 ≡ none;
  before = λ t. t.0;
  effect = λ t. t.1;
  rolls_back = rolls_back;
  commits = λ t t' o c. ap (λ x. left x.1) (sym c);
  commits_or_not = λ t t' e o c. inr (ap (λ x. left x.1) (sym c));
  ended = ended;
}

abbrev add_one : Counting → Ending × Counting
add_one t = (returns none, (t.0, t.1 + 1, t.2))

stays_open :
    (s : ℕ) (tx : Counting)
    → counter.begin s ≡ ret tx
    → counter.IsOpen (add_one tx).1 × (counter.before (add_one tx).1 ≡ s)
stays_open s tx e =
    let same = ret-inj tx (s, s, none) (sym e) in (ap (λ t. t.2) same, ap (λ t. t.0) same)

committed_test : in_tx counter add_one 4 ≡ (returns none, 5)
unfolding in_tx run_tx settle
committed_test = refl

-- The caller gets the error of the commit, and the number has grown.
lost_test :
    in_tx counter add_one 99
    ≡ (returns (some (wrapped "postgresql: commit tx" (plain "connection lost"))), 100)
unfolding in_tx run_tx settle after_commit
lost_test = refl

in_tx-atomic_example :
    ((e : Err) × (counter.begin 99 ≡ err e)
      × (in_tx counter add_one 99 ≡ (returns (some (wrapped "postgresql: begin tx" e)), 99)))
    ⊎ ((tx : Counting) × (counter.begin 99 ≡ ret tx)
        × Outcome counter 99 (add_one tx).1 (add_one tx).0 (in_tx counter add_one 99))
in_tx-atomic_example = in_tx-atomic counter add_one 99 (stays_open 99)
