-- ===== src/Outbox/Examples/Runs.antt =====
-- outbox/: calls and runs of a worker over the queue of two messages, and the theorems on them.
use hockey_libs.Prelude.{length, ℕ, pos, true, false, none, [], ◌∷◌, ◌≡◌, refl, minutes}
use hockey_libs.Outbox.Repository.{
  claim, Call, repository, count_pending, count_failed, delete_old_failed,
}
use hockey_libs.Outbox.Repository.Ops.{claims, step}
use hockey_libs.Outbox.Repository.Earliest.Claimed.{NoneAfter, claim-NoneAfter}
use hockey_libs.Outbox.Repository.Life.{life, Turn}
use hockey_libs.Outbox.Repository.Life.Refines.{Turns, step-Turn}
use hockey_libs.Outbox.Worker.{
  Round, Delivery, run, round, process_batch, after_batch, observe_depth, cleanup_failed,
}
use hockey_libs.Outbox.Worker.Sent.{LeavesIn, run-LeavesIn}
use hockey_libs.Outbox.Worker.Calls.{run_calls, run-Turns}
use hockey_libs.Outbox.Examples.{
  row, two_rows, at, defaults, render, world, two_rows-WellFormed, all_of_outbox,
}

abbrev accepted : Delivery Call
accepted = record { answer = none; canceled = false; env = at 12 }

-- A round that claims both messages, delivers them and cleans up.
abbrev busy : Round Call
busy = record {
  claim_env = at 10;
  delivery = λ m. accepted;
  schedule = λ ms. ms;
  ctx_err = false;
  cleanup_due = true;
  cleanup_env = at 13;
  done_first = true;
}

-- What evaluation of a run opens besides.
run_of_outbox : ℕ
unfolding all_of_outbox run round process_batch after_batch observe_depth cleanup_failed
    count_pending count_failed delete_old_failed
run_of_outbox = 0

run_test : (run repository render defaults (busy ∷ []) world).state ≡ []
unfolding run_of_outbox
run_test = refl

step-Turn_example :
    Turn
      (claims (at 10) (pos 5) (minutes 2))
      1
      (life 1 two_rows)
      (life 1 (step (claims (at 10) (pos 5) (minutes 2)) two_rows))
step-Turn_example =
    step-Turn (claims (at 10) (pos 5) (minutes 2)) 1 two_rows two_rows-WellFormed.distinct

run-LeavesIn_example : LeavesIn render defaults 1 (busy ∷ []) world
unfolding run_of_outbox
run-LeavesIn_example = run-LeavesIn render defaults (busy ∷ []) world 1 refl refl

run-Turns_example :
    Turns
      (run_calls render defaults (busy ∷ []) world)
      1
      (life 1 two_rows)
      (life 1 (run repository render defaults (busy ∷ []) world).state)
run-Turns_example = run-Turns render defaults (busy ∷ []) world 1 two_rows-WellFormed

claim-NoneAfter_example :
    (length (claim (at 10) (pos 1) (minutes 2) two_rows).0 ≡ 1)
    × NoneAfter two_rows (row 2 5) (claim (at 10) (pos 1) (minutes 2) two_rows).0
unfolding all_of_outbox
claim-NoneAfter_example =
    claim-NoneAfter (at 10) 1 two_rows two_rows-WellFormed.distinct (minutes 2) (row 2 5) refl refl
      refl refl refl
