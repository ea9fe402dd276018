-- ===== src/Outbox/Worker/Calls.antt =====
-- outbox/worker.go over outbox/outbox.go: the calls of the repository that a running worker makes,
-- in their order.
use hockey_libs.Prelude.{
  Bool, true, false, Option, none, some, List, [], ◌∷◌, ◌++◌, ◌≡◌, refl, sym, ap, ◌∙◌, subst,
  if◌then◌else◌, String, Bool-cases, Option-cases, inl, inr,
}
use hockey_libs.Errors.{Err}
use hockey_libs.Outbox.Terminal.{is_terminal, is_conflict}
use hockey_libs.Outbox.Queue.{Uuid, Message}
use hockey_libs.Outbox.Config.{Config}
use hockey_libs.Outbox.Repository.{Table, Call, repository, complete_row}
use hockey_libs.Outbox.Repository.Ops.{
  Op, claims, completes, retries, defers, fails, cleans, step, steps,
}
use hockey_libs.Outbox.Repository.WellFormed.{WellFormed}
use hockey_libs.Outbox.Repository.Life.{life}
use hockey_libs.Outbox.Repository.Life.Refines.{Turns, steps-Turns}
use hockey_libs.Outbox.Worker.{
  Round, Delivery, World, Next, stop, again, pause, after_send, deliver, deliver_all, process_batch,
  maintain, round, run, failed_while_done, backoff_for, finish, give_up, postpone, reschedule,
}
use hockey_libs.Outbox.Worker.Sent.{claimed, delivered, served, cleanup-state}

steps-append : (xs ys : List Op) (t : Table) → steps (xs ++ ys) t ≡ steps ys (steps xs t)
unfolding steps
steps-append [] ys t = refl
steps-append (x ∷ xs) ys t = steps-append xs ys (step x t)

module _ (render : Err → String) (cfg : Config) where
  -- A delivery makes one call at most.
  abbrev pub send_calls : Message → Option Err → Bool → Call → List Op
  send_calls m none canceled c = completes c m.id ∷ []
  send_calls m (some err) canceled c =
      if canceled
      then []
      else if is_terminal err
      then fails c m.id (render err) ∷ []
      else if is_conflict err
      then defers c m.id cfg.conflict_backoff ∷ []
      else retries c m.id (backoff_for cfg m.attempts) (render err) ∷ []

  unfoldable pub deliver_calls : (Message → Delivery Call) → List Message → List Op
  deliver_calls env [] = []
  deliver_calls env (m ∷ ms) =
      let d = env m in send_calls m d.answer d.canceled d.env ++ deliver_calls env ms

  abbrev pub maintain_calls : Round Call → List Op
  maintain_calls r = if r.cleanup_due then cleans r.cleanup_env cfg.failed_retention ∷ [] else []

  abbrev pub batch_calls : Round Call → World Table → List Op
  batch_calls r w =
      claims r.claim_env cfg.batch_size cfg.visibility_timeout
      ∷ deliver_calls r.delivery (delivered render cfg r w)

  abbrev pub round_calls : Round Call → World Table → List Op
  round_calls r w =
      let (_, err, _) = process_batch repository render cfg r w in
      batch_calls r w
      ++ (if failed_while_done repository render cfg r err then [] else maintain_calls r)

  unfoldable pub run_calls : List (Round Call) → World Table → List Op
  run_calls [] w = []
  run_calls (r ∷ rs) w =
      let (next, w') = round repository render cfg r w in
      let rest = run_calls rs w' in
      round_calls r w ++ elim next [ stop ↦ [] | again ↦ rest | pause ↦ rest ]

  after_send-steps :
      (m : Message) (answer : Option Err) (canceled : Bool) (c : Call) (w : World Table)
      → (after_send repository render cfg m answer canceled c w).state
        ≡ steps (send_calls m answer canceled c) w.state
  unfolding after_send finish give_up postpone reschedule steps step
  after_send-steps m none canceled c w = elim (Option-cases (complete_row c m.id w.state).0) [
    | inl e ↦ rw (e, finish) refl
    | inr (x, e) ↦ rw (e, finish) refl
  ]
  after_send-steps m (some err) true c w = refl
  after_send-steps m (some err) false c w = elim (Bool-cases (is_terminal err)) [
    | inl e ↦ rw e refl
    | inr e ↦ elim (Bool-cases (is_conflict err)) [
      | inl f ↦ rw (e, f) refl
      | inr f ↦ rw (e, f) refl
    ]
  ]

  deliver_all-steps :
      (env : Message → Delivery Call) (ms : List Message) (w : World Table)
      → (deliver_all repository render cfg env ms w).state ≡ steps (deliver_calls env ms) w.state
  unfolding deliver_all deliver_calls deliver steps
  deliver_all-steps env [] w = refl
  deliver_all-steps env (m ∷ ms) w =
      let d = env m in
      deliver_all-steps env ms (deliver repository render cfg m d w)
      ∙ ap (steps (deliver_calls env ms)) (after_send-steps m d.answer d.canceled d.env w)
      ∙ sym (steps-append (send_calls m d.answer d.canceled d.env) (deliver_calls env ms) w.state)

  process_batch-steps :
      (r : Round Call) (w : World Table)
      → (served render cfg r w).state ≡ steps (batch_calls r w) w.state
  unfolding process_batch steps step deliver_calls
  process_batch-steps r w = elim (Option-cases (claimed render cfg r w).1) [
    | inl e ↦
        rw (e, served, process_batch, delivered)
          (deliver_all-steps r.delivery (r.schedule (claimed render cfg r w).0)
            (record w { state = (claimed render cfg r w).2 }))
    | inr (x, e) ↦ rw (e, served, process_batch, delivered, deliver_calls) refl
  ]

  maintain-steps :
      (r : Round Call) (w : World Table)
      → (maintain repository render cfg r w).state ≡ steps (maintain_calls r) w.state
  unfolding steps
  maintain-steps r w = elim (Bool-cases r.cleanup_due) [
    | inl e ↦ rw e (cleanup-state render cfg r.cleanup_env w)
    | inr e ↦ rw e refl
  ]

  round-steps :
      (r : Round Call) (w : World Table)
      → (round repository render cfg r w).1.state ≡ steps (round_calls r w) w.state
  unfolding round steps
  round-steps r w =
      let (_, err, _) = process_batch repository render cfg r w in
      elim (Bool-cases (failed_while_done repository render cfg r err)) [
        | inl e ↦ rw (e, steps-append (batch_calls r w) [] w.state, ← process_batch-steps r w) refl
        | inr e ↦
            rw
              (
                e,
                steps-append (batch_calls r w) (maintain_calls r) w.state,
                ← process_batch-steps r w,
              )
              (maintain-steps r (served render cfg r w))
      ]

  run-steps-next :
      (r : Round Call) (rs : List (Round Call)) (w : World Table)
      → (let w' = (round repository render cfg r w).1 in
          (run repository render cfg rs w').state ≡ steps (run_calls rs w') w'.state)
      → (run repository render cfg (r ∷ rs) w).state ≡ steps (run_calls (r ∷ rs) w) w.state
  unfolding run run_calls steps
  run-steps-next r rs w ih = split (round repository render cfg r w).0 refl
    where
      w' : World Table
      w' = (round repository render cfg r w).1

      rest :
          (run repository render cfg rs w').state
          ≡ steps (round_calls r w ++ run_calls rs w') w.state
      rest =
          ih
          ∙ ap (steps (run_calls rs w')) (round-steps r w)
          ∙ sym (steps-append (round_calls r w) (run_calls rs w') w.state)

      split :
          (n : Next)
          → (round repository render cfg r w).0 ≡ n
          → (run repository render cfg (r ∷ rs) w).state ≡ steps (run_calls (r ∷ rs) w) w.state
      split stop e =
          rw (e, run, run_calls, steps-append (round_calls r w) [] w.state) (round-steps r w)
      split again e = rw (e, run, run_calls) rest
      split pause e = rw (e, run, run_calls) rest

  -- The calls of a run lead from its table to its table.
  run-steps :
      (rs : List (Round Call)) (w : World Table)
      → (run repository render cfg rs w).state ≡ steps (run_calls rs w) w.state
  unfolding run run_calls steps
  run-steps [] w = refl
  run-steps (r ∷ rs) w = run-steps-next r rs w (run-steps rs (round repository render cfg r w).1)

  -- A worker over a well-formed table refines the life of each message: the calls that its rounds
  -- make give the message one turn of its life each, and these turns lead from where it stands
  -- before the run to where it stands after it.
  pub run-Turns :
      (rs : List (Round Call)) (w : World Table) (id : Uuid)
      → WellFormed w.state
      → Turns (run_calls rs w) id (life id w.state) (life id (run repository render cfg rs w).state)
  run-Turns rs w id h =
      subst (λ t. Turns (run_calls rs w) id (life id w.state) (life id t)) (sym (run-steps rs w))
        (steps-Turns (run_calls rs w) id w.state h)
