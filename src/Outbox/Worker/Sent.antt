-- ===== src/Outbox/Worker/Sent.antt =====
-- outbox/worker.go over outbox/outbox.go: how a message leaves the queue while a worker runs.
use hockey_libs.Prelude.{
  true, false, Option, none, some, List, [], ◌∷◌, ◌==◌, ==_iff, ◌≡◌, refl, subst, sym, String,
  Bool-cases, Option-cases, inl, inr, ◌⊎◌,
}
use hockey_libs.Errors.{Err}
use hockey_libs.Outbox.Queue.{Uuid, Message, Counter}
use hockey_libs.Outbox.Config.{Config}
use hockey_libs.Outbox.Repository.{
  Row, Table, Call, repository, is_expired, claim, count_pending, count_failed,
}
use hockey_libs.Outbox.Repository.Rows.{find}
use hockey_libs.Outbox.Repository.Ops.{claims, cleans, step}
use hockey_libs.Outbox.Repository.Loss.{present, step-Removes}
use hockey_libs.Outbox.Worker.Present.{
  present-find, present-change, present-change-other, fate-Keeps,
}
use hockey_libs.Outbox.Worker.{
  Round, Delivery, World, Next, stop, again, pause, deliver, deliver_all, process_batch, maintain,
  cleanup_failed, observe_depth, observe_counts, round, run, failed_while_done,
}
use hockey_libs.Outbox.Worker.Fate.{change, fate, fate_of, deliver-change, fate-KeepsIdIn}

-- `Send` answered a message of a batch with this id without an error.
abbrev pub Accepted : Uuid → (Message → Delivery Call) → List Message → Type 0
Accepted id env [] = ⊥
Accepted id env (m ∷ ms) = ((m.id ≡ id) × ((env m).answer ≡ none)) ⊎ Accepted id env ms

module _ (render : Err → String) (cfg : Config) where
  deliver_accepts :
      (m : Message) (d : Delivery Call) (w : World Table) (id : Uuid)
      → present id w.state ≡ true
      → present id (deliver repository render cfg m d w).state ≡ false
      → (m.id ≡ id) × (d.answer ≡ none)
  deliver_accepts m d w id h g =
      go (rw (deliver-change render cfg m d w) at g) (Bool-cases (m.id == id))
        (Option-cases d.answer)
    where
      go :
          present id (change m.id (fate render cfg m d) w.state) ≡ false
          → ((m.id == id) ≡ true) ⊎ ((m.id == id) ≡ false)
          → (d.answer ≡ none) ⊎ ((e : Err) × (d.answer ≡ some e))
          → (m.id ≡ id) × (d.answer ≡ none)
      go g (inr n) o = cc (
          present-change-other m.id id (fate render cfg m d) w.state
            (fate-KeepsIdIn render cfg m d.answer d.canceled d.env) n)
      go g (inl e) (inl o) = ((==_iff m.id id).0 e, o)
      go g (inl e) (inr (x, o)) = cc (
          present-change m.id id (fate_of render cfg m (some x) d.canceled d.env) w.state
            (fate-KeepsIdIn render cfg m (some x) d.canceled d.env)
            (fate-Keeps render cfg m x d.canceled d.env))

  deliver_all-Accepted :
      (env : Message → Delivery Call) (ms : List Message) (w : World Table) (id : Uuid)
      → present id w.state ≡ true
      → present id (deliver_all repository render cfg env ms w).state ≡ false
      → Accepted id env ms
  unfolding deliver_all
  deliver_all-Accepted env [] w id h g = cc
  deliver_all-Accepted env (m ∷ ms) w id h g =
      elim (Bool-cases (present id (deliver repository render cfg m (env m) w).state)) [
        | inl e ↦
            inr (deliver_all-Accepted env ms (deliver repository render cfg m (env m) w) id e g)
        | inr e ↦ inl (deliver_accepts m (env m) w id h e)
      ]

  -- What a round claims, and the messages that it delivers: none after an error.
  abbrev pub claimed : Round Call → World Table → List Message × Option Err × Table
  claimed r w = claim r.claim_env cfg.batch_size cfg.visibility_timeout w.state

  abbrev pub delivered : Round Call → World Table → List Message
  delivered r w = elim (claimed r w).1 [ none ↦ r.schedule (claimed r w).0 | some _ ↦ [] ]

  -- The table of a round after its batch.
  abbrev pub served : Round Call → World Table → World Table
  served r w = (process_batch repository render cfg r w).2

  -- How a message may leave the queue in a round.
  abbrev pub Leaves : Uuid → Round Call → World Table → Type 0
  Leaves id r w =
      Accepted id r.delivery (delivered r w)
      ⊎ ((r.cleanup_due ≡ true)
          × (row : Row) × (find id (served r w).state ≡ some row)
          × (is_expired r.cleanup_env cfg.failed_retention row ≡ true))

  -- The message leaves in one of the rounds.
  abbrev pub LeavesIn : Uuid → List (Round Call) → World Table → Type 0
  LeavesIn id [] w = ⊥
  LeavesIn id (r ∷ rs) w = Leaves id r w ⊎ LeavesIn id rs (round repository render cfg r w).1

  claimed-present :
      (r : Round Call) (w : World Table) (id : Uuid)
      → present id w.state ≡ true
      → present id (claimed r w).2 ≡ true
  claimed-present r w id h = elim (Bool-cases (present id (claimed r w).2)) [
    | inl e ↦ e
    | inr e ↦
        let (row, found) = present-find id w.state h in
        absurd (
          step-Removes (claims r.claim_env cfg.batch_size cfg.visibility_timeout) id w.state row
            found (unfold step in e))
  ]

  pub delivered_cases :
      (r : Round Call) (w : World Table)
      → (claimed r w).1 ≡ none
      → delivered r w ≡ r.schedule (claimed r w).0
  delivered_cases r w e = rw (e, delivered) refl

  process_batch-Accepted :
      (r : Round Call) (w : World Table) (id : Uuid)
      → present id w.state ≡ true
      → present id (served r w).state ≡ false
      → Accepted id r.delivery (delivered r w)
  unfolding process_batch
  process_batch-Accepted r w id h g = elim (Option-cases (claimed r w).1) [
    | inl e ↦ subst (Accepted id r.delivery) (sym (delivered_cases r w e)) (
        deliver_all-Accepted r.delivery (r.schedule (claimed r w).0)
          (record w { state = (claimed r w).2 }) id (claimed-present r w id h)
          (rw (e, served, process_batch) at g))
    | inr (x, e) ↦ cc (claimed-present r w id h, rw (e, served, process_batch) at g)
  ]

  observe_counts-state :
      (counter : Counter Table Call) (c : Call) (w : World Table)
      → (observe_counts repository render cfg counter c w).state ≡ w.state
  observe_counts-state counter c w = elim (Option-cases (counter.count_pending c w.state).1) [
    | inr (x, e) ↦ rw (e, observe_counts) refl
    | inl e ↦ elim (Option-cases (counter.count_failed c w.state).1) [
      | inr (x, f) ↦ rw (e, f, observe_counts) refl
      | inl f ↦ rw (e, f, observe_counts) refl
    ]
  ]

  pub cleanup-state :
      (c : Call) (w : World Table)
      → (observe_depth repository render cfg c (cleanup_failed repository render cfg c w)).state
        ≡ step (cleans c cfg.failed_retention) w.state
  unfolding observe_depth cleanup_failed step
  cleanup-state c w =
      observe_counts-state (record { count_pending = count_pending; count_failed = count_failed }) c
        (cleanup_failed repository render cfg c w)

  maintain_expires :
      (r : Round Call) (w : World Table) (id : Uuid)
      → present id w.state ≡ true
      → present id (maintain repository render cfg r w).state ≡ false
      → (r.cleanup_due ≡ true)
        × (row : Row) × (find id w.state ≡ some row)
        × (is_expired r.cleanup_env cfg.failed_retention row ≡ true)
  maintain_expires r w id h g = elim (Bool-cases r.cleanup_due) [
    | inr e ↦ cc
    | inl e ↦
        let (row, found) = present-find id w.state h in
        (
          e,
          row,
          found,
          step-Removes (cleans r.cleanup_env cfg.failed_retention) id w.state row found
              (rw (e, cleanup-state r.cleanup_env w) at g),
        )
  ]

  round-Leaves :
      (r : Round Call) (w : World Table) (id : Uuid)
      → present id w.state ≡ true
      → present id (round repository render cfg r w).1.state ≡ false
      → Leaves id r w
  unfolding round
  round-Leaves r w id h g = elim (Bool-cases (present id (served r w).state)) [
    | inr e ↦ inl (process_batch-Accepted r w id h e)
    | inl e ↦
        elim (Bool-cases
          (failed_while_done repository render cfg r (process_batch repository render cfg r w).1)) [
            | inl f ↦ cc
            | inr f ↦ inr (maintain_expires r (served r w) id e (rw f at g))
          ]
  ]

  pub round-next :
      (r : Round Call) (rs : List (Round Call)) (w : World Table)
      → ((run repository render cfg (r ∷ rs) w) ≡ (round repository render cfg r w).1)
        ⊎ ((run repository render cfg (r ∷ rs) w)
            ≡ run repository render cfg rs (round repository render cfg r w).1)
  unfolding run
  round-next r rs w = split (round repository render cfg r w).0 refl
    where
      split :
          (n : Next)
          → (round repository render cfg r w).0 ≡ n
          → ((run repository render cfg (r ∷ rs) w) ≡ (round repository render cfg r w).1)
            ⊎ ((run repository render cfg (r ∷ rs) w)
                ≡ run repository render cfg rs (round repository render cfg r w).1)
      split stop e = inl (rw (e, run) refl)
      split again e = inr (rw (e, run) refl)
      split pause e = inr (rw (e, run) refl)

  -- While a worker runs, in whatever order it delivers and whatever fails, a message leaves the
  -- queue in two ways only: `Send` accepted it in a batch that the worker claimed, or a cleanup
  -- that was due found it failed longer ago than the retention.
  pub run-LeavesIn :
      (rs : List (Round Call)) (w : World Table) (id : Uuid)
      → present id w.state ≡ true
      → present id (run repository render cfg rs w).state ≡ false
      → LeavesIn id rs w
  run-LeavesIn [] w id h g = unfold run in cc
  run-LeavesIn (r ∷ rs) w id h g =
      elim (Bool-cases (present id (round repository render cfg r w).1.state)) [
        | inr e ↦ inl (round-Leaves r w id h e)
        | inl e ↦ elim (round-next r rs w) [
          | inl q ↦ cc
          | inr q ↦ inr (run-LeavesIn rs (round repository render cfg r w).1 id e (rw q at g))
        ]
      ]
