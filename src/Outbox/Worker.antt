-- ===== src/Outbox/Worker.antt =====
-- outbox/worker.go and outbox/metrics.go: the worker, over any queue. Log lines are left out.
pub mod Backoff
pub mod Fate
pub mod Order
pub mod Attempts
pub mod Present
pub mod Sent
pub mod Calls
use hockey_libs.Prelude.{
  ℕ, zero, suc, ◌+◌, ◌-◌, ℤ, pos, negsuc, Duration, String, Bool, true, false, not, ◌&&◌, Option,
  none, some, List, [], ◌∷◌, length, ◌*ℤ◌, leb_ℤ, leb, ltb, wrap64, if◌then◌else◌,
}
use hockey_libs.Errors.{Err}
use hockey_libs.Outbox.Terminal.{is_terminal, is_conflict}
use hockey_libs.Outbox.Queue.{Uuid, Message, Queue, Counter}
use hockey_libs.Outbox.Config.{Config, with_defaults, validate}

pub data Outcome : Type 0 where
  sent retried deferred failed : Outcome

-- The counter vector as the list of its increments, newest first, and the two gauges.
pub record Metrics : Type 0 where
  pub messages : List (String × Outcome)
  pub pending : ℕ
  pub failed : ℕ

-- `observe` and `depth` do nothing on a nil `*Metrics`.
unfoldable pub observe : String → Outcome → Option Metrics → Option Metrics
observe kind result none = none
observe kind result (some m) = some (record m { messages = (kind, result) ∷ m.messages })

unfoldable pub depth : ℕ → ℕ → Option Metrics → Option Metrics
depth waiting undelivered none = none
depth waiting undelivered (some m) = some (record m { pending = waiting; failed = undelivered })

-- `newWorker` is `NewWorker`: the settings that the worker runs with, or the refusal.
unfoldable pub new_worker : Config → Config × Option Err
unfolding with_defaults validate
new_worker cfg = let c = with_defaults cfg in (c, validate c)

-- The loop of `backoffFor`, with the rounds left.
unfoldable pub double : Duration → ℕ → Duration → Duration
unfolding wrap64
double cap zero backoff = backoff
double cap (suc rounds) backoff =
    let next = wrap64 (backoff *ℤ pos 2) in
    let rest = double cap rounds next in if leb_ℤ cap next then cap else rest

unfoldable pub backoff_for : Config → ℕ → Duration
backoff_for c attempts = double c.max_backoff (attempts - 1) c.base_backoff

-- What meets one delivery: the answer of `Send`, whether `ctx.Err()` is `Canceled` when it
-- returns, and what the environment contributes to the call of the queue that follows.
pub record Delivery (E : Type 0) : Type 0 where
  pub answer : Option Err
  pub canceled : Bool
  pub env : E

-- The state of the queue and the worker's metrics.
pub record World (S : Type 0) : Type 0 where
  pub state : S
  pub metrics : Option Metrics

-- What meets one round of the loop of `Run`.
pub record Round (E : Type 0) : Type 0 where
  pub claim_env : E
  pub delivery : Message → Delivery E
  pub schedule : List Message → List Message
  pub ctx_err : Bool
  pub cleanup_due : Bool
  pub cleanup_env : E
  pub done_first : Bool

-- What the loop does next: return, go on at once, or go on after the pause.
pub data Next : Type 0 where
  stop again pause : Next

module _ {S E : Type 0} (queue : Queue S E) (render : Err → String) (cfg : Config) where
  -- The end of a delivery: the queue's state, and the outcome that is counted.
  abbrev pub count : String → Outcome → World S → World S
  count kind result w = record w { metrics = observe kind result w.metrics }

  -- `Send` succeeded.
  unfoldable pub finish : Message → E → World S → World S
  finish m env w =
      let (err, s) = queue.complete env m.id w.state in
      let w' : World S = record w { state = s } in
      elim err [ some _ ↦ w' | none ↦ count m.kind sent w' ]

  -- The branches of the `switch` over the error of `Send`.
  unfoldable pub give_up : Message → Err → E → World S → World S
  give_up m err env w =
      let (_, s) = queue.fail env m.id (render err) w.state in
      count m.kind failed (record w { state = s })

  unfoldable pub postpone : Message → E → World S → World S
  postpone m env w =
      let (_, s) = queue.defer env m.id cfg.conflict_backoff w.state in
      count m.kind deferred (record w { state = s })

  unfoldable pub reschedule : Message → Err → E → World S → World S
  reschedule m err env w =
      let result = if leb m.max_attempts m.attempts then failed else retried in
      let counted = count m.kind result w in
      let (_, s) = queue.retry env m.id (backoff_for cfg m.attempts) (render err) w.state in
      record counted { state = s }

  -- What follows the return of `Send`.
  unfoldable pub after_send : Message → Option Err → Bool → E → World S → World S
  after_send m none canceled env w = finish m env w
  after_send m (some err) canceled env w =
      if canceled
      then w
      else if is_terminal err
      then give_up m err env w
      else if is_conflict err
      then postpone m env w
      else reschedule m err env w

  unfoldable pub deliver : Message → Delivery E → World S → World S
  unfolding after_send
  deliver m d w = after_send m d.answer d.canceled d.env w

  -- The goroutines of a batch. Each makes one call of the queue, so that a run of them is the
  -- deliveries in the order in which those calls are made.
  unfoldable pub deliver_all : (Message → Delivery E) → List Message → World S → World S
  deliver_all env [] w = w
  deliver_all env (m ∷ ms) w = deliver_all env ms (deliver m (env m) w)

  -- `processBatch`: the number of messages, the error, and what is left behind.
  unfoldable pub process_batch : Round E → World S → ℕ × Option Err × World S
  process_batch r w =
      let (messages, err, s) =
        queue.claim r.claim_env cfg.batch_size cfg.visibility_timeout w.state in
      let claimed : World S = record w { state = s } in
      elim err [
        | some e ↦ (0, some e, claimed)
        | none ↦ (length messages, none, deliver_all r.delivery (r.schedule messages) claimed)
      ]

  unfoldable pub cleanup_failed : E → World S → World S
  cleanup_failed env w =
      let (_, _, s) = queue.delete_old_failed env cfg.failed_retention w.state in
      record w { state = s }

  abbrev pub observe_counts : Counter S E → E → World S → World S
  observe_counts counter env w =
      let (waiting, err) = counter.count_pending env w.state in
      let (undelivered, err') = counter.count_failed env w.state in
      elim err [
        | some _ ↦ w
        | none ↦ elim err' [
          | some _ ↦ w
          | none ↦ record w { metrics = depth waiting undelivered w.metrics }
        ]
      ]

  unfoldable pub observe_depth : E → World S → World S
  observe_depth env w = elim queue.counter [
    | none ↦ w
    | some counter ↦ observe_counts counter env w
  ]

  abbrev pub maintain : Round E → World S → World S
  maintain r w =
      if r.cleanup_due then observe_depth r.cleanup_env (cleanup_failed r.cleanup_env w) else w

  -- The end of a round: a full batch that went well goes on at once, otherwise the loop waits for
  -- the timer or for the end of the context.
  unfoldable pub after_batch : Round E → ℕ → Option Err → Next
  after_batch r processed err =
      let waited = if r.done_first then stop else pause in
      elim err [
        | none ↦ if leb_ℤ cfg.batch_size (pos processed) then again else waited
        | some _ ↦ waited
      ]

  abbrev pub failed_while_done : Round E → Option Err → Bool
  failed_while_done r none = false
  failed_while_done r (some _) = r.ctx_err

  -- One round of the loop of `Run`.
  unfoldable pub round : Round E → World S → Next × World S
  round r w =
      let (processed, err, w') = process_batch r w in
      if failed_while_done r err then (stop, w') else (after_batch r processed err, maintain r w')

  -- `Run` over the rounds that happen: the rounds are cut off by `stop`.
  unfoldable pub run : List (Round E) → World S → World S
  run [] w = w
  run (r ∷ rs) w =
      let (next, w') = round r w in
      let rest = run rs w' in elim next [ stop ↦ w' | again ↦ rest | pause ↦ rest ]
