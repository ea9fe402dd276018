-- ===== src/Outbox/Worker/Attempts.antt =====
-- outbox/worker.go over outbox/outbox.go: how often a message is attempted.
use hockey_libs.Prelude.{ℕ, suc, ◌≤◌, ltb, pos, true, false, Option, some, List, ◌≡◌, String}
use hockey_libs.Errors.{Err}
use hockey_libs.Outbox.Terminal.{is_terminal, is_conflict}
use hockey_libs.Outbox.Queue.{Uuid, Message}
use hockey_libs.Outbox.Config.{Config}
use hockey_libs.Outbox.Repository.{
  Row, Table, Call, repository, claim, lease_row, retry_row, is_member, is_none,
}
use hockey_libs.Outbox.Repository.Rows.{find, Distinct}
use hockey_libs.Outbox.Repository.Claim.{message_ids}
use hockey_libs.Outbox.Worker.{Metrics, deliver, backoff_for}
use hockey_libs.Outbox.Worker.Fate.{reaches}

module _ (render : Err → String) (cfg : Config) (id : Uuid) where
  -- The table and what a claim of the worker makes of it.
  abbrev pub claimed : Call → ℕ → Table → List Message × Table
  claimed c limit t =
      let (messages, _, t') = claim c (pos limit) cfg.visibility_timeout t in (messages, t')

  -- A delivery whose `Send` answers with this error.
  abbrev pub failing : Message → Err → Call → Option Metrics → Table → Table
  failing m err d metrics t =
      (deliver repository render cfg m (record { answer = some err; canceled = false; env = d })
        (record { state = t; metrics = metrics })).state

  -- The tables in which the message `id` has been tried so many times since `s`. Each try is a claim
  -- that returns the message and a delivery that ends in an ordinary error, whose rescheduling takes
  -- effect; between the tries anything may happen that leaves the row of the message alone.
  pub data Tried (s : Table) : ℕ → Table → Type 0 where
    untried : Tried s 0 s
    elsewhere :
        {n : ℕ} {t u : Table} → Tried s n t → Distinct u → find id u ≡ find id t → Tried s n u
    again :
        {n : ℕ} {t u : Table} (c : Call) (limit : ℕ) (m : Message) (err : Err) (d : Call)
        (metrics : Option Metrics)
        → Tried s n t
        → is_member id (message_ids (claimed c limit t).0) ≡ true
        → m.id ≡ id
        → is_terminal err ≡ false
        → is_conflict err ≡ false
        → reaches d ≡ true
        → u ≡ failing m err d metrics (claimed c limit t).1
        → Tried s (suc n) u

  -- The row of the message after so many tries: it is pending exactly while tries are left.
  pub record After (limit n : ℕ) (t : Table) : Type 0 where
    pub distinct : Distinct t
    pub row : Row
    pub found : find id t ≡ some row
    pub counted : row.attempts ≡ n
    pub same_limit : row.max_attempts ≡ limit
    pub pending : is_none row.failed_at ≡ ltb n limit
    pub within : n ≤ limit

  -- The row of a message that is claimed and then fails with an ordinary error.
  abbrev tried_row : Call → Message → Err → Call → Row → Row
  tried_row c m err d r =
      retry_row d (backoff_for cfg m.attempts) (render err) (lease_row c cfg.visibility_timeout r)
