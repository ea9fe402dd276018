-- ===== src/Outbox/Queue.antt =====
-- outbox/outbox.go and outbox/worker.go: the messages, and the interfaces between the worker and
-- what stores them. `E` is what the environment contributes to one call: the clock, the locks of
-- other transactions, failures. A call returns Go's results and the new state.
use hockey_libs.Prelude.{ℕ, ℤ, Duration, String, Option, List}
use hockey_libs.Errors.{Err}

abbrev pub Uuid : Type 0
Uuid = ℕ

pub record Message : Type 0 where
  pub id : Uuid
  pub kind : String
  pub payload : List ℕ
  pub attempts : ℕ  -- int16
  pub max_attempts : ℕ

-- The optional interface `Counter`.
pub record Counter (S E : Type 0) : Type 0 where
  pub count_pending : E → S → ℕ × Option Err
  pub count_failed : E → S → ℕ × Option Err

pub record Queue (S E : Type 0) : Type 0 where
  pub claim : E → ℤ → Duration → S → List Message × Option Err × S
  pub complete : E → Uuid → S → Option Err × S
  pub retry : E → Uuid → Duration → String → S → Option Err × S
  pub defer : E → Uuid → Duration → S → Option Err × S
  pub fail : E → Uuid → String → S → Option Err × S
  pub delete_old_failed : E → Duration → S → ℕ × Option Err × S
  pub counter : Option (Counter S E)
