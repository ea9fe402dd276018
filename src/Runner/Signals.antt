-- ===== src/Runner/Signals.antt =====
-- runner/runner.go: `SignalContext`, as a machine over what happens, in order. What a signal does once
-- the goroutine has ended (`signal.Stop`) is the runtime's.
use hockey_libs.Prelude.{ℕ, suc, Bool, true, false, Option, none, some, List, [], ◌∷◌}

pub data Event : Type 0 where
  signal stop_called : Event

-- Where the goroutine waits: in its first `select`, in its second, or nowhere.
pub data Phase : Type 0 where
  first_wait second_wait over : Phase

pub record SignalState : Type 0 where
  pub phase : Phase
  pub cancelled : Bool
  pub exit_code : Option ℕ

abbrev pub exit_code_interrupted : ℕ
exit_code_interrupted = 130

abbrev pub signal_context : SignalState
signal_context = record { phase = first_wait; cancelled = false; exit_code = none }

on_signal : Phase → SignalState → SignalState
on_signal first_wait s = record s { phase = second_wait; cancelled = true }
on_signal second_wait s = record s { phase = over; exit_code = some exit_code_interrupted }
on_signal over s = s

-- A process that has exited does nothing more.
pub handle : SignalState → Event → SignalState
unfolding on_signal
handle s signal = on_signal s.phase s
handle s stop_called = elim s.exit_code [
  | some c ↦ s
  | none ↦ record s { phase = over; cancelled = true }
]

-- The signals that come before the first call of `stop`.
unfoldable pub early_signals : List Event → ℕ
early_signals [] = 0
early_signals (signal ∷ events) = suc (early_signals events)
early_signals (stop_called ∷ events) = 0
