-- ===== src/Runner.antt =====
-- runner/runner.go: components that run together, and the signals that stop them. `Run` is a machine
-- whose steps are what can happen while it waits; logs are left out. The group of goroutines is that
-- of errgroup: its error is the first one that a component returns.
pub mod Results
pub mod Signals
pub mod Shutdown
mod Examples
use hockey_libs.Prelude.{
  ◌≡◌, ◌+ℤ◌, String, true, Time, Option, none, some, List, [], ◌∷◌, ◌++◌, concat, Duration, pos,
  seconds, leb_ℤ, if◌then◌else◌,
}
use hockey_libs.Errors.{Err, Result, ret, err, plain, wrapped, first}

abbrev pub default_shutdown_timeout : Duration
default_shutdown_timeout = seconds 30

-- A component by its name; what it does is what the steps below let happen.
pub record Runner : Type 0 where
  pub components : List String
  pub shutdown_timeout : Duration

unfoldable pub new : Runner
new = record { components = []; shutdown_timeout = default_shutdown_timeout }

unfoldable pub with_shutdown_timeout : Runner → Duration → Runner
with_shutdown_timeout r timeout =
    if leb_ℤ timeout (pos 0) then r else record r { shutdown_timeout = timeout }

unfoldable pub add : Runner → String → Runner
add r name = record r { components = r.components ++ name ∷ [] }

-- The components that still run, what the others returned, in order, the clock, when their context
-- was cancelled, the error of the group, and what `Run` has returned.
pub record State : Type 0 where
  pub running : List String
  pub stopped : List (String × Option Err)
  pub now : Time
  pub cancelled_at : Option Time
  pub group_error : Option Err
  pub result : Option (Option Err)

abbrev pub component_error : String → Option Err → Option Err
component_error name none = none
component_error name (some e) = some (wrapped (concat ("runner: component " ∷ name ∷ [])) e)

-- Its text ends with the timeout in the source.
abbrev pub timed_out : Err
timed_out = plain "runner: shutdown timed out"

-- `Run` before its first wait, or its error for a runner without components.
start_all : Time → List String → Result State
start_all now [] = err (plain "runner: no components registered")
start_all now (name ∷ names) = ret (record {
  running = name ∷ names;
  stopped = [];
  now = now;
  cancelled_at = none;
  group_error = none;
  result = none;
})

unfoldable pub start : Time → Runner → Result State
unfolding start_all
start now r = start_all now r.components

-- A component returns: its context is cancelled, and the group keeps the first error.
unfoldable pub stop : State → List String → String → Option Err → State
stop s rest name e = record s {
  running = rest;
  stopped = s.stopped ++ (name, e) ∷ [];
  cancelled_at = first s.cancelled_at (some s.now);
  group_error = first s.group_error (component_error name e);
}

-- What can happen: a component returns, the parent's context ends, time passes, the group is done, or
-- the timer runs out, which starts when the context has ended.
pub data Step (r : Runner) (s : State) : State → Type 0 where
  stops :
      (before after : List String) (name : String) (e : Option Err)
      → s.running ≡ before ++ name ∷ after
      → Step r s (stop s (before ++ after) name e)
  parent_done : s.cancelled_at ≡ none → Step r s (record s { cancelled_at = some s.now })
  passes : (later : Time) → leb_ℤ s.now later ≡ true → Step r s (record s { now = later })
  finishes : s.running ≡ [] → s.result ≡ none → Step r s (record s { result = some s.group_error })
  times_out :
      (began : Time)
      → s.cancelled_at ≡ some began
      → leb_ℤ (began +ℤ r.shutdown_timeout) s.now ≡ true
      → s.result ≡ none
      → Step r s (record s { result = some (some timed_out) })

-- The states that a runner can reach.
pub data Reach (r : Runner) : State → Type 0 where
  started : {s : State} (now : Time) → start now r ≡ ret s → Reach r s
  next : {s t : State} → Reach r s → Step r s t → Reach r t
