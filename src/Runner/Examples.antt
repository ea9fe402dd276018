-- ===== src/Runner/Examples.antt =====
-- The theorems on the runner, on a runner of two components of which the second fails.
use hockey_libs.Prelude.{◌≡◌, refl, Option, none, some, [], ◌∷◌, ◌⊎◌, inl, length, seconds}
use hockey_libs.Errors.{Err, plain}
use hockey_libs.Runner.{
  Runner, State, new, add, start, start_all, stop, stops, finishes, Reach, started, next, timed_out,
}
use hockey_libs.Runner.Results.{Late, FirstError, result_means}
use hockey_libs.Runner.Shutdown.{Cancelled, one_stops_all}

abbrev two : Runner
two = record { components = "http" ∷ "grpc" ∷ []; shutdown_timeout = new.shutdown_timeout }

two_added : add (add new "http") "grpc" ≡ two
unfolding add new
two_added = refl

abbrev begun : State
begun = record {
  running = "http" ∷ "grpc" ∷ [];
  stopped = [];
  now = seconds 5;
  cancelled_at = none;
  group_error = none;
  result = none;
}

abbrev refused : Option Err
refused = some (plain "listen")

abbrev one_down : State
unfolding stop
one_down = stop begun ("http" ∷ []) "grpc" refused

abbrev both_down : State
unfolding stop
both_down = stop one_down [] "http" none

abbrev returned : State
unfolding stop
returned = record both_down { result = some both_down.group_error }

one_down-Reach : Reach two one_down
unfolding start start_all stop
one_down-Reach =
    next (started {s = begun} (seconds 5) refl) (stops ("http" ∷ []) [] "grpc" refused refl)

returned-Reach : Reach two returned
unfolding stop
returned-Reach = next (next one_down-Reach (stops [] [] "http" none refl)) (finishes refl refl)

result_means_example :
    ((returned.group_error ≡ some timed_out) × Late two returned)
    ⊎ ((length returned.stopped ≡ length two.components)
        × (returned.running ≡ [])
        × FirstError returned.stopped returned.group_error)
unfolding returned
result_means_example = result_means two returned returned.group_error returned-Reach refl

one_stops_all_example : Cancelled one_down
unfolding one_down
one_stops_all_example = one_stops_all two one_down one_down-Reach (inl (λ e. cc))
