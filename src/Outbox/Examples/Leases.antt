-- ===== src/Outbox/Examples/Leases.antt =====
-- outbox/: the theorems on the lease and the settings, at concrete settings.
use hockey_libs.Prelude.{ℕ, ◌+◌, ◌*◌, ◌/◌, ◌≤◌, ◌<◌, ◌↔◌, pos, none, ◌≡◌, refl, arith, nanos}
use hockey_libs.Outbox.Config.{Config, validate}
use hockey_libs.Outbox.Config.Laws.{Reads, validate-none_iff}
use hockey_libs.Outbox.Config.Lease.{lease_covers, lease_short}
use hockey_libs.Outbox.Repository.{lease_row}
use hockey_libs.Outbox.Examples.{row, at, defaults, all_of_outbox}

validate_test : validate defaults ≡ none
unfolding all_of_outbox
validate_test = refl

defaults-Reads : Reads defaults 20 8 (120 * nanos) (30 * nanos)
defaults-Reads = record {
  batch_size = refl;
  concurrency = refl;
  visibility_timeout = refl;
  send_timeout = refl;
}

validate-none_iff_example :
    (validate defaults ≡ none) ↔ ((i : ℕ) → i < 20 → (i / 8 + 1) * (30 * nanos) ≤ 120 * nanos)
validate-none_iff_example =
    validate-none_iff defaults 20 8 (120 * nanos) (30 * nanos) defaults-Reads (omega arith)
      (omega arith) (omega arith) (omega arith)

lease_covers_example :
    (until : ℕ) × ((lease_row (at 10) defaults.visibility_timeout (row 1 2)).next_attempt_at
      ≡ pos until)
    × (10 * nanos + (19 / 8 + 1) * (30 * nanos) ≤ until)
lease_covers_example =
    lease_covers defaults 20 8 (120 * nanos) (30 * nanos) defaults-Reads (at 10) (10 * nanos) refl
      120 19 (row 1 2) (omega arith) (omega arith) (omega arith) (omega arith) (omega arith)
      (omega arith) validate_test (omega arith)

abbrev subsecond : Config
subsecond = record defaults {
  batch_size = pos 1;
  concurrency = pos 1;
  visibility_timeout = pos 1500000000;
  send_timeout = pos 1500000000;
}

subsecond-Reads : Reads subsecond 1 1 1500000000 1500000000
subsecond-Reads = record {
  batch_size = refl;
  concurrency = refl;
  visibility_timeout = refl;
  send_timeout = refl;
}

lease_short_example :
    (validate subsecond ≡ none)
    × ((until : ℕ) × ((lease_row (at 10) subsecond.visibility_timeout (row 1 2)).next_attempt_at
          ≡ pos until)
        × (until < 10 * nanos + 1500000000))
lease_short_example =
    lease_short subsecond 1 1 1500000000 1500000000 subsecond-Reads (at 10) (10 * nanos) refl 1
      500000000 (row 1 2) (omega arith) (omega arith) (omega arith) (omega arith) refl (omega arith)
      (omega arith) (omega arith)
