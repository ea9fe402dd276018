-- ===== src/Outbox/Examples.antt =====
-- outbox/: a queue of two messages, tests of its operations, and the theorems at concrete inputs.
mod Runs
mod Leases
use mathlib.Core.List.{Nodup, Nodup-cons, Nodup-nil, not-mem-nil, eq-or-mem_of_mem-cons}
use mathlib.Core.Logic.Or
use mathlib.Core.HLevel.{⊥_prop}
use mathlib.Core.List.Perm
use hockey_libs.Prelude.{
  ◌+ℤ◌, ◌*ℤ◌, ◌-ℤ◌, ℕ, ◌*◌, pos, false, none, some, List, [], ◌∷◌, ◌≡◌, refl, arith, String,
  seconds, minutes, nanos, quot, wrap64, int32_seconds,
}
use hockey_libs.Errors.{Err, plain, terminal, walk}
use hockey_libs.Outbox.Terminal.{is_terminal, is_conflict}
use hockey_libs.Outbox.Queue.{Message, Uuid}
use hockey_libs.Outbox.Config.{Config, with_defaults, validate, needed, waves}
use hockey_libs.Outbox.Repository.{
  Row, Table, Call, complete, claim, claim_rows, picked, candidates, order_by_time, lease,
  lease_row, returning, is_member, fits_smallint, repository, complete_row, retry, retry_row, defer,
  defer_row, fail, fail_row, update_id, delete_where, truncate, take_runes, enqueue, insert_row,
  new_row,
}
use hockey_libs.Outbox.Repository.Claim.{message_ids, claim_exclusive}
use hockey_libs.Outbox.Repository.Rows.{find}
use hockey_libs.Outbox.Repository.Ops.{claims, step}
use hockey_libs.Outbox.Repository.WellFormed.{WellFormed, step-WellFormed}
use hockey_libs.Outbox.Worker.{
  Delivery, World, deliver, deliver_all, after_send, finish, give_up, postpone, reschedule,
  backoff_for, double, observe,
}
use hockey_libs.Outbox.Worker.Backoff.{backoff_for_closed}
use hockey_libs.Outbox.Worker.Fate.{deliver-find}
use hockey_libs.Outbox.Worker.Order.{deliver_all-perm}
use hockey_libs.Outbox.Worker.Attempts.{claimed, failing}

abbrev pub row : Uuid → ℕ → Row
row id limit = record {
  id = id;
  kind = "email";
  payload = 123 ∷ 125 ∷ [];
  attempts = 0;
  max_attempts = limit;
  next_attempt_at = pos 0;
  failed_at = none;
  last_error = none;
  created_at = pos 0;
}

abbrev pub two_rows : Table
two_rows = row 1 2 ∷ row 2 5 ∷ []

-- A statement at `n` seconds that goes well.
abbrev pub at : ℕ → Call
at n = record {
  now = seconds n;
  locked = λ id. false;
  jsonb = λ bytes. bytes;
  convert = λ s. s;
  failure = none;
  reading = complete;
}

abbrev message : Uuid → Message
message id = record {
  id = id;
  kind = "email";
  payload = 123 ∷ 125 ∷ [];
  attempts = 1;
  max_attempts = 5;
}

abbrev unset : Config
unset = record {
  poll_interval = pos 0;
  batch_size = pos 0;
  concurrency = pos 0;
  visibility_timeout = pos 0;
  send_timeout = pos 0;
  base_backoff = pos 0;
  max_backoff = pos 0;
  conflict_backoff = pos 0;
  failed_retention = pos 0;
  cleanup_interval = pos 0;
}

abbrev pub defaults : Config
defaults = record {
  poll_interval = seconds 2;
  batch_size = pos 20;
  concurrency = pos 8;
  visibility_timeout = minutes 2;
  send_timeout = seconds 30;
  base_backoff = seconds 30;
  max_backoff = minutes 30;
  conflict_backoff = seconds 15;
  failed_retention = pos 604800000000000;
  cleanup_interval = pos 3600000000000;
}

pub render : Err → String
render e = "error"

-- What evaluation opens.
pub all_of_outbox : ℕ
unfolding claim claim_rows picked candidates order_by_time lease lease_row returning is_member
    fits_smallint complete_row retry retry_row defer defer_row fail fail_row update_id delete_where
    truncate take_runes enqueue insert_row new_row find step is_terminal is_conflict walk deliver
    deliver_all after_send finish give_up postpone reschedule backoff_for double observe
    int32_seconds quot wrap64 ◌+ℤ◌ ◌*ℤ◌ ◌-ℤ◌ render with_defaults validate needed waves
all_of_outbox = 0

defaults_test : with_defaults unset ≡ defaults
unfolding all_of_outbox
defaults_test = refl

claim_test : message_ids (claim (at 10) (pos 1) (minutes 2) two_rows).0 ≡ 1 ∷ []
unfolding all_of_outbox
claim_test = refl

backoff_test : backoff_for defaults 4 ≡ minutes 4
unfolding all_of_outbox
backoff_test = refl

claim_exclusive_example :
    is_member 1 (
      message_ids
        (claim (at 20) (pos 5) (minutes 2) (claim (at 10) (pos 1) (minutes 2) two_rows).2).0)
    ≡ false
unfolding all_of_outbox
claim_exclusive_example =
    claim_exclusive (at 10) (at 20) 1 5 (minutes 2) (minutes 2) 1 two_rows refl refl

pub two_rows-WellFormed : WellFormed two_rows
unfolding all_of_outbox
two_rows-WellFormed = record {
  distinct = (refl, (refl, tt));
  rows = (
    record { error_fits = tt; attempts_fit = omega arith; limit_pos = omega arith },
    (record { error_fits = tt; attempts_fit = omega arith; limit_pos = omega arith }, tt),
  );
}

step-WellFormed_example : WellFormed (step (claims (at 10) (pos 1) (minutes 2)) two_rows)
step-WellFormed_example =
    step-WellFormed (claims (at 10) (pos 1) (minutes 2)) two_rows two_rows-WellFormed

backoff_for_closed_example : backoff_for defaults 4 ≡ minutes 4
backoff_for_closed_example =
    backoff_for_closed defaults (30 * nanos) (1800 * nanos) 4 refl refl (omega arith) (omega arith)
      (omega arith)

abbrev rejected : Delivery Call
rejected = record { answer = some (terminal (plain "no such kind")); canceled = false; env = at 11 }

abbrev pub world : World Table
world = record {
  state = two_rows;
  metrics = some (record { messages = []; pending = 0; failed = 0 });
}

deliver-find_example :
    find 1 (deliver repository render defaults (message 1) rejected world).state
    ≡ some (record (row 1 2) { failed_at = some (seconds 11); last_error = some "error" })
unfolding all_of_outbox
deliver-find_example = deliver-find render defaults (message 1) rejected world 1 (refl, (refl, tt))

abbrev batch : List Message
batch = message 1 ∷ message 2 ∷ []

abbrev batch' : List Message
batch' = message 2 ∷ message 1 ∷ []

batch-Nodup : Nodup {A = ℕ} (1 ∷ 2 ∷ [])
batch-Nodup = Nodup-cons.1 (
  λ m. Or.elim ⊥_prop (eq-or-mem_of_mem-cons m) (λ (e : 1 ≡ 2). omega arith) not-mem-nil,
  Nodup-cons.1 (not-mem-nil, Nodup-nil),
)

deliver_all-perm_example :
    (deliver_all repository render defaults (λ m. rejected) batch world).state
    ≡ (deliver_all repository render defaults (λ m. rejected) batch' world).state
deliver_all-perm_example =
    deliver_all-perm render defaults (λ m. rejected) batch batch' world
      (Perm.swap (message 2) (message 1) []) batch-Nodup

-- The first message is claimed twice, and `Send` fails both times.
abbrev timed_out : Err
timed_out = plain "timeout"

abbrev once : Table
once =
    failing render defaults 1 (message 1) timed_out (at 11) none
      (claimed render defaults 1 (at 10) 5 two_rows).1

abbrev twice : Table
twice =
    failing render defaults 1 (message 1) timed_out (at 61) none
      (claimed render defaults 1 (at 60) 5 once).1
