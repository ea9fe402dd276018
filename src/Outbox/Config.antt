-- ===== src/Outbox/Config.antt =====
-- outbox/worker.go: the worker's settings, their defaults and their check.
pub mod Laws
pub mod Lease
use hockey_libs.Prelude.{
  ℕ, ℤ, pos, Duration, Bool, true, false, Option, none, some, ◌+ℤ◌, ◌-ℤ◌, ◌*ℤ◌, leb_ℤ, ltb_ℤ,
  seconds, minutes, hours, quot, wrap64, not, ◌*◌, if◌then◌else◌,
}
use hockey_libs.Errors.{Err, plain}

pub record Config : Type 0 where
  pub poll_interval : Duration
  pub batch_size : ℤ  -- int32
  pub concurrency : ℤ  -- int
  pub visibility_timeout : Duration
  pub send_timeout : Duration
  pub base_backoff : Duration
  pub max_backoff : Duration
  pub conflict_backoff : Duration
  pub failed_retention : Duration
  pub cleanup_interval : Duration

-- `if c.X <= 0 { c.X = fallback }`
abbrev pub or_default : ℤ → ℤ → ℤ
or_default fallback value = if leb_ℤ value (pos 0) then fallback else value

unfoldable pub with_defaults : Config → Config
with_defaults c = record {
  poll_interval = or_default (seconds 2) c.poll_interval;
  batch_size = or_default (pos 20) c.batch_size;
  concurrency = or_default (pos 8) c.concurrency;
  visibility_timeout = or_default (minutes 2) c.visibility_timeout;
  send_timeout = or_default (seconds 30) c.send_timeout;
  base_backoff = or_default (seconds 30) c.base_backoff;
  max_backoff = or_default (minutes 30) c.max_backoff;
  conflict_backoff = or_default (seconds 15) c.conflict_backoff;
  failed_retention = or_default (hours 168) c.failed_retention;
  cleanup_interval = or_default (hours 1) c.cleanup_interval;
}

-- How long the worker may hold a full batch: `waves` rounds of `concurrency` messages at a time.
unfoldable pub waves : Config → ℤ
waves c = quot (wrap64 (c.batch_size +ℤ c.concurrency -ℤ pos 1)) c.concurrency

unfoldable pub needed : Config → Duration
needed c = wrap64 (waves c *ℤ c.send_timeout)

unfoldable pub validate : Config → Option Err
validate c =
    if ltb_ℤ c.visibility_timeout (needed c)
    then some (plain "outbox: the lease is shorter than the processing of a batch")
    else none
