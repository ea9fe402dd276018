-- ===== src/Outbox/Config/Laws.antt =====
-- outbox/worker.go: what the defaults give, and what the check of the settings guarantees.
use native.Mathlib.Nat.{
  le-div_iff_mul-le, add-div_right, mul-le-mul_right, div-mul-le_self, le_trans,
}
use hockey_libs.Prelude.{
  ℕ, zero, suc, ◌+◌, ◌-◌, ◌*◌, ◌/◌, ◌^◌, ◌<◌, ◌≤◌, ℤ, pos, negsuc, ◌≡◌, refl, ap, ◌∙◌, ◌↔◌, arith,
  ltb_ℤ, *ℤ-pos, +ℤ-pos, -ℤ-pos, wrap64_small, quot-pos, none, some, if◌then◌else◌,
}
use hockey_libs.Errors.{Err}
use hockey_libs.Outbox.Config.{Config, or_default, with_defaults, waves, needed, validate}

abbrev pub IsPositive : ℤ → Type 0
IsPositive z = (n : ℕ) × (z ≡ pos (suc n))

pub record AllPositive (c : Config) : Type 0 where
  pub poll_interval : IsPositive c.poll_interval
  pub batch_size : IsPositive c.batch_size
  pub concurrency : IsPositive c.concurrency
  pub visibility_timeout : IsPositive c.visibility_timeout
  pub send_timeout : IsPositive c.send_timeout
  pub base_backoff : IsPositive c.base_backoff
  pub max_backoff : IsPositive c.max_backoff
  pub conflict_backoff : IsPositive c.conflict_backoff
  pub failed_retention : IsPositive c.failed_retention
  pub cleanup_interval : IsPositive c.cleanup_interval

or_default-IsPositive : (d : ℕ) (z : ℤ) → IsPositive (or_default (pos (suc d)) z)
or_default-IsPositive d (pos zero) = (d, refl)
or_default-IsPositive d (pos (suc n)) = (n, ground arith)
or_default-IsPositive d (negsuc n) = (d, ground arith)

-- Whatever is configured, the worker runs with positive settings.
pub with_defaults-AllPositive : (c : Config) → AllPositive (with_defaults c)
unfolding with_defaults
with_defaults-AllPositive c = record {
  poll_interval = or_default-IsPositive _ c.poll_interval;
  batch_size = or_default-IsPositive _ c.batch_size;
  concurrency = or_default-IsPositive _ c.concurrency;
  visibility_timeout = or_default-IsPositive _ c.visibility_timeout;
  send_timeout = or_default-IsPositive _ c.send_timeout;
  base_backoff = or_default-IsPositive _ c.base_backoff;
  max_backoff = or_default-IsPositive _ c.max_backoff;
  conflict_backoff = or_default-IsPositive _ c.conflict_backoff;
  failed_retention = or_default-IsPositive _ c.failed_retention;
  cleanup_interval = or_default-IsPositive _ c.cleanup_interval;
}

-- The settings of a worker, read as numbers: batch `b`, concurrency `k`, lease `v`, one sending `s`.
pub record Reads (c : Config) (b k v s : ℕ) : Type 0 where
  pub batch_size : c.batch_size ≡ pos b
  pub concurrency : c.concurrency ≡ pos k
  pub visibility_timeout : c.visibility_timeout ≡ pos v
  pub send_timeout : c.send_timeout ≡ pos s

verdict : (e : Err) (n v : ℕ) → ((if ltb_ℤ (pos v) (pos n) then some e else none) ≡ none) ↔ (n ≤ v)
verdict e n v = (λ h. ground arith, λ h. ground arith)

div_mono : (i j k : ℕ) → 0 < k → i ≤ j → i / k ≤ j / k
div_mono i j k hk h = (le-div_iff_mul-le hk).1 (le_trans (div-mul-le_self i k) h)

module _ (c : Config) (b k v s : ℕ) (r : Reads c b k v s) where
  waves-pos : 0 < b → b + k < 2 ^ 63 → waves c ≡ pos ((b + k - 1) / k)
  unfolding waves
  waves-pos h0 h =
      rw
        (
          r.batch_size,
          r.concurrency,
          +ℤ-pos b k,
          -ℤ-pos (b + k) 1 (omega arith),
          wrap64_small (b + k - 1) (omega arith),
        )
        (quot-pos _ _)

  needed-pos :
      0 < b → b + k < 2 ^ 63 → (b + k - 1) / k * s < 2 ^ 63 → needed c ≡ pos ((b + k - 1) / k * s)
  unfolding needed
  needed-pos h0 h h' = rw (waves-pos h0 h, r.send_timeout, *ℤ-pos _ s) (wrap64_small _ h')

  waves_last : 0 < b → 0 < k → (b + k - 1) / k ≡ (b - 1) / k + 1
  waves_last h0 hk = ap (λ n. n / k) (shifted b k h0) ∙ add-div_right (b - 1) hk
    where
      shifted : (b k : ℕ) → 0 < b → b + k - 1 ≡ b - 1 + k
      shifted b k h = omega arith

  validate_iff :
      0 < b
      → b + k < 2 ^ 63
      → (b + k - 1) / k * s < 2 ^ 63
      → (validate c ≡ none) ↔ ((b + k - 1) / k * s ≤ v)
  unfolding validate
  validate_iff h0 h h' = rw (needed-pos h0 h h', r.visibility_timeout) (verdict _ _ v)

  -- The check accepts the settings exactly when every message of a full batch is sent within the
  -- lease: the message at place `i`, in wave `i / k`, is sent by `(i / k + 1) * s`. The sums and the
  -- product must stay in int64.
  pub validate-none_iff :
      0 < b
      → 0 < k
      → b + k < 2 ^ 63
      → (b + k - 1) / k * s < 2 ^ 63
      → (validate c ≡ none) ↔ ((i : ℕ) → i < b → (i / k + 1) * s ≤ v)
  validate-none_iff h0 hk h h' = (
    λ e i hi.
        let upper : (b + k - 1) / k * s ≤ v = (validate_iff h0 h h').0 e in
        let wave : i / k + 1 ≤ (b + k - 1) / k =
          rw (waves_last h0 hk) (omega (arith, div_mono i (b - 1) k hk (omega arith))) in
        le_trans (mul-le-mul_right s wave) upper,
    λ all. (validate_iff h0 h h').1 (rw (waves_last h0 hk) (all (b - 1) (omega arith))),
  )
