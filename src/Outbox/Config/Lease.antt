-- ===== src/Outbox/Config/Lease.antt =====
-- outbox/worker.go against outbox/outbox.go: the lease that the settings are checked for, and the
-- lease that `Claim` writes, which is a whole number of seconds.
use native.Mathlib.Nat.{div-eq_of_lt-le, add-zero}
use hockey_libs.Prelude.{
  ℕ, ◌+◌, ◌-◌, ◌*◌, ◌/◌, ◌^◌, ◌<◌, ◌≤◌, pos, ◌≡◌, sym, ap, ◌∙◌, arith, *ℤ-pos, +ℤ-pos, none, nanos,
  int32_seconds_small,
}
use hockey_libs.Outbox.Config.{Config, validate}
use hockey_libs.Outbox.Config.Laws.{Reads, validate-none_iff}
use hockey_libs.Outbox.Repository.{Call, Row, later, lease_row}

later-pos :
    (c : Call) (v t : ℕ)
    → c.now ≡ pos t
    → v / nanos < 2 ^ 31
    → later c (pos v) ≡ pos (t + v / nanos * nanos)
later-pos c v t e h =
    rw (e, int32_seconds_small c.convert v h, *ℤ-pos (v / nanos) nanos)
      (+ℤ-pos t (v / nanos * nanos))

rounded : (v n f : ℕ) → v ≡ n * nanos + f → f < nanos → v / nanos ≡ n
rounded v n f e h = omega arith

one_wave : (b k : ℕ) → 0 < b → b ≤ k → (b + k - 1) / k ≡ 1
one_wave b k hb hk = div-eq_of_lt-le k (omega arith) (omega arith)

first_wave : (i k : ℕ) → i < k → i / k ≡ 0
first_wave i k h = div-eq_of_lt-le k (omega arith) (omega arith)

module _ (cfg : Config) (b k v s : ℕ) (r : Reads cfg b k v s) (c : Call) (t : ℕ)
    (now : c.now ≡ pos t) where
  leased_until :
      (row : Row)
      → v / nanos < 2 ^ 31
      → (lease_row c cfg.visibility_timeout row).next_attempt_at ≡ pos (t + v / nanos * nanos)
  unfolding lease_row
  leased_until row h = rw (r.visibility_timeout) (later-pos c v t now h)

  leased_whole :
      (n f : ℕ) (row : Row)
      → v ≡ n * nanos + f
      → f < nanos
      → n < 2 ^ 31
      → (lease_row c cfg.visibility_timeout row).next_attempt_at ≡ pos (t + n * nanos)
  leased_whole n f row e hf hn =
      let q : v / nanos ≡ n = rounded v n f e hf in
      leased_until row (omega arith) ∙ ap (λ m. pos (t + m * nanos)) q

  -- If the check accepts the settings and the timeout is `n` whole seconds, the lease that a claim
  -- at `t` writes to a row ends only after the wave that sends the row's place in the batch.
  pub lease_covers :
      (n i : ℕ) (row : Row)
      → v ≡ n * nanos
      → n < 2 ^ 31
      → 0 < b
      → 0 < k
      → b + k < 2 ^ 63
      → (b + k - 1) / k * s < 2 ^ 63
      → validate cfg ≡ none
      → i < b
      → (until : ℕ) × ((lease_row c cfg.visibility_timeout row).next_attempt_at ≡ pos until)
        × (t + (i / k + 1) * s ≤ until)
  lease_covers n i row ev hn hb hk h h' ok hi = (
    t + n * nanos,
    leased_whole n 0 row (ev ∙ sym (add-zero _)) (omega arith) hn,
    omega (arith, (validate-none_iff cfg b k v s r hb hk h h').0 ok i hi),
  )

  -- A timeout that is no whole number of seconds is rounded down: where one wave may take the whole
  -- timeout, the check accepts the settings and the lease ends before the sending may.
  pub lease_short :
      (n f : ℕ) (row : Row)
      → v ≡ n * nanos + f
      → 0 < f
      → f < nanos
      → n < 2 ^ 31
      → s ≡ v
      → 0 < b
      → b ≤ k
      → b + k < 2 ^ 63
      → (validate cfg ≡ none)
        × ((until : ℕ) × ((lease_row c cfg.visibility_timeout row).next_attempt_at ≡ pos until)
            × (until < t + s))
  lease_short n f row ev hf hf' hn es hb hk h =
      let one = one_wave b k hb hk in
      (
        (validate-none_iff cfg b k v s r hb (omega arith) h (rw one (omega arith))).1
            (λ i hi. rw (first_wave i k (omega arith)) (omega arith)),
        (t + n * nanos, leased_whole n f row ev hf' hn, omega arith),
      )
