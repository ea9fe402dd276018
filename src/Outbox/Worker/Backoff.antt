-- ===== src/Outbox/Worker/Backoff.antt =====
-- outbox/worker.go: the pause before the next attempt, in closed form.
use hockey_libs.Prelude.{
  ℕ, zero, suc, ◌-◌, ◌*◌, ◌^◌, ◌<◌, ◌≤◌, pos, min, ◌≡◌, refl, ap, ◌∙◌, arith, leb, leb→le, leb_ℤ,
  Duration, *ℤ-pos, ◌*ℤ◌, wrap64, wrap64_small, if◌then◌else◌, inl, inr, Bool-cases,
}
use native.Mathlib.Nat.{pow-suc, pow-zero, one-le-pow, mul-le-mul_left}
use hockey_libs.Outbox.Config.{Config}
use hockey_libs.Outbox.Worker.{double, backoff_for}

doubled : (x : ℕ) → x < 2 ^ 62 → wrap64 (pos x *ℤ pos 2) ≡ pos (x * 2)
doubled x h = rw (*ℤ-pos x 2) (wrap64_small (x * 2) (omega arith))

leb_ℤ-pos : (a b : ℕ) → leb_ℤ (pos a) (pos b) ≡ leb a b
leb_ℤ-pos a b = ground arith

double_step :
    (k m x : ℕ)
    → x < 2 ^ 62
    → double (pos m) (suc k) (pos x)
      ≡ (if leb m (x * 2) then pos m else double (pos m) k (pos (x * 2)))
unfolding double
double_step k m x h =
    rw (doubled x h)
      (ap (λ b. if b then pos m else double (pos m) k (pos (x * 2))) (leb_ℤ-pos m (x * 2)))

double-zero : (cap b : Duration) → double cap zero b ≡ b
unfolding double
double-zero cap b = refl

regroup : (x k : ℕ) → x * 2 * 2 ^ suc k ≡ x * 2 ^ suc (suc k)
regroup x k = rw (pow-suc 2 (suc k)) (omega arith)

capped : (k m x : ℕ) → m ≤ x * 2 → m ≡ min (x * 2 ^ suc (suc k)) m
capped k m x h =
    let grows : x * 2 * 1 ≤ x * 2 * 2 ^ suc k =
      mul-le-mul_left (x * 2) (one-le-pow (suc k) 2 (omega arith)) in
    rw (← regroup x k) (omega arith)

-- With a cap of at most 2 ^ 62 nanoseconds no doubling overflows.
double-min :
    (k m x : ℕ)
    → x < 2 ^ 62
    → 0 < x
    → m ≤ 2 ^ 62
    → double (pos m) (suc k) (pos x) ≡ pos (min (x * 2 ^ suc k) m)
double-min zero m x hx h0 hm =
    rw (double_step zero m x hx, double-zero) (ground (arith, pow-suc 2 zero, pow-zero 2))
double-min (suc k) m x hx h0 hm =
    rw (double_step (suc k) m x hx) (elim (Bool-cases (leb m (x * 2))) [
      | inl done ↦ rw done (ap pos (capped k m x (leb→le m (x * 2) done)))
      | inr more ↦ rw more (
          double-min k m (x * 2) (ground arith) (omega arith) hm
          ∙ ap (λ n. pos (min n m)) (regroup x k))
    ])

less_one : (k : ℕ) → suc (suc k) - 1 ≡ suc k
less_one k = omega arith

double_closed :
    (b m n : ℕ)
    → 0 < b
    → b < 2 ^ 62
    → m ≤ 2 ^ 62
    → double (pos m) (n - 1) (pos b) ≡ pos (if leb n 1 then b else min (b * 2 ^ (n - 1)) m)
double_closed b m zero h0 hb hm = double-zero (pos m) (pos b)
double_closed b m (suc zero) h0 hb hm = double-zero (pos m) (pos b)
double_closed b m (suc (suc k)) h0 hb hm =
    rw (less_one k) (double-min k m b hb h0 hm ∙ ap pos (ground arith))

-- The pause before an attempt: `base_backoff` after the first, then doubled for each further one up
-- to `max_backoff`, without overflow, if `base_backoff` is positive and below 2 ^ 62 nanoseconds
-- (146 years) and `max_backoff` is at most 2 ^ 62.
pub backoff_for_closed :
    (c : Config) (b m n : ℕ)
    → c.base_backoff ≡ pos b
    → c.max_backoff ≡ pos m
    → 0 < b
    → b < 2 ^ 62
    → m ≤ 2 ^ 62
    → backoff_for c n ≡ pos (if leb n 1 then b else min (b * 2 ^ (n - 1)) m)
unfolding backoff_for
backoff_for_closed c b m n eb em h0 hb hm = rw (eb, em) (double_closed b m n h0 hb hm)
