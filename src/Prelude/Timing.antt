-- ===== src/Prelude/Timing.antt =====
-- time.Duration: a signed 64-bit count of nanoseconds. Instants are integers on the same scale.
use Prim.Native.Nat.{ℕ, suc, ◌+◌, ◌-◌, ◌*◌, ◌/◌, ◌%◌, ◌^◌, ◌<◌}
use mathlib.Core.Path.{◌≡◌, refl}
use native.Mathlib.Omega.{arith}
use mathlib.Core.Bool.{Bool, false, ◌&&◌}
use hockey_libs.Prelude.Tests.{ltb, leb, if◌then◌else◌}
use hockey_libs.Prelude.Int.{ℤ, pos, negsuc, pos_part, neg_part}

abbrev pub Duration : Type 0
Duration = ℤ

abbrev pub Time : Type 0
Time = ℤ

abbrev pub leb_ℤ : ℤ → ℤ → Bool
leb_ℤ a b = leb (pos_part a + neg_part b) (pos_part b + neg_part a)

-- `time.Second`
abbrev pub nanos : ℕ
nanos = 1000000000

abbrev pub seconds : ℕ → Duration
seconds n = pos (n * nanos)

abbrev pub minutes : ℕ → Duration
minutes n = pos (n * 60 * nanos)

abbrev pub hours : ℕ → Duration
hours n = pos (n * 3600 * nanos)

-- `if value == 0 { value = fallback }`, a default of the settings.
abbrev pub is_zero : ℤ → Bool
is_zero (pos n) = leb n 0
is_zero (negsuc n) = false

abbrev pub nonzero_or : ℤ → ℤ → ℤ
nonzero_or value fallback = if is_zero value then fallback else value

-- The value of a 64-bit pattern in two's complement, and the wrap-around of int64 arithmetic.
abbrev pub signed64 : ℕ → ℤ
signed64 n = if ltb n (2 ^ 63) then pos n else negsuc (2 ^ 64 - 1 - n)

unfoldable pub wrap64 : ℤ → ℤ
wrap64 (pos n) = signed64 (n % 2 ^ 64)
wrap64 (negsuc n) = signed64 (2 ^ 64 - 1 - n % 2 ^ 64)

abbrev pub negate : ℕ → ℤ
negate n = if leb n 0 then pos 0 else negsuc (n - 1)

-- `/` on Go integers rounds towards zero; a divisor 0 is a panic, which callers exclude.
unfoldable pub quot : ℤ → ℤ → ℤ
quot (pos a) (pos b) = pos (a / b)
quot (pos a) (negsuc b) = negate (a / suc b)
quot (negsuc a) (pos b) = negate (suc a / b)
quot (negsuc a) (negsuc b) = pos (suc a / suc b)

-- `int32(d.Seconds())`: whole seconds, rounded towards zero.
-- A count of seconds outside int32 is converted as the platform likes: `convert` says how.
unfoldable pub int32_seconds : (ℤ → ℤ) → Duration → ℤ
unfolding quot
int32_seconds convert d =
    let s = quot d (pos nanos) in
    if ltb (pos_part s) (2 ^ 31) && leb (neg_part s) (2 ^ 31) then s else convert s

pub wrap64_small : (n : ℕ) → n < 2 ^ 63 → wrap64 (pos n) ≡ pos n
unfolding wrap64
wrap64_small n h = ground arith

pub quot-pos : (a b : ℕ) → quot (pos a) (pos b) ≡ pos (a / b)
unfolding quot
quot-pos a b = refl

-- A duration of less than 2 ^ 31 seconds is rounded down to whole seconds.
pub int32_seconds_small :
    (convert : ℤ → ℤ) (n : ℕ) → n / nanos < 2 ^ 31 → int32_seconds convert (pos n) ≡ pos (n / nanos)
unfolding int32_seconds
int32_seconds_small convert n h = ground arith
