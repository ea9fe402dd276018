-- ===== src/Ratelimit.antt =====
-- ratelimit/ratelimit.go: a limit of calls for each key and window. Redis is a parameter.
pub mod Window
mod Examples
use hockey_libs.Prelude.{
  ℕ, suc, ◌≡◌, ◌≢◌, ℤ, pos, ◌+ℤ◌, String, Bool, true, false, Option, none, some, List, [], ◌∷◌,
  Duration, Time, leb_ℤ, ltb_ℤ, seconds, minutes, concat, if◌then◌else◌,
}
use hockey_libs.Errors.{Err, wrapped}

pub record Config : Type 0 where
  pub limit : ℤ
  pub window : Duration

-- `Result`
pub record Verdict : Type 0 where
  pub allowed : Bool
  pub count : ℤ
  pub retry_after : Duration

pub record Limiter : Type 0 where
  pub prefix : String
  pub cfg : Config

-- `New`
unfoldable pub new : String → Config → Limiter
new prefix cfg = record {
  prefix = prefix;
  cfg = record {
    limit = if leb_ℤ cfg.limit (pos 0) then pos 20 else cfg.limit;
    window = if leb_ℤ cfg.window (pos 0) then minutes 1 else cfg.window;
  };
}

unfoldable pub redis_key : Limiter → String → String
redis_key l key = concat ("ratelimit:" ∷ l.prefix ∷ ":" ∷ key ∷ [])

-- The answers of INCR and PTTL, or the error of the pipeline.
pub record Pipeline : Type 0 where
  pub failure : Option Err
  pub count : ℤ
  pub ttl : Duration

-- Redis: `pipeline` is INCR, EXPIRE NX and PTTL on a key in one transaction, `del` is DEL, and `live`
-- is the counter that a key holds at an instant, with its expiry. INCR starts a missing key at 1,
-- EXPIRE NX sets the expiry of a key that has none, a key is gone when it expires. `kept` is the
-- window that `ExpireNX` of go-redis sends: whole seconds, rounded down, and at least one.
pub record Redis (S : Type 0) : Type 0 where
  pub pipeline : Time → String → Duration → S → Pipeline × S
  pub del : String → S → Option Err × S
  pub live : Time → String → S → Option (ℕ × Time)
  pub kept : Duration → Duration
  pub kept_whole :
      (n : ℕ) (window : Duration)
      → leb_ℤ (seconds (suc n)) window ≡ true
      → ltb_ℤ window (seconds (suc (suc n))) ≡ true
      → kept window ≡ seconds (suc n)
  pub kept_short :
      (window : Duration)
      → ltb_ℤ (pos 0) window ≡ true
      → ltb_ℤ window (seconds 1) ≡ true
      → kept window ≡ seconds 1
  pub starts :
      (now : Time) (key : String) (window : Duration) (s : S)
      → (pipeline now key window s).0.failure ≡ none
      → ltb_ℤ (pos 0) window ≡ true
      → live now key s ≡ none
      → ((pipeline now key window s).0.count ≡ pos 1)
        × (live now key (pipeline now key window s).1 ≡ some (1, now +ℤ kept window))
  pub counts :
      (now : Time) (key : String) (window : Duration) (s : S) (n : ℕ) (expiry : Time)
      → (pipeline now key window s).0.failure ≡ none
      → live now key s ≡ some (n, expiry)
      → ((pipeline now key window s).0.count ≡ pos (suc n))
        × (live now key (pipeline now key window s).1 ≡ some (suc n, expiry))
  pub expires :
      (now later : Time) (key : String) (s : S) (n : ℕ) (expiry : Time)
      → live now key s ≡ some (n, expiry)
      → leb_ℤ expiry later ≡ true
      → live later key s ≡ none
  pub lives_on :
      (now later : Time) (key : String) (s : S) (n : ℕ) (expiry : Time)
      → live now key s ≡ some (n, expiry)
      → leb_ℤ now later ≡ true
      → ltb_ℤ later expiry ≡ true
      → live later key s ≡ some (n, expiry)

module _ {S : Type 0} (redis : Redis S) where
  -- `Allow` on what the pipeline answers.
  unfoldable pub judge : Limiter → Pipeline → Verdict × Option Err
  judge l p =
      let ok = leb_ℤ p.count l.cfg.limit in
      elim p.failure [
        | some e ↦ (
          record { allowed = false; count = pos 0; retry_after = pos 0 },
          some (wrapped "ratelimit: incr" e),
        )
        | none ↦ (
          record {
            allowed = ok;
            count = p.count;
            retry_after = if ok then pos 0 else if ltb_ℤ (pos 0) p.ttl then p.ttl else l.cfg.window;
          },
          none,
        )
      ]

  unfoldable pub allow : Limiter → Time → String → S → (Verdict × Option Err) × S
  unfolding judge redis_key
  allow l now key s =
      let (p, s') = redis.pipeline now (redis_key l key) l.cfg.window s in (judge l p, s')

  unfoldable pub reset : Limiter → String → S → Option Err × S
  unfolding redis_key
  reset l key s =
      let (failure, s') = redis.del (redis_key l key) s in
      elim failure [ none ↦ (none, s') | some e ↦ (some (wrapped "ratelimit: del" e), s') ]
