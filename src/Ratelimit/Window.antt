-- ===== src/Ratelimit/Window.antt =====
-- ratelimit/ratelimit.go: how many calls of a key are allowed in one window.
use hockey_libs.Prelude.{
  ℕ, suc, ◌+◌, min, ◌≡◌, pos, ◌+ℤ◌, String, Bool, true, none, some, List, [], ◌∷◌, ◌++◌, Time, ap,
  ◌∙◌, leb_ℤ, ltb_ℤ, leb, length, arith, if◌then◌else◌,
}
use hockey_libs.Ratelimit.{Limiter, Pipeline, Redis, redis_key, judge, allow}

-- One call of number `n + 1`, and `more` calls after it of which `rest` are allowed.
counted-step :
    (n limit more rest : ℕ) (ok : Bool)
    → ok ≡ leb (suc n) limit
    → min (suc n) limit + rest ≡ min (suc n + more) limit
    → min n limit + (if ok then suc rest else rest) ≡ min (n + suc more) limit
counted-step n limit more rest ok h e = ground arith

first_step :
    (limit more rest : ℕ) (ok : Bool)
    → ok ≡ leb 1 limit
    → min 1 limit + rest ≡ min (1 + more) limit
    → (if ok then suc rest else rest) ≡ min (suc more) limit
first_step limit more rest ok h e = ground arith

module _ {S : Type 0} (redis : Redis S) (l : Limiter) (key : String) where
  -- The number of the calls at these instants that are allowed.
  pub allowed_at : List Time → S → ℕ
  allowed_at [] s = 0
  allowed_at (now ∷ later) s =
      let (verdict, s') = allow redis l now key s in
      let rest = allowed_at later s' in if verdict.0.allowed then suc rest else rest

  -- Instants in order, from one on and before another.
  abbrev pub Within : Time → Time → List Time → Type 0
  Within from to [] = Unit {0}
  Within from to (now ∷ later) =
      (leb_ℤ from now ≡ true) × (ltb_ℤ now to ≡ true) × Within now to later

  abbrev pub Available : Type 0
  Available =
      (now : Time) (s : S) → (redis.pipeline now (redis_key l key) l.cfg.window s).0.failure ≡ none

  abbrev after : Time → S → S
  after now s = (redis.pipeline now (redis_key l key) l.cfg.window s).1

  allowed-judge :
      (limit n : ℕ) (p : Pipeline)
      → l.cfg.limit ≡ pos limit
      → p.failure ≡ none
      → p.count ≡ pos n
      → (judge redis l p).0.allowed ≡ leb n limit
  unfolding judge
  allowed-judge limit n p hl hf hc = rw (judge, hf, hc, hl) (ground arith)

  allowed_from :
      (limit n : ℕ) (from expiry : Time) (times : List Time) (s : S)
      → Available
      → l.cfg.limit ≡ pos limit
      → Within from expiry times
      → redis.live from (redis_key l key) s ≡ some (n, expiry)
      → min n limit + allowed_at times s ≡ min (n + length times) limit
  unfolding allowed_at allow
  allowed_from limit n from expiry [] s up hl w h = omega arith
  allowed_from limit n from expiry (now ∷ later) s up hl (w, w', ws) h =
      let k = redis_key l key in
      let here = redis.lives_on from now k s n expiry h w w' in
      let (count, live) = redis.counts now k l.cfg.window s n expiry (up now s) here in
      let rest = allowed_from limit (suc n) now expiry later (after now s) up hl ws live in
      counted-step n limit (length later) _ _
        (allowed-judge limit (suc n) (redis.pipeline now k l.cfg.window s).0 hl (up now s) count)
        rest

  allowed_in_window :
      (limit : ℕ) (now : Time) (times : List Time) (s : S)
      → Available
      → l.cfg.limit ≡ pos limit
      → ltb_ℤ (pos 0) l.cfg.window ≡ true
      → redis.live now (redis_key l key) s ≡ none
      → Within now (now +ℤ redis.kept l.cfg.window) times
      → allowed_at (now ∷ times) s ≡ min (suc (length times)) limit
  unfolding allowed_at allow
  allowed_in_window limit now times s up hl long fresh w =
      let k = redis_key l key in
      let (count, live) = redis.starts now k l.cfg.window s (up now s) long fresh in
      let rest =
        allowed_from limit 1 now (now +ℤ redis.kept l.cfg.window) times (after now s) up hl w
          live in
      first_step limit (length times) _ _
        (allowed-judge limit 1 (redis.pipeline now k l.cfg.window s).0 hl (up now s) count) rest

  -- The store after calls at these instants.
  after_all : List Time → S → S
  after_all [] s = s
  after_all (now ∷ later) s = after_all later (after now s)

  allowed_at-append :
      (xs ys : List Time) (s : S)
      → allowed_at (xs ++ ys) s ≡ allowed_at xs s + allowed_at ys (after_all xs s)
  unfolding allowed_at allow after_all
  allowed_at-append [] ys s = omega arith
  allowed_at-append (now ∷ xs) ys s = ground (arith, allowed_at-append xs ys (after now s))

  abbrev last_of : Time → List Time → Time
  last_of from [] = from
  last_of from (now ∷ later) = last_of now later

  live_after :
      (n : ℕ) (from expiry : Time) (times : List Time) (s : S)
      → Available
      → Within from expiry times
      → redis.live from (redis_key l key) s ≡ some (n, expiry)
      → redis.live (last_of from times) (redis_key l key) (after_all times s)
        ≡ some (n + length times, expiry)
  unfolding after_all
  live_after n from expiry [] s up w h = h ∙ ap (λ m. some (m, expiry)) (omega arith)
  live_after n from expiry (now ∷ later) s up (w, w', ws) h =
      let k = redis_key l key in
      let here = redis.lives_on from now k s n expiry h w w' in
      let (count, live) = redis.counts now k l.cfg.window s n expiry (up now s) here in
      live_after (suc n) now expiry later (after now s) up ws live
      ∙ ap (λ m. some (m, expiry)) (omega arith)

  fresh_after :
      (now later : Time) (times : List Time) (s : S)
      → Available
      → ltb_ℤ (pos 0) l.cfg.window ≡ true
      → redis.live now (redis_key l key) s ≡ none
      → Within now (now +ℤ redis.kept l.cfg.window) times
      → leb_ℤ (now +ℤ redis.kept l.cfg.window) later ≡ true
      → redis.live later (redis_key l key) (after_all (now ∷ times) s) ≡ none
  unfolding after_all
  fresh_after now later times s up long fresh w over =
      let k = redis_key l key in
      let (count, live) = redis.starts now k l.cfg.window s (up now s) long fresh in
      let expiry = now +ℤ redis.kept l.cfg.window in
      redis.expires (last_of now times) later k _ (1 + length times) expiry
        (live_after 1 now expiry times (after now s) up w live) over

  -- A key that has no counter, and two windows of calls: each starts with its first call and takes
  -- what go-redis sends (the configured window, rounded down to whole seconds and at least one), and
  -- the second starts when the first is over, or later. While Redis answers, the limiter allows in the
  -- first as many calls as there are, up to the limit, and in the second as many again, up to the
  -- limit.
  pub allowed_in_windows :
      (limit : ℕ) (now later : Time) (times times' : List Time) (s : S)
      → Available
      → l.cfg.limit ≡ pos limit
      → ltb_ℤ (pos 0) l.cfg.window ≡ true
      → redis.live now (redis_key l key) s ≡ none
      → Within now (now +ℤ redis.kept l.cfg.window) times
      → leb_ℤ (now +ℤ redis.kept l.cfg.window) later ≡ true
      → Within later (later +ℤ redis.kept l.cfg.window) times'
      → (allowed_at (now ∷ times) s ≡ min (suc (length times)) limit)
        × (allowed_at ((now ∷ times) ++ (later ∷ times')) s
            ≡ min (suc (length times)) limit + min (suc (length times')) limit)
  allowed_in_windows limit now later times times' s up hl long fresh w over w' =
      let first = allowed_in_window limit now times s up hl long fresh w in
      let second =
        allowed_in_window limit later times' (after_all (now ∷ times) s) up hl long
          (fresh_after now later times s up long fresh w over) w' in
      (first, omega (arith, allowed_at-append (now ∷ times) (later ∷ times') s, first, second))
