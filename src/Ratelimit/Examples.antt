-- ===== src/Ratelimit/Examples.antt =====
-- ratelimit/ratelimit.go: a Redis that holds one counter for each key.
use hockey_libs.Prelude.{
  ◌++◌, ℕ, suc, ◌/◌, negsuc, ltb, ◌≡◌, refl, ap, ◌∙◌, pos, ◌+ℤ◌, String, true, Option, none, some,
  [], ◌∷◌, Time, Duration, seconds, leb_ℤ, ltb_ℤ, str_eq, eq_refl, if◌then◌else◌, arith,
}
use hockey_libs.Ratelimit.{Limiter, Pipeline, Redis}
use hockey_libs.Ratelimit.Window.{allowed_at, allowed_in_windows}

abbrev Store : Type 0
Store = String → Option (ℕ × Time)

abbrev unless_gone : Time → Option (ℕ × Time) → Option (ℕ × Time)
unless_gone now none = none
unless_gone now (some (n, expiry)) = if ltb_ℤ now expiry then some (n, expiry) else none

abbrev kept : Duration → Duration
kept (pos n) = if ltb n 1000000000 then seconds 1 else seconds (n / 1000000000)
kept (negsuc n) = negsuc n

kept_whole :
    (n : ℕ) (window : Duration)
    → leb_ℤ (seconds (suc n)) window ≡ true
    → ltb_ℤ window (seconds (suc (suc n))) ≡ true
    → kept window ≡ seconds (suc n)
kept_whole n (pos w) h k = ground arith
kept_whole n (negsuc w) h k = ground arith

kept_short :
    (window : Duration)
    → ltb_ℤ (pos 0) window ≡ true
    → ltb_ℤ window (seconds 1) ≡ true
    → kept window ≡ seconds 1
kept_short (pos w) h k = ground arith
kept_short (negsuc w) h k = ground arith

kept_pos : (window : Duration) → ltb_ℤ (pos 0) window ≡ true → ltb_ℤ (pos 0) (kept window) ≡ true
kept_pos (pos w) h = ground arith
kept_pos (negsuc w) h = ground arith

abbrev bumped : Time → Duration → Option (ℕ × Time) → ℕ × Time
bumped now window none = (1, now +ℤ kept window)
bumped now window (some (n, expiry)) = (suc n, expiry)

abbrev live : Time → String → Store → Option (ℕ × Time)
live now key s = unless_gone now (s key)

abbrev put : String → ℕ × Time → Store → Store
put key entry s = λ k. if str_eq k key then some entry else s k

abbrev pipeline : Time → String → Duration → Store → Pipeline × Store
pipeline now key window s =
    let entry = bumped now window (live now key s) in
    (record { failure = none; count = pos entry.0; ttl = window }, put key entry s)

put_live :
    (now : Time) (key : String) (n : ℕ) (expiry : Time) (s : Store)
    → ltb_ℤ now expiry ≡ true
    → live now key (put key (n, expiry) s) ≡ some (n, expiry)
put_live now key n expiry s h = rw (eq_refl key) (rw h refl)

live_running :
    (now : Time) (o : Option (ℕ × Time)) (n : ℕ) (expiry : Time)
    → unless_gone now o ≡ some (n, expiry)
    → (ltb_ℤ now expiry ≡ true) × (o ≡ some (n, expiry))
live_running now none n expiry h = cc
live_running now (some (m, e)) n expiry h = ground arith

after_now :
    (now : Time) (window : Duration)
    → ltb_ℤ (pos 0) window ≡ true
    → ltb_ℤ now (now +ℤ window) ≡ true
unfolding ◌+ℤ◌
after_now now window h = ground arith

starts :
    (now : Time) (key : String) (window : Duration) (s : Store)
    → (pipeline now key window s).0.failure ≡ none
    → ltb_ℤ (pos 0) window ≡ true
    → live now key s ≡ none
    → ((pipeline now key window s).0.count ≡ pos 1)
      × (live now key (pipeline now key window s).1 ≡ some (1, now +ℤ kept window))
starts now key window s f w h =
    let e : bumped now window (live now key s) ≡ (1, now +ℤ kept window) =
      ap (bumped now window) h in
    (
      ap (λ x. pos x.0) e,
      ap (λ x. live now key (put key x s)) e
          ∙ put_live now key 1 (now +ℤ kept window) s
              (after_now now (kept window) (kept_pos window w)),
    )

counts :
    (now : Time) (key : String) (window : Duration) (s : Store) (n : ℕ) (expiry : Time)
    → (pipeline now key window s).0.failure ≡ none
    → live now key s ≡ some (n, expiry)
    → ((pipeline now key window s).0.count ≡ pos (suc n))
      × (live now key (pipeline now key window s).1 ≡ some (suc n, expiry))
counts now key window s n expiry f h =
    let e : bumped now window (live now key s) ≡ (suc n, expiry) = ap (bumped now window) h in
    (
      ap (λ x. pos x.0) e,
      ap (λ x. live now key (put key x s)) e
          ∙ put_live now key (suc n) expiry s (live_running now (s key) n expiry h).0,
    )

lives_on :
    (now later : Time) (key : String) (s : Store) (n : ℕ) (expiry : Time)
    → live now key s ≡ some (n, expiry)
    → leb_ℤ now later ≡ true
    → ltb_ℤ later expiry ≡ true
    → live later key s ≡ some (n, expiry)
lives_on now later key s n expiry h w r =
    ap (unless_gone later) (live_running now (s key) n expiry h).1 ∙ rw r refl

expires :
    (now later : Time) (key : String) (s : Store) (n : ℕ) (expiry : Time)
    → live now key s ≡ some (n, expiry)
    → leb_ℤ expiry later ≡ true
    → live later key s ≡ none
expires now later key s n expiry h w =
    ap (unless_gone later) (live_running now (s key) n expiry h).1 ∙ ground arith

abbrev store : Redis Store
store = record {
  pipeline = pipeline;
  del = λ key s. (none, λ k. if str_eq k key then none else s k);
  live = live;
  kept = kept;
  kept_whole = kept_whole;
  kept_short = kept_short;
  starts = starts;
  counts = counts;
  expires = expires;
  lives_on = lives_on;
}

-- A window of 1.5 seconds, of which Redis keeps 1.
abbrev two_at_a_time : Limiter
two_at_a_time = record { prefix = "login"; cfg = record { limit = pos 2; window = pos 1500000000 } }

-- Four calls are allowed within 1.2 seconds.
allowed_in_windows_example :
    let first = seconds 5 ∷ pos 5100000000 ∷ pos 5200000000 ∷ [] in
    let second = seconds 6 ∷ pos 6100000000 ∷ pos 6200000000 ∷ [] in
    (allowed_at store two_at_a_time "10.0.0.9" first (λ k. none) ≡ 2)
    × (allowed_at store two_at_a_time "10.0.0.9" (first ++ second) (λ k. none) ≡ 4)
unfolding ◌+ℤ◌
allowed_in_windows_example =
    allowed_in_windows store two_at_a_time "10.0.0.9" 2 (seconds 5) (seconds 6)
      (pos 5100000000 ∷ pos 5200000000 ∷ []) (pos 6100000000 ∷ pos 6200000000 ∷ []) (λ k. none)
      (λ now s. refl) refl refl refl (refl, refl, (refl, refl, tt)) refl
      (refl, refl, (refl, refl, tt))
