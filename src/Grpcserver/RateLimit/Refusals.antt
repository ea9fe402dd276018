-- ===== src/Grpcserver/RateLimit/Refusals.antt =====
-- grpcserver/ratelimit.go: which calls are refused.
use hockey_libs.Prelude.{
  ◌≡◌, refl, ◌⊎◌, inl, inr, ℤ, pos, ltb_ℤ, String, Bool, false, Option, none, some, Duration,
  Option-cases, Bool-cases,
}
use hockey_libs.Errors.{Err, Code}
use hockey_libs.Grpcserver.Context.{Ctx}
use hockey_libs.Grpcserver.ClientIp.{Netip}
use hockey_libs.Grpcserver.Reply.{Handler, replies}
use hockey_libs.Grpcserver.ErrorMap.{status_error}
use hockey_libs.Grpcserver.RateLimit.{RateLimitConfig, counted_key, too_many, rate_limit}

module _ {Addr Prefix R : Type 0} (net : Netip Addr Prefix) (itoa : ℤ → String)
    (cfg : RateLimitConfig Prefix) (method : String) (handler : Handler R) (ctx : Ctx) where
  -- The limiter was asked for the address of a call that counts, and answered no.
  pub record OverLimit : Type 0 where
    pub ask : String → Bool × Duration × Option Err
    pub key : String
    pub limiter : cfg.limiter ≡ some ask
    pub counts : counted_key net itoa cfg method ctx ≡ some key
    pub no_error : (ask key).2 ≡ none
    pub denied : (ask key).0 ≡ false

  too_many-ending :
      (d : Duration)
      → (too_many net itoa {R = R} d).ending
        ≡ replies none (some (status_error Code.resource_exhausted "too many requests"))
  too_many-ending d = elim (Bool-cases (ltb_ℤ (pos 0) d)) [ inl e ↦ rw e refl | inr e ↦ rw e refl ]

  -- A call is passed on to the handler as it is, or it is refused and the limiter denied its address
  -- without an error. So an unavailable limiter, a method that is not limited and a caller without an
  -- address let every call through.
  pub rate_limit-OverLimit :
      (rate_limit net itoa cfg method handler ctx ≡ handler ctx)
      ⊎ (OverLimit
          × ((rate_limit net itoa cfg method handler ctx).ending
              ≡ replies none (some (status_error Code.resource_exhausted "too many requests"))))
  unfolding rate_limit
  rate_limit-OverLimit = elim (Option-cases cfg.limiter) [
    | inl l ↦ inl (rw (rate_limit, l) refl)
    | inr (ask, l) ↦ elim (Option-cases (counted_key net itoa cfg method ctx)) [
      | inl k ↦ inl (rw (rate_limit, l, k) refl)
      | inr (key, k) ↦ elim (Option-cases (ask key).2) [
        | inr (e, f) ↦ inl (rw (rate_limit, l, k, f) refl)
        | inl f ↦ elim (Bool-cases (ask key).0) [
          | inl a ↦ inl (rw (rate_limit, l, k, f, a) refl)
          | inr a ↦ inr (
            record { ask = ask; key = key; limiter = l; counts = k; no_error = f; denied = a },
            rw (rate_limit, l, k, f, a) (too_many-ending (ask key).1),
          )
        ]
      ]
    ]
  ]
