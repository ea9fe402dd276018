-- ===== src/Grpcserver/RateLimit.antt =====
-- grpcserver/ratelimit.go: the limit of calls by client address. `itoa` is strconv.Itoa.
pub mod Refusals
mod Examples
use hockey_libs.Prelude.{
  ℤ, pos, ◌+ℤ◌, String, Bool, true, false, not, ◌&&◌, Option, none, some, List, [], ◌∷◌, str_eq,
  Duration, leb_ℤ, ltb_ℤ, quot, nanos, minutes, contains, concat, if◌then◌else◌,
}
use hockey_libs.Errors.{Err, Code, wrapped}
use hockey_libs.Grpcserver.Context.{Ctx}
use hockey_libs.Grpcserver.ClientIp.{Netip, client_ip}
use hockey_libs.Grpcserver.Reply.{Reply, Interceptor, refuse, set_header}
use hockey_libs.Grpcserver.ErrorMap.{status_error}

-- grpcserver.RateLimitConfig; `limiter` is the answer of `Allow` for a key in this call.
pub record RateLimitConfig (Prefix : Type 0) : Type 0 where
  pub limiter : Option (String → Bool × Duration × Option Err)
  pub methods : List String
  pub trusted_proxies : List Prefix

abbrev pub is_empty : List String → Bool
is_empty [] = true
is_empty (x ∷ xs) = false

module _ {Addr Prefix : Type 0} (net : Netip Addr Prefix) (itoa : ℤ → String) where
  abbrev pub too_many : {R : Type 0} → Duration → Reply R
  too_many retry_after =
      if ltb_ℤ (pos 0) retry_after
      then set_header "retry-after" (itoa (quot (retry_after +ℤ pos 500000000) (pos nanos)))
          (refuse (status_error Code.resource_exhausted "too many requests"))
      else refuse (status_error Code.resource_exhausted "too many requests")

  -- The address by which the call is counted, if it is counted.
  abbrev pub counted_key : RateLimitConfig Prefix → String → Ctx → Option String
  counted_key cfg method ctx =
      if not (contains cfg.methods method) && not (is_empty cfg.methods)
      then none
      else let key = client_ip net cfg.trusted_proxies ctx in
        if str_eq key "" then none else some key

  -- `RateLimitUnaryInterceptor`
  unfoldable pub rate_limit : {R : Type 0} → RateLimitConfig Prefix → Interceptor R
  unfolding contains client_ip
  rate_limit cfg method handler ctx = elim cfg.limiter [
    | none ↦ handler ctx
    | some ask ↦ elim (counted_key cfg method ctx) [
      | none ↦ handler ctx
      | some key ↦
          let (allowed, retry_after, failure) = ask key in
          elim failure [
            | some _ ↦ handler ctx
            | none ↦ if allowed then handler ctx else too_many retry_after
          ]
    ]
  ]
