-- ===== src/Grpcserver/RateLimit/Examples.antt =====
-- A limiter that denies the caller's address, where an address is its text.
use hockey_libs.Prelude.{
  ◌≡◌, refl, ℤ, String, false, Bool, Option, none, some, [], str_eq, Duration, seconds,
  if◌then◌else◌,
}
use hockey_libs.Errors.{Err, Code}
use hockey_libs.Grpcserver.Context.{Ctx}
use hockey_libs.Grpcserver.ClientIp.{Netip, peer_addr, trust}
use hockey_libs.Grpcserver.Reply.{Handler, replies}
use hockey_libs.Grpcserver.ErrorMap.{status_error}
use hockey_libs.Grpcserver.RateLimit.{RateLimitConfig, rate_limit}

abbrev texts : Netip String String
texts = record {
  host = λ s. none;
  parse_addr = λ s. if str_eq s "" then none else some s;
  parse_prefix = λ s. none;
  whole = λ a. a;
  contains = str_eq;
  unmap = λ a. a;
  text = λ a. a;
}

abbrev deny : String → Bool × Duration × Option Err
deny key = (false, seconds 3, none)

abbrev limits : RateLimitConfig String
limits = record { limiter = some deny; methods = []; trusted_proxies = [] }

abbrev show : ℤ → String
show n = "3"

abbrev greet : Handler String
greet ctx = record { headers = []; logs = []; observed = []; ending = replies (some "hello") none }

abbrev caller : Ctx
caller = record {
  metadata = none;
  peer = some "10.0.0.1";
  claims = none;
  request_id = none;
  deadline = none;
  attrs = [];
}

refused_test :
    (rate_limit texts show limits "/a" greet caller).ending
    ≡ replies none (some (status_error Code.resource_exhausted "too many requests"))
unfolding rate_limit peer_addr trust
refused_test = refl
