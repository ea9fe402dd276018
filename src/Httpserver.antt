-- ===== src/Httpserver.antt =====
-- httpserver/: an HTTP server that ends with its context, and the probes of a service. net/http is its
-- environment.
pub mod Probes
use hockey_libs.Prelude.{
  ℤ, pos, String, Bool, true, false, Option, none, some, List, [], ◌∷◌, ◌++◌, str_eq, Duration,
  seconds, leb_ℤ, is_zero, nonzero_or, if◌then◌else◌,
}
use hockey_libs.Errors.{Err, Sentinel, is, plain}

-- `handler` tells whether there is one.
pub record Config : Type 0 where
  pub address : String
  pub handler : Bool
  pub read_header_timeout : Duration
  pub read_timeout : Duration
  pub write_timeout : Duration
  pub idle_timeout : Duration
  pub shutdown_timeout : Duration

-- A negative timeout is none, which net/http writes as zero.
unfoldable pub timeout_or_default : Duration → Duration → Duration
timeout_or_default value fallback =
    if is_zero value then fallback else if leb_ℤ value (pos 0) then pos 0 else value

unfoldable pub with_defaults : Config → Config
unfolding timeout_or_default
with_defaults c = record c {
  address = if str_eq c.address "" then ":8080" else c.address;
  read_header_timeout = timeout_or_default c.read_header_timeout (seconds 5);
  read_timeout = timeout_or_default c.read_timeout (seconds 30);
  write_timeout = timeout_or_default c.write_timeout (seconds 30);
  idle_timeout = timeout_or_default c.idle_timeout (seconds 60);
  shutdown_timeout = nonzero_or c.shutdown_timeout (seconds 10);
}

-- What `Serve` sends over the channel.
unfoldable pub serve_result : Option Err → Option Err
unfolding is
serve_result none = none
serve_result (some e) = if is Sentinel.server_closed e then none else some e

pub data Action : Type 0 where
  serves shuts_down closes : Action

-- What meets `Run`: the error of `net.Listen`; the end of `Serve` if it comes before the context's; the
-- error of `Shutdown`; and the end of `Serve` after it.
pub record Events : Type 0 where
  pub listen : Option Err
  pub serve_first : Option (Option Err)
  pub shutdown : Option Err
  pub serve_end : Option Err

abbrev pub shut_down : Events → List Action
shut_down ev = elim ev.shutdown [ none ↦ shuts_down ∷ [] | some e ↦ shuts_down ∷ closes ∷ [] ]

unfoldable pub run : Config → Events → List Action × Option Err
unfolding serve_result
run c ev =
    if c.handler
    then elim ev.listen [
      | some e ↦ ([], some e)
      | none ↦ elim ev.serve_first [
        | some end ↦ (serves ∷ [], serve_result end)
        | none ↦ (serves ∷ shut_down ev, serve_result ev.serve_end)
      ]
    ]
    else ([], some (plain "httpserver: handler is required"))
