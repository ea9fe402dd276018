-- ===== src/Grpcserver/Server.antt =====
-- grpcserver/server.go: the settings of a server, the interceptors that it installs and their order,
-- and its life from `Run` to its end. The listener, the health service and grpc are its environment.
mod Examples
pub mod Answers
pub mod Logs
pub mod Life
use hockey_libs.Prelude.{
  ℕ, ◌*◌, ℤ, pos, String, Bool, true, false, not, Option, none, some, List, [], ◌∷◌, ◌++◌, str_eq,
  leb_ℤ, Duration, seconds, contains, nonzero_or, if◌then◌else◌,
}
use hockey_libs.Errors.{Err, Sentinel, is}
use hockey_libs.Grpcserver.ErrorMap.{StatusLib}
use hockey_libs.Grpcserver.Reply.{Handler, Interceptor}
use hockey_libs.Grpcserver.RequestId.{request_id}
use hockey_libs.Grpcserver.Interceptors.{recovery, logging, metrics, error_mapping}

pub record Config (R : Type 0) : Type 0 where
  pub address : String
  pub enable_health : Bool
  pub enable_reflection : Bool
  pub graceful_stop_timeout : Duration
  pub drain_delay : Duration
  pub max_recv_msg_size : ℤ
  pub max_send_msg_size : ℤ
  pub max_concurrent_streams : ℤ
  pub registry : Bool
  pub log_skip_methods : List String
  pub interceptors : List (Interceptor R)

abbrev pub own_skip_methods : List String
own_skip_methods =
    "/grpc.health.v1.Health/Check" ∷ "/grpc.health.v1.Health/Watch"
    ∷ "/grpc.reflection.v1.ServerReflection/ServerReflectionInfo"
    ∷ "/grpc.reflection.v1alpha.ServerReflection/ServerReflectionInfo" ∷ []

unfoldable pub with_defaults : {R : Type 0} → Config R → Config R
with_defaults cfg = record cfg {
  address = if str_eq cfg.address "" then ":50051" else cfg.address;
  graceful_stop_timeout = nonzero_or cfg.graceful_stop_timeout (seconds 10);
  max_recv_msg_size = nonzero_or cfg.max_recv_msg_size (pos (4 * 1024 * 1024));
  max_send_msg_size = nonzero_or cfg.max_send_msg_size (pos (4 * 1024 * 1024));
  max_concurrent_streams = nonzero_or cfg.max_concurrent_streams (pos 1000);
  log_skip_methods = own_skip_methods ++ cfg.log_skip_methods;
}

-- `grpc.ChainUnaryInterceptor`: the first interceptor is the outermost.
unfoldable pub chain : {R : Type 0} → List (Interceptor R) → Interceptor R
chain [] method handler = handler
chain (i ∷ rest) method handler = i method (chain rest method handler)

-- The interceptors of `newGRPCServer`, in their order; `fresh` is the id for a request without one.
unfoldable pub installed : {R : Type 0} → StatusLib → Config R → String → List (Interceptor R)
installed lib cfg fresh =
    recovery
    ∷ request_id fresh
    ∷ logging lib cfg.log_skip_methods
    ∷ ((if cfg.registry then metrics lib ∷ [] else []) ++ error_mapping lib ∷ cfg.interceptors)

-- One request to the server that `New` makes of the settings.
unfoldable pub serve : {R : Type 0} → StatusLib → Config R → String → Interceptor R
unfolding chain installed with_defaults
serve lib cfg fresh method handler = chain (installed lib (with_defaults cfg) fresh) method handler

unfoldable pub normalize_serve_error : Option Err → Option Err
unfolding is
normalize_serve_error none = none
normalize_serve_error (some e) = if is Sentinel.server_stopped e then none else some e

-- What a server does that others see, in the order in which it does it.
pub data Action : Type 0 where
  reports : Bool → Action
  serves drains graceful_stop forced_stop : Action

-- What meets `Run`: the error of `net.Listen`; the end of `Serve` if it comes before the context's;
-- whether the graceful stop ends in time, and the end of `Serve` after it.
pub record Events : Type 0 where
  pub listen : Option Err
  pub serve_first : Option (Option Err)
  pub stopped_in_time : Bool
  pub serve_end : Option Err

module _ {R : Type 0} (cfg : Config R) where
  abbrev pub drain : List Action
  drain = if not (leb_ℤ cfg.drain_delay (pos 0)) then drains ∷ [] else []

  abbrev pub halt : Events → List Action
  halt ev = graceful_stop ∷ (if ev.stopped_in_time then [] else forced_stop ∷ [])

  -- `stop`
  unfoldable pub stop : Events → List Action
  stop ev = if cfg.enable_health then reports false ∷ (drain ++ halt ev) else halt ev

  abbrev pub start : List Action
  start = if cfg.enable_health then reports true ∷ serves ∷ [] else serves ∷ []

  -- `Run`, with what it returns.
  unfoldable pub run : Events → List Action × Option Err
  unfolding stop normalize_serve_error
  run ev = elim ev.listen [
    | some e ↦ ([], some e)
    | none ↦ elim ev.serve_first [
      | some end ↦ (start, normalize_serve_error end)
      | none ↦ (start ++ stop ev, normalize_serve_error ev.serve_end)
    ]
  ]
