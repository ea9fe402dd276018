-- ===== src/Grpcserver/Reply.antt =====
-- grpcserver/: what the handling of one request leaves, for calls and for streams. An interceptor
-- takes the full method, the handler that it wraps and the context; a stream's context is its
-- stream's, and a stream has no response.
use hockey_libs.Prelude.{String, Option, none, some, List, [], ◌∷◌}
use hockey_libs.Errors.{Err, Code}
use hockey_libs.Grpcserver.Context.{Ctx}

-- How a handler ends: with a response and an error, or in a panic.
pub data Ending (R : Type 0) : Type 0 where
  replies : Option R → Option Err → Ending R
  panics : Ending R

-- The log lines of interceptors.go. Durations, stacks and error texts are left out.
pub data Level : Type 0 where
  info warn error : Level

pub data Line : Type 0 where
  request : Level → String → Code → String → String → Line
  panic : String → String → Line

-- `headers` are those set by `grpc.SetHeader`; `observed` are the increments of the counter of
-- requests, by method and code.
pub record Reply (R : Type 0) : Type 0 where
  pub headers : List (String × String)
  pub logs : List Line
  pub observed : List (String × Code)
  pub ending : Ending R

abbrev pub Handler : Type 0 → Type 0
Handler R = Ctx → Reply R

abbrev pub Interceptor : Type 0 → Type 0
Interceptor R = String → Handler R → Handler R

abbrev pub answer : {R : Type 0} → Option R → Option Err → Reply R
answer resp err = record { headers = []; logs = []; observed = []; ending = replies resp err }

-- An interceptor that returns an error and does not call the handler.
abbrev pub refuse : {R : Type 0} → Err → Reply R
refuse e = answer none (some e)

abbrev pub set_header : {R : Type 0} → String → String → Reply R → Reply R
set_header key value r = record r { headers = (key, value) ∷ r.headers }
