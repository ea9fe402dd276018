-- ===== src/Grpcserver/Interceptors.antt =====
-- grpcserver/interceptors.go, grpcserver/metrics.go and the interceptors of grpcserver/errors.go.
use hockey_libs.Prelude.{
  String, Bool, true, false, Option, none, some, List, [], ◌∷◌, ◌++◌, Duration, Time, pos, leb_ℤ,
  ◌+ℤ◌, contains, if◌then◌else◌,
}
use hockey_libs.Errors.{Err, Code}
use hockey_libs.Grpcserver.Context.{Ctx}
use hockey_libs.Grpcserver.ErrorMap.{StatusLib, status_error, map_error}
use hockey_libs.Grpcserver.Reply.{
  Ending, replies, panics, Level, Line, request, panic, Reply, Interceptor,
}
use hockey_libs.Grpcserver.RequestId.{get}

abbrev pub internal_server_error : Err
internal_server_error = status_error Code.internal "internal server error"

-- `RecoveryUnaryInterceptor` and `RecoveryStreamInterceptor`: what the handler did before a panic
-- stays done. `logPanic` reads the id of the interceptor's own context.
abbrev pub recovered : {R : Type 0} → String → Ctx → Reply R → Ending R → Reply R
recovered method ctx r (replies resp err) = r
recovered method ctx r panics = record r {
  logs = r.logs ++ panic method (get ctx) ∷ [];
  ending = replies none (some internal_server_error);
}

unfoldable pub recovery : {R : Type 0} → Interceptor R
unfolding get
recovery method handler ctx = let r = handler ctx in recovered method ctx r r.ending

unfoldable pub is_server_fault : Code → Bool
is_server_fault Code.unknown = true
is_server_fault Code.internal = true
is_server_fault Code.data_loss = true
is_server_fault Code.unimplemented = true
is_server_fault _ = false

abbrev pub peer_address : Ctx → String
peer_address ctx = elim ctx.peer [ none ↦ "" | some text ↦ text ]

-- The deadline that a context gets, if it has none yet.
unfoldable pub with_timeout : Duration → Time → Ctx → Ctx
with_timeout timeout now ctx = elim ctx.deadline [
  | some _ ↦ ctx
  | none ↦ if leb_ℤ timeout (pos 0) then ctx else record ctx { deadline = some (now +ℤ timeout) }
]

-- `TimeoutUnaryInterceptor`
unfoldable pub timeout_interceptor : {R : Type 0} → Duration → Time → Interceptor R
unfolding with_timeout
timeout_interceptor timeout now method handler ctx = handler (with_timeout timeout now ctx)

module _ (lib : StatusLib) where
  -- `logRequest`
  abbrev pub level_of : Option Err → Level
  level_of none = Level.info
  level_of (some e) = if is_server_fault (lib.status_code (some e)) then Level.error else Level.warn

  abbrev pub request_line : String → Ctx → Option Err → Line
  request_line method ctx err =
      request (level_of err) method (lib.status_code err) (get ctx) (peer_address ctx)

  abbrev pub logged : {R : Type 0} → String → Ctx → Reply R → Ending R → Reply R
  logged method ctx r (replies resp err) = record r {
    logs = r.logs ++ request_line method ctx err ∷ [];
  }
  logged method ctx r panics = r

  -- `LoggingUnaryInterceptor` and `LoggingStreamInterceptor`
  unfoldable pub logging : {R : Type 0} → List String → Interceptor R
  unfolding contains is_server_fault get
  logging skip method handler ctx =
      if contains skip method
      then handler ctx
      else let r = handler ctx in logged method ctx r r.ending

  abbrev pub counted : {R : Type 0} → String → Reply R → Ending R → Reply R
  counted method r (replies resp err) = record r {
    observed = r.observed ++ (method, lib.status_code err) ∷ [];
  }
  counted method r panics = r

  -- `UnaryInterceptor` and `StreamInterceptor` of the metrics. A panic passes `observe` by; the gauge
  -- of requests in flight goes up and down again.
  unfoldable pub metrics : {R : Type 0} → Interceptor R
  metrics method handler ctx = let r = handler ctx in counted method r r.ending

  -- What `ErrorMappingUnaryInterceptor` and its twin for streams make of the handler's end.
  abbrev pub mapped_ending : {R : Type 0} → Ending R → Ending R
  mapped_ending (replies resp none) = replies resp none
  mapped_ending (replies resp (some e)) = replies none (map_error lib (some e))
  mapped_ending panics = panics

  unfoldable pub error_mapping : {R : Type 0} → Interceptor R
  unfolding map_error
  error_mapping method handler ctx =
      let r = handler ctx in record r { ending = mapped_ending r.ending }
