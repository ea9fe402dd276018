-- ===== src/Grpcclient/Interceptors.antt =====
-- grpcclient/interceptors.go: what a client does to a call, unary or of a stream. The invoker is what
-- makes the call, or the next interceptor.
use hockey_libs.Prelude.{
  String, Option, none, some, List, [], ◌∷◌, ◌++◌, str_eq, lookup, concat, Duration, Time, pos,
  leb_ℤ, ◌+ℤ◌, if◌then◌else◌,
}
use hockey_libs.Errors.{Err, Code, Result, ret, err}
use hockey_libs.Grpcserver.Auth.{authorization_key}
use hockey_libs.Grpcserver.ErrorMap.{StatusLib, status_error}
use hockey_libs.Grpcserver.RequestId.{metadata_key}
use hockey_libs.Grpcclient.Token.{CallCtx, is_some_text}

-- The lines of `logCall`, without target, duration and error text: the request's id is left out where it is empty.
pub data CallLine : Type 0 where
  debug warn : String → Code → Option String → CallLine

-- The end of a call: what it returned and the lines that were logged.
pub record Called (R : Type 0) : Type 0 where
  pub result : Option R
  pub failure : Option Err
  pub lines : List CallLine

abbrev pub Invoker : Type 0 → Type 0
Invoker R = CallCtx → Called R

abbrev pub ClientInterceptor : Type 0 → Type 0
ClientInterceptor R = String → Invoker R → Invoker R

-- requestid.FromContext
abbrev pub id_of : CallCtx → Option String
id_of ctx = elim ctx.request_id [ none ↦ none | some id ↦ if str_eq id "" then none else some id ]

abbrev pub append_outgoing : CallCtx → String → String → CallCtx
append_outgoing ctx key value = record ctx { outgoing = ctx.outgoing ++ (key, value) ∷ [] }

-- `withRequestID`
unfoldable pub with_request_id : CallCtx → CallCtx
unfolding lookup
with_request_id ctx = elim (id_of ctx) [
  | none ↦ ctx
  | some id ↦
      if is_some_text (lookup metadata_key ctx.outgoing)
      then ctx
      else append_outgoing ctx metadata_key id
]

unfoldable pub request_id : {R : Type 0} → ClientInterceptor R
unfolding with_request_id
request_id method invoker ctx = invoker (with_request_id ctx)

-- The deadline that a call gets, if it has none yet.
abbrev pub with_deadline : Duration → Time → Option Time → CallCtx → CallCtx
with_deadline limit now (some d) ctx = ctx
with_deadline limit now none ctx =
    if leb_ℤ limit (pos 0) then ctx else record ctx { deadline = some (now +ℤ limit) }

-- `TimeoutUnaryInterceptor`
unfoldable pub timeout : {R : Type 0} → Duration → Time → ClientInterceptor R
timeout limit now method invoker ctx = invoker (with_deadline limit now ctx.deadline ctx)

-- `StaticTokenInterceptor`; its message goes on with the text of the error.
unfoldable pub static_token : {R : Type 0} → (CallCtx → Result String) → ClientInterceptor R
static_token token method invoker ctx = elim (token ctx) [
  | err e ↦ (record {
    result = none;
    failure = some (status_error Code.unauthenticated "get service token");
    lines = [];
  })
  | ret value ↦ invoker (append_outgoing ctx authorization_key (concat ("Bearer " ∷ value ∷ [])))
]

module _ (lib : StatusLib) where
  -- `logCall`
  abbrev pub call_line : String → CallCtx → Option Err → CallLine
  call_line method ctx none = debug method (lib.status_code none) (id_of ctx)
  call_line method ctx (some e) = warn method (lib.status_code (some e)) (id_of ctx)

  unfoldable pub logging : {R : Type 0} → ClientInterceptor R
  logging method invoker ctx =
      let c = invoker ctx in record c { lines = c.lines ++ call_line method ctx c.failure ∷ [] }
