-- ===== src/Grpcclient/Token.antt =====
-- grpcclient/token.go: the token of the caller goes with the calls that a service makes for it.
use hockey_libs.Prelude.{
  String, Bool, true, false, Option, none, some, List, [], ◌∷◌, ◌++◌, str_eq, lookup, concat,
  trim_space, Time, if◌then◌else◌,
}
use hockey_libs.Grpcserver.Auth.{cut_fold, bearer_prefix, authorization_key}

-- What the interceptors read of a context: the outgoing metadata, as the pairs that were appended to
-- it, the incoming metadata, the token that `WithToken` put there, the request's id and the deadline.
pub record CallCtx : Type 0 where
  pub outgoing : List (String × String)
  pub incoming : Option (List (String × List String))
  pub token : Option String
  pub request_id : Option String
  pub deadline : Option Time

unfoldable pub with_token : CallCtx → String → CallCtx
with_token ctx raw = if str_eq raw "" then ctx else record ctx { token = some raw }

unfoldable pub token_from_context : CallCtx → Option String
token_from_context ctx = elim ctx.token [
  | none ↦ none
  | some raw ↦ if str_eq raw "" then none else some raw
]

abbrev pub bearer_or_empty : Option (List String) → String
bearer_or_empty none = ""
bearer_or_empty (some []) = ""
bearer_or_empty (some (header ∷ more)) = elim (cut_fold bearer_prefix header) [
  | none ↦ ""
  | some rest ↦ trim_space rest
]

unfoldable pub incoming_bearer : CallCtx → String
unfolding lookup cut_fold trim_space
incoming_bearer ctx = elim ctx.incoming [
  | none ↦ ""
  | some md ↦ bearer_or_empty (lookup authorization_key md)
]

abbrev pub is_some_text : Option String → Bool
is_some_text none = false
is_some_text (some t) = true

abbrev pub or_incoming : CallCtx → Option String → String
or_incoming ctx none = incoming_bearer ctx
or_incoming ctx (some raw) = raw

unfoldable pub with_forwarded_token : CallCtx → CallCtx
unfolding lookup token_from_context incoming_bearer
with_forwarded_token ctx =
    let raw = or_incoming ctx (token_from_context ctx) in
    if is_some_text (lookup authorization_key ctx.outgoing)
    then ctx
    else if str_eq raw ""
    then ctx
    else record ctx {
      outgoing = ctx.outgoing ++ (authorization_key, concat ("Bearer " ∷ raw ∷ [])) ∷ [];
    }

-- Both interceptors: the call is made in the context with the token.
unfoldable pub forward_token : {R : Type 0} → (CallCtx → R) → CallCtx → R
unfolding with_forwarded_token
forward_token invoker ctx = invoker (with_forwarded_token ctx)
