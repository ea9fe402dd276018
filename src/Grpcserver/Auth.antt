-- ===== src/Grpcserver/Auth.antt =====
-- grpcserver/auth.go and grpcserver/internal.go: who may call a method.
pub mod Access
mod Examples
use Prim.Native.Char.{code}
use Prim.Native.String
use hockey_libs.Prelude.{
  ℕ, ◌+◌, String, Bool, true, false, ◌&&◌, Option, none, some, List, [], ◌∷◌, str_eq, leb, ◌==◌,
  Time, contains, trim_space, if◌then◌else◌,
}
use hockey_libs.Errors.{Err, Code, Result, ret, err}
use hockey_libs.Token.{Claims, has_role}
use hockey_libs.Token.Jwt.{Jwt}
use hockey_libs.Token.Manager.{Manager, parse_access}
use hockey_libs.Grpcserver.Context.{Ctx, metadata_value, new_context, with_attr}
use hockey_libs.Grpcserver.Reply.{Reply, refuse}
use hockey_libs.Grpcserver.ErrorMap.{status_error}

abbrev pub authorization_key : String
authorization_key = "authorization"

abbrev pub bearer_prefix : String
bearer_prefix = "bearer "

abbrev pub missing_credentials : Err
missing_credentials = status_error Code.unauthenticated "missing credentials"

abbrev pub invalid_credentials : Err
invalid_credentials = status_error Code.unauthenticated "invalid credentials"

abbrev pub insufficient_permissions : Err
insufficient_permissions = status_error Code.permission_denied "insufficient permissions"

abbrev to_lower : ℕ → ℕ
to_lower c = if leb 65 c && leb c 90 then c + 32 else c

-- What follows a prefix in lower case, which is met in any case.
unfoldable pub cut_fold : String → String → Option String
cut_fold String.[] s = some s
cut_fold (String.◌∷◌ c p) String.[] = none
cut_fold (String.◌∷◌ c p) (String.◌∷◌ d s) =
    let rest = cut_fold p s in if to_lower (code d) == code c then rest else none

abbrev pub bearer_of : String → Result String
bearer_of header =
    if str_eq header "" then err missing_credentials else elim (cut_fold bearer_prefix header) [
      | none ↦ err (status_error Code.unauthenticated "invalid authorization scheme")
      | some rest ↦
          let raw = trim_space rest in if str_eq raw "" then err missing_credentials else ret raw
    ]

unfoldable pub bearer_token : Ctx → Result String
unfolding metadata_value trim_space cut_fold
bearer_token ctx = elim ctx.metadata [
  | none ↦ err missing_credentials
  | some md ↦ bearer_of (metadata_value md authorization_key)
]

abbrev pub Authenticator : Type 0
Authenticator = Ctx → String → Result Ctx

pub record AuthConfig : Type 0 where
  pub authenticate : Option Authenticator
  pub public_methods : List String
  pub optional : Bool

unfoldable pub authenticate : Ctx → AuthConfig → Result Ctx
unfolding bearer_token
authenticate ctx cfg = elim cfg.authenticate [
  | none ↦ err (status_error Code.internal "authenticator is not configured")
  | some run ↦ elim (bearer_token ctx) [
    | err e ↦ if cfg.optional then ret ctx else err e
    | ret raw ↦ elim (run ctx raw) [ err _ ↦ err invalid_credentials | ret c ↦ ret c ]
  ]
]

-- `AuthUnaryInterceptor` and `AuthStreamInterceptor`.
unfoldable pub auth_interceptor :
    {R : Type 0} → AuthConfig → String → (Ctx → Reply R) → Ctx → Reply R
unfolding contains authenticate
auth_interceptor cfg method handler ctx =
    if contains cfg.public_methods method
    then handler ctx
    else elim (authenticate ctx cfg) [ err e ↦ refuse e | ret c ↦ handler c ]

abbrev pub has_any_role : Option Claims → List String → Bool
has_any_role claims [] = false
has_any_role claims (r ∷ rs) = if has_role claims r then true else has_any_role claims rs

unfoldable pub require_role : {R : Type 0} → List String → (Ctx → Reply R) → Ctx → Reply R
unfolding has_role
require_role roles handler ctx = elim ctx.claims [
  | none ↦ refuse missing_credentials
  | some c ↦ if has_any_role (some c) roles then handler ctx else refuse insufficient_permissions
]

abbrev pub role_service : String
role_service = "service"

pub record InternalAuthConfig (Key : Type 0) : Type 0 where
  pub manager : Option (Manager Key)
  pub methods : List String
  pub role : String

abbrev pub role_or_service : String → String
role_or_service role = if str_eq role "" then role_service else role

module _ {Key Block ParsedKey : Type 0} (jwt : Jwt Key Block ParsedKey) where
  unfoldable pub token_authenticator : Manager Key → Time → Authenticator
  unfolding parse_access new_context with_attr
  token_authenticator m now ctx raw = elim (parse_access jwt m now raw) [
    | err e ↦ err e
    | ret claims ↦ ret (with_attr (new_context ctx (some claims)) "user_id" claims.subject)
  ]

  -- The claims that a call of an internal method is let in with, or the refusal.
  unfoldable pub admit : InternalAuthConfig Key → Time → Ctx → Result Claims
  unfolding bearer_token parse_access has_role
  admit cfg now ctx = elim cfg.manager [
    | none ↦ err (status_error Code.internal "internal authenticator is not configured")
    | some m ↦ elim (bearer_token ctx) [
      | err e ↦ err e
      | ret raw ↦ elim (parse_access jwt m now raw) [
        | err _ ↦ err invalid_credentials
        | ret claims ↦
            if has_role (some claims) (role_or_service cfg.role)
            then ret claims
            else err insufficient_permissions
      ]
    ]
  ]

  unfoldable pub internal_auth :
      {R : Type 0} → InternalAuthConfig Key → Time → String → (Ctx → Reply R) → Ctx → Reply R
  unfolding contains admit new_context with_attr
  internal_auth cfg now method handler ctx =
      if contains cfg.methods method
      then elim (admit cfg now ctx) [
        | err e ↦ refuse e
        | ret claims ↦
            handler (with_attr (new_context ctx (some claims)) "caller_service" claims.subject)
      ]
      else handler ctx
