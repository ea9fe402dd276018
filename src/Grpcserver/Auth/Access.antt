-- ===== src/Grpcserver/Auth/Access.antt =====
-- grpcserver/auth.go and grpcserver/internal.go: a handler runs only for a caller that was let in.
use hockey_libs.Prelude.{
  ◌≡◌, refl, ◌⊎◌, inl, inr, String, true, false, some, Time, contains, Bool-cases, Option-cases,
}
use hockey_libs.Grpcserver.ErrorMap.{status_error}
use hockey_libs.Errors.{Result-cases, Err, Code, ret, err}
use hockey_libs.Token.{Claims, has_role}
use hockey_libs.Token.Jwt.{Jwt}
use hockey_libs.Token.Manager.{Manager, parse_access}
use hockey_libs.Grpcserver.Context.{Ctx, new_context, with_attr}
use hockey_libs.Grpcserver.Reply.{Reply, refuse}
use hockey_libs.Grpcserver.Auth.{
  bearer_token, AuthConfig, Authenticator, authenticate, auth_interceptor, InternalAuthConfig,
  admit, internal_auth, role_or_service, invalid_credentials, insufficient_permissions,
}

-- A context that the authenticator made from the caller's bearer token.
pub record Authenticated (cfg : AuthConfig) (ctx c : Ctx) : Type 0 where
  pub run : Authenticator
  pub raw : String
  pub configured : cfg.authenticate ≡ some run
  pub bearer : bearer_token ctx ≡ ret raw
  pub made : run ctx raw ≡ ret c

authenticate-Authenticated :
    (cfg : AuthConfig) (ctx : Ctx)
    → cfg.optional ≡ false
    → ((e : Err) × (authenticate ctx cfg ≡ err e))
      ⊎ ((c : Ctx) × (authenticate ctx cfg ≡ ret c) × Authenticated cfg ctx c)
unfolding authenticate
authenticate-Authenticated cfg ctx o = elim (Option-cases cfg.authenticate) [
  | inl n ↦
      inl (status_error Code.internal "authenticator is not configured", rw (authenticate, n) refl)
  | inr (run, n) ↦ elim (Result-cases (bearer_token ctx)) [
    | inl (e, b) ↦ inl (e, rw (authenticate, n, b, o) refl)
    | inr (raw, b) ↦ elim (Result-cases (run ctx raw)) [
      | inl (e, r) ↦ inl (invalid_credentials, rw (authenticate, n, b, r) refl)
      | inr (c, r) ↦ inr (
        c,
        rw (authenticate, n, b, r) refl,
        record { run = run; raw = raw; configured = n; bearer = b; made = r },
      )
    ]
  ]
]

-- On a method that is not public, where authentication is not optional, the interceptor refuses the
-- call without the handler, or runs the handler once, in a context that the authenticator made from
-- the caller's bearer token.
pub auth_interceptor-Authenticated :
    {R : Type 0} (cfg : AuthConfig) (method : String) (handler : Ctx → Reply R) (ctx : Ctx)
    → cfg.optional ≡ false
    → contains cfg.public_methods method ≡ false
    → ((e : Err) × (auth_interceptor cfg method handler ctx ≡ refuse e)
        × (authenticate ctx cfg ≡ err e))
      ⊎ ((c : Ctx) × (auth_interceptor cfg method handler ctx ≡ handler c)
          × Authenticated cfg ctx c)
unfolding auth_interceptor
auth_interceptor-Authenticated cfg method handler ctx o p =
    elim (authenticate-Authenticated cfg ctx o) [
      | inl (e, a) ↦ inl (e, rw (auth_interceptor, p, a) refl, a)
      | inr (c, a, made) ↦ inr (c, rw (auth_interceptor, p, a) refl, made)
    ]

module _ {Key Block ParsedKey : Type 0} (jwt : Jwt Key Block ParsedKey) where
  -- Claims of a service: the manager parsed them from the bearer token, as an access token, and they
  -- hold the required role.
  pub record Admitted (cfg : InternalAuthConfig Key) (now : Time) (ctx : Ctx) (claims : Claims)
      : Type 0 where
    pub manager : Manager Key
    pub raw : String
    pub configured : cfg.manager ≡ some manager
    pub bearer : bearer_token ctx ≡ ret raw
    pub parsed : parse_access jwt manager now raw ≡ ret claims
    pub role : has_role (some claims) (role_or_service cfg.role) ≡ true

  admit-Admitted :
      (cfg : InternalAuthConfig Key) (now : Time) (ctx : Ctx)
      → ((e : Err) × (admit jwt cfg now ctx ≡ err e))
        ⊎ ((claims : Claims) × (admit jwt cfg now ctx ≡ ret claims) × Admitted cfg now ctx claims)
  unfolding admit
  admit-Admitted cfg now ctx = elim (Option-cases cfg.manager) [
    | inl n ↦
        inl (
          status_error Code.internal "internal authenticator is not configured",
          rw (admit, n) refl,
        )
    | inr (m, n) ↦ elim (Result-cases (bearer_token ctx)) [
      | inl (e, b) ↦ inl (e, rw (admit, n, b) refl)
      | inr (raw, b) ↦ elim (Result-cases (parse_access jwt m now raw)) [
        | inl (e, p) ↦ inl (invalid_credentials, rw (admit, n, b, p) refl)
        | inr (claims, p) ↦ elim (Bool-cases (has_role (some claims) (role_or_service cfg.role))) [
          | inl r ↦ inr (
            claims,
            rw (admit, n, b, p, r) refl,
            record { manager = m; raw = raw; configured = n; bearer = b; parsed = p; role = r },
          )
          | inr r ↦ inl (insufficient_permissions, rw (admit, n, b, p, r) refl)
        ]
      ]
    ]
  ]

  -- An internal method is refused without the handler, or its handler runs once, with the claims that
  -- the manager parsed from the caller's bearer token and that hold the required role.
  pub internal_auth-Admitted :
      {R : Type 0} (cfg : InternalAuthConfig Key) (now : Time) (method : String)
      (handler : Ctx → Reply R) (ctx : Ctx)
      → contains cfg.methods method ≡ true
      → ((e : Err) × (internal_auth jwt cfg now method handler ctx ≡ refuse e))
        ⊎ ((claims : Claims) × (internal_auth jwt cfg now method handler ctx
              ≡ handler (with_attr (new_context ctx (some claims)) "caller_service" claims.subject))
            × Admitted cfg now ctx claims)
  unfolding internal_auth
  internal_auth-Admitted cfg now method handler ctx h = elim (admit-Admitted cfg now ctx) [
    | inl (e, a) ↦ inl (e, rw (internal_auth, h, a) refl)
    | inr (claims, a, admitted) ↦ inr (claims, rw (internal_auth, h, a) refl, admitted)
  ]
