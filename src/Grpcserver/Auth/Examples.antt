-- ===== src/Grpcserver/Auth/Examples.antt =====
-- grpcserver/auth.go and grpcserver/internal.go: a caller with a token of the role coach.
use hockey_libs.Prelude.{
  ◌≡◌, refl, ◌⊎◌, String, true, false, none, some, [], ◌∷◌, seconds, contains,
}
use hockey_libs.Errors.{Err, err}
use hockey_libs.Token.{Claims}
use hockey_libs.Token.Manager.Sample.{one_token, manager}
use hockey_libs.Grpcserver.Context.{Ctx, new_context, with_attr}
use hockey_libs.Grpcserver.Auth.{
  AuthConfig, authenticate, auth_interceptor, InternalAuthConfig, internal_auth,
  token_authenticator,
}
use hockey_libs.Grpcserver.Reply.{Reply, answer, refuse}
use hockey_libs.Grpcserver.Auth.Access.{
  Authenticated, Admitted, auth_interceptor-Authenticated, internal_auth-Admitted,
}

abbrev ctx : Ctx
ctx = record {
  metadata = some (("authorization", ("Bearer signed" ∷ [])) ∷ []);
  peer = none;
  claims = none;
  request_id = none;
  deadline = none;
  attrs = [];
}

abbrev handler : Ctx → Reply String
handler c = answer (some "done") none

abbrev auth : AuthConfig
auth = record {
  authenticate = some (token_authenticator one_token manager (seconds 500));
  public_methods = "/health" ∷ [];
  optional = false;
}

abbrev internal : InternalAuthConfig String
internal = record { manager = some manager; methods = "/sync" ∷ []; role = "coach" }

private_test : contains auth.public_methods "/teams" ≡ false
unfolding contains
private_test = refl

internal_test : contains internal.methods "/sync" ≡ true
unfolding contains
internal_test = refl

auth_interceptor-Authenticated_example :
    ((e : Err) × (auth_interceptor auth "/teams" handler ctx ≡ refuse e)
      × (authenticate ctx auth ≡ err e))
    ⊎ ((c : Ctx) × (auth_interceptor auth "/teams" handler ctx ≡ handler c)
        × Authenticated auth ctx c)
auth_interceptor-Authenticated_example =
    auth_interceptor-Authenticated auth "/teams" handler ctx refl private_test

internal_auth-Admitted_example :
    ((e : Err) × (internal_auth one_token internal (seconds 500) "/sync" handler ctx ≡ refuse e))
    ⊎ ((claims : Claims) × (internal_auth one_token internal (seconds 500) "/sync" handler ctx
          ≡ handler (with_attr (new_context ctx (some claims)) "caller_service" claims.subject))
        × Admitted one_token internal (seconds 500) ctx claims)
internal_auth-Admitted_example =
    internal_auth-Admitted one_token internal (seconds 500) "/sync" handler ctx internal_test
