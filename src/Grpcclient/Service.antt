-- ===== src/Grpcclient/Service.antt =====
-- grpcclient/service.go: the token by which a service calls others, made anew shortly before it
-- expires. The mutex makes the calls of `Token` follow one another.
pub mod Usable
mod Examples
use hockey_libs.Prelude.{
  ◌≡◌, String, Bool, true, false, not, ◌&&◌, Option, none, some, List, [], ◌∷◌, ◌++◌, str_eq,
  concat, Duration, Time, seconds, minutes, pos, leb_ℤ, ltb_ℤ, ◌-ℤ◌, if◌then◌else◌,
}
use hockey_libs.Errors.{Err, plain, wrapped, Result, ret, err}
use hockey_libs.Token.{Claims}
use hockey_libs.Token.Jwt.{Jwt}
use hockey_libs.Token.Manager.{Manager, IssueOptions, issue_access}
use hockey_libs.Grpcserver.Auth.{role_service, authorization_key}
use hockey_libs.Grpcclient.Token.{CallCtx}

abbrev pub default_service_token_ttl : Duration
default_service_token_ttl = minutes 5

abbrev pub service_token_renew_before : Duration
service_token_renew_before = seconds 30

-- A nil source is one without a manager.
pub record ServiceTokenSource (Key : Type 0) : Type 0 where
  pub manager : Option (Manager Key)
  pub subject : String
  pub ttl : Duration
  pub roles : List String
  pub cached : String
  pub expires : Time

-- `NewServiceTokenSource`. Nothing is read of `expires` while `cached` is empty.
unfoldable pub new_service_token_source :
    {Key : Type 0} → Option (Manager Key) → String → Duration → ServiceTokenSource Key
new_service_token_source manager subject ttl = record {
  manager = manager;
  subject = subject;
  ttl = if leb_ℤ ttl (pos 0) then default_service_token_ttl else ttl;
  roles = role_service ∷ [];
  cached = "";
  expires = pos 0;
}

abbrev pub issue_options : {Key : Type 0} → ServiceTokenSource Key → IssueOptions
issue_options s = record { session_id = ""; roles = s.roles; ttl = s.ttl; id = "" }

-- The cached token is still good enough.
abbrev pub is_fresh : {Key : Type 0} → ServiceTokenSource Key → Time → Bool
is_fresh s now = not (str_eq s.cached "") && ltb_ℤ now (s.expires -ℤ service_token_renew_before)

-- The outgoing metadata with the values of a key replaced by one, as `MD.Set` does.
unfoldable pub without : String → List (String × String) → List (String × String)
without key [] = []
without key ((k, v) ∷ rest) =
    let others = without key rest in if str_eq k key then others else (k, v) ∷ others

module _ {Key Block ParsedKey : Type 0} (jwt : Jwt Key Block ParsedKey) where
  abbrev pub renewed :
      ServiceTokenSource Key → Result (String × Claims) → Result String × ServiceTokenSource Key
  renewed s (err e) = (err (wrapped "grpcclient: issue service token" e), s)
  renewed s (ret (raw, claims)) = (ret raw, record s { cached = raw; expires = claims.expires_at })

  abbrev pub token_of :
      Option (Manager Key)
      → ServiceTokenSource Key
      → Time
      → Time
      → Result String × ServiceTokenSource Key
  token_of none s now issue_now =
      (err (plain "grpcclient: service token source is not configured"), s)
  token_of (some m) s now issue_now =
      if is_fresh s now
      then (ret s.cached, s)
      else renewed s (issue_access jwt m issue_now s.subject (issue_options s))

  -- `Token`; the clock is read a second time, by the manager, when a token is issued.
  unfoldable pub token :
      ServiceTokenSource Key → Time → Time → Result String × ServiceTokenSource Key
  unfolding issue_access
  token s now issue_now = token_of s.manager s now issue_now

  -- `ServiceTokenUnaryInterceptor`, with the source after the call.
  unfoldable pub service_token :
      {R : Type 0}
      → ServiceTokenSource Key
      → Time
      → Time
      → (CallCtx → Result R)
      → CallCtx
      → Result R × ServiceTokenSource Key
  unfolding token without
  service_token s now issue_now invoker ctx =
      let (got, s') = token s now issue_now in
      elim got [
        | err e ↦ (err e, s')
        | ret raw ↦ (
          invoker (record ctx {
            outgoing =
                without authorization_key ctx.outgoing
                ++ (authorization_key, concat ("Bearer " ∷ raw ∷ [])) ∷ [];
          }),
          s',
        )
      ]
