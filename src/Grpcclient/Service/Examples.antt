-- ===== src/Grpcclient/Service/Examples.antt =====
-- A source over a library that signs the claims of one service token.
use hockey_libs.Prelude.{◌≡◌, refl, ap, ◌⊎◌, String, true, some, [], ◌∷◌, seconds, ltb_ℤ, ◌+ℤ◌, pos}
use hockey_libs.Errors.{ret}
use hockey_libs.Token.{Claims}
use hockey_libs.Token.Jwt.{Jwt}
use hockey_libs.Token.Manager.{
  issue, issue_access, new_manager, hs256_manager, with_defaults, new_claims, sign_claims,
}
use hockey_libs.Token.Manager.Sample.{
  config, config-IsUsable, manager, token_of, signed_if_self, Claims-discrete,
}
use hockey_libs.Grpcclient.Service.{
  ServiceTokenSource, new_service_token_source, issue_options, token, service_token_renew_before,
}
use hockey_libs.Grpcclient.Service.Usable.{History, made, Accepted, token-Accepted}

abbrev service_claims : Claims
service_claims = record {
  subject = "teams";
  issuer = "hockeynights";
  audience = "web" ∷ [];
  issued_at = seconds 100;
  not_before = seconds 100;
  expires_at = seconds 400;
  id = "";
  kind = "access";
  session_id = "";
  roles = "service" ∷ [];
}

abbrev library : Jwt String String String
library = token_of service_claims

abbrev source : ServiceTokenSource String
unfolding new_service_token_source
source = new_service_token_source (some manager) "teams" (pos 0)

signs_test :
    sign_claims library manager config.secret service_claims ≡ ret ("signed", service_claims)
unfolding sign_claims
signs_test =
    rw (sign_claims, signed_if_self service_claims (Claims-discrete service_claims service_claims))
      refl

issue_test :
    issue_access library manager (seconds 100) "teams" (issue_options source)
    ≡ ret ("signed", service_claims)
unfolding issue_access issue new_claims with_defaults ◌+ℤ◌ source
issue_test = signs_test

manager_test : new_manager library config ≡ ret manager
unfolding new_manager hs256_manager with_defaults
manager_test = refl

token_test :
    token library source (seconds 99) (seconds 100)
    ≡ (ret "signed", record source { cached = "signed"; expires = seconds 400 })
unfolding token source
token_test = rw (token, issue_test) refl

source_made : History library manager "teams" source (seconds 0)
unfolding source
source_made = made (pos 0) (seconds 0)

token-Accepted_example :
    Accepted library manager "teams" (seconds 300) "signed"
    × ((ltb_ℤ (seconds 99 +ℤ service_token_renew_before) source.expires ≡ true)
        ⊎ ((claims : Claims) × (issue_access library manager
                (seconds 100)
                "teams"
                (issue_options source)
              ≡ ret ("signed", claims))))
token-Accepted_example =
    token-Accepted library manager "teams" config config-IsUsable refl manager_test source
      (seconds 0) (seconds 99) (seconds 100) (seconds 300) "signed" source_made refl refl
      (ap (λ p. p.0) token_test) refl (ap (λ p. ltb_ℤ (seconds 300) p.1.expires) token_test)
