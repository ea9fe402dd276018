-- ===== src/Token/Manager/Sample.antt =====
-- token/token.go: a library that signs one token, and a manager over it.
use hockey_libs.Prelude.{
  ◌≡◌, refl, String, Bool, true, false, Option, none, some, [], ◌∷◌, pos, ◌+ℤ◌, Time, seconds,
  leb_ℤ, Bool-cases, inl, inr, str_eq, eq_iff, contains, ℕ_discrete, arith,
}
use hockey_libs.Errors.{plain, Result, ret, err}
use hockey_libs.Token.{Claims}
use hockey_libs.Token.Jwt.{Options, Parsed, Accepted, Jwt}
use hockey_libs.Token.Manager.RoundTrip.{IsUsable}
use hockey_libs.Token.Manager.{
  Config, Manager, IssueOptions, new_manager, issue, with_defaults, hs256_manager, new_claims,
  sign_claims,
}

abbrev pub issued : Claims
issued = record {
  subject = "u1";
  issuer = "hockeynights";
  audience = "web" ∷ [];
  issued_at = seconds 100;
  not_before = seconds 100;
  expires_at = seconds 1000;
  id = "";
  kind = "access";
  session_id = "s1";
  roles = "coach" ∷ [];
}

clash : (b : Bool) → b ≡ true → b ≡ false → ⊥
clash b h k = cc

-- Texts are compared by `==`.
string_discrete : Discrete String
string_discrete s t = elim (Bool-cases (str_eq s t)) [
  | inl e ↦ yes ((eq_iff s t).0 e)
  | inr e ↦ no (λ p. clash (str_eq s t) ((eq_iff s t).1 p) e)
]

pub Claims-discrete : Discrete Claims
Claims-discrete = hlevel (string_discrete, ℕ_discrete)

abbrev pub signed_if : {c d : Claims} → Dec (c ≡ d) → Result String
signed_if (yes e) = ret "signed"
signed_if (no n) = err (plain "other claims")

signed_if-ret : (c d : Claims) (e : Dec (c ≡ d)) (raw : String) → signed_if e ≡ ret raw → c ≡ d
signed_if-ret c d (yes e) raw h = e
signed_if-ret c d (no n) raw h = cc

abbrev sign_only : Claims → String → String → Claims → Result String
sign_only only alg key c = signed_if (Claims-discrete c only)

abbrev parse_only : Claims → Options → Option String → Time → String → Parsed
parse_only only o key now raw = record { claims = only; valid = true; failure = none }

pub parse-sign_only :
    (only : Claims) (o : Options) (alg : String) (s v : String) (now : Time) (c : Claims)
    (raw : String)
    → sign_only only alg s c ≡ ret raw
    → s ≡ v
    → Accepted o alg now c
    → parse_only only o (some v) now raw ≡ (record { claims = c; valid = true; failure = none })
parse-sign_only only o alg s v now c raw h m a =
    rw (signed_if-ret c only (Claims-discrete c only) raw h) refl

pub leb_refl : (t : Time) → leb_ℤ t t ≡ true
leb_refl t = ground arith

-- A library that signs and parses these claims only.
abbrev pub token_of : Claims → Jwt String String String
token_of only = record {
  secret_key = λ s. s;
  pem_decode = λ s. some s;
  parse_pkcs8 = λ s. ret s;
  parse_pkix = λ s. ret s;
  as_private = λ s. some s;
  as_public = λ s. some s;
  public_of = λ s. s;
  numeric_date = λ t. t;
  sign = sign_only only;
  parse = parse_only only;
  Matches = λ alg s v. s ≡ v;
  secret_matches = λ s. refl;
  public_matches = λ s. refl;
  numeric_date_le = leb_refl;
  parse-sign = parse-sign_only only;
}

abbrev pub one_token : Jwt String String String
one_token = token_of issued

abbrev pub config : Config
config = record {
  algorithm = "";
  secret = "0123456789abcdef0123456789abcdef";
  private_key_pem = "";
  public_key_pem = "";
  issuer = "";
  audience = "web" ∷ [];
  access_ttl = pos 0;
  leeway = pos 0;
}

pub config-IsUsable : IsUsable config
unfolding contains
config-IsUsable = record { leeway = refl; named = inr ("web", refl, refl) }

abbrev pub manager : Manager String
manager = record {
  cfg = with_defaults config;
  method = "HS256";
  sign = some config.secret;
  verify = some config.secret;
  parser = record {
    methods = "HS256" ∷ [];
    issuer = "hockeynights";
    leeway = seconds 30;
    audiences = "web" ∷ [];
  };
}

pub new_manager_test : new_manager one_token config ≡ ret manager
unfolding new_manager hs256_manager with_defaults
new_manager_test = refl

abbrev pub opts : IssueOptions
opts = record { session_id = "s1"; roles = "coach" ∷ []; ttl = pos 0; id = "" }

pub signed_if_self : (c : Claims) (d : Dec (c ≡ c)) → signed_if d ≡ ret "signed"
signed_if_self c (yes e) = refl
signed_if_self c (no n) = absurd (n refl)

signs_test : sign_claims one_token manager config.secret issued ≡ ret ("signed", issued)
unfolding sign_claims
signs_test = rw (sign_claims, signed_if_self issued (Claims-discrete issued issued)) refl

pub issue_test : issue one_token manager (seconds 100) "u1" "access" opts ≡ ret ("signed", issued)
unfolding issue new_claims with_defaults ◌+ℤ◌
issue_test = signs_test
