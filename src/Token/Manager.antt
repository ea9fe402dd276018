-- ===== src/Token/Manager.antt =====
-- token/token.go: issuing and parsing of tokens. The JWT library, the decoding of PEM and of keys
-- are parameters.
mod Examples
pub mod Sample
pub mod RoundTrip
pub mod Keys
use hockey_libs.Prelude.{
  ℕ, String, not, ◌&&◌, Option, none, some, List, [], ◌∷◌, str_eq, Duration, Time, seconds, minutes,
  ltb, ◌+ℤ◌, is_zero, nonzero_or, if◌then◌else◌,
}
use Prim.Native.String.{len}
use hockey_libs.Errors.{plain, wrapped, joined, sentinel, Sentinel, Result, ret, err}
use hockey_libs.Token.{Claims}
use hockey_libs.Token.Jwt.{alg_hs256, alg_eddsa, Options, Parsed, Jwt}

abbrev pub type_access : String
type_access = "access"

abbrev pub min_secret_length : ℕ
min_secret_length = 32

pub record Config : Type 0 where
  pub algorithm : String
  pub secret : String
  pub private_key_pem : String
  pub public_key_pem : String
  pub issuer : String
  pub audience : List String
  pub access_ttl : Duration
  pub leeway : Duration

unfoldable pub with_defaults : Config → Config
with_defaults c = record c {
  algorithm = if str_eq c.algorithm "" then alg_hs256 else c.algorithm;
  issuer = if str_eq c.issuer "" then "hockeynights" else c.issuer;
  access_ttl = nonzero_or c.access_ttl (minutes 15);
  leeway = nonzero_or c.leeway (seconds 30);
}

pub record Manager (Key : Type 0) : Type 0 where
  pub cfg : Config
  pub method : String
  pub sign : Option Key
  pub verify : Option Key
  pub parser : Options

pub record IssueOptions : Type 0 where
  pub session_id : String
  pub roles : List String
  pub ttl : Duration
  pub id : String

-- What `Parse` makes of what the library parsed.
unfoldable pub accept : String → Parsed → Result Claims
accept expected parsed = elim parsed.failure [
  | some e ↦ err (joined (sentinel Sentinel.invalid_token) e)
  | none ↦
      if not parsed.valid
      then err (sentinel Sentinel.invalid_token)
      else if not (str_eq expected "") && not (str_eq parsed.claims.kind expected)
      then err (wrapped "token type" (sentinel Sentinel.wrong_type))
      else ret parsed.claims
]

module _ {Key Block ParsedKey : Type 0} (jwt : Jwt Key Block ParsedKey) where
  abbrev pub read_key :
      String → (Block → Result ParsedKey) → (ParsedKey → Option Key) → String → Result Key
  read_key what parse cast encoded = elim (jwt.pem_decode encoded) [
    | none ↦ err (plain "token: key is not valid PEM")
    | some block ↦ elim (parse block) [
      | err e ↦ err (wrapped what e)
      | ret parsed ↦ elim (cast parsed) [
        | none ↦ err (plain "token: key must be ed25519")
        | some key ↦ ret key
      ]
    ]
  ]

  unfoldable pub parse_ed25519_private_key : String → Result Key
  parse_ed25519_private_key = read_key "token: parse private key" jwt.parse_pkcs8 jwt.as_private

  unfoldable pub parse_ed25519_public_key : String → Result Key
  parse_ed25519_public_key = read_key "token: parse public key" jwt.parse_pkix jwt.as_public

  abbrev pub finish : Config → String → Option Key → Option Key → Manager Key
  finish cfg method sign verify = record {
    cfg = cfg;
    method = method;
    sign = sign;
    verify = verify;
    parser = record {
      methods = method ∷ [];
      issuer = cfg.issuer;
      leeway = cfg.leeway;
      audiences = cfg.audience;
    };
  }

  abbrev pub with_private : Config → Result (Option Key)
  with_private cfg =
      if str_eq cfg.private_key_pem ""
      then ret none
      else elim (parse_ed25519_private_key cfg.private_key_pem) [
        | err e ↦ err e
        | ret key ↦ ret (some key)
      ]

  -- The key that verifies: the configured one, otherwise the one of the private key.
  abbrev pub with_public : Config → Option Key → Result (Option Key)
  with_public cfg sign =
      if str_eq cfg.public_key_pem ""
      then elim sign [ none ↦ ret none | some key ↦ ret (some (jwt.public_of key)) ]
      else elim (parse_ed25519_public_key cfg.public_key_pem) [
        | err e ↦ err e
        | ret key ↦ ret (some key)
      ]

  unfoldable pub eddsa_manager : Config → Result (Manager Key)
  unfolding parse_ed25519_private_key parse_ed25519_public_key
  eddsa_manager cfg = elim (with_private cfg) [
    | err e ↦ err e
    | ret sign ↦ elim (with_public cfg sign) [
      | err e ↦ err e
      | ret none ↦ err (plain "token: EdDSA requires JWT_PRIVATE_KEY or JWT_PUBLIC_KEY")
      | ret (some verify) ↦ ret (finish cfg alg_eddsa sign (some verify))
    ]
  ]

  unfoldable pub hs256_manager : Config → Result (Manager Key)
  hs256_manager cfg =
      if ltb (len cfg.secret) min_secret_length
      then err (plain "token: HS256 secret is too short")
      else let key = some (jwt.secret_key cfg.secret) in ret (finish cfg alg_hs256 key key)

  -- `new_manager` is `NewManager`.
  unfoldable pub new_manager : Config → Result (Manager Key)
  unfolding with_defaults eddsa_manager hs256_manager
  new_manager config =
      let cfg = with_defaults config in
      if str_eq cfg.algorithm alg_hs256
      then hs256_manager cfg
      else if str_eq cfg.algorithm alg_eddsa
      then eddsa_manager cfg
      else err (plain "token: unsupported algorithm")

  -- The claims of `Issue`.
  unfoldable pub new_claims :
      Manager Key → Time → String → String → IssueOptions → Duration → Claims
  new_claims m now user_id kind opts ttl = record {
    subject = user_id;
    issuer = m.cfg.issuer;
    audience = m.cfg.audience;
    issued_at = jwt.numeric_date now;
    not_before = jwt.numeric_date now;
    expires_at = jwt.numeric_date (now +ℤ ttl);
    id = opts.id;
    kind = kind;
    session_id = opts.session_id;
    roles = opts.roles;
  }

  unfoldable pub sign_claims : Manager Key → Key → Claims → Result (String × Claims)
  sign_claims m key claims = elim (jwt.sign m.method key claims) [
    | err e ↦ err (wrapped "token: sign" e)
    | ret raw ↦ ret (raw, claims)
  ]

  -- The ttl of `Issue`, `none` where it is missing.
  abbrev pub ttl_for : Manager Key → String → IssueOptions → Option Duration
  ttl_for m kind opts =
      if not (is_zero opts.ttl)
      then some opts.ttl
      else if str_eq kind type_access
      then some m.cfg.access_ttl
      else none

  unfoldable pub issue :
      Manager Key → Time → String → String → IssueOptions → Result (String × Claims)
  unfolding new_claims sign_claims
  issue m now user_id kind opts = elim m.sign [
    | none ↦ err (plain "token: signing key is not configured")
    | some key ↦
        if str_eq user_id ""
        then err (plain "token: user id is required")
        else elim (ttl_for m kind opts) [
          | none ↦ err (plain "token: TTL is required")
          | some ttl ↦ sign_claims m key (new_claims m now user_id kind opts ttl)
        ]
  ]

  -- `Parse`; an empty `expected` stands for any type.
  unfoldable pub parse : Manager Key → Time → String → String → Result Claims
  unfolding accept
  parse m now raw expected = accept expected (jwt.parse m.parser m.verify now raw)

  unfoldable pub issue_access :
      Manager Key → Time → String → IssueOptions → Result (String × Claims)
  unfolding issue
  issue_access m now user_id opts = issue m now user_id type_access opts

  unfoldable pub parse_access : Manager Key → Time → String → Result Claims
  unfolding parse
  parse_access m now raw = parse m now raw type_access
