-- ===== src/Token/Manager/RoundTrip.antt =====
-- token/token.go: a token that a manager issues is one that it accepts.
use hockey_libs.Prelude.{
  ◌≡◌, ltb, refl, ap, ◌∙◌, sym, subst, String, true, false, Option, none, some, [], ◌∷◌, str_eq,
  Duration, Time, leb_ℤ, ltb_ℤ, ◌+ℤ◌, ◌-ℤ◌, +ℤ_parts, -ℤ_parts, pos, nonzero_or, seconds,
  Bool-cases, Option-cases, inl, inr, arith, eq_refl, contains, if◌then◌else◌, not, ◌&&◌,
}
use Prim.Native.String.{len}
use hockey_libs.Errors.{Result-cases, ret-inj, ret-ne-err, ret, err, wrapped, sentinel, Sentinel}
use hockey_libs.Token.{Claims}
use hockey_libs.Token.Jwt.{Accepted, IsNamed, Jwt, alg_hs256, alg_eddsa}
use hockey_libs.Token.Manager.{
  Config, with_defaults, Manager, IssueOptions, new_manager, hs256_manager, min_secret_length,
  eddsa_manager, with_private, finish, issue, accept, parse, new_claims, sign_claims, ttl_for,
}

pub some-inj : {A : Type 0} (x y : A) → some x ≡ some y → x ≡ y
some-inj x y e = cc

-- Settings with which a manager can accept its own tokens: a leeway that is not negative, where 0
-- stands for the default, and no audiences or one that is not empty.
pub record IsUsable (c : Config) : Type 0 where
  pub leeway : leb_ℤ (pos 0) c.leeway ≡ true
  pub named : IsNamed c.audience

nonzero_or-le :
    (d : Duration) → leb_ℤ (pos 0) d ≡ true → leb_ℤ (pos 0) (nonzero_or d (seconds 30)) ≡ true
nonzero_or-le d h = ground arith

pub with_defaults-IsUsable : (c : Config) → IsUsable c → IsUsable (with_defaults c)
unfolding with_defaults
with_defaults-IsUsable c u = record { leeway = nonzero_or-le c.leeway u.leeway; named = u.named }

begun_early : (a b d : Time) → leb_ℤ a b ≡ true → leb_ℤ (pos 0) d ≡ true → leb_ℤ (a -ℤ d) b ≡ true
begun_early a b d h k = ground (arith, -ℤ_parts a d)

running_late : (a b d : Time) → ltb_ℤ a b ≡ true → leb_ℤ (pos 0) d ≡ true → ltb_ℤ a (b +ℤ d) ≡ true
running_late a b d h k = ground (arith, +ℤ_parts b d)

le_trans_ℤ : (a b c : Time) → leb_ℤ a b ≡ true → leb_ℤ b c ≡ true → leb_ℤ a c ≡ true
le_trans_ℤ a b c h k = ground arith

module _ {Key Block ParsedKey : Type 0} (jwt : Jwt Key Block ParsedKey) where
  -- A manager expects of a token what it puts into its own, and verifies what it signs.
  pub record Sound (m : Manager Key) : Type 0 where
    pub methods : m.parser.methods ≡ m.method ∷ []
    pub issuer : m.parser.issuer ≡ m.cfg.issuer
    pub audiences : m.parser.audiences ≡ m.cfg.audience
    pub named : IsNamed m.cfg.audience
    pub leeway : leb_ℤ (pos 0) m.parser.leeway ≡ true
    pub keys :
        (s : Key) → m.sign ≡ some s → (v : Key) × (m.verify ≡ some v) × jwt.Matches m.method s v

  pub finish-Sound :
      (cfg : Config) (alg : String) (sign : Option Key) (v : Key)
      → IsUsable cfg
      → ((s : Key) → sign ≡ some s → jwt.Matches alg s v)
      → Sound (finish jwt cfg alg sign (some v))
  finish-Sound cfg alg sign v u k = record {
    methods = refl;
    issuer = refl;
    audiences = refl;
    named = u.named;
    leeway = u.leeway;
    keys = λ s e. (v, refl, k s e);
  }

  hs256_manager-Sound :
      (cfg : Config) (m : Manager Key) → IsUsable cfg → hs256_manager jwt cfg ≡ ret m → Sound m
  unfolding hs256_manager
  hs256_manager-Sound cfg m u h = elim (Bool-cases (ltb (len cfg.secret) min_secret_length)) [
    | inl t ↦ absurd (ret-ne-err m _ (rw (hs256_manager, t) at h))
    | inr t ↦
        let key = jwt.secret_key cfg.secret in
        subst Sound (ret-inj _ m (rw (hs256_manager, t) at h)) (
          finish-Sound cfg alg_hs256 (some key) key u (λ s e.
            subst (λ x. jwt.Matches alg_hs256 x key) (some-inj key s e)
              (jwt.secret_matches cfg.secret)))
  ]

  eddsa_manager-Sound :
      (cfg : Config) (m : Manager Key)
      → IsUsable cfg
      → str_eq cfg.public_key_pem "" ≡ true
      → eddsa_manager jwt cfg ≡ ret m
      → Sound m
  unfolding eddsa_manager
  eddsa_manager-Sound cfg m u p h = elim (Result-cases (with_private jwt cfg)) [
    | inl (e, t) ↦ absurd (ret-ne-err m e (rw (eddsa_manager, t) at h))
    | inr (none, t) ↦ absurd (ret-ne-err m _ (rw (eddsa_manager, t, p) at h))
    | inr (some key, t) ↦ subst Sound (ret-inj _ m (rw (eddsa_manager, t, p) at h)) (
        finish-Sound cfg alg_eddsa (some key) (jwt.public_of key) u (λ s e.
          subst (λ x. jwt.Matches alg_eddsa x (jwt.public_of key)) (some-inj key s e)
            (jwt.public_matches key)))
  ]

  new_manager-Sound :
      (config : Config) (m : Manager Key)
      → IsUsable config
      → str_eq config.public_key_pem "" ≡ true
      → new_manager jwt config ≡ ret m
      → Sound m
  unfolding new_manager with_defaults
  new_manager-Sound config m usable p h =
      let all = with_defaults-IsUsable config usable in
      elim (Bool-cases (str_eq (with_defaults config).algorithm alg_hs256)) [
        | inl t ↦ hs256_manager-Sound (with_defaults config) m all (rw (new_manager, t) at h)
        | inr t ↦ elim (Bool-cases (str_eq (with_defaults config).algorithm alg_eddsa)) [
          | inl u ↦ eddsa_manager-Sound (with_defaults config) m all p (rw (new_manager, t, u) at h)
          | inr u ↦ absurd (ret-ne-err m _ (rw (new_manager, t, u) at h))
        ]
      ]

  pub new_claims-Accepted :
      (m : Manager Key) (now later : Time) (user kind : String) (opts : IssueOptions)
      (ttl : Duration)
      → Sound m
      → leb_ℤ now later ≡ true
      → ltb_ℤ later (jwt.numeric_date (now +ℤ ttl)) ≡ true
      → Accepted m.parser m.method later (new_claims jwt m now user kind opts ttl)
  unfolding new_claims contains
  new_claims-Accepted m now later user kind opts ttl s begun running = record {
    method = rw (s.methods) (rw (eq_refl m.method) refl);
    issuer = sym s.issuer;
    audiences = λ a e. rw s.audiences at e;
    named = s.named;
    begun =
        begun_early (jwt.numeric_date now) later m.parser.leeway
          (le_trans_ℤ (jwt.numeric_date now) now later (jwt.numeric_date_le now) begun) s.leeway;
    running = running_late later (jwt.numeric_date (now +ℤ ttl)) m.parser.leeway running s.leeway;
  }

  sign_claims_inv :
      (m : Manager Key) (s : Key) (c claims : Claims) (raw : String)
      → sign_claims jwt m s c ≡ ret (raw, claims)
      → (jwt.sign m.method s c ≡ ret raw) × (c ≡ claims)
  unfolding sign_claims
  sign_claims_inv m s c claims raw h = elim (Result-cases (jwt.sign m.method s c)) [
    | inl (e, t) ↦ absurd (ret-ne-err (raw, claims) _ (rw (sign_claims, t) at h))
    | inr (r, t) ↦
        let same = ret-inj (r, c) (raw, claims) (rw (sign_claims, t) at h) in
        (t ∙ ap (λ x. ret x.0) same, ap (λ x. x.1) same)
  ]

  -- A token was signed with the manager's key, over the claims for some time to live.
  abbrev pub Signed : Manager Key → Time → String → String → IssueOptions → String → Claims → Type 0
  Signed m now user kind opts raw claims =
      (s : Key) × (ttl : Duration) × (m.sign ≡ some s)
      × (jwt.sign m.method s (new_claims jwt m now user kind opts ttl) ≡ ret raw)
      × (new_claims jwt m now user kind opts ttl ≡ claims)

  pub issue-Signed :
      (m : Manager Key) (now : Time) (user kind : String) (opts : IssueOptions) (raw : String)
      (claims : Claims)
      → issue jwt m now user kind opts ≡ ret (raw, claims)
      → Signed m now user kind opts raw claims
  unfolding issue
  issue-Signed m now user kind opts raw claims h = elim (Option-cases m.sign) [
    | inl n ↦ absurd (ret-ne-err (raw, claims) _ (rw (issue, n) at h))
    | inr (s, n) ↦ elim (Bool-cases (str_eq user "")) [
      | inl u ↦ absurd (ret-ne-err (raw, claims) _ (rw (issue, n, u) at h))
      | inr u ↦ elim (Option-cases (ttl_for jwt m kind opts)) [
        | inl t ↦ absurd (ret-ne-err (raw, claims) _ (rw (issue, n, u, t) at h))
        | inr (ttl, t) ↦
            let (signed, same) =
              sign_claims_inv m s (new_claims jwt m now user kind opts ttl) claims raw
                (rw (issue, n, u, t) at h) in
            (s, ttl, n, signed, same)
      ]
    ]
  ]

  -- What an issued token says.
  pub issue_says :
      (m : Manager Key) (now : Time) (user kind : String) (opts : IssueOptions) (raw : String)
      (claims : Claims)
      → issue jwt m now user kind opts ≡ ret (raw, claims)
      → (claims.subject ≡ user) × (claims.kind ≡ kind) × (claims.roles ≡ opts.roles)
  unfolding new_claims
  issue_says m now user kind opts raw claims h =
      let (s, ttl, n, signed, same) = issue-Signed m now user kind opts raw claims h in
      (ap (λ c. c.subject) (sym same), ap (λ c. c.kind) (sym same), ap (λ c. c.roles) (sym same))

  pub parse_accepted :
      (m : Manager Key) (v : Key) (now : Time) (raw expected : String) (c : Claims)
      → m.verify ≡ some v
      → jwt.parse m.parser (some v) now raw ≡ (record { claims = c; valid = true; failure = none })
      → parse jwt m now raw expected ≡ (
          if not (str_eq expected "") && not (str_eq c.kind expected)
          then err (wrapped "token type" (sentinel Sentinel.wrong_type))
          else ret c)
  unfolding parse
  parse_accepted m v now raw expected c e h =
      ap (λ k. accept expected (jwt.parse m.parser k now raw)) e ∙ ap (accept expected) h

  -- Until it expires, a token that a manager issued is parsed by that manager to the same claims, and
  -- for any other type than its own it is refused as a token of the wrong type. The manager's keys are
  -- a secret or a private key alone, since with a public key besides the two need not belong
  -- together; its leeway is not negative, and it has no audiences or one that is not empty.
  pub issue-parse :
      (config : Config) (m : Manager Key) (now later : Time) (user kind other : String)
      (opts : IssueOptions) (raw : String) (claims : Claims)
      → IsUsable config
      → str_eq config.public_key_pem "" ≡ true
      → new_manager jwt config ≡ ret m
      → issue jwt m now user kind opts ≡ ret (raw, claims)
      → leb_ℤ now later ≡ true
      → ltb_ℤ later claims.expires_at ≡ true
      → str_eq other "" ≡ false
      → str_eq kind other ≡ false
      → (parse jwt m later raw kind ≡ ret claims)
        × (parse jwt m later raw other ≡ err (wrapped "token type" (sentinel Sentinel.wrong_type)))
  unfolding parse new_claims
  issue-parse config m now later user kind other opts raw claims usable p hm h begun running o d =
      let sound = new_manager-Sound config m usable p hm in
      let (s, ttl, key, signed, same) = issue-Signed m now user kind opts raw claims h in
      let (v, verify, matches) = sound.keys s key in
      let accepted =
        new_claims-Accepted m now later user kind opts ttl sound begun
          (ap (λ c. ltb_ℤ later c.expires_at) same ∙ running) in
      let parsed = jwt.parse-sign m.parser m.method s v later _ raw signed matches accepted in
      let answer = λ (expected : String). parse_accepted m v later raw expected _ verify parsed in
      (
        answer kind ∙ (rw (eq_refl kind) (ground (arith, ap ret same))),
        answer other ∙ (rw (o, d) refl),
      )
