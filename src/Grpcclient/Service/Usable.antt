-- ===== src/Grpcclient/Service/Usable.antt =====
-- grpcclient/service.go with token/token.go: a token that the source hands out is one that the manager
-- of the same settings accepts.
use hockey_libs.Prelude.{
  ◌≡◌, refl, sym, ap, ◌∙◌, subst, ◌⊎◌, inl, inr, String, true, false, some, List, [], ◌∷◌, str_eq,
  Duration, Time, leb_ℤ, ltb_ℤ, ◌+ℤ◌, ◌-ℤ◌, +ℤ_parts, -ℤ_parts, eq_refl, arith, Bool-cases,
}
use hockey_libs.Errors.{ret-inj, ret-ne-err, Result, ret, err}
use hockey_libs.Token.{Claims}
use hockey_libs.Token.Jwt.{Jwt}
use hockey_libs.Token.Manager.{
  Config, Manager, IssueOptions, new_manager, issue_access, parse_access, type_access,
}
use hockey_libs.Token.Manager.RoundTrip.{IsUsable, issue-parse, issue_says}
use hockey_libs.Grpcserver.Auth.{role_service}
use hockey_libs.Grpcclient.Service.{
  ServiceTokenSource, new_service_token_source, issue_options, is_fresh, renewed, token, token_of,
  service_token_renew_before,
}

module _ {Key Block ParsedKey : Type 0} (jwt : Jwt Key Block ParsedKey) (m : Manager Key)
    (subject : String) where
  -- A source after some calls of `Token`, the last of which ended at `t` on a clock that never goes
  -- back.
  pub data History : ServiceTokenSource Key → Time → Type 0 where
    made : (ttl : Duration) (t : Time) → History (new_service_token_source (some m) subject ttl) t
    called :
        {s : ServiceTokenSource Key} {t : Time} (now issue_now : Time)
        → History s t
        → leb_ℤ t now ≡ true
        → leb_ℤ now issue_now ≡ true
        → History (token jwt s now issue_now).1 issue_now

  Issued : Time → String → List String → String → Time → Type 0
  Issued t user roles raw expires =
      (at : Time) × (opts : IssueOptions) × (claims : Claims) × (issue_access jwt m at user opts
        ≡ ret (raw, claims))
      × (opts.roles ≡ roles)
      × (claims.expires_at ≡ expires)
      × (leb_ℤ at t ≡ true)

  record Inv (s : ServiceTokenSource Key) (t : Time) : Type 0 where
    manager : s.manager ≡ some m
    owner : s.subject ≡ subject
    roles : s.roles ≡ role_service ∷ []
    cached : (s.cached ≡ "") ⊎ Issued t s.subject s.roles s.cached s.expires

  before_sub : (a d e : Time) → ltb_ℤ a (e -ℤ d) ≡ true → ltb_ℤ (a +ℤ d) e ≡ true
  before_sub a d e h = ground (arith, -ℤ_parts e d, +ℤ_parts a d)

  le_trans : (a b c : Time) → leb_ℤ a b ≡ true → leb_ℤ b c ≡ true → leb_ℤ a c ≡ true
  le_trans a b c h k = ground arith

  Issued-later :
      (t later : Time) (user : String) (roles : List String) (raw : String) (expires : Time)
      → leb_ℤ t later ≡ true
      → Issued t user roles raw expires
      → Issued later user roles raw expires
  unfolding Issued
  Issued-later t later user roles raw expires h (at, opts, claims, i, r, e, b) =
      (at, opts, claims, i, r, e, le_trans at t later b h)

  Inv-later :
      (s : ServiceTokenSource Key) (t later : Time) → leb_ℤ t later ≡ true → Inv s t → Inv s later
  Inv-later s t later h i = record {
    manager = i.manager;
    owner = i.owner;
    roles = i.roles;
    cached = elim i.cached [
      | inl none_yet ↦ inl none_yet
      | inr it ↦ inr (Issued-later t later s.subject s.roles s.cached s.expires h it)
    ];
  }

  leb_self : (t : Time) → leb_ℤ t t ≡ true
  leb_self t = ground arith

  renewed-Inv :
      (s : ServiceTokenSource Key) (now : Time) (r : Result (String × Claims))
      → issue_access jwt m now s.subject (issue_options s) ≡ r
      → Inv s now
      → Inv (renewed jwt s r).1 now
  unfolding Issued
  renewed-Inv s now (err e) h i = i
  renewed-Inv s now (ret (raw, claims)) h i = record {
    manager = i.manager;
    owner = i.owner;
    roles = i.roles;
    cached = inr (now, issue_options s, claims, h, refl, refl, leb_self now);
  }

  Outcome : ServiceTokenSource Key → Time → Time → Type 0
  Outcome s now issue_now =
      ((token jwt s now issue_now ≡ (ret s.cached, s)) × (is_fresh s now ≡ true))
      ⊎ (token jwt s now issue_now
          ≡ renewed jwt s (issue_access jwt m issue_now s.subject (issue_options s)))

  token-Outcome :
      (s : ServiceTokenSource Key) (now issue_now : Time)
      → s.manager ≡ some m
      → Outcome s now issue_now
  unfolding token Outcome
  token-Outcome s now issue_now h = elim (Bool-cases (is_fresh s now)) [
    | inl f ↦ inl (ap (λ o. token_of jwt o s now issue_now) h ∙ rw f refl, f)
    | inr f ↦ inr (ap (λ o. token_of jwt o s now issue_now) h ∙ rw f refl)
  ]

  token-Inv :
      (s : ServiceTokenSource Key) (t now issue_now : Time)
      → leb_ℤ t now ≡ true
      → leb_ℤ now issue_now ≡ true
      → Inv s t
      → Inv (token jwt s now issue_now).1 issue_now
  unfolding Outcome
  token-Inv s t now issue_now h k i =
      let later = Inv-later s t issue_now (le_trans t now issue_now h k) i in
      elim (token-Outcome s now issue_now i.manager) [
        | inl (e, f) ↦ subst (λ x. Inv x.1 issue_now) (sym e) later
        | inr e ↦ subst (λ x. Inv x.1 issue_now) (sym e) (renewed-Inv s issue_now _ refl later)
      ]

  History-Inv : (s : ServiceTokenSource Key) (t : Time) → History s t → Inv s t
  unfolding new_service_token_source
  History-Inv _ t (made ttl _) = record {
    manager = refl;
    owner = refl;
    roles = refl;
    cached = inl refl;
  }
  History-Inv _ _ (called {s} {t} now issue_now past h k) =
      token-Inv s t now issue_now h k (History-Inv s t past)

  -- What a good token is at an instant: the manager parses it to claims of the service.
  pub record Accepted (later : Time) (raw : String) : Type 0 where
    pub claims : Claims
    pub parses : parse_access jwt m later raw ≡ ret claims
    pub same_subject : claims.subject ≡ subject
    pub is_service : claims.roles ≡ role_service ∷ []

  module _ (config : Config) (usable : IsUsable config)
      (secret_or_private : str_eq config.public_key_pem "" ≡ true)
      (made_by : new_manager jwt config ≡ ret m) where
    Issued-Accepted :
        (t later : Time) (raw : String) (expires : Time)
        → Issued t subject (role_service ∷ []) raw expires
        → leb_ℤ t later ≡ true
        → ltb_ℤ later expires ≡ true
        → Accepted later raw
    unfolding Issued issue_access parse_access
    Issued-Accepted t later raw expires (at, opts, claims, i, r, e, b) h k =
        let (user, kind, roles) = issue_says jwt m at subject type_access opts raw claims i in
        let (parses, _) =
          issue-parse jwt config m at later subject type_access "refresh" opts raw claims usable
            secret_or_private made_by i (le_trans at t later b h) (ap (ltb_ℤ later) e ∙ k) refl
            refl in
        record { claims = claims; parses = parses; same_subject = user; is_service = roles ∙ r }

    is_fresh-parts :
        (s : ServiceTokenSource Key) (now : Time)
        → is_fresh s now ≡ true
        → (str_eq s.cached "" ≡ false)
          × (ltb_ℤ now (s.expires -ℤ service_token_renew_before) ≡ true)
    is_fresh-parts s now f = elim (Bool-cases (str_eq s.cached "")) [
      | inl e ↦ absurd (cc (rw e at f))
      | inr e ↦ (e, rw e at f)
    ]

    fresh_left :
        (s : ServiceTokenSource Key) (now : Time)
        → is_fresh s now ≡ true
        → ltb_ℤ (now +ℤ service_token_renew_before) s.expires ≡ true
    fresh_left s now f =
        before_sub now service_token_renew_before s.expires (is_fresh-parts s now f).1

    cached-Accepted :
        (s : ServiceTokenSource Key) (t later : Time)
        → Inv s t
        → is_fresh s t ≡ true
        → leb_ℤ t later ≡ true
        → ltb_ℤ later s.expires ≡ true
        → Accepted later s.cached
    cached-Accepted s t later i f h k = elim i.cached [
      | inl e ↦ absurd (cc (ap (λ c. str_eq c "") e, eq_refl "", (is_fresh-parts s t f).0))
      | inr it ↦
          let mine = subst (λ u. Issued t u s.roles s.cached s.expires) i.owner it in
          let service = subst (λ r. Issued t subject r s.cached s.expires) i.roles mine in
          Issued-Accepted t later s.cached s.expires service h k
    ]

    Made : ServiceTokenSource Key → Time → String → Type 0
    Made s t raw =
        (claims : Claims) × (issue_access jwt m t subject (issue_options s) ≡ ret (raw, claims))

    renewed-Made :
        (s : ServiceTokenSource Key) (t later : Time) (raw : String) (r : Result (String × Claims))
        → Inv s t
        → issue_access jwt m t subject (issue_options s) ≡ r
        → (renewed jwt s r).0 ≡ ret raw
        → leb_ℤ t later ≡ true
        → ltb_ℤ later (renewed jwt s r).1.expires ≡ true
        → Accepted later raw × Made s t raw
    unfolding Made Issued
    renewed-Made s t later raw (err f) i o e h k = absurd (ret-ne-err raw _ e)
    renewed-Made s t later raw (ret (got, claims)) i o e h k =
        let same = ret-inj got raw e in
        let signed = o ∙ ap (λ x. ret (x, claims)) same in
        (
          Issued-Accepted t later raw claims.expires_at
              (t, issue_options s, claims, signed, i.roles, refl, leb_self t) h k,
          (claims, signed),
        )

    issued-Accepted :
        (s : ServiceTokenSource Key) (t later : Time) (raw : String)
        → Inv s t
        → (renewed jwt s (issue_access jwt m t s.subject (issue_options s))).0 ≡ ret raw
        → leb_ℤ t later ≡ true
        → ltb_ℤ later (renewed jwt s (issue_access jwt m t s.subject (issue_options s))).1.expires
          ≡ true
        → Accepted later raw × Made s t raw
    issued-Accepted s t later raw i e h k =
        renewed-Made s t later raw (issue_access jwt m t s.subject (issue_options s)) i
          (ap (λ u. issue_access jwt m t u (issue_options s)) (sym i.owner)) e h k

    -- A source over a manager with a secret or a private key alone, a leeway that is not negative
    -- and no audiences or one that is not empty, on a clock that never goes back: a token that it hands out is accepted by the manager from then on until it expires,
    -- as one of this service with the service role alone; and the source kept it for more than 30
    -- seconds before its end, or issued it in this call.
    pub token-Accepted :
        (s : ServiceTokenSource Key) (t now issue_now later : Time) (raw : String)
        → History s t
        → leb_ℤ t now ≡ true
        → leb_ℤ now issue_now ≡ true
        → (token jwt s now issue_now).0 ≡ ret raw
        → leb_ℤ issue_now later ≡ true
        → ltb_ℤ later (token jwt s now issue_now).1.expires ≡ true
        → Accepted later raw
          × ((ltb_ℤ (now +ℤ service_token_renew_before) s.expires ≡ true)
              ⊎ ((claims : Claims) × (issue_access jwt m issue_now subject (issue_options s)
                    ≡ ret (raw, claims))))
    unfolding Outcome Made
    token-Accepted s t now issue_now later raw past h k e l x =
        let i = Inv-later s t now h (History-Inv s t past) in
        elim (token-Outcome s now issue_now i.manager) [
          | inl (o, f) ↦
              let good =
                cached-Accepted s now later i f (le_trans now issue_now later k l)
                  (sym (ap (λ p. ltb_ℤ later p.1.expires) o) ∙ x) in
              (
                subst (Accepted later) (ret-inj s.cached raw (sym (ap (λ p. p.0) o) ∙ e)) good,
                inl (fresh_left s now f),
              )
          | inr o ↦
              let (good, anew) =
                issued-Accepted s issue_now later raw (Inv-later s now issue_now k i)
                  (sym (ap (λ p. p.0) o) ∙ e) l (sym (ap (λ p. ltb_ℤ later p.1.expires) o) ∙ x) in
              (good, inr anew)
        ]
