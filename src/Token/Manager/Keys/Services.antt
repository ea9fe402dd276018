-- ===== src/Token/Manager/Keys/Services.antt =====
-- token/token.go: two services that share generated keys: one holds the private key and issues
-- tokens, the other holds the public key and accepts them.
use hockey_libs.Prelude.{
  ◌≡◌, ◌≢◌, refl, ap, ◌∙◌, sym, subst, String, true, false, none, some, str_eq, Time, leb_ℤ, ltb_ℤ,
  arith, eq_refl,
}
use hockey_libs.Errors.{ret-inj, ret, err, plain}
use hockey_libs.Token.{Claims}
use hockey_libs.Token.Jwt.{Jwt, alg_eddsa}
use hockey_libs.Token.Manager.{
  Config, with_defaults, Manager, IssueOptions, new_manager, eddsa_manager, finish, issue, parse,
  new_claims, parse_ed25519_private_key, parse_ed25519_public_key, with_private, with_public,
}
use hockey_libs.Token.Manager.RoundTrip.{
  some-inj, IsUsable, with_defaults-IsUsable, Sound, finish-Sound, new_claims-Accepted,
  issue-Signed, parse_accepted,
}
use hockey_libs.Token.Manager.Keys.{KeyMaker, generate_ed25519_keys, generate-Pair}

-- The settings of the two services: those of `base`, with one key each.
abbrev pub issuing : Config → String → Config
issuing base pem = record base { algorithm = alg_eddsa; private_key_pem = pem; public_key_pem = "" }

abbrev pub accepting : Config → String → Config
accepting base pem = record base {
  algorithm = alg_eddsa;
  private_key_pem = "";
  public_key_pem = pem;
}

module _ {Key Block ParsedKey : Type 0} (jwt : Jwt Key Block ParsedKey) where
  issuing_manager :
      (base : Config) (pem : String) (private : Key)
      → str_eq pem "" ≡ false
      → parse_ed25519_private_key jwt pem ≡ ret private
      → new_manager jwt (issuing base pem)
        ≡ ret (
            finish jwt
              (with_defaults (issuing base pem))
              alg_eddsa
              (some private)
              (some (jwt.public_of private)))
  unfolding new_manager with_defaults eddsa_manager
  issuing_manager base pem private n h = rw (n, h, new_manager, eddsa_manager, with_private) refl

  accepting_manager :
      (base : Config) (pem : String) (public : Key)
      → str_eq pem "" ≡ false
      → parse_ed25519_public_key jwt pem ≡ ret public
      → new_manager jwt (accepting base pem)
        ≡ ret (finish jwt (with_defaults (accepting base pem)) alg_eddsa none (some public))
  unfolding new_manager with_defaults eddsa_manager
  accepting_manager base pem public n h = rw (n, h, new_manager, eddsa_manager, with_public) refl

  issuer_of : Config → String → Key → Manager Key
  issuer_of base pem private =
      finish jwt (with_defaults (issuing base pem)) alg_eddsa (some private)
        (some (jwt.public_of private))

  acceptor_of : Config → String → Key → Manager Key
  acceptor_of base pem private =
      finish jwt (with_defaults (accepting base pem)) alg_eddsa none (some (jwt.public_of private))

  issuer_of-Sound :
      (base : Config) (pem : String) (private : Key)
      → IsUsable base
      → Sound jwt (issuer_of base pem private)
  unfolding issuer_of
  issuer_of-Sound base pem private u =
      let usable : IsUsable (issuing base pem) = record { leeway = u.leeway; named = u.named } in
      finish-Sound jwt _ alg_eddsa (some private) (jwt.public_of private)
        (with_defaults-IsUsable (issuing base pem) usable)
        (λ s e.
          subst (λ x. jwt.Matches alg_eddsa x (jwt.public_of private)) (some-inj private s e)
            (jwt.public_matches private))

  crossed :
      (base : Config) (private_pem public_pem : String) (private : Key) (now later : Time)
      (user kind : String) (opts : IssueOptions) (raw : String) (claims : Claims)
      → IsUsable base
      → issue jwt (issuer_of base private_pem private) now user kind opts ≡ ret (raw, claims)
      → leb_ℤ now later ≡ true
      → ltb_ℤ later claims.expires_at ≡ true
      → parse jwt (acceptor_of base public_pem private) later raw kind ≡ ret claims
  unfolding issuer_of acceptor_of with_defaults new_claims
  crossed base private_pem public_pem private now later user kind opts raw claims u h begun
        running =
      let m = issuer_of base private_pem private in
      let v = acceptor_of base public_pem private in
      let (s, ttl, key, signed, same) = issue-Signed jwt m now user kind opts raw claims h in
      let accepted =
        new_claims-Accepted jwt m now later user kind opts ttl
          (issuer_of-Sound base private_pem private u) begun
          (ap (λ c. ltb_ℤ later c.expires_at) same ∙ running) in
      let matches =
        subst (λ x. jwt.Matches alg_eddsa x (jwt.public_of private)) (some-inj private s key)
          (jwt.public_matches private) in
      let parsed =
        jwt.parse-sign v.parser alg_eddsa s (jwt.public_of private) later _ raw signed matches
          accepted in
      parse_accepted jwt v (jwt.public_of private) later raw kind _ refl parsed
      ∙ (rw (eq_refl kind) (ground (arith, ap ret same)))

module _ {Key Block ParsedKey Bytes : Type 0} {jwt : Jwt Key Block ParsedKey}
    (keys : KeyMaker Bytes jwt) where
  -- Of two services with generated keys and the same settings otherwise, the one with the public
  -- key accepts, until it expires, every token that the one with the private key issued, with the
  -- claims that were issued; if their leeway is not negative, and they have no audiences or one that
  -- is not empty.
  pub generated-parse :
      (base : Config) (private_pem public_pem : String) (m v : Manager Key) (now later : Time)
      (user kind : String) (opts : IssueOptions) (raw : String) (claims : Claims)
      → IsUsable base
      → generate_ed25519_keys keys ≡ ret (private_pem, public_pem)
      → new_manager jwt (issuing base private_pem) ≡ ret m
      → new_manager jwt (accepting base public_pem) ≡ ret v
      → issue jwt m now user kind opts ≡ ret (raw, claims)
      → leb_ℤ now later ≡ true
      → ltb_ℤ later claims.expires_at ≡ true
      → parse jwt v later raw kind ≡ ret claims
  unfolding issuer_of acceptor_of
  generated-parse base private_pem public_pem m v now later user kind opts raw claims u g hm hv h
        begun running =
      let (private, n, n', read, read') = generate-Pair keys private_pem public_pem g in
      let m' =
        ret-inj (issuer_of jwt base private_pem private) m
          (sym (issuing_manager jwt base private_pem private n read) ∙ hm) in
      let v' =
        ret-inj (acceptor_of jwt base public_pem private) v
          (sym (accepting_manager jwt base public_pem (jwt.public_of private) n' read') ∙ hv) in
      subst (λ x. parse jwt x later raw kind ≡ ret claims) v'
        (crossed jwt base private_pem public_pem private now later user kind opts raw claims u
          (subst (λ x. issue jwt x now user kind opts ≡ ret (raw, claims)) (sym m') h) begun
          running)

  -- Generated keys make two managers: one that can sign, and one that only verifies and refuses to
  -- issue any token.
  pub generated_managers :
      (base : Config) (private_pem public_pem : String) (now : Time) (user kind : String)
      (opts : IssueOptions)
      → generate_ed25519_keys keys ≡ ret (private_pem, public_pem)
      → (m v : Manager Key) × (new_manager jwt (issuing base private_pem) ≡ ret m)
        × (new_manager jwt (accepting base public_pem) ≡ ret v)
        × (m.sign ≢ none)
        × (issue jwt v now user kind opts ≡ err (plain "token: signing key is not configured"))
  unfolding issuer_of acceptor_of issue
  generated_managers base private_pem public_pem now user kind opts g =
      let (private, n, n', read, read') = generate-Pair keys private_pem public_pem g in
      (
        issuer_of jwt base private_pem private,
        acceptor_of jwt base public_pem private,
        issuing_manager jwt base private_pem private n read,
        accepting_manager jwt base public_pem (jwt.public_of private) n' read',
        (λ e. cc),
        refl,
      )
