-- ===== src/Token/Manager/Examples.antt =====
-- token/token.go: the round trip of a token.
use Prim.Native.Char.{Char}
use hockey_libs.Prelude.{
  Bool, true, false, Bool-cases, inl, inr, eq_iff, str_eq, sym, ap, ◌∙◌, ◌+ℤ◌, ◌≡◌, refl, seconds,
  String, none, some, String,
}
use hockey_libs.Errors.{ret-inj, ret, err, wrapped, sentinel, Sentinel}
use hockey_libs.Token.Jwt.{Jwt, alg_eddsa}
use hockey_libs.Token.Manager.{
  Manager, with_defaults, new_manager, eddsa_manager, finish, issue, parse, new_claims, sign_claims,
  parse_ed25519_private_key, parse_ed25519_public_key,
}
use hockey_libs.Token.Manager.Keys.{KeyMaker, generate_ed25519_keys}
use hockey_libs.Token.Manager.Keys.Services.{issuing, accepting, generated-parse}
use hockey_libs.Token.Manager.RoundTrip.{issue-parse}
use hockey_libs.Token.Manager.Sample.{
  one_token, config, config-IsUsable, manager, opts, issued, new_manager_test, issue_test,
  signed_if_self, Claims-discrete,
}

issue-parse_example :
    (parse one_token manager (seconds 500) "signed" "access" ≡ ret issued)
    × (parse one_token manager (seconds 500) "signed" "refresh"
        ≡ err (wrapped "token type" (sentinel Sentinel.wrong_type)))
issue-parse_example =
    issue-parse one_token config manager (seconds 100) (seconds 500) "u1" "access" "refresh" opts
      "signed" issued config-IsUsable refl new_manager_test issue_test refl refl refl refl

-- PEM as one character before the bytes.
abbrev body : String → String
body String.[] = ""
body (String.◌∷◌ c s) = s

starts : String → Bool
starts String.[] = false
starts (String.◌∷◌ c s) = true

cons_ne_empty : (c : Char) (s : String) → str_eq (String.◌∷◌ c s) "" ≡ false
unfolding starts
cons_ne_empty c s = elim (Bool-cases (str_eq (String.◌∷◌ c s) "")) [
  | inl e ↦ cc (ap starts ((eq_iff (String.◌∷◌ c s) "").0 e))
  | inr e ↦ e
]

abbrev pem_token : Jwt String String String
pem_token = record one_token { as_private = λ s. some (body s); as_public = λ s. some (body s) }

abbrev key_maker : KeyMaker String pem_token
key_maker = record {
  generate = ret ("key", "key");
  marshal_pkcs8 = λ k. ret k;
  marshal_pkix = λ k. ret k;
  block = λ kind bytes. String.◌∷◌ "P" bytes;
  pem_encode = λ b. b;
  generated_pair = λ public private e.
      let same = ret-inj ("key", "key") (public, private) e in
      sym (ap (λ x. x.1) same) ∙ ap (λ x. x.0) same;
  encoded = λ kind bytes. cons_ne_empty "P" bytes;
  decode-encode = λ b. refl;
  parse-marshal_pkcs8 =
      λ k bytes e. (String.◌∷◌ "P" bytes, refl, ap some (sym (ret-inj k bytes e)));
  parse-marshal_pkix = λ k bytes e. (String.◌∷◌ "P" bytes, refl, ap some (sym (ret-inj k bytes e)));
}

abbrev issuer : Manager String
issuer =
    finish pem_token (with_defaults (issuing config "Pkey")) alg_eddsa (some "key") (some "key")

abbrev acceptor : Manager String
acceptor = finish pem_token (with_defaults (accepting config "Pkey")) alg_eddsa none (some "key")

issuer_test : new_manager pem_token (issuing config "Pkey") ≡ ret issuer
unfolding new_manager eddsa_manager with_defaults parse_ed25519_private_key
issuer_test = refl

acceptor_test : new_manager pem_token (accepting config "Pkey") ≡ ret acceptor
unfolding new_manager eddsa_manager with_defaults parse_ed25519_public_key
acceptor_test = refl

signs_test' : sign_claims pem_token issuer "key" issued ≡ ret ("signed", issued)
unfolding sign_claims
signs_test' = rw (sign_claims, signed_if_self issued (Claims-discrete issued issued)) refl

issue_test' : issue pem_token issuer (seconds 100) "u1" "access" opts ≡ ret ("signed", issued)
unfolding issue new_claims with_defaults ◌+ℤ◌
issue_test' = signs_test'

keys_test : generate_ed25519_keys key_maker ≡ ret ("Pkey", "Pkey")
unfolding generate_ed25519_keys
keys_test = refl

generated-parse_example : parse pem_token acceptor (seconds 500) "signed" "access" ≡ ret issued
generated-parse_example =
    generated-parse key_maker config "Pkey" "Pkey" issuer acceptor (seconds 100) (seconds 500) "u1"
      "access" opts "signed" issued config-IsUsable keys_test issuer_test acceptor_test issue_test'
      refl refl
