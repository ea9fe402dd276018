-- ===== src/Token/Manager/Keys.antt =====
-- token/token.go: generated keys, as texts that the manager reads back.
pub mod Services
use hockey_libs.Prelude.{
  ◌≡◌, ◌≢◌, refl, ap, ◌∙◌, sym, subst, String, true, false, Option, none, some, str_eq, Time, leb_ℤ,
  ltb_ℤ, inl, inr, arith, eq_refl, not, ◌&&◌, if◌then◌else◌, List, ℕ,
}
use hockey_libs.Errors.{ret-inj, ret-ne-err, Result-cases, Err, Result, ret, err, wrapped, plain}
use hockey_libs.Token.{Claims}
use hockey_libs.Token.Jwt.{Jwt, alg_eddsa}
use hockey_libs.Token.Manager.{
  Config, with_defaults, Manager, IssueOptions, new_manager, eddsa_manager, finish, issue, parse,
  new_claims, parse_ed25519_private_key, parse_ed25519_public_key, with_private, with_public,
  read_key,
}
use hockey_libs.Token.Manager.RoundTrip.{
  some-inj, Sound, finish-Sound, new_claims-Accepted, issue-Signed, Signed, parse_accepted,
}

-- crypto/ed25519, crypto/x509 and encoding/pem, as far as new keys are made with them. A block is
-- what PEM holds: its type and its bytes; `generate` is one result of `ed25519.GenerateKey`.
pub record KeyMaker {Key Block ParsedKey : Type 0} (Bytes : Type 0) (jwt : Jwt Key Block ParsedKey)
    : Type 0 where
  pub generate : Result (Key × Key)
  pub marshal_pkcs8 : Key → Result (Bytes)
  pub marshal_pkix : Key → Result (Bytes)
  pub block : String → Bytes → Block
  pub pem_encode : Block → String
  pub generated_pair :
      (public private : Key) → generate ≡ ret (public, private) → jwt.public_of private ≡ public
  pub encoded : (kind : String) (bytes : Bytes) → str_eq (pem_encode (block kind bytes)) "" ≡ false
  pub decode-encode : (b : Block) → jwt.pem_decode (pem_encode b) ≡ some b
  pub parse-marshal_pkcs8 :
      (k : Key) (bytes : Bytes)
      → marshal_pkcs8 k ≡ ret bytes
      → (p : ParsedKey) × (jwt.parse_pkcs8 (block "PRIVATE KEY" bytes) ≡ ret p)
        × (jwt.as_private p ≡ some k)
  pub parse-marshal_pkix :
      (k : Key) (bytes : Bytes)
      → marshal_pkix k ≡ ret bytes
      → (p : ParsedKey) × (jwt.parse_pkix (block "PUBLIC KEY" bytes) ≡ ret p)
        × (jwt.as_public p ≡ some k)

module _ {Key Block ParsedKey Bytes : Type 0} {jwt : Jwt Key Block ParsedKey}
    (keys : KeyMaker Bytes jwt) where
  -- `GenerateEd25519Keys`: the private and the public key, as PEM.
  unfoldable pub generate_ed25519_keys : Result (String × String)
  generate_ed25519_keys = elim keys.generate [
    | err e ↦ err (wrapped "token: generate key" e)
    | ret (public, private) ↦ elim (keys.marshal_pkcs8 private) [
      | err e ↦ err (wrapped "token: marshal private key" e)
      | ret private_bytes ↦ elim (keys.marshal_pkix public) [
        | err e ↦ err (wrapped "token: marshal public key" e)
        | ret public_bytes ↦ ret (
          keys.pem_encode (keys.block "PRIVATE KEY" private_bytes),
          keys.pem_encode (keys.block "PUBLIC KEY" public_bytes),
        )
      ]
    ]
  ]

  -- The two texts hold the two keys of a pair.
  abbrev pub Pair : String → String → Type 0
  Pair private_pem public_pem =
      (private : Key) × (str_eq private_pem "" ≡ false)
      × (str_eq public_pem "" ≡ false)
      × (parse_ed25519_private_key jwt private_pem ≡ ret private)
      × (parse_ed25519_public_key jwt public_pem ≡ ret (jwt.public_of private))

  read_private :
      (b : Block) (p : ParsedKey) (k : Key)
      → jwt.parse_pkcs8 b ≡ ret p
      → jwt.as_private p ≡ some k
      → parse_ed25519_private_key jwt (keys.pem_encode b) ≡ ret k
  unfolding parse_ed25519_private_key
  read_private b p k e f = rw (keys.decode-encode b, e, f, parse_ed25519_private_key, read_key) refl

  read_public :
      (b : Block) (p : ParsedKey) (k : Key)
      → jwt.parse_pkix b ≡ ret p
      → jwt.as_public p ≡ some k
      → parse_ed25519_public_key jwt (keys.pem_encode b) ≡ ret k
  unfolding parse_ed25519_public_key
  read_public b p k e f = rw (keys.decode-encode b, e, f, parse_ed25519_public_key, read_key) refl

  made-Pair :
      (public private : Key) (xs ys : Bytes)
      → keys.generate ≡ ret (public, private)
      → keys.marshal_pkcs8 private ≡ ret xs
      → keys.marshal_pkix public ≡ ret ys
      → Pair
          (keys.pem_encode (keys.block "PRIVATE KEY" xs))
          (keys.pem_encode (keys.block "PUBLIC KEY" ys))
  made-Pair public private xs ys g a b =
      let (p, read, cast) = keys.parse-marshal_pkcs8 private xs a in
      let (q, read', cast') = keys.parse-marshal_pkix public ys b in
      (
        private,
        keys.encoded "PRIVATE KEY" xs,
        keys.encoded "PUBLIC KEY" ys,
        read_private (keys.block "PRIVATE KEY" xs) p private read cast,
        read_public (keys.block "PUBLIC KEY" ys) q public read' cast'
            ∙ ap ret (sym (keys.generated_pair public private g)),
      )

  pub generate-Pair :
      (private_pem public_pem : String)
      → generate_ed25519_keys ≡ ret (private_pem, public_pem)
      → Pair private_pem public_pem
  unfolding generate_ed25519_keys
  generate-Pair private_pem public_pem h = elim (Result-cases keys.generate) [
    | inl (e, g) ↦ absurd (refused _ (rw (generate_ed25519_keys, g) at h))
    | inr ((public, private), g) ↦ elim (Result-cases (keys.marshal_pkcs8 private)) [
      | inl (e, a) ↦ absurd (refused _ (rw (generate_ed25519_keys, g, a) at h))
      | inr (xs, a) ↦ elim (Result-cases (keys.marshal_pkix public)) [
        | inl (e, b) ↦ absurd (refused _ (rw (generate_ed25519_keys, g, a, b) at h))
        | inr (ys, b) ↦
            subst (λ x. Pair x.0 x.1)
              (ret-inj _ (private_pem, public_pem) (rw (generate_ed25519_keys, g, a, b) at h))
              (made-Pair public private xs ys g a b)
      ]
    ]
  ]
    where
      refused :
          (e : Err) → ◌≢◌ {A = Result (String × String)} (err e) (ret (private_pem, public_pem))
      refused e = ret-ne-err (private_pem, public_pem) e
