-- ===== src/Password/RoundTrip.antt =====
-- password/argon2id.go: the text of a hash is read back to its parts.
use hockey_libs.Prelude.{
  ℕ, ◌%◌, ◌^◌, ◌<◌, ◌≡◌, refl, ap, sym, ◌∙◌, pos, true, some, [], ◌∷◌, ◌++◌, length, ◌==◌,
  if◌then◌else◌, arith,
}
use hockey_libs.Errors.{ret, err}
use hockey_libs.Format.Bytes.{
  Bytes, bytes_eq, free, free-append, expect, split_on, split_on-append, split_on-free,
}
use hockey_libs.Format.Decimal.{
  digits, digits-free, scan_uint-digits, scan_int, scan_int-digits, stops_here,
}
use hockey_libs.Format.Base64
use hockey_libs.Format.Base64.{all_below}
use hockey_libs.Password.{
  Params, Argon2, dollar, argon2id, version_prefix, memory_prefix, iterations_prefix,
  parallelism_prefix, params_text, literal_uint, scan_params, scan_version, decode_fields,
  hash_text, decode_parts, decode, is_usable, invalid_hash,
}
use mathlib.Core.List.{append-nil}

-- Numbers that their Go types hold, with no zero among the first four.
pub record Valid (p : Params) : Type 0 where
  pub memory : p.memory < 2 ^ 32
  pub iterations : p.iterations < 2 ^ 32
  pub parallelism : p.parallelism < 2 ^ 8
  pub key_length : p.key_length < 2 ^ 32
  pub salt_length : p.salt_length < 2 ^ 32
  pub usable : is_usable p ≡ true

expect-append : (p rest : Bytes) → expect p (p ++ rest) ≡ some rest
unfolding expect
expect-append [] rest = refl
expect-append (x ∷ p) rest = ground (arith, expect-append p rest)

literal_uint-digits :
    (prefix : Bytes) (n bound : ℕ) (rest : Bytes)
    → n < bound
    → stops_here rest ≡ true
    → literal_uint prefix bound (prefix ++ (digits n ++ rest)) ≡ some (n, rest)
unfolding literal_uint
literal_uint-digits prefix n bound rest h s =
    rw (literal_uint, expect-append prefix (digits n ++ rest)) (scan_uint-digits n bound rest h s)

scan_params-params_text :
    (p : Params)
    → Valid p
    → scan_params (params_text p) ≡ some (p.memory, p.iterations, p.parallelism)
unfolding scan_params params_text
scan_params-params_text p v =
    let last = literal_uint-digits parallelism_prefix p.parallelism (2 ^ 8) [] v.parallelism refl in
    let end = append-nil (digits p.parallelism) in
    let middle =
      literal_uint-digits iterations_prefix p.iterations (2 ^ 32)
        (parallelism_prefix ++ digits p.parallelism) v.iterations refl in
    let start =
      literal_uint-digits memory_prefix p.memory (2 ^ 32)
        (iterations_prefix ++ (digits p.iterations ++ (parallelism_prefix ++ digits p.parallelism)))
        v.memory refl in
    rw
      (
        scan_params,
        start,
        middle,
        ap (λ d. literal_uint parallelism_prefix (2 ^ 8) (parallelism_prefix ++ d)) (sym end)
            ∙ last,
      )
      refl

scan_version-digits :
    (a : Argon2) → scan_version (version_prefix ++ digits a.version) ≡ some (pos a.version)
unfolding scan_version
scan_version-digits a =
    let end = append-nil (digits a.version) in
    let number = ap scan_int (sym end) ∙ scan_int-digits a.version [] a.version_lt refl in
    rw (scan_version, expect-append version_prefix (digits a.version), number) refl

sized :
    (p : Params) (salt key : Bytes)
    → Valid p
    → length salt ≡ p.salt_length
    → length key ≡ p.key_length
    → (record p { salt_length = length salt % 2 ^ 32; key_length = length key % 2 ^ 32 }) ≡ p
sized p salt key v h k =
    let salt_size : length salt % 2 ^ 32 ≡ p.salt_length = omega arith in
    let key_size : length key % 2 ^ 32 ≡ p.key_length = omega arith in rw (salt_size, key_size) refl

decode_fields-encode :
    (p : Params) (salt key : Bytes)
    → Valid p
    → length salt ≡ p.salt_length
    → length key ≡ p.key_length
    → all_below 256 salt ≡ true
    → all_below 256 key ≡ true
    → decode_fields (params_text p) (Base64.encode salt) (Base64.encode key) ≡ ret (p, salt, key)
unfolding decode_fields
decode_fields-encode p salt key v h k x y =
    rw
      (
        decode_fields,
        scan_params-params_text p v,
        Base64.decode-encode salt x,
        Base64.decode-encode key y,
      )
      (ap (λ q. if is_usable q then ret (q, salt, key) else err invalid_hash)
          (sized p salt key v h k)
        ∙ rw v.usable refl)

-- No number and no letter of base64 is a dollar sign.
number-free :
    (prefix : Bytes) (n : ℕ) (rest : Bytes)
    → free dollar prefix ≡ true
    → free dollar rest ≡ true
    → free dollar (prefix ++ (digits n ++ rest)) ≡ true
number-free prefix n rest h k =
    free-append dollar prefix (digits n ++ rest) h
      (free-append dollar (digits n) rest (digits-free n dollar (omega arith)) k)

params_text-free : (p : Params) → free dollar (params_text p) ≡ true
unfolding params_text free
params_text-free p = number-free memory_prefix p.memory _ refl (
    number-free iterations_prefix p.iterations _ refl (
      free-append dollar parallelism_prefix (digits p.parallelism) refl
        (digits-free p.parallelism dollar (omega arith))))

version_free : (a : Argon2) → free dollar (version_prefix ++ digits a.version) ≡ true
unfolding free
version_free a =
    free-append dollar version_prefix (digits a.version) refl
      (digits-free a.version dollar (omega arith))

split_on-hash_text :
    (a : Argon2) (p : Params) (salt key : Bytes)
    → all_below 256 salt ≡ true
    → all_below 256 key ≡ true
    → split_on dollar (hash_text a p salt key)
      ≡ []
        ∷ argon2id
        ∷ (version_prefix ++ digits a.version)
        ∷ params_text p
        ∷ Base64.encode salt
        ∷ Base64.encode key
        ∷ []
unfolding hash_text free
split_on-hash_text a p salt key x y =
    split_on-append dollar [] _ refl
    ∙ ap (λ w. [] ∷ w)
        (split_on-append dollar argon2id _ refl
          ∙ ap (λ w. argon2id ∷ w)
              (split_on-append dollar (version_prefix ++ digits a.version) _ (version_free a)
                ∙ ap (λ w. (version_prefix ++ digits a.version) ∷ w)
                    (split_on-append dollar (params_text p) _ (params_text-free p)
                      ∙ ap (λ w. params_text p ∷ w)
                          (split_on-append dollar (Base64.encode salt) _ (Base64.encode-free salt x)
                            ∙ ap (λ w. Base64.encode salt ∷ w)
                                (split_on-free dollar (Base64.encode key)
                                  (Base64.encode-free key y))))))

-- The text of a hash is read back to the parameters, the salt and the key that it was made of, if the
-- parameters fit their Go types, none of those that must not be zero is, and the salt and the key are
-- bytes of the lengths that the parameters give.
pub decode-hash_text :
    (a : Argon2) (p : Params) (salt key : Bytes)
    → Valid p
    → length salt ≡ p.salt_length
    → length key ≡ p.key_length
    → all_below 256 salt ≡ true
    → all_below 256 key ≡ true
    → decode a (hash_text a p salt key) ≡ ret (p, salt, key)
unfolding decode bytes_eq
decode-hash_text a p salt key v h k x y =
    let same : (a.version == a.version) ≡ true = ground arith in
    ap (decode_parts a) (split_on-hash_text a p salt key x y)
    ∙ rw (scan_version-digits a, same) (decode_fields-encode p salt key v h k x y)
