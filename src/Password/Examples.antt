-- ===== src/Password/Examples.antt =====
-- Hashes of two passwords, over a key of one repeated byte.
use hockey_libs.Prelude.{
  ℕ, zero, suc, ◌+◌, ◌%◌, ◌≡◌, refl, pos, true, false, none, some, [], ◌∷◌, length, arith,
  if◌then◌else◌,
}
use hockey_libs.Errors.{Sentinel, sentinel, ret}
use hockey_libs.Format.Bytes.{Bytes, bytes_eq, expect}
use hockey_libs.Format.Decimal.{digits, scan_uint, scan_digits, scan_number, skip_space}
use hockey_libs.Format.Base64
use hockey_libs.Format.Base64.{all_below}
use hockey_libs.Password.{
  Params, Hasher, default_params, new_hasher, Argon2, hash_text, params_text, decode, derive,
  verify, needs_rehash, hash, scan_params, literal_uint,
}
use hockey_libs.Password.RoundTrip.{Valid, decode-hash_text}
use hockey_libs.Password.Hashing.{Fits, hash-verify}

abbrev total : Bytes → ℕ
total [] = 0
total (c ∷ cs) = c + total cs

abbrev repeat : ℕ → ℕ → Bytes
repeat zero c = []
repeat (suc n) c = c % 256 ∷ repeat n c

repeat-length : (n c : ℕ) → length (repeat n c) ≡ n
repeat-length zero c = refl
repeat-length (suc n) c = omega (arith, repeat-length n c)

repeat-all_below : (n c : ℕ) → all_below 256 (repeat n c) ≡ true
repeat-all_below zero c = refl
repeat-all_below (suc n) c = ground (arith, repeat-all_below n c)

abbrev sums : Argon2
sums = record {
  version = 19;
  id_key = λ plain salt time memory threads size. repeat size (total plain + total salt);
  version_lt = omega arith;
  id_key-length = λ plain salt time memory threads size. repeat-length size _;
  id_key-all_below = λ plain salt time memory threads size. repeat-all_below size _;
}

abbrev settings : Params
settings = record { memory = 8; iterations = 0; parallelism = 1; salt_length = 2; key_length = 3 }

abbrev used : Params
used = record settings { iterations = 3 }

abbrev salt : Bytes
salt = 7 ∷ 255 ∷ []

-- "$argon2id$v=19$m=8,t=3,p=1$B/8$AAAA"
format_test :
    hash_text sums used salt (0 ∷ 0 ∷ 0 ∷ [])
    ≡ b'$' ∷ b'a' ∷ b'r' ∷ b'g' ∷ b'o' ∷ b'n' ∷ b'2' ∷ b'i' ∷ b'd' ∷ b'$' ∷ b'v' ∷ b'=' ∷ b'1'
      ∷ b'9' ∷ b'$' ∷ b'm' ∷ b'=' ∷ b'8' ∷ b',' ∷ b't' ∷ b'=' ∷ b'3' ∷ b',' ∷ b'p' ∷ b'=' ∷ b'1'
      ∷ b'$' ∷ b'B' ∷ b'/' ∷ b'8' ∷ b'$' ∷ b'A' ∷ b'A' ∷ b'A' ∷ b'A' ∷ []
unfolding hash_text params_text digits Base64.encode
format_test = refl

-- What follows the last number of the parameters is not looked at.
trailing_test :
    scan_params
      (b'm' ∷ b'=' ∷ b'8' ∷ b',' ∷ b't' ∷ b'=' ∷ b'3' ∷ b',' ∷ b'p' ∷ b'=' ∷ b'1' ∷ b'x' ∷ [])
    ≡ some (8, 3, 1)
unfolding scan_params literal_uint expect scan_uint skip_space scan_number scan_digits
trailing_test = refl

used-Valid : Valid used
used-Valid = record {
  memory = omega arith;
  iterations = omega arith;
  parallelism = omega arith;
  key_length = omega arith;
  salt_length = omega arith;
  usable = refl;
}

decode-hash_text_example :
    decode sums (hash_text sums used salt (0 ∷ 1 ∷ 2 ∷ [])) ≡ ret (used, salt, 0 ∷ 1 ∷ 2 ∷ [])
decode-hash_text_example =
    decode-hash_text sums used salt (0 ∷ 1 ∷ 2 ∷ []) used-Valid refl refl refl refl

settings-Fits : Fits settings
settings-Fits = omega arith

abbrev hasher : Hasher
hasher = new_hasher 8 (pos 4) settings []

abbrev right : Bytes
right = b'a' ∷ b'b' ∷ []

abbrev wrong : Bytes
wrong = b'c' ∷ []

abbrev encoded : Bytes
encoded = hash_text sums hasher.params salt (derive sums hasher.params salt right)

hash_test : hash sums hasher none (ret salt) right ≡ ret encoded
unfolding hash
hash_test = refl

salt_test : length salt ≡ hasher.params.salt_length
unfolding new_hasher default_params
salt_test = refl

hash-verify_example :
    (verify sums right encoded ≡ none)
    × (verify sums wrong encoded ≡ (
        if bytes_eq (derive sums hasher.params salt wrong) (derive sums hasher.params salt right)
        then none
        else some (sentinel Sentinel.mismatch)))
    × (needs_rehash sums hasher encoded ≡ ret false)
hash-verify_example =
    hash-verify sums 8 (pos 4) settings [] salt right wrong encoded settings-Fits salt_test refl
      hash_test
