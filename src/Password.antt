-- ===== src/Password.antt =====
-- password/argon2id.go: hashes of passwords as texts. A text is the list of its bytes; argon2 is a
-- parameter, and so are the random salt and the semaphore's answer in each call.
pub mod RoundTrip
pub mod Hashing
mod Examples
use hockey_libs.Prelude.{
  ℕ, ◌+◌, ◌*◌, ◌%◌, ◌^◌, ◌<◌, ◌≡◌, ℤ, pos, negsuc, Bool, true, false, not, ◌&&◌, ◌||◌, Option, none,
  some, List, [], ◌∷◌, ◌++◌, length, ltb, leb_ℤ, ltb_ℤ, ◌==◌, if◌then◌else◌,
}
use hockey_libs.Errors.{Err, Sentinel, sentinel, joined, wrapped, Result, ret, err}
use hockey_libs.Format.Bytes.{Bytes, split_on, expect, bytes_eq}
use hockey_libs.Format.Decimal.{digits, scan_uint, scan_int, int64_limit}
use hockey_libs.Format.Base64
use hockey_libs.Format.Base64.{all_below}

pub record Params : Type 0 where
  pub memory : ℕ
  pub iterations : ℕ
  pub parallelism : ℕ
  pub salt_length : ℕ
  pub key_length : ℕ

-- `DefaultParams` on a machine with so many processors.
unfoldable pub default_params : ℕ → Params
default_params cpus = record {
  memory = 64 * 1024;
  iterations = 3;
  parallelism = if ltb 4 cpus then 4 else if ltb cpus 1 then 1 else cpus;
  salt_length = 16;
  key_length = 32;
}

-- `slots` is the size of the semaphore.
pub record Hasher : Type 0 where
  pub params : Params
  pub slots : ℤ

-- `WithMaxConcurrent`, for each option.
abbrev pub with_options : ℤ → List ℤ → ℤ
with_options slots [] = slots
with_options slots (n ∷ ns) = with_options (if ltb_ℤ (pos 0) n then n else slots) ns

abbrev pub or_default : ℕ → ℕ → ℕ
or_default n default = if n == 0 then default else n

abbrev pub filled : Params → Params → Params
filled p d = record {
  memory = or_default p.memory d.memory;
  iterations = or_default p.iterations d.iterations;
  parallelism = or_default p.parallelism d.parallelism;
  salt_length = or_default p.salt_length d.salt_length;
  key_length = or_default p.key_length d.key_length;
}

-- `NewHasher` under so many processors and threads.
unfoldable pub new_hasher : ℕ → ℤ → Params → List ℤ → Hasher
unfolding default_params
new_hasher cpus threads params opts = record {
  params = filled params (default_params cpus);
  slots = with_options (if leb_ℤ threads (pos 1) then pos 1 else threads) opts;
}

-- golang.org/x/crypto/argon2: its version and `IDKey` of a password, a salt, passes, memory, threads
-- and the length of the key.
pub record Argon2 : Type 0 where
  pub version : ℕ
  pub id_key : Bytes → Bytes → ℕ → ℕ → ℕ → ℕ → Bytes
  pub version_lt : version < int64_limit
  pub id_key-length :
      (plain salt : Bytes) (time memory threads size : ℕ)
      → length (id_key plain salt time memory threads size) ≡ size
  pub id_key-all_below :
      (plain salt : Bytes) (time memory threads size : ℕ)
      → all_below 256 (id_key plain salt time memory threads size) ≡ true

abbrev pub dollar : ℕ
dollar = b'$'

abbrev pub argon2id : Bytes
argon2id = b'a' ∷ b'r' ∷ b'g' ∷ b'o' ∷ b'n' ∷ b'2' ∷ b'i' ∷ b'd' ∷ []

abbrev pub version_prefix : Bytes
version_prefix = b'v' ∷ b'=' ∷ []

abbrev pub memory_prefix : Bytes
memory_prefix = b'm' ∷ b'=' ∷ []

abbrev pub iterations_prefix : Bytes
iterations_prefix = b',' ∷ b't' ∷ b'=' ∷ []

abbrev pub parallelism_prefix : Bytes
parallelism_prefix = b',' ∷ b'p' ∷ b'=' ∷ []

-- The third part of a hash.
unfoldable pub params_text : Params → Bytes
params_text p =
    memory_prefix
    ++ (digits p.memory
        ++ (iterations_prefix
            ++ (digits p.iterations ++ (parallelism_prefix ++ digits p.parallelism))))

-- The verb %d after a literal.
unfoldable pub literal_uint : Bytes → ℕ → Bytes → Option (ℕ × Bytes)
literal_uint prefix bound text = elim (expect prefix text) [
  | none ↦ none
  | some rest ↦ scan_uint bound rest
]

-- Sscanf of the third part. What follows the last number is not looked at.
unfoldable pub scan_params : Bytes → Option (ℕ × ℕ × ℕ)
scan_params text = elim (literal_uint memory_prefix (2 ^ 32) text) [
  | none ↦ none
  | some (memory, more) ↦ elim (literal_uint iterations_prefix (2 ^ 32) more) [
    | none ↦ none
    | some (iterations, last) ↦ elim (literal_uint parallelism_prefix (2 ^ 8) last) [
      | none ↦ none
      | some (parallelism, rest) ↦ some (memory, iterations, parallelism)
    ]
  ]
]

-- Sscanf of the second part.
unfoldable pub scan_version : Bytes → Option ℤ
scan_version text = elim (expect version_prefix text) [
  | none ↦ none
  | some rest ↦ elim (scan_int rest) [ none ↦ none | some (v, more) ↦ some v ]
]

abbrev pub invalid_hash : Err
invalid_hash = sentinel Sentinel.invalid_hash

abbrev pub is_usable : Params → Bool
is_usable p = not (p.memory == 0 || p.iterations == 0 || p.parallelism == 0 || p.key_length == 0)

abbrev pub Decoded : Type 0
Decoded = Params × Bytes × Bytes

unfoldable pub decode_fields : Bytes → Bytes → Bytes → Result Decoded
decode_fields params_part salt_part key_part = elim (scan_params params_part) [
  | none ↦ err invalid_hash
  | some (memory, iterations, parallelism) ↦ elim (Base64.decode salt_part) [
    | none ↦ err invalid_hash
    | some salt ↦ elim (Base64.decode key_part) [
      | none ↦ err invalid_hash
      | some key ↦
          let p : Params = record {
            memory = memory;
            iterations = iterations;
            parallelism = parallelism;
            salt_length = length salt % 2 ^ 32;
            key_length = length key % 2 ^ 32;
          } in
          if is_usable p then ret (p, salt, key) else err invalid_hash
    ]
  ]
]

abbrev pub is_weaker : Params → Params → Bool
is_weaker p q =
    ltb p.memory q.memory || ltb p.iterations q.iterations || ltb p.key_length q.key_length

module _ (argon2 : Argon2) where
  -- The text of a hash, as `Hash` formats it.
  unfoldable pub hash_text : Params → Bytes → Bytes → Bytes
  hash_text p salt key =
      dollar
      ∷ (argon2id
          ++ dollar
            ∷ ((version_prefix ++ digits argon2.version)
                ++ dollar
                  ∷ (params_text p ++ dollar ∷ (Base64.encode salt ++ dollar ∷ Base64.encode key))))

  abbrev pub is_version : ℤ → Bool
  is_version (pos n) = n == argon2.version
  is_version (negsuc n) = false

  abbrev pub decode_parts : List Bytes → Result Decoded
  decode_parts (empty ∷ name ∷ version ∷ params ∷ salt ∷ key ∷ []) =
      if bytes_eq empty [] && bytes_eq name argon2id
      then elim (scan_version version) [
        | none ↦ err invalid_hash
        | some v ↦
            if is_version v
            then decode_fields params salt key
            else err (sentinel Sentinel.unsupported_version)
      ]
      else err invalid_hash
  decode_parts _ = err invalid_hash

  unfoldable pub decode : Bytes → Result Decoded
  decode encoded = decode_parts (split_on dollar encoded)

  abbrev pub derive : Params → Bytes → Bytes → Bytes
  derive p salt plain = argon2.id_key plain salt p.iterations p.memory p.parallelism p.key_length

  -- `Verify`: no error if the password is the one of the hash.
  unfoldable pub verify : Bytes → Bytes → Option Err
  verify plain encoded = elim (decode encoded) [
    | err e ↦ some e
    | ret (p, salt, want) ↦
        if bytes_eq (derive p salt plain) want then none else some (sentinel Sentinel.mismatch)
  ]

  unfoldable pub needs_rehash : Hasher → Bytes → Result Bool
  needs_rehash h encoded = elim (decode encoded) [
    | err e ↦ err e
    | ret (p, salt, key) ↦ ret (is_weaker p h.params)
  ]

  -- `Hasher.Hash`: what `Acquire` answers, and the salt that `rand.Read` filled.
  unfoldable pub hash : Hasher → Option Err → Result Bytes → Bytes → Result Bytes
  hash h (some e) random plain = err (joined (sentinel Sentinel.busy) e)
  hash h none (err e) plain = err (wrapped "password: generate salt" e)
  hash h none (ret salt) plain = ret (hash_text h.params salt (derive h.params salt plain))

  -- The package's `Hash`
  unfoldable pub default_hash : ℕ → ℤ → Option Err → Result Bytes → Bytes → Result Bytes
  default_hash cpus threads acquired random plain =
      hash (new_hasher cpus threads (default_params cpus) []) acquired random plain

  -- `Hasher.Verify`
  unfoldable pub hasher_verify : Option Err → Bytes → Bytes → Option Err
  hasher_verify (some e) plain encoded = some (joined (sentinel Sentinel.busy) e)
  hasher_verify none plain encoded = verify plain encoded
