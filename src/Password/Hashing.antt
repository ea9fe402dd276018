-- ===== src/Password/Hashing.antt =====
-- password/argon2id.go: a hash is verified by its own password, and a hasher does not renew its own.
use hockey_libs.Prelude.{
  ℕ, ◌^◌, ◌<◌, ◌≡◌, refl, ap, sym, ◌∙◌, ℤ, true, false, none, some, List, length, ◌==◌, arith,
  if◌then◌else◌,
}
use hockey_libs.Errors.{ret-inj, Sentinel, sentinel, ret}
use hockey_libs.Format.Bytes.{Bytes, bytes_eq, bytes_eq_refl}
use hockey_libs.Format.Base64.{all_below}
use hockey_libs.Password.{
  Params, default_params, or_default, filled, new_hasher, Argon2, decode, derive, verify, is_weaker,
  needs_rehash, hash,
}
use hockey_libs.Password.RoundTrip.{Valid, decode-hash_text}

-- Numbers that their Go types hold.
pub record Fits (p : Params) : Type 0 where
  pub memory : p.memory < 2 ^ 32
  pub iterations : p.iterations < 2 ^ 32
  pub parallelism : p.parallelism < 2 ^ 8
  pub salt_length : p.salt_length < 2 ^ 32
  pub key_length : p.key_length < 2 ^ 32

-- Defaults of which none is zero.
record Usual (p : Params) : Type 0 where
  fits : Fits p
  memory : 0 < p.memory
  iterations : 0 < p.iterations
  parallelism : 0 < p.parallelism
  key_length : 0 < p.key_length

default_params-Usual : (cpus : ℕ) → Usual (default_params cpus)
unfolding default_params
default_params-Usual cpus = ground arith

or_default_bounds :
    (n default bound : ℕ)
    → n < bound
    → default < bound
    → 0 < default
    → (or_default n default < bound) × ((or_default n default == 0) ≡ false)
or_default_bounds n default bound h k l = ground arith

filled-Valid : (p d : Params) → Fits p → Usual d → Valid (filled p d)
filled-Valid p d f u =
    let (m, m') = or_default_bounds p.memory d.memory (2 ^ 32) f.memory u.fits.memory u.memory in
    let (i, i') =
      or_default_bounds p.iterations d.iterations (2 ^ 32) f.iterations u.fits.iterations
        u.iterations in
    let (r, r') =
      or_default_bounds p.parallelism d.parallelism (2 ^ 8) f.parallelism u.fits.parallelism
        u.parallelism in
    let (k, k') =
      or_default_bounds p.key_length d.key_length (2 ^ 32) f.key_length u.fits.key_length
        u.key_length in
    record {
      memory = m;
      iterations = i;
      parallelism = r;
      key_length = k;
      salt_length = ground arith;
      usable = rw (m', i', r', k') refl;
    }

new_hasher-Valid :
    (cpus : ℕ) (threads : ℤ) (p : Params) (opts : List ℤ)
    → Fits p
    → Valid (new_hasher cpus threads p opts).params
unfolding new_hasher
new_hasher-Valid cpus threads p opts f =
    filled-Valid p (default_params cpus) f (default_params-Usual cpus)

verify-decode :
    (a : Argon2) (plain encoded : Bytes) (p : Params) (salt key : Bytes)
    → decode a encoded ≡ ret (p, salt, key)
    → verify a plain encoded
      ≡ (if bytes_eq (derive a p salt plain) key then none else some (sentinel Sentinel.mismatch))
unfolding verify
verify-decode a plain encoded p salt key h = rw (verify, h) refl

is_weaker_self : (p : Params) → is_weaker p p ≡ false
is_weaker_self p = ground arith

-- A hasher made of settings that fit their Go types, in a call that gets a slot and a salt of the
-- length set: the hash that it makes of a password is verified by this password, any other
-- password is refused exactly if argon2 derives another key of it, and the hasher does not want
-- its own hash renewed.
pub hash-verify :
    (a : Argon2) (cpus : ℕ) (threads : ℤ) (p : Params) (opts : List ℤ) (salt plain other : Bytes)
    (encoded : Bytes)
    → Fits p
    → length salt ≡ (new_hasher cpus threads p opts).params.salt_length
    → all_below 256 salt ≡ true
    → hash a (new_hasher cpus threads p opts) none (ret salt) plain ≡ ret encoded
    → (verify a plain encoded ≡ none)
      × (verify a other encoded ≡ (
          if bytes_eq
            (derive a (new_hasher cpus threads p opts).params salt other)
            (derive a (new_hasher cpus threads p opts).params salt plain)
          then none
          else some (sentinel Sentinel.mismatch)))
      × (needs_rehash a (new_hasher cpus threads p opts) encoded ≡ ret false)
unfolding hash needs_rehash
hash-verify a cpus threads p opts salt plain other encoded f l b h =
    let hasher = new_hasher cpus threads p opts in
    let q = hasher.params in
    let key = derive a q salt plain in
    let valid = new_hasher-Valid cpus threads p opts f in
    let read =
      ap (decode a) (sym (ret-inj _ encoded h))
      ∙ decode-hash_text a q salt key valid l
          (a.id_key-length plain salt q.iterations q.memory q.parallelism q.key_length) b
          (a.id_key-all_below plain salt q.iterations q.memory q.parallelism q.key_length) in
    (
      verify-decode a plain encoded q salt key read ∙ rw (bytes_eq_refl key) refl,
      verify-decode a other encoded q salt key read,
      rw (needs_rehash, read) (ap ret (is_weaker_self q)),
    )
