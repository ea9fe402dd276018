-- ===== src/Filestorage/Client/Opening.antt =====
-- filestorage/filestorage.go: a client that was opened finds its bucket.
use hockey_libs.Prelude.{
  ◌≡◌, refl, ap, sym, ◌∙◌, String, Bool, true, false, ◌||◌, Option, none, some, str_eq, leb_ℤ, pos,
  Bool-cases, inl, inr, if◌then◌else◌,
}
use hockey_libs.Errors.{ret-ne-err, Result-cases, Err, Result, ret, err}
use hockey_libs.Filestorage.Client.{
  Config, Client, Minio, with_ttl, new_api, apply_lifecycle, made_bucket, wrap_error,
  ensured_bucket, public_api, opened, set_up, open_client,
}

module _ {S : Type 0} (minio : Minio S) where
  lifecycle_keeps_bucket :
      (c : Client) (s : S)
      → minio.bucket_exists c.cfg.bucket (apply_lifecycle minio c s).1
        ≡ minio.bucket_exists c.cfg.bucket s
  unfolding apply_lifecycle
  lifecycle_keeps_bucket c s =
      elim (Bool-cases (str_eq c.cfg.staging_prefix "" || leb_ℤ c.cfg.staging_ttl (pos 0))) [
        | inl t ↦ rw (apply_lifecycle, t) refl
        | inr t ↦
            rw (apply_lifecycle, t)
              (minio.lifecycle_keeps c.cfg.bucket c.cfg.bucket c.cfg.staging_prefix
                c.cfg.staging_ttl s)
      ]

  some-ne-none : {A : Type 0} (x : A) → some x ≡ none → ⊥
  some-ne-none x h = cc

  unwrapped :
      (text : String) (failure : Option Err) → wrap_error text failure ≡ none → failure ≡ none
  unwrapped text none h = refl
  unwrapped text (some e) h = absurd (some-ne-none _ h)

  made_bucket-exists :
      (cfg : Config) (s : S) (r : Result Bool)
      → minio.bucket_exists cfg.bucket s ≡ r
      → (made_bucket minio cfg r s).0 ≡ none
      → minio.bucket_exists cfg.bucket (made_bucket minio cfg r s).1 ≡ ret true
  made_bucket-exists cfg s (err e) h k = absurd (some-ne-none _ k)
  made_bucket-exists cfg s (ret true) h k = h
  made_bucket-exists cfg s (ret false) h k =
      minio.makes cfg.bucket cfg.region s (unwrapped "filestorage: create bucket" _ k)

  opened-state : (c : Client) (r : Option Err × S) → (opened minio c r).1 ≡ r.1
  opened-state c (none, s) = refl
  opened-state c (some e, s) = refl

  set_up-exists :
      (c client : Client) (r : Option Err × S)
      → (r.0 ≡ none → minio.bucket_exists c.cfg.bucket r.1 ≡ ret true)
      → (set_up minio c r).0 ≡ ret client
      → minio.bucket_exists c.cfg.bucket (set_up minio c r).1 ≡ ret true
  set_up-exists c client (some e, s) h k = absurd (ret-ne-err client e k)
  set_up-exists c client (none, s) h k =
      ap (minio.bucket_exists c.cfg.bucket) (opened-state c (apply_lifecycle minio c s))
      ∙ lifecycle_keeps_bucket c s
      ∙ h refl

  ensured_bucket-exists :
      (cfg : Config) (s : S)
      → cfg.create_bucket ≡ true
      → (ensured_bucket minio cfg s).0 ≡ none
      → minio.bucket_exists cfg.bucket (ensured_bucket minio cfg s).1 ≡ ret true
  ensured_bucket-exists cfg s h k =
      let made =
        ap
          (λ b. if b then made_bucket minio cfg (minio.bucket_exists cfg.bucket s) s else (none, s))
          h in
      ap (λ r. minio.bucket_exists cfg.bucket r.1) made
      ∙ made_bucket-exists cfg s (minio.bucket_exists cfg.bucket s) refl
          (sym (ap (λ r. r.0) made) ∙ k)

  -- A client that `Open` returns, with settings that ask for the bucket to be made, finds its bucket in
  -- the store that `Open` leaves.
  pub open_client-exists :
      (config : Config) (client : Client) (s : S)
      → config.create_bucket ≡ true
      → (open_client minio config s).0 ≡ ret client
      → minio.bucket_exists config.bucket (open_client minio config s).1 ≡ ret true
  unfolding open_client
  open_client-exists config client s h k = elim (Bool-cases (str_eq config.bucket "")) [
    | inl t ↦ absurd (ret-ne-err client _ (rw (open_client, t) at k))
    | inr t ↦ elim (Result-cases (new_api minio (with_ttl config) config.endpoint)) [
      | inl (e, a) ↦ absurd (ret-ne-err client _ (rw (open_client, t, a) at k))
      | inr (api, a) ↦ elim (Result-cases (public_api minio (with_ttl config) api)) [
        | inl (e, p) ↦ absurd (ret-ne-err client _ (rw (open_client, t, a, p) at k))
        | inr (public, p) ↦
            rw (open_client, t, a, p)
              (set_up-exists (record { api = api; public = public; cfg = with_ttl config }) client
                (ensured_bucket minio (with_ttl config) s)
                (ensured_bucket-exists (with_ttl config) s h) (rw (open_client, t, a, p) at k))
      ]
    ]
  ]
