-- ===== src/Filestorage/Client.antt =====
-- filestorage/filestorage.go: a client of one S3 bucket. minio is a parameter; a handle of it is told by
-- the endpoint that it connects to.
pub mod Opening
use hockey_libs.Prelude.{
  ℕ, ◌≡◌, refl, ap, ◌∙◌, subst, ℤ, pos, String, Bool, true, false, not, ◌&&◌, ◌||◌, Option, none,
  some, List, [], ◌∷◌, ◌==◌, str_eq, Duration, minutes, Time, leb_ℤ, ltb_ℤ, Bool-cases,
  Option-cases, inl, inr, if◌then◌else◌,
}
use hockey_libs.Errors.{
  ret-inj, ret-ne-err, Result-cases, Err, Sentinel, sentinel, plain, wrapped, Result, ret, err,
}
use hockey_libs.Format.Bytes.{Bytes}

pub record Config : Type 0 where
  pub endpoint : String
  pub access_key : String
  pub secret_key : String
  pub bucket : String
  pub region : String
  pub use_ssl : Bool
  pub public_endpoint : String
  pub presign_ttl : Duration
  pub create_bucket : Bool
  pub staging_prefix : String
  pub staging_ttl : ℤ

pub record Client : Type 0 where
  pub api : String
  pub public : String
  pub cfg : Config

pub record Info : Type 0 where
  pub key : String
  pub size : ℤ
  pub content_type : String
  pub modified_at : Time

-- github.com/minio/minio-go over the state of the store. `status_code` is that of `ToErrorResponse`. A
-- bucket that was made is there, and rules for its objects leave it there.
pub record Minio (S : Type 0) : Type 0 where
  pub new : Config → String → Option Err
  pub bucket_exists : String → S → Result Bool
  pub make_bucket : String → String → S → Option Err × S
  pub set_lifecycle : String → String → ℤ → S → Option Err × S
  pub presigned_put : String → String → String → Duration → Result String
  pub presigned_get : String → String → String → Duration → Result String
  pub stat_object : String → String → S → Result Info
  pub get_object : String → String → S → Result Bytes
  pub put_object : String → String → Bytes → ℤ → String → S → Option Err × S
  pub remove_object : String → String → S → Option Err × S
  pub status_code : Err → ℕ
  pub makes :
      (bucket region : String) (s : S)
      → (make_bucket bucket region s).0 ≡ none
      → bucket_exists bucket (make_bucket bucket region s).1 ≡ ret true
  pub lifecycle_keeps :
      (bucket other prefix : String) (days : ℤ) (s : S)
      → bucket_exists bucket (set_lifecycle other prefix days s).1 ≡ bucket_exists bucket s

abbrev pub wrap_error : String → Option Err → Option Err
wrap_error text none = none
wrap_error text (some e) = some (wrapped text e)

abbrev pub wrap_result : {A : Type 0} → String → Result A → Result A
wrap_result text (ret a) = ret a
wrap_result text (err e) = err (wrapped text e)

unfoldable pub ttl_or : Client → Duration → Duration
ttl_or c ttl = if ltb_ℤ (pos 0) ttl then ttl else c.cfg.presign_ttl

abbrev pub with_ttl : Config → Config
with_ttl cfg = record cfg {
  presign_ttl = if leb_ℤ cfg.presign_ttl (pos 0) then minutes 15 else cfg.presign_ttl;
}

module _ {S : Type 0} (minio : Minio S) where
  -- `newAPI`
  abbrev pub new_api : Config → String → Result String
  new_api cfg endpoint = elim (minio.new cfg endpoint) [
    | some e ↦ err (wrapped "filestorage: connect" e)
    | none ↦ ret endpoint
  ]

  unfoldable pub apply_lifecycle : Client → S → Option Err × S
  apply_lifecycle c s =
      if str_eq c.cfg.staging_prefix "" || leb_ℤ c.cfg.staging_ttl (pos 0)
      then (none, s)
      else let (failure, s') =
          minio.set_lifecycle c.cfg.bucket c.cfg.staging_prefix c.cfg.staging_ttl s in
        (wrap_error "filestorage: set lifecycle" failure, s')

  -- The bucket, made if it is not there.
  abbrev pub made_bucket : Config → Result Bool → S → Option Err × S
  made_bucket cfg (err e) s = (some (wrapped "filestorage: check bucket" e), s)
  made_bucket cfg (ret true) s = (none, s)
  made_bucket cfg (ret false) s =
      let (failure, s') = minio.make_bucket cfg.bucket cfg.region s in
      (wrap_error "filestorage: create bucket" failure, s')

  abbrev pub ensured_bucket : Config → S → Option Err × S
  ensured_bucket cfg s =
      if cfg.create_bucket then made_bucket cfg (minio.bucket_exists cfg.bucket s) s else (none, s)

  -- The handle for the links that clients get.
  abbrev pub public_api : Config → String → Result String
  public_api cfg api =
      if not (str_eq cfg.public_endpoint "") && not (str_eq cfg.public_endpoint cfg.endpoint)
      then new_api cfg cfg.public_endpoint
      else ret api

  abbrev pub opened : Client → Option Err × S → Result Client × S
  opened c (some e, s) = (err e, s)
  opened c (none, s) = (ret c, s)

  -- The bucket and its rules, once there are handles.
  abbrev pub set_up : Client → Option Err × S → Result Client × S
  set_up c (some e, s) = (err e, s)
  set_up c (none, s) = opened c (apply_lifecycle c s)

  -- `Open`
  unfoldable pub open_client : Config → S → Result Client × S
  unfolding apply_lifecycle
  open_client config s =
      let cfg = with_ttl config in
      if str_eq config.bucket ""
      then (err (plain "filestorage: S3_BUCKET is required"), s)
      else elim (new_api cfg cfg.endpoint) [
        | err e ↦ (err e, s)
        | ret api ↦ elim (public_api cfg api) [
          | err e ↦ (err e, s)
          | ret public ↦
              set_up (record { api = api; public = public; cfg = cfg }) (ensured_bucket cfg s)
        ]
      ]

  unfoldable pub ping : Client → S → Option Err
  ping c s = elim (minio.bucket_exists c.cfg.bucket s) [
    | err e ↦ some (wrapped "filestorage: ping" e)
    | ret there ↦ none
  ]

  unfoldable pub presign_put : Client → String → Duration → Result String
  presign_put c key ttl =
      wrap_result "filestorage: presign put"
        (minio.presigned_put c.public c.cfg.bucket key (ttl_or c ttl))

  unfoldable pub presign_get : Client → String → Duration → Result String
  presign_get c key ttl =
      if str_eq key ""
      then ret ""
      else wrap_result "filestorage: presign get"
          (minio.presigned_get c.public c.cfg.bucket key (ttl_or c ttl))

  unfoldable pub stat : Client → String → S → Result Info
  stat c key s = elim (minio.stat_object c.cfg.bucket key s) [
    | ret info ↦ ret info
    | err e ↦
        if minio.status_code e == 404
        then err (sentinel Sentinel.object_not_found)
        else err (wrapped "filestorage: stat" e)
  ]

  unfoldable pub get : Client → String → S → Result Bytes
  get c key s = wrap_result "filestorage: get" (minio.get_object c.cfg.bucket key s)

  unfoldable pub put : Client → String → Bytes → ℤ → String → S → Option Err × S
  put c key content size content_type s =
      let (failure, s') = minio.put_object c.cfg.bucket key content size content_type s in
      (wrap_error "filestorage: put" failure, s')

  unfoldable pub remove : Client → String → S → Option Err × S
  remove c key s =
      if str_eq key ""
      then (none, s)
      else let (failure, s') = minio.remove_object c.cfg.bucket key s in
        (wrap_error "filestorage: remove" failure, s')
