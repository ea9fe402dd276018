-- ===== src/Errors.antt =====
-- Go error values, and the walk of `errors.As` and `errors.Is` over their chains.
-- A nil error is `none` of `Option Err`. The constructors are the error types that the packages
-- build or look for (apperr/apperr.go, outbox/terminal.go, `fmt.Errorf` with `%w`, gRPC statuses,
-- `*pgconn.PgError`, package variables compared by identity) and any other value.
use hockey_libs.Prelude.{
  ◌≡◌, refl, ◌⊎◌, inl, inr, ◌≢◌, String, Bool, true, false, Option, none, some, List,
}

-- apperr.Kind
pub data Kind : Type 0 where
  unknown invalid_argument unauthenticated permission_denied not_found already_exists : Kind
  conflict failed_precondition rate_limited timeout unavailable internal : Kind

-- The exported fields of apperr.Error; the unexported `err` is the second argument of `app_wrap`.
pub record AppError : Type 0 where
  pub kind : Kind
  pub code : String
  pub message : String
  pub fields : List (String × String)

-- google.golang.org/grpc/codes
pub data Code : Type 0 where
  ok canceled unknown invalid_argument deadline_exceeded not_found already_exists : Code
  permission_denied resource_exhausted failed_precondition aborted out_of_range : Code
  unimplemented internal unavailable data_loss unauthenticated : Code

-- The messages that the packages attach to a status.
pub data Detail : Type 0 where
  error_info : String → String → Detail
  bad_request : List (String × String) → Detail

pub record Status : Type 0 where
  pub code : Code
  pub message : String
  pub details : List Detail

-- *pgconn.PgError: the fields that are read.
pub record PgError : Type 0 where
  pub code : String
  pub constraint_name : String

-- Package variables that are compared by identity.
pub data Sentinel : Type 0 where
  canceled deadline_exceeded no_rows server_stopped server_closed not_exist : Sentinel
  invalid_token wrong_type mismatch invalid_hash unsupported_version busy : Sentinel
  object_not_found too_large not_an_image too_many_pix not_ready : Sentinel

pub Sentinel-discrete : Discrete Sentinel
Sentinel-discrete = hlevel

pub data Err : Type 0 where
  app : AppError → Err
  app_wrap : AppError → Err → Err
  wrapped : String → Err → Err
  joined : Err → Err → Err
  status : Status → Err
  pg : PgError → Err
  terminal : Err → Err
  conflict : Err → Err
  sentinel : Sentinel → Err
  plain : String → Err

abbrev pub first {ℓ} : {A : Type ℓ} → Option A → Option A → Option A
first none y = y
first (some x) y = some x

-- `errors.As`: the first error of the tree, in pre-order, that the probe accepts.
unfoldable pub walk {ℓ} : {A : Type ℓ} → (Err → Option A) → Err → Option A
walk probe (app f) = probe (app f)
walk probe (app_wrap f e) = first (probe (app_wrap f e)) (walk probe e)
walk probe (wrapped t e) = first (probe (wrapped t e)) (walk probe e)
walk probe (joined a b) = first (probe (joined a b)) (first (walk probe a) (walk probe b))
walk probe (status s) = probe (status s)
walk probe (pg p) = probe (pg p)
walk probe (terminal e) = first (probe (terminal e)) (walk probe e)
walk probe (conflict e) = first (probe (conflict e)) (walk probe e)
walk probe (sentinel s) = probe (sentinel s)
walk probe (plain t) = probe (plain t)

abbrev pub is_some {ℓ} : {A : Type ℓ} → Option A → Bool
is_some none = false
is_some (some x) = true

abbrev pub same_sentinel : Sentinel → Err → Option (Unit {0})
same_sentinel s (sentinel t) = elim (Sentinel-discrete s t) [ yes _ ↦ some tt | no _ ↦ none ]
same_sentinel s _ = none

-- `errors.Is(err, target)` at a package variable.
unfoldable pub is : Sentinel → Err → Bool
unfolding walk Sentinel-discrete
is s e = is_some (walk (same_sentinel s) e)

-- A pair of a value and an error of which exactly one counts.
pub data Result (A : Type 0) : Type 0 where
  ret : A → Result A
  err : Err → Result A

pub Result-cases : {A : Type 0} (r : Result A) → ((e : Err) × (r ≡ err e)) ⊎ ((a : A) × (r ≡ ret a))
Result-cases (err e) = inl (e, refl)
Result-cases (ret a) = inr (a, refl)

pub ret-inj : {A : Type 0} (x y : A) → ret x ≡ ret y → x ≡ y
ret-inj x y e = cc

pub ret-ne-err : {A : Type 0} (x : A) (e : Err) → err e ≢ ret x
ret-ne-err x e h = cc
