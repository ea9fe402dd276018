-- ===== src/Grpcserver/ErrorMap/Sample.antt =====
-- grpcserver/errors.go: a status package that appends details to a status.
use hockey_libs.Prelude.{◌≡◌, refl, Bool, true, false, Option, none, some, [], ◌∷◌, ◌++◌, arith}
use hockey_libs.Errors.{Kind, Code, Status, Detail, Err, wrapped, plain}
use hockey_libs.Errors
use hockey_libs.Grpcserver.ErrorMap.{StatusLib}

abbrev pub has_status : Err → Bool
has_status (Errors.status s) = true
has_status _ = false

abbrev pub status_code : Option Err → Code
status_code none = Code.ok
status_code (some (Errors.status s)) = s.code
status_code (some _) = Code.unknown

abbrev pub with_details : Status → Detail → Option Status
with_details s d = some (record s { details = s.details ++ (d ∷ []) })

pub with_details_keeps :
    (s t : Status) (d : Detail)
    → with_details s d ≡ some t
    → (t.code ≡ s.code) × (t.message ≡ s.message)
with_details_keeps s t d h = ground arith

abbrev pub appending : StatusLib
appending = record {
  has_status = has_status;
  with_details = with_details;
  status_code = status_code;
  has_status-status = λ s. refl;
  with_details_keeps = with_details_keeps;
}
