-- ===== src/Grpcserver/Validate.antt =====
-- grpcserver/validate.go: requests are validated before the handler. protovalidate is a parameter.
use hockey_libs.Prelude.{String, Option, none, some, List, [], ◌∷◌, str_eq, concat, if◌then◌else◌}
use hockey_libs.Errors.{Err, Code, Status, Detail, bad_request}
use hockey_libs.Errors
use hockey_libs.Grpcserver.ErrorMap.{StatusLib, status_error}
use hockey_libs.Grpcserver.Reply.{Interceptor, refuse}

-- A violation as its `Proto` tells: the path of the field, the id of the rule, the message.
pub record Violation : Type 0 where
  pub field_path : String
  pub rule_id : String
  pub message : String

-- `validate` is the validator's `Validate`; `as_validation` is `errors.As` for its error type, with
-- `none` for a violation that has no `Proto`.
pub record Validator (Req : Type 0) : Type 0 where
  pub validate : Req → Option Err
  pub as_validation : Err → Option (List (Option Violation))

abbrev pub field_of : Violation → String
field_of v = if str_eq v.field_path "" then v.rule_id else v.field_path

unfoldable pub violations_of : List (Option Violation) → List (String × String)
violations_of [] = []
violations_of (none ∷ vs) = violations_of vs
violations_of (some v ∷ vs) = (field_of v, v.message) ∷ violations_of vs

-- `strings.Join(messages, "; ")`
unfoldable pub join : List (String × String) → List String
join [] = []
join ((field, description) ∷ []) = field ∷ ": " ∷ description ∷ []
join ((field, description) ∷ next ∷ more) = field ∷ ": " ∷ description ∷ "; " ∷ join (next ∷ more)

module _ (lib : StatusLib) {Req : Type 0} (v : Validator Req) where
  -- `validationStatus`
  unfoldable pub validation_status : Err → Err
  unfolding violations_of join
  validation_status e = elim (v.as_validation e) [
    | none ↦ status_error Code.internal "validation failed"
    | some vs ↦
        let fields = violations_of vs in
        let st : Status = record {
          code = Code.invalid_argument;
          message = concat (join fields);
          details = [];
        } in
        elim (lib.with_details st (bad_request fields)) [
          | none ↦ Errors.status st
          | some detailed ↦ Errors.status detailed
        ]
  ]

  -- `ValidationUnaryInterceptor`, for a request that is `none` if it is no proto message.
  unfoldable pub validation : {R : Type 0} → Option Req → Interceptor R
  unfolding validation_status
  validation none method handler ctx = handler ctx
  validation (some req) method handler ctx = elim (v.validate req) [
    | some e ↦ refuse (validation_status e)
    | none ↦ handler ctx
  ]
