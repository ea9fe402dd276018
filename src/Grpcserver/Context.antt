-- ===== src/Grpcserver/Context.antt =====
-- The values that the interceptors of grpcserver/ read from a context and put into it.
use hockey_libs.Prelude.{Bool, Time, String, Option, none, some, List, [], ◌∷◌, ◌++◌, lookup}
use hockey_libs.Token.{Claims, user_id, has_role}

-- `metadata` is the incoming metadata, if there is any; its keys are in lower case. `peer` is the
-- text of the peer's address, if it has one.
pub record Ctx : Type 0 where
  pub metadata : Option (List (String × List String))
  pub peer : Option String
  pub claims : Option Claims
  pub request_id : Option String
  pub deadline : Option Time
  pub attrs : List (String × String)

-- `token.NewContext` and `token.FromContext`: a nil pointer is no claims.
unfoldable pub new_context : Ctx → Option Claims → Ctx
new_context ctx claims = record ctx { claims = claims }

-- `token.UserID` and `token.HasRole`.
unfoldable pub user_id_of : Ctx → String
unfolding user_id
user_id_of ctx = user_id ctx.claims

unfoldable pub has_role_of : Ctx → String → Bool
unfolding has_role
has_role_of ctx role = has_role ctx.claims role

-- `logger.Attrs` with one attribute; no attributes are the empty list.
unfoldable pub with_attr : Ctx → String → String → Ctx
with_attr ctx key value = record ctx { attrs = ctx.attrs ++ (key, value) ∷ [] }

abbrev pub first_or_empty : Option (List String) → String
first_or_empty none = ""
first_or_empty (some []) = ""
first_or_empty (some (v ∷ vs)) = v

unfoldable pub metadata_value : List (String × List String) → String → String
unfolding lookup
metadata_value md key = first_or_empty (lookup key md)
