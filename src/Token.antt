-- ===== src/Token.antt =====
-- token/: the claims of a token. `Manager` issues and parses tokens.
pub mod Jwt
pub mod Manager
use hockey_libs.Prelude.{
  ℕ, String, Bool, true, false, ◌||◌, Option, none, some, List, [], ◌∷◌, str_eq, contains, Time,
}

-- token.Claims, with the fields of jwt.RegisteredClaims that the package sets.
pub record Claims : Type 0 where
  pub subject : String
  pub issuer : String
  pub audience : List String
  pub issued_at : Time
  pub not_before : Time
  pub expires_at : Time
  pub id : String
  pub kind : String
  pub session_id : String
  pub roles : List String

-- `(*Claims).UserID`; the pointer may be nil.
unfoldable pub user_id : Option Claims → String
user_id none = ""
user_id (some c) = c.subject

unfoldable pub has_role : Option Claims → String → Bool
unfolding contains
has_role none role = false
has_role (some c) role = contains c.roles role
