-- ===== src/Grpcgateway/Cors.antt =====
-- grpcgateway/cors.go: which pages of other origins may call the gateway. `Vary` is among the headers
-- that are set.
use hockey_libs.Prelude.{
  ℕ, String, Option, none, some, List, [], ◌∷◌, ◌++◌, map, str_eq, contains, trim_space, concat,
  if◌then◌else◌,
}
use hockey_libs.Grpcserver.RequestId.{metadata_key}

pub record Request : Type 0 where
  pub method : String
  pub origin : String

-- The headers that are set, and the status if the next handler is not called.
pub record Answer : Type 0 where
  pub headers : List (String × String)
  pub status : Option ℕ

abbrev pub origin_headers : String → List (String × String)
origin_headers origin =
    ("Access-Control-Allow-Origin", origin)
    ∷ ("Access-Control-Allow-Credentials", "true")
    ∷ ("Vary", "Origin")
    ∷ ("Access-Control-Expose-Headers", metadata_key)
    ∷ []

-- Twelve hours, in seconds.
abbrev pub preflight_headers : List (String × String)
preflight_headers =
    ("Access-Control-Allow-Methods", "GET, POST, PATCH, PUT, DELETE, OPTIONS")
    ∷ ("Access-Control-Allow-Headers", concat ("Authorization, Content-Type, " ∷ metadata_key ∷ []))
    ∷ ("Access-Control-Max-Age", "43200")
    ∷ []

-- `WithCORS`
unfoldable pub with_cors : List String → Request → Answer
unfolding contains trim_space
with_cors allowed r =
    if contains (map trim_space allowed) r.origin
    then if str_eq r.method "OPTIONS"
      then record { headers = origin_headers r.origin ++ preflight_headers; status = some 204 }
      else record { headers = origin_headers r.origin; status = none }
    else record { headers = []; status = none }
