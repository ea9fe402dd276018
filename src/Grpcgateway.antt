-- ===== src/Grpcgateway.antt =====
-- grpcgateway/gateway.go: the settings and the upstreams of an HTTP gateway, and the headers that pass it.
-- The gateway's runtime and grpc are parameters.
pub mod Cors
pub mod Connections
mod Examples
use Prim.Native.Char.{code}
use Prim.Native.String
use hockey_libs.Prelude.{
  ◌≡◌, refl, ℕ, ◌==◌, String, Bool, Option, none, some, List, [], ◌∷◌, str_eq, concat, Duration,
  seconds, nonzero_or, if◌then◌else◌,
}
use hockey_libs.Errors.{Err, plain, wrapped}
use hockey_libs.Grpcserver.RequestId.{metadata_key}

-- An upstream with what grpc.NewClient answers for a target, and each registration.
pub record Upstream : Type 0 where
  pub name : String
  pub target : String
  pub dial : String → Option Err
  pub register : List (Option Err)

pub record Config : Type 0 where
  pub address : String
  pub enabled : Bool
  pub allowed_origins : List String
  pub dial_timeout : Duration

abbrev pub with_defaults : Config → Config
with_defaults c = record c { dial_timeout = nonzero_or c.dial_timeout (seconds 5) }

abbrev colon : ℕ
colon = 58

-- A target without a host is one of this machine.
unfoldable pub dial_target : String → String
dial_target String.[] = ""
dial_target (String.◌∷◌ c s) =
    let target = String.◌∷◌ c s in
    if code c == colon then concat ("localhost" ∷ target ∷ []) else target

-- What `New` does with the connection of an upstream.
pub data Action : Type 0 where
  opens closes : String → Action

-- The first registration that fails.
unfoldable pub registered : List (Option Err) → Option Err
registered [] = none
registered (none ∷ more) = registered more
registered (some e ∷ more) = some e

-- One upstream, with the actions and the error of the upstreams after it.
abbrev pub one_upstream : Upstream → List Action × Option Err → List Action × Option Err
one_upstream u rest =
    if str_eq u.target ""
    then ([], some (plain "grpcgateway: upstream has no target"))
    else elim (u.dial (dial_target u.target)) [
      | some e ↦ ([], some (wrapped "grpcgateway: dial" e))
      | none ↦ elim (registered u.register) [
        | some e ↦ (opens u.name ∷ closes u.name ∷ [], some (wrapped "grpcgateway: register" e))
        | none ↦ (opens u.name ∷ rest.0, rest.1)
      ]
    ]

unfoldable pub connect : List Upstream → List Action × Option Err
unfolding registered dial_target
connect [] = ([], none)
connect (u ∷ upstreams) = one_upstream u (connect upstreams)

-- `New`: the actions, and the error or none for a handler.
unfoldable pub new : Config → List Upstream → List Action × Option Err
unfolding connect
new c [] =
    if str_eq c.address ""
    then ([], some (plain "grpcgateway: HTTP_API_ADDRESS is required when the gateway is enabled"))
    else ([], some (plain "grpcgateway: at least one upstream is required"))
new c (u ∷ upstreams) =
    if str_eq c.address ""
    then ([], some (plain "grpcgateway: HTTP_API_ADDRESS is required when the gateway is enabled"))
    else connect (u ∷ upstreams)

local_test : dial_target ":9090" ≡ "localhost:9090"
unfolding dial_target
local_test = refl

-- strings.ToLower, and the matcher of the gateway's runtime.
pub record Runtime : Type 0 where
  pub to_lower : String → String
  pub default_matcher : String → Option String

module _ (runtime : Runtime) where
  unfoldable pub incoming_header_matcher : String → Option String
  incoming_header_matcher key =
      let lower = runtime.to_lower key in
      if str_eq lower "authorization"
      then some lower
      else if str_eq lower metadata_key
      then some lower
      else if str_eq lower "user-agent"
      then some "x-client-user-agent"
      else runtime.default_matcher key

  -- `EqualFold` with the key, which is ASCII.
  unfoldable pub outgoing_header_matcher : String → Option String
  outgoing_header_matcher key =
      if str_eq (runtime.to_lower key) metadata_key
      then some metadata_key
      else runtime.default_matcher key
