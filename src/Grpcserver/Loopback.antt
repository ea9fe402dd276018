-- ===== src/Grpcserver/Loopback.antt =====
-- grpcserver/loopback.go: the address by which a service reaches its own listener. net is a parameter.
use hockey_libs.Prelude.{◌≡◌, String, Option, none, some, List, [], ◌∷◌, contains, if◌then◌else◌}

-- net.SplitHostPort, none for its error, and net.JoinHostPort; what was joined is split again.
pub record HostPort : Type 0 where
  pub split : String → Option (String × String)
  pub join : String → String → String
  pub split-join : (host port : String) → split (join host port) ≡ some (host, port)

-- The hosts that stand for every address.
abbrev pub any_host : List String
any_host = "" ∷ "0.0.0.0" ∷ "::" ∷ "[::]" ∷ []

abbrev pub local_host : String → String
local_host host = if contains any_host host then "localhost" else host

unfoldable pub loopback_target : HostPort → String → String
unfolding contains
loopback_target net listen = elim (net.split listen) [
  | none ↦ net.join "localhost" listen
  | some (host, port) ↦ net.join (local_host host) port
]
