-- ===== src/Grpcgateway/Examples.antt =====
-- grpcgateway/gateway.go: two upstreams of which the second has no target.
use hockey_libs.Prelude.{true, none, some, List, [], ◌∷◌, ◌≡◌, seconds, refl}
use hockey_libs.Errors.{plain}
use hockey_libs.Grpcgateway.{Upstream, opens, new}

abbrev upstreams : List Upstream
upstreams =
    record { name = "teams"; target = ":1"; dial = λ target. none; register = none ∷ [] }
    ∷ record { name = "games"; target = ""; dial = λ target. none; register = [] }
    ∷ []

-- The connection of the first one stays open.
leak_test :
    new
      (record { address = ":80"; enabled = true; allowed_origins = []; dial_timeout = seconds 5 })
      upstreams
    ≡ (opens "teams" ∷ [], some (plain "grpcgateway: upstream has no target"))
unfolding new
leak_test = refl
