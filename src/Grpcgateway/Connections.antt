-- ===== src/Grpcgateway/Connections.antt =====
-- grpcgateway/gateway.go: the connections that `New` leaves open.
use hockey_libs.Prelude.{ℕ, suc, ◌-◌, ◌&&◌, not, Bool, List, [], ◌∷◌, str_eq, if◌then◌else◌}
use hockey_libs.Errors.{is_some}
use hockey_libs.Grpcgateway.{Upstream, Action, opens, closes, dial_target, registered}

-- How many connections are open after some actions.
abbrev pub still_open : ℕ → List Action → ℕ
still_open n [] = n
still_open n (opens name ∷ actions) = still_open (suc n) actions
still_open n (closes name ∷ actions) = still_open (n - 1) actions

-- An upstream that has a target, can be dialled and can be registered.
abbrev pub joins : Upstream → Bool
joins u =
    not (str_eq u.target "")
    && (not (is_some (u.dial (dial_target u.target))) && not (is_some (registered u.register)))

-- The number of upstreams before the first that does not join.
abbrev pub leading : List Upstream → ℕ
leading [] = 0
leading (u ∷ upstreams) = let rest = leading upstreams in if joins u then suc rest else 0
