-- ===== src/Grpcserver/Server/Life.antt =====
-- grpcserver/server.go: the order of what a server does when it is stopped.
use hockey_libs.Prelude.{◌≡◌, Bool, true, false, not, ◌&&◌, List, [], ◌∷◌, arith}
use hockey_libs.Grpcserver.Server.{
  Config, Action, reports, serves, drains, graceful_stop, forced_stop, Events, stop, run,
}

-- What an observer keeps: what the health service reports, and whether the server is stopping.
pub record Seen : Type 0 where
  pub healthy : Bool
  pub stopping : Bool

-- Calls are turned away only when the health service does not report the server as serving; the
-- server is forced only when it was asked to stop before; and nothing starts anew when it stops.
abbrev pub orderly : Seen → List Action → Bool
orderly s [] = true
orderly s (reports b ∷ rest) = not (b && s.stopping) && orderly (record s { healthy = b }) rest
orderly s (serves ∷ rest) = not s.stopping && orderly s rest
orderly s (drains ∷ rest) = not s.healthy && orderly s rest
orderly s (graceful_stop ∷ rest) = not s.healthy && orderly (record s { stopping = true }) rest
orderly s (forced_stop ∷ rest) = s.stopping && orderly s rest

abbrev pub unseen : Seen
unseen = record { healthy = false; stopping = false }

module _ {R : Type 0} (cfg : Config R) where
  -- However the run of a server goes, it is orderly: where there is a health service, it reports the
  -- server as not serving before the server drains and stops; the server is forced only after it was
  -- asked to stop; and it does not report or serve again when it stops.
  pub run_orderly : (ev : Events) → orderly unseen (run cfg ev).0 ≡ true
  unfolding run stop
  run_orderly ev = ground arith
