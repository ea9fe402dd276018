-- ===== src/Outbox/Terminal.antt =====
-- outbox/terminal.go: errors that a Sender marks as final, or as a conflict with another delivery.
use hockey_libs.Prelude.{Bool, Option, none, some}
use hockey_libs.Errors.{Err, terminal, conflict, walk, is_some}

-- `Terminal` and `Conflict`: nil stays nil.
unfoldable pub mark_terminal : Option Err → Option Err
mark_terminal none = none
mark_terminal (some e) = some (terminal e)

unfoldable pub mark_conflict : Option Err → Option Err
mark_conflict none = none
mark_conflict (some e) = some (conflict e)

abbrev pub terminal_probe : Err → Option Err
terminal_probe (terminal e) = some e
terminal_probe _ = none

abbrev pub conflict_probe : Err → Option Err
conflict_probe (conflict e) = some e
conflict_probe _ = none

unfoldable pub is_terminal : Err → Bool
unfolding walk
is_terminal e = is_some (walk terminal_probe e)

unfoldable pub is_conflict : Err → Bool
unfolding walk
is_conflict e = is_some (walk conflict_probe e)
