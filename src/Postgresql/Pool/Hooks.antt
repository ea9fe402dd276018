-- ===== src/Postgresql/Pool/Hooks.antt =====
-- postgresql/db.go: hooks on new connections.
use hockey_libs.Prelude.{Option, none, some, List, [], ◌∷◌, ◌≡◌, refl, ap, ◌∙◌}
use hockey_libs.Errors.{Err}
use hockey_libs.Postgresql.Pool.{Pgx, Hook, PoolConfig, Opt, chained, with_after_connect, apply_all}

module _ (x : Pgx) where
  -- A list of options, and the hooks that it registers, in the same order; the other options leave
  -- the hook of the settings alone.
  pub data Registers : List (Opt x) → List (Hook x) → Type 0 where
    nothing : Registers [] []
    a_hook :
        {hook : Hook x} {opts : List (Opt x)} {hooks : List (Hook x)}
        → Registers opts hooks
        → Registers (with_after_connect x hook ∷ opts) (hook ∷ hooks)
    other :
        {opt : Opt x} {opts : List (Opt x)} {hooks : List (Hook x)}
        → ((cfg : PoolConfig x) → (opt cfg).after_connect ≡ cfg.after_connect)
        → Registers opts hooks
        → Registers (opt ∷ opts) hooks

  -- What happens on a new connection.
  abbrev pub connected : Option (Hook x) → x.Conn → x.State → Option Err × x.State
  connected none conn s = (none, s)
  connected (some hook) conn s = hook conn s

  -- Hooks one after another, until one fails.
  abbrev pub run_hooks : List (Hook x) → x.Conn → Option Err × x.State → Option Err × x.State
  run_hooks [] conn r = r
  run_hooks (hook ∷ hooks) conn (none, s) = run_hooks hooks conn (hook conn s)
  run_hooks (hook ∷ hooks) conn (some e, s) = (some e, s)

  run_hooks_failed :
      (hooks : List (Hook x)) (conn : x.Conn) (e : Err) (s : x.State)
      → run_hooks hooks conn (some e, s) ≡ (some e, s)
  run_hooks_failed [] conn e s = refl
  run_hooks_failed (hook ∷ hooks) conn e s = refl

  after_previous :
      (hook : Hook x) (conn : x.Conn) (r : Option Err × x.State)
      → elim r.0 as (λ o. Option Err × x.State) [ none ↦ hook conn r.1 | some e ↦ (some e, r.1) ]
        ≡ run_hooks (hook ∷ []) conn r
  after_previous hook conn (none, s) = refl
  after_previous hook conn (some e, s) = refl

  connected-chained :
      (previous : Option (Hook x)) (hook : Hook x) (conn : x.Conn) (s : x.State)
      → chained x previous hook conn s ≡ run_hooks (hook ∷ []) conn (connected previous conn s)
  unfolding chained
  connected-chained none hook conn s = refl
  connected-chained (some previous) hook conn s = after_previous hook conn (previous conn s)

  run_hooks-cons :
      (hook : Hook x) (hooks : List (Hook x)) (conn : x.Conn) (r : Option Err × x.State)
      → run_hooks hooks conn (run_hooks (hook ∷ []) conn r) ≡ run_hooks (hook ∷ hooks) conn r
  run_hooks-cons hook hooks conn (none, s) = refl
  run_hooks-cons hook hooks conn (some e, s) = run_hooks_failed hooks conn e s

  -- On a new connection of a pool, the hook that its settings had runs first, then those of the
  -- options in their order, and the first that fails ends it; options that register no hook stand
  -- between them without effect on this.
  pub apply_all-Registers :
      (opts : List (Opt x)) (hooks : List (Hook x)) (cfg : PoolConfig x) (conn : x.Conn)
      (s : x.State)
      → Registers opts hooks
      → connected (apply_all x opts cfg).after_connect conn s
        ≡ run_hooks hooks conn (connected cfg.after_connect conn s)
  unfolding apply_all with_after_connect
  apply_all-Registers [] [] cfg conn s nothing = refl
  apply_all-Registers [] (hook ∷ hooks) cfg conn s r = elim r [ ]
  apply_all-Registers (o ∷ opts) (hook ∷ hooks) cfg conn s (a_hook r) =
      apply_all-Registers opts hooks (with_after_connect x hook cfg) conn s r
      ∙ ap (run_hooks hooks conn) (connected-chained cfg.after_connect hook conn s)
      ∙ run_hooks-cons hook hooks conn (connected cfg.after_connect conn s)
  apply_all-Registers (opt ∷ opts) hooks cfg conn s (other keeps r) =
      apply_all-Registers opts hooks (opt cfg) conn s r
      ∙ ap (λ o. run_hooks hooks conn (connected o conn s)) (keeps cfg)
