-- ===== src/Migrate.antt =====
-- migrate/migrate.go: the commands that bring the schema of a database up or down. github.com/pressly/goose
-- and pgx, which read and run the migrations, are parameters. The messages of errors end with the
-- database and the directory in the source.
pub mod Handles
pub mod Guarded
mod Examples
use hockey_libs.Prelude.{
  ℤ, pos, String, Bool, true, false, Option, none, some, List, [], ◌∷◌, str_eq, if◌then◌else◌,
}
use hockey_libs.Errors.{Err, plain, wrapped, Result, ret, err}
use hockey_libs.Postgresql.Config.{Config as DbConfig, Urls, validate, dsn_string}

abbrev pub table_name : String
table_name = "schema_migrations"

-- `S` is the state of the program and of the database.
pub record Goose (S : Type 0) : Type 1 where
  pub Fs : Type 0
  pub ConnConfig : Type 0
  pub Db : Type 0
  pub Locker : Type 0
  pub Logger : Type 0
  pub Provider : Type 0
  pub Applied : Type 0
  pub Status : Type 0
  pub sub : Fs → String → Result Fs
  pub parse_config : String → Result ConnConfig
  pub open_db : ConnConfig → S → Db × S
  pub set_max_open_conns : Db → ℤ → S → S
  pub set_max_idle_conns : Db → ℤ → S → S
  pub ping : Db → S → Option Err × S
  pub close : Db → S → S
  pub new_locker : Result Locker
  pub new_provider : Db → Fs → String → Logger → Option Locker → Result Provider
  pub up : Provider → S → Result (List Applied) × S
  pub up_to : Provider → ℤ → S → Result (List Applied) × S
  pub down : Provider → S → Result Applied × S
  pub get_version : Provider → S → (ℤ × Option Err) × S
  pub has_pending : Provider → S → (Bool × Option Err) × S
  pub status : Provider → S → (List Status × Option Err) × S
  pub default_logger : Logger
  pub log_applied : Logger → Applied → S → S

pub record Config (Logger : Type 0) : Type 0 where
  pub dir : String
  pub logger : Option Logger
  pub table : String
  pub disable_session_lock : Bool

abbrev pub error_of : {A : Type 0} → Result A → Option Err
error_of (ret x) = none
error_of (err e) = some e

module _ {S : Type 0} (g : Goose S) (urls : Urls) where
  -- A function that `withProvider` runs: what it leaves in the variable that it captures, its error,
  -- and the state.
  abbrev pub Action : Type 0 → Type 0
  Action A = g.Provider → S → A × Option Err × S

  abbrev pub logger_of : Config g.Logger → g.Logger
  logger_of cfg = elim cfg.logger [ none ↦ g.default_logger | some l ↦ l ]

  abbrev pub table_of : Config g.Logger → String
  table_of cfg = if str_eq cfg.table "" then table_name else cfg.table

  -- `nil` if the lock is disabled.
  unfoldable pub locker_of : Config g.Logger → Result (Option g.Locker)
  locker_of cfg = if cfg.disable_session_lock then ret none else elim g.new_locker [
    | err e ↦ err (wrapped "migrate: create session locker" e)
    | ret l ↦ ret (some l)
  ]

  unfoldable pub run_action : {A : Type 0} → A → Action A → g.Provider → S → A × Option Err × S
  run_action initial action p s =
      let (value, e, s') = action p s in
      elim e [ none ↦ (value, none, s') | some x ↦ (value, some (wrapped "migrate" x), s') ]

  -- What `withProvider` does between the opening of the database and its deferred closing.
  unfoldable pub with_db :
      {A : Type 0} → A → Config g.Logger → g.Fs → Action A → g.Db → S → A × Option Err × S
  unfolding locker_of run_action
  with_db initial cfg files action db s =
      let (e, s') = g.ping db s in
      elim e [
        | some x ↦ (initial, some (wrapped "migrate: ping" x), s')
        | none ↦ elim (locker_of cfg) [
          | err x ↦ (initial, some x, s')
          | ret locker ↦ elim (g.new_provider db files (table_of cfg) (logger_of cfg) locker) [
            | err x ↦ (initial, some (wrapped "migrate: create provider" x), s')
            | ret p ↦ run_action initial action p s'
          ]
        ]
      ]

  unfoldable pub with_conn :
      {A : Type 0} → A → Config g.Logger → g.Fs → Action A → g.ConnConfig → S → A × Option Err × S
  unfolding with_db
  with_conn initial cfg files action conn s =
      let (db, opened) = g.open_db conn s in
      let limited = g.set_max_idle_conns db (pos 1) (g.set_max_open_conns db (pos 1) opened) in
      let (value, e, s') = with_db initial cfg files action db limited in (value, e, g.close db s')

  unfoldable pub with_provider :
      {A : Type 0} → A → DbConfig → g.Fs → Config g.Logger → Action A → S → A × Option Err × S
  unfolding with_conn
  with_provider initial db_cfg fsys cfg action s =
      if str_eq cfg.dir ""
      then (initial, some (plain "migrate: dir is required"), s)
      else elim (validate db_cfg) [
        | some x ↦ (initial, some x, s)
        | none ↦ elim (g.sub fsys cfg.dir) [
          | err x ↦ (initial, some (wrapped "migrate: open" x), s)
          | ret files ↦ elim (g.parse_config (dsn_string urls db_cfg)) [
            | err x ↦ (initial, some (wrapped "migrate: parse config" x), s)
            | ret conn ↦ with_conn initial cfg files action conn s
          ]
        ]
      ]

  -- The functions of the commands.
  abbrev pub log_all : g.Logger → List g.Applied → S → S
  log_all logger [] s = s
  log_all logger (a ∷ rest) s = log_all logger rest (g.log_applied logger a s)

  unfoldable pub up_action : Config g.Logger → Action ℤ
  up_action cfg p s =
      let (result, s') = g.up p s in
      elim result [
        | err e ↦ (pos 0, some e, s')
        | ret applied ↦
            let ((version, e), s'') = g.get_version p (log_all (logger_of cfg) applied s') in
            (version, e, s'')
      ]

  unfoldable pub up : DbConfig → g.Fs → Config g.Logger → S → ℤ × Option Err × S
  unfolding with_provider up_action
  up db_cfg fsys cfg s = with_provider (pos 0) db_cfg fsys cfg (up_action cfg) s

  abbrev pub up_to_action : ℤ → Action (Unit {0})
  up_to_action version p s = let (r, s') = g.up_to p version s in (tt, error_of r, s')

  unfoldable pub up_to : DbConfig → g.Fs → Config g.Logger → ℤ → S → Unit {0} × Option Err × S
  unfolding with_provider
  up_to db_cfg fsys cfg version s = with_provider tt db_cfg fsys cfg (up_to_action version) s

  abbrev pub down_action : Action (Unit {0})
  down_action p s = let (r, s') = g.down p s in (tt, error_of r, s')

  unfoldable pub down : DbConfig → g.Fs → Config g.Logger → S → Unit {0} × Option Err × S
  unfolding with_provider
  down db_cfg fsys cfg s = with_provider tt db_cfg fsys cfg down_action s

  abbrev pub version_action : Action ℤ
  version_action p s = let ((v, e), s') = g.get_version p s in (v, e, s')

  unfoldable pub version : DbConfig → g.Fs → Config g.Logger → S → ℤ × Option Err × S
  unfolding with_provider
  version db_cfg fsys cfg s = with_provider (pos 0) db_cfg fsys cfg version_action s

  abbrev pub has_pending_action : Action Bool
  has_pending_action p s = let ((b, e), s') = g.has_pending p s in (b, e, s')

  unfoldable pub has_pending : DbConfig → g.Fs → Config g.Logger → S → Bool × Option Err × S
  unfolding with_provider
  has_pending db_cfg fsys cfg s = with_provider false db_cfg fsys cfg has_pending_action s

  abbrev pub status_action : Action (List g.Status)
  status_action p s = let ((xs, e), s') = g.status p s in (xs, e, s')

  unfoldable pub status : DbConfig → g.Fs → Config g.Logger → S → List g.Status × Option Err × S
  unfolding with_provider
  status db_cfg fsys cfg s = with_provider [] db_cfg fsys cfg status_action s
