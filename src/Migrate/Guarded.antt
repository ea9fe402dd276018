-- ===== src/Migrate/Guarded.antt =====
-- migrate/migrate.go: what a command runs on.
use hockey_libs.Prelude.{
  ap, arith, pos, Bool, true, false, Option, none, some, ◌≡◌, refl, str_eq, Bool-cases,
  Option-cases, inl, inr, ◌⊎◌, ◌≢◌, eq_iff, String,
}
use hockey_libs.Errors.{Err, Result-cases, ret}
use hockey_libs.Postgresql.Config.{Config as DbConfig, Urls, validate, dsn_string}
use hockey_libs.Migrate.{
  Goose, Config, Action, locker_of, run_action, with_db, with_conn, with_provider, table_of,
  logger_of,
}

abbrev is_none : {A : Type 0} → Option A → Bool
is_none none = true
is_none (some x) = false

abbrev is_error : Option Err → Bool
is_error none = false
is_error (some e) = true

module _ {S : Type 0} (g : Goose S) (urls : Urls) where
  -- The action did not run, and the command says so.
  abbrev pub Refused : {A : Type 0} → A → A × Option Err × S → Type 0
  Refused initial r = (r.0 ≡ initial) × (is_error r.1 ≡ true)

  -- The database, with its one connection, and the state once it is open.
  abbrev pub opened : g.ConnConfig → S → g.Db × S
  opened conn s =
      let (db, s') = g.open_db conn s in
      (db, g.set_max_idle_conns db (pos 1) (g.set_max_open_conns db (pos 1) s'))

  -- The table and the logger that the settings ask for: their own, or the default one.
  abbrev pub Table : Config g.Logger → String → Type 0
  Table cfg table =
      ((cfg.table ≡ "") × (table ≡ "schema_migrations")) ⊎ ((cfg.table ≢ "") × (table ≡ cfg.table))

  abbrev pub Logs : Config g.Logger → g.Logger → Type 0
  Logs cfg logger = ((cfg.logger ≡ none) × (logger ≡ g.default_logger)) ⊎ (cfg.logger ≡ some logger)

  table_of-Table : (cfg : Config g.Logger) → Table cfg (table_of g urls cfg)
  table_of-Table cfg = elim (Bool-cases (str_eq cfg.table "")) [
    | inl e ↦ inl ((eq_iff cfg.table "").0 e, rw e refl)
    | inr e ↦ inr ((λ p. cc ((eq_iff cfg.table "").1 p, e)), rw e refl)
  ]

  logger_of-Logs : (cfg : Config g.Logger) → Logs cfg (logger_of g urls cfg)
  logger_of-Logs cfg = elim (Option-cases cfg.logger) [
    | inl e ↦ inl (e, rw e refl)
    | inr (l, e) ↦ inr (rw e refl)
  ]

  -- The action ran, on a provider for the right table, with a lock unless it is disabled, over a
  -- database that had answered a ping; the command passes on its value and whether it failed.
  pub record Ran {A : Type 0} (cfg : Config g.Logger) (action : Action g urls A) (db : g.Db) (s : S)
      (r : A × Option Err × S) : Type 0 where
    pub files : g.Fs
    pub locker : Option g.Locker
    pub provider : g.Provider
    pub answered : (g.ping db s).0 ≡ none
    pub locked : is_none locker ≡ cfg.disable_session_lock
    pub table : String
    pub asked : Table cfg table
    pub logger : g.Logger
    pub logs : Logs cfg logger
    pub made : g.new_provider db files table logger locker ≡ ret provider
    pub value : r.0 ≡ (action provider (g.ping db s).1).0
    pub failed : is_error r.1 ≡ is_error (action provider (g.ping db s).1).1
    pub state : r.2 ≡ (action provider (g.ping db s).1).2

  locker_of-locked :
      (cfg : Config g.Logger) (l : Option g.Locker)
      → locker_of g urls cfg ≡ ret l
      → is_none l ≡ cfg.disable_session_lock
  unfolding locker_of
  locker_of-locked cfg l h = elim (Bool-cases cfg.disable_session_lock) [
    | inl d ↦ ground (arith, (rw (d, locker_of) at h))
    | inr d ↦ elim (Result-cases g.new_locker) [
      | inl (e, k) ↦ cc (rw (d, k, locker_of) at h)
      | inr (x, k) ↦ ground (arith, (rw (d, k, locker_of) at h))
    ]
  ]

  run_action-value :
      {A : Type 0} (initial : A) (action : Action g urls A) (p : g.Provider) (s : S)
      → let r = run_action g urls initial action p s in
        (r.0 ≡ (action p s).0) × (is_error r.1 ≡ is_error (action p s).1) × (r.2 ≡ (action p s).2)
  unfolding run_action
  run_action-value initial action p s = elim (Option-cases (action p s).1) [
    | inl e ↦ rw (e, run_action) (refl, refl, refl)
    | inr (x, e) ↦ rw (e, run_action) (refl, refl, refl)
  ]

  with_db-Ran :
      {A : Type 0} (initial : A) (cfg : Config g.Logger) (files : g.Fs) (action : Action g urls A)
      (db : g.Db) (s : S)
      → let r = with_db g urls initial cfg files action db s in
        (Refused initial r × (r.2 ≡ (g.ping db s).1)) ⊎ Ran cfg action db s r
  unfolding with_db
  with_db-Ran initial cfg files action db s = elim (Option-cases (g.ping db s).0) [
    | inr (x, e) ↦ inl (rw (e, with_db) ((refl, refl), refl))
    | inl e ↦ elim (Result-cases (locker_of g urls cfg)) [
      | inl (x, l) ↦ inl (rw (e, l, with_db) ((refl, refl), refl))
      | inr (locker, l) ↦
          elim (Result-cases
            (g.new_provider db files (table_of g urls cfg) (logger_of g urls cfg) locker)) [
              | inl (x, n) ↦ inl (rw (e, l, n, with_db) ((refl, refl), refl))
              | inr (p, n) ↦
                  let (value, failed, state) = run_action-value initial action p (g.ping db s).1 in
                  inr (record {
                    files = files;
                    locker = locker;
                    provider = p;
                    answered = e;
                    locked = locker_of-locked cfg locker l;
                    table = table_of g urls cfg;
                    asked = table_of-Table cfg;
                    logger = logger_of g urls cfg;
                    logs = logger_of-Logs cfg;
                    made = n;
                    value = rw (e, l, n, with_db) value;
                    failed = rw (e, l, n, with_db) failed;
                    state = rw (e, l, n, with_db) state;
                  })
            ]
    ]
  ]

  -- The command did nothing but, at most, open a database, ping it and close it.
  abbrev pub RefusedClosed : {A : Type 0} → A → S → A × Option Err × S → Type 0
  RefusedClosed initial s r =
      Refused initial r
      × ((r.2 ≡ s)
          ⊎ ((conn : g.ConnConfig) × (let (db, s') = opened conn s in
                r.2 ≡ g.close db (g.ping db s').1)))

  -- The command ran its action on a database that it opened, and closed it.
  abbrev pub RanClosed :
      {A : Type 0} → Config g.Logger → Action g urls A → S → A × Option Err × S → Type 0
  RanClosed {A} cfg action s r =
      (conn : g.ConnConfig) × (inner : A × Option Err × S) × (let (db, s') = opened conn s in
        Ran cfg action db s' inner × (r ≡ (inner.0, inner.1, g.close db inner.2)))

  with_conn-RanClosed :
      {A : Type 0} (initial : A) (cfg : Config g.Logger) (files : g.Fs) (action : Action g urls A)
      (conn : g.ConnConfig) (s : S)
      → let r = with_conn g urls initial cfg files action conn s in
        RefusedClosed initial s r ⊎ RanClosed cfg action s r
  unfolding with_conn
  with_conn-RanClosed initial cfg files action conn s =
      let (db, s') = opened conn s in
      elim (with_db-Ran initial cfg files action db s') [
        | inl (refused, state) ↦ inl (refused, inr (conn, ap (g.close db) state))
        | inr ran ↦ inr (conn, with_db g urls initial cfg files action db s', (ran, refl))
      ]

  -- A command either ends in an error without running its action, having opened, pinged and closed
  -- a database at most, or it runs it once: over a database that answered a ping, on a provider for
  -- the configured table, or `schema_migrations` if none is configured, with the session lock unless it is disabled.
  pub with_provider-RanClosed :
      {A : Type 0} (initial : A) (db_cfg : DbConfig) (fsys : g.Fs) (cfg : Config g.Logger)
      (action : Action g urls A) (s : S)
      → let r = with_provider g urls initial db_cfg fsys cfg action s in
        RefusedClosed initial s r ⊎ RanClosed cfg action s r
  unfolding with_provider
  with_provider-RanClosed initial db_cfg fsys cfg action s = elim (Bool-cases (str_eq cfg.dir "")) [
    | inl d ↦ inl (rw (d, with_provider) ((refl, refl), inl refl))
    | inr d ↦ elim (Option-cases (validate db_cfg)) [
      | inr (x, v) ↦ inl (rw (d, v, with_provider) ((refl, refl), inl refl))
      | inl v ↦ elim (Result-cases (g.sub fsys cfg.dir)) [
        | inl (x, f) ↦ inl (rw (d, v, f, with_provider) ((refl, refl), inl refl))
        | inr (files, f) ↦ elim (Result-cases (g.parse_config (dsn_string urls db_cfg))) [
          | inl (x, c) ↦ inl (rw (d, v, f, c, with_provider) ((refl, refl), inl refl))
          | inr (conn, c) ↦
              rw (d, v, f, c, with_provider) (with_conn-RanClosed initial cfg files action conn s)
        ]
      ]
    ]
  ]
