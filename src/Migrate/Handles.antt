-- ===== src/Migrate/Handles.antt =====
-- migrate/migrate.go: no command leaves a connection to the database open.
use hockey_libs.Prelude.{
  ℕ, ℤ, pos, suc, ◌-◌, false, List, [], ◌∷◌, ◌≡◌, refl, ◌∙◌, arith, str_eq, Bool-cases,
  Option-cases, inl, inr,
}
use hockey_libs.Errors.{Result-cases}
use hockey_libs.Postgresql.Config.{Config as DbConfig, Urls, validate, dsn_string}
use hockey_libs.Migrate.{
  Goose, Config, Action, locker_of, run_action, with_db, with_conn, with_provider, table_of,
  logger_of, log_all, up_action, up_to_action, down_action, version_action, has_pending_action,
  status_action, up, up_to, down, version, has_pending, status,
}

-- How many databases are open. Opening one and closing one count, and what goose, a ping and a log
-- line do inside does not.
pub record Counts {S : Type 0} (g : Goose S) : Type 0 where
  pub alive : S → ℕ
  pub opens : (c : g.ConnConfig) (s : S) → alive (g.open_db c s).1 ≡ suc (alive s)
  pub closes : (db : g.Db) (s : S) → alive (g.close db s) ≡ alive s - 1
  pub limits_open : (db : g.Db) (n : ℤ) (s : S) → alive (g.set_max_open_conns db n s) ≡ alive s
  pub limits_idle : (db : g.Db) (n : ℤ) (s : S) → alive (g.set_max_idle_conns db n s) ≡ alive s
  pub pings : (db : g.Db) (s : S) → alive (g.ping db s).1 ≡ alive s
  pub ups : (p : g.Provider) (s : S) → alive (g.up p s).1 ≡ alive s
  pub ups_to : (p : g.Provider) (v : ℤ) (s : S) → alive (g.up_to p v s).1 ≡ alive s
  pub downs : (p : g.Provider) (s : S) → alive (g.down p s).1 ≡ alive s
  pub versions : (p : g.Provider) (s : S) → alive (g.get_version p s).1 ≡ alive s
  pub pendings : (p : g.Provider) (s : S) → alive (g.has_pending p s).1 ≡ alive s
  pub statuses : (p : g.Provider) (s : S) → alive (g.status p s).1 ≡ alive s
  pub logs : (l : g.Logger) (a : g.Applied) (s : S) → alive (g.log_applied l a s) ≡ alive s

module _ {S : Type 0} (g : Goose S) (urls : Urls) (counts : Counts g) where
  -- An action that opens and closes nothing.
  abbrev Neutral : {A : Type 0} → Action g urls A → Type 0
  Neutral action = (p : g.Provider) (s : S) → counts.alive (action p s).2 ≡ counts.alive s

  run_action-alive :
      {A : Type 0} (initial : A) (action : Action g urls A) (p : g.Provider) (s : S)
      → Neutral action
      → counts.alive (run_action g urls initial action p s).2 ≡ counts.alive s
  unfolding run_action
  run_action-alive initial action p s h = elim (Option-cases (action p s).1) [
    | inl e ↦ rw (e, run_action) (h p s)
    | inr (x, e) ↦ rw (e, run_action) (h p s)
  ]

  with_db-alive :
      {A : Type 0} (initial : A) (cfg : Config g.Logger) (files : g.Fs) (action : Action g urls A)
      (db : g.Db) (s : S)
      → Neutral action
      → counts.alive (with_db g urls initial cfg files action db s).2 ≡ counts.alive s
  unfolding with_db
  with_db-alive initial cfg files action db s h = elim (Option-cases (g.ping db s).0) [
    | inr (x, e) ↦ rw (e, with_db) (counts.pings db s)
    | inl e ↦ elim (Result-cases (locker_of g urls cfg)) [
      | inl (x, l) ↦ rw (e, l, with_db) (counts.pings db s)
      | inr (locker, l) ↦
          elim (Result-cases
            (g.new_provider db files (table_of g urls cfg) (logger_of g urls cfg) locker)) [
              | inl (x, n) ↦ rw (e, l, n, with_db) (counts.pings db s)
              | inr (p, n) ↦
                  rw (e, l, n, with_db)
                    (run_action-alive initial action p (g.ping db s).1 h ∙ counts.pings db s)
            ]
    ]
  ]

  with_conn-alive :
      {A : Type 0} (initial : A) (cfg : Config g.Logger) (files : g.Fs) (action : Action g urls A)
      (conn : g.ConnConfig) (s : S)
      → Neutral action
      → counts.alive (with_conn g urls initial cfg files action conn s).2 ≡ counts.alive s
  unfolding with_conn
  with_conn-alive initial cfg files action conn s h =
      let (db, opened) = g.open_db conn s in
      let limited = g.set_max_open_conns db (pos 1) opened in
      let idle = g.set_max_idle_conns db (pos 1) limited in
      ground (
        arith,
        counts.closes db (with_db g urls initial cfg files action db idle).2,
        with_db-alive initial cfg files action db idle h,
        counts.limits_idle db (pos 1) limited,
        counts.limits_open db (pos 1) opened,
        counts.opens conn s,
      )

  with_provider-alive :
      {A : Type 0} (initial : A) (db_cfg : DbConfig) (fsys : g.Fs) (cfg : Config g.Logger)
      (action : Action g urls A) (s : S)
      → Neutral action
      → counts.alive (with_provider g urls initial db_cfg fsys cfg action s).2 ≡ counts.alive s
  unfolding with_provider
  with_provider-alive initial db_cfg fsys cfg action s h = elim (Bool-cases (str_eq cfg.dir "")) [
    | inl d ↦ rw (d, with_provider) refl
    | inr d ↦ elim (Option-cases (validate db_cfg)) [
      | inr (x, v) ↦ rw (d, v, with_provider) refl
      | inl v ↦ elim (Result-cases (g.sub fsys cfg.dir)) [
        | inl (x, f) ↦ rw (d, v, f, with_provider) refl
        | inr (files, f) ↦ elim (Result-cases (g.parse_config (dsn_string urls db_cfg))) [
          | inl (x, c) ↦ rw (d, v, f, c, with_provider) refl
          | inr (conn, c) ↦
              rw (d, v, f, c, with_provider) (with_conn-alive initial cfg files action conn s h)
        ]
      ]
    ]
  ]

  log_all-alive :
      (l : g.Logger) (xs : List g.Applied) (s : S)
      → counts.alive (log_all g urls l xs s) ≡ counts.alive s
  log_all-alive l [] s = refl
  log_all-alive l (a ∷ xs) s = log_all-alive l xs (g.log_applied l a s) ∙ counts.logs l a s

  up_action-Neutral : (cfg : Config g.Logger) → Neutral (up_action g urls cfg)
  unfolding up_action
  up_action-Neutral cfg p s = elim (Result-cases (g.up p s).0) [
    | inl (e, u) ↦ rw (u, up_action) (counts.ups p s)
    | inr (xs, u) ↦
        rw (u, up_action)
          (counts.versions p _ ∙ log_all-alive (logger_of g urls cfg) xs _ ∙ counts.ups p s)
  ]

  -- No command leaves a database open, wherever it fails: as many are open after it as before it, if
  -- the calls of goose and the log leave none open.
  pub commands_close :
      (db_cfg : DbConfig) (fsys : g.Fs) (cfg : Config g.Logger) (target : ℤ) (s : S)
      → (counts.alive (up g urls db_cfg fsys cfg s).2 ≡ counts.alive s)
        × (counts.alive (up_to g urls db_cfg fsys cfg target s).2 ≡ counts.alive s)
        × (counts.alive (down g urls db_cfg fsys cfg s).2 ≡ counts.alive s)
        × (counts.alive (version g urls db_cfg fsys cfg s).2 ≡ counts.alive s)
        × (counts.alive (has_pending g urls db_cfg fsys cfg s).2 ≡ counts.alive s)
        × (counts.alive (status g urls db_cfg fsys cfg s).2 ≡ counts.alive s)
  unfolding up up_to down version has_pending status
  commands_close db_cfg fsys cfg target s = (
    with_provider-alive (pos 0) db_cfg fsys cfg (up_action g urls cfg) s (up_action-Neutral cfg),
    with_provider-alive tt db_cfg fsys cfg (up_to_action g urls target) s
        (λ p s. counts.ups_to p target s),
    with_provider-alive tt db_cfg fsys cfg (down_action g urls) s (λ p s. counts.downs p s),
    with_provider-alive (pos 0) db_cfg fsys cfg (version_action g urls) s
        (λ p s. counts.versions p s),
    with_provider-alive false db_cfg fsys cfg (has_pending_action g urls) s
        (λ p s. counts.pendings p s),
    with_provider-alive [] db_cfg fsys cfg (status_action g urls) s (λ p s. counts.statuses p s),
  )
