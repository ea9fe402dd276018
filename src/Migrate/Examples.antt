-- ===== src/Migrate/Examples.antt =====
-- migrate/migrate.go: a database whose state is the number of open databases and its version, and
-- the theorems on it.
use hockey_libs.Prelude.{ℕ, pos, suc, ◌-◌, String, false, none, [], ◌∷◌, ◌≡◌, refl, ◌⊎◌}
use hockey_libs.Errors.{plain, ret, err}
use hockey_libs.Postgresql.Config.{default_config, Urls, validate, dsn_string, with_defaults}
use hockey_libs.Migrate.{
  Goose, Config, with_provider, with_conn, with_db, run_action, locker_of, up_action, up, up_to,
  down, version, has_pending, status,
}
use hockey_libs.Migrate.Handles.{Counts, commands_close}
use hockey_libs.Migrate.Guarded.{RefusedClosed, RanClosed, with_provider-RanClosed}

-- A database with two migrations.
abbrev State : Type 0
State = ℕ × ℕ

abbrev two_migrations : Goose State
two_migrations = record {
  Fs = String;
  ConnConfig = String;
  Db = String;
  Locker = String;
  Logger = String;
  Provider = String;
  Applied = ℕ;
  Status = ℕ;
  sub = λ fs dir. ret dir;
  parse_config = λ dsn. ret dsn;
  open_db = λ conn s. (conn, (suc s.0, s.1));
  set_max_open_conns = λ db n s. s;
  set_max_idle_conns = λ db n s. s;
  ping = λ db s. (none, s);
  close = λ db s. (s.0 - 1, s.1);
  new_locker = ret "lock";
  new_provider = λ db fs table logger locker. ret table;
  up = λ p s. (ret (1 ∷ 2 ∷ []), (s.0, 2));
  up_to = λ p v s. (ret [], s);
  down = λ p s. (err (plain "no migration"), s);
  get_version = λ p s. ((pos s.1, none), s);
  has_pending = λ p s. ((false, none), s);
  status = λ p s. (([], none), s);
  default_logger = "default";
  log_applied = λ l a s. s;
}

abbrev urls : Urls
urls = record { url_of = λ c. c.host; parse = λ s. none }

abbrev config : Config String
config = record { dir = "migrations"; logger = none; table = ""; disable_session_lock = false }

counts : Counts two_migrations
counts = record {
  alive = λ s. s.0;
  opens = λ c s. refl;
  closes = λ db s. refl;
  limits_open = λ db n s. refl;
  limits_idle = λ db n s. refl;
  pings = λ db s. refl;
  ups = λ p s. refl;
  ups_to = λ p v s. refl;
  downs = λ p s. refl;
  versions = λ p s. refl;
  pendings = λ p s. refl;
  statuses = λ p s. refl;
  logs = λ l a s. refl;
}

up_test : up two_migrations urls default_config "files" config (0, 0) ≡ (pos 2, none, (0, 2))
unfolding up with_provider with_conn with_db run_action locker_of up_action validate dsn_string
    with_defaults
up_test = refl

commands_close_example :
    let alive = counts.alive in
    (alive (up two_migrations urls default_config "files" config (0, 0)).2 ≡ alive (0, 0))
    × (alive (up_to two_migrations urls default_config "files" config (pos 1) (0, 0)).2
        ≡ alive (0, 0))
    × (alive (down two_migrations urls default_config "files" config (0, 0)).2 ≡ alive (0, 0))
    × (alive (version two_migrations urls default_config "files" config (0, 0)).2 ≡ alive (0, 0))
    × (alive (has_pending two_migrations urls default_config "files" config (0, 0)).2
        ≡ alive (0, 0))
    × (alive (status two_migrations urls default_config "files" config (0, 0)).2 ≡ alive (0, 0))
commands_close_example =
    commands_close two_migrations urls counts default_config "files" config (pos 1) (0, 0)

with_provider-RanClosed_example :
    let action = up_action two_migrations urls config in
    let r = with_provider two_migrations urls (pos 0) default_config "files" config action (0, 0) in
    RefusedClosed two_migrations urls (pos 0) (0, 0) r
    ⊎ RanClosed two_migrations urls config action (0, 0) r
with_provider-RanClosed_example =
    with_provider-RanClosed two_migrations urls (pos 0) default_config "files" config
      (up_action two_migrations urls config) (0, 0)
