-- ===== src/Postgresql/Config.antt =====
-- postgresql/config.go: the settings of the pool, their defaults and their check. net/url, which puts a
-- DSN together and reads it, is a parameter.
use hockey_libs.Prelude.{
  ◌≡◌, refl, ℤ, pos, String, Bool, false, Option, none, some, str_eq, Duration, seconds, minutes,
  leb_ℤ, ltb_ℤ, nonzero_or, if◌then◌else◌,
}
use hockey_libs.Errors.{Err, plain}

pub record Config : Type 0 where
  pub dsn : String
  pub host : String
  pub port : ℤ
  pub user : String
  pub password : String
  pub database : String
  pub ssl_mode : String
  pub min_conns : ℤ
  pub max_conns : ℤ
  pub max_conn_lifetime : Duration
  pub max_conn_idle_time : Duration
  pub health_check_period : Duration
  pub connect_timeout : Duration
  pub disable_prepared_statements : Bool

abbrev pub default_config : Config
default_config = record {
  dsn = "";
  host = "localhost";
  port = pos 5432;
  user = "postgres";
  password = "";
  database = "postgres";
  ssl_mode = "disable";
  min_conns = pos 2;
  max_conns = pos 20;
  max_conn_lifetime = minutes 30;
  max_conn_idle_time = minutes 5;
  health_check_period = minutes 1;
  connect_timeout = seconds 10;
  disable_prepared_statements = false;
}

abbrev pub text_or : String → String → String
text_or text default = if str_eq text "" then default else text

unfoldable pub with_defaults : Config → Config
with_defaults c = record c {
  host = text_or c.host default_config.host;
  port = nonzero_or c.port default_config.port;
  user = text_or c.user default_config.user;
  database = text_or c.database default_config.database;
  ssl_mode = text_or c.ssl_mode default_config.ssl_mode;
  min_conns = nonzero_or c.min_conns default_config.min_conns;
  max_conns = nonzero_or c.max_conns default_config.max_conns;
  max_conn_lifetime = nonzero_or c.max_conn_lifetime default_config.max_conn_lifetime;
  max_conn_idle_time = nonzero_or c.max_conn_idle_time default_config.max_conn_idle_time;
  health_check_period = nonzero_or c.health_check_period default_config.health_check_period;
  connect_timeout = nonzero_or c.connect_timeout default_config.connect_timeout;
}

-- The messages end with the numbers in the source.
unfoldable pub validate : Config → Option Err
unfolding with_defaults
validate c =
    let cfg = with_defaults c in
    if ltb_ℤ cfg.min_conns (pos 0)
    then some (plain "postgresql: min conns must be >= 0")
    else if leb_ℤ cfg.max_conns (pos 0)
    then some (plain "postgresql: max conns must be > 0")
    else if ltb_ℤ cfg.max_conns cfg.min_conns
    then some (plain "postgresql: min conns must not exceed max conns")
    else none

-- `url_of` is the text of the URL of user, password, host, port, database and mode; `parse` gives the
-- user and the password of a URL and its text for another password, if it can be parsed.
pub record Urls : Type 0 where
  pub url_of : Config → String
  pub parse : String → Option (Option String × (Option String → String))

module _ (urls : Urls) where
  unfoldable pub dsn_string : Config → String
  unfolding with_defaults
  dsn_string c = if str_eq c.dsn "" then urls.url_of (with_defaults c) else c.dsn

  -- The DSN for logs, without the password.
  unfoldable pub safe_dsn_string : Config → String
  unfolding dsn_string
  safe_dsn_string c = elim (urls.parse (dsn_string c)) [
    | none ↦ "postgres://<unparsable dsn>"
    | some (password, text_with) ↦ elim password [
      | none ↦ text_with none
      | some secret ↦ text_with (some "xxxxx")
    ]
  ]

  -- Two settings whose URLs differ in nothing but the password look the same in a log.
  pub safe_dsn_string_hides :
      (c d : Config) (p q : String) (text_with : Option String → String)
      → urls.parse (dsn_string c) ≡ some (some p, text_with)
      → urls.parse (dsn_string d) ≡ some (some q, text_with)
      → safe_dsn_string c ≡ safe_dsn_string d
  unfolding safe_dsn_string
  safe_dsn_string_hides c d p q text_with h k =
      let left : safe_dsn_string c ≡ text_with (some "xxxxx") = rw (safe_dsn_string, h) refl in
      let right : safe_dsn_string d ≡ text_with (some "xxxxx") = rw (safe_dsn_string, k) refl in
      cc (left, right)

-- One connection at most cannot be had: a minimum of zero is read as unset, and becomes two.
one_connection_test :
    validate (record default_config { min_conns = pos 0; max_conns = pos 1 })
    ≡ some (plain "postgresql: min conns must not exceed max conns")
unfolding validate
one_connection_test = refl
