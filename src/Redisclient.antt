-- ===== src/Redisclient.antt =====
-- redisclient/redis.go: the options of a Redis client and its opening. go-redis is a parameter.
use hockey_libs.Prelude.{
  ℤ, pos, String, Bool, true, false, Option, none, some, [], ◌∷◌, str_eq, concat, Duration, seconds,
  minutes, nonzero_or, if◌then◌else◌,
}
use hockey_libs.Errors.{Err, wrapped, Result, ret, err}

pub record Config : Type 0 where
  pub url : String
  pub host : String
  pub port : ℤ
  pub username : String
  pub password : String
  pub db : ℤ
  pub pool_size : ℤ
  pub min_idle_conns : ℤ
  pub dial_timeout : Duration
  pub read_timeout : Duration
  pub write_timeout : Duration
  pub max_retries : ℤ
  pub conn_max_lifetime : Duration

-- redis.Options, the fields that are set.
pub record Options : Type 0 where
  pub addr : String
  pub username : String
  pub password : String
  pub db : ℤ
  pub pool_size : ℤ
  pub min_idle_conns : ℤ
  pub dial_timeout : Duration
  pub read_timeout : Duration
  pub write_timeout : Duration
  pub max_retries : ℤ
  pub conn_max_lifetime : Duration

-- `parse_url` is redis.ParseURL, `itoa` the verb %d.
pub record GoRedis : Type 0 where
  pub parse_url : String → Result Options
  pub itoa : ℤ → String

unfoldable pub or_default : String → String → String
or_default value fallback = if str_eq value "" then fallback else value

module _ (redis : GoRedis) where
  -- The pool and the timeouts are the settings', also with a URL.
  abbrev pub with_pool : Config → Options → Options
  with_pool c o = record o {
    pool_size = nonzero_or c.pool_size (pos 10);
    min_idle_conns = nonzero_or c.min_idle_conns (pos 2);
    dial_timeout = nonzero_or c.dial_timeout (seconds 5);
    read_timeout = nonzero_or c.read_timeout (seconds 3);
    write_timeout = nonzero_or c.write_timeout (seconds 3);
    max_retries = nonzero_or c.max_retries (pos 3);
    conn_max_lifetime = nonzero_or c.conn_max_lifetime (minutes 30);
  }

  abbrev pub address_of : Config → String
  address_of c =
      concat (or_default c.host "localhost" ∷ ":" ∷ redis.itoa (nonzero_or c.port (pos 6379)) ∷ [])

  abbrev pub of_fields : Config → Options
  of_fields c = record {
    addr = address_of c;
    username = c.username;
    password = c.password;
    db = c.db;
    pool_size = pos 0;
    min_idle_conns = pos 0;
    dial_timeout = pos 0;
    read_timeout = pos 0;
    write_timeout = pos 0;
    max_retries = pos 0;
    conn_max_lifetime = pos 0;
  }

  unfoldable pub options : Config → Result Options
  unfolding or_default
  options c =
      if str_eq c.url "" then ret (with_pool c (of_fields c)) else elim (redis.parse_url c.url) [
        | err e ↦ err (wrapped "redisclient: parse REDIS_URL" e)
        | ret o ↦ ret (with_pool c o)
      ]

  -- `Open`: whether the client was closed, and the result; `ping` is what PING answers.
  unfoldable pub open_client : Config → Option Err → Bool × Result Options
  unfolding options
  open_client c ping = elim (options c) [
    | err e ↦ (false, err e)
    | ret o ↦ elim ping [
      | some e ↦ (true, err (wrapped "redisclient: ping" e))
      | none ↦ (false, ret o)
    ]
  ]
