-- ===== src/Postgresql/Pool.antt =====
-- postgresql/db.go: the pool of connections and its options. pgx and pgxpool are parameters.
pub mod Hooks
pub mod Opened
mod Examples
use hockey_libs.Prelude.{
  ℤ, pos, String, Bool, Option, none, some, List, [], ◌∷◌, Duration, if◌then◌else◌,
}
use hockey_libs.Errors.{Err, wrapped, Result, ret, err}
use hockey_libs.Postgresql.Config.{Config, Urls, with_defaults, validate, dsn_string}

-- The types of pgx that the settings mention, and the state of the program and of the database.
pub record Pgx : Type 1 where
  pub Tracer : Type 0
  pub QueryExecMode : Type 0
  pub Conn : Type 0
  pub Rest : Type 0
  pub State : Type 0

-- A hook on a new connection: its error and the state.
abbrev pub Hook : Pgx → Type 0
Hook x = x.Conn → x.State → Option Err × x.State

-- The fields of `pgxpool.Config` that are set; `rest` is what `ParseConfig` fills besides.
pub record PoolConfig (x : Pgx) : Type 0 where
  pub min_conns : ℤ
  pub max_conns : ℤ
  pub max_conn_lifetime : Duration
  pub max_conn_idle_time : Duration
  pub health_check_period : Duration
  pub connect_timeout : Duration
  pub default_query_exec_mode : x.QueryExecMode
  pub statement_cache_capacity : ℤ
  pub description_cache_capacity : ℤ
  pub tracer : Option x.Tracer
  pub after_connect : Option (Hook x)
  pub rest : x.Rest

-- An option of `Open`.
abbrev pub Opt : Pgx → Type 0
Opt x = PoolConfig x → PoolConfig x

pub record Pgxpool (x : Pgx) (Pool : Type 0) : Type 0 where
  pub new_tracer : x.Tracer
  pub simple_protocol : x.QueryExecMode
  pub parse_config : String → Result (PoolConfig x)
  pub new_with_config : PoolConfig x → x.State → Result Pool × x.State
  pub ping : Pool → Duration → x.State → Option Err × x.State
  pub close : Pool → x.State → x.State

module _ (x : Pgx) where
  -- `previous` first, and the new hook unless `previous` fails.
  unfoldable pub chained : Option (Hook x) → Hook x → Hook x
  chained none hook conn s = hook conn s
  chained (some previous) hook conn s =
      let (e, s') = previous conn s in elim e [ none ↦ hook conn s' | some e' ↦ (some e', s') ]

  unfoldable pub with_after_connect : Hook x → Opt x
  unfolding chained
  with_after_connect hook cfg = record cfg { after_connect = some (chained cfg.after_connect hook) }

  abbrev pub with_pool_config : Opt x → Opt x
  with_pool_config mutate = mutate

  unfoldable pub apply_all : List (Opt x) → PoolConfig x → PoolConfig x
  apply_all [] cfg = cfg
  apply_all (opt ∷ opts) cfg = apply_all opts (opt cfg)

module _ (x : Pgx) {Pool : Type 0} (pgx : Pgxpool x Pool) (urls : Urls) where
  unfoldable pub with_tracing : Opt x
  with_tracing cfg = record cfg { tracer = some pgx.new_tracer }

  -- What `Open` sets before the options.
  unfoldable pub configured : Config → PoolConfig x → PoolConfig x
  configured cfg parsed =
      let pool = record parsed {
        min_conns = cfg.min_conns;
        max_conns = cfg.max_conns;
        max_conn_lifetime = cfg.max_conn_lifetime;
        max_conn_idle_time = cfg.max_conn_idle_time;
        health_check_period = cfg.health_check_period;
        connect_timeout = cfg.connect_timeout;
      } in
      if cfg.disable_prepared_statements
      then (record pool {
        default_query_exec_mode = pgx.simple_protocol;
        statement_cache_capacity = pos 0;
        description_cache_capacity = pos 0;
      })
      else pool

  -- A pool that does not answer is closed.
  unfoldable pub probe : Config → Pool → x.State → Result Pool × x.State
  probe cfg pool s =
      let (e, s') = pgx.ping pool cfg.connect_timeout s in
      elim e [
        | none ↦ (ret pool, s')
        | some e' ↦ (err (wrapped "postgresql: ping" e'), pgx.close pool s')
      ]

  unfoldable pub make_pool : Config → PoolConfig x → x.State → Result Pool × x.State
  unfolding probe
  make_pool cfg pool_cfg s =
      let (made, s') = pgx.new_with_config pool_cfg s in
      elim made [ err e ↦ (err (wrapped "postgresql: open" e), s') | ret pool ↦ probe cfg pool s' ]

  -- `open_pool` is `Open`. The messages name the database in the source.
  unfoldable pub open_pool : Config → List (Opt x) → x.State → Result Pool × x.State
  unfolding make_pool configured with_defaults
  open_pool config opts s = elim (validate config) [
    | some e ↦ (err e, s)
    | none ↦
        let cfg = with_defaults config in
        elim (pgx.parse_config (dsn_string urls cfg)) [
          | err e ↦ (err (wrapped "postgresql: parse config" e), s)
          | ret parsed ↦ make_pool cfg (apply_all x opts (configured cfg parsed)) s
        ]
  ]
