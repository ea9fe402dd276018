-- ===== src/Postgresql/Pool/Opened.antt =====
-- postgresql/db.go: the pools that `Open` makes.
use hockey_libs.Prelude.{
  ℕ, suc, ◌+◌, ◌-◌, none, List, [], ◌∷◌, ◌≡◌, refl, pos, true, false, Bool-cases, ◌⊎◌, arith,
  Duration, Option-cases, inl, inr,
}
use mathlib.Core.List.{foldl}
use hockey_libs.Errors.{Err, Result, Result-cases, ret, err}
use hockey_libs.Postgresql.Config.{Config, Urls, with_defaults, validate, dsn_string}
use hockey_libs.Postgresql.Pool.{
  Pgx, PoolConfig, Opt, Pgxpool, apply_all, configured, probe, make_pool, open_pool,
}

-- How many pools are open: making one and closing one count.
pub record Counts {x : Pgx} {Pool : Type 0} (pgx : Pgxpool x Pool) : Type 0 where
  pub alive : x.State → ℕ
  pub makes :
      (c : PoolConfig x) (s : x.State) (pool : Pool)
      → (pgx.new_with_config c s).0 ≡ ret pool
      → alive (pgx.new_with_config c s).1 ≡ suc (alive s)
  pub makes_none :
      (c : PoolConfig x) (s : x.State) (e : Err)
      → (pgx.new_with_config c s).0 ≡ err e
      → alive (pgx.new_with_config c s).1 ≡ alive s
  pub pings : (pool : Pool) (d : Duration) (s : x.State) → alive (pgx.ping pool d s).1 ≡ alive s
  pub closes : (pool : Pool) (s : x.State) → alive (pgx.close pool s) ≡ alive s - 1

abbrev pub one_if_made : {A : Type 0} → Result A → ℕ
one_if_made (ret a) = 1
one_if_made (err e) = 0

module _ {x : Pgx} {Pool : Type 0} (pgx : Pgxpool x Pool) (urls : Urls) (counts : Counts pgx) where
  -- The settings of the pool are those of `cfg`, over what pgx parsed.
  pub record Applies (cfg : Config) (parsed c : PoolConfig x) : Type 0 where
    pub min_conns : c.min_conns ≡ cfg.min_conns
    pub max_conns : c.max_conns ≡ cfg.max_conns
    pub max_conn_lifetime : c.max_conn_lifetime ≡ cfg.max_conn_lifetime
    pub max_conn_idle_time : c.max_conn_idle_time ≡ cfg.max_conn_idle_time
    pub health_check_period : c.health_check_period ≡ cfg.health_check_period
    pub connect_timeout : c.connect_timeout ≡ cfg.connect_timeout
    pub statements :
        ((cfg.disable_prepared_statements ≡ true)
          × (c.default_query_exec_mode ≡ pgx.simple_protocol)
          × (c.statement_cache_capacity ≡ pos 0)
          × (c.description_cache_capacity ≡ pos 0))
        ⊎ ((cfg.disable_prepared_statements ≡ false)
            × (c.default_query_exec_mode ≡ parsed.default_query_exec_mode)
            × (c.statement_cache_capacity ≡ parsed.statement_cache_capacity)
            × (c.description_cache_capacity ≡ parsed.description_cache_capacity))
    pub tracer : c.tracer ≡ parsed.tracer
    pub after_connect : c.after_connect ≡ parsed.after_connect
    pub rest : c.rest ≡ parsed.rest

  configured-Applies :
      (cfg : Config) (parsed : PoolConfig x) → Applies cfg parsed (configured x pgx urls cfg parsed)
  unfolding configured
  configured-Applies cfg parsed = elim (Bool-cases cfg.disable_prepared_statements) [
    | inl d ↦
        rw (d, configured)
          (record {
            min_conns = refl;
            max_conns = refl;
            max_conn_lifetime = refl;
            max_conn_idle_time = refl;
            health_check_period = refl;
            connect_timeout = refl;
            statements = inl (refl, refl, refl, refl);
            tracer = refl;
            after_connect = refl;
            rest = refl;
          })
    | inr d ↦
        rw (d, configured)
          (record {
            min_conns = refl;
            max_conns = refl;
            max_conn_lifetime = refl;
            max_conn_idle_time = refl;
            health_check_period = refl;
            connect_timeout = refl;
            statements = inr (refl, refl, refl, refl);
            tracer = refl;
            after_connect = refl;
            rest = refl;
          })
  ]

  apply_all-foldl :
      (opts : List (Opt x)) (c : PoolConfig x) → apply_all x opts c ≡ foldl (λ c' o. o c') c opts
  unfolding apply_all
  apply_all-foldl [] c = refl
  apply_all-foldl (o ∷ opts) c = apply_all-foldl opts (o c)

  -- A pool is the one that pgx made of the settings and the options, and it answered a ping.
  pub record IsOpened (config : Config) (opts : List (Opt x)) (s : x.State) (pool : Pool)
      : Type 0 where
    pub parsed : PoolConfig x
    pub reads : pgx.parse_config (dsn_string urls (with_defaults config)) ≡ ret parsed
    pub valid : validate config ≡ none
    pub set : PoolConfig x
    pub applies : Applies (with_defaults config) parsed set
    pub asked : PoolConfig x
    pub in_order : asked ≡ foldl (λ c o. o c) set opts
    pub made : (pgx.new_with_config asked s).0 ≡ ret pool
    pub answered :
        (pgx.ping pool (with_defaults config).connect_timeout (pgx.new_with_config asked s).1).0
        ≡ none

  abbrev pub Sound : Config → List (Opt x) → x.State → Result Pool → Type 0
  Sound config opts s (err e) = Unit
  Sound config opts s (ret pool) = IsOpened config opts s pool

  probe-alive :
      (cfg : Config) (pool : Pool) (s s' : x.State)
      → counts.alive s' ≡ suc (counts.alive s)
      → let r = probe x pgx urls cfg pool s' in counts.alive r.1 ≡ one_if_made r.0 + counts.alive s
  unfolding probe
  probe-alive cfg pool s s' h = elim (Option-cases (pgx.ping pool cfg.connect_timeout s').0) [
    | inl e ↦ rw (e, probe) (omega (arith, counts.pings pool cfg.connect_timeout s', h))
    | inr (y, e) ↦
        rw (e, probe)
          (omega (
            arith,
            counts.closes pool (pgx.ping pool cfg.connect_timeout s').1,
            counts.pings pool cfg.connect_timeout s',
            h,
          ))
  ]

  make_pool-alive :
      (cfg : Config) (c : PoolConfig x) (s : x.State)
      → let r = make_pool x pgx urls cfg c s in counts.alive r.1 ≡ one_if_made r.0 + counts.alive s
  unfolding make_pool
  make_pool-alive cfg c s = elim (Result-cases (pgx.new_with_config c s).0) [
    | inl (e, m) ↦ rw (m, make_pool) (omega (arith, counts.makes_none c s e m))
    | inr (pool, m) ↦
        rw (m, make_pool)
          (probe-alive cfg pool s (pgx.new_with_config c s).1 (counts.makes c s pool m))
  ]

  -- The settings of the pool that `Open` asks for.
  abbrev asked : Config → List (Opt x) → PoolConfig x → PoolConfig x
  asked config opts parsed = apply_all x opts (configured x pgx urls (with_defaults config) parsed)

  make_pool-Sound :
      (config : Config) (opts : List (Opt x)) (parsed : PoolConfig x) (s : x.State)
      → validate config ≡ none
      → pgx.parse_config (dsn_string urls (with_defaults config)) ≡ ret parsed
      → Sound config opts s
          (make_pool x pgx urls (with_defaults config) (asked config opts parsed) s).0
  unfolding make_pool probe
  make_pool-Sound config opts parsed s v p =
      let cfg = with_defaults config in
      let (made, s') = pgx.new_with_config (asked config opts parsed) s in
      elim (Result-cases made) [
        | inl (e, m) ↦ rw (m, make_pool) tt
        | inr (pool, m) ↦ elim (Option-cases (pgx.ping pool cfg.connect_timeout s').0) [
          | inr (y, e) ↦ rw (m, make_pool, e, probe) tt
          | inl e ↦
              rw (m, make_pool, e, probe)
                (record {
                  parsed = parsed;
                  reads = p;
                  valid = v;
                  set = configured x pgx urls cfg parsed;
                  applies = configured-Applies cfg parsed;
                  asked = asked config opts parsed;
                  in_order = apply_all-foldl opts (configured x pgx urls cfg parsed);
                  made = m;
                  answered = e;
                })
        ]
      ]

  -- `Open` leaves one more pool open if it returns one and none otherwise, wherever it fails, as
  -- far as a ping opens and closes none; and the pool that it returns is made of the checked
  -- settings with their defaults and of the options in their order, and has answered a ping.
  pub open_pool-IsOpened :
      (config : Config) (opts : List (Opt x)) (s : x.State)
      → let r = open_pool x pgx urls config opts s in
        (counts.alive r.1 ≡ one_if_made r.0 + counts.alive s) × Sound config opts s r.0
  unfolding open_pool
  open_pool-IsOpened config opts s = elim (Option-cases (validate config)) [
    | inr (e, v) ↦ rw (v, open_pool) (omega arith, tt)
    | inl v ↦ elim (Result-cases (pgx.parse_config (dsn_string urls (with_defaults config)))) [
      | inl (e, p) ↦ rw (v, p, open_pool) (omega arith, tt)
      | inr (parsed, p) ↦
          rw (v, p, open_pool)
            (
              make_pool-alive (with_defaults config) (asked config opts parsed) s,
              make_pool-Sound config opts parsed s v p,
            )
    ]
  ]
