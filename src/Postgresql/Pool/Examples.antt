-- ===== src/Postgresql/Pool/Examples.antt =====
-- postgresql/db.go: a pool whose state is the number of open pools and a log of hooks, and the
-- theorems on it.
use hockey_libs.Prelude.{
  ℕ, suc, ◌+◌, ◌-◌, pos, String, Option, none, some, List, [], ◌∷◌, ◌++◌, ◌≡◌, refl,
}
use hockey_libs.Errors.{Err, plain, wrapped, ret, err}
use hockey_libs.Postgresql.Config.{Urls, default_config, with_defaults, validate}
use hockey_libs.Postgresql.Pool.{
  Pgx, Hook, PoolConfig, Opt, Pgxpool, with_after_connect, with_tracing, apply_all, probe,
  make_pool, open_pool,
}
use hockey_libs.Postgresql.Pool.Hooks.{
  Registers, nothing, a_hook, other, connected, run_hooks, apply_all-Registers,
}
use hockey_libs.Postgresql.Pool.Opened.{Counts, one_if_made, Sound, open_pool-IsOpened}

abbrev small : Pgx
small = record {
  Tracer = String;
  QueryExecMode = String;
  Conn = ℕ;
  Rest = Unit;
  State = ℕ × List String;
}

abbrev parsed : PoolConfig small
parsed = record {
  min_conns = pos 0;
  max_conns = pos 0;
  max_conn_lifetime = pos 0;
  max_conn_idle_time = pos 0;
  health_check_period = pos 0;
  connect_timeout = pos 0;
  default_query_exec_mode = "cache statement";
  statement_cache_capacity = pos 512;
  description_cache_capacity = pos 512;
  tracer = none;
  after_connect = none;
  rest = tt;
}

abbrev pools : Pgxpool small String
pools = record {
  new_tracer = "otelpgx";
  simple_protocol = "simple";
  parse_config = λ dsn. ret parsed;
  new_with_config = λ c s. (ret "pool", (suc s.0, s.1));
  ping = λ pool d s. (some (plain "refused"), s);
  close = λ pool s. (s.0 - 1, s.1);
}

abbrev urls : Urls
urls = record { url_of = λ c. c.host; parse = λ s. none }

abbrev logs : String → Option Err → Hook small
logs name answer conn s = (answer, (s.0, s.1 ++ name ∷ []))

abbrev opts : List (Opt small)
opts =
    with_after_connect small (logs "first" none)
    ∷ with_tracing small pools urls
    ∷ with_after_connect small (logs "second" (some (plain "no such role")))
    ∷ with_after_connect small (logs "third" none)
    ∷ []

abbrev hooks : List (Hook small)
hooks = logs "first" none ∷ logs "second" (some (plain "no such role")) ∷ logs "third" none ∷ []

opts-Registers : Registers small opts hooks
unfolding with_tracing
opts-Registers = a_hook (other (λ cfg. refl) (a_hook (a_hook nothing)))

hooks_test :
    run_hooks small hooks 7 (none, (0, []))
    ≡ (some (plain "no such role"), (0, "first" ∷ "second" ∷ []))
hooks_test = refl

apply_all-Registers_example :
    connected small (apply_all small opts parsed).after_connect 7 (0, [])
    ≡ (some (plain "no such role"), (0, "first" ∷ "second" ∷ []))
apply_all-Registers_example = apply_all-Registers small opts hooks parsed 7 (0, []) opts-Registers

counts : Counts pools
counts = record {
  alive = λ s. s.0;
  makes = λ c s pool e. refl;
  makes_none = λ c s e h. cc;
  pings = λ pool d s. refl;
  closes = λ pool s. refl;
}

refused_test :
    open_pool small pools urls default_config opts (0, [])
    ≡ (err (wrapped "postgresql: ping" (plain "refused")), (0, []))
unfolding open_pool make_pool probe validate with_defaults
refused_test = refl

-- The same pool, which answers.
abbrev answering : Pgxpool small String
answering = record pools { ping = λ pool d s. (none, s) }

answering_counts : Counts answering
answering_counts = record {
  alive = λ s. s.0;
  makes = λ c s pool e. refl;
  makes_none = λ c s e h. cc;
  pings = λ pool d s. refl;
  closes = λ pool s. refl;
}

opened_test : open_pool small answering urls default_config opts (0, []) ≡ (ret "pool", (1, []))
unfolding open_pool make_pool probe validate with_defaults
opened_test = refl

open_pool-IsOpened_example :
    let r = open_pool small answering urls default_config opts (0, []) in
    (answering_counts.alive r.1 ≡ one_if_made r.0 + answering_counts.alive (0, []))
    × Sound answering urls answering_counts default_config opts (0, []) r.0
open_pool-IsOpened_example =
    open_pool-IsOpened answering urls answering_counts default_config opts (0, [])
