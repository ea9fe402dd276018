-- ===== src/Observability.antt =====
-- observability/tracing.go: the set-up of tracing and its end. OpenTelemetry is a parameter; a sampling
-- ratio is a number of a type with the tests that the code makes.
pub mod Lifecycle
mod Examples
use hockey_libs.Prelude.{
  ◌≡◌, ℤ, pos, String, Bool, true, false, Option, none, some, List, [], ◌∷◌, ◌++◌, str_eq, Duration,
  seconds, nonzero_or, if◌then◌else◌,
}
use hockey_libs.Errors.{Err, wrapped, joined, Result, ret, err}

-- A float64: `outside` is the test for at most zero or above one.
pub record Ratios (Ratio : Type 0) : Type 0 where
  pub outside : Ratio → Bool
  pub one : Ratio
  pub one_inside : outside one ≡ false

pub record Config (Ratio : Type 0) : Type 0 where
  pub enabled : Bool
  pub service_name : String
  pub service_version : String
  pub environment : String
  pub endpoint : String
  pub insecure : Bool
  pub sample_ratio : Ratio
  pub export_timeout : Duration
  pub shutdown_timeout : Duration

unfoldable pub with_defaults : {Ratio : Type 0} → Ratios Ratio → Config Ratio → Config Ratio
with_defaults ratios c = record c {
  endpoint = if str_eq c.endpoint "" then "localhost:4317" else c.endpoint;
  environment = if str_eq c.environment "" then "development" else c.environment;
  export_timeout = nonzero_or c.export_timeout (seconds 10);
  shutdown_timeout = nonzero_or c.shutdown_timeout (seconds 5);
  sample_ratio = if ratios.outside c.sample_ratio then ratios.one else c.sample_ratio;
}

-- The options of the exporter.
pub data ExporterOption : Type 0 where
  with_endpoint : String → ExporterOption
  with_timeout : Duration → ExporterOption
  with_insecure : ExporterOption

-- The tracer provider and the propagator of the program, and the rest of its state.
pub data Installed (Provider : Type 0) : Type 0 where
  untouched noop : Installed Provider
  sdk : Provider → Installed Provider

pub record World (Provider S : Type 0) : Type 0 where
  pub provider : Installed Provider
  pub propagates : Bool  -- trace context and baggage
  pub state : S

pub record Otel (Exporter Resource Provider Ratio S : Type 0) : Type 0 where
  pub new_exporter : List ExporterOption → S → Result Exporter × S
  pub merged_resource : String → String → String → Result Resource
  pub new_provider : Exporter → Resource → Ratio → Provider
  pub shutdown_provider : Provider → Duration → S → Option Err × S
  pub shutdown_exporter : Exporter → Duration → S → Option Err × S

-- `errors.Join` of two errors.
abbrev pub join : Option Err → Option Err → Option Err
join none e = e
join (some a) none = some a
join (some a) (some b) = some (joined a b)

-- The closure that `Init` returns.
pub data Shutdown (Exporter Provider : Type 0) : Type 0 where
  nothing : Shutdown Exporter Provider
  both : Provider → Exporter → Duration → Shutdown Exporter Provider

module _ {Exporter Resource Provider Ratio S : Type 0} (ratios : Ratios Ratio)
    (otel : Otel Exporter Resource Provider Ratio S) where
  unfoldable pub shutdown : Shutdown Exporter Provider → S → Option Err × S
  shutdown nothing s = (none, s)
  shutdown (both provider exporter timeout) s =
      let (e, s') = otel.shutdown_provider provider timeout s in
      let (e', s'') = otel.shutdown_exporter exporter timeout s' in (join e e', s'')

  abbrev options_of : Config Ratio → List ExporterOption
  options_of cfg =
      with_endpoint cfg.endpoint
      ∷ with_timeout cfg.export_timeout
      ∷ (if cfg.insecure then with_insecure ∷ [] else [])

  -- `Init` with tracing enabled.
  unfoldable pub install :
      Config Ratio → World Provider S → Result (Shutdown Exporter Provider) × World Provider S
  install cfg w =
      let (made, s) = otel.new_exporter (options_of cfg) w.state in
      elim made [
        | err e ↦ (err (wrapped "observability: create otlp exporter" e), record w { state = s })
        | ret exporter ↦
            elim (otel.merged_resource cfg.service_name cfg.service_version cfg.environment) [
              | err e ↦ (err (wrapped "observability: build resource" e), record w { state = s })
              | ret resource ↦
                  let provider = otel.new_provider exporter resource cfg.sample_ratio in
                  (
                    ret (both provider exporter cfg.shutdown_timeout),
                    record w { state = s; provider = sdk provider },
                  )
            ]
      ]

  unfoldable pub init :
      Config Ratio → World Provider S → Result (Shutdown Exporter Provider) × World Provider S
  unfolding install with_defaults
  init cfg w =
      let w' : World Provider S = record w { propagates = true } in
      if cfg.enabled
      then install (with_defaults ratios cfg) w'
      else (ret nothing, record w' { provider = noop })
