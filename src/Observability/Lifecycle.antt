-- ===== src/Observability/Lifecycle.antt =====
-- observability/tracing.go: what `Init` installs, and what its end reports.
use hockey_libs.Prelude.{
  true, false, Option, none, some, ◌≡◌, refl, ◌↔◌, Bool-cases, inl, inr, Duration, seconds,
  nonzero_or,
}
use hockey_libs.Errors.{Err, Result, Result-cases, ret, err}
use hockey_libs.Observability.{
  Ratios, Config, Otel, World, noop, sdk, Shutdown, nothing, both, init, install, with_defaults,
  options_of, shutdown, join,
}

join-none : (a b : Option Err) → (join a b ≡ none) ↔ ((a ≡ none) × (b ≡ none))
join-none none b = ((λ e. (refl, e)), λ (e, f). f)
join-none (some a) none = ((λ e. cc), λ (e, f). cc)
join-none (some a) (some b) = ((λ e. cc), λ (e, f). cc)

module _ {Exporter Resource Provider Ratio S : Type 0} (ratios : Ratios Ratio)
    (otel : Otel Exporter Resource Provider Ratio S) where
  -- What an answer of `Init` says of the program: after an error, tracing was wanted and the tracer
  -- provider is the one from before; without tracing, there is the one that does nothing, and nothing
  -- to end; otherwise it is the one of the answer, which samples a share of the traces between zero
  -- and one and ends within the configured time, or five seconds.
  abbrev pub Means :
      Config Ratio
      → World Provider S
      → Result (Shutdown Exporter Provider)
      → World Provider S
      → Type 0
  Means cfg w (err e) w' = (cfg.enabled ≡ true) × (w'.provider ≡ w.provider)
  Means cfg w (ret nothing) w' = (cfg.enabled ≡ false) × (w'.provider ≡ noop) × (w'.state ≡ w.state)
  Means cfg w (ret (both provider exporter timeout)) w' =
      (cfg.enabled ≡ true)
      × (w'.provider ≡ sdk provider)
      × ((resource : Resource) × (ratio : Ratio) × (provider
            ≡ otel.new_provider exporter resource ratio)
          × (ratios.outside ratio ≡ false))
      × (timeout ≡ nonzero_or cfg.shutdown_timeout (seconds 5))

  ratio_inside :
      (cfg : Config Ratio) → ratios.outside (with_defaults ratios cfg).sample_ratio ≡ false
  unfolding with_defaults
  ratio_inside cfg = elim (Bool-cases (ratios.outside cfg.sample_ratio)) [
    | inl e ↦ rw e ratios.one_inside
    | inr e ↦ rw e e
  ]

  -- What `Init` answers is what it has installed, and it always puts the propagators in place.
  pub init-Means :
      (cfg : Config Ratio) (w : World Provider S)
      → let (r, w') = init ratios otel cfg w in (w'.propagates ≡ true) × Means cfg w r w'
  unfolding init install with_defaults
  init-Means cfg w =
      let filled = with_defaults ratios cfg in
      elim (Bool-cases cfg.enabled) [
        | inr d ↦ rw (d, init) (refl, (refl, refl, refl))
        | inl d ↦
            elim (Result-cases (otel.new_exporter (options_of ratios otel filled) w.state).0) [
              | inl (e, x) ↦ rw (d, init, x, install) (refl, (refl, refl))
              | inr (exporter, x) ↦
                  elim (Result-cases (
                    otel.merged_resource cfg.service_name cfg.service_version filled.environment)) [
                      | inl (e, y) ↦ rw (d, init, x, y, install) (refl, (refl, refl))
                      | inr (resource, y) ↦
                          rw (d, init, x, y, install)
                            (
                              refl,
                              (
                                refl,
                                refl,
                                (resource, filled.sample_ratio, refl, ratio_inside cfg),
                                refl,
                              ),
                            )
                    ]
            ]
      ]

  -- The end of tracing ends the provider and then the exporter, whatever the first of them answers,
  -- and reports no error exactly if neither of them did.
  pub shutdown-both :
      (provider : Provider) (exporter : Exporter) (timeout : Duration) (s : S)
      → let (e, s') = otel.shutdown_provider provider timeout s in
        let (e', s'') = otel.shutdown_exporter exporter timeout s' in
        let r = shutdown ratios otel (both provider exporter timeout) s in
        (r.1 ≡ s'') × ((r.0 ≡ none) ↔ ((e ≡ none) × (e' ≡ none)))
  unfolding shutdown
  shutdown-both provider exporter timeout s =
      (refl, join-none (otel.shutdown_provider provider timeout s).0 _)
