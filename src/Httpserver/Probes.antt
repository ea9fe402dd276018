-- ===== src/Httpserver/Probes.antt =====
-- httpserver/ops.go: liveness and readiness of a service. A check is what it returns for a request; the
-- checks are in the order in which the map is walked, which is any.
use hockey_libs.Prelude.{
  ◌≡◌, refl, ◌↔◌, ℕ, String, Bool, true, false, Option, none, some, List, [], ◌∷◌, ◌++◌, concat,
  arith, if◌then◌else◌,
}
use hockey_libs.Errors.{Err, Sentinel, sentinel}

pub record Response : Type 0 where
  pub status : ℕ
  pub body : String

-- `GET /healthz`
abbrev pub healthz : Response
healthz = record { status = 200; body = "ok" }

-- `GET /readyz`: the first check that fails is named.
unfoldable pub readyz : List (String × Option Err) → Response
readyz [] = record { status = 200; body = "ok" }
readyz ((name, none) ∷ checks) = readyz checks
readyz ((name, some e) ∷ checks) = record {
  status = 503;
  body = concat ("not ready: " ∷ name ∷ []);
}

-- What `Ops` serves: the two probes, the metrics of a registry, and the pages of pprof.
pub data Handler : Type 0 where
  liveness readiness metrics : Handler
  pprof : String → Handler

pub record OpsConfig : Type 0 where
  pub registry : Bool  -- whether there is one
  pub readiness : List (String × Option Err)
  pub enable_pprof : Bool

abbrev pprof_pages : List (String × Handler)
pprof_pages =
    ("GET /debug/pprof/", pprof "Index")
    ∷ ("GET /debug/pprof/cmdline", pprof "Cmdline")
    ∷ ("GET /debug/pprof/profile", pprof "Profile")
    ∷ ("GET /debug/pprof/symbol", pprof "Symbol")
    ∷ ("GET /debug/pprof/trace", pprof "Trace")
    ∷ []

-- The patterns of the mux, in the order of their registration.
unfoldable pub ops : OpsConfig → List (String × Handler)
ops cfg =
    ("GET /healthz", liveness)
      ∷ ("GET /readyz", readiness)
      ∷ (if cfg.registry then ("GET /metrics", metrics) ∷ [] else [])
    ++ (if cfg.enable_pprof then pprof_pages else [])

ops_test :
    ops (record { registry = true; readiness = []; enable_pprof = false })
    ≡ ("GET /healthz", liveness) ∷ ("GET /readyz", readiness) ∷ ("GET /metrics", metrics) ∷ []
unfolding ops
ops_test = refl

pub record Ready : Type 0 where
  pub ready : Bool

abbrev pub new_ready : Ready
new_ready = record { ready = false }

abbrev pub set : Ready → Bool → Ready
set r ready = record r { ready = ready }

abbrev pub check : Ready → Option Err
check r = if r.ready then none else some (sentinel Sentinel.not_ready)

abbrev pub AllPass : List (String × Option Err) → Type 0
AllPass [] = Unit {0}
AllPass ((name, outcome) ∷ checks) = (outcome ≡ none) × AllPass checks

-- In whatever order the checks are run, the probe answers 200 if all of them pass, and only then.
pub readyz-AllPass :
    (checks : List (String × Option Err)) → ((readyz checks).status ≡ 200) ↔ AllPass checks
unfolding readyz
readyz-AllPass [] = ((λ h. tt), (λ h. refl))
readyz-AllPass ((name, none) ∷ checks) =
    let (to, from) = readyz-AllPass checks in ((λ h. (refl, to h)), (λ h. from h.1))
readyz-AllPass ((name, some e) ∷ checks) = ((λ h. absurd (omega (arith, h))), (λ h. cc (h.0)))
