-- ===== src/Healthcheck.antt =====
-- cmd/healthcheck/main.go: the exit code of the command, over the answer of the HTTP client: its status
-- or an error.
use hockey_libs.Prelude.{ℕ, String, List, [], ◌∷◌, ◌==◌, ◌≡◌, refl, if◌then◌else◌}
use hockey_libs.Errors.{Result, ret, err, plain}

abbrev status_ok : ℕ
status_ok = 200

unfoldable pub main : (String → Result ℕ) → List String → ℕ
main get [] = 2
main get (program ∷ []) = 2
main get (program ∷ url ∷ rest) = elim (get url) [
  | err e ↦ 1
  | ret status ↦ if status == status_ok then 0 else 1
]

healthy_test : main (λ url. ret 200) ("healthcheck" ∷ "http://localhost/healthz" ∷ []) ≡ 0
unfolding main
healthy_test = refl

unhealthy_test : main (λ url. ret 503) ("healthcheck" ∷ "http://localhost/healthz" ∷ []) ≡ 1
unfolding main
unhealthy_test = refl

refused_test :
    main (λ url. err (plain "connection refused")) ("healthcheck" ∷ "http://localhost/" ∷ []) ≡ 1
unfolding main
refused_test = refl
