-- ===== src/Observability/Examples.antt =====
-- observability/tracing.go: an exporter that counts, with percents for ratios.
use hockey_libs.Prelude.{
  ℕ, ◌+◌, ◌||◌, ltb, ◌==◌, pos, seconds, String, true, false, none, some, ◌≡◌, refl,
}
use hockey_libs.Errors.{plain, ret}
use hockey_libs.Observability.{
  Ratios, Config, Otel, World, untouched, sdk, both, init, install, with_defaults,
}

abbrev percents : Ratios ℕ
percents = record { outside = λ n. n == 0 || ltb 100 n; one = 100; one_inside = refl }

abbrev counting : Otel String String String ℕ ℕ
counting = record {
  new_exporter = λ options s. (ret "exporter", s + 1);
  merged_resource = λ name version environment. ret name;
  new_provider = λ exporter resource ratio. resource;
  shutdown_provider = λ provider timeout s. (some (plain "deadline"), s);
  shutdown_exporter = λ exporter timeout s. (none, s + 10);
}

abbrev config : Config ℕ
config = record {
  enabled = true;
  service_name = "billing";
  service_version = "1";
  environment = "";
  endpoint = "";
  insecure = true;
  sample_ratio = 250;
  export_timeout = pos 0;
  shutdown_timeout = pos 0;
}

abbrev world : World String ℕ
world = record { provider = untouched; propagates = false; state = 0 }

init_test : init percents counting config world ≡ (
  ret (both "billing" "exporter" (seconds 5)),
  record { provider = sdk "billing"; propagates = true; state = 1 },
)
unfolding init install with_defaults
init_test = refl
