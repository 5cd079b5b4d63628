-- ===== src/Lifecycle/Liveness/Tests.antt =====
-- A claim with one failed probe behind it, whose exit does not answer.
use frp_operator.Prelude.{
  ℕ, ◌+◌, String, ◌≡◌, refl, true, Option, none, List, [], ◌∷◌, arith, string_eq, nat_eq, err,
}
use frp_operator.Prelude.Int.{pos, ltb_ℤ}
use frp_operator.Text.{atoi}
use frp_operator.Disruption.Budgets.{wrap_int}
use frp_operator.Api.{ExitClaim, Condition}
use frp_operator.Conditions.{find_condition, upsert_condition}
use frp_operator.Scheduling.Exits.Tests.{claim}
use frp_operator.Lifecycle.Phases.{Apimeta}
use frp_operator.Lifecycle.Liveness.{
  Outside, Settings, annotation_liveness_failures, read_failure_count, next_count, counted,
  threshold, probe,
}
use frp_operator.Lifecycle.Liveness.Counter.{
  OutlastsProbes, read_failure_count-counted, probe_tolerates,
}

abbrev once_failed : ExitClaim ℕ
once_failed = record claim {
  meta = record claim.meta { annotations = (annotation_liveness_failures, "1") ∷ [] };
  status = record claim.status { public_ip = "10.0.0.1" };
}

one : read_failure_count once_failed ≡ 1
unfolding read_failure_count atoi
one = refl

abbrev silent : Outside ℕ ℕ
silent = record {
  get_server_info = λ host port w. (err "timeout", w);
  patch_claim = λ c w. (none, w);
  patch_status = λ c w. (none, w + 1);
  delete_claim = λ c w. (none, w + 1);
  now = λ w. 9;
}

abbrev Untouched : ℕ → Type 0
Untouched w = w ≡ 0

silent-OutlastsProbes : OutlastsProbes silent Untouched
silent-OutlastsProbes = record { info = λ host port w p. p; patch = λ c w p. p }

abbrev settings : Settings
settings = record { registration_ttl = 0; probe_interval = 0; failure_threshold = 0 }

abbrev meta : Apimeta
meta = record { set = upsert_condition; holds = λ cs type. true }

abbrev find : List Condition → String → Option Condition
find cs type = find_condition type cs

two_of_three : ltb_ℤ (next_count once_failed) (pos (threshold meta find settings silent)) ≡ true
unfolding next_count wrap_int read_failure_count atoi
two_of_three = refl

read_failure_count-counted_example :
    read_failure_count (counted (next_count once_failed) once_failed)
    ≡ read_failure_count once_failed + 1
read_failure_count-counted_example = read_failure_count-counted once_failed (rw one (omega arith))

probe_tolerates_example : Untouched (probe meta find settings silent once_failed 0).1
probe_tolerates_example =
    probe_tolerates meta find settings silent Untouched silent-OutlastsProbes once_failed 0
      two_of_three refl
