-- ===== src/Lifecycle/Liveness.antt =====
-- pkg/controllers/exitclaim/lifecycle/liveness.go. As in Phases, the functions of apimachinery and the
-- calls of the admin API are parameters; a claim that was patched is as it was written. The count of
-- failures is a 64-bit `int`, which wraps around.
pub mod Counter
mod Tests
use frp_operator.Prelude.{
  ℕ, suc, ◌+◌, ◌-◌, String, Bool, true, false, ◌&&◌, not, Option, none, some, List, [], ◌∷◌,
  string_eq, nat_eq, ◌==◌, ltb, is_some, Result, ok, err, if◌then◌else◌,
}
use frp_operator.Prelude.Int.{ℤ, pos, negsuc, ltb_ℤ}
use frp_operator.Prelude.Maps.{lookup, insert, delete}
use frp_operator.Text.{codes, atoi}
use frp_operator.Text.Decimal.{itoa}
use frp_operator.Kube.{ApiError, Requeue, done, after, seconds, minutes}
use frp_operator.Api.{
  ExitClaim, Condition, is_true, is_false, condition_type_launched, condition_type_registered,
  condition_type_ready, condition_type_disrupted,
}
use frp_operator.Scheduling.Exits.{concat}
use frp_operator.Disruption.Budgets.{wrap_int}
use frp_operator.Disruption.Methods.{text_at}
use frp_operator.Lifecycle.Phases.{Apimeta, is_cond_true, set_cond, admin_port_of}

abbrev pub annotation_liveness_failures : String
annotation_liveness_failures = "frp.operator.io/liveness-failures"

abbrev pub default_registration_ttl : ℕ
default_registration_ttl = minutes 15

abbrev pub default_liveness_probe_interval : ℕ
default_liveness_probe_interval = seconds 30

abbrev pub default_liveness_failure_threshold : ℕ
default_liveness_failure_threshold = 3

-- `ttl`, `probeInterval` and `threshold`: a setting, or the default where it is 0.
abbrev pub setting : ℕ → ℕ → ℕ
setting configured default = if ltb 0 configured then configured else default

-- What liveness calls.
pub record Outside (Q W : Type 0) : Type 0 where
  pub get_server_info : String → ℕ → W → Result String String × W
  pub patch_claim : ExitClaim Q → W → Option ApiError × W
  pub patch_status : ExitClaim Q → W → Option ApiError × W
  pub delete_claim : ExitClaim Q → W → Option ApiError × W
  pub now : W → ℕ

-- The settings of `Liveness`.
pub record Settings : Type 0 where
  pub registration_ttl : ℕ
  pub probe_interval : ℕ
  pub failure_threshold : ℕ

abbrev pub count_of_text : Option ℤ → ℕ
count_of_text (some (pos n)) = n
count_of_text _ = 0

-- `strconv.Itoa`.
abbrev pub text_of_int : ℤ → String
text_of_int (pos n) = itoa n
text_of_int (negsuc n) = concat "-" (itoa (suc n))

module _ {Q : Type 0} where
  -- `readFailureCount`.
  pub read_failure_count : ExitClaim Q → ℕ
  unfolding atoi
  read_failure_count claim =
      let v = text_at annotation_liveness_failures claim.meta.annotations in
      if v == "" then 0 else count_of_text (atoi (codes v))

  abbrev pub next_count : ExitClaim Q → ℤ
  unfolding wrap_int
  next_count claim = wrap_int (read_failure_count claim + 1)

  -- The claim with a count in its annotations.
  pub counted : ℤ → ExitClaim Q → ExitClaim Q
  unfolding itoa
  counted count claim = record claim {
    meta = record claim.meta {
      annotations = insert annotation_liveness_failures (text_of_int count) claim.meta.annotations;
    };
  }

  -- The claim without a count.
  pub uncounted : ExitClaim Q → ExitClaim Q
  uncounted claim = record claim {
    meta = record claim.meta {
      annotations = delete annotation_liveness_failures claim.meta.annotations;
    };
  }

  module _ {W : Type 0} (m : Apimeta) (find : List Condition → String → Option Condition)
      (settings : Settings) (out : Outside Q W) where
    abbrev pub probe_interval_of : ℕ
    probe_interval_of = setting settings.probe_interval default_liveness_probe_interval

    abbrev pub threshold : ℕ
    threshold = setting settings.failure_threshold default_liveness_failure_threshold

    -- The claim that has failed too often.
    pub given_up : ℤ → String → ℕ → ExitClaim Q → ExitClaim Q
    unfolding itoa
    given_up count problem now claim =
        set_cond m now
          (set_cond m now claim condition_type_ready is_false "AdminAPIUnreachable" (
            concat "admin probe failed "
              (concat (text_of_int count) (concat " consecutive times: " problem))))
          condition_type_disrupted is_true "AdminAPIUnreachable" "liveness threshold exceeded"

    -- `recordFailure`.
    unfoldable pub record_failure : ExitClaim Q → String → W → (Requeue × Option ApiError) × W
    record_failure claim problem w =
        let count = next_count claim in
        let (failure, w1) = out.patch_claim (counted count claim) w in
        elim failure [
          | some e ↦ ((done, some e), w1)
          | none ↦ elim (ltb_ℤ count (pos threshold)) [
            | true ↦ ((after probe_interval_of, none), w1)
            | false ↦
                let (problem2, w2) =
                  out.patch_status (given_up count problem (out.now w1) (counted count claim)) w1 in
                elim problem2 [
                  | some e ↦ ((done, some e), w2)
                  | none ↦ ((after probe_interval_of, none), w2)
                ]
          ]
        ]

    -- `recordSuccess`.
    unfoldable pub record_success : ExitClaim Q → W → (Requeue × Option ApiError) × W
    record_success claim w =
        elim (is_some (lookup annotation_liveness_failures claim.meta.annotations)) [
          | false ↦ ((after probe_interval_of, none), w)
          | true ↦
              let (failure, w1) = out.patch_claim (uncounted claim) w in
              elim failure [
                | some e ↦ ((done, some e), w1)
                | none ↦ ((after probe_interval_of, none), w1)
              ]
        ]

    -- `probe`.
    unfoldable pub probe : ExitClaim Q → W → (Requeue × Option ApiError) × W
    probe claim w = elim (claim.status.public_ip == "") [
      | true ↦ ((after probe_interval_of, none), w)
      | false ↦
          let (answer, w1) =
            out.get_server_info claim.status.public_ip (admin_port_of claim.spec.frps.admin_port)
              w in
          elim answer [
            | err problem ↦ record_failure claim problem w1
            | ok version ↦ record_success claim w1
          ]
    ]

    abbrev pub time_of : Option Condition → ℕ
    time_of none = 0
    time_of (some c) = c.last_transition_time

    -- The claim whose registration took too long.
    pub expired_registration : ℕ → ExitClaim Q → ExitClaim Q
    expired_registration now claim =
        set_cond m now claim condition_type_disrupted is_true "RegistrationTimeout"
          "exceeded RegistrationTTL"

    -- `Liveness.Reconcile`.
    unfoldable pub live : ExitClaim Q → W → (Requeue × Option ApiError) × W
    live claim w =
        let launched_at = time_of (find claim.status.conditions condition_type_launched) in
        let ttl = setting settings.registration_ttl default_registration_ttl in
        elim (is_cond_true m claim condition_type_launched) [
          | false ↦ ((done, none), w)
          | true ↦ elim (is_cond_true m claim condition_type_ready) [
            | true ↦ probe claim w
            | false ↦ elim (is_cond_true m claim condition_type_registered) [
              | true ↦ ((done, none), w)
              | false ↦ elim (launched_at == 0) [
                | true ↦ ((after (seconds 30), none), w)
                | false ↦ elim (ltb (out.now w - launched_at) ttl) [
                  | true ↦ ((after (seconds 30), none), w)
                  | false ↦
                      let (ignored, w1) =
                        out.patch_status (expired_registration (out.now w) claim) w in
                      let (failure, w2) =
                        out.delete_claim (expired_registration (out.now w) claim) w1 in
                      ((done, failure), w2)
                ]
              ]
            ]
          ]
        ]
