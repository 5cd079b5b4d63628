-- ===== src/Lifecycle/Phases.antt =====
-- pkg/controllers/exitclaim/lifecycle: launch.go, registration.go, initialization.go and conditions.go.
-- The functions of apimachinery on a list of conditions are a parameter, as are the calls of the cloud
-- provider and of the admin API of the exit, which tell their errors as texts. The URL of the admin API is
-- given by its host and port. Not here: the claim that a patch answers with.
pub mod Stages
mod Tests
use frp_operator.Prelude.{
  ℕ, String, Bool, true, false, ◌&&◌, not, Option, none, some, List, [], ◌∷◌, string_eq, nat_eq,
  ◌==◌, Result, ok, err, if◌then◌else◌,
}
use frp_operator.Kube.{ApiError, Requeue, done, at_once, after, is_zero, seconds}
use frp_operator.Api.{
  ExitClaim, Condition, ConditionStatus, is_true, is_false, condition_type_launched,
  condition_type_registered, condition_type_initialized, condition_type_ready,
}
use frp_operator.Conditions.{new_condition}

-- `SetStatusCondition` and `IsStatusConditionTrue`; the first stamps the time itself where it has to.
pub record Apimeta : Type 0 where
  pub set : List Condition → Condition → List Condition
  pub holds : List Condition → String → Bool

-- What the phases call. `provider` is `Registry.For` with the `Create` of the provider found, or the text of
-- the error; `get_server_info` gives the version, which is empty where the server tells none.
pub record Outside (Q W : Type 0) : Type 0 where
  pub provider : String → Result String (ExitClaim Q → W → Result String (ExitClaim Q) × W)
  pub get_server_info : String → ℕ → W → Result String String × W
  pub patch_status : ExitClaim Q → W → Option ApiError × W
  pub now : W → ℕ

abbrev pub default_admin_port : ℕ
default_admin_port = 7400

abbrev pub admin_port_of : ℕ → ℕ
admin_port_of port = if port == 0 then default_admin_port else port

module _ {Q : Type 0} (m : Apimeta) where
  -- `isCondTrue`.
  abbrev pub is_cond_true : ExitClaim Q → String → Bool
  is_cond_true claim type = m.holds claim.status.conditions type

  -- `setCond`.
  pub set_cond : ℕ → ExitClaim Q → String → ConditionStatus → String → String → ExitClaim Q
  set_cond now claim type status reason message = record claim {
    status = record claim.status {
      conditions = m.set claim.status.conditions (new_condition type status 0 reason message now);
    };
  }

  -- The status that the provider hydrated, with the conditions of the claim.
  pub hydrate : ExitClaim Q → ExitClaim Q → ExitClaim Q
  hydrate claim hydrated = record claim {
    status = record hydrated.status { conditions = claim.status.conditions };
  }

  -- The version that the server tells, if it tells one.
  pub with_version : String → ExitClaim Q → ExitClaim Q
  with_version version claim =
      if version == ""
      then claim
      else record claim { status = record claim.status { frps_version = version } }

  module _ {W : Type 0} (out : Outside Q W) where
    -- `Launcher.Reconcile` for a provider that fails.
    pub launch_failed : ExitClaim Q → String → W → ExitClaim Q
    launch_failed claim problem w =
        set_cond (out.now w) claim condition_type_launched is_false "ProviderError" problem

    -- `Launcher.Reconcile`.
    unfoldable pub launch : ExitClaim Q → W → (Requeue × Option ApiError) × W
    launch claim w = elim (is_cond_true claim condition_type_launched) [
      | true ↦ ((done, none), w)
      | false ↦ elim (out.provider claim.spec.provider_class_ref.kind) [
        | err problem ↦
            let (failure, w1) = out.patch_status (launch_failed claim problem w) w in
            elim failure [ some e ↦ ((done, some e), w1) | none ↦ ((after (seconds 30), none), w1) ]
        | ok create ↦
            let (answer, w1) = create claim w in
            elim answer [
              | err problem ↦
                  let (failure, w2) = out.patch_status (launch_failed claim problem w1) w1 in
                  ((after (seconds 30), none), w2)
              | ok hydrated ↦
                  let (failure, w2) =
                    out.patch_status
                      (set_cond (out.now w1) (hydrate claim hydrated) condition_type_launched
                        is_true "Provisioned" "exit launched")
                      w1 in
                  elim failure [ some e ↦ ((done, some e), w2) | none ↦ ((at_once, none), w2) ]
            ]
      ]
    ]

    -- `Registrar.Reconcile`.
    unfoldable pub register_claim : ExitClaim Q → W → (Requeue × Option ApiError) × W
    register_claim claim w =
        elim (is_cond_true claim condition_type_launched
          && not (is_cond_true claim condition_type_registered)) [
            | false ↦ ((done, none), w)
            | true ↦ elim (claim.status.public_ip == "") [
              | true ↦ ((after (seconds 5), none), w)
              | false ↦
                  let (answer, w1) =
                    out.get_server_info claim.status.public_ip
                      (admin_port_of claim.spec.frps.admin_port) w in
                  elim answer [
                    | err problem ↦
                        let (failure, w2) =
                          out.patch_status
                            (set_cond (out.now w1) claim condition_type_registered is_false
                              "AdminAPIUnreachable" problem)
                            w1 in
                        ((after (seconds 10), none), w2)
                    | ok version ↦
                        let (failure, w2) =
                          out.patch_status
                            (set_cond (out.now w1) (with_version version claim)
                              condition_type_registered is_true "Reconciled" "admin API reachable")
                            w1 in
                        elim failure [
                          | some e ↦ ((done, some e), w2)
                          | none ↦ ((at_once, none), w2)
                        ]
                  ]
            ]
          ]

    -- The claim that `Initializer.Reconcile` writes.
    unfoldable pub initialized : ExitClaim Q → W → ExitClaim Q
    initialized claim w =
        set_cond (out.now w)
          (set_cond (out.now w) claim condition_type_initialized is_true "Reconciled"
            "ready for tunnels")
          condition_type_ready is_true "Reconciled" ""

    -- `Initializer.Reconcile`.
    unfoldable pub initialize : ExitClaim Q → W → (Requeue × Option ApiError) × W
    initialize claim w = elim (is_cond_true claim condition_type_registered) [
      | false ↦ ((done, none), w)
      | true ↦
          elim (is_cond_true claim condition_type_initialized
            && is_cond_true claim condition_type_ready) [
              | true ↦ ((done, none), w)
              | false ↦
                  let (failure, w1) = out.patch_status (initialized claim w) w in
                  ((done, failure), w1)
            ]
    ]

    abbrev pub goes_on : Requeue × Option ApiError → Bool
    goes_on (r, some e) = false
    goes_on (r, none) = is_zero r

    -- The loop of `Reconcile` over these phases. A phase that lets the next one run has left the claim as
    -- it was.
    unfoldable pub run_phases : ExitClaim Q → W → (Requeue × Option ApiError) × W
    run_phases claim w =
        let (launched, w1) = launch claim w in
        elim (goes_on launched) [
          | false ↦ (launched, w1)
          | true ↦
              let (registered, w2) = register_claim claim w1 in
              elim (goes_on registered) [ false ↦ (registered, w2) | true ↦ initialize claim w2 ]
        ]
