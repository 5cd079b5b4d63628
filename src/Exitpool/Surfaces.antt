-- ===== src/Exitpool/Surfaces.antt =====
-- pkg/controllers/exitpool/readiness/controller.go and validation/controller.go: conditions of a pool.
-- `now` is the reading of the clock at each new condition. The client asks for a provider class by kind
-- and name; an error other than a missing object tells its text.
pub mod Ready
use frp_operator.Prelude.{
  ℕ, String, Bool, true, false, ◌&&◌, Option, none, some, List, [], ◌∷◌, string_eq, ◌==◌, is_some,
  Result, ok, err, if◌then◌else◌,
}
use frp_operator.Kube.{ApiError, not_found, is_not_found, ignore_not_found, Requeue, done}
use frp_operator.Api.{
  ExitPool, Condition, is_true, is_false, status_beq, condition_type_ready,
  condition_type_provider_class_ready, condition_type_validation_succeeded,
}
use frp_operator.Conditions.{make_condition, Patch, patch_condition}
use frp_operator.Scheduling.Exits.{concat}

-- What both controllers call. `known` is the test for a kind in `KindToObject`.
pub record Outside (Q W : Type 0) : Type 0 where
  pub get_pool : String → W → Result ApiError (ExitPool Q) × W
  pub known : String → Bool
  pub get_class : String → String → W → Option ApiError × W
  pub text_of : ApiError → String
  pub patch_conditions : ExitPool Q → Patch → W → Option ApiError × W
  pub now : W → ℕ

module _ {Q W : Type 0} (out : Outside Q W) where
  -- `PatchCondition` of the pool, behind the request that it makes.
  unfoldable pub write_condition : ExitPool Q → Condition → W → Option ApiError × W
  unfolding patch_condition
  write_condition pool c w = out.patch_conditions pool (patch_condition pool.status.conditions c) w

  -- The condition that tells whether the provider class of the pool is there.
  unfoldable pub class_condition : ExitPool Q → W → Condition × W
  class_condition pool w =
      let ref = pool.spec.template.spec.provider_class_ref in
      elim (out.known ref.kind) [
        | false ↦ (
          make_condition (out.now w) pool.status.conditions condition_type_provider_class_ready
              is_false pool.meta.generation "ProviderClassNotFound"
              (concat "kind " (concat ref.kind " is not registered with any provider")),
          w,
        )
        | true ↦
            let (failure, w1) = out.get_class ref.kind ref.name w in
            elim failure [
              | none ↦ (
                make_condition (out.now w1) pool.status.conditions
                    condition_type_provider_class_ready is_true pool.meta.generation "Reconciled"
                    "",
                w1,
              )
              | some e ↦ elim (is_not_found e) [
                | true ↦ (
                  make_condition (out.now w1) pool.status.conditions
                      condition_type_provider_class_ready is_false pool.meta.generation
                      "ProviderClassNotFound"
                      (concat ref.kind (concat "/" (concat ref.name " not found"))),
                  w1,
                )
                | false ↦ (
                  make_condition (out.now w1) pool.status.conditions
                      condition_type_provider_class_ready is_false pool.meta.generation
                      "ProviderError" (out.text_of e),
                  w1,
                )
              ]
            ]
      ]

  -- `isTrue`: the first condition of the type.
  unfoldable pub cond_is_true : String → List Condition → Bool
  cond_is_true type [] = false
  cond_is_true type (c ∷ cs) =
      let rest = cond_is_true type cs in
      if c.type == type then status_beq c.status is_true else rest

  -- The condition Ready of a pool that has been read again.
  unfoldable pub ready_rollup : ℕ → ExitPool Q → Condition
  unfolding cond_is_true
  ready_rollup now pool =
      elim (cond_is_true condition_type_provider_class_ready pool.status.conditions) [
        | true ↦
            make_condition now pool.status.conditions condition_type_ready is_true
              pool.meta.generation "Reconciled" ""
        | false ↦
            make_condition now pool.status.conditions condition_type_ready is_false
              pool.meta.generation "NotReady" "ProviderClassReady is not True"
      ]

  -- `Reconcile` of readiness, behind its first patch.
  unfoldable pub roll_ready_up : String → W → (Requeue × Option ApiError) × W
  unfolding write_condition ready_rollup
  roll_ready_up name w =
      let (again, w1) = out.get_pool name w in
      elim again [
        | err e ↦ ((done, ignore_not_found e), w1)
        | ok pool ↦
            let (failure, w2) = write_condition pool (ready_rollup (out.now w1) pool) w1 in
            ((done, failure), w2)
      ]

  -- `Reconcile` of readiness for a pool that is not being deleted.
  unfoldable pub surface_class : ExitPool Q → String → W → (Requeue × Option ApiError) × W
  unfolding write_condition class_condition roll_ready_up
  surface_class pool name w =
      let (condition, w1) = class_condition pool w in
      let (failure, w2) = write_condition pool condition w1 in
      elim failure [ some e ↦ ((done, some e), w2) | none ↦ roll_ready_up name w2 ]

  -- `Reconcile` of readiness.
  unfoldable pub reconcile_readiness : String → W → (Requeue × Option ApiError) × W
  unfolding surface_class
  reconcile_readiness name w =
      let (answer, w1) = out.get_pool name w in
      elim answer [
        | err e ↦ ((done, ignore_not_found e), w1)
        | ok pool ↦ elim (is_some pool.meta.deletion_timestamp) [
          | true ↦ ((done, none), w1)
          | false ↦ surface_class pool name w1
        ]
      ]

  -- `validatePool`.
  pub validate_pool : ExitPool Q → String
  validate_pool pool =
      if is_some pool.spec.replicas && is_some pool.spec.weight
      then "spec.replicas and spec.weight are mutually exclusive"
      else ""

  -- The condition that validation writes.
  pub validation_condition : ℕ → ExitPool Q → Condition
  unfolding validate_pool
  validation_condition now pool =
      let problem = validate_pool pool in
      if problem == ""
      then make_condition now pool.status.conditions condition_type_validation_succeeded is_true
          pool.meta.generation "Reconciled" ""
      else make_condition now pool.status.conditions condition_type_validation_succeeded is_false
          pool.meta.generation "InvalidRequirements" problem

  -- `Reconcile` of validation.
  pub reconcile_validation : String → W → (Requeue × Option ApiError) × W
  unfolding write_condition validation_condition
  reconcile_validation name w =
      let (answer, w1) = out.get_pool name w in
      elim answer [
        | err e ↦ ((done, ignore_not_found e), w1)
        | ok pool ↦ elim (is_some pool.meta.deletion_timestamp) [
          | true ↦ ((done, none), w1)
          | false ↦
              let (failure, w2) =
                write_condition pool (validation_condition (out.now w1) pool) w1 in
              ((done, failure), w2)
        ]
      ]
