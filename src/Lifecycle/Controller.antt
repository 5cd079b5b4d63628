-- ===== src/Lifecycle/Controller.antt =====
-- `Reconcile` of pkg/controllers/exitclaim/lifecycle/controller.go as a whole: the finalizer first, then
-- the four phases. What each part calls is a parameter of its own, over one world.
pub mod Finalizer
mod Tests
use frp_operator.Prelude.{
  ℕ, String, Bool, true, false, ◌&&◌, not, Option, none, some, List, [], ◌∷◌, ◌++◌, string_eq,
  contains, Result, ok, err,
}
use frp_operator.Kube.{ApiError, ignore_not_found, Requeue, done, at_once}
use frp_operator.Api.{
  ExitClaim, Condition, termination_finalizer, condition_type_registered,
  condition_type_initialized, condition_type_ready,
}
use frp_operator.State.Cluster.{Cluster}
use frp_operator.Lifecycle.{Outside, finalize}
use frp_operator.Lifecycle.Phases.{
  Apimeta, Outside as PhasesOutside, is_cond_true, initialized, run_phases, goes_on,
}
use frp_operator.Lifecycle.Liveness.{Outside as LivenessOutside, Settings, live}

module _ {Q W : Type 0} (m : Apimeta) (find : List Condition → String → Option Condition)
    (settings : Settings) (out : Outside Q W) (phases : PhasesOutside Q W)
    (liveness : LivenessOutside Q W) where
  -- `controllerutil.AddFinalizer` for a claim without the finalizer.
  abbrev pub with_finalizer : ExitClaim Q → ExitClaim Q
  with_finalizer claim = record claim {
    meta = record claim.meta { finalizers = claim.meta.finalizers ++ (termination_finalizer ∷ []) };
  }

  -- The claim that liveness is handed: the one that initialization has written, if it has written one.
  pub handed_on : ExitClaim Q → W → ExitClaim Q
  unfolding initialized
  handed_on claim w =
      elim (is_cond_true m claim condition_type_registered
        && not (
            is_cond_true m claim condition_type_initialized
            && is_cond_true m claim condition_type_ready)) [
              | true ↦ initialized m phases claim w
              | false ↦ claim
            ]

  -- The loop over the phases.
  pub run_all : ExitClaim Q → W → (Requeue × Option ApiError) × W
  unfolding handed_on run_phases live
  run_all claim w =
      let (result, w1) = run_phases m phases claim w in
      elim (goes_on m phases result) [
        | false ↦ (result, w1)
        | true ↦ live m find settings liveness (handed_on claim w) w1
      ]

  -- `Reconcile` for a claim that is not being deleted.
  pub keep_claim : ExitClaim Q → W → (Requeue × Option ApiError) × W
  unfolding run_all
  keep_claim claim w = elim (contains claim.meta.finalizers termination_finalizer) [
    | false ↦
        let (failure, w1) = out.patch_claim (with_finalizer claim) w in ((at_once, failure), w1)
    | true ↦ run_all claim w
  ]

  -- `Reconcile`, with the answer of its Get.
  pub reconcile_claim :
      Result ApiError (ExitClaim Q)
      → Option (Cluster Q)
      → W
      → (Requeue × Option ApiError) × Option (Cluster Q) × W
  unfolding keep_claim finalize
  reconcile_claim (err e) c w = ((done, ignore_not_found e), c, w)
  reconcile_claim (ok claim) c w = elim claim.meta.deletion_timestamp [
    | some deleted_at ↦ finalize out claim deleted_at c w
    | none ↦ let (result, w1) = keep_claim claim w in (result, c, w1)
  ]
