-- ===== src/Lifecycle.antt =====
-- pkg/controllers/exitclaim/lifecycle: how an exit is given up. This file is `finalize` and
-- `tunnelsBoundTo` of controller.go. The world `W` outside is a parameter: the answers of the Kubernetes
-- client and of the cloud provider, and the clock. Logging is left out.
pub mod Drain
pub mod Phases
pub mod Liveness
pub mod Emptiness
pub mod Controller
mod Tests
use frp_operator.Prelude.{
  ℕ, ◌-◌, String, Bool, true, false, ◌&&◌, not, Option, none, some, List, [], ◌∷◌, string_eq, ◌==◌,
  ltb, contains, keep, Result, ok, err, if◌then◌else◌,
}
use frp_operator.Kube.{ApiError, Requeue, done, after, seconds, minutes}
use frp_operator.Api.{ExitClaim, Tunnel, termination_finalizer}
use frp_operator.State.Cluster.{Cluster, mark_exit_for_deletion}

abbrev pub default_termination_grace_period : ℕ
default_termination_grace_period = minutes 60

-- What `Delete` of a provider may fail with.
pub data DeleteError : Type 0 where
  exit_not_found : DeleteError
  delete_error : String → DeleteError

-- What `finalize` calls. `provider` is `Registry.For`, with the `Delete` of the provider found.
pub record Outside (Q W : Type 0) : Type 0 where
  pub list_tunnels : W → Result ApiError (List (Tunnel Q)) × W
  pub patch_tunnel_status : Tunnel Q → W → Option ApiError × W
  pub provider : String → Option (ExitClaim Q → W → Option DeleteError × W)
  pub patch_claim : ExitClaim Q → W → Option ApiError × W
  pub now : W → ℕ

abbrev pub is_exit_not_found : DeleteError → Bool
is_exit_not_found exit_not_found = true
is_exit_not_found _ = false

-- The first of two errors.
abbrev pub first_error : Option ApiError → Option ApiError → Option ApiError
first_error (some e) later = some e
first_error none later = later

abbrev pub grace_of : Option ℕ → ℕ
grace_of none = default_termination_grace_period
grace_of (some d) = if ltb 0 d then d else default_termination_grace_period

abbrev pub marked_in : {Q : Type 0} → String → Option (Cluster Q) → Option (Cluster Q)
marked_in name none = none
marked_in name (some c) = some (mark_exit_for_deletion name c)

module _ {Q : Type 0} where
  -- `tunnelsBoundTo`, behind its call of List.
  pub bound_to : String → List (Tunnel Q) → List (Tunnel Q)
  bound_to name tunnels = keep (λ t. t.status.assigned_exit == name) tunnels

  -- A tunnel without its binding.
  pub unbound : Tunnel Q → Tunnel Q
  unbound t = record t {
    status = record t.status { assigned_exit = ""; assigned_ip = ""; assigned_ports = [] };
  }

  -- `controllerutil.RemoveFinalizer`.
  abbrev pub without_finalizer : ExitClaim Q → ExitClaim Q
  without_finalizer claim = record claim {
    meta = record claim.meta {
      finalizers = keep (λ f. not (f == termination_finalizer)) claim.meta.finalizers;
    };
  }

  module _ {W : Type 0} (out : Outside Q W) where
    -- The loop of `finalize` over the bound tunnels, with the first error so far.
    pub release_all : List (Tunnel Q) → Option ApiError → W → Option ApiError × W
    release_all [] failure w = (failure, w)
    release_all (t ∷ tunnels) failure w =
        let (problem, w1) = out.patch_tunnel_status (unbound t) w in
        release_all tunnels (first_error failure problem) w1

    -- The last step of `finalize`.
    pub strip_finalizer : ExitClaim Q → W → (Requeue × Option ApiError) × W
    strip_finalizer claim w =
        if contains claim.meta.finalizers termination_finalizer
        then (let (problem, w1) = out.patch_claim (without_finalizer claim) w in
            ((done, problem), w1))
        else ((done, none), w)

    -- `finalize` behind the release of the tunnels.
    pub delete_exit : ExitClaim Q → W → (Requeue × Option ApiError) × W
    delete_exit claim w = elim (out.provider claim.spec.provider_class_ref.kind) [
      | none ↦ strip_finalizer claim w
      | some delete ↦
          let (problem, w1) = delete claim w in
          elim problem [
            | none ↦ strip_finalizer claim w1
            | some e ↦ elim (is_exit_not_found e) [
              | true ↦ strip_finalizer claim w1
              | false ↦ ((after (seconds 30), none), w1)
            ]
          ]
    ]

    -- `finalize` with the tunnels bound to the claim.
    pub finalize_bound : ExitClaim Q → ℕ → List (Tunnel Q) → W → (Requeue × Option ApiError) × W
    finalize_bound claim deleted_at [] w = delete_exit claim w
    finalize_bound claim deleted_at (t ∷ tunnels) w =
        elim (ltb (out.now w - deleted_at) (grace_of claim.spec.termination_grace_period)) [
          | true ↦
              let (failure, w1) = release_all (t ∷ tunnels) none w in
              ((after (seconds 5), failure), w1)
          | false ↦ delete_exit claim w
        ]

    -- `finalize` for a claim deleted at the given time; the cluster is `none` where it is nil.
    pub finalize :
        ExitClaim Q
        → ℕ
        → Option (Cluster Q)
        → W
        → (Requeue × Option ApiError) × Option (Cluster Q) × W
    finalize claim deleted_at c w =
        let marked = marked_in claim.meta.name c in
        let (answer, w1) = out.list_tunnels w in
        elim answer [
          | err e ↦ ((done, some e), marked, w1)
          | ok tunnels ↦
              let (result, w2) =
                finalize_bound claim deleted_at (bound_to claim.meta.name tunnels) w1 in
              (result, marked, w2)
        ]
