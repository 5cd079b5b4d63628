-- ===== src/Lifecycle/Controller/Finalizer.antt =====
-- No exit is made for a claim without the finalizer, so that none is left behind when the claim goes.
use frp_operator.Prelude.{
  subst, ℕ, String, ◌≡◌, sym, inl, inr, true, ◌&&◌, not, ltb, ◌-◌, Option, none, some, List,
  string_eq, nat_eq, ◌==◌, contains, Bool-cases, Option-cases, Result-cases, ok, Result, is_some,
}
use frp_operator.Prelude.Maps.{lookup}
use frp_operator.Prelude.Int.{pos, ltb_ℤ}
use frp_operator.Kube.{ApiError, Requeue}
use frp_operator.Api.{
  ExitClaim, Condition, is_true, termination_finalizer, condition_type_launched,
  condition_type_registered, condition_type_initialized, condition_type_ready, is_false,
}
use frp_operator.State.Cluster.{Cluster}
use frp_operator.Lifecycle.{Outside, finalize}
use frp_operator.Lifecycle.Phases.{
  Apimeta, Outside as PhasesOutside, is_cond_true, set_cond, hydrate, with_version, admin_port_of,
  launch_failed, launch, register_claim, initialized, initialize, goes_on, run_phases,
}
use frp_operator.Lifecycle.Liveness.{
  Outside as LivenessOutside, Settings, live, probe, record_failure, record_success,
  annotation_liveness_failures, next_count, counted, uncounted, given_up, threshold, setting,
  default_registration_ttl, time_of, expired_registration,
}
use frp_operator.Lifecycle.Controller.{
  with_finalizer, handed_on, run_all, keep_claim, reconcile_claim,
}

abbrev pub HasFinalizer : {Q : Type 0} → ExitClaim Q → Type 0
HasFinalizer claim = contains claim.meta.finalizers termination_finalizer ≡ true

-- `P` outlasts every call of `Reconcile` for a claim that is not being deleted, but for one that has a
-- provider make the exit of a claim without the finalizer.
pub record OutlastsGuarded {Q W : Type 0} (out : Outside Q W) (phases : PhasesOutside Q W)
    (liveness : LivenessOutside Q W) (P : W → Type 0) : Type 0 where
  pub create :
      (kind : String) (f : ExitClaim Q → W → Result String (ExitClaim Q) × W) (claim : ExitClaim Q)
      (w : W)
      → phases.provider kind ≡ ok f
      → HasFinalizer claim
      → P w
      → P (f claim w).1
  pub add : (claim : ExitClaim Q) (w : W) → P w → P (out.patch_claim claim w).1
  pub info : (host : String) (port : ℕ) (w : W) → P w → P (phases.get_server_info host port w).1
  pub patch : (claim : ExitClaim Q) (w : W) → P w → P (phases.patch_status claim w).1
  pub ask : (host : String) (port : ℕ) (w : W) → P w → P (liveness.get_server_info host port w).1
  pub count : (claim : ExitClaim Q) (w : W) → P w → P (liveness.patch_claim claim w).1
  pub tell : (claim : ExitClaim Q) (w : W) → P w → P (liveness.patch_status claim w).1
  pub delete : (claim : ExitClaim Q) (w : W) → P w → P (liveness.delete_claim claim w).1

module _ {Q W : Type 0} (m : Apimeta) (find : List Condition → String → Option Condition)
    (settings : Settings) (out : Outside Q W) (phases : PhasesOutside Q W)
    (liveness : LivenessOutside Q W) (P : W → Type 0)
    (o : OutlastsGuarded out phases liveness P) where
  launch_guarded :
      (claim : ExitClaim Q) (w : W) → HasFinalizer claim → P w → P (launch m phases claim w).1
  unfolding launch
  launch_guarded claim w guard p =
      elim (Bool-cases (is_cond_true m claim condition_type_launched)) [
        | inl launched ↦ rw (launch, launched) p
        | inr fresh ↦ elim (Result-cases (phases.provider claim.spec.provider_class_ref.kind)) [
          | inr (problem, unknown) ↦
              let failed = launch_failed m phases claim problem w in
              let p1 = o.patch failed w p in
              elim (Option-cases (phases.patch_status failed w).0) [
                | inl fine ↦ rw (launch, fresh, unknown, fine) p1
                | inr (e, lost) ↦ rw (launch, fresh, unknown, lost) p1
              ]
          | inl (create, known) ↦
              let w1 = (create claim w).1 in
              let p1 = o.create claim.spec.provider_class_ref.kind create claim w known guard p in
              elim (Result-cases (create claim w).0) [
                | inr (problem, failed) ↦
                    rw (launch, fresh, known, failed)
                      (o.patch (launch_failed m phases claim problem w1) w1 p1)
                | inl (hydrated, made) ↦
                    let written =
                      set_cond m (phases.now w1) (hydrate m claim hydrated) condition_type_launched
                        is_true "Provisioned" "exit launched" in
                    let p2 = o.patch written w1 p1 in
                    elim (Option-cases (phases.patch_status written w1).0) [
                      | inl fine ↦ rw (launch, fresh, known, made, fine) p2
                      | inr (e, lost) ↦ rw (launch, fresh, known, made, lost) p2
                    ]
              ]
        ]
      ]

  initialize_guarded : (claim : ExitClaim Q) (w : W) → P w → P (initialize m phases claim w).1
  unfolding initialize
  initialize_guarded claim w p =
      elim (Bool-cases (is_cond_true m claim condition_type_registered)) [
        | inr early ↦ rw (initialize, early) p
        | inl registered ↦
            elim (Bool-cases (
              is_cond_true m claim condition_type_initialized
              && is_cond_true m claim condition_type_ready)) [
                | inl finished ↦ rw (initialize, registered, finished) p
                | inr due ↦
                    rw (initialize, registered, due) (o.patch (initialized m phases claim w) w p)
              ]
      ]

  register_claim_guarded :
      (claim : ExitClaim Q) (w : W) → P w → P (register_claim m phases claim w).1
  unfolding register_claim
  register_claim_guarded claim w p =
      let port = admin_port_of claim.spec.frps.admin_port in
      let w1 = (phases.get_server_info claim.status.public_ip port w).1 in
      let p1 = o.info claim.status.public_ip port w p in
      elim (Bool-cases (
        is_cond_true m claim condition_type_launched
        && not (is_cond_true m claim condition_type_registered))) [
          | inr idle ↦ rw (register_claim, idle) p
          | inl due ↦ elim (Bool-cases (claim.status.public_ip == "")) [
            | inl nowhere ↦ rw (register_claim, due, nowhere) p
            | inr somewhere ↦
                elim (Result-cases (phases.get_server_info claim.status.public_ip port w).0) [
                  | inr (problem, failed) ↦
                      rw (register_claim, due, somewhere, failed)
                        (o.patch
                          (set_cond m (phases.now w1) claim condition_type_registered is_false
                            "AdminAPIUnreachable" problem)
                          w1 p1)
                  | inl (version, reached) ↦
                      let written =
                        set_cond m (phases.now w1) (with_version m version claim)
                          condition_type_registered is_true "Reconciled" "admin API reachable" in
                      let p2 = o.patch written w1 p1 in
                      elim (Option-cases (phases.patch_status written w1).0) [
                        | inl fine ↦ rw (register_claim, due, somewhere, reached, fine) p2
                        | inr (e, lost) ↦ rw (register_claim, due, somewhere, reached, lost) p2
                      ]
                ]
          ]
        ]

  run_phases_guarded :
      (claim : ExitClaim Q) (w : W) → HasFinalizer claim → P w → P (run_phases m phases claim w).1
  unfolding run_phases
  run_phases_guarded claim w guard p =
      let w1 = (launch m phases claim w).1 in
      let w2 = (register_claim m phases claim w1).1 in
      let p1 = launch_guarded claim w guard p in
      let p2 = register_claim_guarded claim w1 p1 in
      elim (Bool-cases (goes_on m phases (launch m phases claim w).0)) [
        | inr ended ↦ rw (run_phases, ended) p1
        | inl next ↦ elim (Bool-cases (goes_on m phases (register_claim m phases claim w1).0)) [
          | inr ended ↦ rw (run_phases, next, ended) p2
          | inl last ↦ rw (run_phases, next, last) (initialize_guarded claim w2 p2)
        ]
      ]

  record_failure_guarded :
      (claim : ExitClaim Q) (problem : String) (w : W)
      → P w
      → P (record_failure m find settings liveness claim problem w).1
  unfolding record_failure
  record_failure_guarded claim problem w p =
      let count = next_count claim in
      let new = counted count claim in
      let w1 = (liveness.patch_claim new w).1 in
      let p1 = o.count new w p in
      elim (Option-cases (liveness.patch_claim new w).0) [
        | inr (e, lost) ↦ rw (record_failure, lost) p1
        | inl fine ↦ elim (Bool-cases (ltb_ℤ count (pos (threshold m find settings liveness)))) [
          | inl few ↦ rw (record_failure, fine, few) p1
          | inr many ↦
              let last = given_up m find settings liveness count problem (liveness.now w1) new in
              let p2 = o.tell last w1 p1 in
              elim (Option-cases (liveness.patch_status last w1).0) [
                | inl told ↦ rw (record_failure, fine, many, told) p2
                | inr (e, lost) ↦ rw (record_failure, fine, many, lost) p2
              ]
        ]
      ]

  record_success_guarded :
      (claim : ExitClaim Q) (w : W) → P w → P (record_success m find settings liveness claim w).1
  unfolding record_success
  record_success_guarded claim w p =
      let p1 = o.count (uncounted claim) w p in
      elim (Bool-cases (is_some (lookup annotation_liveness_failures claim.meta.annotations))) [
        | inr clean ↦ rw (record_success, clean) p
        | inl dirty ↦ elim (Option-cases (liveness.patch_claim (uncounted claim) w).0) [
          | inl fine ↦ rw (record_success, dirty, fine) p1
          | inr (e, lost) ↦ rw (record_success, dirty, lost) p1
        ]
      ]

  probe_guarded : (claim : ExitClaim Q) (w : W) → P w → P (probe m find settings liveness claim w).1
  unfolding probe
  probe_guarded claim w p =
      let port = admin_port_of claim.spec.frps.admin_port in
      let w1 = (liveness.get_server_info claim.status.public_ip port w).1 in
      let p1 = o.ask claim.status.public_ip port w p in
      elim (Bool-cases (claim.status.public_ip == "")) [
        | inl nowhere ↦ rw (probe, nowhere) p
        | inr somewhere ↦
            elim (Result-cases (liveness.get_server_info claim.status.public_ip port w).0) [
              | inr (problem, failed) ↦
                  rw (probe, somewhere, failed) (record_failure_guarded claim problem w1 p1)
              | inl (version, reached) ↦
                  rw (probe, somewhere, reached) (record_success_guarded claim w1 p1)
            ]
      ]

  live_guarded : (claim : ExitClaim Q) (w : W) → P w → P (live m find settings liveness claim w).1
  unfolding live
  live_guarded claim w p =
      let launched_at =
        time_of m find settings liveness (find claim.status.conditions condition_type_launched) in
      let ttl = setting settings.registration_ttl default_registration_ttl in
      elim (Bool-cases (is_cond_true m claim condition_type_launched)) [
        | inr early ↦ rw (live, early) p
        | inl launched ↦ elim (Bool-cases (is_cond_true m claim condition_type_ready)) [
          | inl up ↦ rw (live, launched, up) (probe_guarded claim w p)
          | inr down ↦ elim (Bool-cases (is_cond_true m claim condition_type_registered)) [
            | inl known ↦ rw (live, launched, down, known) p
            | inr unknown ↦ elim (Bool-cases (launched_at == 0)) [
              | inl never ↦ rw (live, launched, down, unknown, never) p
              | inr once ↦ elim (Bool-cases (ltb (liveness.now w - launched_at) ttl)) [
                | inl soon ↦ rw (live, launched, down, unknown, once, soon) p
                | inr late ↦
                    let old =
                      expired_registration m find settings liveness (liveness.now w) claim in
                    rw (live, launched, down, unknown, once, late)
                      (o.delete old (liveness.patch_status old w).1 (o.tell old w p))
              ]
            ]
          ]
        ]
      ]

  keep_claim_guarded :
      (claim : ExitClaim Q) (w : W)
      → P w
      → P (keep_claim m find settings out phases liveness claim w).1
  unfolding keep_claim run_all
  keep_claim_guarded claim w p =
      elim (Bool-cases (contains claim.meta.finalizers termination_finalizer)) [
        | inr bare ↦
            rw (keep_claim, bare)
              (o.add (with_finalizer m find settings out phases liveness claim) w p)
        | inl guard ↦
            let w1 = (run_phases m phases claim w).1 in
            let p1 = run_phases_guarded claim w guard p in
            elim (Bool-cases (goes_on m phases (run_phases m phases claim w).0)) [
              | inr ended ↦ rw (keep_claim, guard, run_all, ended) p1
              | inl next ↦
                  rw (keep_claim, guard, run_all, next)
                    (live_guarded (handed_on m find settings out phases liveness claim w) w1 p1)
            ]
      ]

  -- For a claim that is not being deleted `Reconcile` has a provider make an exit only if the claim has the
  -- finalizer: what every other call keeps, a run keeps.
  pub reconcile_claim_guarded :
      (claim : ExitClaim Q) (c : Option (Cluster Q)) (w : W)
      → claim.meta.deletion_timestamp ≡ none
      → P w
      → P (reconcile_claim m find settings out phases liveness (ok claim) c w).2
  unfolding reconcile_claim
  reconcile_claim_guarded claim c w staying p =
      let run : Option ℕ → (Requeue × Option ApiError) × Option (Cluster Q) × W = (λ d. elim d [
        | some deleted_at ↦ finalize out claim deleted_at c w
        | none ↦
            let (result, w1) = keep_claim m find settings out phases liveness claim w in
            (result, c, w1)
      ]) in
      subst (λ (d : Option ℕ). P (run d).2) (sym staying) (keep_claim_guarded claim w p)
