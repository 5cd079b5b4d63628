-- ===== src/Lifecycle/Phases/Stages.antt =====
-- The stages of a claim come in order.
use frp_operator.Prelude.{
  ℕ, String, ◌≡◌, ◌≢◌, refl, sym, ◌∙◌, inl, inr, true, false, ◌&&◌, not, List, arith, string_eq,
  ◌==◌, Bool-cases, Option-cases, Result, ok, Result-cases,
}
use frp_operator.Api.{
  ExitClaim, Condition, ConditionStatus, status_beq, is_true, is_false, condition_type_launched,
  condition_type_registered, condition_type_initialized, condition_type_ready,
}
use frp_operator.Conditions.{new_condition}
use frp_operator.Lifecycle.Phases.{
  Apimeta, Outside, is_cond_true, set_cond, hydrate, with_version, launch_failed, launch,
  register_claim, initialized, initialize, goes_on, run_phases, admin_port_of,
}

-- What apimachinery documents of the two functions.
pub record ApimetaLaws (m : Apimeta) : Type 0 where
  pub set_same :
      (cs : List Condition) (c : Condition)
      → m.holds (m.set cs c) c.type ≡ status_beq c.status is_true
  pub set_other :
      (cs : List Condition) (c : Condition) (t : String)
      → t ≢ c.type
      → m.holds (m.set cs c) t ≡ m.holds cs t

-- The stages that hold: Registered only behind Launched, Initialized and Ready only behind Registered.
abbrev pub Ordered : Apimeta → List Condition → Type 0
Ordered m cs =
    (m.holds cs condition_type_registered ≡ true → m.holds cs condition_type_launched ≡ true)
    × (m.holds cs condition_type_initialized ≡ true → m.holds cs condition_type_registered ≡ true)
    × (m.holds cs condition_type_ready ≡ true → m.holds cs condition_type_registered ≡ true)

module _ (m : Apimeta) (laws : ApimetaLaws m) where
  -- A condition written behind its stage, or one that takes nothing back, keeps the order.
  launched-Ordered :
      (cs : List Condition) (status : ConditionStatus) (reason message : String) (now : ℕ)
      → m.holds cs condition_type_launched ≡ false
      → Ordered m cs
      → Ordered m (m.set cs (new_condition condition_type_launched status 0 reason message now))
  launched-Ordered cs status reason message now fresh o =
      let c = new_condition condition_type_launched status 0 reason message now in
      let same = laws.set_same cs c in
      let registered = laws.set_other cs c condition_type_registered (λ e. cc) in
      let initialized = laws.set_other cs c condition_type_initialized (λ e. cc) in
      let ready = laws.set_other cs c condition_type_ready (λ e. cc) in
      (
        λ h. absurd (let k = o.0 (sym registered ∙ h) in ground (arith, k, fresh)),
        λ h. registered ∙ o.1 (sym initialized ∙ h),
        λ h. registered ∙ o.2 (sym ready ∙ h),
      )

  registered-Ordered :
      (cs : List Condition) (status : ConditionStatus) (reason message : String) (now : ℕ)
      → m.holds cs condition_type_launched ≡ true
      → m.holds cs condition_type_registered ≡ false
      → Ordered m cs
      → Ordered m (m.set cs (new_condition condition_type_registered status 0 reason message now))
  registered-Ordered cs status reason message now before fresh o =
      let c = new_condition condition_type_registered status 0 reason message now in
      let launched = laws.set_other cs c condition_type_launched (λ e. cc) in
      let initialized = laws.set_other cs c condition_type_initialized (λ e. cc) in
      let ready = laws.set_other cs c condition_type_ready (λ e. cc) in
      (
        λ h. launched ∙ before,
        λ h. absurd (let k = o.1 (sym initialized ∙ h) in ground (arith, k, fresh)),
        λ h. absurd (let k = o.2 (sym ready ∙ h) in ground (arith, k, fresh)),
      )

  initialized-Ordered :
      (cs : List Condition) (now : ℕ)
      → m.holds cs condition_type_registered ≡ true
      → Ordered m cs
      → Ordered m (
          m.set
            (m.set cs (
              new_condition condition_type_initialized is_true 0 "Reconciled" "ready for tunnels"
                now))
            (new_condition condition_type_ready is_true 0 "Reconciled" "" now))
  initialized-Ordered cs now before o =
      let c =
        new_condition condition_type_initialized is_true 0 "Reconciled" "ready for tunnels" now in
      let d = new_condition condition_type_ready is_true 0 "Reconciled" "" now in
      let once = m.set cs c in
      let launched =
        laws.set_other once d condition_type_launched (λ e. cc)
        ∙ laws.set_other cs c condition_type_launched (λ e. cc) in
      let registered =
        laws.set_other once d condition_type_registered (λ e. cc)
        ∙ laws.set_other cs c condition_type_registered (λ e. cc) in
      (λ h. launched ∙ o.0 before, λ h. registered ∙ before, λ h. registered ∙ before)

-- `P` outlasts the calls of the phases, but for a status patch whose stages are out of order.
pub record OutlastsOrdered {Q W : Type 0} (m : Apimeta) (out : Outside Q W) (P : W → Type 0)
    : Type 0 where
  pub create :
      (kind : String) (f : ExitClaim Q → W → Result String (ExitClaim Q) × W) (claim : ExitClaim Q)
      (w : W)
      → out.provider kind ≡ ok f
      → P w
      → P (f claim w).1
  pub info : (host : String) (port : ℕ) (w : W) → P w → P (out.get_server_info host port w).1
  pub patch :
      (claim : ExitClaim Q) (w : W)
      → Ordered m claim.status.conditions
      → P w
      → P (out.patch_status claim w).1

module _ {Q W : Type 0} (m : Apimeta) (laws : ApimetaLaws m) (out : Outside Q W) (P : W → Type 0)
    (o : OutlastsOrdered m out P) where
  launch_failed-Ordered :
      (claim : ExitClaim Q) (problem : String) (w : W)
      → is_cond_true m claim condition_type_launched ≡ false
      → Ordered m claim.status.conditions
      → Ordered m (launch_failed m out claim problem w).status.conditions
  unfolding launch_failed set_cond
  launch_failed-Ordered claim problem w fresh order =
      launched-Ordered m laws claim.status.conditions is_false "ProviderError" problem (out.now w)
        fresh order

  launch_ordered :
      (claim : ExitClaim Q) (w : W)
      → Ordered m claim.status.conditions
      → P w
      → P (launch m out claim w).1
  unfolding launch set_cond hydrate
  launch_ordered claim w order p =
      elim (Bool-cases (is_cond_true m claim condition_type_launched)) [
        | inl launched ↦ rw (launch, launched) p
        | inr fresh ↦ elim (Result-cases (out.provider claim.spec.provider_class_ref.kind)) [
          | inr (problem, unknown) ↦
              let failed = launch_failed m out claim problem w in
              let p1 = o.patch failed w (launch_failed-Ordered claim problem w fresh order) p in
              elim (Option-cases (out.patch_status failed w).0) [
                | inl fine ↦ rw (launch, fresh, unknown, fine) p1
                | inr (e, lost) ↦ rw (launch, fresh, unknown, lost) p1
              ]
          | inl (create, known) ↦
              let w1 = (create claim w).1 in
              let p1 = o.create claim.spec.provider_class_ref.kind create claim w known p in
              elim (Result-cases (create claim w).0) [
                | inr (problem, failed) ↦
                    rw (launch, fresh, known, failed)
                      (o.patch (launch_failed m out claim problem w1) w1
                        (launch_failed-Ordered claim problem w1 fresh order) p1)
                | inl (hydrated, made) ↦
                    let written =
                      set_cond m (out.now w1) (hydrate m claim hydrated) condition_type_launched
                        is_true "Provisioned" "exit launched" in
                    let kept =
                      launched-Ordered m laws claim.status.conditions is_true "Provisioned"
                        "exit launched" (out.now w1) fresh order in
                    let p2 = o.patch written w1 kept p1 in
                    elim (Option-cases (out.patch_status written w1).0) [
                      | inl fine ↦ rw (launch, fresh, known, made, fine) p2
                      | inr (e, lost) ↦ rw (launch, fresh, known, made, lost) p2
                    ]
              ]
        ]
      ]

  with_version_conditions :
      (version : String) (claim : ExitClaim Q)
      → (with_version m version claim).status.conditions ≡ claim.status.conditions
  unfolding with_version
  with_version_conditions version claim = elim (Bool-cases (version == "")) [
    | inl blank ↦ rw blank refl
    | inr told ↦ rw told refl
  ]

  register_claim_ordered :
      (claim : ExitClaim Q) (w : W)
      → Ordered m claim.status.conditions
      → P w
      → P (register_claim m out claim w).1
  unfolding register_claim set_cond
  register_claim_ordered claim w order p =
      let cs = claim.status.conditions in
      let port = admin_port_of claim.spec.frps.admin_port in
      let w1 = (out.get_server_info claim.status.public_ip port w).1 in
      let p1 = o.info claim.status.public_ip port w p in
      elim (Bool-cases (
        is_cond_true m claim condition_type_launched
        && not (is_cond_true m claim condition_type_registered))) [
          | inr idle ↦ rw (register_claim, idle) p
          | inl due ↦
              let before : m.holds cs condition_type_launched ≡ true = ground (arith, due) in
              let fresh : m.holds cs condition_type_registered ≡ false = ground (arith, due) in
              elim (Bool-cases (claim.status.public_ip == "")) [
                | inl nowhere ↦ rw (register_claim, due, nowhere) p
                | inr somewhere ↦
                    elim (Result-cases (out.get_server_info claim.status.public_ip port w).0) [
                      | inr (problem, failed) ↦
                          let kept =
                            registered-Ordered m laws cs is_false "AdminAPIUnreachable" problem
                              (out.now w1) before fresh order in
                          rw (register_claim, due, somewhere, failed)
                            (o.patch
                              (set_cond m (out.now w1) claim condition_type_registered is_false
                                "AdminAPIUnreachable" problem)
                              w1 kept p1)
                      | inl (version, reached) ↦
                          let kept =
                            registered-Ordered m laws cs is_true "Reconciled" "admin API reachable"
                              (out.now w1) before fresh order in
                          let written =
                            set_cond m (out.now w1) (with_version m version claim)
                              condition_type_registered is_true "Reconciled"
                              "admin API reachable" in
                          let p2 =
                            o.patch written w1 (rw (with_version_conditions version claim) kept)
                              p1 in
                          elim (Option-cases (out.patch_status written w1).0) [
                            | inl fine ↦ rw (register_claim, due, somewhere, reached, fine) p2
                            | inr (e, lost) ↦ rw (register_claim, due, somewhere, reached, lost) p2
                          ]
                    ]
              ]
        ]

  initialize_ordered :
      (claim : ExitClaim Q) (w : W)
      → Ordered m claim.status.conditions
      → P w
      → P (initialize m out claim w).1
  unfolding initialize initialized set_cond
  initialize_ordered claim w order p =
      elim (Bool-cases (is_cond_true m claim condition_type_registered)) [
        | inr early ↦ rw (initialize, early) p
        | inl registered ↦
            elim (Bool-cases (
              is_cond_true m claim condition_type_initialized
              && is_cond_true m claim condition_type_ready)) [
                | inl through ↦ rw (initialize, registered, through) p
                | inr due ↦
                    rw (initialize, registered, due)
                      (o.patch (initialized m out claim w) w
                        (initialized-Ordered m laws claim.status.conditions (out.now w) registered
                          order)
                        p)
              ]
      ]

  -- Launch, registration and initialization write no status whose stages are out of order: where the
  -- claim that they run on is Registered only if Launched, and Initialized or Ready only if Registered, so
  -- is every claim whose status they patch.
  pub run_phases_ordered :
      (claim : ExitClaim Q) (w : W)
      → Ordered m claim.status.conditions
      → P w
      → P (run_phases m out claim w).1
  unfolding run_phases
  run_phases_ordered claim w order p =
      let w1 = (launch m out claim w).1 in
      let p1 = launch_ordered claim w order p in
      let w2 = (register_claim m out claim w1).1 in
      let p2 = register_claim_ordered claim w1 order p1 in
      elim (Bool-cases (goes_on m out (launch m out claim w).0)) [
        | inr ended ↦ rw (run_phases, ended) p1
        | inl next ↦ elim (Bool-cases (goes_on m out (register_claim m out claim w1).0)) [
          | inr ended ↦ rw (run_phases, next, ended) p2
          | inl last ↦ rw (run_phases, next, last) (initialize_ordered claim w2 order p2)
        ]
      ]
