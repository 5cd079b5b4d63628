-- ===== src/Exitpool/Surfaces/Ready.antt =====
-- What readiness/controller.go leaves of a pool on an apiserver that nobody else writes to.
use frp_operator.Prelude.{
  ℕ, String, ◌≡◌, ◌≢◌, refl, sym, ap, ◌∙◌, subst, inl, inr, Bool, true, false, not, Option, none,
  some, List, [], ◌∷◌, string_eq, ◌==◌, is_some, Bool-cases, Option-cases, beq_refl, ok,
}
use frp_operator.Kube.{ApiError, is_not_found, Requeue, done}
use frp_operator.Api.{
  ExitPool, Condition, ConditionStatus, is_true, is_false, status_beq, condition_type_ready,
  condition_type_provider_class_ready,
}
use frp_operator.Conditions.{find_condition, make_condition, Patch, patch_condition}
use frp_operator.Conditions.Race.{JsonPatchLaws, patch_condition_alone}
use frp_operator.Exitpool.Surfaces.{
  Outside, write_condition, class_condition, cond_is_true, ready_rollup, roll_ready_up,
  reconcile_readiness, surface_class,
}

some_is_not_none : (e : ApiError) → some e ≢ none
some_is_not_none e h = cc

abbrev pub holds : Option Condition → Bool
holds none = false
holds (some c) = status_beq c.status is_true

module _ (now : ℕ) (type : String) (status : ConditionStatus) (generation : ℕ)
    (reason message : String) where
  make_condition-type :
      (cs : List Condition)
      → (make_condition now cs type status generation reason message).type ≡ type
  make_condition-type [] = refl
  make_condition-type (c ∷ cs) = elim (Bool-cases (c.type == type)) [
    | inl e ↦ rw e refl
    | inr e ↦ rw e (make_condition-type cs)
  ]

  make_condition-status :
      (cs : List Condition)
      → (make_condition now cs type status generation reason message).status ≡ status
  make_condition-status [] = refl
  make_condition-status (c ∷ cs) = elim (Bool-cases (c.type == type)) [
    | inl e ↦ rw e refl
    | inr e ↦ rw e (make_condition-status cs)
  ]

-- A condition of this type that is true just if the test is.
abbrev Says : String → Bool → Condition → Type 0
Says type test c = (c.type ≡ type) × (status_beq c.status is_true ≡ test)

make_condition-Says :
    (now : ℕ) (type : String) (status : ConditionStatus) (generation : ℕ) (reason message : String)
    (cs : List Condition)
    → Says type
        (status_beq status is_true)
        (make_condition now cs type status generation reason message)
make_condition-Says now type status generation reason message cs = (
  make_condition-type now type status generation reason message cs,
  ap (λ s. status_beq s is_true)
      (make_condition-status now type status generation reason message cs),
)

module _ {Q W : Type 0} (out : Outside Q W) where
  -- The provider class of the pool is of a kind that is known, and the client finds it.
  pub class_found : ExitPool Q → W → Bool
  class_found pool w =
      let ref = pool.spec.template.spec.provider_class_ref in
      elim (out.known ref.kind) [
        | false ↦ false
        | true ↦ not (is_some (out.get_class ref.kind ref.name w).0)
      ]

  cond_is_true-find :
      (type : String) (cs : List Condition)
      → cond_is_true out type cs ≡ holds (find_condition type cs)
  unfolding cond_is_true
  cond_is_true-find type [] = refl
  cond_is_true-find type (c ∷ cs) = elim (Bool-cases (c.type == type)) [
    | inl e ↦ rw e refl
    | inr e ↦ rw e (cond_is_true-find type cs)
  ]

  -- The condition that is written for the class is true just if the class is found.
  class_condition-Says :
      (pool : ExitPool Q) (w : W)
      → Says condition_type_provider_class_ready (class_found pool w) (class_condition out pool w).0
  unfolding class_condition class_found
  class_condition-Says pool w =
      let ref = pool.spec.template.spec.provider_class_ref in
      elim (Bool-cases (out.known ref.kind)) [
        | inr e ↦
            rw (class_condition, class_found, e)
              (make_condition-Says (out.now w) condition_type_provider_class_ready is_false
                pool.meta.generation "ProviderClassNotFound" _ pool.status.conditions)
        | inl e ↦ elim (Option-cases (out.get_class ref.kind ref.name w).0) [
          | inl f ↦
              rw (class_condition, class_found, e, f)
                (make_condition-Says (out.now (out.get_class ref.kind ref.name w).1)
                  condition_type_provider_class_ready is_true pool.meta.generation "Reconciled" ""
                  pool.status.conditions)
          | inr (problem, f) ↦ elim (Bool-cases (is_not_found problem)) [
            | inl g ↦
                rw (class_condition, class_found, e, f, g)
                  (make_condition-Says (out.now (out.get_class ref.kind ref.name w).1)
                    condition_type_provider_class_ready is_false pool.meta.generation
                    "ProviderClassNotFound" _ pool.status.conditions)
            | inr g ↦
                rw (class_condition, class_found, e, f, g)
                  (make_condition-Says (out.now (out.get_class ref.kind ref.name w).1)
                    condition_type_provider_class_ready is_false pool.meta.generation
                    "ProviderError" (out.text_of problem) pool.status.conditions)
          ]
        ]
      ]

  ready_rollup-Says :
      (now : ℕ) (pool : ExitPool Q)
      → Says condition_type_ready
          (cond_is_true out condition_type_provider_class_ready pool.status.conditions)
          (ready_rollup out now pool)
  unfolding ready_rollup
  ready_rollup-Says now pool =
      elim (Bool-cases
        (cond_is_true out condition_type_provider_class_ready pool.status.conditions)) [
          | inl e ↦
              rw (ready_rollup, e)
                (make_condition-Says now condition_type_ready is_true pool.meta.generation
                  "Reconciled" "" pool.status.conditions)
          | inr e ↦
              rw (ready_rollup, e)
                (make_condition-Says now condition_type_ready is_false pool.meta.generation
                  "NotReady" "ProviderClassReady is not True" pool.status.conditions)
        ]

  -- Documented behaviour of an apiserver that keeps one pool: a Get reads it, a Get of a provider class
  -- leaves it, and a patch that is not refused writes the conditions that its body makes.
  pub record Server (apply : Patch → List Condition → Option (List Condition))
      (stored : W → ExitPool Q) : Type 0 where
    pub body : JsonPatchLaws apply
    pub get : (name : String) (w : W) → (out.get_pool name w).0 ≡ ok (stored w)
    pub get_kept : (name : String) (w : W) → (out.get_pool name w).1 ≡ w
    pub get_class : (kind name : String) (w : W) → stored (out.get_class kind name w).1 ≡ stored w
    pub patched :
        (pool : ExitPool Q) (p : Patch) (w : W) (cs : List Condition)
        → apply p (stored w).status.conditions ≡ some cs
        → (out.patch_conditions pool p w).0 ≡ none
        → (stored (out.patch_conditions pool p w).1).status.conditions ≡ cs

  module _ (apply : Patch → List Condition → Option (List Condition)) (stored : W → ExitPool Q)
      (s : Server apply stored) where
    -- A condition that is written for the stored pool is what a search for its type finds.
    write_condition-find :
        (pool : ExitPool Q) (c : Condition) (w : W)
        → pool ≡ stored w
        → (write_condition out pool c w).0 ≡ none
        → find_condition c.type (stored (write_condition out pool c w).1).status.conditions ≡ some c
    unfolding write_condition
    write_condition-find pool c w same h =
        let (cs, made, finds) = patch_condition_alone apply s.body pool.status.conditions c in
        let made' : apply (patch_condition pool.status.conditions c) (stored w).status.conditions
            ≡ some cs =
          subst
            (λ (p : ExitPool Q).
              apply (patch_condition pool.status.conditions c) p.status.conditions ≡ some cs)
            same made in
        let after = s.patched pool (patch_condition pool.status.conditions c) w cs made' h in
        rw after (finds c.type ∙ rw (beq_refl c.type) refl)

    class_condition-stored :
        (pool : ExitPool Q) (w : W) → stored (class_condition out pool w).1 ≡ stored w
    unfolding class_condition
    class_condition-stored pool w =
        let ref = pool.spec.template.spec.provider_class_ref in
        let kept = s.get_class ref.kind ref.name w in
        elim (Bool-cases (out.known ref.kind)) [
          | inr e ↦ rw (class_condition, e) refl
          | inl e ↦ elim (Option-cases (out.get_class ref.kind ref.name w).0) [
            | inl f ↦ rw (class_condition, e, f) kept
            | inr (problem, f) ↦ elim (Bool-cases (is_not_found problem)) [
              | inl g ↦ rw (class_condition, e, f, g) kept
              | inr g ↦ rw (class_condition, e, f, g) kept
            ]
          ]
        ]

    -- A condition is found by its type, and says what it says of the test.
    Says-find_condition :
        (type : String) (test : Bool) (c : Condition) (cs : List Condition)
        → Says type test c
        → find_condition c.type cs ≡ some c
        → cond_is_true out type cs ≡ test
    Says-find_condition type test c cs says found =
        cond_is_true-find type cs
        ∙ (ap holds (subst (λ t. find_condition t cs ≡ some c) says.0 found) ∙ says.1)

    roll_ready_up_holds :
        (name : String) (w : W)
        → (roll_ready_up out name w).0 ≡ (done, none)
        → cond_is_true out condition_type_ready
            (stored (roll_ready_up out name w).1).status.conditions
          ≡ cond_is_true out condition_type_provider_class_ready (stored w).status.conditions
    unfolding roll_ready_up
    roll_ready_up_holds name w h =
        let c : Condition = ready_rollup out (out.now w) (stored w) in
        let w1 : W = (write_condition out (stored w) c w).1 in
        let step : roll_ready_up out name w ≡ ((done, (write_condition out (stored w) c w).0), w1) =
          rw (roll_ready_up, s.get name w, s.get_kept name w) refl in
        let written : (write_condition out (stored w) c w).0 ≡ none =
          ap (λ (r : (Requeue × Option ApiError) × W). r.0.1) (sym step)
          ∙ ap (λ (r : Requeue × Option ApiError). r.1) h in
        rw (step) (
          Says-find_condition condition_type_ready
            (cond_is_true out condition_type_provider_class_ready (stored w).status.conditions) c
            (stored w1).status.conditions (ready_rollup-Says (out.now w) (stored w))
            (write_condition-find (stored w) c w refl written))

    surface_class_holds :
        (pool : ExitPool Q) (name : String) (w : W)
        → pool ≡ stored w
        → (surface_class out pool name w).0 ≡ (done, none)
        → cond_is_true out condition_type_ready
            (stored (surface_class out pool name w).1).status.conditions
          ≡ class_found pool w
    unfolding surface_class
    surface_class_holds pool name w is_stored h =
        let c : Condition = (class_condition out pool w).0 in
        let w1 : W = (class_condition out pool w).1 in
        let w2 : W = (write_condition out pool c w1).1 in
        elim (Option-cases (write_condition out pool c w1).0) [
          | inr (e, f) ↦
              let h' : (done, some e) ≡ (done, none) = rw (surface_class, f) at h in
              let gone : some e ≡ none = ap (λ (r : Requeue × Option ApiError). r.1) h' in
              absurd (some_is_not_none e gone)
          | inl f ↦
              let step : surface_class out pool name w ≡ roll_ready_up out name w2 =
                rw (surface_class, f) refl in
              let h' : (roll_ready_up out name w2).0 ≡ (done, none) =
                ap (λ (r : (Requeue × Option ApiError) × W). r.0) (sym step) ∙ h in
              let same : pool ≡ stored w1 = is_stored ∙ sym (class_condition-stored pool w) in
              rw (step) (
                roll_ready_up_holds name w2 h'
                ∙ Says-find_condition condition_type_provider_class_ready (class_found pool w) c
                    (stored w2).status.conditions (class_condition-Says pool w)
                    (write_condition-find pool c w1 same f))
        ]

    live_run :
        (name : String) (w : W)
        → (stored w).meta.deletion_timestamp ≡ none
        → reconcile_readiness out name w ≡ surface_class out (stored w) name w
    unfolding reconcile_readiness
    live_run name w live =
        let w1 : W = (out.get_pool name w).1 in
        rw (reconcile_readiness, s.get name w)
          (ap
              (λ (d : Option ℕ). elim (is_some d) [
                | true ↦ ((done, none), w1)
                | false ↦ surface_class out (stored w) name w1
              ])
              live
            ∙ ap (surface_class out (stored w) name) (s.get_kept name w))

    -- On an apiserver that nobody else writes to, a run of readiness that ends without an error has left
    -- the pool Ready just if the kind of its provider class is registered and the class was found.
    pub reconcile_readiness_iff :
        (name : String) (w : W)
        → (stored w).meta.deletion_timestamp ≡ none
        → (reconcile_readiness out name w).0 ≡ (done, none)
        → cond_is_true out condition_type_ready
            (stored (reconcile_readiness out name w).1).status.conditions
          ≡ class_found (stored w) w
    reconcile_readiness_iff name w live h =
        let run = live_run name w live in
        rw (run) (
          surface_class_holds (stored w) name w refl
            (ap (λ (r : (Requeue × Option ApiError) × W). r.0) (sym run) ∙ h))
