-- ===== src/Disruption/Methods/Replacement.antt =====
-- The replacements of Drift and Expiration.
use frp_operator.Prelude.{
  String, ◌≡◌, ◌≢◌, ◌↔◌, refl, true, ◌||◌, not, if◌then◌else◌, ap, inl, inr, false, Option, none,
  some, List, [], ◌∷◌, arith, string_eq, nat_eq, ◌==◌, length, map, length-map, All, Bool-cases,
  ◌⊎◌,
}
use frp_operator.Prelude.Maps.{lookup, insert, lookup-insert, lookup-insert_other}
use frp_operator.Api.{
  DisruptionReason, ExitPool, annotation_pool_hash, annotation_provider_class_hash,
}
use frp_operator.State.Exit.{StateExit}
use frp_operator.Disruption.{Candidate, Command, BudgetMap, allowed, reason_eq}
use frp_operator.Disruption.Methods.{
  text_at, hashes_differ, stamped_annotations, capped, commands_of, replacement_for_candidate,
  copy_into, drift_should_disrupt,
}

abbrev pub or_blank : Option String → String
or_blank none = ""
or_blank (some v) = v

hash_of_stamped :
    (hash : String) (annotations : List (String × String))
    → (hash ≡ "") ⊎ (text_at annotation_pool_hash (stamped_annotations hash annotations) ≡ hash)
hash_of_stamped hash annotations = elim (Bool-cases (hash == "")) [
  | inl blank ↦ inl ((string_eq.same_iff hash "").0 blank)
  | inr given ↦
      let held : lookup annotation_pool_hash (insert annotation_pool_hash hash annotations)
          ≡ some hash =
        lookup-insert annotation_pool_hash annotation_pool_hash hash annotations in
      inr (rw given (ap or_blank held))
]

-- The hash of the pool leaves the one of the provider class as the template has it.
class_of_stamped :
    (hash : String) (annotations : List (String × String))
    → text_at annotation_provider_class_hash (stamped_annotations hash annotations)
      ≡ text_at annotation_provider_class_hash annotations
class_of_stamped hash annotations = elim (Bool-cases (hash == "")) [
  | inl blank ↦ rw blank refl
  | inr given ↦
      let apart : annotation_provider_class_hash ≢ annotation_pool_hash = λ same.
        let e : (annotation_provider_class_hash == annotation_pool_hash) ≡ true =
          (string_eq.same_iff annotation_provider_class_hash annotation_pool_hash).1 same in
        absurd cc in
      rw given (
        ap or_blank (
          lookup-insert_other annotation_pool_hash annotation_provider_class_hash hash annotations
            apart))
]

differ_iff :
    (a b : String)
    → ((if a == "" || b == "" then false else not (a == b)) ≡ true)
      ↔ ((a ≢ "") × (b ≢ "") × (a ≢ b))
differ_iff a b = (
  λ h. (
    λ e. ground (arith, string_eq.same_iff a "", h, e),
    λ e. ground (arith, string_eq.same_iff b "", h, e),
    λ e. ground (arith, string_eq.same_iff a b, h, e),
  ),
  λ (x, y, z).
      ground (arith, string_eq.same_iff a "", string_eq.same_iff b "", string_eq.same_iff a b),
)

module _ {Q : Type 0} where
  same_pool_hash :
      (cand : Candidate Q)
      → hashes_differ (replacement_for_candidate cand).meta cand.pool.meta annotation_pool_hash
        ≡ false
  unfolding replacement_for_candidate
  same_pool_hash cand =
      let hash = text_at annotation_pool_hash cand.pool.meta.annotations in
      elim (hash_of_stamped hash (copy_into cand.pool.spec.template.annotations [])) [
        | inl blank ↦ rw blank (ground arith)
        | inr kept ↦ rw kept (ground (arith, string_eq.same_iff hash hash))
      ]

  -- The hash of the provider class in the annotations of the template.
  abbrev pub template_class_hash : ExitPool Q → String
  template_class_hash pool =
      text_at annotation_provider_class_hash (copy_into pool.spec.template.annotations [])

  abbrev pub class_hash : ExitPool Q → String
  class_hash pool = text_at annotation_provider_class_hash pool.meta.annotations

  -- The template carries a hash of the provider class that is not that of the pool, which has one.
  abbrev pub ClassDrifts : ExitPool Q → Type 0
  ClassDrifts pool =
      (template_class_hash pool ≢ "")
      × (class_hash pool ≢ "")
      × (template_class_hash pool ≢ class_hash pool)

  -- Drift takes down the replacement that Drift or Expiration makes for a candidate exactly when its exit is
  -- not marked and the pool's template carries a hash of the provider class that differs from the pool's: the
  -- hash of the pool itself never differs.
  pub replacement_settled :
      (cand : Candidate Q) (exit : StateExit Q)
      → (drift_should_disrupt (record cand { claim = replacement_for_candidate cand; state = exit })
          ≡ true)
        ↔ ((exit.marked_for_deletion ≡ false) × ClassDrifts cand.pool)
  unfolding drift_should_disrupt replacement_for_candidate
  replacement_settled cand exit =
      let own = same_pool_hash cand in
      let kept =
        class_of_stamped (text_at annotation_pool_hash cand.pool.meta.annotations)
          (copy_into cand.pool.spec.template.annotations []) in
      let differ = differ_iff (template_class_hash cand.pool) (class_hash cand.pool) in
      elim (Bool-cases exit.marked_for_deletion) [
        | inl marked ↦ rw (drift_should_disrupt, marked) (λ h. cc, λ (m, rest). cc)
        | inr clear ↦
            rw (drift_should_disrupt, clear, own, kept)
              (λ h. (refl, differ.0 h), λ (m, rest). differ.1 rest)
      ]

  -- One replacement for each exit that a command takes down.
  abbrev Replaced : Command Q → Type 0
  Replaced cmd = length cmd.replacements ≡ length cmd.candidates

  commands_of-Replaced :
      (method : String) (reason : DisruptionReason) (budgets : BudgetMap)
      (groups : List (String × List (Candidate Q)))
      → All Replaced (commands_of method reason (map replacement_for_candidate) budgets groups)
  unfolding commands_of
  commands_of-Replaced method reason budgets [] = tt
  commands_of-Replaced method reason budgets ((name, cs) ∷ groups) =
      let n = allowed name reason budgets in
      elim (Bool-cases (n == 0)) [
        | inl none_left ↦ rw none_left (commands_of-Replaced method reason budgets groups)
        | inr some_left ↦ rw some_left (
          length-map (capped n cs) replacement_for_candidate,
          commands_of-Replaced method reason budgets groups,
        )
      ]
