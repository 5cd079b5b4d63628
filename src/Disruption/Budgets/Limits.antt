-- ===== src/Disruption/Budgets/Limits.antt =====
-- How many disruptions the budgets of a pool allow.
use frp_operator.Prelude.{
  ℕ, ◌+◌, ◌-◌, String, ◌≡◌, refl, sym, ap, ◌∙◌, inl, inr, ◌⊎◌, Bool, true, false, Option, some,
  List, [], ◌∷◌, arith, string_eq, nat_eq, ltb, All, Bool-cases, if◌then◌else◌, subst,
}
use frp_operator.Prelude.Int.{ℤ, pos, negsuc, ltb_ℤ}
use frp_operator.Api.{ExitPool, DisruptionBudget, DisruptionReason}
use frp_operator.State.Cluster.{Cluster, all_exits}
use frp_operator.Disruption.Budgets.{
  min_ℤ, less, max_int32, budget_active, least_budget, min_budget, default_budget,
  resolve_budget_count, count_exits_in_pool, count_disrupting_in_pool, allowed_disruptions,
}

-- `a ≤ b` on `int`.
abbrev pub AtMost : ℤ → ℤ → Type 0
AtMost a b = ltb_ℤ b a ≡ false

AtMost-trans : (a b d : ℤ) → AtMost a b → AtMost b d → AtMost a d
AtMost-trans a b d h k = ground arith

min_ℤ-AtMost : (a b : ℤ) → AtMost (min_ℤ a b) a × AtMost (min_ℤ a b) b
min_ℤ-AtMost a b = (ground arith, ground arith)

abbrev pub Limit : ℤ → ℕ → ℕ → Type 0
Limit count disrupting allowed = (allowed ≡ 0) ⊎ AtMost (pos (allowed + disrupting)) count

Limit-less : (least count : ℤ) (d : ℕ) → AtMost least count → Limit count d (less least d)
Limit-less (pos m) count d h = elim (Bool-cases (ltb d m)) [
  | inl room ↦ inr (ground (arith, room, h))
  | inr full ↦ inl (ground (arith, full))
]
Limit-less (negsuc m) count d h = inl refl

module _ (parse_standard : String → Option (ℕ → ℕ)) (reason : DisruptionReason)
    (now total : ℕ) where
  -- The value of each active budget bounds `x`.
  abbrev Below : List DisruptionBudget → ℤ → Type 0
  Below budgets x =
      All
        (λ (b : DisruptionBudget).
          budget_active parse_standard b reason now ≡ true
          → AtMost x (resolve_budget_count b.nodes total))
        budgets

  abbrev step : DisruptionBudget → ℤ × Bool → ℤ × Bool
  step b (least, matched) =
      if budget_active parse_standard b reason now
      then (min_ℤ least (resolve_budget_count b.nodes total), true)
      else (least, matched)

  abbrev over : List DisruptionBudget → ℤ × Bool → ℤ × Bool
  over budgets found = least_budget parse_standard budgets reason now total found

  over_cons :
      (b : DisruptionBudget) (budgets : List DisruptionBudget) (found : ℤ × Bool)
      → over (b ∷ budgets) found ≡ over budgets (step b found)
  unfolding least_budget
  over_cons b budgets found = refl

  step_active :
      (b : DisruptionBudget) (found : ℤ × Bool)
      → budget_active parse_standard b reason now ≡ true
      → step b found ≡ (min_ℤ (found.0) (resolve_budget_count b.nodes total), true)
  step_active b found active = rw active refl

  step_idle :
      (b : DisruptionBudget) (found : ℤ × Bool)
      → budget_active parse_standard b reason now ≡ false
      → step b found ≡ found
  step_idle b found idle = rw idle refl

  step-AtMost : (b : DisruptionBudget) (found : ℤ × Bool) → AtMost ((step b found).0) (found.0)
  step-AtMost b found = elim (Bool-cases (budget_active parse_standard b reason now)) [
    | inl active ↦
        subst (λ (r : ℤ × Bool). AtMost (r.0) (found.0)) (sym (step_active b found active))
          ((min_ℤ-AtMost (found.0) (resolve_budget_count b.nodes total)).0)
    | inr idle ↦
        subst (λ (r : ℤ × Bool). AtMost (r.0) (found.0)) (sym (step_idle b found idle))
          (ground arith)
  ]

  over-AtMost :
      (budgets : List DisruptionBudget) (found : ℤ × Bool)
      → AtMost ((over budgets found).0) (found.0)
  over-AtMost [] found = unfold least_budget in ground arith
  over-AtMost (b ∷ budgets) found = rw (over_cons b budgets found) (
      AtMost-trans ((over budgets (step b found)).0) ((step b found).0) (found.0)
        (over-AtMost budgets (step b found)) (step-AtMost b found))

  over-Below :
      (budgets : List DisruptionBudget) (found : ℤ × Bool) → Below budgets ((over budgets found).0)
  over-Below [] found = tt
  over-Below (b ∷ budgets) found =
      let least = (over budgets (step b found)).0 in
      let count = resolve_budget_count b.nodes total in
      subst (λ (r : ℤ × Bool). Below (b ∷ budgets) (r.0)) (sym (over_cons b budgets found))
        (
          λ active.
              AtMost-trans least ((step b found).0) count (over-AtMost budgets (step b found)) (
                subst (λ (r : ℤ × Bool). AtMost (r.0) count) (sym (step_active b found active))
                  ((min_ℤ-AtMost (found.0) count).1)),
          over-Below budgets (step b found),
        )

  abbrev pub Idle : List DisruptionBudget → Type 0
  Idle budgets =
      All (λ (b : DisruptionBudget). budget_active parse_standard b reason now ≡ false) budgets

  over-Idle :
      (budgets : List DisruptionBudget) (found : ℤ × Bool)
      → Idle budgets
      → over budgets found ≡ found
  over-Idle [] found idle = unfold least_budget in refl
  over-Idle (b ∷ budgets) found idle =
      over_cons b budgets found
      ∙ ap (λ (r : ℤ × Bool). over budgets r) (step_idle b found (idle.0))
      ∙ over-Idle budgets found (idle.1)

  over_nil : (found : ℤ × Bool) → (over [] found).1 ≡ false → found.1 ≡ false
  unfolding least_budget
  over_nil found h = h

  over_matched :
      (budgets : List DisruptionBudget) (found : ℤ × Bool)
      → (over budgets found).1 ≡ false
      → (found.1 ≡ false) × Idle budgets
  over_matched [] found h = (over_nil found h, tt)
  over_matched (b ∷ budgets) found h =
      let before = over_matched budgets (step b found) (rw (over_cons b budgets found) at h) in
      elim (Bool-cases (budget_active parse_standard b reason now)) [
        | inl active ↦ absurd (
            let e = ap (λ (r : ℤ × Bool). r.1) (step_active b found active) in
            let f = before.0 in ground (arith, e, f))
        | inr idle ↦
            (sym (ap (λ (r : ℤ × Bool). r.1) (step_idle b found idle)) ∙ before.0, (idle, before.1))
      ]

  min_budget-Limits :
      (budgets : List DisruptionBudget) (d : ℕ) (found : ℤ × Bool)
      → Below budgets (found.0)
      → (found.1 ≡ false → Idle budgets)
      → All
          (λ (b : DisruptionBudget).
            budget_active parse_standard b reason now ≡ true
            → Limit (resolve_budget_count b.nodes total) d (less (min_budget total found) d))
          budgets
  min_budget-Limits [] d found below idle = tt
  min_budget-Limits (b ∷ budgets) d (least, true) below idle = (
    λ active. Limit-less least (resolve_budget_count b.nodes total) d (below.0 active),
    min_budget-Limits budgets d (least, true) (below.1) (λ e. absurd (ground (arith, e))),
  )
  min_budget-Limits (b ∷ budgets) d (least, false) below idle = (
    λ active. absurd (let e = (idle refl).0 in ground (arith, active, e)),
    min_budget-Limits budgets d (least, false) (below.1) (λ e. (idle e).1),
  )

module _ {Q : Type 0} (parse_standard : String → Option (ℕ → ℕ)) (c : Cluster Q) (pool : ExitPool Q)
    (reason : DisruptionReason) (now : ℕ) where
  abbrev pub in_all : ℕ
  in_all = count_exits_in_pool (all_exits c) pool.meta.name

  abbrev pub disrupting : ℕ
  disrupting = count_disrupting_in_pool (all_exits c) pool.meta.name

  abbrev pub granted : ℕ
  granted = allowed_disruptions parse_standard c (some pool) reason now

  -- What GetAllowedDisruptionsByReason returns keeps every budget of the pool that is active for the
  -- reason: it is 0, or together with the exits already being disrupted at most the count of the budget.
  -- Where no budget is active it is the default budget less those exits, or 0.
  pub allowed_disruptions-Limits :
      All
        (λ (b : DisruptionBudget).
          budget_active parse_standard b reason now ≡ true
          → Limit (resolve_budget_count b.nodes in_all) disrupting granted)
        pool.spec.disruption.budgets
      × (Idle parse_standard reason now in_all pool.spec.disruption.budgets
          → granted ≡ default_budget in_all - disrupting)
  unfolding allowed_disruptions
  allowed_disruptions-Limits =
      let budgets = pool.spec.disruption.budgets in
      let found = least_budget parse_standard budgets reason now in_all (pos max_int32, false) in
      (
        min_budget-Limits parse_standard reason now in_all budgets disrupting found
            (over-Below parse_standard reason now in_all budgets (pos max_int32, false))
            (λ e.
              (over_matched parse_standard reason now in_all budgets (pos max_int32, false) e).1),
        λ idle.
            ap (λ (r : ℤ × Bool). less (min_budget in_all r) disrupting)
              (over-Idle parse_standard reason now in_all budgets (pos max_int32, false) idle),
      )
