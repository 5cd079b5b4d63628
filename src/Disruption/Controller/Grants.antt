-- ===== src/Disruption/Controller/Grants.antt =====
-- The budgets that one pass of the controller gives its methods.
use frp_operator.Prelude.{
  ℕ, ◌≤◌, String, ◌≡◌, refl, ap, ◌∙◌, inl, inr, Bool, false, Option, List, [], ◌∷◌, arith,
  string_eq, ◌==◌, contains, Bool-cases, if◌then◌else◌,
}
use frp_operator.Api.{DisruptionReason, empty}
use frp_operator.State.Cluster.{Cluster}
use frp_operator.Disruption.{Candidate, BudgetMap, allowed, set_budget, reason_eq}
use frp_operator.Disruption.Methods.{emptiness_commands}
use frp_operator.Disruption.Methods.Caps.{taken, emptiness_commands-le}
use frp_operator.Disruption.Consolidation.Caps.{allowed-set_budget}
use frp_operator.Disruption.Controller.{grant, budgets_loop, compute_budgets}

allowed_none : (name : String) (reason : DisruptionReason) → allowed name reason [] ≡ 0
unfolding allowed
allowed_none name reason = refl

module _ {Q : Type 0} (parse_standard : String → Option (ℕ → ℕ)) (c : Cluster Q) (forceful : Bool)
    (reason : DisruptionReason) (now : ℕ) where
  -- The budget for the pool of that name: that of its first candidate, or `other`.
  abbrev pub first_grant : String → List (Candidate Q) → ℕ → ℕ
  first_grant name [] other = other
  first_grant name (cand ∷ cands) other =
      if cand.pool.meta.name == name
      then grant parse_standard c forceful reason now cand.pool
      else first_grant name cands other

  allowed-budgets_loop :
      (cands : List (Candidate Q)) (seen : List String) (budgets : BudgetMap) (name : String)
      → allowed name reason (budgets_loop parse_standard c forceful reason now cands seen budgets)
        ≡ (if contains seen name
            then allowed name reason budgets
            else first_grant name cands (allowed name reason budgets))
  unfolding budgets_loop
  allowed-budgets_loop [] seen budgets name = ground arith
  allowed-budgets_loop (cand ∷ cands) seen budgets name =
      let pool = cand.pool.meta.name in
      let n = grant parse_standard c forceful reason now cand.pool in
      elim (Bool-cases (contains seen pool)) [
        | inl old ↦
            let rest = allowed-budgets_loop cands seen budgets name in
            rw (budgets_loop, old)
              (elim (Bool-cases (pool == name)) [
                | inl same ↦
                    let e =
                      ap (λ (m : String). contains seen m)
                        ((string_eq.same_iff pool name).0 same) in
                    ground (arith, rest, e, old, same)
                | inr other ↦ ground (arith, rest, other)
              ])
        | inr fresh ↦
            let rest =
              allowed-budgets_loop cands (pool ∷ seen) (set_budget pool reason n budgets) name in
            let written = allowed-set_budget pool name reason n budgets in
            rw (budgets_loop, fresh)
              (elim (Bool-cases (pool == name)) [
                | inl same ↦
                    let e =
                      ap (λ (m : String). contains seen m)
                        ((string_eq.same_iff pool name).0 same) in
                    ground (arith, rest, e, fresh, same, written)
                | inr other ↦
                    let kept = rw other at written in
                    let e = ap (λ (m : ℕ). first_grant name cands m) kept in
                    ground (arith, rest, other, kept, e)
              ])
      ]

  -- `computeBudgets` allows each pool what its first candidate is granted, and pools without a candidate
  -- nothing.
  pub allowed-compute_budgets :
      (cands : List (Candidate Q)) (name : String)
      → allowed name reason (compute_budgets parse_standard c forceful reason now cands)
        ≡ first_grant name cands 0
  unfolding compute_budgets
  allowed-compute_budgets cands name =
      allowed-budgets_loop cands [] [] name
      ∙ ap (λ (n : ℕ). first_grant name cands n) (allowed_none name reason)

-- What Emptiness takes of a pool in one pass is at most what GetAllowedDisruptionsByReason grants its
-- first eligible candidate there.
pub emptiness_pass-le :
    {Q : Type 0}
    → (parse_standard : String → Option (ℕ → ℕ)) → (c : Cluster Q) → (now : ℕ)
    → (cands : List (Candidate Q)) → (name : String)
    → taken name (emptiness_commands (compute_budgets parse_standard c false empty now cands) cands)
      ≤ first_grant parse_standard c false empty now name cands 0
emptiness_pass-le parse_standard c now cands name =
    let budgets = compute_budgets parse_standard c false empty now cands in
    let bound = emptiness_commands-le budgets cands name in
    let same = allowed-compute_budgets parse_standard c false empty now cands name in
    omega (arith, bound, same)
