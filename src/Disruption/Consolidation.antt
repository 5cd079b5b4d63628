-- ===== src/Disruption/Consolidation.antt =====
-- pkg/controllers/disruption/methods: the packing and planning of consolidation_sim.go, and
-- single_consolidation.go and multi_consolidation.go. The list of tunnels that a call of the client
-- yields, or its error, is an argument; the simulator has its dependencies, so that its test for nil
-- ones has no effect.
pub mod Caps
pub mod Repack
mod Tests
use frp_operator.Prelude.{
  ℕ, zero, suc, ◌+◌, ◌-◌, String, Bool, true, false, ◌&&◌, not, Option, none, some, List, [], ◌∷◌,
  ◌++◌, string_eq, nat_eq, ◌==◌, leb, ltb, length, map, contains, add_all, is_some, Result, ok, err,
  if◌then◌else◌,
}
use frp_operator.Kube.{ApiError}
use frp_operator.Api.{
  Port, ResourceList, Quantity, ExitClaim, ExitPool, Tunnel, NodeSelectorRequirement,
  NodeSelectorOperator, op_in, op_not_in, op_exists, op_does_not_exist, op_gt, op_lt, op_other,
  ConsolidationPolicy, when_empty, when_empty_or_underutilized, other_policy, underutilized,
  requirement_instance_type, requirement_region,
}
use frp_operator.State.Exit.{StateExit, snapshot_for_read, is_empty}
use frp_operator.State.Cluster.{Cluster, all_exits}
use frp_operator.Cloudprovider.{Offering, InstanceType, CloudProvider, Registry, provider_for}
use frp_operator.Scheduling.Ports.{resolve_auto_assign}
use frp_operator.Scheduling.Resources.{sum}
use frp_operator.Scheduling.Exits.{ExistingExit, can_add, bind, concat}
use frp_operator.Scheduling.Offerings.{Candidate as Choice, select_instance_type, pin_chosen}
use frp_operator.Disruption.{Candidate, Command, BudgetMap, allowed, set_budget, reason_eq}
use frp_operator.Disruption.Methods.{per_pool}
use frp_operator.Disruption.Simulation.{
  SimError, build_replacement_claim, can_pack, candidate_cost, cannot_repack, combine,
  combine_requirements, get_instance_types, is_in, list_tunnels, lookup_claim_price, moveable,
  names, operator_text, pinned_value, plus_price, price_in, price_of, remaining, request_lists,
  requirements_of, value_or,
}

abbrev pub consolidates : ConsolidationPolicy → Bool
consolidates when_empty_or_underutilized = true
consolidates _ = false

module _ {Q : Type 0} where
  -- `ShouldDisrupt` of both methods.
  pub consolidation_should_disrupt : Candidate Q → Bool
  unfolding is_empty
  consolidation_should_disrupt c =
      if c.state.marked_for_deletion
      then false
      else if not (consolidates c.pool.spec.disruption.consolidation_policy)
      then false
      else not (is_empty c.state)

pub record RepackPlan (Q : Type 0) : Type 0 where
  pub replacement : ExitClaim Q
  pub candidates_cost : ℕ
  pub replacement_cost : ℕ

abbrev pub is_ok : {E A : Type 0} → Result E A → Bool
is_ok (ok a) = true
is_ok (err e) = false

module _ {Q : Type 0} ⦃q : Quantity Q⦄ where
  -- The inner loop of `CanRepack`: the exits with the tunnel on the first that takes it.
  pub first_fit : Tunnel Q → List (ExistingExit Q) → Option (List (ExistingExit Q))
  first_fit t [] = none
  first_fit t (e ∷ exits) = elim (can_add e t) [
    | ok assigned ↦ some (bind t assigned e ∷ exits)
    | err problem ↦ elim (first_fit t exits) [ none ↦ none | some exits' ↦ some (e ∷ exits') ]
  ]

  -- The outer loop of `CanRepack`.
  pub pack_all : List (Tunnel Q) → List (ExistingExit Q) → Result SimError (List (ExistingExit Q))
  pack_all [] exits = ok exits
  pack_all (t ∷ tunnels) exits = elim (first_fit t exits) [
    | none ↦ err (cannot_repack t.meta.namespace t.meta.name)
    | some exits' ↦ pack_all tunnels exits'
  ]

  -- `CanRepack` behind its test for no candidates: on success, the exits with the tunnels on them.
  pub repack :
      Cluster Q
      → Result ApiError (List (Tunnel Q))
      → List String
      → Result SimError (List (ExistingExit Q))
  unfolding all_exits
  repack c (err e) candidate_names = err (list_tunnels e)
  repack c (ok tunnels) candidate_names =
      pack_all (moveable candidate_names tunnels) (remaining candidate_names (all_exits c))

  -- `CanRepack`; the test for no moveable tunnel changes nothing.
  pub can_repack : Cluster Q → Result ApiError (List (Tunnel Q)) → List (Candidate Q) → Bool
  can_repack c tunnels [] = true
  can_repack c tunnels (cand ∷ cands) = is_ok (repack c tunnels (names (cand ∷ cands)))

  module _ (c : Cluster Q) (registry : Option (Registry Q))
      (tunnels : Result ApiError (List (Tunnel Q))) where
    -- The last steps of `CanRepackWithReplacement`.
    pub plan_for : ExitPool Q → ℕ → List (Tunnel Q) → Choice Q → Option (RepackPlan Q)
    plan_for pool cost moved chosen =
        let requested = sum (request_lists moved) in
        let claim = build_replacement_claim pool chosen.it chosen.offering requested in
        if leb cost chosen.offering.price
        then none
        else if not (can_pack claim [] moved)
        then none
        else some (record {
          replacement = claim;
          candidates_cost = cost;
          replacement_cost = chosen.offering.price;
        })

    pub plan_in :
        ExitPool Q
        → List (Candidate Q)
        → List (InstanceType Q)
        → Result SimError (Option (RepackPlan Q))
    plan_in pool candidates [] = ok none
    plan_in pool candidates (it ∷ its) = elim (candidate_cost (it ∷ its) candidates) [
      | none ↦ ok none
      | some cost ↦ elim tunnels [
        | err e ↦ err (list_tunnels e)
        | ok listed ↦
            let moved = moveable (names candidates) listed in
            elim (select_instance_type registry pool (combine_requirements moved)
              (sum (request_lists moved))) [
                | err problem ↦ ok none
                | ok chosen ↦ ok (plan_for pool cost moved chosen)
              ]
      ]
    ]

    pub plan_with :
        ExitPool Q
        → List (Candidate Q)
        → Option (Registry Q)
        → Result SimError (Option (RepackPlan Q))
    plan_with pool candidates none = ok none
    plan_with pool candidates (some reg) =
        if ltb (length candidates) 2
        then ok none
        else elim (provider_for pool.spec.template.spec.provider_class_ref.kind reg) [
          | none ↦ ok none
          | some cp ↦ elim (cp.get_instance_types pool) [
            | none ↦ err get_instance_types
            | some catalog ↦ plan_in pool candidates catalog
          ]
        ]

    -- `CanRepackWithReplacement`.
    pub can_repack_with_replacement :
        ExitPool Q → List (Candidate Q) → Result SimError (Option (RepackPlan Q))
    can_repack_with_replacement pool candidates = plan_with pool candidates registry

    abbrev pub plan_command :
        List (Candidate Q) → Result SimError (Option (RepackPlan Q)) → Option (Command Q)
    plan_command pair (ok (some plan)) = some (record {
      candidates = pair;
      replacements = plan.replacement ∷ [];
      reason = underutilized;
      method = "MultiNodeConsolidation";
    })
    plan_command pair (ok none) = none
    plan_command pair (err e) = none

    -- `tryPair`.
    pub try_pair : ExitPool Q → List (Candidate Q) → Option (Command Q)
    try_pair pool pair =
        if can_repack c tunnels pair
        then some (record {
          candidates = pair;
          replacements = [];
          reason = underutilized;
          method = "MultiNodeConsolidation";
        })
        else plan_command pair (can_repack_with_replacement pool pair)

    -- `SingleNodeConsolidation.ComputeCommands`.
    pub single_commands : BudgetMap → List (Candidate Q) → List (Command Q)
    single_commands budgets [] = []
    single_commands budgets (cand ∷ cands) =
        let name = cand.pool.meta.name in
        let n = allowed name underutilized budgets in
        let next = set_budget name underutilized (n - 1) budgets in
        let fits = not (n == 0) && can_repack c tunnels (cand ∷ []) in
        elim fits [
          | true ↦
              record {
                candidates = cand ∷ [];
                replacements = [];
                reason = underutilized;
                method = "SingleNodeConsolidation";
              }
              ∷ single_commands next cands
          | false ↦ single_commands budgets cands
        ]

    -- The loop of `MultiNodeConsolidation.ComputeCommands` over one bucket, with the budget left for its
    -- pool: pairs of neighbours.
    pub pair_commands : ExitPool Q → ℕ → List (Candidate Q) → List (Command Q)
    pair_commands pool budget [] = []
    pair_commands pool budget (a ∷ []) = []
    pair_commands pool budget (a ∷ b ∷ cands) = elim (ltb budget 2) [
      | true ↦ []
      | false ↦ elim (try_pair pool (a ∷ b ∷ [])) [
        | some cmd ↦ cmd ∷ pair_commands pool (budget - 2) cands
        | none ↦ pair_commands pool budget (b ∷ cands)
      ]
    ]

    -- pools[poolName]: the pool of the last candidate of the bucket.
    abbrev pub last_pool : ExitPool Q → List (Candidate Q) → ExitPool Q
    last_pool pool [] = pool
    last_pool pool (cand ∷ cands) = last_pool cand.pool cands

    abbrev pub bucket_commands : BudgetMap → String → List (Candidate Q) → List (Command Q)
    bucket_commands budgets name [] = []
    bucket_commands budgets name (cand ∷ cands) =
        pair_commands (last_pool cand.pool cands) (allowed name underutilized budgets)
          (cand ∷ cands)

    pub multi_loop : BudgetMap → List (String × List (Candidate Q)) → List (Command Q)
    multi_loop budgets [] = []
    multi_loop budgets ((name, cands) ∷ groups) =
        bucket_commands budgets name cands ++ multi_loop budgets groups

    -- `MultiNodeConsolidation.ComputeCommands`.
    pub multi_commands : BudgetMap → List (Candidate Q) → List (Command Q)
    multi_commands budgets candidates = multi_loop budgets (per_pool candidates [])
