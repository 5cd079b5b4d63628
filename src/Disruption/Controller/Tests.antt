-- ===== src/Disruption/Controller/Tests.antt =====
-- A cluster without exits and one candidate of the pool edge, and what the budgets and the methods make of
-- it.
use frp_operator.Prelude.{
  ℕ, ◌↔◌, ◌-◌, ◌≤◌, ◌≡◌, String, true, false, Option, none, [], ◌∷◌, string_eq, nat_eq,
}
use frp_operator.Api.{ExitPool, DisruptionBudget, empty, drifted}
use frp_operator.State.Cluster.{Cluster, new_cluster}
use frp_operator.Scheduling.Exits.Tests.{edge, claim, exit}
use frp_operator.Disruption.{Candidate, BudgetMap, allowed, reason_eq}
use frp_operator.Disruption.Budgets.{budget_active, resolve_budget_count, default_budget}
use frp_operator.Disruption.Budgets.Limits.{
  Limit, Idle, in_all, disrupting, granted, allowed_disruptions-Limits,
}
use frp_operator.Disruption.Methods.{
  emptiness_commands, commands_with_replacements, replacement_for_candidate, drift_should_disrupt,
}
use frp_operator.Disruption.Methods.Caps.{
  taken, emptiness_commands-le, commands_with_replacements-le,
}
use frp_operator.Disruption.Methods.Replacement.{ClassDrifts, replacement_settled}
use frp_operator.Disruption.Controller.{compute_budgets}
use frp_operator.Disruption.Controller.Grants.{
  first_grant, allowed-compute_budgets, emptiness_pass-le,
}
use frp_operator.Api.{annotation_pool_hash, annotation_provider_class_hash}

abbrev hourly : String → Option (ℕ → ℕ)
hourly schedule = none

abbrev half : DisruptionBudget
half = record { nodes = "50%"; schedule = ""; duration = none; reasons = [] }

abbrev budgeted : ExitPool ℕ
budgeted = record edge {
  spec = record edge.spec { disruption = record edge.spec.disruption { budgets = half ∷ [] } };
}

abbrev nothing_known : Cluster ℕ
nothing_known = new_cluster

abbrev candidate : Candidate ℕ
candidate = record {
  claim = claim;
  state = exit.state;
  pool = budgeted;
  disruption_cost = 0;
  last_binding_change = 0;
}

abbrev one_left : BudgetMap
one_left = ("edge", (empty, 1) ∷ []) ∷ []

allowed_disruptions-Limits_example :
    ((budget_active hourly half empty 9 ≡ true
        → Limit
            (resolve_budget_count "50%" (in_all hourly nothing_known budgeted empty 9))
            (disrupting hourly nothing_known budgeted empty 9)
            (granted hourly nothing_known budgeted empty 9))
      × Unit {0})
    × (Idle hourly empty 9 (in_all hourly nothing_known budgeted empty 9) (half ∷ [])
        → granted hourly nothing_known budgeted empty 9
          ≡ default_budget (in_all hourly nothing_known budgeted empty 9)
            - disrupting hourly nothing_known budgeted empty 9)
allowed_disruptions-Limits_example =
    allowed_disruptions-Limits hourly nothing_known budgeted empty 9

emptiness_commands-le_example :
    taken "edge" (emptiness_commands one_left (candidate ∷ candidate ∷ []))
    ≤ allowed "edge" empty one_left
emptiness_commands-le_example = emptiness_commands-le one_left (candidate ∷ candidate ∷ []) "edge"

-- The template carries an older hash of the provider class than the pool.
abbrev stale : ExitPool ℕ
stale = record budgeted {
  meta = record budgeted.meta {
    annotations = (annotation_pool_hash, "p1") ∷ (annotation_provider_class_hash, "c2") ∷ [];
  };
  spec = record budgeted.spec {
    template = record budgeted.spec.template {
      annotations = (annotation_provider_class_hash, "c1") ∷ [];
    };
  };
}

abbrev of_stale : Candidate ℕ
of_stale = record candidate { pool = stale }

replacement_settled_example :
    (drift_should_disrupt
        (record of_stale { claim = replacement_for_candidate of_stale; state = exit.state })
      ≡ true)
    ↔ ((false ≡ false) × ClassDrifts stale)
replacement_settled_example = replacement_settled of_stale exit.state

allowed-compute_budgets_example :
    allowed "edge" empty (compute_budgets hourly nothing_known false empty 9 (candidate ∷ []))
    ≡ first_grant hourly nothing_known false empty 9 "edge" (candidate ∷ []) 0
allowed-compute_budgets_example =
    allowed-compute_budgets hourly nothing_known false empty 9 (candidate ∷ []) "edge"

emptiness_pass-le_example :
    taken "edge" (
      emptiness_commands
        (compute_budgets hourly nothing_known false empty 9 (candidate ∷ []))
        (candidate ∷ []))
    ≤ first_grant hourly nothing_known false empty 9 "edge" (candidate ∷ []) 0
emptiness_pass-le_example = emptiness_pass-le hourly nothing_known 9 (candidate ∷ []) "edge"

abbrev drift_budget : BudgetMap
drift_budget = ("edge", (drifted, 1) ∷ []) ∷ []

commands_with_replacements-le_example :
    taken "edge"
      (commands_with_replacements "Drift" drifted drift_budget (candidate ∷ candidate ∷ []))
    ≤ allowed "edge" drifted drift_budget
commands_with_replacements-le_example =
    commands_with_replacements-le "Drift" drifted drift_budget (candidate ∷ candidate ∷ []) "edge"
