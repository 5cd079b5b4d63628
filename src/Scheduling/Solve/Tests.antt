-- ===== src/Scheduling/Solve/Tests.antt =====
-- Solve for two tunnels and one exit that has room for one of them.
use frp_operator.Prelude.{ℕ, ◌≡◌, ◌↔◌, true, none, some, List, [], ◌∷◌, All, Perm}
use frp_operator.Api.{Tunnel, ExitPool}
use frp_operator.Scheduling.Exits.Tests.{units, tunnel, exit, edge}
use frp_operator.Scheduling.Solve.{ClusterView, Results, solve, all_scheduled, sort_pools_by_weight}
use frp_operator.Scheduling.Solve.Outcome.{reported, solve-reported, all_scheduled_iff}
use frp_operator.Scheduling.Solve.Weights.{Descending, sort_pools_by_weight-sorts}

abbrev seen : ClusterView ℕ
seen = record {
  exits = exit.state ∷ [];
  pools = [];
  exits_again = exit.state ∷ [];
  pending_claims = [];
  ports_for_claim_name = λ _. [];
  pool = λ _. none;
}

abbrev waiting : List (Tunnel ℕ)
waiting = tunnel ∷ tunnel ∷ []

abbrev result : Results ℕ
result = solve (λ s. s) seen none waiting

solve-reported_example : All (λ t. reported result.bindings result.tunnel_errors t ≡ true) waiting
solve-reported_example = solve-reported (λ s. s) seen none waiting

all_scheduled_iff_example : (all_scheduled result 2 ≡ true) ↔ (result.tunnel_errors ≡ [])
all_scheduled_iff_example = all_scheduled_iff (λ s. s) seen none waiting

abbrev weighted : ExitPool ℕ
weighted = record edge { spec = record edge.spec { weight = some 5 } }

sort_pools_by_weight-sorts_example :
    Descending (sort_pools_by_weight (edge ∷ weighted ∷ []))
    × Perm (sort_pools_by_weight (edge ∷ weighted ∷ [])) (edge ∷ weighted ∷ [])
sort_pools_by_weight-sorts_example = sort_pools_by_weight-sorts (edge ∷ weighted ∷ [])
