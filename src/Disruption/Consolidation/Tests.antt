-- ===== src/Disruption/Consolidation/Tests.antt =====
-- Two exits of one pool, each with the price 9, and a tunnel on the first: one exit at the price 7 can
-- replace both.
use frp_operator.Prelude.{
  ℕ, ◌≤◌, ◌≡◌, ◌↔◌, String, true, false, none, some, List, [], ◌∷◌, string_eq, nat_eq, Result, ok,
}
use frp_operator.Kube.{ApiError}
use frp_operator.Api.{Tunnel, ExitClaim, op_in, underutilized, requirement_instance_type}
use frp_operator.State.Exit.{StateExit}
use frp_operator.State.Cluster.{Cluster, new_cluster}
use frp_operator.Scheduling.Exits.{SchedulingError}
use frp_operator.Scheduling.Offerings.{Candidate as Choice}
use frp_operator.Scheduling.Exits.Tests.{units, tunnel, claim, named, exit}
use frp_operator.Scheduling.Offerings.Tests.{edge, priced, large, registered}
use frp_operator.Disruption.{Candidate, BudgetMap, allowed, Option}
use frp_operator.Disruption.Methods.Caps.{taken}
use frp_operator.Disruption.Consolidation.{
  RepackPlan, plan_for, single_commands, multi_commands, pack_all, err,
}
use frp_operator.Disruption.Simulation.{SimError, moveable, build_replacement_claim}
use frp_operator.Disruption.Consolidation.Caps.{single_commands-le, multi_commands-le}
use frp_operator.Disruption.Consolidation.Repack.{Packs, pack_all_iff}

abbrev small_claim : String → ExitClaim ℕ
small_claim name = record claim {
  meta = named name;
  spec = record claim.spec {
    requirements =
        record {
          key = requirement_instance_type;
          operator = op_in;
          values = "small" ∷ [];
          min_values = none;
        }
        ∷ [];
  };
}

abbrev serving : String → StateExit ℕ
serving name = record {
  claim = some (small_claim name);
  allocations = [];
  marked_for_deletion = false;
  nominated = false;
}

abbrev candidate : String → Candidate ℕ
candidate name = record {
  claim = small_claim name;
  state = serving name;
  pool = edge;
  disruption_cost = 0;
  last_binding_change = 0;
}

abbrev both : List (Candidate ℕ)
both = candidate "a" ∷ candidate "b" ∷ []

abbrev bound_tunnel : Tunnel ℕ
bound_tunnel = record tunnel { status = record tunnel.status { assigned_exit = "a" } }

abbrev listed : Result ApiError (List (Tunnel ℕ))
listed = ok (bound_tunnel ∷ [])

abbrev nothing_known : Cluster ℕ
nothing_known = new_cluster

abbrev two_left : BudgetMap
two_left = ("edge", (underutilized, 2) ∷ []) ∷ []

abbrev plan : RepackPlan ℕ
plan = record {
  replacement = build_replacement_claim edge large (priced 7 true) (("memory", 3) ∷ []);
  candidates_cost = 18;
  replacement_cost = 7;
}

abbrev after_choice : Result SchedulingError (Choice ℕ) → Result SimError (Option (RepackPlan ℕ))
after_choice (ok best) = ok (
    plan_for nothing_known (some registered) listed edge 18
      (moveable ("a" ∷ "b" ∷ []) (bound_tunnel ∷ [])) best)
after_choice (err problem) = ok none

single_commands-le_example :
    taken "edge" (single_commands nothing_known (some registered) listed two_left both)
    ≤ allowed "edge" underutilized two_left
single_commands-le_example =
    single_commands-le nothing_known (some registered) listed two_left both "edge"

multi_commands-le_example :
    taken "edge" (multi_commands nothing_known (some registered) listed two_left both)
    ≤ allowed "edge" underutilized two_left
multi_commands-le_example =
    multi_commands-le nothing_known (some registered) listed two_left both "edge"

pack_all_iff_example :
    (pack_all (tunnel ∷ []) (exit ∷ []) ≡ ok (exit ∷ []))
    ↔ Packs (tunnel ∷ []) (exit ∷ []) (exit ∷ [])
pack_all_iff_example = pack_all_iff (tunnel ∷ []) (exit ∷ []) (exit ∷ [])
