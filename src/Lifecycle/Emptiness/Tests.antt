-- ===== src/Lifecycle/Emptiness/Tests.antt =====
-- A Ready claim that has been Empty for a while, and a tunnel that comes to it.
use frp_operator.Prelude.{refl, ◌≡◌, ℕ, [], ◌∷◌, string_eq, nat_eq, ◌≡◌}
use frp_operator.Api.{ExitClaim, Tunnel, is_true, condition_type_empty, condition_type_ready}
use frp_operator.Conditions.{new_condition}
use frp_operator.Scheduling.Exits.Tests.{claim, tunnel}
use frp_operator.Lifecycle.Emptiness.{
  Outside, count_bound_tunnels, stamp_empty, with_empty, patch_if, reconcile_emptiness, ok, none,
}
use frp_operator.Lifecycle.Emptiness.Stamp.{Serves, Emptied, reconcile_emptiness-Emptied}

abbrev idle : ExitClaim ℕ
idle = record claim {
  status = record claim.status {
    conditions =
        new_condition condition_type_ready is_true 0 "Ready" "" 3
        ∷ new_condition condition_type_empty is_true 0 "NoTunnels" "" 4
        ∷ [];
  };
}

abbrev comer : Tunnel ℕ
comer = record tunnel { status = record tunnel.status { assigned_exit = idle.meta.name } }

-- The world is the claim at hand.
abbrev serving : Outside ℕ (ExitClaim ℕ)
serving = record {
  get_claim = λ name w. (ok w, w);
  list_tunnels = λ w. (ok (comer ∷ []), w);
  patch_status = λ c w. (none, c);
  now = λ w. 9;
}

abbrev Has : ExitClaim ℕ → ExitClaim ℕ → Type 0
Has c w = c ≡ w

serving-Serves : Serves serving Has
serving-Serves = record { got = λ name w c e. cc; listed = λ c w e. e; patched = λ c w e. refl }

run_ends : (reconcile_emptiness serving "edge-1" idle).0.1 ≡ none
unfolding reconcile_emptiness stamp_empty with_empty count_bound_tunnels patch_if
run_ends = refl

reconcile_emptiness-Emptied_example :
    Emptied serving Has "edge-1" idle idle (reconcile_emptiness serving "edge-1" idle).1
reconcile_emptiness-Emptied_example =
    reconcile_emptiness-Emptied serving Has "edge-1" idle idle serving-Serves refl refl refl
      run_ends
