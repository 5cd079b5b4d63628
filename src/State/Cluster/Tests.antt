-- ===== src/State/Cluster/Tests.antt =====
-- A tunnel bound to an exit that serves another one already.
use frp_operator.Prelude.{ℕ, ◌≡◌, refl, true, false, none, some, List, [], ◌∷◌, string_eq, nat_eq}
use frp_operator.Api.{Port}
use frp_operator.State.Exit.{TunnelKey, TunnelBinding, StateExit}
use frp_operator.State.Cluster.{
  bump, recompute_allocations, allocate, Cluster, derive, exit_for_name, update_tunnel_binding,
}

abbrev bound : TunnelKey → List Port → TunnelBinding
bound key ports = record { tunnel_key = key; exit_claim_name = "exit"; assigned_ports = ports }

abbrev serving : List (Port × TunnelKey) → StateExit ℕ
serving allocs = record {
  claim = none;
  allocations = allocs;
  marked_for_deletion = false;
  nominated = false;
}

abbrev cluster : Cluster ℕ
cluster = record {
  exits = ("fake://exit", serving ((80, "default/db") ∷ [])) ∷ [];
  name_to_provider_id = ("exit", "fake://exit") ∷ [];
  pending_claims = [];
  pools = [];
  bindings = ("default/db", bound "default/db" (80 ∷ [])) ∷ [];
  cluster_state = 1;
  provisioner_trigger = true;
  disruption_trigger = true;
}

abbrev updated : Cluster ℕ
updated = (update_tunnel_binding 2 "default/web" "exit" (443 ∷ []) cluster).0

updated_exit :
    exit_for_name "exit" updated ≡ some (serving ((80, "default/db") ∷ (443, "default/web") ∷ []))
unfolding update_tunnel_binding exit_for_name derive bump recompute_allocations allocate
updated_exit = refl
