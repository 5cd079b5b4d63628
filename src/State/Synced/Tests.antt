-- ===== src/State/Synced/Tests.antt =====
-- A cache and an API with one launched exit and one pool.
use frp_operator.Prelude.{ℕ, ◌≡◌, refl, true, false, some, [], ◌∷◌, string_eq, ok}
use frp_operator.Api.{Tunnel}
use frp_operator.State.Cluster.{Cluster}
use frp_operator.Scheduling.Exits.Tests.{claim, edge, tunnel, exit}
use frp_operator.State.Synced.{
  provider_ids, assignments, claims_cached, pools_cached, tunnels_cached, all_in, names_live,
  bindings_live, agrees, synced,
}
use frp_operator.State.Synced.Agreement.{Agreement, synced-Agreement}

abbrev bound_tunnel : Tunnel ℕ
bound_tunnel = record tunnel { status = record tunnel.status { assigned_exit = "exit" } }

abbrev cache : Cluster ℕ
cache = record {
  exits = ("fake://exit", exit.state) ∷ [];
  name_to_provider_id = ("exit", "fake://exit") ∷ [];
  pending_claims = [];
  pools = ("edge", record { pool = some edge; resources = []; exits = 0 }) ∷ [];
  bindings =
      (
        "default/web",
        record { tunnel_key = "default/web"; exit_claim_name = "exit"; assigned_ports = 8002 ∷ [] },
      )
      ∷ [];
  cluster_state = 0;
  provisioner_trigger = false;
  disruption_trigger = false;
}

in_step : synced cache (ok (claim ∷ [])) (ok (edge ∷ [])) (ok (bound_tunnel ∷ [])) ≡ true
unfolding synced agrees claims_cached pools_cached tunnels_cached all_in names_live bindings_live
    provider_ids assignments
in_step = refl

synced-Agreement_example : Agreement cache (claim ∷ []) (edge ∷ []) (bound_tunnel ∷ [])
synced-Agreement_example =
    synced-Agreement cache (claim ∷ []) (edge ∷ []) (bound_tunnel ∷ []) in_step
