-- ===== src/State/Tests.antt =====
-- A cluster that hears of a claim, of its launch and of a tunnel bound_tunnel to it.
use frp_operator.Prelude.Maps.{lookup}
use frp_operator.Prelude.{
  same-cases, same-of_ne, sym, inl, inr, ℕ, String, ◌≡◌, refl, true, none, some, [], ◌∷◌, string_eq,
  nat_eq, ok, ◌≢◌,
}
use frp_operator.Api.{ExitClaim, Tunnel}
use frp_operator.Scheduling.Exits.Tests.{claim, tunnel, edge}
use frp_operator.State.Cluster.{
  Cluster, new_cluster, set_triggers, bump, update_pool, update_exit, update_tunnel_binding,
  recompute_allocations,
}
use frp_operator.State.Cluster.Recompute.{WellFormed}
use frp_operator.State.Informer.{sync_claim, sync_pool, sync_tunnel}
use frp_operator.State.Events.{
  Plausible, Reach, claim_read, pool_synced, tunnel_synced, start, later, Reach-WellFormed,
}

abbrev waiting : ExitClaim ℕ
waiting = record claim { status = record claim.status { provider_id = "" } }

abbrev launched : ExitClaim ℕ
launched = record claim { status = record claim.status { provider_id = "fake://1" } }

abbrev bound_tunnel : Tunnel ℕ
bound_tunnel = record tunnel {
  status = record tunnel.status { assigned_exit = claim.meta.name; assigned_ports = 8000 ∷ [] };
}

abbrev fresh : Cluster ℕ
fresh = set_triggers true true new_cluster

abbrev after_pool : Cluster ℕ
after_pool = (sync_pool 1 "edge" (ok edge) fresh).1

abbrev after_claim : Cluster ℕ
after_claim = (sync_claim 2 claim.meta.name (ok waiting) after_pool).1

abbrev after_tunnel : Cluster ℕ
after_tunnel = (sync_tunnel 3 "default" "web" (ok bound_tunnel) after_claim).1

abbrev after_exit : Cluster ℕ
after_exit = (sync_claim 4 claim.meta.name (ok launched) after_tunnel).1

names_of_pool : after_pool.name_to_provider_id ≡ []
unfolding sync_pool update_pool bump set_triggers new_cluster
names_of_pool = refl

names_of_tunnel : after_tunnel.name_to_provider_id ≡ (claim.meta.name, "") ∷ []
unfolding sync_tunnel sync_claim sync_pool update_tunnel_binding update_exit update_pool bump
    recompute_allocations set_triggers new_cluster
names_of_tunnel = refl

none_known :
    (id : String) → lookup claim.meta.name after_pool.name_to_provider_id ≡ some id → id ≡ ""
none_known id h = let h' : none ≡ some id = rw names_of_pool at h in absurd cc

unfound : (v : String) → none ≢ some v
unfound v e = cc

no_exit :
    (name : String)
    → lookup name after_tunnel.name_to_provider_id ≡ some "fake://1"
    → name ≡ claim.meta.name
no_exit name h = elim (same-cases name claim.meta.name) [
  | inl e ↦ e
  | inr n ↦
      let h' : lookup name ((claim.meta.name, "") ∷ []) ≡ some "fake://1" =
        rw names_of_tunnel at h in
      let gone : none ≡ some "fake://1" =
        rw (same-of_ne claim.meta.name name (λ q. n (sym q))) at h' in
      absurd (unfound "fake://1" gone)
]

waiting-Plausible : Plausible after_pool waiting
waiting-Plausible = (λ e. none_known, λ n. absurd (n refl))

launched-Plausible : Plausible after_tunnel launched
launched-Plausible = (λ e. cc, λ n. no_exit)

after_exit-Reach : Reach after_exit
after_exit-Reach =
    later
      (later
        (later (later (start true true) (pool_synced 1 "edge" (ok edge)))
          (claim_read 2 claim.meta.name waiting waiting-Plausible))
        (tunnel_synced 3 "default" "web" (ok bound_tunnel)))
      (claim_read 4 claim.meta.name launched launched-Plausible)

Reach-WellFormed_example : WellFormed after_exit
Reach-WellFormed_example = Reach-WellFormed after_exit-Reach
