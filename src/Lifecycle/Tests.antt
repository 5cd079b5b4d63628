-- ===== src/Lifecycle/Tests.antt =====
-- A claim deleted at the time 0 with one tunnel bound to it.
use frp_operator.Prelude.{
  ℕ, ◌+◌, ◌≡◌, ◌≢◌, refl, Option, none, some, List, [], ◌∷◌, string_eq, nat_eq, ok, subst,
}
use frp_operator.Kube.{after, seconds, done}
use frp_operator.Api.{ExitClaim, Tunnel}
use frp_operator.State.Cluster.{Cluster}
use frp_operator.Scheduling.Exits.Tests.{claim, tunnel}
use frp_operator.Lifecycle.{
  Outside, delete_error, marked_in, bound_to, finalize, finalize_bound, delete_exit,
}
use frp_operator.Lifecycle.Drain.{
  OutlastsRelease, OutlastsDelete, finalize_drains, finalize_retries,
}

abbrev bound_tunnel : Tunnel ℕ
bound_tunnel = record tunnel { status = record tunnel.status { assigned_exit = "exit" } }

-- Each patch of the claim counts; the provider fails.
abbrev failing : List (Tunnel ℕ) → Outside ℕ ℕ
failing tunnels = record {
  list_tunnels = λ w. (ok tunnels, w);
  patch_tunnel_status = λ t w. (none, w);
  provider = λ kind. some (λ c w. (some (delete_error "busy"), w));
  patch_claim = λ c w. (none, w + 1);
  now = λ w. 7;
}

abbrev Untouched : ℕ → Type 0
Untouched w = w ≡ 0

outlasts_release : (ts : List (Tunnel ℕ)) → OutlastsRelease (failing ts) Untouched
outlasts_release ts = record { list = λ w p. p; patch = λ t w p. p }

outlasts_delete : (ts : List (Tunnel ℕ)) → OutlastsDelete (failing ts) Untouched
outlasts_delete ts = record {
  release = outlasts_release ts;
  delete = λ kind f c w known p.
      (let e : (λ (x : ExitClaim ℕ) (v : ℕ). (some (delete_error "busy"), v)) ≡ f = cc in
        subst (λ g. Untouched (g c w).1) e p);
}

no_cluster : Option (Cluster ℕ)
no_cluster = none

is_bound : bound_to "exit" (bound_tunnel ∷ []) ≢ []
unfolding bound_to
is_bound e = cc

finalize_drains_example :
    ((finalize (failing (bound_tunnel ∷ [])) claim 0 no_cluster 0).0.0 ≡ after (seconds 5))
    × ((finalize (failing (bound_tunnel ∷ [])) claim 0 no_cluster 0).1
        ≡ marked_in "exit" no_cluster)
    × Untouched (finalize (failing (bound_tunnel ∷ [])) claim 0 no_cluster 0).2
finalize_drains_example =
    finalize_drains (failing (bound_tunnel ∷ [])) Untouched (outlasts_release (bound_tunnel ∷ []))
      claim 0 no_cluster 0 (bound_tunnel ∷ []) refl is_bound refl refl

again : (finalize (failing []) claim 0 no_cluster 0).0.0 ≢ done
unfolding finalize finalize_bound delete_exit bound_to
again e = cc

finalize_retries_example : Untouched (finalize (failing []) claim 0 no_cluster 0).2
finalize_retries_example =
    finalize_retries (failing []) Untouched (outlasts_delete []) claim 0 no_cluster 0 refl again
