-- ===== src/Provisioning/Tests.antt =====
-- A claim that exists and is being deleted, and a binding to it.
use frp_operator.Prelude.{
  ℕ, ◌+◌, String, ◌∙◌, ap, sym, ◌≡◌, ◌≢◌, refl, true, none, some, [], ◌∷◌, string_eq, nat_eq, ◌==◌,
  ok, Bool-cases, inl, inr, if◌then◌else◌, subst, is_some,
}
use frp_operator.Kube.{already_exists}
use frp_operator.Api.{ExitClaim, Tunnel}
use frp_operator.Scheduling.Exits.Tests.{claim, tunnel, inflight}
use frp_operator.Scheduling.Exits.{no_existing_exit_fits}
use frp_operator.Scheduling.Solve.{Binding, Results, tunnel_key}
use frp_operator.Provisioning.{Outside, split_key, persist_results}
use frp_operator.Provisioning.Keys.{split_key-tunnel_key, tunnel_key_inj}
use frp_operator.Provisioning.Doomed.{Doomed, persist_results_spare}

abbrev leaving : ExitClaim ℕ
leaving = record claim { meta = record claim.meta { deletion_timestamp = some 5 } }

-- The world counts the patches that bind a tunnel to edge-1.
abbrev busy : Outside ℕ ℕ
busy = record {
  list_tunnels = λ w. (ok [], w);
  get_claim = λ n w. (ok leaving, w);
  get_tunnel = λ ns n w. (ok tunnel, w);
  create_claim = λ c w. (some already_exists, w);
  patch_tunnel_status = λ t w. (none, if t.status.assigned_exit == "edge-1" then w + 1 else w);
  now = λ w. 7;
}

abbrev Spared : ℕ → Type 0
Spared w = w ≡ 0

patch_spares :
    (t : Tunnel ℕ) (w : ℕ)
    → t.status.assigned_exit ≢ "edge-1"
    → Spared w
    → Spared (busy.patch_tunnel_status t w).1
patch_spares t w apart p = elim (Bool-cases (t.status.assigned_exit == "edge-1")) [
  | inl same ↦ absurd (apart ((string_eq.same_iff t.status.assigned_exit "edge-1").0 same))
  | inr other ↦ rw other p
]

repatch_spares :
    (ns n : String) (w : ℕ) (t new : Tunnel ℕ)
    → Spared w
    → (busy.get_tunnel ns n w).0 ≡ ok t
    → new.status.assigned_exit ≡ t.status.assigned_exit
    → Spared (busy.patch_tunnel_status new (busy.get_tunnel ns n w).1).1
repatch_spares ns n w t new p got same =
    let read : tunnel ≡ t = cc in
    let free : new.status.assigned_exit ≡ tunnel.status.assigned_exit =
      same ∙ ap (λ (x : Tunnel ℕ). x.status.assigned_exit) (sym read) in
    rw free p

busy-Doomed : Doomed busy Spared "edge-1"
busy-Doomed = record {
  get_claim = λ n w p. p;
  get_tunnel = λ ns n w p. p;
  create = λ c w p. p;
  patch = patch_spares;
  repatch = repatch_spares;
  exists_already = λ c w same p. refl;
  being_deleted = λ n w c same p got.
      (let e : leaving ≡ c = cc in
        subst (λ (x : ExitClaim ℕ). is_some x.meta.deletion_timestamp ≡ true) e refl);
}

abbrev to_edge : Binding
to_edge = record {
  tunnel_key = "default/web";
  exit_claim_name = "edge-1";
  assigned_ports = 8000 ∷ [];
}

-- A second tunnel finds no place.
abbrev solved : Results ℕ
solved = record {
  bindings = to_edge ∷ [];
  new_claims = inflight ∷ [];
  tunnel_errors = ("default/other", no_existing_exit_fits) ∷ [];
}

persist_results_spare_example : Spared (persist_results busy (λ problem. "no place") solved 0).1
persist_results_spare_example =
    persist_results_spare busy Spared "edge-1" busy-Doomed (λ problem. "no place") solved 0 refl
      refl

split_key-tunnel_key_example : split_key (tunnel_key tunnel) ≡ ("default", "web")
split_key-tunnel_key_example = split_key-tunnel_key tunnel refl

tunnel_key_inj_example : (tunnel.meta.namespace ≡ "default") × (tunnel.meta.name ≡ "web")
tunnel_key_inj_example = tunnel_key_inj tunnel tunnel refl refl refl
