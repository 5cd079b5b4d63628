-- ===== src/State/Cluster/Allocations.antt =====
-- The allocations that `recomputeAllocationsLocked` and `UpdateTunnelBinding` of cluster.go leave.
use frp_operator.Prelude.{
  subst, ℕ, String, ◌≡◌, ◌≢◌, refl, sym, ap, ◌∙◌, inl, inr, not, ◌&&◌, Option, none, some, List, [],
  string_eq, nat_eq, ◌==◌, same-of_ne, beq_refl, Option-cases, Bool-cases,
}
use frp_operator.Prelude.Maps.{lookup, insert, lookup-insert, lookup-insert_self}
use frp_operator.Api.{Port}
use frp_operator.State.Exit.{TunnelKey, TunnelBinding, StateExit}
use frp_operator.State.Cluster.{
  Cluster, derive, recompute_allocations, recompute_old, bump, exit_for_name, update_tunnel_binding,
}

module _ {Q : Type 0} where
  pub recompute_allocations-bindings :
      (name : String) (c : Cluster Q) → (recompute_allocations name c).bindings ≡ c.bindings
  unfolding recompute_allocations
  recompute_allocations-bindings name c = elim (Option-cases (lookup name c.name_to_provider_id)) [
    | inl e ↦ rw (e, recompute_allocations) refl
    | inr (id, e) ↦ elim (Option-cases (lookup id c.exits)) [
      | inl h ↦ rw (e, recompute_allocations, h) refl
      | inr (se, h) ↦ rw (e, recompute_allocations, h) refl
    ]
  ]

  pub recompute_allocations-derive :
      (name : String) (c : Cluster Q) (se : StateExit Q)
      → exit_for_name name (recompute_allocations name c) ≡ some se
      → se.allocations ≡ derive name c.bindings []
  unfolding recompute_allocations exit_for_name
  recompute_allocations-derive name c se found =
      elim (Option-cases (lookup name c.name_to_provider_id)) [
        | inl e ↦
            let same : recompute_allocations name c ≡ c = rw (e, recompute_allocations) refl in
            let f : exit_for_name name c ≡ some se =
              subst (λ (d : Cluster Q). exit_for_name name d ≡ some se) same found in
            let g : none ≡ some se = rw (exit_for_name, e) at f in cc
        | inr (id, e) ↦ elim (Option-cases (lookup id c.exits)) [
          | inl h ↦
              let same : recompute_allocations name c ≡ c = rw (e, recompute_allocations, h) refl in
              let f : exit_for_name name c ≡ some se =
                subst (λ (d : Cluster Q). exit_for_name name d ≡ some se) same found in
              let g : none ≡ some se = rw (exit_for_name, e, h) at f in cc
          | inr (old, h) ↦
              let new : StateExit Q = record old { allocations = derive name c.bindings [] } in
              let c' : Cluster Q = record c { exits = insert id new c.exits } in
              let same : recompute_allocations name c ≡ c' =
                rw (e, recompute_allocations, h) refl in
              let f : exit_for_name name c' ≡ some se =
                subst (λ (d : Cluster Q). exit_for_name name d ≡ some se) same found in
              let g : lookup id (insert id new c.exits) ≡ some se = rw (exit_for_name, e) at f in
              let is_new : new ≡ se = cc (g, lookup-insert_self id new c.exits) in
              ap (λ (s : StateExit Q). s.allocations) (sym is_new)
        ]
      ]

  pub recompute_old-bindings :
      (old : Option TunnelBinding) (name : String) (c : Cluster Q)
      → (recompute_old old name c).bindings ≡ c.bindings
  unfolding recompute_old
  recompute_old-bindings none name c = refl
  recompute_old-bindings (some old) name c =
      elim (Bool-cases (not (old.exit_claim_name == "") && not (old.exit_claim_name == name))) [
        | inl e ↦ rw e (recompute_allocations-bindings old.exit_claim_name c)
        | inr e ↦ rw e refl
      ]

  -- After `UpdateTunnelBinding` binds a tunnel to a named exit, the allocations of that exit, where the
  -- cluster has it, are those that the bindings with the new one give, and that one is recorded.
  pub update_tunnel_binding-derive :
      (now : ℕ) (key : TunnelKey) (name : String) (ports : List Port) (c : Cluster Q)
      (se : StateExit Q)
      → name ≢ ""
      → exit_for_name name (update_tunnel_binding now key name ports c).0 ≡ some se
      → (se.allocations ≡ derive name (update_tunnel_binding now key name ports c).0.bindings [])
        × (lookup key (update_tunnel_binding now key name ports c).0.bindings
            ≡ some (record { tunnel_key = key; exit_claim_name = name; assigned_ports = ports }))
  unfolding update_tunnel_binding bump exit_for_name
  update_tunnel_binding-derive now key name ports c se named found =
      let b : TunnelBinding = record {
        tunnel_key = key;
        exit_claim_name = name;
        assigned_ports = ports;
      } in
      let c1 : Cluster Q =
        recompute_old (lookup key c.bindings) name
          (record c { bindings = insert key b c.bindings }) in
      let after : Cluster Q = record (recompute_allocations name c1) { cluster_state = now } in
      let step : (update_tunnel_binding now key name ports c).0 ≡ after =
        rw (update_tunnel_binding, same-of_ne name "" named) refl in
      let kept = recompute_allocations-bindings name c1 in
      let f : exit_for_name name (recompute_allocations name c1) ≡ some se =
        subst (λ (d : Cluster Q). exit_for_name name d ≡ some se) step found in
      let recorded : after.bindings ≡ insert key b c.bindings =
        kept
        ∙ recompute_old-bindings (lookup key c.bindings) name
            (record c { bindings = insert key b c.bindings }) in
      rw (step) (
        recompute_allocations-derive name c1 se f ∙ ap (λ bs. derive name bs []) (sym kept),
        ap (lookup key) recorded ∙ (lookup-insert key key b c.bindings ∙ rw (beq_refl key) refl),
      )
