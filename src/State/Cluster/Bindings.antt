-- ===== src/State/Cluster/Bindings.antt =====
-- What the events of tunnels leave of the state that the operations of cluster.go keep.
use frp_operator.Prelude.{
  same-of_ne, same-cases, ℕ, String, ◌≡◌, ◌≢◌, refl, sym, ◌∙◌, inl, inr, some, List, [], string_eq,
  nat_eq, Option-cases, subst, beq_refl,
}
use frp_operator.Prelude.Maps.{
  lookup, insert, delete, insert-cases, delete-cases, insert-Distinct, delete-Distinct,
}
use frp_operator.Api.{Port}
use frp_operator.State.Exit.{TunnelKey, TunnelBinding}
use frp_operator.State.Cluster.{
  Cluster, recompute_allocations, bump, update_tunnel_binding, recompute_old, recompute_unbound,
}
use frp_operator.State.Cluster.Claims.{stamp-WellFormed}
use frp_operator.State.Cluster.Fresh.{Elsewhere, derive-insert, derive-delete}
use frp_operator.State.Cluster.Recompute.{
  Linked, FreshAt, WellFormed, recompute_allocations-Linked, recompute_allocations_mends,
  recompute_allocations-WellFormed,
}

module _ {Q : Type 0} where
  module _ (c : Cluster Q) (w : WellFormed c) where
    open w use {linked, fresh}
    open linked use {sound, distinct, bound, pooled}

    -- The cluster with a binding set, before the exits are brought up to date.
    bound_anew : TunnelKey → TunnelBinding → Cluster Q
    bound_anew key b = record c { bindings = insert key b c.bindings }

    set-Linked :
        (key : TunnelKey) (b : TunnelBinding)
        → b.tunnel_key ≡ key
        → b.exit_claim_name ≢ ""
        → Linked (bound_anew key b)
    unfolding bound_anew
    set-Linked key b its named = record {
      sound = sound;
      distinct = insert-Distinct key b c.bindings distinct;
      bound = λ k o h. elim (insert-cases key k b o c.bindings h) [
        | inl (at, is_o) ↦
            subst (λ (x : TunnelBinding). (x.tunnel_key ≡ k) × (x.exit_claim_name ≢ "")) is_o
              (its ∙ sym at, named)
        | inr (other, h') ↦ bound k o h'
      ];
      pooled = pooled;
    }

    set_keeps :
        (key : TunnelKey) (b : TunnelBinding) (m : String)
        → Elsewhere m key c.bindings
        → b.exit_claim_name ≢ m
        → FreshAt (bound_anew key b) m
    unfolding bound_anew
    set_keeps key b m gone n id se h found =
        fresh m id se h found ∙ sym (derive-insert m key b c.bindings [] gone n)

    -- Only the exit bound to is stale once the one that the tunnel left is up to date.
    set_old :
        (key : TunnelKey) (b : TunnelBinding)
        → b.tunnel_key ≡ key
        → b.exit_claim_name ≢ ""
        → Linked (recompute_old (lookup key c.bindings) b.exit_claim_name (bound_anew key b))
          × ((m : String)
              → m ≢ b.exit_claim_name
              → FreshAt
                  (recompute_old (lookup key c.bindings) b.exit_claim_name (bound_anew key b))
                  m)
    unfolding recompute_old
    set_old key b its named =
        let links = set-Linked key b its named in
        let name : String = b.exit_claim_name in
        let c0 : Cluster Q = bound_anew key b in
        elim (Option-cases (lookup key c.bindings)) [
          | inl e ↦ rw e (links, λ m n. set_keeps key b m (λ o h. cc) (λ q. n (sym q)))
          | inr (old, e) ↦
              let left : String = old.exit_claim_name in
              let had : left ≢ "" = (bound key old e).1 in
              elim (same-cases left name) [
                | inl stays ↦
                    let same : recompute_old (lookup key c.bindings) name c0 ≡ c0 =
                      rw (e, recompute_old, same-of_ne left "" had, stays, beq_refl name) refl in
                    rw same (
                      links,
                      λ m n.
                          set_keeps key b m
                            (λ o h q. let is_old : some old ≡ some o = sym e ∙ h in n cc)
                            (λ q. n (sym q)),
                    )
                | inr moves ↦
                    let same : recompute_old (lookup key c.bindings) name c0
                        ≡ recompute_allocations left c0 =
                      rw (e, recompute_old, same-of_ne left "" had, same-of_ne left name moves)
                        refl in
                    rw same (
                      recompute_allocations-Linked c0 links left,
                      λ m n. recompute_allocations_mends c0 links left m (λ apart.
                          set_keeps key b m
                            (λ o h q. let is_old : some old ≡ some o = sym e ∙ h in apart cc)
                            (λ q. n (sym q))),
                    )
              ]
        ]

    -- The cluster without the binding, before the exit that it was one to is brought up to date.
    unbound_from : TunnelKey → Cluster Q
    unbound_from key = record c { bindings = delete key c.bindings }

    unset-Linked : (key : TunnelKey) → Linked (unbound_from key)
    unfolding unbound_from
    unset-Linked key = record {
      sound = sound;
      distinct = delete-Distinct key c.bindings distinct;
      bound = λ k o h. bound k o (delete-cases key k o c.bindings h).1;
      pooled = pooled;
    }

    unset_keeps :
        (key : TunnelKey) (m : String) → Elsewhere m key c.bindings → FreshAt (unbound_from key) m
    unfolding unbound_from
    unset_keeps key m gone id se h found =
        fresh m id se h found ∙ sym (derive-delete m key c.bindings [] distinct gone)

    unset-WellFormed :
        (key : TunnelKey)
        → WellFormed (recompute_unbound (lookup key c.bindings) (unbound_from key))
    unfolding recompute_unbound
    unset-WellFormed key = elim (Option-cases (lookup key c.bindings)) [
      | inl e ↦
          rw e (record { linked = unset-Linked key; fresh = λ m. unset_keeps key m (λ o h. cc) })
      | inr (old, e) ↦ rw e (
          recompute_allocations-WellFormed (unbound_from key) (unset-Linked key) old.exit_claim_name
            (λ m n.
              unset_keeps key m (λ o h q. let is_old : some old ≡ some o = sym e ∙ h in n cc)))
    ]

    pub tunnel_changed-WellFormed :
        (now : ℕ) (key : TunnelKey) (name : String) (ports : List Port)
        → WellFormed (update_tunnel_binding now key name ports c).0
    unfolding update_tunnel_binding unbound_from bound_anew
    tunnel_changed-WellFormed now key name ports = elim (same-cases name "") [
      | inl e ↦
          let c' : Cluster Q = recompute_unbound (lookup key c.bindings) (unbound_from key) in
          let after : (update_tunnel_binding now key name ports c).0 ≡ (bump now c').0 =
            rw (e, update_tunnel_binding) refl in
          rw after (stamp-WellFormed c' now (unset-WellFormed key))
      | inr n ↦
          let b : TunnelBinding = record {
            tunnel_key = key;
            exit_claim_name = name;
            assigned_ports = ports;
          } in
          let c1 : Cluster Q = recompute_old (lookup key c.bindings) name (bound_anew key b) in
          let after : (update_tunnel_binding now key name ports c).0
              ≡ (bump now (recompute_allocations name c1)).0 =
            rw (update_tunnel_binding, same-of_ne name "" n) refl in
          let (links, others) = set_old key b refl n in
          rw after (
            stamp-WellFormed (recompute_allocations name c1) now
              (recompute_allocations-WellFormed c1 links name others))
    ]
