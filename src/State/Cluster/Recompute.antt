-- ===== src/State/Cluster/Recompute.antt =====
-- The state that the operations of cluster.go keep, and what `recomputeAllocationsLocked` does to it.
use frp_operator.Prelude.{
  String, ◌≡◌, ◌≢◌, ◌⊎◌, refl, sym, inl, inr, some, List, [], string_eq, nat_eq, Option-cases,
  Distinct, subst, same-cases,
}
use frp_operator.Prelude.Maps.{lookup, insert, keys}
use frp_operator.Api.{ExitPool}
use frp_operator.State.Exit.{TunnelKey, TunnelBinding, StateExit, StatePool}
use frp_operator.State.Cluster.{Cluster, derive, recompute_allocations}
use frp_operator.State.Cluster.Sound.{Sound, rewrite_exit-Sound}
use frp_operator.State.Cluster.Fresh.{IsFresh, rewrite_exit-IsFresh, rewritten-IsFresh}

-- A binding is kept under its tunnel, and names its exit.
abbrev pub Bound : List (TunnelKey × TunnelBinding) → Type 0
Bound bindings =
    (key : TunnelKey) (b : TunnelBinding)
    → lookup key bindings ≡ some b
    → (b.tunnel_key ≡ key) × (b.exit_claim_name ≢ "")

-- A pool is kept under its name, with the resources and the count of its status.
abbrev pub Pooled : {Q : Type 0} → List (String × StatePool Q) → Type 0
Pooled {Q} pools =
    (name : String) (sp : StatePool Q)
    → lookup name pools ≡ some sp
    → (pool : ExitPool Q) × (sp.pool ≡ some pool)
      × (pool.meta.name ≡ name)
      × (sp.resources ≡ pool.status.resources)
      × (sp.exits ≡ pool.status.exits)

module _ {Q : Type 0} where
  -- Everything that a cluster keeps but its allocations.
  pub record Linked (c : Cluster Q) : Type 0 where
    pub sound : Sound c.exits c.name_to_provider_id c.pending_claims
    pub distinct : Distinct (keys c.bindings)
    pub bound : Bound c.bindings
    pub pooled : Pooled c.pools

  abbrev pub FreshAt : Cluster Q → String → Type 0
  FreshAt c name = IsFresh c.exits c.name_to_provider_id c.bindings name

  -- What every operation keeps: the maps agree, and the allocations of each exit are those that the
  -- bindings give.
  pub record WellFormed (c : Cluster Q) : Type 0 where
    pub linked : Linked c
    pub fresh : (name : String) → FreshAt c name

  abbrev recomputed : String → Cluster Q → StateExit Q → StateExit Q
  recomputed name c se = record se { allocations = derive name c.bindings [] }

  -- The name has no exit, or its exit is written anew.
  recompute_allocations-cases :
      (name : String) (c : Cluster Q)
      → ((recompute_allocations name c ≡ c)
          × ((id : String) (se : StateExit Q)
              → lookup name c.name_to_provider_id ≡ some id
              → lookup id c.exits ≡ some se
              → ⊥))
        ⊎ ((id : String) × (se : StateExit Q) × (lookup name c.name_to_provider_id ≡ some id)
            × (lookup id c.exits ≡ some se)
            × (recompute_allocations name c
                ≡ record c { exits = insert id (recomputed name c se) c.exits }))
  unfolding recompute_allocations
  recompute_allocations-cases name c = elim (Option-cases (lookup name c.name_to_provider_id)) [
    | inl e ↦ inl (rw (e, recompute_allocations) refl, λ id se h found. cc)
    | inr (id, e) ↦ elim (Option-cases (lookup id c.exits)) [
      | inl f ↦ inl (
        rw (e, recompute_allocations, f) refl,
        λ i se h found.
            let same : id ≡ i = cc in let there : lookup id c.exits ≡ some se = rw same found in cc,
      )
      | inr (se, f) ↦ inr (id, se, e, f, rw (e, recompute_allocations, f) refl)
    ]
  ]

  module _ (c : Cluster Q) (l : Linked c) (name : String) where
    open l use {sound, distinct, bound, pooled}

    pub recompute_allocations-Linked : Linked (recompute_allocations name c)
    recompute_allocations-Linked = elim (recompute_allocations-cases name c) [
      | inl (same, gone) ↦ rw same l
      | inr (id, se, known, found, new) ↦ rw new (record {
        sound = rewrite_exit-Sound sound id se (recomputed name c se) found refl;
        distinct = distinct;
        bound = bound;
        pooled = pooled;
      })
    ]

    recompute_allocations_keeps :
        (m : String) → FreshAt c m → FreshAt (recompute_allocations name c) m
    recompute_allocations_keeps m fresh = elim (recompute_allocations-cases name c) [
      | inl (same, gone) ↦ rw same fresh
      | inr (id, se, known, found, new) ↦ rw new (
          rewrite_exit-IsFresh sound c.bindings name m id se (recomputed name c se) known found refl
            fresh)
    ]

    recompute_allocations_makes : FreshAt (recompute_allocations name c) name
    recompute_allocations_makes = elim (recompute_allocations-cases name c) [
      | inl (same, gone) ↦ rw same (λ id se h found. absurd (gone id se h found))
      | inr (id, se, known, found, new) ↦
          rw new (rewritten-IsFresh sound c.bindings name id (recomputed name c se) known refl)
    ]

    -- It brings up to date what is stale only there.
    pub recompute_allocations_mends :
        (m : String) → (m ≢ name → FreshAt c m) → FreshAt (recompute_allocations name c) m
    recompute_allocations_mends m other = elim (same-cases m name) [
      | inl e ↦ subst (FreshAt (recompute_allocations name c)) (sym e) recompute_allocations_makes
      | inr n ↦ recompute_allocations_keeps m (other n)
    ]

    pub recompute_allocations-WellFormed :
        ((m : String) → m ≢ name → FreshAt c m) → WellFormed (recompute_allocations name c)
    recompute_allocations-WellFormed others = record {
      linked = recompute_allocations-Linked;
      fresh = λ m. recompute_allocations_mends m (others m);
    }
