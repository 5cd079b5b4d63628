-- ===== src/State/Cluster.antt =====
-- pkg/controllers/state/cluster.go. A trigger is a callback that may be unset; a step returns the
-- triggers that it fires once the lock is released. `now` is the reading of the clock.
pub mod Allocations
pub mod Sound
pub mod Promote
pub mod Fresh
pub mod Recompute
pub mod Claims
pub mod Bindings
mod Tests
use frp_operator.Prelude.{
  ℕ, String, Bool, true, false, ◌&&◌, not, Option, none, some, List, [], ◌∷◌, ◌++◌, string_eq,
  nat_eq, ◌==◌, add_all, if◌then◌else◌, is_some,
}
use frp_operator.Prelude.Maps.{lookup, insert, delete, values}
use frp_operator.Api.{Port, ExitClaim, ExitPool}
use frp_operator.State.Exit.{TunnelKey, TunnelBinding, StateExit, StatePool}

pub data Trigger : Type 0 where
  provisioner disruption : Trigger

pub record Cluster (Q : Type 0) : Type 0 where
  pub exits : List (String × StateExit Q)
  pub name_to_provider_id : List (String × String)
  pub pending_claims : List (String × ExitClaim Q)
  pub pools : List (String × StatePool Q)
  pub bindings : List (TunnelKey × TunnelBinding)
  pub cluster_state : ℕ
  pub provisioner_trigger : Bool
  pub disruption_trigger : Bool

-- allocs[p] = tunnelKey for each port of one binding.
pub allocate : TunnelKey → List Port → List (Port × TunnelKey) → List (Port × TunnelKey)
allocate key [] allocs = allocs
allocate key (p ∷ ports) allocs = allocate key ports (insert p key allocs)

-- The loop of `recomputeAllocationsLocked` over the bindings.
pub derive :
    String → List (TunnelKey × TunnelBinding) → List (Port × TunnelKey) → List (Port × TunnelKey)
derive name [] allocs = allocs
derive name ((key, b) ∷ bindings) allocs =
    derive name bindings
      (if b.exit_claim_name == name then allocate key b.assigned_ports allocs else allocs)

-- The loop of `PortsForClaimName`.
ports_of : String → List (TunnelKey × TunnelBinding) → List Port → List Port
ports_of name [] out = out
ports_of name ((key, b) ∷ bindings) out =
    ports_of name bindings (if b.exit_claim_name == name then add_all b.assigned_ports out else out)

-- `fireTriggers`.
unfoldable pub fire_triggers : Bool → Bool → List Trigger
fire_triggers p d = (if p then provisioner ∷ [] else []) ++ (if d then disruption ∷ [] else [])

module _ {Q : Type 0} where
  -- `NewCluster`.
  unfoldable pub new_cluster : Cluster Q
  new_cluster = record {
    exits = [];
    name_to_provider_id = [];
    pending_claims = [];
    pools = [];
    bindings = [];
    cluster_state = 0;
    provisioner_trigger = false;
    disruption_trigger = false;
  }

  -- `SetTriggers`.
  unfoldable pub set_triggers : Bool → Bool → Cluster Q → Cluster Q
  set_triggers p d c = record c { provisioner_trigger = p; disruption_trigger = d }

  -- `bumpAndCollectTriggers`, then `fireTriggers`.
  unfoldable pub bump : ℕ → Cluster Q → Cluster Q × List Trigger
  unfolding fire_triggers
  bump now c =
      (record c { cluster_state = now }, fire_triggers c.provisioner_trigger c.disruption_trigger)

  -- `recomputeAllocationsLocked`.
  unfoldable pub recompute_allocations : String → Cluster Q → Cluster Q
  recompute_allocations exit_name c = elim (lookup exit_name c.name_to_provider_id) [
    | none ↦ c
    | some id ↦ elim (lookup id c.exits) [
      | none ↦ c
      | some se ↦ record c {
        exits = insert id (record se { allocations = derive exit_name c.bindings [] }) c.exits;
      }
    ]
  ]

  -- Drops the exit that the name pointed at, if it was another one.
  pub drop_orphan :
      Option String → String → List (String × StateExit Q) → List (String × StateExit Q)
  drop_orphan none id exits = exits
  drop_orphan (some old_id) id exits =
      if not (old_id == "") && not (old_id == id) then delete old_id exits else exits

  -- The exit with this claim: the one at hand, or a new one.
  pub with_claim : Option (StateExit Q) → ExitClaim Q → StateExit Q
  with_claim none claim = record {
    claim = some claim;
    allocations = [];
    marked_for_deletion = false;
    nominated = false;
  }
  with_claim (some se) claim = record se { claim = some claim }

  -- The steps of `UpdateExit` for a launched claim, up to the recomputation.
  unfoldable pub promote : ExitClaim Q → Cluster Q → Cluster Q
  unfolding drop_orphan with_claim
  promote claim c =
      let name = claim.meta.name in
      let id = claim.status.provider_id in
      let exits = drop_orphan (lookup name c.name_to_provider_id) id c.exits in
      record c {
        pending_claims = delete name c.pending_claims;
        exits = insert id (with_claim (lookup id exits) claim) exits;
        name_to_provider_id = insert name id c.name_to_provider_id;
      }

  -- `UpdateExit`.
  unfoldable pub update_exit : ℕ → ExitClaim Q → Cluster Q → Cluster Q × List Trigger
  update_exit now claim c =
      let name = claim.meta.name in
      if claim.status.provider_id == ""
      then bump now (record c {
        name_to_provider_id = insert name "" c.name_to_provider_id;
        pending_claims = insert name claim c.pending_claims;
      })
      else bump now (recompute_allocations name (promote claim c))

  -- `DeleteExit`.
  unfoldable pub delete_exit : ℕ → String → Cluster Q → Cluster Q × List Trigger
  delete_exit now name c = elim (lookup name c.name_to_provider_id) [
    | none ↦
        if is_some (lookup name c.pending_claims)
        then bump now (record c { pending_claims = delete name c.pending_claims })
        else (c, [])
    | some id ↦ bump now (record c {
      exits = delete id c.exits;
      name_to_provider_id = delete name c.name_to_provider_id;
      pending_claims = delete name c.pending_claims;
    })
  ]

  -- `ExitForProviderID`.
  unfoldable pub exit_for_provider_id : String → Cluster Q → Option (StateExit Q)
  exit_for_provider_id id c = lookup id c.exits

  -- `ExitForName`.
  unfoldable pub exit_for_name : String → Cluster Q → Option (StateExit Q)
  exit_for_name name c = elim (lookup name c.name_to_provider_id) [
    | none ↦ none
    | some id ↦ lookup id c.exits
  ]

  -- `PendingClaims`, `Exits`, `Pools` and `Pool`.
  unfoldable pub pending : Cluster Q → List (ExitClaim Q)
  pending c = values c.pending_claims

  unfoldable pub all_exits : Cluster Q → List (StateExit Q)
  all_exits c = values c.exits

  unfoldable pub all_pools : Cluster Q → List (StatePool Q)
  all_pools c = values c.pools

  unfoldable pub pool_for : String → Cluster Q → Option (StatePool Q)
  pool_for name c = lookup name c.pools

  -- `PortsForClaimName`.
  unfoldable pub ports_for_claim_name : String → Cluster Q → List Port
  unfolding ports_of
  ports_for_claim_name name c = ports_of name c.bindings []

  -- `UpdatePool`.
  unfoldable pub update_pool : ℕ → ExitPool Q → Cluster Q → Cluster Q × List Trigger
  update_pool now pool c = bump now (record c {
    pools =
        insert pool.meta.name
          (record {
            pool = some pool;
            resources = pool.status.resources;
            exits = pool.status.exits;
          })
          c.pools;
  })

  -- `DeletePool`.
  unfoldable pub delete_pool : ℕ → String → Cluster Q → Cluster Q × List Trigger
  delete_pool now name c = bump now (record c { pools = delete name c.pools })

  -- The recomputation for the exit that a tunnel left.
  pub recompute_old : Option TunnelBinding → String → Cluster Q → Cluster Q
  recompute_old none exit_name c = c
  recompute_old (some old) exit_name c =
      if not (old.exit_claim_name == "") && not (old.exit_claim_name == exit_name)
      then recompute_allocations old.exit_claim_name c
      else c

  pub recompute_unbound : Option TunnelBinding → Cluster Q → Cluster Q
  recompute_unbound none c = c
  recompute_unbound (some old) c = recompute_allocations old.exit_claim_name c

  -- `UpdateTunnelBinding`.
  unfoldable pub update_tunnel_binding :
      ℕ → TunnelKey → String → List Port → Cluster Q → Cluster Q × List Trigger
  unfolding recompute_old recompute_unbound
  update_tunnel_binding now key exit_name ports c =
      let old = lookup key c.bindings in
      if exit_name == ""
      then bump now (recompute_unbound old (record c { bindings = delete key c.bindings }))
      else bump now (
          recompute_allocations exit_name (
            recompute_old old exit_name (record c {
              bindings =
                  insert key
                    (record {
                      tunnel_key = key;
                      exit_claim_name = exit_name;
                      assigned_ports = ports;
                    })
                    c.bindings;
            })))

  -- `DeleteTunnelBinding`.
  unfoldable pub delete_tunnel_binding : ℕ → TunnelKey → Cluster Q → Cluster Q × List Trigger
  delete_tunnel_binding now key c = update_tunnel_binding now key "" [] c

  -- `BindingForTunnel`.
  unfoldable pub binding_for_tunnel : TunnelKey → Cluster Q → Option TunnelBinding
  binding_for_tunnel key c = lookup key c.bindings

  -- `MarkExitForDeletion`: no trigger, and the stamp stays.
  unfoldable pub mark_exit_for_deletion : String → Cluster Q → Cluster Q
  mark_exit_for_deletion name c = elim (lookup name c.name_to_provider_id) [
    | none ↦ c
    | some id ↦ elim (lookup id c.exits) [
      | none ↦ c
      | some se ↦ record c { exits = insert id (record se { marked_for_deletion = true }) c.exits }
    ]
  ]
