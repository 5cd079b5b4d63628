-- ===== src/Scheduling/Solve.antt =====
-- pkg/controllers/provisioning/scheduling/scheduler.go, results.go and preferences.go. What Solve reads
-- of the cluster is a `ClusterView`: one field for each call, since each is a read of its own and yields
-- its map in some order. Preferences.Relax always returns false, so the retry loop runs once.
pub mod Outcome
pub mod Weights
mod Tests
use frp_operator.Prelude.{
  ℕ, String, Bool, true, not, ◌||◌, Option, none, some, List, [], ◌∷◌, ◌++◌, nat_eq, string_eq,
  ◌==◌, ltb, length, contains, if◌then◌else◌, is_some, Result, ok, err, map, keep,
}
use frp_operator.Prelude.Maps.{lookup, insert, keys}
use frp_operator.Prelude.Sort.{slice_stable}
use frp_operator.Api.{
  Port, ResourceList, Quantity, is_lt, ExitClaim, ExitPool, Tunnel, has_true, condition_type_ready,
  condition_type_disrupted, label_exit_pool,
}
use frp_operator.State.Exit.{StateExit, StatePool, snapshot_for_read}
use frp_operator.Cloudprovider.{Registry}
use frp_operator.Scheduling.Requirements.{compatible}
use frp_operator.Scheduling.Exits.{
  SchedulingError, limit_exceeded, no_pool, incompatible_requirements, ExistingExit, InflightClaim,
  can_add, bind, can_add_inflight, bind_inflight, sort_by_load, new_claim_from_pool, concat,
}
use frp_operator.Scheduling.Offerings.{Candidate, select_instance_type, pin_chosen}

pub record ClusterView (Q : Type 0) : Type 0 where
  pub exits : List (StateExit Q)
  pub pools : List (StatePool Q)
  pub exits_again : List (StateExit Q)
  pub pending_claims : List (ExitClaim Q)
  pub ports_for_claim_name : String → List Port
  pub pool : String → Option (StatePool Q)

pub record Binding : Type 0 where
  pub tunnel_key : String
  pub exit_claim_name : String
  pub assigned_ports : List Port

pub record Results (Q : Type 0) : Type 0 where
  pub new_claims : List (InflightClaim Q)
  pub bindings : List Binding
  pub tunnel_errors : List (String × SchedulingError)

-- The state of one Solve.
pub record Solving (Q : Type 0) : Type 0 where
  pub existing_exits : List (ExistingExit Q)
  pub inflight_claims : List (InflightClaim Q)
  pub bindings : List Binding
  pub tunnel_errors : List (String × SchedulingError)

module _ {Q : Type 0} where
  -- `AllScheduled`.
  pub all_scheduled : Results Q → ℕ → Bool
  all_scheduled r input_tunnels = length r.bindings == input_tunnels

  -- `tunnelKey`.
  unfoldable pub tunnel_key : Tunnel Q → String
  tunnel_key t = concat t.meta.namespace (concat "/" t.meta.name)

  -- `weight`.
  pub weight : ExitPool Q → ℕ
  weight p = elim p.spec.weight [ none ↦ 0 | some w ↦ w ]

  pub heavier : ExitPool Q → ExitPool Q → Bool
  unfolding weight
  heavier a b = ltb (weight b) (weight a)

  -- `sortPoolsByWeight`.
  pub sort_pools_by_weight : List (ExitPool Q) → List (ExitPool Q)
  sort_pools_by_weight pools = slice_stable heavier pools

  snapshots : List (StatePool Q) → List (ExitPool Q)
  snapshots [] = []
  snapshots (sp ∷ pools) = elim sp.pool [
    | none ↦ snapshots pools
    | some snap ↦ snap ∷ snapshots pools
  ]

  -- `isReady`.
  abbrev pub is_ready : ExitClaim Q → Bool
  is_ready claim = has_true condition_type_ready claim.status.conditions

  -- The pool with this name.
  find_pool : String → List (ExitPool Q) → Option (ExitPool Q)
  find_pool name [] = none
  find_pool name (p ∷ pools) = if p.meta.name == name then some p else find_pool name pools

  -- claim.Labels[LabelExitPool], with Go's empty text for a missing key.
  pub pool_label : ExitClaim Q → String
  pool_label claim = elim (lookup label_exit_pool claim.meta.labels) [
    | none ↦ ""
    | some name ↦ name
  ]

  abbrev rehydrated_as :
      ExitClaim Q
      → List Port
      → Option (ExitPool Q)
      → List (InflightClaim Q)
      → List (InflightClaim Q)
  rehydrated_as claim used none inflight = inflight
  rehydrated_as claim used (some pool) inflight =
      inflight
      ++ record {
        spec = claim.spec;
        name = claim.meta.name;
        pool = pool;
        tunnels = [];
        used_ports = used;
        persisted = true;
      }
        ∷ []

  -- The closure `rehydrate`: its set of names is that of the claims added so far.
  rehydrate :
      List (ExitPool Q) → ExitClaim Q → List Port → List (InflightClaim Q) → List (InflightClaim Q)
  unfolding find_pool pool_label
  rehydrate pools claim used inflight =
      if contains (map (λ c. c.name) inflight) claim.meta.name
      then inflight
      else rehydrated_as claim used (find_pool (pool_label claim) pools) inflight

  -- A claim that the rehydration passes over: Ready, being deleted or disrupted.
  pub passed_over : ExitClaim Q → Bool
  passed_over claim =
      is_ready claim
      || is_some claim.meta.deletion_timestamp
      || has_true condition_type_disrupted claim.status.conditions

  -- The loop over the launched exits.
  rehydrate_exits :
      List (ExitPool Q) → List (StateExit Q) → List (InflightClaim Q) → List (InflightClaim Q)
  unfolding rehydrate
  rehydrate_exits pools [] inflight = inflight
  rehydrate_exits pools (se ∷ exits) inflight =
      rehydrate_exits pools exits (elim (snapshot_for_read se) [
        | none ↦ inflight
        | some (claim, allocs) ↦
            if passed_over claim || se.marked_for_deletion
            then inflight
            else rehydrate pools claim (keys allocs) inflight
      ])

  -- The loop over the pending claims.
  rehydrate_pending :
      (String → List Port)
      → List (ExitPool Q)
      → List (ExitClaim Q)
      → List (InflightClaim Q)
      → List (InflightClaim Q)
  unfolding rehydrate
  rehydrate_pending ports pools [] inflight = inflight
  rehydrate_pending ports pools (claim ∷ claims) inflight = rehydrate_pending ports pools claims (
      if passed_over claim
      then inflight
      else rehydrate pools claim (ports claim.meta.name) inflight)

  -- The pools of one Solve, heaviest first.
  pub solve_pools : ClusterView Q → List (ExitPool Q)
  unfolding snapshots
  solve_pools view = sort_pools_by_weight (snapshots view.pools)

  -- Solve up to the loop over the tunnels.
  pub start : ClusterView Q → Solving Q
  unfolding rehydrate_exits rehydrate_pending
  start view = record {
    existing_exits =
        map (λ se. record { state = se; newly_bound = []; newly_used_ports = [] }) view.exits;
    inflight_claims =
        rehydrate_pending view.ports_for_claim_name (solve_pools view) view.pending_claims
          (rehydrate_exits (solve_pools view) view.exits_again []);
    bindings = [];
    tunnel_errors = [];
  }

  pub binding_of : Tunnel Q → String → List Port → Binding
  binding_of t name assigned = record {
    tunnel_key = tunnel_key t;
    exit_claim_name = name;
    assigned_ports = assigned;
  }

  -- e.State.Claim.Name; the claim is there wherever CanAdd succeeded.
  abbrev pub exit_name : StateExit Q → String
  exit_name se = elim se.claim [ none ↦ "" | some claim ↦ claim.meta.name ]

  module _ ⦃q : Quantity Q⦄ where
    -- The loop of `addToExistingExit`: the exits with the first fitting one bound, and its binding.
    pub place_existing : Tunnel Q → List (ExistingExit Q) → Option (List (ExistingExit Q) × Binding)
    place_existing t [] = none
    place_existing t (e ∷ exits) = elim (can_add e t) [
      | ok assigned ↦ some (bind t assigned e ∷ exits, binding_of t (exit_name e.state) assigned)
      | err problem ↦ elim (place_existing t exits) [
        | none ↦ none
        | some (exits', b) ↦ some (e ∷ exits', b)
      ]
    ]

    -- The loop of `addToInflightClaim`.
    pub place_inflight :
        Tunnel Q → List (InflightClaim Q) → Option (List (InflightClaim Q) × Binding)
    place_inflight t [] = none
    place_inflight t (c ∷ claims) = elim (can_add_inflight c t) [
      | ok assigned ↦ some (bind_inflight t assigned c ∷ claims, binding_of t c.name assigned)
      | err problem ↦ elim (place_inflight t claims) [
        | none ↦ none
        | some (claims', b) ↦ some (c ∷ claims', b)
      ]
    ]

    -- The loop of `poolLimitsExceeded`: a limited dimension that the running total has reached.
    pub limit_reached : ResourceList Q → ResourceList Q → Option String
    limit_reached used [] = none
    limit_reached used ((k, lim) ∷ limits) =
        let rest = limit_reached used limits in
        elim (lookup k used) [
          | none ↦ rest
          | some cur ↦ if not (is_lt (q.cmp cur lim)) then some k else rest
        ]

    -- `poolLimitsExceeded`.
    pub pool_limits_exceeded : ClusterView Q → ExitPool Q → Option String
    pool_limits_exceeded view pool = elim (view.pool pool.meta.name) [
      | none ↦ none
      | some sp ↦ limit_reached sp.resources pool.spec.limits
    ]

    -- The claim pinned to the choice, for what the tunnel requests.
    pub pinned : Tunnel Q → Candidate Q → InflightClaim Q → InflightClaim Q
    pinned t chosen c = record c {
      spec = record c.spec {
        requirements = c.spec.requirements ++ pin_chosen chosen.it chosen.offering;
        requests = t.spec.requests;
      };
    }

    pub open_claim : Tunnel Q → InflightClaim Q → Result SchedulingError (InflightClaim Q × Binding)
    open_claim t c = elim (can_add_inflight c t) [
      | err problem ↦ err problem
      | ok assigned ↦ ok (bind_inflight t assigned c, binding_of t c.name assigned)
    ]

    -- What one pool offers a tunnel: a claim with its binding, or the reason against it.
    pub try_pool :
        (digest : String → String)
        → ClusterView Q
        → Option (Registry Q)
        → Tunnel Q
        → ExitPool Q
        → Result SchedulingError (InflightClaim Q × Binding)
    try_pool digest view registry t pool =
        if not (compatible pool.spec.template.spec.requirements t.spec.requirements)
        then err incompatible_requirements
        else elim (pool_limits_exceeded view pool) [
          | some dim ↦ err (limit_exceeded pool.meta.name dim)
          | none ↦ elim (select_instance_type registry pool t.spec.requirements t.spec.requests) [
            | err problem ↦ err problem
            | ok chosen ↦
                open_claim t (pinned t chosen (new_claim_from_pool digest pool t.meta.uid))
          ]
        ]

    module _ (digest : String → String) (view : ClusterView Q)
        (registry : Option (Registry Q)) where
      -- The loop of `addToNewClaim` over the pools, with the last error.
      pub place_new :
          Tunnel Q
          → SchedulingError
          → List (ExitPool Q)
          → Result SchedulingError (InflightClaim Q × Binding)
      place_new t last_err [] = err last_err
      place_new t last_err (pool ∷ pools) = elim (try_pool digest view registry t pool) [
        | ok placed ↦ ok placed
        | err problem ↦ place_new t problem pools
      ]

      record_binding : Binding → Solving Q → Solving Q
      record_binding b s = record s { bindings = s.bindings ++ b ∷ [] }

      -- `addToNewClaim`, and the error that Solve records.
      pub add_to_new_claim : Tunnel Q → Solving Q → Solving Q
      unfolding record_binding
      add_to_new_claim t s = elim (place_new t (no_pool (tunnel_key t)) (solve_pools view)) [
        | ok (c, b) ↦ record_binding b (record s { inflight_claims = s.inflight_claims ++ c ∷ [] })
        | err problem ↦ record s { tunnel_errors = insert (tunnel_key t) problem s.tunnel_errors }
      ]

      -- `addToInflightClaim`, which leaves the claims sorted also where none fits.
      pub add_to_inflight_claim : Tunnel Q → Solving Q → Solving Q
      unfolding record_binding add_to_new_claim
      add_to_inflight_claim t s =
          let sorted = sort_by_load s.inflight_claims in
          elim (place_inflight t sorted) [
            | some (claims, b) ↦ record_binding b (record s { inflight_claims = claims })
            | none ↦ add_to_new_claim t (record s { inflight_claims = sorted })
          ]

      -- `add`: an existing exit, an inflight claim, or a new one.
      pub add_tunnel : Tunnel Q → Solving Q → Solving Q
      unfolding record_binding
      add_tunnel t s = elim (place_existing t s.existing_exits) [
        | some (exits, b) ↦ record_binding b (record s { existing_exits = exits })
        | none ↦ add_to_inflight_claim t s
      ]

      -- The loop over the tunnels.
      pub add_tunnels : List (Tunnel Q) → Solving Q → Solving Q
      add_tunnels [] s = s
      add_tunnels (t ∷ tunnels) s = add_tunnels tunnels (add_tunnel t s)

      -- The results: of the claims in flight, those that are not persisted yet.
      pub results_of : Solving Q → Results Q
      results_of s = record {
        new_claims = keep (λ c. not c.persisted) s.inflight_claims;
        bindings = s.bindings;
        tunnel_errors = s.tunnel_errors;
      }

      -- `Solve`.
      pub solve : List (Tunnel Q) → Results Q
      solve tunnels = results_of (add_tunnels tunnels (start view))
