-- ===== src/Scheduling/Exits.antt =====
-- pkg/controllers/provisioning/scheduling/existing_exit.go, inflight_claim.go and new_claim.go: the
-- places for a tunnel, each with what one Solve has put on it so far.
pub mod Placement
pub mod Tests
use Prim.Native.String.{◌++◌ as text_append}
use frp_operator.Prelude.{
  ℕ, String, Bool, true, false, not, ◌≡◌, Option, none, some, List, [], ◌∷◌, ◌++◌, nat_eq, ltb,
  length, add_all, if◌then◌else◌, is_some, Result, ok, err, map,
}
use frp_operator.Prelude.Maps.{keys}
use frp_operator.Prelude.Sort.{slice_stable}
use frp_operator.Api.{
  Port, ResourceList, Quantity, ExitClaim, ExitClaimSpec, ExitPool, Tunnel, has_true,
  condition_type_ready, condition_type_disrupted,
}
use frp_operator.State.Exit.{StateExit}
use frp_operator.Scheduling.Ports.{resolve_auto_assign}
use frp_operator.Scheduling.Requirements.{compatible}
use frp_operator.Scheduling.Resources.{resources_fit, subtract, sum}

-- `+` on texts.
abbrev pub concat : String → String → String
concat s t = text_append s t

-- The errors of the package; a field names the claim or pool that the message names.
pub data SchedulingError : Type 0 where
  no_claim : SchedulingError
  marked_for_deletion being_deleted being_disrupted not_ready : String → SchedulingError
  incompatible_requirements : SchedulingError
  resources_dont_fit ports_dont_fit : String → SchedulingError
  no_existing_exit_fits no_inflight_claim_fits : SchedulingError
  limit_exceeded : String → String → SchedulingError
  registry_not_configured get_instance_types_failed : SchedulingError
  kind_not_registered empty_catalog no_instance_type_fits no_pool : String → SchedulingError

pub record ExistingExit (Q : Type 0) : Type 0 where
  pub state : StateExit Q
  pub newly_bound : List (Tunnel Q)
  pub newly_used_ports : List Port

pub record InflightClaim (Q : Type 0) : Type 0 where
  pub spec : ExitClaimSpec Q
  pub name : String
  pub pool : ExitPool Q
  pub tunnels : List (Tunnel Q)
  pub used_ports : List Port
  pub persisted : Bool

abbrev pub fitting : String → Option (List Port) → Result SchedulingError (List Port)
fitting name none = err (ports_dont_fit name)
fitting name (some assigned) = ok assigned

-- `mergePortSets`.
unfoldable pub merge_port_sets : List Port → List Port → List Port
merge_port_sets a b = add_all b a

-- <pool>-<digest of pool|uid>.
unfoldable pub claim_name : (digest : String → String) → String → String → String
claim_name digest pool_name tunnel_uid =
    concat pool_name (concat "-" (digest (concat pool_name (concat "|" tunnel_uid))))

module _ {Q : Type 0} where
  -- `sumTunnelRequests`.
  unfoldable pub sum_tunnel_requests : ⦃q : Quantity Q⦄ → List (Tunnel Q) → ResourceList Q
  sum_tunnel_requests tunnels = sum (map (λ t. t.spec.requests) tunnels)

  -- The last steps of `ExistingExit.CanAdd`, once the claim may take tunnels at all.
  can_fit :
      ⦃q : Quantity Q⦄
      → ExistingExit Q
      → ExitClaim Q
      → Tunnel Q
      → Result SchedulingError (List Port)
  can_fit e claim tunnel =
      if not (compatible claim.spec.requirements tunnel.spec.requirements)
      then err incompatible_requirements
      else if not (
          resources_fit (subtract claim.status.allocatable (sum_tunnel_requests e.newly_bound))
            tunnel.spec.requests)
      then err (resources_dont_fit claim.meta.name)
      else fitting claim.meta.name (
          resolve_auto_assign claim.spec.frps.allow_ports claim.spec.frps.reserved_ports
            (merge_port_sets (keys e.state.allocations) e.newly_used_ports) tunnel.spec.ports)

  -- The liveness gates of `ExistingExit.CanAdd`.
  pub gate : StateExit Q → ExitClaim Q → Option SchedulingError
  gate se claim =
      if se.marked_for_deletion
      then some (marked_for_deletion claim.meta.name)
      else if is_some claim.meta.deletion_timestamp
      then some (being_deleted claim.meta.name)
      else if has_true condition_type_disrupted claim.status.conditions
      then some (being_disrupted claim.meta.name)
      else if not (has_true condition_type_ready claim.status.conditions)
      then some (not_ready claim.meta.name)
      else none

  -- `ExistingExit.CanAdd`.
  pub can_add : ⦃q : Quantity Q⦄ → ExistingExit Q → Tunnel Q → Result SchedulingError (List Port)
  can_add e tunnel = elim e.state.claim [
    | none ↦ err no_claim
    | some claim ↦ elim (gate e.state claim) [
      | some problem ↦ err problem
      | none ↦ can_fit e claim tunnel
    ]
  ]

  -- `ExistingExit.Add`.
  pub bind : Tunnel Q → List Port → ExistingExit Q → ExistingExit Q
  bind tunnel assigned e = record e {
    newly_bound = e.newly_bound ++ tunnel ∷ [];
    newly_used_ports = add_all assigned e.newly_used_ports;
  }

  -- `InflightClaim.CanAdd`.
  pub can_add_inflight : InflightClaim Q → Tunnel Q → Result SchedulingError (List Port)
  can_add_inflight c tunnel =
      if not (compatible c.spec.requirements tunnel.spec.requirements)
      then err incompatible_requirements
      else fitting c.name (
          resolve_auto_assign c.spec.frps.allow_ports c.spec.frps.reserved_ports c.used_ports
            tunnel.spec.ports)

  -- `InflightClaim.Add`.
  pub bind_inflight : Tunnel Q → List Port → InflightClaim Q → InflightClaim Q
  bind_inflight tunnel assigned c = record c {
    tunnels = c.tunnels ++ tunnel ∷ [];
    used_ports = add_all assigned c.used_ports;
  }

  -- `SortByLoad`.
  pub sort_by_load : List (InflightClaim Q) → List (InflightClaim Q)
  sort_by_load claims = slice_stable (λ a b. ltb (length a.tunnels) (length b.tunnels)) claims

  -- `NewClaimFromPool`. `digest` gives the first eight hexadecimal digits of the SHA-256 of a text.
  pub new_claim_from_pool : (digest : String → String) → ExitPool Q → String → InflightClaim Q
  new_claim_from_pool digest pool tunnel_uid =
      let tmpl = pool.spec.template.spec in
      record {
        spec = record {
          provider_class_ref = tmpl.provider_class_ref;
          requirements = tmpl.requirements;
          frps = tmpl.frps;
          requests = [];
          expire_after = tmpl.expire_after;
          termination_grace_period = tmpl.termination_grace_period;
        };
        name = claim_name digest pool.meta.name tunnel_uid;
        pool = pool;
        tunnels = [];
        used_ports = [];
        persisted = false;
      }
