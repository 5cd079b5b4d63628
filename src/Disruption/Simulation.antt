-- ===== src/Disruption/Simulation.antt =====
-- pkg/controllers/disruption/methods: the parts of consolidation_sim.go that read candidates, prices
-- and requirements, and the claim that a replacement begins with.
use frp_operator.Prelude.{
  ℕ, ◌+◌, String, Bool, true, false, ◌&&◌, not, Option, none, some, List, [], ◌∷◌, ◌++◌, string_eq,
  nat_eq, ◌==◌, map, contains, add_all, is_some, if◌then◌else◌,
}
use frp_operator.Kube.{ApiError}
use frp_operator.Api.{
  Port, ResourceList, ExitClaim, ExitPool, Tunnel, NodeSelectorRequirement, NodeSelectorOperator,
  op_in, op_not_in, op_exists, op_does_not_exist, op_gt, op_lt, op_other, requirement_instance_type,
  requirement_region,
}
use frp_operator.State.Exit.{StateExit, snapshot_for_read}
use frp_operator.Cloudprovider.{Offering, InstanceType}
use frp_operator.Scheduling.Ports.{resolve_auto_assign}
use frp_operator.Scheduling.Exits.{ExistingExit, concat}
use frp_operator.Scheduling.Offerings.{pin_chosen}
use frp_operator.Disruption.{Candidate, reason_eq}

-- The errors of the simulator.
pub data SimError : Type 0 where
  list_tunnels : ApiError → SimError
  get_instance_types : SimError
  cannot_repack : String → String → SimError

-- The text of an operator.
abbrev pub operator_text : NodeSelectorOperator → String
operator_text op_in = "In"
operator_text op_not_in = "NotIn"
operator_text op_exists = "Exists"
operator_text op_does_not_exist = "DoesNotExist"
operator_text op_gt = "Gt"
operator_text op_lt = "Lt"
operator_text (op_other s) = s

abbrev pub is_in : NodeSelectorOperator → Bool
is_in op_in = true
is_in _ = false

abbrev pub value_or : List String → String → String
value_or [] rest = rest
value_or (v ∷ vs) rest = v

-- `pinnedRequirementValue`.
unfoldable pub pinned_value : List NodeSelectorRequirement → String → String
pinned_value [] key = ""
pinned_value (r ∷ reqs) key =
    let rest = pinned_value reqs key in
    if r.key == key && is_in r.operator then value_or r.values rest else rest

-- The inner loop of `lookupClaimPrice`.
unfoldable pub price_in : String → List Offering → Option ℕ
price_in want_region [] = none
price_in want_region (off ∷ offs) =
    let rest = price_in want_region offs in
    if not off.available
    then rest
    else if want_region == ""
    then some off.price
    else if pinned_value off.requirements requirement_region == want_region
    then some off.price
    else rest

-- `combineRequirements`, over the requirements of all tunnels, with the keys seen.
unfoldable pub combine : List String → List NodeSelectorRequirement → List NodeSelectorRequirement
combine seen [] = []
combine seen (r ∷ reqs) =
    let key = concat r.key (concat "|" (operator_text r.operator)) in
    elim (contains seen key) [ true ↦ combine seen reqs | false ↦ r ∷ combine (key ∷ seen) reqs ]

abbrev pub plus_price : Option ℕ → Option ℕ → Option ℕ
plus_price (some a) (some b) = some (a + b)
plus_price _ _ = none

module _ {Q : Type 0} where
  abbrev pub names : List (Candidate Q) → List String
  names candidates = map (λ c. c.claim.meta.name) candidates

  -- The tunnels that are bound to one of the claims and not being deleted.
  unfoldable pub moveable : List String → List (Tunnel Q) → List (Tunnel Q)
  moveable candidate_names [] = []
  moveable candidate_names (t ∷ tunnels) =
      let rest = moveable candidate_names tunnels in
      if is_some t.meta.deletion_timestamp
      then rest
      else if contains candidate_names t.status.assigned_exit
      then t ∷ rest
      else rest

  -- The exits that stay: with a claim that is no candidate, and not marked.
  pub remaining : List String → List (StateExit Q) → List (ExistingExit Q)
  unfolding snapshot_for_read
  remaining candidate_names [] = []
  remaining candidate_names (se ∷ exits) =
      let rest = remaining candidate_names exits in
      elim (snapshot_for_read se) [
        | none ↦ rest
        | some (claim, allocs) ↦
            if contains candidate_names claim.meta.name
            then rest
            else if se.marked_for_deletion
            then rest
            else record { state = se; newly_bound = []; newly_used_ports = [] } ∷ rest
      ]

  -- `tunnelRequestLists`.
  abbrev pub request_lists : List (Tunnel Q) → List (ResourceList Q)
  request_lists tunnels = map (λ t. t.spec.requests) tunnels

  -- `combineRequirements`.
  abbrev pub requirements_of : List (Tunnel Q) → List NodeSelectorRequirement
  requirements_of [] = []
  requirements_of (t ∷ tunnels) = t.spec.requirements ++ requirements_of tunnels

  unfoldable pub combine_requirements : List (Tunnel Q) → List NodeSelectorRequirement
  unfolding combine
  combine_requirements tunnels = combine [] (requirements_of tunnels)

  -- The outer loop of `lookupClaimPrice`.
  unfoldable pub price_of : String → String → List (InstanceType Q) → Option ℕ
  price_of want_size want_region [] = none
  price_of want_size want_region (it ∷ its) =
      let rest = price_of want_size want_region its in
      if not (it.name == want_size)
      then rest
      else elim (price_in want_region it.offerings) [ some price ↦ some price | none ↦ rest ]

  -- `lookupClaimPrice`.
  unfoldable pub lookup_claim_price : List (InstanceType Q) → ExitClaim Q → Option ℕ
  unfolding price_of
  lookup_claim_price catalog claim =
      let want_size = pinned_value claim.spec.requirements requirement_instance_type in
      if want_size == ""
      then none
      else price_of want_size (pinned_value claim.spec.requirements requirement_region) catalog

  -- The cost of all candidates; `none` if one has no price.
  unfoldable pub candidate_cost : List (InstanceType Q) → List (Candidate Q) → Option ℕ
  candidate_cost catalog [] = some 0
  candidate_cost catalog (c ∷ cs) =
      plus_price (lookup_claim_price catalog c.claim) (candidate_cost catalog cs)

  -- `canPackOntoNewClaim`, with the ports in use.
  unfoldable pub can_pack : ExitClaim Q → List Port → List (Tunnel Q) → Bool
  can_pack claim used [] = true
  can_pack claim used (t ∷ tunnels) =
      elim (resolve_auto_assign claim.spec.frps.allow_ports claim.spec.frps.reserved_ports used
        t.spec.ports) [
          | none ↦ false
          | some assigned ↦ can_pack claim (add_all assigned used) tunnels
        ]

  -- `buildReplacementClaim`.
  unfoldable pub build_replacement_claim :
      ExitPool Q → InstanceType Q → Offering → ResourceList Q → ExitClaim Q
  build_replacement_claim pool it off requested =
      let tmpl = pool.spec.template.spec in
      record {
        meta = record {
          name = "";
          namespace = "";
          uid = "";
          generation = 0;
          labels = [];
          annotations = [];
          creation_timestamp = 0;
          deletion_timestamp = none;
          finalizers = [];
          generate_name = "";
        };
        spec = record {
          provider_class_ref = tmpl.provider_class_ref;
          requirements = tmpl.requirements ++ pin_chosen it off;
          frps = tmpl.frps;
          requests = requested;
          expire_after = tmpl.expire_after;
          termination_grace_period = tmpl.termination_grace_period;
        };
        status = record {
          provider_id = "";
          public_ip = "";
          exit_name = "";
          image_id = "";
          frps_version = "";
          capacity = [];
          allocatable = [];
          conditions = [];
        };
      }
