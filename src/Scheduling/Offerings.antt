-- ===== src/Scheduling/Offerings.antt =====
-- pkg/controllers/provisioning/scheduling/offering.go: the cheapest instance type and offering for a
-- new claim.
pub mod Best
pub mod Cheapest
pub mod Tests
use frp_operator.Prelude.{
  ℕ, String, Bool, true, false, not, ◌&&◌, ◌≡◌, Option, none, some, List, [], ◌∷◌, ◌++◌, string_eq,
  ◌==◌, ltb, contains, if◌then◌else◌, Result, ok, err,
}
use frp_operator.Prelude.Sort.{slice_stable}
use frp_operator.Api.{NodeSelectorRequirement, ResourceList, Quantity, ExitPool}
use frp_operator.Cloudprovider.{
  Offering, InstanceType, CloudProvider, Registry, allocatable, provider_for,
}
use frp_operator.Scheduling.Requirements.{compatible}
use frp_operator.Scheduling.Resources.{resources_fit}
use frp_operator.Scheduling.Exits.{
  SchedulingError, registry_not_configured, get_instance_types_failed, kind_not_registered,
  empty_catalog, no_instance_type_fits,
}

pub record Candidate (Q : Type 0) : Type 0 where
  pub it : InstanceType Q
  pub offering : Offering

-- The offering can be had and suits pool and tunnel.
pub usable : List NodeSelectorRequirement → List NodeSelectorRequirement → Offering → Bool
usable pool_reqs tunnel_reqs off =
    if not off.available
    then false
    else if not (compatible pool_reqs off.requirements)
    then false
    else compatible tunnel_reqs off.requirements

abbrev pub better : Option Offering → Offering → Option Offering
better none off = some off
better (some best) off = if ltb off.price best.price then some off else some best

pub next_best :
    List NodeSelectorRequirement
    → List NodeSelectorRequirement
    → Option Offering
    → Offering
    → Option Offering
next_best pool_reqs tunnel_reqs best off =
    if usable pool_reqs tunnel_reqs off then better best off else best

-- The loop of `cheapestCompatibleOffering`, with the best offering so far.
pub cheapest_from :
    List NodeSelectorRequirement
    → List NodeSelectorRequirement
    → Option Offering
    → List Offering
    → Option Offering
cheapest_from pool_reqs tunnel_reqs best [] = best
cheapest_from pool_reqs tunnel_reqs best (off ∷ offerings) =
    cheapest_from pool_reqs tunnel_reqs (next_best pool_reqs tunnel_reqs best off) offerings

-- The loop of `PinChosen`, with the keys seen.
pub pin : List String → List NodeSelectorRequirement → List NodeSelectorRequirement
pin seen [] = []
pin seen (r ∷ reqs) = elim (contains seen r.key) [
  | true ↦ pin seen reqs
  | false ↦ r ∷ pin (r.key ∷ seen) reqs
]

module _ {Q : Type 0} where
  -- `cheapestCompatibleOffering`.
  pub cheapest_compatible_offering :
      InstanceType Q → List NodeSelectorRequirement → List NodeSelectorRequirement → Option Offering
  cheapest_compatible_offering it pool_reqs tunnel_reqs =
      cheapest_from pool_reqs tunnel_reqs none it.offerings

  -- `PinChosen`.
  pub pin_chosen : InstanceType Q → Offering → List NodeSelectorRequirement
  unfolding pin
  pin_chosen it off = pin [] (it.requirements ++ off.requirements)

  abbrev pub with_offering :
      InstanceType Q → Option Offering → List (Candidate Q) → List (Candidate Q)
  with_offering it none rest = rest
  with_offering it (some off) rest = record { it = it; offering = off } ∷ rest

  pub cheaper : Candidate Q → Candidate Q → Bool
  cheaper a b = ltb a.offering.price b.offering.price

  pub first_of_sorted : String → List (Candidate Q) → Result SchedulingError (Candidate Q)
  first_of_sorted pool_name [] = err (no_instance_type_fits pool_name)
  first_of_sorted pool_name (c ∷ cs) = ok c

  choose :
      String → List (InstanceType Q) → List (Candidate Q) → Result SchedulingError (Candidate Q)
  choose pool_name [] cs = err (empty_catalog pool_name)
  choose pool_name (it ∷ its) cs = first_of_sorted pool_name (slice_stable cheaper cs)

  module _ ⦃q : Quantity Q⦄ where
    -- The instance type suits pool and tunnel and has room for the request.
    pub suits :
        List NodeSelectorRequirement
        → List NodeSelectorRequirement
        → ResourceList Q
        → InstanceType Q
        → Bool
    suits pool_reqs tunnel_reqs requested it =
        if not (compatible pool_reqs it.requirements)
        then false
        else if not (compatible tunnel_reqs it.requirements)
        then false
        else resources_fit (allocatable it) requested

    -- The loop of `SelectInstanceType` over the catalog.
    pub candidates :
        List NodeSelectorRequirement
        → List NodeSelectorRequirement
        → ResourceList Q
        → List (InstanceType Q)
        → List (Candidate Q)
    candidates pool_reqs tunnel_reqs requested [] = []
    candidates pool_reqs tunnel_reqs requested (it ∷ its) =
        let rest = candidates pool_reqs tunnel_reqs requested its in
        if suits pool_reqs tunnel_reqs requested it
        then with_offering it (cheapest_compatible_offering it pool_reqs tunnel_reqs) rest
        else rest

    -- `SelectInstanceType`.
    pub select_instance_type :
        Option (Registry Q)
        → ExitPool Q
        → List NodeSelectorRequirement
        → ResourceList Q
        → Result SchedulingError (Candidate Q)
    select_instance_type none pool tunnel_reqs requested = err registry_not_configured
    select_instance_type (some reg) pool tunnel_reqs requested =
        elim (provider_for pool.spec.template.spec.provider_class_ref.kind reg) [
          | none ↦ err (kind_not_registered pool.spec.template.spec.provider_class_ref.kind)
          | some cp ↦ elim (cp.get_instance_types pool) [
            | none ↦ err get_instance_types_failed
            | some its ↦
                choose pool.meta.name its
                  (candidates pool.spec.template.spec.requirements tunnel_reqs requested its)
          ]
        ]
