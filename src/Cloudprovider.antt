-- ===== src/Cloudprovider.antt =====
-- pkg/cloudprovider/types.go and registry.go: instance types, offerings and the registry of providers.
-- A price is a number of some unit of money that every price of the catalog is a multiple of.
use frp_operator.Prelude.{
  ℕ, String, Bool, Option, none, some, List, [], ◌∷◌, string_eq, if◌then◌else◌, is_some,
}
use frp_operator.Prelude.Maps.{lookup, insert}
use frp_operator.Api.{NodeSelectorRequirement, ResourceList, Quantity, ExitPool}

pub record Offering : Type 0 where
  pub requirements : List NodeSelectorRequirement
  pub price : ℕ
  pub available : Bool

pub record InstanceType (Q : Type 0) : Type 0 where
  pub name : String
  pub requirements : List NodeSelectorRequirement
  pub offerings : List Offering
  pub capacity : ResourceList Q
  pub overhead : ResourceList Q

-- Of the interface `CloudProvider`: GetInstanceTypes, with `none` for an error.
pub record CloudProvider (Q : Type 0) : Type 0 where
  pub get_instance_types : ExitPool Q → Option (List (InstanceType Q))

abbrev pub Registry : Type 0 → Type 0
Registry Q = List (String × CloudProvider Q)

module _ {Q : Type 0} where
  -- The second loop of `Allocatable`: the overhead taken off the dimensions of the capacity.
  take_overhead : ⦃q : Quantity Q⦄ → ResourceList Q → ResourceList Q → ResourceList Q
  take_overhead [] out = out
  take_overhead ⦃q⦄ ((k, v) ∷ overhead) out = elim (lookup k out) [
    | none ↦ take_overhead overhead out
    | some cur ↦ take_overhead overhead (insert k (q.minus cur v) out)
  ]

  -- `Allocatable`.
  unfoldable pub allocatable : ⦃q : Quantity Q⦄ → InstanceType Q → ResourceList Q
  unfolding take_overhead
  allocatable it = take_overhead it.overhead it.capacity

  -- `Register`; `none` is the error for a kind that is taken.
  unfoldable pub register : String → CloudProvider Q → Registry Q → Option (Registry Q)
  register kind p r = if is_some (lookup kind r) then none else some (insert kind p r)

  -- `For`.
  unfoldable pub provider_for : String → Registry Q → Option (CloudProvider Q)
  provider_for kind r = lookup kind r
