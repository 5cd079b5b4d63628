-- ===== src/State/Exit.antt =====
-- pkg/controllers/state/stateexit.go, statepool.go and statetunnel.go. Maps are association lists; a
-- deep copy is the value itself. `DisruptionCost`, which nothing here reads or writes, is left out.
use frp_operator.Prelude.{
  ℕ, String, Bool, true, false, Option, none, some, List, [], ◌∷◌, string_eq, nat_eq,
}
use frp_operator.Prelude.Maps.{lookup, insert, keys}
use frp_operator.Api.{Port, ExitClaim, ExitPool, ResourceList, Quantity}

abbrev pub TunnelKey : Type 0
TunnelKey = String

pub record TunnelBinding : Type 0 where
  pub tunnel_key : TunnelKey
  pub exit_claim_name : String
  pub assigned_ports : List Port

pub record StateExit (Q : Type 0) : Type 0 where
  pub claim : Option (ExitClaim Q)
  pub allocations : List (Port × TunnelKey)
  pub marked_for_deletion : Bool
  pub nominated : Bool

pub record StatePool (Q : Type 0) : Type 0 where
  pub pool : Option (ExitPool Q)
  pub resources : ResourceList Q
  pub exits : ℕ

module _ {Q : Type 0} where
  -- `SnapshotForRead`: the claim with the allocations, or nothing while the claim is nil.
  unfoldable pub snapshot_for_read : StateExit Q → Option (ExitClaim Q × List (Port × TunnelKey))
  snapshot_for_read se = elim se.claim [ none ↦ none | some claim ↦ some (claim, se.allocations) ]

  -- `UsedPorts`.
  unfoldable pub used_ports : StateExit Q → List Port
  used_ports se = keys se.allocations

  -- `PortHolder`: the empty key for a port that is not allocated.
  unfoldable pub port_holder : StateExit Q → Port → TunnelKey
  port_holder se p = elim (lookup p se.allocations) [ none ↦ "" | some key ↦ key ]

  -- `IsEmpty`.
  unfoldable pub is_empty : StateExit Q → Bool
  is_empty se = elim se.allocations [ [] ↦ true | _ ∷ _ ↦ false ]

  -- The inner loop of `Available`: what one tunnel requests is taken off the dimensions that exist.
  take_requests : ⦃q : Quantity Q⦄ → ResourceList Q → ResourceList Q → ResourceList Q
  take_requests [] out = out
  take_requests ⦃q⦄ ((k, v) ∷ req) out = elim (lookup k out) [
    | none ↦ take_requests req out
    | some cur ↦ take_requests req (insert k (q.minus cur v) out)
  ]

  take_all_requests : ⦃q : Quantity Q⦄ → List (ResourceList Q) → ResourceList Q → ResourceList Q
  unfolding take_requests
  take_all_requests [] out = out
  take_all_requests (req ∷ reqs) out = take_all_requests reqs (take_requests req out)

  -- `Available`; `none` is the nil list.
  unfoldable pub available :
      ⦃q : Quantity Q⦄ → StateExit Q → List (ResourceList Q) → Option (ResourceList Q)
  unfolding take_all_requests
  available se bound = elim se.claim [
    | none ↦ none
    | some claim ↦ some (take_all_requests bound claim.status.allocatable)
  ]
