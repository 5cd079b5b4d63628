-- ===== src/Lifecycle/Emptiness.antt =====
-- pkg/controllers/exitclaim/emptiness/controller.go. Its `findCondition` and `upsertCondition` are those
-- of Conditions. `now` is the reading of the clock.
pub mod Stamp
mod Tests
use frp_operator.Prelude.{
  ℕ, String, Bool, true, false, ◌&&◌, not, Option, none, some, List, [], ◌∷◌, string_eq, nat_eq,
  ◌==◌, is_some, length, keep, Result, ok, err, if◌then◌else◌,
}
use frp_operator.Kube.{ApiError, ignore_not_found, Requeue, done}
use frp_operator.Api.{
  ExitClaim, Tunnel, Condition, ConditionStatus, is_true, is_false, is_unknown, status_beq,
  condition_type_ready, condition_type_empty,
}
use frp_operator.Conditions.{find_condition, upsert_condition, new_condition}

-- What the controller calls.
pub record Outside (Q W : Type 0) : Type 0 where
  pub get_claim : String → W → Result ApiError (ExitClaim Q) × W
  pub list_tunnels : W → Result ApiError (List (Tunnel Q)) × W
  pub patch_status : ExitClaim Q → W → Option ApiError × W
  pub now : W → ℕ

-- The condition has this status and this reason already.
abbrev pub is_current : ConditionStatus → String → Option Condition → Bool
is_current status reason none = false
is_current status reason (some c) = status_beq c.status status && c.reason == reason

-- `isReady`, on the condition that `findCondition` finds.
abbrev pub is_up : Option Condition → Bool
is_up none = false
is_up (some c) = status_beq c.status is_true

module _ {Q : Type 0} where
  -- `countBoundTunnels`, behind its call of List.
  abbrev pub counts_for : String → Tunnel Q → Bool
  counts_for name t = not (is_some t.meta.deletion_timestamp) && t.status.assigned_exit == name

  pub count_bound_tunnels : String → List (Tunnel Q) → ℕ
  count_bound_tunnels name tunnels = length (keep (counts_for name) tunnels)

  -- `setCondition`: the claim that it patches, or none.
  unfoldable pub with_empty :
      ℕ → ExitClaim Q → ConditionStatus → String → String → Option (ExitClaim Q)
  with_empty now claim status reason message =
      if is_current status reason (find_condition condition_type_empty claim.status.conditions)
      then none
      else some (record claim {
        status = record claim.status {
          conditions =
              upsert_condition claim.status.conditions
                (new_condition condition_type_empty status 0 reason message now);
        };
      })

  -- The last lines of `Reconcile`: what the tunnels bound to a Ready claim make of it.
  pub stamp_empty : ℕ → ExitClaim Q → List (Tunnel Q) → Option (ExitClaim Q)
  unfolding with_empty count_bound_tunnels
  stamp_empty now claim tunnels =
      if count_bound_tunnels claim.meta.name tunnels == 0
      then with_empty now claim is_true "NoTunnels" "no tunnels currently bound to this exit"
      else with_empty now claim is_false "HasTunnel" "one or more tunnels are bound to this exit"

  module _ {W : Type 0} (out : Outside Q W) where
    pub patch_if : Option (ExitClaim Q) → W → (Requeue × Option ApiError) × W
    patch_if none w = ((done, none), w)
    patch_if (some claim) w = let (failure, w1) = out.patch_status claim w in ((done, failure), w1)

    -- `Reconcile`.
    pub reconcile_emptiness : String → W → (Requeue × Option ApiError) × W
    unfolding with_empty stamp_empty patch_if
    reconcile_emptiness name w =
        let (answer, w1) = out.get_claim name w in
        elim answer [
          | err e ↦ ((done, ignore_not_found e), w1)
          | ok claim ↦ elim (is_some claim.meta.deletion_timestamp) [
            | true ↦ ((done, none), w1)
            | false ↦ elim (is_up (find_condition condition_type_ready claim.status.conditions)) [
              | false ↦
                  patch_if
                    (with_empty (out.now w1) claim is_unknown "NotReady" "claim not yet Ready") w1
              | true ↦
                  let (listed, w2) = out.list_tunnels w1 in
                  elim listed [
                    | err e ↦ ((done, some e), w2)
                    | ok tunnels ↦ patch_if (stamp_empty (out.now w2) claim tunnels) w2
                  ]
            ]
          ]
        ]

  -- `tunnelToClaim`: the claim that an event of the tunnel has looked at again.
  pub tunnel_to_claim : Tunnel Q → Option String
  tunnel_to_claim t = if t.status.assigned_exit == "" then none else some t.status.assigned_exit
