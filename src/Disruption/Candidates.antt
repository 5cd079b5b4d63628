-- ===== src/Disruption/Candidates.antt =====
-- pkg/controllers/disruption/candidates.go and validation.go.
use frp_operator.Prelude.{
  ℕ, ◌-◌, String, Bool, false, ◌&&◌, not, Option, none, some, List, [], ◌∷◌, string_eq, nat_eq,
  ◌==◌, ltb, is_some, if◌then◌else◌,
}
use frp_operator.Prelude.Maps.{lookup}
use frp_operator.Prelude.Sort.{slice_stable}
use frp_operator.Conditions.{find_condition}
use frp_operator.Api.{
  ExitClaim, ExitPool, empty, has_true, condition_type_ready, condition_type_empty,
  annotation_do_not_disrupt,
}
use frp_operator.State.Exit.{StateExit, snapshot_for_read, is_empty}
use frp_operator.State.Cluster.{Cluster, all_exits, exit_for_name}
use frp_operator.Disruption.{Candidate, Command, reason_eq}
use frp_operator.Disruption.Budgets.{pool_of}

-- The errors of `Validate`, with the name of the claim.
pub data Refusal : Type 0 where
  empty_command : Refusal
  not_in_cache has_no_claim already_deleted do_not_disrupt already_marked not_empty :
      String → Refusal

module _ {Q : Type 0} where
  -- `computeCost`; `now` is the reading of the clock.
  abbrev pub compute_cost : ℕ → ExitClaim Q → ℕ
  compute_cost now claim =
      if claim.meta.creation_timestamp == 0 then 0 else now - claim.meta.creation_timestamp

  -- `lastBindingChange`.
  abbrev pub last_change : ExitClaim Q → ℕ
  last_change claim = elim (find_condition condition_type_empty claim.status.conditions) [
    | none ↦ claim.meta.creation_timestamp
    | some c ↦ c.last_transition_time
  ]

  -- The guards of `GetCandidates`.
  pub eligible : StateExit Q → ExitClaim Q → Bool
  eligible se claim =
      if not (has_true condition_type_ready claim.status.conditions)
      then false
      else if is_some claim.meta.deletion_timestamp
      then false
      else if is_some (lookup annotation_do_not_disrupt claim.meta.annotations)
      then false
      else not se.marked_for_deletion

  candidate_of : ℕ → StateExit Q → ExitClaim Q → ExitPool Q → Candidate Q
  candidate_of now se claim pool = record {
    claim = claim;
    state = se;
    pool = pool;
    disruption_cost = compute_cost now claim;
    last_binding_change = last_change claim;
  }

  abbrev pub with_candidate :
      ℕ → StateExit Q → ExitClaim Q → Option (ExitPool Q) → List (Candidate Q) → List (Candidate Q)
  unfolding candidate_of
  with_candidate now se claim none rest = rest
  with_candidate now se claim (some pool) rest = candidate_of now se claim pool ∷ rest

  -- The loop of `GetCandidates`.
  pub gather : ℕ → (String → Option (ExitPool Q)) → List (StateExit Q) → List (Candidate Q)
  unfolding snapshot_for_read
  gather now pool_by_name [] = []
  gather now pool_by_name (se ∷ exits) =
      let rest = gather now pool_by_name exits in
      elim (snapshot_for_read se) [
        | none ↦ rest
        | some (claim, allocs) ↦
            if eligible se claim
            then with_candidate now se claim (pool_by_name (pool_of claim)) rest
            else rest
      ]

  pub cheaper_to_disrupt : Candidate Q → Candidate Q → Bool
  cheaper_to_disrupt a b = ltb a.disruption_cost b.disruption_cost

  -- `GetCandidates`.
  pub get_candidates : ℕ → (String → Option (ExitPool Q)) → Cluster Q → List (Candidate Q)
  unfolding all_exits
  get_candidates now pool_by_name c =
      slice_stable cheaper_to_disrupt (gather now pool_by_name (all_exits c))

  -- One round of `Validate`, for the exit that the cluster has now.
  pub validate_exit : Bool → StateExit Q → ExitClaim Q → Option Refusal
  unfolding is_empty
  validate_exit want_empty se live =
      if is_some live.meta.deletion_timestamp
      then some (already_deleted live.meta.name)
      else if is_some (lookup annotation_do_not_disrupt live.meta.annotations)
      then some (do_not_disrupt live.meta.name)
      else if se.marked_for_deletion
      then some (already_marked live.meta.name)
      else if want_empty && not (is_empty se)
      then some (not_empty live.meta.name)
      else none

  pub validate_candidate : Cluster Q → Bool → Candidate Q → Option Refusal
  unfolding exit_for_name snapshot_for_read
  validate_candidate c want_empty cand = elim (exit_for_name cand.claim.meta.name c) [
    | none ↦ some (not_in_cache cand.claim.meta.name)
    | some se ↦ elim (snapshot_for_read se) [
      | none ↦ some (has_no_claim cand.claim.meta.name)
      | some (live, allocs) ↦ validate_exit want_empty se live
    ]
  ]

  -- The loop of `Validate`.
  pub validate_all : Cluster Q → Bool → List (Candidate Q) → Option Refusal
  validate_all c want_empty [] = none
  validate_all c want_empty (cand ∷ cands) = elim (validate_candidate c want_empty cand) [
    | some refusal ↦ some refusal
    | none ↦ validate_all c want_empty cands
  ]

  abbrev pub validate_some : Cluster Q → Bool → List (Candidate Q) → Option Refusal
  validate_some c want_empty [] = some empty_command
  validate_some c want_empty (cand ∷ cands) = validate_all c want_empty (cand ∷ cands)

  -- `Validate`; `none` is the nil error.
  pub validate : Cluster Q → Command Q → Option Refusal
  validate c cmd = validate_some c (cmd.reason == empty) cmd.candidates
