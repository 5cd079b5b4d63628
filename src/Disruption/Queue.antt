-- ===== src/Disruption/Queue.antt =====
-- pkg/controllers/disruption/queue.go. The world `W` outside is a parameter: the answers of the
-- Kubernetes client and of the provisioner, and the clock, depend on it, and every call leaves another
-- one. Logging is left out, and `fmt.Errorf` keeps what it wraps.
pub mod Abort
pub mod Wait
mod Tests
use frp_operator.Prelude.{
  ℕ, zero, suc, ◌+◌, String, Bool, true, false, ◌||◌, not, Option, none, some, List, [], ◌∷◌,
  string_eq, ◌==◌, ltb, is_some, Result, ok, err, if◌then◌else◌,
}
use frp_operator.Kube.{ApiError, is_not_found, is_conflict, seconds, minutes}
use frp_operator.Api.{
  ExitClaim, Condition, DisruptionReason, empty, drifted, expired, underutilized, is_true, has_true,
  condition_type_ready, condition_type_disrupted,
}
use frp_operator.State.Cluster.{Cluster, mark_exit_for_deletion}
use frp_operator.Scheduling.Exits.{concat}
use frp_operator.Conditions.{new_condition, upsert_condition}
use frp_operator.Disruption.{Candidate, Command}

abbrev pub default_replacement_ready_timeout : ℕ
default_replacement_ready_timeout = minutes 5

abbrev pub default_replacement_poll_interval : ℕ
default_replacement_poll_interval = seconds 5

-- What the queue calls. A nil provisioner is `none`; CreateReplacements names the claims it creates, also
-- those before one that fails. `sleep` tells whether the context was done first.
pub record Outside (Q W : Type 0) : Type 0 where
  pub get_claim : String → W → Result ApiError (ExitClaim Q) × W
  pub patch_conditions : ExitClaim Q → List Condition → W → Option ApiError × W
  pub delete_claim : ExitClaim Q → W → Option ApiError × W
  pub create_replacements :
      Option (List (ExitClaim Q) → W → Option ApiError × List (ExitClaim Q) × W)
  pub now : W → ℕ
  pub sleep : ℕ → W → Bool × W

-- How the wait for replacements ends; `out_of_rounds` is the model's bound on the rounds.
pub data Waited : Type 0 where
  all_are_ready timed_out cancelled out_of_rounds : Waited
  get_failed : ApiError → Waited

pub data CordonError : Type 0 where
  conflict_after_retry : CordonError
  cordon_call_failed : ApiError → CordonError

pub data QueueError : Type 0 where
  cordon_failed : String → CordonError → QueueError
  no_trigger : QueueError
  create_failed : ApiError → QueueError
  wait_failed : Waited → QueueError
  get_claim_failed delete_failed : String → ApiError → QueueError

abbrev pub reason_text : DisruptionReason → String
reason_text empty = "Empty"
reason_text drifted = "Drifted"
reason_text expired = "Expired"
reason_text underutilized = "Underutilized"

abbrev pub disrupted_condition : DisruptionReason → ℕ → Condition
disrupted_condition reason time =
    new_condition condition_type_disrupted is_true 0 (reason_text reason)
      (concat "disruption: " (reason_text reason)) time

abbrev pub wait_error : Waited → Option QueueError
wait_error all_are_ready = none
wait_error w = some (wait_failed w)

module _ {Q W : Type 0} (out : Outside Q W) where
  -- The loop of `cordon`, with the number of rounds left.
  pub cordon_rounds : ℕ → String → DisruptionReason → W → Option CordonError × W
  cordon_rounds zero name reason w = (some conflict_after_retry, w)
  cordon_rounds (suc n) name reason w =
      let (answer, w1) = out.get_claim name w in
      elim answer [
        | err e ↦ if is_not_found e then (none, w1) else (some (cordon_call_failed e), w1)
        | ok live ↦
            if is_some live.meta.deletion_timestamp
              || has_true condition_type_disrupted live.status.conditions
            then (none, w1)
            else (let (patched, w2) =
                  out.patch_conditions live
                    (upsert_condition live.status.conditions
                      (disrupted_condition reason (out.now w1)))
                    w1 in
                elim patched [
                  | none ↦ (none, w2)
                  | some e ↦ elim (is_conflict e) [
                    | true ↦ cordon_rounds n name reason w2
                    | false ↦ (some (cordon_call_failed e), w2)
                  ]
                ])
      ]

  -- `cordon`.
  abbrev pub cordon : String → DisruptionReason → W → Option CordonError × W
  cordon name reason w = cordon_rounds 2 name reason w

  -- The first loop of `Enqueue`.
  pub cordon_all : List (Candidate Q) → DisruptionReason → W → Option QueueError × W
  cordon_all [] reason w = (none, w)
  cordon_all (cand ∷ cands) reason w =
      let (result, w1) = cordon cand.claim.meta.name reason w in
      elim result [
        | some e ↦ (some (cordon_failed cand.claim.meta.name e), w1)
        | none ↦ cordon_all cands reason w1
      ]

  -- The inner loop of `waitForReplacementsReady`.
  pub poll : List (ExitClaim Q) → W → Result ApiError Bool × W
  poll [] w = (ok true, w)
  poll (r ∷ rs) w = elim (r.meta.name == "") [
    | true ↦ poll rs w
    | false ↦
        let (answer, w1) = out.get_claim r.meta.name w in
        elim answer [
          | err e ↦ if is_not_found e then (ok false, w1) else (err e, w1)
          | ok live ↦ elim (has_true condition_type_ready live.status.conditions) [
            | true ↦ poll rs w1
            | false ↦ (ok false, w1)
          ]
        ]
  ]

  -- The outer loop of `waitForReplacementsReady`.
  pub wait_rounds : ℕ → ℕ → ℕ → List (ExitClaim Q) → W → Waited × W
  wait_rounds zero interval deadline rs w = (out_of_rounds, w)
  wait_rounds (suc n) interval deadline rs w =
      let (polled, w1) = poll rs w in
      elim polled [
        | err e ↦ (get_failed e, w1)
        | ok ready ↦ elim ready [
          | true ↦ (all_are_ready, w1)
          | false ↦ elim (ltb (out.now w1) deadline) [
            | false ↦ (timed_out, w1)
            | true ↦
                let (context_done, w2) = out.sleep interval w1 in
                elim context_done [
                  | true ↦ (cancelled, w2)
                  | false ↦ wait_rounds n interval deadline rs w2
                ]
          ]
        ]
      ]

  -- `waitForReplacementsReady`.
  pub wait_for_replacements_ready : ℕ → ℕ → ℕ → List (ExitClaim Q) → W → Waited × W
  wait_for_replacements_ready n interval timeout [] w = (all_are_ready, w)
  wait_for_replacements_ready n interval timeout (r ∷ rs) w =
      wait_rounds n interval (out.now w + timeout) (r ∷ rs) w

  -- The second step of `Enqueue`.
  pub launch_replacements : ℕ → ℕ → ℕ → List (ExitClaim Q) → W → Option QueueError × W
  launch_replacements n interval timeout [] w = (none, w)
  launch_replacements n interval timeout (r ∷ rs) w = elim out.create_replacements [
    | none ↦ (some no_trigger, w)
    | some create ↦
        let (failure, created, w1) = create (r ∷ rs) w in
        elim failure [
          | some e ↦ (some (create_failed e), w1)
          | none ↦
              let (waited, w2) = wait_for_replacements_ready n interval timeout created w1 in
              (wait_error waited, w2)
        ]
  ]

  -- The last loop of `Enqueue`.
  pub take_down : List (Candidate Q) → Cluster Q → W → Option QueueError × Cluster Q × W
  take_down [] c w = (none, c, w)
  take_down (cand ∷ cands) c w =
      let name = cand.claim.meta.name in
      let marked = mark_exit_for_deletion name c in
      let (answer, w1) = out.get_claim name w in
      elim answer [
        | err e ↦ elim (is_not_found e) [
          | true ↦ take_down cands marked w1
          | false ↦ (some (get_claim_failed name e), marked, w1)
        ]
        | ok live ↦ elim (is_some live.meta.deletion_timestamp) [
          | true ↦ take_down cands marked w1
          | false ↦
              let (failure, w2) = out.delete_claim live w1 in
              elim failure [
                | none ↦ take_down cands marked w2
                | some e ↦ elim (is_not_found e) [
                  | true ↦ take_down cands marked w2
                  | false ↦ (some (delete_failed name e), marked, w2)
                ]
              ]
        ]
      ]

  -- `Enqueue`, with a bound on the rounds of the wait, the poll interval and the timeout.
  pub enqueue : ℕ → ℕ → ℕ → Command Q → Cluster Q → W → Option QueueError × Cluster Q × W
  enqueue n interval timeout cmd c w =
      let (cordoned, w1) = cordon_all cmd.candidates cmd.reason w in
      elim cordoned [
        | some e ↦ (some e, c, w1)
        | none ↦
            let (launched, w2) = launch_replacements n interval timeout cmd.replacements w1 in
            elim launched [ some e ↦ (some e, c, w2) | none ↦ take_down cmd.candidates c w2 ]
      ]
