-- ===== src/Disruption/Queue/Abort.antt =====
-- What an aborted command leaves behind.
use frp_operator.Prelude.{
  ℕ, zero, suc, ◌+◌, String, ◌≡◌, refl, inl, inr, Bool, true, false, ◌||◌, Option, some, List, [],
  ◌∷◌, arith, string_eq, ◌==◌, ltb, is_some, Bool-cases, Option-cases, Result-cases, ap, sym,
}
use frp_operator.Kube.{ApiError, is_not_found, is_conflict}
use frp_operator.Api.{
  ExitClaim, Condition, DisruptionReason, has_true, condition_type_ready, condition_type_disrupted,
}
use frp_operator.State.Cluster.{Cluster, mark_exit_for_deletion}
use frp_operator.Conditions.{upsert_condition}
use frp_operator.Disruption.{Candidate, Command}
use frp_operator.Disruption.Queue.{
  Outside, QueueError, get_claim_failed, delete_failed, disrupted_condition, cordon_rounds,
  cordon_all, poll, wait_rounds, wait_for_replacements_ready, launch_replacements, take_down,
  enqueue,
}

-- The errors of the steps before the candidates are taken down.
abbrev pub is_early : QueueError → Bool
is_early (get_claim_failed name e) = false
is_early (delete_failed name e) = false
is_early _ = true

-- `P` outlasts every call but the deletion of a claim.
pub record Outlasts {Q W : Type 0} (out : Outside Q W) (P : W → Type 0) : Type 0 where
  pub get : (name : String) (w : W) → P w → P (out.get_claim name w).1
  pub patch :
      (live : ExitClaim Q) (cs : List Condition) (w : W)
      → P w
      → P (out.patch_conditions live cs w).1
  pub create :
      (f : List (ExitClaim Q) → W → Option ApiError × List (ExitClaim Q) × W)
      (rs : List (ExitClaim Q)) (w : W)
      → out.create_replacements ≡ some f
      → P w
      → P (f rs w).2
  pub wake : (d : ℕ) (w : W) → P w → P (out.sleep d w).1

module _ {Q W : Type 0} (out : Outside Q W) (P : W → Type 0) (o : Outlasts out P) where
  cordon_rounds_keep :
      (n : ℕ) (name : String) (reason : DisruptionReason) (w : W)
      → P w
      → P (cordon_rounds out n name reason w).1
  unfolding cordon_rounds
  cordon_rounds_keep zero name reason w p = p
  cordon_rounds_keep (suc n) name reason w p =
      let w1 = (out.get_claim name w).1 in
      let p1 = o.get name w p in
      elim (Result-cases (out.get_claim name w).0) [
        | inr (e, failed) ↦ elim (Bool-cases (is_not_found e)) [
          | inl gone ↦ rw (cordon_rounds, failed, gone) p1
          | inr other ↦ rw (cordon_rounds, failed, other) p1
        ]
        | inl (live, there) ↦
            elim (Bool-cases (
              is_some live.meta.deletion_timestamp
              || has_true condition_type_disrupted live.status.conditions)) [
                | inl done ↦ rw (cordon_rounds, there, done) p1
                | inr wanted ↦
                    let cs =
                      upsert_condition live.status.conditions
                        (disrupted_condition reason (out.now w1)) in
                    let w2 = (out.patch_conditions live cs w1).1 in
                    let p2 = o.patch live cs w1 p1 in
                    elim (Option-cases (out.patch_conditions live cs w1).0) [
                      | inl fine ↦ rw (cordon_rounds, there, wanted, fine) p2
                      | inr (e, refused) ↦ elim (Bool-cases (is_conflict e)) [
                        | inl clash ↦
                            rw (cordon_rounds, there, wanted, refused, clash)
                              (cordon_rounds_keep n name reason w2 p2)
                        | inr other ↦ rw (cordon_rounds, there, wanted, refused, other) p2
                      ]
                    ]
              ]
      ]

  cordon_all_keep :
      (cands : List (Candidate Q)) (reason : DisruptionReason) (w : W)
      → P w
      → P (cordon_all out cands reason w).1
  unfolding cordon_all
  cordon_all_keep [] reason w p = p
  cordon_all_keep (cand ∷ cands) reason w p =
      let p1 = cordon_rounds_keep 2 cand.claim.meta.name reason w p in
      elim (Option-cases (cordon_rounds out 2 cand.claim.meta.name reason w).0) [
        | inl fine ↦
            rw (cordon_all, fine)
              (cordon_all_keep cands reason (cordon_rounds out 2 cand.claim.meta.name reason w).1
                p1)
        | inr (e, failed) ↦ rw (cordon_all, failed) p1
      ]

  poll_keeps : (rs : List (ExitClaim Q)) (w : W) → P w → P (poll out rs w).1
  unfolding poll
  poll_keeps [] w p = p
  poll_keeps (r ∷ rs) w p = elim (Bool-cases (r.meta.name == "")) [
    | inl unnamed ↦ rw (poll, unnamed) (poll_keeps rs w p)
    | inr named ↦
        let w1 = (out.get_claim r.meta.name w).1 in
        let p1 = o.get r.meta.name w p in
        elim (Result-cases (out.get_claim r.meta.name w).0) [
          | inr (e, failed) ↦ elim (Bool-cases (is_not_found e)) [
            | inl gone ↦ rw (poll, named, failed, gone) p1
            | inr other ↦ rw (poll, named, failed, other) p1
          ]
          | inl (live, there) ↦
              elim (Bool-cases (has_true condition_type_ready live.status.conditions)) [
                | inl ready ↦ rw (poll, named, there, ready) (poll_keeps rs w1 p1)
                | inr unready ↦ rw (poll, named, there, unready) p1
              ]
        ]
  ]

  wait_rounds_keep :
      (n interval deadline : ℕ) (rs : List (ExitClaim Q)) (w : W)
      → P w
      → P (wait_rounds out n interval deadline rs w).1
  unfolding wait_rounds
  wait_rounds_keep zero interval deadline rs w p = p
  wait_rounds_keep (suc n) interval deadline rs w p =
      let w1 = (poll out rs w).1 in
      let p1 = poll_keeps rs w p in
      elim (Result-cases (poll out rs w).0) [
        | inr (e, failed) ↦ rw (wait_rounds, failed) p1
        | inl (true, ready) ↦ rw (wait_rounds, ready) p1
        | inl (false, unready) ↦ elim (Bool-cases (ltb (out.now w1) deadline)) [
          | inr late ↦ rw (wait_rounds, unready, late) p1
          | inl early ↦ elim (Bool-cases (out.sleep interval w1).0) [
            | inl stopped ↦ rw (wait_rounds, unready, early, stopped) (o.wake interval w1 p1)
            | inr slept ↦
                rw (wait_rounds, unready, early, slept)
                  (wait_rounds_keep n interval deadline rs (out.sleep interval w1).1
                    (o.wake interval w1 p1))
          ]
        ]
      ]

  wait_keeps :
      (n interval timeout : ℕ) (rs : List (ExitClaim Q)) (w : W)
      → P w
      → P (wait_for_replacements_ready out n interval timeout rs w).1
  unfolding wait_for_replacements_ready
  wait_keeps n interval timeout [] w p = p
  wait_keeps n interval timeout (r ∷ rs) w p =
      wait_rounds_keep n interval (out.now w + timeout) (r ∷ rs) w p

  launch_keeps :
      (n interval timeout : ℕ) (rs : List (ExitClaim Q)) (w : W)
      → P w
      → P (launch_replacements out n interval timeout rs w).1
  unfolding launch_replacements
  launch_keeps n interval timeout [] w p = p
  launch_keeps n interval timeout (r ∷ rs) w p = elim (Option-cases out.create_replacements) [
    | inl missing ↦ rw (launch_replacements, missing) p
    | inr (create, wired) ↦
        let made = create (r ∷ rs) w in
        let p1 = o.create create (r ∷ rs) w wired p in
        elim (Option-cases made.0) [
          | inl fine ↦
              rw (launch_replacements, wired, fine) (wait_keeps n interval timeout made.1 made.2 p1)
          | inr (e, failed) ↦ rw (launch_replacements, wired, failed) p1
        ]
  ]

module _ {Q W : Type 0} (out : Outside Q W) where
  take_down_late :
      (cands : List (Candidate Q)) (c : Cluster Q) (w : W) (e : QueueError)
      → (take_down out cands c w).0 ≡ some e
      → is_early e ≡ false
  unfolding take_down
  take_down_late [] c w e h = cc
  take_down_late (cand ∷ cands) c w e h =
      let name = cand.claim.meta.name in
      let marked = mark_exit_for_deletion name c in
      let w1 = (out.get_claim name w).1 in
      elim (Result-cases (out.get_claim name w).0) [
        | inr (a, failed) ↦ elim (Bool-cases (is_not_found a)) [
          | inl gone ↦ take_down_late cands marked w1 e (rw (take_down, failed, gone) at h)
          | inr other ↦
              let g = rw (take_down, failed, other) at h in
              let same : get_claim_failed name a ≡ e = cc in ap is_early (sym same)
        ]
        | inl (live, there) ↦ elim (Bool-cases (is_some live.meta.deletion_timestamp)) [
          | inl leaving ↦ take_down_late cands marked w1 e (rw (take_down, there, leaving) at h)
          | inr present ↦
              let w2 = (out.delete_claim live w1).1 in
              elim (Option-cases (out.delete_claim live w1).0) [
                | inl fine ↦
                    take_down_late cands marked w2 e (rw (take_down, there, present, fine) at h)
                | inr (a, failed) ↦ elim (Bool-cases (is_not_found a)) [
                  | inl gone ↦
                      take_down_late cands marked w2 e
                        (rw (take_down, there, present, failed, gone) at h)
                  | inr other ↦
                      let g = rw (take_down, there, present, failed, other) at h in
                      let same : delete_failed name a ≡ e = cc in ap is_early (sym same)
                ]
              ]
        ]
      ]

module _ {Q W : Type 0} (out : Outside Q W) (P : W → Type 0) (o : Outlasts out P) where
  -- A command that fails before its candidates are taken down, because a cordon, the creation of the
  -- replacements or the wait for them failed, leaves the cluster as it was, and the outside in a state that
  -- the calls other than the deletion of a claim lead to.
  pub enqueue_aborted :
      (n interval timeout : ℕ) (cmd : Command Q) (c : Cluster Q) (w : W) (e : QueueError)
      → P w
      → (enqueue out n interval timeout cmd c w).0 ≡ some e
      → is_early e ≡ true
      → ((enqueue out n interval timeout cmd c w).1 ≡ c)
        × P (enqueue out n interval timeout cmd c w).2
  unfolding enqueue
  enqueue_aborted n interval timeout cmd c w e p h early =
      let w1 = (cordon_all out cmd.candidates cmd.reason w).1 in
      let p1 = cordon_all_keep out P o cmd.candidates cmd.reason w p in
      let launched = launch_replacements out n interval timeout cmd.replacements w1 in
      elim (Option-cases (cordon_all out cmd.candidates cmd.reason w).0) [
        | inr (a, failed) ↦ rw (enqueue, failed) (refl, p1)
        | inl cordoned ↦ elim (Option-cases launched.0) [
          | inr (a, failed) ↦
              rw (enqueue, cordoned, failed)
                (refl, launch_keeps out P o n interval timeout cmd.replacements w1 p1)
          | inl ready ↦
              let late =
                take_down_late out cmd.candidates c launched.1 e
                  (rw (enqueue, cordoned, ready) at h) in
              absurd (ground (arith, early, late))
        ]
      ]
