-- ===== src/Disruption/Queue/Wait.antt =====
-- The wait for replacements comes to an end.
use frp_operator.Prelude.{
  ℕ, zero, suc, ◌+◌, ◌*◌, ◌≤◌, String, ◌≡◌, ◌≢◌, inl, inr, true, false, List, [], ◌∷◌, arith,
  string_eq, ◌==◌, ltb, Bool-cases, Result-cases,
}
use frp_operator.Kube.{is_not_found}
use frp_operator.Api.{ExitClaim, has_true, condition_type_ready}
use frp_operator.Disruption.Queue.{
  Outside, out_of_rounds, poll, wait_rounds, wait_for_replacements_ready,
}

-- The clock never goes back, and a sleep that is not cut short takes its time.
pub record ClockLaws {Q W : Type 0} (out : Outside Q W) : Type 0 where
  pub get_later : (name : String) (w : W) → out.now w ≤ out.now (out.get_claim name w).1
  pub slept :
      (d : ℕ) (w : W) → (out.sleep d w).0 ≡ false → out.now w + d ≤ out.now (out.sleep d w).1

module _ {Q W : Type 0} (out : Outside Q W) (laws : ClockLaws out) where
  poll_later : (rs : List (ExitClaim Q)) (w : W) → out.now w ≤ out.now (poll out rs w).1
  unfolding poll
  poll_later [] w = omega arith
  poll_later (r ∷ rs) w = elim (Bool-cases (r.meta.name == "")) [
    | inl unnamed ↦ rw (poll, unnamed) (poll_later rs w)
    | inr named ↦
        let w1 = (out.get_claim r.meta.name w).1 in
        let got = laws.get_later r.meta.name w in
        elim (Result-cases (out.get_claim r.meta.name w).0) [
          | inr (e, failed) ↦ elim (Bool-cases (is_not_found e)) [
            | inl gone ↦ rw (poll, named, failed, gone) got
            | inr other ↦ rw (poll, named, failed, other) got
          ]
          | inl (live, there) ↦
              elim (Bool-cases (has_true condition_type_ready live.status.conditions)) [
                | inl ready ↦
                    let rest = poll_later rs w1 in
                    rw (poll, named, there, ready) (omega (arith, got, rest))
                | inr unready ↦ rw (poll, named, there, unready) got
              ]
        ]
  ]

  -- A round ends the wait, or sleeps before the deadline and leaves the rest to the later rounds.
  wait_round_ends :
      (m interval deadline : ℕ) (rs : List (ExitClaim Q)) (w : W)
      → ((w2 : W)
          → out.now w + 1 ≤ deadline
          → out.now w + interval ≤ out.now w2
          → (wait_rounds out m interval deadline rs w2).0 ≢ out_of_rounds)
      → (wait_rounds out (suc m) interval deadline rs w).0 ≢ out_of_rounds
  unfolding wait_rounds
  wait_round_ends m interval deadline rs w next =
      let w1 = (poll out rs w).1 in
      let later = poll_later rs w in
      elim (Result-cases (poll out rs w).0) [
        | inr (e, failed) ↦ rw (wait_rounds, failed) (λ h. cc)
        | inl (true, ready) ↦ rw (wait_rounds, ready) (λ h. cc)
        | inl (false, unready) ↦ elim (Bool-cases (ltb (out.now w1) deadline)) [
          | inr late ↦ rw (wait_rounds, unready, late) (λ h. cc)
          | inl early ↦ elim (Bool-cases (out.sleep interval w1).0) [
            | inl stopped ↦ rw (wait_rounds, unready, early, stopped) (λ h. cc)
            | inr slept ↦
                let w2 = (out.sleep interval w1).1 in
                let woken = laws.slept interval w1 slept in
                rw (wait_rounds, unready, early, slept)
                  (next w2 (ground (arith, later, early)) (omega (arith, later, woken)))
          ]
        ]
      ]

  wait_rounds_end :
      (m interval deadline : ℕ) (rs : List (ExitClaim Q)) (w : W)
      → deadline ≤ out.now w + m * interval
      → (wait_rounds out (suc m) interval deadline rs w).0 ≢ out_of_rounds
  wait_rounds_end zero interval deadline rs w enough =
      wait_round_ends zero interval deadline rs w
        (λ w2 before woken. absurd (omega (arith, enough, before)))
  wait_rounds_end (suc m) interval deadline rs w enough =
      wait_round_ends (suc m) interval deadline rs w (λ w2 before woken.
        wait_rounds_end m interval deadline rs w2 (omega (arith, enough, woken)))

  -- The wait for replacements does not go on for ever: where the clock does not go back and a sleep takes
  -- its time, it has ended after as many polls as fit in the timeout, and one more.
  pub wait_for_replacements_ready_ends :
      (m interval timeout : ℕ) (rs : List (ExitClaim Q)) (w : W)
      → timeout ≤ m * interval
      → (wait_for_replacements_ready out (suc m) interval timeout rs w).0 ≢ out_of_rounds
  unfolding wait_for_replacements_ready
  wait_for_replacements_ready_ends m interval timeout [] w enough = λ h. cc
  wait_for_replacements_ready_ends m interval timeout (r ∷ rs) w enough =
      wait_rounds_end m interval (out.now w + timeout) (r ∷ rs) w (omega (arith, enough))
