-- ===== src/Disruption/Consolidation/Caps.antt =====
-- How many candidates of one pool the consolidation methods take, against the budget of the pool.
use frp_operator.Prelude.{
  ℕ, ◌-◌, ◌≤◌, String, ◌≡◌, refl, ap, inl, inr, not, ◌&&◌, Option, none, some, List, [], ◌∷◌, arith,
  string_eq, nat_eq, beq_refl, ◌==◌, ltb, contains, All, Bool-cases, Option-cases, Result,
  if◌then◌else◌,
}
use frp_operator.Prelude.Maps.{lookup, insert, keys, lookup-insert}
use frp_operator.Kube.{ApiError}
use frp_operator.Api.{Quantity, ExitPool, Tunnel, DisruptionReason, underutilized}
use frp_operator.State.Cluster.{Cluster}
use frp_operator.Cloudprovider.{Registry}
use frp_operator.Disruption.{
  Candidate, Command, BudgetMap, allowed, set_budget, or_empty, reason_eq,
}
use frp_operator.Disruption.Methods.{per_pool}
use frp_operator.Disruption.Methods.Caps.{
  taken, taken-append, Bucketed, per_pool-Bucketed, of_pool-same,
}
use frp_operator.Disruption.Consolidation.{
  RepackPlan, can_repack, can_repack_with_replacement, plan_command, try_pair, single_commands,
  pair_commands, bucket_commands, multi_loop, multi_commands, last_pool, ok, err,
}
use frp_operator.Disruption.Simulation.{SimError}

pub allowed-set_budget :
    (name other : String) (reason : DisruptionReason) (n : ℕ) (budgets : BudgetMap)
    → allowed other reason (set_budget name reason n budgets)
      ≡ (if name == other then n else allowed other reason budgets)
unfolding allowed set_budget
allowed-set_budget name other reason n budgets =
    let pm = or_empty (lookup name budgets) in
    let found = lookup-insert name other (insert reason n pm) budgets in
    elim (Bool-cases (name == other)) [
      | inl same ↦
          let at_name : lookup other (insert name (insert reason n pm) budgets)
              ≡ some (insert reason n pm) =
            rw same at found in
          let held : lookup reason (insert reason n pm) ≡ some n =
            rw (beq_refl reason) at (lookup-insert reason reason n pm) in
          rw (at_name, allowed, same, held) refl
      | inr apart ↦
          let at_other : lookup other (insert name (insert reason n pm) budgets)
              ≡ lookup other budgets =
            rw apart at found in
          rw (at_other, allowed, apart) refl
    ]

module _ {Q : Type 0} ⦃q : Quantity Q⦄ (c : Cluster Q) (registry : Option (Registry Q))
    (tunnels : Result ApiError (List (Tunnel Q))) where
  -- SingleNodeConsolidation takes no more exits of a pool than its budget allows.
  pub single_commands-le :
      (budgets : BudgetMap) (cs : List (Candidate Q)) (name : String)
      → taken name (single_commands c registry tunnels budgets cs)
        ≤ allowed name underutilized budgets
  unfolding single_commands
  single_commands-le budgets [] name = omega arith
  single_commands-le budgets (cand ∷ cs) name =
      let pool = cand.pool.meta.name in
      let n = allowed pool underutilized budgets in
      elim (Bool-cases (not (n == 0) && can_repack c tunnels (cand ∷ []))) [
        | inl fits ↦
            rw (fits, single_commands)
              (ground (
                arith,
                single_commands-le (set_budget pool underutilized (n - 1) budgets) cs name,
                allowed-set_budget pool name underutilized (n - 1) budgets,
                string_eq.same_iff pool name,
              ))
        | inr passed ↦ rw (passed, single_commands) (single_commands-le budgets cs name)
      ]

  plan_command-candidates :
      (pair : List (Candidate Q)) (r : Result SimError (Option (RepackPlan Q))) (cmd : Command Q)
      → plan_command c registry tunnels pair r ≡ some cmd
      → cmd.candidates ≡ pair
  plan_command-candidates pair (ok (some plan)) cmd h = cc
  plan_command-candidates pair (ok none) cmd h = cc
  plan_command-candidates pair (err e) cmd h = cc

  try_pair-candidates :
      (pool : ExitPool Q) (pair : List (Candidate Q)) (cmd : Command Q)
      → try_pair c registry tunnels pool pair ≡ some cmd
      → cmd.candidates ≡ pair
  unfolding try_pair
  try_pair-candidates pool pair cmd h = elim (Bool-cases (can_repack c tunnels pair)) [
    | inl e ↦ let g = rw e at h in cc
    | inr e ↦
        plan_command-candidates pair (can_repack_with_replacement c registry tunnels pool pair) cmd
          (rw e at h)
  ]

  taken-pair_commands :
      (pool : ExitPool Q) (name k : String) (budget : ℕ) (cs : List (Candidate Q))
      → All (λ (d : Candidate Q). d.pool.meta.name ≡ k) cs
      → taken name (pair_commands c registry tunnels pool budget cs)
        ≤ (if k == name then budget else 0)
  unfolding pair_commands
  taken-pair_commands pool name k budget [] h = omega arith
  taken-pair_commands pool name k budget (a ∷ []) h = omega arith
  taken-pair_commands pool name k budget (a ∷ b ∷ cs) h = elim (Bool-cases (ltb budget 2)) [
    | inl short ↦ rw (short, pair_commands) (omega arith)
    | inr enough ↦ elim (Option-cases (try_pair c registry tunnels pool (a ∷ b ∷ []))) [
      | inl none_fits ↦
          rw (enough, none_fits, pair_commands)
            (taken-pair_commands pool name k budget (b ∷ cs) h.1)
      | inr (cmd, fits) ↦
          let pair = try_pair-candidates pool (a ∷ b ∷ []) cmd fits in
          let rest = taken-pair_commands pool name k (budget - 2) cs (h.1.1) in
          let of_pair = of_pool-same name k (a ∷ b ∷ []) (h.0, (h.1.0, tt)) in
          rw (enough, fits, pair_commands, pair) (ground (arith, rest, of_pair, enough))
    ]
  ]

  taken-bucket_commands :
      (name k : String) (budgets : BudgetMap) (cs : List (Candidate Q))
      → All (λ (d : Candidate Q). d.pool.meta.name ≡ k) cs
      → taken name (bucket_commands c registry tunnels budgets k cs)
        ≤ (if k == name then allowed k underutilized budgets else 0)
  taken-bucket_commands name k budgets [] h = omega arith
  taken-bucket_commands name k budgets (a ∷ cs) h =
      taken-pair_commands (last_pool c registry tunnels a.pool cs) name k
        (allowed k underutilized budgets) (a ∷ cs) h

  taken-multi_loop :
      (name : String) (budgets : BudgetMap) (groups : List (String × List (Candidate Q)))
      → Bucketed groups
      → taken name (multi_loop c registry tunnels budgets groups)
        ≤ (if contains (keys groups) name then allowed name underutilized budgets else 0)
  unfolding multi_loop
  taken-multi_loop name budgets [] b = omega arith
  taken-multi_loop name budgets ((k, cs) ∷ groups) b =
      let bucket = taken-bucket_commands name k budgets cs b.0 in
      let rest = taken-multi_loop name budgets groups b.2 in
      let split =
        taken-append name (bucket_commands c registry tunnels budgets k cs)
          (multi_loop c registry tunnels budgets groups) in
      elim (Bool-cases (k == name)) [
        | inl same ↦
            let e : k ≡ name = (string_eq.same_iff k name).0 same in
            ground (
              arith,
              ap (λ (m : String). contains (keys groups) m) e,
              ap (λ (m : String). allowed m underutilized budgets) e,
              b.1,
            )
        | inr other ↦ ground arith
      ]

  -- MultiNodeConsolidation takes no more exits of a pool than its budget allows.
  pub multi_commands-le :
      (budgets : BudgetMap) (cs : List (Candidate Q)) (name : String)
      → taken name (multi_commands c registry tunnels budgets cs)
        ≤ allowed name underutilized budgets
  unfolding multi_commands
  multi_commands-le budgets cs name =
      let h = taken-multi_loop name budgets (per_pool cs []) (per_pool-Bucketed cs [] tt) in
      ground arith
