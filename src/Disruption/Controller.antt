-- ===== src/Disruption/Controller.antt =====
-- pkg/controllers/disruption/controller.go. A method is what types.go asks of it; what it reads of the
-- outside, its clock included, it reads of the world `W`. A pool in the cluster that is nil is passed
-- over. Not here: the ticker of `SetupWithManager`.
pub mod Grants
mod Tests
use frp_operator.Prelude.{
  ℕ, String, Bool, true, false, Option, none, some, List, [], ◌∷◌, string_eq, ◌==◌, contains, keep,
  ltb, if◌then◌else◌,
}
use frp_operator.Prelude.Maps.{lookup, insert}
use frp_operator.Kube.{Requeue, after, seconds}
use frp_operator.Api.{ExitPool, DisruptionReason}
use frp_operator.State.Exit.{StatePool}
use frp_operator.State.Cluster.{Cluster, all_pools}
use frp_operator.Disruption.{Candidate, Command, BudgetMap, set_budget, reason_eq}
use frp_operator.Disruption.Budgets.{max_int32, allowed_disruptions}
use frp_operator.Disruption.Candidates.{get_candidates, validate}
use frp_operator.Disruption.Queue.{Outside, enqueue}

abbrev pub default_poll_interval : ℕ
default_poll_interval = seconds 10

-- The interface `Method`; a nil list of commands with an error is `none`.
pub record Method (Q W : Type 0) : Type 0 where
  pub name : String
  pub reason : DisruptionReason
  pub forceful : Bool
  pub should_disrupt : W → Candidate Q → Bool
  pub compute_commands :
      BudgetMap → List (Candidate Q) → Cluster Q → W → Option (List (Command Q)) × W

-- What a method's commands came to: an enqueue failed, or the pass goes on, with whether one was executed.
pub data Executed : Type 0 where
  enqueue_failed : Executed
  executed : Bool → Executed

-- `pollInterval`.
abbrev pub poll_interval : ℕ → ℕ
poll_interval configured = if ltb 0 configured then configured else default_poll_interval

module _ {Q : Type 0} (parse_standard : String → Option (ℕ → ℕ)) where
  -- The budget that `computeBudgets` gives a pool.
  pub grant : Cluster Q → Bool → DisruptionReason → ℕ → ExitPool Q → ℕ
  grant c forceful reason now pool =
      if forceful then max_int32 else allowed_disruptions parse_standard c (some pool) reason now

  -- The loop of `computeBudgets`, with the pools seen.
  pub budgets_loop :
      Cluster Q
      → Bool
      → DisruptionReason
      → ℕ
      → List (Candidate Q)
      → List String
      → BudgetMap
      → BudgetMap
  budgets_loop c forceful reason now [] seen budgets = budgets
  budgets_loop c forceful reason now (cand ∷ cands) seen budgets =
      let name = cand.pool.meta.name in
      elim (contains seen name) [
        | true ↦ budgets_loop c forceful reason now cands seen budgets
        | false ↦
            budgets_loop c forceful reason now cands (name ∷ seen)
              (set_budget name reason (grant c forceful reason now cand.pool) budgets)
      ]

  -- `computeBudgets`, at one reading of the clock for all pools.
  pub compute_budgets : Cluster Q → Bool → DisruptionReason → ℕ → List (Candidate Q) → BudgetMap
  compute_budgets c forceful reason now candidates =
      budgets_loop c forceful reason now candidates [] []

  -- `poolLookup`.
  pub pool_map : List (StatePool Q) → List (String × ExitPool Q) → List (String × ExitPool Q)
  pool_map [] pools = pools
  pool_map (sp ∷ sps) pools = elim sp.pool [
    | none ↦ pool_map sps pools
    | some pool ↦ pool_map sps (insert pool.meta.name pool pools)
  ]

  pub pool_lookup : Cluster Q → String → Option (ExitPool Q)
  unfolding all_pools pool_map
  pool_lookup c name = lookup name (pool_map (all_pools c) [])

  module _ {W : Type 0} (out : Outside Q W) (rounds interval timeout : ℕ) where
    -- The loop of `Reconcile` over the commands of one method.
    pub execute : List (Command Q) → Bool → Cluster Q → W → Executed × Cluster Q × W
    execute [] any c w = (executed any, c, w)
    execute (cmd ∷ cmds) any c w = elim (validate c cmd) [
      | some refusal ↦ execute cmds any c w
      | none ↦
          let (failure, c1, w1) = enqueue out rounds interval timeout cmd c w in
          elim failure [ some e ↦ (enqueue_failed, c1, w1) | none ↦ execute cmds true c1 w1 ]
    ]

    -- The commands of a method for the candidates that it wants to disrupt.
    pub commands_of_method :
        Method Q W → List (Candidate Q) → Cluster Q → W → Option (List (Command Q)) × W
    commands_of_method m [] c w = (none, w)
    commands_of_method m (cand ∷ cands) c w =
        m.compute_commands (compute_budgets c m.forceful m.reason (out.now w) (cand ∷ cands))
          (cand ∷ cands) c w

    -- The loop of `Reconcile` over the methods.
    pub methods_loop :
        ℕ → List (Candidate Q) → List (Method Q W) → Cluster Q → W → Requeue × Cluster Q × W
    methods_loop poll_every candidates [] c w = (after poll_every, c, w)
    methods_loop poll_every candidates (m ∷ ms) c w =
        let (commands, w1) = commands_of_method m (keep (m.should_disrupt w) candidates) c w in
        elim commands [
          | none ↦ methods_loop poll_every candidates ms c w1
          | some cmds ↦
              let (outcome, c2, w2) = execute cmds false c w1 in
              elim outcome [
                | enqueue_failed ↦ (after (seconds 30), c2, w2)
                | executed any ↦ elim any [
                  | true ↦ (after poll_every, c2, w2)
                  | false ↦ methods_loop poll_every candidates ms c2 w2
                ]
              ]
        ]

    -- `Reconcile`; `synced` is the answer of the cluster's `Synced`.
    pub reconcile : Bool → ℕ → List (Method Q W) → Cluster Q → W → Requeue × Cluster Q × W
    reconcile synced configured methods c w = elim synced [
      | false ↦ (after (seconds 1), c, w)
      | true ↦
          methods_loop (poll_interval configured) (get_candidates (out.now w) (pool_lookup c) c)
            methods c w
    ]
