-- ===== src/Disruption.antt =====
-- pkg/controllers/disruption: which exits to take down, how many at once, and how. This file is types.go.
-- `GetCandidates` fills every field of a candidate, so that the tests of the methods for a nil candidate,
-- claim, state or pool have no effect. A cost is a number of nanoseconds.
pub mod Budgets
pub mod Candidates
pub mod Methods
pub mod Simulation
pub mod Consolidation
pub mod Queue
pub mod Controller
use frp_operator.Prelude.{
  ℕ, String, Bool, true, false, ◌≡◌, refl, ◌↔◌, Option, none, some, List, [], ◌∷◌, string_eq,
  HasEqual,
}
use frp_operator.Prelude.Maps.{lookup, insert}
use frp_operator.Api.{ExitClaim, ExitPool, DisruptionReason, empty, drifted, expired, underutilized}
use frp_operator.State.Exit.{StateExit}

abbrev pub reason_beq : DisruptionReason → DisruptionReason → Bool
reason_beq empty empty = true
reason_beq drifted drifted = true
reason_beq expired expired = true
reason_beq underutilized underutilized = true
reason_beq _ _ = false

pub reason_beq_iff : (a b : DisruptionReason) → (reason_beq a b ≡ true) ↔ (a ≡ b)
reason_beq_iff empty empty = (λ _. refl, λ _. refl)
reason_beq_iff empty drifted = (λ e. cc, λ e. cc)
reason_beq_iff empty expired = (λ e. cc, λ e. cc)
reason_beq_iff empty underutilized = (λ e. cc, λ e. cc)
reason_beq_iff drifted empty = (λ e. cc, λ e. cc)
reason_beq_iff drifted drifted = (λ _. refl, λ _. refl)
reason_beq_iff drifted expired = (λ e. cc, λ e. cc)
reason_beq_iff drifted underutilized = (λ e. cc, λ e. cc)
reason_beq_iff expired empty = (λ e. cc, λ e. cc)
reason_beq_iff expired drifted = (λ e. cc, λ e. cc)
reason_beq_iff expired expired = (λ _. refl, λ _. refl)
reason_beq_iff expired underutilized = (λ e. cc, λ e. cc)
reason_beq_iff underutilized empty = (λ e. cc, λ e. cc)
reason_beq_iff underutilized drifted = (λ e. cc, λ e. cc)
reason_beq_iff underutilized expired = (λ e. cc, λ e. cc)
reason_beq_iff underutilized underutilized = (λ _. refl, λ _. refl)

instance abbrev pub reason_eq : HasEqual DisruptionReason
reason_eq = record { same = reason_beq; same_iff = reason_beq_iff }

pub record Candidate (Q : Type 0) : Type 0 where
  pub claim : ExitClaim Q
  pub state : StateExit Q
  pub pool : ExitPool Q
  pub disruption_cost : ℕ
  pub last_binding_change : ℕ

pub record Command (Q : Type 0) : Type 0 where
  pub candidates : List (Candidate Q)
  pub replacements : List (ExitClaim Q)
  pub reason : DisruptionReason
  pub method : String

abbrev pub BudgetMap : Type 0
BudgetMap = List (String × List (DisruptionReason × ℕ))

abbrev pub or_zero : Option ℕ → ℕ
or_zero none = 0
or_zero (some n) = n

-- `BudgetMap.Allowed`.
unfoldable pub allowed : String → DisruptionReason → BudgetMap → ℕ
allowed pool_name reason budgets = elim (lookup pool_name budgets) [
  | none ↦ 0
  | some pm ↦ or_zero (lookup reason pm)
]

abbrev pub or_empty : Option (List (DisruptionReason × ℕ)) → List (DisruptionReason × ℕ)
or_empty none = []
or_empty (some pm) = pm

-- `BudgetMap.Set`.
unfoldable pub set_budget : String → DisruptionReason → ℕ → BudgetMap → BudgetMap
set_budget pool_name reason n budgets =
    insert pool_name (insert reason n (or_empty (lookup pool_name budgets))) budgets
