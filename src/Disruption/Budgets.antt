-- ===== src/Disruption/Budgets.antt =====
-- pkg/controllers/disruption/budgets.go. An `int` has 64 bits: the product in `resolveBudgetCount` wraps
-- around. What `cron.ParseStandard` makes of a schedule is a parameter: nothing for an error, else the
-- `Next` of the schedule, in nanoseconds. A duration is not negative here.
pub mod Limits
use frp_operator.Prelude.{
  ℕ, zero, suc, ◌+◌, ◌-◌, ◌*◌, ◌/◌, ◌%◌, ◌^◌, ◌≡◌, refl, String, Bool, true, false, ◌&&◌, not,
  Option, none, some, List, [], ◌∷◌, string_eq, nat_eq, ◌==◌, leb, ltb, contains, if◌then◌else◌,
}
use frp_operator.Prelude.Int.{ℤ, pos, negsuc, ltb_ℤ}
use frp_operator.Text.{codes, trim_space, cut_suffix, atoi}
use frp_operator.Prelude.Maps.{lookup}
use frp_operator.Api.{ExitClaim, ExitPool, DisruptionBudget, DisruptionReason, label_exit_pool}
use frp_operator.State.Exit.{StateExit, snapshot_for_read}
use frp_operator.State.Cluster.{Cluster, all_exits}
use frp_operator.Disruption.{reason_eq}

abbrev pub default_budget_percent : ℕ
default_budget_percent = 10

-- math.MaxInt32.
abbrev pub max_int32 : ℕ
max_int32 = 2147483647

-- An `int` from its bit pattern.
unfoldable pub wrap_int : ℕ → ℤ
wrap_int n =
    let word = n % 18446744073709551616 in
    if ltb word 9223372036854775808 then pos word else negsuc (18446744073709551615 - word)

abbrev pub negated : ℕ → ℤ
negated zero = pos 0
negated (suc n) = negsuc n

-- `/ 100` on an `int`, which rounds towards zero.
unfoldable pub percent_of : ℤ → ℤ
percent_of (pos n) = pos (n / 100)
percent_of (negsuc n) = negated (suc n / 100)

count_of_percent : Option ℤ → ℕ → ℤ
unfolding wrap_int percent_of
count_of_percent (some (pos pct)) total = percent_of (wrap_int (total * pct))
count_of_percent _ total = pos 0

count_of : Option ℤ → ℤ
count_of (some (pos n)) = pos n
count_of _ = pos 0

-- `resolveBudgetCount`.
pub resolve_budget_count : String → ℕ → ℤ
unfolding count_of_percent count_of trim_space cut_suffix atoi
resolve_budget_count nodes total =
    let trimmed = trim_space (codes nodes) in
    elim (cut_suffix b'%' trimmed) [
      | some rest ↦ count_of_percent (atoi rest) total
      | none ↦ count_of (atoi trimmed)
    ]

abbrev pub or_no_time : Option ℕ → ℕ
or_no_time none = 0
or_no_time (some d) = d

abbrev pub is_nil : List DisruptionReason → Bool
is_nil [] = true
is_nil (r ∷ rs) = false

abbrev pub min_ℤ : ℤ → ℤ → ℤ
min_ℤ a b = if ltb_ℤ b a then b else a

-- `max(x - n, 0)`.
abbrev pub less : ℤ → ℕ → ℕ
less (pos m) n = m - n
less (negsuc m) n = 0

module _ (parse_standard : String → Option (ℕ → ℕ)) where
  -- `cronActive`.
  pub cron_active : String → ℕ → ℕ → Bool
  cron_active schedule duration now =
      if duration == 0 then false else elim (parse_standard schedule) [
        | none ↦ false
        | some next ↦ leb (next (now - duration)) now
      ]

  -- `budgetActive`.
  pub budget_active : DisruptionBudget → DisruptionReason → ℕ → Bool
  budget_active b reason now =
      if not (is_nil b.reasons) && not (contains b.reasons reason)
      then false
      else if b.schedule == ""
      then true
      else cron_active b.schedule (or_no_time b.duration) now

  -- The loop of `GetAllowedDisruptionsByReason`: the least count so far, and whether a budget matched.
  pub least_budget : List DisruptionBudget → DisruptionReason → ℕ → ℕ → ℤ × Bool → ℤ × Bool
  least_budget [] reason now total found = found
  least_budget (b ∷ budgets) reason now total (least, matched) =
      least_budget budgets reason now total (
        if budget_active b reason now
        then (min_ℤ least (resolve_budget_count b.nodes total), true)
        else (least, matched))

abbrev pub default_budget : ℕ → ℕ
default_budget total =
    let share = total * default_budget_percent / 100 in if ltb share 1 then 1 else share

-- `minBudget` behind the loop.
abbrev pub min_budget : ℕ → ℤ × Bool → ℤ
min_budget total (least, true) = least
min_budget total (least, false) = pos (default_budget total)

module _ {Q : Type 0} where
  -- claim.Labels[LabelExitPool].
  abbrev pub pool_of : ExitClaim Q → String
  pool_of claim = elim (lookup label_exit_pool claim.meta.labels) [ none ↦ "" | some name ↦ name ]

  abbrev pub in_pool : String → StateExit Q → Bool
  in_pool name se = elim (snapshot_for_read se) [
    | none ↦ false
    | some (claim, allocs) ↦ pool_of claim == name
  ]

  -- `countExitsInPool`.
  pub count_exits_in_pool : List (StateExit Q) → String → ℕ
  unfolding snapshot_for_read
  count_exits_in_pool [] name = 0
  count_exits_in_pool (se ∷ exits) name =
      let rest = count_exits_in_pool exits name in if in_pool name se then suc rest else rest

  -- `countDisruptingInPool`.
  pub count_disrupting_in_pool : List (StateExit Q) → String → ℕ
  unfolding snapshot_for_read
  count_disrupting_in_pool [] name = 0
  count_disrupting_in_pool (se ∷ exits) name =
      let rest = count_disrupting_in_pool exits name in
      if in_pool name se && se.marked_for_deletion then suc rest else rest

  -- `GetAllowedDisruptionsByReason`; `none` is the nil pool.
  pub allowed_disruptions :
      (parse_standard : String → Option (ℕ → ℕ))
      → Cluster Q
      → Option (ExitPool Q)
      → DisruptionReason
      → ℕ
      → ℕ
  unfolding all_exits
  allowed_disruptions parse_standard c none reason now = 0
  allowed_disruptions parse_standard c (some pool) reason now =
      let total = count_exits_in_pool (all_exits c) pool.meta.name in
      less
        (min_budget total (
          least_budget parse_standard pool.spec.disruption.budgets reason now total
            (pos max_int32, false)))
        (count_disrupting_in_pool (all_exits c) pool.meta.name)
