-- ===== src/Scheduling/Requirements.antt =====
-- pkg/controllers/provisioning/scheduling/requirements.go: when two lists of requirements go together.
pub mod Values
pub mod Agreement
mod Tests
use frp_operator.Prelude.{
  ℕ, String, ◌≡◌, refl, Bool, true, false, ◌||◌, ◌&&◌, not, Option, none, some, List, [], ◌∷◌,
  string_eq, ◌==◌, contains, if◌then◌else◌, Result, ok, err,
}
use frp_operator.Prelude.Int.{ℤ, ltb_ℤ}
use frp_operator.Text.{codes, atoi}
use frp_operator.Api.{
  NodeSelectorOperator, op_in, op_not_in, op_exists, op_does_not_exist, op_gt, op_lt, op_other,
  NodeSelectorRequirement,
}

-- `intersects`.
pub intersects : List String → List String → Bool
intersects [] b = false
intersects (x ∷ a) b = contains b x || intersects a b

-- `hasValueNotIn`.
pub has_value_not_in : List String → List String → Bool
has_value_not_in [] forbidden = false
has_value_not_in (v ∷ vals) forbidden =
    not (contains forbidden v) || has_value_not_in vals forbidden

-- `strconv.Atoi` of a value.
abbrev pub int_of : String → Option ℤ
int_of v = atoi (codes v)

-- `firstInt`; `none` is `ok == false`.
pub first_int : List String → Option ℤ
first_int [] = none
first_int (v ∷ vals) = int_of v

abbrev pub exceeds : ℤ → Option ℤ → Bool
exceeds threshold none = false
exceeds threshold (some n) = ltb_ℤ threshold n

abbrev pub falls_below : ℤ → Option ℤ → Bool
falls_below threshold none = false
falls_below threshold (some n) = ltb_ℤ n threshold

-- `anyIntGreater`.
pub any_int_greater : List String → ℤ → Bool
any_int_greater [] threshold = false
any_int_greater (v ∷ vals) threshold =
    exceeds threshold (int_of v) || any_int_greater vals threshold

-- `anyIntLess`.
pub any_int_less : List String → ℤ → Bool
any_int_less [] threshold = false
any_int_less (v ∷ vals) threshold = falls_below threshold (int_of v) || any_int_less vals threshold

-- `anyGreater`.
pub any_greater : List String → List String → Bool
any_greater pool_vals tunnel_vals = elim (first_int tunnel_vals) [
  | none ↦ false
  | some tv ↦ any_int_greater pool_vals tv
]

-- `anyLess`.
pub any_less : List String → List String → Bool
any_less pool_vals tunnel_vals = elim (first_int tunnel_vals) [
  | none ↦ false
  | some tv ↦ any_int_less pool_vals tv
]

in_compatible_by : NodeSelectorOperator → List String → List String → Bool
in_compatible_by op_in ps ts = intersects ps ts
in_compatible_by op_not_in ps ts = has_value_not_in ps ts
in_compatible_by op_exists ps ts = true
in_compatible_by op_does_not_exist ps ts = false
in_compatible_by op_gt ps ts = any_greater ps ts
in_compatible_by op_lt ps ts = any_less ps ts
in_compatible_by (op_other s) ps ts = false

-- `inCompatible`.
pub in_compatible : NodeSelectorRequirement → NodeSelectorRequirement → Bool
in_compatible p t = in_compatible_by t.operator p.values t.values

not_in_compatible_by : NodeSelectorOperator → List String → List String → Bool
not_in_compatible_by op_in ps ts = has_value_not_in ts ps
not_in_compatible_by op_not_in ps ts = true
not_in_compatible_by op_exists ps ts = true
not_in_compatible_by op_does_not_exist ps ts = true
not_in_compatible_by op_gt ps ts = true
not_in_compatible_by op_lt ps ts = true
not_in_compatible_by (op_other s) ps ts = false

-- `notInCompatible`.
pub not_in_compatible : NodeSelectorRequirement → NodeSelectorRequirement → Bool
not_in_compatible p t = not_in_compatible_by t.operator p.values t.values

abbrev pub is_does_not_exist : NodeSelectorOperator → Bool
is_does_not_exist op_does_not_exist = true
is_does_not_exist _ = false

-- `existsCompatible`.
pub exists_compatible : NodeSelectorRequirement → Bool
exists_compatible t = not (is_does_not_exist t.operator)

gt_compatible_by : NodeSelectorOperator → ℤ → List String → Bool
gt_compatible_by op_in pv ts = any_int_greater ts pv
gt_compatible_by op_not_in pv ts = true
gt_compatible_by op_exists pv ts = true
gt_compatible_by op_does_not_exist pv ts = false
gt_compatible_by op_gt pv ts = true
gt_compatible_by op_lt pv ts = elim (first_int ts) [ none ↦ false | some tv ↦ ltb_ℤ pv tv ]
gt_compatible_by (op_other s) pv ts = false

-- `gtCompatible`.
pub gt_compatible : NodeSelectorRequirement → NodeSelectorRequirement → Bool
gt_compatible p t = elim (first_int p.values) [
  | none ↦ false
  | some pv ↦ gt_compatible_by t.operator pv t.values
]

lt_compatible_by : NodeSelectorOperator → ℤ → List String → Bool
lt_compatible_by op_in pv ts = any_int_less ts pv
lt_compatible_by op_not_in pv ts = true
lt_compatible_by op_exists pv ts = true
lt_compatible_by op_does_not_exist pv ts = false
lt_compatible_by op_gt pv ts = elim (first_int ts) [ none ↦ false | some tv ↦ ltb_ℤ tv pv ]
lt_compatible_by op_lt pv ts = true
lt_compatible_by (op_other s) pv ts = false

-- `ltCompatible`.
pub lt_compatible : NodeSelectorRequirement → NodeSelectorRequirement → Bool
lt_compatible p t = elim (first_int p.values) [
  | none ↦ false
  | some pv ↦ lt_compatible_by t.operator pv t.values
]

compatible_by : NodeSelectorOperator → NodeSelectorRequirement → NodeSelectorRequirement → Bool
compatible_by op_in p t = in_compatible p t
compatible_by op_not_in p t = not_in_compatible p t
compatible_by op_exists p t = exists_compatible t
compatible_by op_does_not_exist p t = is_does_not_exist t.operator
compatible_by op_gt p t = gt_compatible p t
compatible_by op_lt p t = lt_compatible p t
compatible_by (op_other s) p t = false

-- `operatorsCompatible`.
pub operators_compatible : NodeSelectorRequirement → NodeSelectorRequirement → Bool
operators_compatible p t = compatible_by p.operator p t

-- The inner loop of `Compatible`: the requirements of the tunnel against one of the pool.
all_compatible : NodeSelectorRequirement → List NodeSelectorRequirement → Bool
all_compatible p [] = true
all_compatible p (t ∷ tunnel) =
    if t.key == p.key
    then (if operators_compatible p t then all_compatible p tunnel else false)
    else all_compatible p tunnel

-- `Compatible`; `true` is the nil error.
pub compatible : List NodeSelectorRequirement → List NodeSelectorRequirement → Bool
compatible [] tunnel = true
compatible (p ∷ pool) tunnel = if all_compatible p tunnel then compatible pool tunnel else false

-- What a run of `compatible` computes with.
unfoldable pub matching : Unit {0}
unfolding compatible all_compatible operators_compatible compatible_by in_compatible
    in_compatible_by not_in_compatible not_in_compatible_by exists_compatible gt_compatible
    gt_compatible_by lt_compatible lt_compatible_by intersects has_value_not_in any_greater any_less
    any_int_greater any_int_less first_int atoi
matching = tt
