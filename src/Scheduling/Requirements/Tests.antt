-- ===== src/Scheduling/Requirements/Tests.antt =====
-- Runs of `Compatible` on concrete requirements.
use frp_operator.Prelude.{
  String, ◌≡◌, ◌↔◌, refl, true, false, Option, none, some, [], ◌∷◌, string_eq, ◌==◌, All,
  if◌then◌else◌,
}
use frp_operator.Api.{
  NodeSelectorOperator, op_in, op_not_in, op_gt, op_does_not_exist, NodeSelectorRequirement,
}
use frp_operator.Scheduling.Requirements.{matching, compatible, operators_compatible}
use frp_operator.Scheduling.Requirements.Values.{Found}
use frp_operator.Scheduling.Requirements.Agreement.{
  admits, Clash, Shares, compatible_of_labels, compatible_in, operators_compatible_in,
  operators_compatible_of_admits,
}

abbrev size : NodeSelectorOperator → String → NodeSelectorRequirement
size op v = record { key = "size"; operator = op; values = v ∷ []; min_values = none }

compatible_gt_in : compatible (size op_gt "4" ∷ []) (size op_in "8" ∷ []) ≡ true
unfolding matching
compatible_gt_in = refl

compatible_in_not_in : compatible (size op_in "4" ∷ []) (size op_not_in "4" ∷ []) ≡ false
unfolding matching
compatible_in_not_in = refl

admits_gt : admits (size op_gt "4") "8" ≡ true
unfolding admits matching
admits_gt = refl

admits_in : admits (size op_in "8") "8" ≡ true
unfolding admits matching
admits_in = refl

-- A pool and a tunnel that an exit of size 8 without a label "gpu" meets; the second list of the tunnel is
-- turned down all the same.
abbrev gpu : NodeSelectorOperator → NodeSelectorRequirement
gpu op = record { key = "gpu"; operator = op; values = "old" ∷ []; min_values = none }

abbrev labels : String → Option String
labels key = if key == "size" then some "8" else none

compatible_of_labels_example :
    (compatible (size op_gt "4" ∷ gpu op_does_not_exist ∷ []) (size op_in "8" ∷ gpu op_not_in ∷ [])
      ≡ false)
    ↔ Clash (size op_gt "4" ∷ gpu op_does_not_exist ∷ []) (size op_in "8" ∷ gpu op_not_in ∷ [])
compatible_of_labels_example =
    compatible_of_labels labels (size op_gt "4" ∷ gpu op_does_not_exist ∷ [])
      (size op_in "8" ∷ gpu op_not_in ∷ []) (admits_gt, (refl, tt)) (admits_in, (refl, tt))

compatible_in_example :
    (compatible (size op_in "8" ∷ []) (size op_gt "4" ∷ []) ≡ true)
    ↔ All (λ p. All (Shares p) (size op_gt "4" ∷ [])) (size op_in "8" ∷ [])
compatible_in_example =
    compatible_in (size op_in "8" ∷ []) (size op_gt "4" ∷ []) ((refl, ("8", refl)), tt)

operators_compatible_of_admits_example :
    operators_compatible (size op_gt "4") (size op_in "8") ≡ true
operators_compatible_of_admits_example =
    operators_compatible_of_admits (size op_gt "4") (size op_in "8") "8" admits_gt admits_in

in_then_gt : operators_compatible (size op_in "8") (size op_gt "4") ≡ true
unfolding matching
in_then_gt = refl

operators_compatible_in_example : Found (admits (size op_gt "4")) ("8" ∷ [])
operators_compatible_in_example =
    operators_compatible_in (size op_in "8") (size op_gt "4") "8" refl refl in_then_gt
