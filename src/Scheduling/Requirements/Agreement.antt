-- ===== src/Scheduling/Requirements/Agreement.antt =====
-- `Compatible` of requirements.go against the meaning of requirements: what each operator admits of a
-- label, which has a value or is absent.
use frp_operator.Prelude.{
  String, ◌≡◌, refl, inl, inr, Bool, true, false, not, Option, none, some, List, [], ◌∷◌, arith,
  string_eq, ◌==◌, contains, subst, ◌⊎◌, ◌↔◌, Bool-cases, Option-cases, All,
}
use frp_operator.Prelude.Int.{ℤ, ltb_ℤ}
use frp_operator.Api.{
  NodeSelectorOperator, op_in, op_not_in, op_exists, op_does_not_exist, op_gt, op_lt, op_other,
  NodeSelectorRequirement,
}
use frp_operator.Scheduling.Requirements.{
  in_compatible_by, not_in_compatible_by, gt_compatible_by, lt_compatible_by, compatible_by,
  is_does_not_exist, int_of, first_int, any_int_greater, any_int_less, any_greater, any_less,
  exceeds, falls_below, in_compatible, not_in_compatible, exists_compatible, gt_compatible,
  lt_compatible, operators_compatible, all_compatible, compatible,
}
use frp_operator.Scheduling.Requirements.Values.{
  Found, intersects-Found, intersects_of_mem, has_value_not_in-Found, has_value_not_in_of_mem,
  any_int_greater-Found, any_int_greater_of_mem, any_int_less-Found, any_int_less_of_mem,
}

abbrev below : Option ℤ → Option ℤ → Bool
below (some n) (some m) = ltb_ℤ n m
below _ _ = false

-- The label value `v` meets an operator with these values. No value meets `DoesNotExist`.
abbrev admits_by : NodeSelectorOperator → List String → String → Bool
admits_by op_in vals v = contains vals v
admits_by op_not_in vals v = not (contains vals v)
admits_by op_exists vals v = true
admits_by op_does_not_exist vals v = false
admits_by op_gt vals v = below (first_int vals) (int_of v)
admits_by op_lt vals v = below (int_of v) (first_int vals)
admits_by (op_other s) vals v = false

unfoldable pub admits : NodeSelectorRequirement → String → Bool
admits r v = admits_by r.operator r.values v

below-some :
    (a b : Option ℤ)
    → below a b ≡ true
    → (n : ℤ) × (m : ℤ) × (a ≡ some n) × (b ≡ some m) × (ltb_ℤ n m ≡ true)
below-some (some n) (some m) h = (n, m, refl, refl, h)
below-some (some n) none h = cc
below-some none b h = cc

ltb_ℤ_trans : (a b c : ℤ) → ltb_ℤ a b ≡ true → ltb_ℤ b c ≡ true → ltb_ℤ a c ≡ true
ltb_ℤ_trans a b c h k = ground arith

in_agrees :
    (op : NodeSelectorOperator) (ps ts : List String) (v : String)
    → contains ps v ≡ true
    → admits_by op ts v ≡ true
    → in_compatible_by op ps ts ≡ true
unfolding in_compatible_by any_greater any_less
in_agrees op_in ps ts v p t = intersects_of_mem ps ts v p t
in_agrees op_not_in ps ts v p t = has_value_not_in_of_mem ps ts v p t
in_agrees op_exists ps ts v p t = refl
in_agrees op_does_not_exist ps ts v p t = cc
in_agrees op_gt ps ts v p t =
    let (n, m, first, value, less) = below-some (first_int ts) (int_of v) t in
    rw (first, any_greater) (any_int_greater_of_mem ps n v p (rw value less))
in_agrees op_lt ps ts v p t =
    let (n, m, value, first, less) = below-some (int_of v) (first_int ts) t in
    rw (first, any_less) (any_int_less_of_mem ps m v p (rw value less))
in_agrees (op_other s) ps ts v p t = cc

not_in_agrees :
    (op : NodeSelectorOperator) (ps ts : List String) (v : String)
    → not (contains ps v) ≡ true
    → admits_by op ts v ≡ true
    → not_in_compatible_by op ps ts ≡ true
unfolding not_in_compatible_by
not_in_agrees op_in ps ts v p t = has_value_not_in_of_mem ts ps v t p
not_in_agrees (op_other s) ps ts v p t = cc
not_in_agrees _ ps ts v p t = refl

gt_agrees :
    (op : NodeSelectorOperator) (n m : ℤ) (ts : List String) (v : String)
    → int_of v ≡ some m
    → ltb_ℤ n m ≡ true
    → admits_by op ts v ≡ true
    → gt_compatible_by op n ts ≡ true
unfolding gt_compatible_by
gt_agrees op_in n m ts v e less t = any_int_greater_of_mem ts n v t (rw e less)
gt_agrees op_does_not_exist n m ts v e less t = cc
gt_agrees op_lt n m ts v e less t =
    let (m', k, value, first, less') = below-some (int_of v) (first_int ts) t in
    rw (first, gt_compatible_by) (ltb_ℤ_trans n m k less (ground arith))
gt_agrees (op_other s) n m ts v e less t = cc
gt_agrees _ n m ts v e less t = refl

lt_agrees :
    (op : NodeSelectorOperator) (n m : ℤ) (ts : List String) (v : String)
    → int_of v ≡ some m
    → ltb_ℤ m n ≡ true
    → admits_by op ts v ≡ true
    → lt_compatible_by op n ts ≡ true
unfolding lt_compatible_by
lt_agrees op_in n m ts v e less t = any_int_less_of_mem ts n v t (rw e less)
lt_agrees op_does_not_exist n m ts v e less t = cc
lt_agrees op_gt n m ts v e less t =
    let (k, m', first, value, less') = below-some (first_int ts) (int_of v) t in
    rw (first, lt_compatible_by) (ltb_ℤ_trans k m n (ground arith) less)
lt_agrees (op_other s) n m ts v e less t = cc
lt_agrees _ n m ts v e less t = refl

exists_agrees :
    (op : NodeSelectorOperator) (ts : List String) (v : String)
    → admits_by op ts v ≡ true
    → not (is_does_not_exist op) ≡ true
exists_agrees op_does_not_exist ts v t = cc
exists_agrees _ ts v t = refl

compatible_by_agrees :
    (op : NodeSelectorOperator) (p t : NodeSelectorRequirement) (v : String)
    → admits_by op p.values v ≡ true
    → admits_by t.operator t.values v ≡ true
    → compatible_by op p t ≡ true
unfolding compatible_by in_compatible not_in_compatible exists_compatible gt_compatible
    lt_compatible
compatible_by_agrees op_in p t v h k = in_agrees t.operator p.values t.values v h k
compatible_by_agrees op_not_in p t v h k = not_in_agrees t.operator p.values t.values v h k
compatible_by_agrees op_exists p t v h k = exists_agrees t.operator t.values v k
compatible_by_agrees op_does_not_exist p t v h k = cc
compatible_by_agrees op_gt p t v h k =
    let (n, m, first, value, less) = below-some (first_int p.values) (int_of v) h in
    rw (gt_compatible, first, gt_compatible) (gt_agrees t.operator n m t.values v value less k)
compatible_by_agrees op_lt p t v h k =
    let (m, n, value, first, less) = below-some (int_of v) (first_int p.values) h in
    rw (lt_compatible, first, lt_compatible) (lt_agrees t.operator n m t.values v value less k)
compatible_by_agrees (op_other s) p t v h k = cc

-- Two requirements that some label value meets together are compatible.
pub operators_compatible_of_admits :
    (p t : NodeSelectorRequirement) (v : String)
    → admits p v ≡ true
    → admits t v ≡ true
    → operators_compatible p t ≡ true
unfolding operators_compatible admits
operators_compatible_of_admits p t v h k = compatible_by_agrees p.operator p t v h k

-- An absent label meets the two negative operators.
abbrev allows_absent : NodeSelectorOperator → Bool
allows_absent op_not_in = true
allows_absent op_does_not_exist = true
allows_absent _ = false

abbrev meets_label : NodeSelectorRequirement → Option String → Bool
meets_label r none = allows_absent r.operator
meets_label r (some v) = admits r v

-- The label of the requirement's key meets it.
abbrev pub Meets : (String → Option String) → NodeSelectorRequirement → Type 0
Meets labels r = meets_label r (labels r.key) ≡ true

-- The pool forbids the label and the tunnel only forbids values of it.
abbrev Opposed : NodeSelectorRequirement → NodeSelectorRequirement → Type 0
Opposed p t = (t.key ≡ p.key) × (p.operator ≡ op_does_not_exist) × (t.operator ≡ op_not_in)

abbrev Opposes : NodeSelectorRequirement → List NodeSelectorRequirement → Type 0
Opposes p [] = ⊥
Opposes p (t ∷ tunnel) = Opposed p t ⊎ Opposes p tunnel

abbrev pub Clash : List NodeSelectorRequirement → List NodeSelectorRequirement → Type 0
Clash [] tunnel = ⊥
Clash (p ∷ pool) tunnel = Opposes p tunnel ⊎ Clash pool tunnel

opposed_ops : NodeSelectorOperator → NodeSelectorOperator → Bool
opposed_ops op_does_not_exist op_not_in = true
opposed_ops _ _ = false

opposed_ops-eq :
    (a b : NodeSelectorOperator)
    → opposed_ops a b ≡ true
    → (a ≡ op_does_not_exist) × (b ≡ op_not_in)
unfolding opposed_ops
opposed_ops-eq op_does_not_exist op_not_in e = (refl, refl)
opposed_ops-eq a b e = ground arith

absent_agrees :
    (op : NodeSelectorOperator) (p t : NodeSelectorRequirement)
    → allows_absent op ≡ true
    → allows_absent t.operator ≡ true
    → compatible_by op p t ≡ not (opposed_ops op t.operator)
unfolding compatible_by not_in_compatible not_in_compatible_by opposed_ops
absent_agrees op_not_in p t h k = ground arith
absent_agrees op_does_not_exist p t h k = ground arith
absent_agrees op p t h k = ground arith

no_value_opposed :
    (a b : NodeSelectorOperator) (vals : List String) (v : String)
    → admits_by a vals v ≡ true
    → opposed_ops a b ≡ false
unfolding opposed_ops
no_value_opposed op_does_not_exist b vals v h = cc
no_value_opposed _ b vals v h = refl

pair_agrees :
    (label : Option String) (p t : NodeSelectorRequirement)
    → meets_label p label ≡ true
    → meets_label t label ≡ true
    → operators_compatible p t ≡ not (opposed_ops p.operator t.operator)
unfolding operators_compatible admits
pair_agrees none p t h k = absent_agrees p.operator p t h k
pair_agrees (some v) p t h k =
    rw
      (
        operators_compatible_of_admits p t v h k,
        no_value_opposed p.operator t.operator p.values v h,
      )
      refl

all_compatible_iff :
    (labels : String → Option String) (p : NodeSelectorRequirement)
    (tunnel : List NodeSelectorRequirement)
    → Meets labels p
    → All (Meets labels) tunnel
    → (all_compatible p tunnel ≡ false) ↔ Opposes p tunnel
unfolding all_compatible opposed_ops
all_compatible_iff labels p [] h k = (λ e. absurd cc, λ o. absurd o)
all_compatible_iff labels p (t ∷ tunnel) h k =
    let rest = all_compatible_iff labels p tunnel h k.1 in
    elim (Bool-cases (t.key == p.key)) [
      | inl same ↦
          let e = (string_eq.same_iff t.key p.key).0 same in
          let its : meets_label t (labels p.key) ≡ true =
            subst (λ (key : String). meets_label t (labels key) ≡ true) e k.0 in
          let pair = pair_agrees (labels p.key) p t h its in
          elim (Bool-cases (opposed_ops p.operator t.operator)) [
            | inl opposed ↦
                let (a, b) = opposed_ops-eq p.operator t.operator opposed in
                rw (same, pair, opposed) (λ c. inl (e, a, b), λ o. refl)
            | inr apart ↦
                rw (same, pair, apart)
                  (
                    λ c. inr (rest.0 c),
                    λ o. elim o [
                      | inl (_, a, b) ↦
                          let opposed : opposed_ops p.operator t.operator ≡ true = rw (a, b) refl in
                          absurd cc
                      | inr later ↦ rest.1 later
                    ],
                  )
          ]
      | inr other ↦ rw other (
        λ c. inr (rest.0 c),
        λ o. elim o [
          | inl (e, a, b) ↦
              let same : (t.key == p.key) ≡ true = (string_eq.same_iff t.key p.key).1 e in absurd cc
          | inr later ↦ rest.1 later
        ],
      )
    ]

-- Of two requirement lists that one assignment of labels, present or absent, meets together, Compatible
-- turns down exactly those in which the pool says DoesNotExist and the tunnel NotIn of one key.
pub compatible_of_labels :
    (labels : String → Option String) (pool tunnel : List NodeSelectorRequirement)
    → All (Meets labels) pool
    → All (Meets labels) tunnel
    → (compatible pool tunnel ≡ false) ↔ Clash pool tunnel
unfolding compatible
compatible_of_labels labels [] tunnel h k = (λ e. absurd cc, λ o. absurd o)
compatible_of_labels labels (p ∷ pool) tunnel h k =
    let first = all_compatible_iff labels p tunnel h.0 k in
    let rest = compatible_of_labels labels pool tunnel h.1 k in
    elim (Bool-cases (all_compatible p tunnel)) [
      | inr fails ↦ rw fails (λ c. inl (first.0 fails), λ o. refl)
      | inl holds ↦ rw holds (
        λ c. inr (rest.0 c),
        λ o. elim o [ inl here ↦ let fails = first.1 here in absurd cc | inr later ↦ rest.1 later ],
      )
    ]

exceeds-below : (n : ℤ) (o : Option ℤ) → exceeds n o ≡ true → below (some n) o ≡ true
exceeds-below n (some m) h = h
exceeds-below n none h = cc

falls_below-below : (n : ℤ) (o : Option ℤ) → falls_below n o ≡ true → below o (some n) ≡ true
falls_below-below n (some m) h = h
falls_below-below n none h = cc

in_witness :
    (op : NodeSelectorOperator) (ps ts : List String) (some_value : String)
    → in_compatible_by op ps ts ≡ true
    → contains ps some_value ≡ true
    → Found (admits_by op ts) ps
unfolding in_compatible_by any_greater any_less
in_witness op_in ps ts w h m = intersects-Found ps ts h
in_witness op_not_in ps ts w h m = has_value_not_in-Found ps ts h
in_witness op_exists ps ts w h m = (w, m, refl)
in_witness op_does_not_exist ps ts w h m = cc
in_witness op_gt ps ts w h m = elim (Option-cases (first_int ts)) [
  | inl e ↦ let h' : false ≡ true = rw (e, any_greater) at h in cc
  | inr (n, e) ↦
      let h' : any_int_greater ps n ≡ true = rw (e, any_greater) at h in
      let (v, m', hit) = any_int_greater-Found ps n h' in
      (v, m', rw e (exceeds-below n (int_of v) hit))
]
in_witness op_lt ps ts w h m = elim (Option-cases (first_int ts)) [
  | inl e ↦ let h' : false ≡ true = rw (e, any_less) at h in cc
  | inr (n, e) ↦
      let h' : any_int_less ps n ≡ true = rw (e, any_less) at h in
      let (v, m', hit) = any_int_less-Found ps n h' in
      (v, m', rw e (falls_below-below n (int_of v) hit))
]
in_witness (op_other s) ps ts w h m = cc

-- Where the first requirement is an `In` with a value, compatibility is no more than that: a value of
-- its list meets the second requirement.
pub operators_compatible_in :
    (p t : NodeSelectorRequirement) (some_value : String)
    → p.operator ≡ op_in
    → contains p.values some_value ≡ true
    → operators_compatible p t ≡ true
    → Found (admits t) p.values
unfolding operators_compatible compatible_by in_compatible admits
operators_compatible_in p t w e m h =
    let h' : in_compatible_by t.operator p.values t.values ≡ true = rw e at h in
    in_witness t.operator p.values t.values w h' m

-- The requirement lists values, of which one is there: an `In` of an instance type or an offering.
abbrev pub Lists : NodeSelectorRequirement → Type 0
Lists p = (p.operator ≡ op_in) × ((v : String) × (contains p.values v ≡ true))

-- On the key that both have, the lists agree on a value.
abbrev pub Shares : NodeSelectorRequirement → NodeSelectorRequirement → Type 0
Shares p t = t.key ≡ p.key → Found (admits t) p.values

Shares-compatible :
    (p t : NodeSelectorRequirement)
    → Lists p
    → Found (admits t) p.values
    → operators_compatible p t ≡ true
unfolding admits
Shares-compatible p t (listed, _) (v, m, hit) =
    operators_compatible_of_admits p t v (rw listed m) hit

all_compatible_in :
    (p : NodeSelectorRequirement) (tunnel : List NodeSelectorRequirement)
    → Lists p
    → (all_compatible p tunnel ≡ true) ↔ All (Shares p) tunnel
unfolding all_compatible
all_compatible_in p [] l = (λ e. tt, λ s. refl)
all_compatible_in p (t ∷ tunnel) l =
    let rest = all_compatible_in p tunnel l in
    elim (Bool-cases (t.key == p.key)) [
      | inr other ↦ rw other (
        λ c. (λ e. let same = (string_eq.same_iff t.key p.key).1 e in absurd cc, rest.0 c),
        λ s. rest.1 s.1,
      )
      | inl same ↦
          let e = (string_eq.same_iff t.key p.key).0 same in
          elim (Bool-cases (operators_compatible p t)) [
            | inl agree ↦
                rw (same, agree)
                  (
                    λ c. (λ _. operators_compatible_in p t l.1.0 l.0 l.1.1 agree, rest.0 c),
                    λ s. rest.1 s.1,
                  )
            | inr apart ↦
                rw (same, apart) (λ c. cc, λ s. let agree = Shares-compatible p t l (s.0 e) in cc)
          ]
    ]

-- Where every requirement of the first list is an In with a value, as those of instance types and
-- offerings are, Compatible finds no conflict exactly when, for each pair on one key, one of these values
-- meets the requirement of the tunnel.
pub compatible_in :
    (pool tunnel : List NodeSelectorRequirement)
    → All Lists pool
    → (compatible pool tunnel ≡ true) ↔ All (λ p. All (Shares p) tunnel) pool
unfolding compatible
compatible_in [] tunnel l = (λ e. tt, λ s. refl)
compatible_in (p ∷ pool) tunnel l =
    let first = all_compatible_in p tunnel l.0 in
    let rest = compatible_in pool tunnel l.1 in
    elim (Bool-cases (all_compatible p tunnel)) [
      | inl holds ↦ rw holds (λ c. (first.0 holds, rest.0 c), λ s. rest.1 s.1)
      | inr fails ↦ rw fails (λ c. cc, λ s. let holds = first.1 s.0 in cc)
    ]
