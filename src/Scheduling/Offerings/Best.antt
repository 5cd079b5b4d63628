-- ===== src/Scheduling/Offerings/Best.antt =====
-- The offering that `cheapestCompatibleOffering` of offering.go takes from one instance type.
use mathlib.Core.List.{Mem, mem-cons}
use mathlib.Core.Logic.Or
use frp_operator.Prelude.{
  ℕ, ◌≤◌, ◌≡◌, sym, subst, inl, inr, true, false, Option, none, some, List, [], ◌∷◌, arith, ltb,
  All, Bool-cases, ◌⊎◌,
}
use frp_operator.Api.{NodeSelectorRequirement}
use frp_operator.Cloudprovider.{Offering}
use frp_operator.Scheduling.Offerings.{usable, better, next_best, cheapest_from}

-- The best offering is at most the price of each.
abbrev pub AtMost : Option Offering → Offering → Type 0
AtMost none off = ⊥
AtMost (some best) off = best.price ≤ off.price

ltb-lt : (a b : ℕ) → ltb a b ≡ true → a ≤ b
ltb-lt a b h = ground arith

pub ltb-ge : (a b : ℕ) → ltb a b ≡ false → b ≤ a
ltb-ge a b h = ground arith

better_cases :
    (best : Option Offering) (o off : Offering)
    → better best o ≡ some off
    → (best ≡ some off) ⊎ (o ≡ off)
better_cases none o off e = inr (cc)
better_cases (some b) o off e = elim (Bool-cases (ltb o.price b.price)) [
  | inl less ↦ let e' : some o ≡ some off = rw less at e in inr (cc)
  | inr more ↦ inl (rw more at e)
]

module _ (pool_reqs tunnel_reqs : List NodeSelectorRequirement) where
  next_best-keeps :
      (best : Option Offering) (o off : Offering)
      → AtMost best off
      → AtMost (next_best pool_reqs tunnel_reqs best o) off
  unfolding next_best
  next_best-keeps none o off h = absurd h
  next_best-keeps (some b) o off h = elim (Bool-cases (usable pool_reqs tunnel_reqs o)) [
    | inl e ↦ rw e (elim (Bool-cases (ltb o.price b.price)) [
      | inl less ↦ rw less (omega (arith, ltb-lt o.price b.price less))
      | inr more ↦ rw more h
    ])
    | inr e ↦ rw e h
  ]

  next_best-AtMost :
      (best : Option Offering) (o : Offering)
      → usable pool_reqs tunnel_reqs o ≡ true
      → AtMost (next_best pool_reqs tunnel_reqs best o) o
  unfolding next_best
  next_best-AtMost none o u = rw u (omega arith)
  next_best-AtMost (some b) o u = rw u (elim (Bool-cases (ltb o.price b.price)) [
    | inl less ↦ rw less (omega arith)
    | inr more ↦ rw more (ltb-ge o.price b.price more)
  ])

  cheapest_from-keeps :
      (offs : List Offering) (best : Option Offering) (off : Offering)
      → AtMost best off
      → AtMost (cheapest_from pool_reqs tunnel_reqs best offs) off
  unfolding cheapest_from
  cheapest_from-keeps [] best off h = h
  cheapest_from-keeps (o ∷ offs) best off h =
      cheapest_from-keeps offs (next_best pool_reqs tunnel_reqs best o) off
        (next_best-keeps best o off h)

  -- Each usable offering of the list is no cheaper than the best.
  pub cheapest_from-AtMost :
      (offs : List Offering) (best : Option Offering)
      → All
          (λ off.
            usable pool_reqs tunnel_reqs off ≡ true
            → AtMost (cheapest_from pool_reqs tunnel_reqs best offs) off)
          offs
  unfolding cheapest_from
  cheapest_from-AtMost [] best = tt
  cheapest_from-AtMost (o ∷ offs) best = (
    λ u.
        cheapest_from-keeps offs (next_best pool_reqs tunnel_reqs best o) o
          (next_best-AtMost best o u),
    cheapest_from-AtMost offs (next_best pool_reqs tunnel_reqs best o),
  )

  next_best_cases :
      (best : Option Offering) (o off : Offering)
      → next_best pool_reqs tunnel_reqs best o ≡ some off
      → (best ≡ some off) ⊎ ((o ≡ off) × (usable pool_reqs tunnel_reqs o ≡ true))
  unfolding next_best
  next_best_cases best o off e = elim (Bool-cases (usable pool_reqs tunnel_reqs o)) [
    | inl u ↦ elim (better_cases best o off (rw u at e)) [ inl b ↦ inl b | inr s ↦ inr (s, u) ]
    | inr u ↦ inl (rw u at e)
  ]

  -- The best offering is the one at the start, or a usable one of the list.
  pub cheapest_from-origin :
      (offs : List Offering) (best : Option Offering) (off : Offering)
      → cheapest_from pool_reqs tunnel_reqs best offs ≡ some off
      → (best ≡ some off) ⊎ (Mem off offs × (usable pool_reqs tunnel_reqs off ≡ true))
  unfolding cheapest_from
  cheapest_from-origin [] best off e = inl e
  cheapest_from-origin (o ∷ offs) best off e =
      elim (cheapest_from-origin offs (next_best pool_reqs tunnel_reqs best o) off e) [
        | inl here ↦ elim (next_best_cases best o off here) [
          | inl before ↦ inl before
          | inr (same, u) ↦ inr (
            mem-cons.1 (Or.inl (sym same)),
            subst (λ x. usable pool_reqs tunnel_reqs x ≡ true) same u,
          )
        ]
        | inr (m, u) ↦ inr (mem-cons.1 (Or.inr m), u)
      ]
