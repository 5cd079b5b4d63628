-- ===== src/Scheduling/Offerings/Cheapest.antt =====
-- The choice that `SelectInstanceType` of offering.go makes.
use mathlib.Core.List.{Mem, mem-cons, mem-cons_self}
use mathlib.Core.List.Perm
use mathlib.Core.Logic.Or
use native.Mathlib.Bridge.{le_prop}
use mathlib.Core.Bool.{Bool-set}
use native.Mathlib.Nat.{le_trans}
use frp_operator.Prelude.{
  String, ◌≤◌, ◌≡◌, refl, sym, subst, inl, inr, true, false, Option, none, some, List, [], ◌∷◌,
  arith, All, Bool-cases, Option-cases, ok, All-map, ◌∙◌, Perm, ap,
}
use frp_operator.Prelude.Sort.{
  slice_stable, slice_stable-perm, slice_stable-Sorted, Sorted, IsStrict,
}
use frp_operator.Prelude.Perms.{All-mem}
use frp_operator.Api.{NodeSelectorRequirement, ResourceList, Quantity, ExitPool}
use frp_operator.Cloudprovider.{Offering, InstanceType, CloudProvider, Registry, provider_for}
use frp_operator.Scheduling.Offerings.{
  Candidate, usable, cheapest_from, cheapest_compatible_offering, suits, candidates, cheaper,
  choose, first_of_sorted, select_instance_type, with_offering,
}
use frp_operator.Scheduling.Offerings.Best.{ltb-ge, cheapest_from-AtMost, cheapest_from-origin}

cheaper-IsStrict : {Q : Type 0} → IsStrict (cheaper {Q = Q})
unfolding cheaper
cheaper-IsStrict = record {
  asymmetric = λ x y h. ground arith;
  not_less_trans = λ x y z h k. ground arith;
}

module _ {Q : Type 0} ⦃q : Quantity Q⦄ (pool_reqs tunnel_reqs : List NodeSelectorRequirement)
    (requested : ResourceList Q) where
  -- The choice stands in the catalog and suits.
  pub record IsSuitable (its : List (InstanceType Q)) (c : Candidate Q) : Type 0 where
    pub listed : Mem c.it its
    pub suitable : suits pool_reqs tunnel_reqs requested c.it ≡ true
    pub offered : Mem c.offering c.it.offerings
    pub can_use : usable pool_reqs tunnel_reqs c.offering ≡ true

  -- It costs no more than any usable offering of a suitable instance type.
  abbrev pub IsCheapest : List (InstanceType Q) → Candidate Q → Type 0
  IsCheapest its c =
      All
        (λ it.
          suits pool_reqs tunnel_reqs requested it ≡ true
          → All (λ off. usable pool_reqs tunnel_reqs off ≡ true → c.offering.price ≤ off.price)
              it.offerings)
        its

  IsSuitable-prop : (its : List (InstanceType Q)) (c : Candidate Q) → IsProp (IsSuitable its c)
  IsSuitable-prop its c = hlevel (Bool-set)

  IsSuitable-cons :
      (it : InstanceType Q) (its : List (InstanceType Q)) (c : Candidate Q)
      → IsSuitable its c
      → IsSuitable (it ∷ its) c
  IsSuitable-cons it its c s = record {
    listed = mem-cons.1 (Or.inr s.listed);
    suitable = s.suitable;
    offered = s.offered;
    can_use = s.can_use;
  }

  candidates-IsSuitable :
      (its : List (InstanceType Q))
      → All (IsSuitable its) (candidates pool_reqs tunnel_reqs requested its)
  unfolding candidates cheapest_compatible_offering
  candidates-IsSuitable [] = tt
  candidates-IsSuitable (it ∷ its) =
      let rest =
        All-map (candidates pool_reqs tunnel_reqs requested its) (IsSuitable-cons it its)
          (candidates-IsSuitable its) in
      elim (Bool-cases (suits pool_reqs tunnel_reqs requested it)) [
        | inl u ↦
            rw u (elim (Option-cases (cheapest_from pool_reqs tunnel_reqs none it.offerings)) [
              | inl e ↦ rw e rest
              | inr (off, e) ↦
                  rw e (elim (cheapest_from-origin pool_reqs tunnel_reqs it.offerings none off e) [
                    | inl impossible ↦ cc
                    | inr (m, can) ↦ (
                      record { listed = mem-cons_self; suitable = u; offered = m; can_use = can },
                      rest,
                    )
                  ])
            ])
        | inr u ↦ rw u rest
      ]

  -- Some candidate of the list costs no more than the offering.
  abbrev Beats : List (Candidate Q) → Offering → Type 0
  Beats cs off = (c : Candidate Q) × Mem c cs × (c.offering.price ≤ off.price)

  abbrev Covers : List (Candidate Q) → InstanceType Q → Type 0
  Covers cs it =
      suits pool_reqs tunnel_reqs requested it ≡ true
      → All (λ off. usable pool_reqs tunnel_reqs off ≡ true → Beats cs off) it.offerings

  Covers-more :
      (cs ds : List (Candidate Q)) (it : InstanceType Q)
      → ((c : Candidate Q) → Mem c cs → Mem c ds)
      → Covers cs it
      → Covers ds it
  Covers-more cs ds it sub h s =
      All-map it.offerings (λ off k u. let (c, m, le) = k u in (c, sub c m, le)) (h s)

  head-Covers :
      (it : InstanceType Q) (best : Option Offering) (rest : List (Candidate Q))
      → cheapest_from pool_reqs tunnel_reqs none it.offerings ≡ best
      → Covers (with_offering it best rest) it
  head-Covers it none rest e s =
      All-map it.offerings (λ off k u. absurd (rw e at (k u)))
        (cheapest_from-AtMost pool_reqs tunnel_reqs it.offerings none)
  head-Covers it (some b) rest e s =
      All-map it.offerings
        (λ off k u. (record { it = it; offering = b }, mem-cons_self, rw e at (k u)))
        (cheapest_from-AtMost pool_reqs tunnel_reqs it.offerings none)

  with_offering-sub :
      (it : InstanceType Q) (best : Option Offering) (rest : List (Candidate Q)) (c : Candidate Q)
      → Mem c rest
      → Mem c (with_offering it best rest)
  with_offering-sub it none rest c m = m
  with_offering-sub it (some b) rest c m = mem-cons.1 (Or.inr m)

  candidates-suited :
      (it : InstanceType Q) (its : List (InstanceType Q))
      → suits pool_reqs tunnel_reqs requested it ≡ true
      → with_offering it
          (cheapest_from pool_reqs tunnel_reqs none it.offerings)
          (candidates pool_reqs tunnel_reqs requested its)
        ≡ candidates pool_reqs tunnel_reqs requested (it ∷ its)
  unfolding candidates cheapest_compatible_offering
  candidates-suited it its u = rw u refl

  candidates-unsuited :
      (it : InstanceType Q) (its : List (InstanceType Q))
      → suits pool_reqs tunnel_reqs requested it ≡ false
      → candidates pool_reqs tunnel_reqs requested its
        ≡ candidates pool_reqs tunnel_reqs requested (it ∷ its)
  unfolding candidates
  candidates-unsuited it its u = rw u refl

  candidates-Covers :
      (its : List (InstanceType Q))
      → All (Covers (candidates pool_reqs tunnel_reqs requested its)) its
  candidates-Covers [] = tt
  candidates-Covers (it ∷ its) =
      let rest = candidates pool_reqs tunnel_reqs requested its in
      elim (Bool-cases (suits pool_reqs tunnel_reqs requested it)) [
        | inl u ↦
            let best = cheapest_from pool_reqs tunnel_reqs none it.offerings in
            subst (λ cs. All (Covers cs) (it ∷ its)) (candidates-suited it its u)
              (
                head-Covers it best rest refl,
                All-map its
                    (λ it'.
                      Covers-more rest (with_offering it best rest) it'
                        (with_offering-sub it best rest))
                    (candidates-Covers its),
              )
        | inr u ↦
            subst (λ cs. All (Covers cs) (it ∷ its)) (candidates-unsuited it its u)
              (λ s. absurd_bool (sym s ∙ u), candidates-Covers its)
      ]
    where
      absurd_bool : {A : Type 0} → true ≡ false → A
      absurd_bool e = cc

  -- The head of the sorted candidates costs no more than any of them.
  sorted_head :
      (cs : List (Candidate Q)) (c : Candidate Q) (rest : List (Candidate Q)) (d : Candidate Q)
      → slice_stable cheaper cs ≡ c ∷ rest
      → Mem d cs
      → Mem c cs × (c.offering.price ≤ d.offering.price)
  unfolding cheaper
  sorted_head cs c rest d e m =
      let p : Perm (c ∷ rest) cs = subst (λ l. Perm l cs) e (slice_stable-perm cheaper cs) in
      let s : Sorted cheaper (c ∷ rest) =
        subst (λ l. Sorted cheaper l) e (slice_stable-Sorted cheaper cheaper-IsStrict cs) in
      (
        (Perm.mem_iff p).0 mem-cons_self,
        Or.elim le_prop (mem-cons.0 ((Perm.mem_iff p).1 m)) (λ same. rw same (omega arith))
            (λ later.
              ltb-ge d.offering.price c.offering.price
                (All-mem (λ y. cheaper y c ≡ false) (λ _. Bool-set _ _) rest d s.0 later)),
      )

  choose-best :
      (pool_name : String) (its : List (InstanceType Q)) (cs : List (Candidate Q)) (c : Candidate Q)
      → choose pool_name its cs ≡ ok c
      → (rest : List (Candidate Q)) × (slice_stable cheaper cs ≡ c ∷ rest)
  unfolding choose first_of_sorted
  choose-best pool_name [] cs c e = cc
  choose-best pool_name (it ∷ its) cs c e = go (slice_stable cheaper cs) refl e
    where
      go :
          (l : List (Candidate Q))
          → slice_stable cheaper cs ≡ l
          → first_of_sorted pool_name l ≡ ok c
          → (rest : List (Candidate Q)) × (slice_stable cheaper cs ≡ c ∷ rest)
      go [] e' h = cc
      go (d ∷ rest) e' h = (rest, e' ∙ ap (λ x. x ∷ rest) (cc))

-- What SelectInstanceType returns stands in the provider's catalog, suits pool, tunnel and request with
-- a usable offering, and costs no more than any usable offering of any suitable instance type.
pub select_instance_type-IsCheapest :
    {Q : Type 0} ⦃q : Quantity Q⦄ (reg : Registry Q) (cp : CloudProvider Q) (pool : ExitPool Q)
    (its : List (InstanceType Q)) (tunnel_reqs : List NodeSelectorRequirement)
    (requested : ResourceList Q) (c : Candidate Q)
    → provider_for pool.spec.template.spec.provider_class_ref.kind reg ≡ some cp
    → cp.get_instance_types pool ≡ some its
    → select_instance_type (some reg) pool tunnel_reqs requested ≡ ok c
    → IsSuitable pool.spec.template.spec.requirements tunnel_reqs requested its c
      × IsCheapest pool.spec.template.spec.requirements tunnel_reqs requested its c
unfolding select_instance_type
select_instance_type-IsCheapest reg cp pool its tunnel_reqs requested c found catalog e =
    let pool_reqs = pool.spec.template.spec.requirements in
    let cs = candidates pool_reqs tunnel_reqs requested its in
    let e' : choose pool.meta.name its cs ≡ ok c = rw (found, catalog, select_instance_type) at e in
    let (rest, sorted) = choose-best pool_reqs tunnel_reqs requested pool.meta.name its cs c e' in
    let head_in : Mem c cs =
      (Perm.mem_iff (subst (λ l. Perm l cs) sorted (slice_stable-perm cheaper cs))).0
        mem-cons_self in
    (
      All-mem (IsSuitable pool_reqs tunnel_reqs requested its)
          (λ d. IsSuitable-prop pool_reqs tunnel_reqs requested its d) cs c
          (candidates-IsSuitable pool_reqs tunnel_reqs requested its) head_in,
      All-map its
          (λ it covers s.
            All-map it.offerings
              (λ off beaten u.
                let (d, m, le) = beaten u in
                le_trans (sorted_head pool_reqs tunnel_reqs requested cs c rest d sorted m).1 le)
              (covers s))
          (candidates-Covers pool_reqs tunnel_reqs requested its),
    )
