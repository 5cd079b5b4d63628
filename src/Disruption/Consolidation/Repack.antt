-- ===== src/Disruption/Consolidation/Repack.antt =====
-- What CanRepackWithReplacement and CanRepack promise of a plan.
use frp_operator.Prelude.{
  ◌↔◌, ℕ, ◌<◌, ◌≤◌, ◌≡◌, refl, sym, ap, ◌∙◌, inl, inr, true, Option, some, List, [], ◌∷◌, ◌++◌,
  string_eq, nat_eq, length, Option-cases, Result, ok, Result-cases, All, ◌≢◌,
}
use frp_operator.Kube.{ApiError}
use frp_operator.Api.{ResourceList, ExitClaim, Quantity, ExitPool, Tunnel, Port}
use frp_operator.State.Cluster.{Cluster}
use frp_operator.Cloudprovider.{Registry, CloudProvider, InstanceType, provider_for}
use frp_operator.Scheduling.Resources.{sum}
use frp_operator.Scheduling.Exits.{ExistingExit, can_add, bind}
use frp_operator.Scheduling.Offerings.{Candidate as Choice, select_instance_type, pin_chosen}
use frp_operator.Disruption.{Candidate}
use frp_operator.Disruption.Consolidation.{RepackPlan, first_fit, pack_all}
use frp_operator.Disruption.Simulation.{
  candidate_cost, moveable, names, request_lists, combine_requirements, can_pack,
}

module _ {Q : Type 0} ⦃q : Quantity Q⦄ (c : Cluster Q) (registry : Option (Registry Q))
    (tunnels : Result ApiError (List (Tunnel Q))) where
  -- The replacement is made from the template of the pool, pinned to the instance type and the offering, and
  -- asks for these resources.
  pub record MadeFor (pool : ExitPool Q) (chosen : Choice Q) (requested : ResourceList Q)
      (claim : ExitClaim Q) : Type 0 where
    pub pinned :
        claim.spec.requirements
        ≡ pool.spec.template.spec.requirements ++ pin_chosen chosen.it chosen.offering
    pub requests : claim.spec.requests ≡ requested
    pub class : claim.spec.provider_class_ref ≡ pool.spec.template.spec.provider_class_ref
    pub frps : claim.spec.frps ≡ pool.spec.template.spec.frps

  -- What a plan rests on: the catalog of the pool's provider with prices of all candidates, and an offering
  -- that all tunnels of the candidates fit and that costs less than the candidates.
  pub record Worthwhile (pool : ExitPool Q) (cands : List (Candidate Q)) (plan : RepackPlan Q)
      : Type 0 where
    pub registered : Registry Q
    pub provider : CloudProvider Q
    pub catalog : List (InstanceType Q)
    pub configured : registry ≡ some registered
    pub known :
        provider_for pool.spec.template.spec.provider_class_ref.kind registered ≡ some provider
    pub offered : provider.get_instance_types pool ≡ some catalog
    pub listed : List (Tunnel Q)
    pub chosen : Choice Q
    pub tunnels_listed : tunnels ≡ ok listed
    pub priced : candidate_cost catalog cands ≡ some plan.candidates_cost
    pub selected :
        select_instance_type registry pool
          (combine_requirements (moveable (names cands) listed))
          (sum (request_lists (moveable (names cands) listed)))
        ≡ ok chosen
    pub price : chosen.offering.price ≡ plan.replacement_cost
    pub made :
        MadeFor pool chosen (sum (request_lists (moveable (names cands) listed))) plan.replacement
    pub cheaper : plan.replacement_cost < plan.candidates_cost
    pub packs : can_pack plan.replacement [] (moveable (names cands) listed) ≡ true
    pub several : 2 ≤ length cands

  abbrev Fits : ExitPool Q → ℕ → List (Tunnel Q) → Choice Q → RepackPlan Q → Type 0
  Fits pool cost moved chosen plan =
      MadeFor pool chosen (sum (request_lists moved)) plan.replacement
      × (plan.candidates_cost ≡ cost)
      × (chosen.offering.price ≡ plan.replacement_cost)
      × (plan.replacement_cost < plan.candidates_cost)
      × (can_pack plan.replacement [] moved ≡ true)

-- What packing the tunnels one by one on the first exit that takes each comes to: the exits before that
-- one refuse the tunnel.
module _ {Q : Type 0} ⦃q : Quantity Q⦄ where
  pub record FirstFit (t : Tunnel Q) (exits out : List (ExistingExit Q)) : Type 0 where
    pub before : List (ExistingExit Q)
    pub place : ExistingExit Q
    pub behind : List (ExistingExit Q)
    pub assigned : List Port
    pub split : exits ≡ before ++ place ∷ behind
    pub refused : All (λ (e : ExistingExit Q). (ps : List Port) → can_add e t ≢ ok ps) before
    pub accepted : can_add place t ≡ ok assigned
    pub outcome : out ≡ before ++ bind t assigned place ∷ behind

  abbrev pub Packs : List (Tunnel Q) → List (ExistingExit Q) → List (ExistingExit Q) → Type 0
  Packs [] exits out = out ≡ exits
  Packs (t ∷ ts) exits out = (mid : List (ExistingExit Q)) × FirstFit t exits mid × Packs ts mid out

  first_fit-FirstFit :
      (t : Tunnel Q) (exits out : List (ExistingExit Q))
      → first_fit t exits ≡ some out
      → FirstFit t exits out
  unfolding first_fit
  first_fit-FirstFit t [] out h = cc
  first_fit-FirstFit t (e ∷ exits) out h = elim (Result-cases (can_add e t)) [
    | inl (ports, takes) ↦
        let g = rw (first_fit, takes) at h in
        record {
          before = [];
          place = e;
          behind = exits;
          assigned = ports;
          split = refl;
          refused = tt;
          accepted = takes;
          outcome = cc;
        }
    | inr (problem, turns_down) ↦ elim (Option-cases (first_fit t exits)) [
      | inl nowhere ↦ let g = rw (first_fit, turns_down, nowhere) at h in cc
      | inr (rest, later) ↦
          let g = rw (first_fit, turns_down, later) at h in
          let f = first_fit-FirstFit t exits rest later in
          record {
            before = e ∷ f.before;
            place = f.place;
            behind = f.behind;
            assigned = f.assigned;
            split = ap (λ (es : List (ExistingExit Q)). e ∷ es) f.split;
            refused = (λ ps takes. cc, f.refused);
            accepted = f.accepted;
            outcome =
                let o = f.outcome in
                let joined : e ∷ rest ≡ out = cc in
                sym joined ∙ ap (λ (es : List (ExistingExit Q)). e ∷ es) f.outcome;
          }
    ]
  ]

  first_fit_at :
      (t : Tunnel Q) (before : List (ExistingExit Q)) (place : ExistingExit Q)
      (behind : List (ExistingExit Q)) (ports : List Port)
      → All (λ (e : ExistingExit Q). (ps : List Port) → can_add e t ≢ ok ps) before
      → can_add place t ≡ ok ports
      → first_fit t (before ++ place ∷ behind) ≡ some (before ++ bind t ports place ∷ behind)
  unfolding first_fit
  first_fit_at t [] place behind ports refused takes = rw (first_fit, takes) refl
  first_fit_at t (e ∷ before) place behind ports refused takes = elim (Result-cases (can_add e t)) [
    | inl (ps, fits) ↦ absurd (refused.0 ps fits)
    | inr (problem, turns_down) ↦
        let later = first_fit_at t before place behind ports (refused.1) takes in
        rw (first_fit, turns_down, later) refl
  ]

  first_fit_total :
      (t : Tunnel Q) (exits out : List (ExistingExit Q))
      → FirstFit t exits out
      → first_fit t exits ≡ some out
  first_fit_total t exits out f =
      ap (λ (es : List (ExistingExit Q)). first_fit t es) f.split
      ∙ first_fit_at t f.before f.place f.behind f.assigned f.refused f.accepted
      ∙ ap (λ (es : List (ExistingExit Q)). some es) (sym f.outcome)

  pack_all-Packs :
      (ts : List (Tunnel Q)) (exits out : List (ExistingExit Q))
      → pack_all ts exits ≡ ok out
      → Packs ts exits out
  unfolding pack_all
  pack_all-Packs [] exits out h = cc
  pack_all-Packs (t ∷ ts) exits out h = elim (Option-cases (first_fit t exits)) [
    | inl nowhere ↦ let g = rw (pack_all, nowhere) at h in cc
    | inr (mid, found) ↦ (
      mid,
      first_fit-FirstFit t exits mid found,
      pack_all-Packs ts mid out (rw (pack_all, found) at h),
    )
  ]

  pack_all_total :
      (ts : List (Tunnel Q)) (exits out : List (ExistingExit Q))
      → Packs ts exits out
      → pack_all ts exits ≡ ok out
  unfolding pack_all
  pack_all_total [] exits out same = ap (λ (es : List (ExistingExit Q)). ok es) (sym same)
  pack_all_total (t ∷ ts) exits out (mid, f, rest) =
      let found = first_fit_total t exits mid f in
      rw (pack_all, found) (pack_all_total ts mid out rest)

  -- CanRepack packs by first fit: it ends with certain exits exactly when they come from the given ones
  -- by putting each tunnel in turn, with the ports that CanAdd gives it, on the first exit that takes it.
  pub pack_all_iff :
      (ts : List (Tunnel Q)) (exits out : List (ExistingExit Q))
      → (pack_all ts exits ≡ ok out) ↔ Packs ts exits out
  pack_all_iff ts exits out = (pack_all-Packs ts exits out, pack_all_total ts exits out)
