-- ===== src/Disruption/Methods/Caps.antt =====
-- How many candidates of one pool the commands of a method take, against the budget of the pool.
use frp_operator.Prelude.{
  map, ℕ, zero, suc, ◌+◌, ◌≤◌, String, ◌≡◌, refl, sym, ap, ◌∙◌, inl, inr, false, ◌||◌, List, [],
  ◌∷◌, ◌++◌, arith, string_eq, nat_eq, ◌==◌, ltb, length, take, contains, All, All-append,
  Bool-cases, if◌then◌else◌,
}
use frp_operator.Prelude.Maps.{keys}
use frp_operator.Api.{ExitClaim, DisruptionReason}
use frp_operator.Disruption.{Candidate, Command, BudgetMap, allowed}
use frp_operator.Disruption.Methods.{
  append_at, per_pool, capped, commands_of, emptiness_commands, commands_with_replacements,
  replacement_for_candidate,
}
use frp_operator.Api.{empty}

module _ {Q : Type 0} where
  -- The candidates of one pool.
  abbrev pub of_pool : String → List (Candidate Q) → ℕ
  of_pool name [] = 0
  of_pool name (c ∷ cs) =
      if c.pool.meta.name == name then suc (of_pool name cs) else of_pool name cs

  -- The candidates of one pool that the commands take.
  abbrev pub taken : String → List (Command Q) → ℕ
  taken name [] = 0
  taken name (cmd ∷ cmds) = of_pool name cmd.candidates + taken name cmds

  pub taken-append :
      (name : String) (xs ys : List (Command Q))
      → taken name (xs ++ ys) ≡ taken name xs + taken name ys
  taken-append name [] ys = omega arith
  taken-append name (x ∷ xs) ys = omega (arith, taken-append name xs ys)

  -- Each bucket holds candidates of its pool, and no pool has two buckets.
  abbrev pub Bucketed : List (String × List (Candidate Q)) → Type 0
  Bucketed [] = Unit
  Bucketed ((k, cs) ∷ groups) =
      All (λ (c : Candidate Q). c.pool.meta.name ≡ k) cs
      × (contains (keys groups) k ≡ false)
      × Bucketed groups

  contains-append_at :
      (name k : String) (c : Candidate Q) (groups : List (String × List (Candidate Q)))
      → contains (keys (append_at name c groups)) k ≡ (name == k || contains (keys groups) k)
  contains-append_at name k c [] = refl
  contains-append_at name k c ((j, cs) ∷ groups) =
      ground (arith, contains-append_at name k c groups, string_eq.same_iff j name)

  append_at-Bucketed :
      (c : Candidate Q) (groups : List (String × List (Candidate Q)))
      → Bucketed groups
      → Bucketed (append_at c.pool.meta.name c groups)
  append_at-Bucketed c [] b = ((refl, tt), refl, tt)
  append_at-Bucketed c ((k, cs) ∷ groups) b = elim (Bool-cases (k == c.pool.meta.name)) [
    | inl same ↦ rw same (
      All-append (λ (d : Candidate Q). d.pool.meta.name ≡ k) cs (c ∷ []) b.0
          (sym ((string_eq.same_iff k c.pool.meta.name).0 same), tt),
      b.1,
      b.2,
    )
    | inr other ↦ rw other (
      b.0,
      contains-append_at c.pool.meta.name k c groups
          ∙ ground (
            arith,
            string_eq.same_iff k c.pool.meta.name,
            string_eq.same_iff c.pool.meta.name k,
            b.1,
          ),
      append_at-Bucketed c groups b.2,
    )
  ]

  pub per_pool-Bucketed :
      (cs : List (Candidate Q)) (groups : List (String × List (Candidate Q)))
      → Bucketed groups
      → Bucketed (per_pool cs groups)
  unfolding per_pool
  per_pool-Bucketed [] groups b = b
  per_pool-Bucketed (c ∷ cs) groups b =
      per_pool-Bucketed cs (append_at c.pool.meta.name c groups) (append_at-Bucketed c groups b)

  pub of_pool-same :
      (name k : String) (cs : List (Candidate Q))
      → All (λ (c : Candidate Q). c.pool.meta.name ≡ k) cs
      → of_pool name cs ≡ (if k == name then length cs else 0)
  of_pool-same name k [] h = ground arith
  of_pool-same name k (c ∷ cs) h = rw (h.0) (ground (arith, of_pool-same name k cs h.1))

  All-take :
      (P : Candidate Q → Type 0) (n : ℕ) (cs : List (Candidate Q)) → All P cs → All P (take n cs)
  All-take P zero cs h = tt
  All-take P (suc n) [] h = tt
  All-take P (suc n) (c ∷ cs) h = (h.0, All-take P n cs h.1)

  length-take-le : (n : ℕ) (cs : List (Candidate Q)) → length (take n cs) ≤ n
  length-take-le zero cs = omega arith
  length-take-le (suc n) [] = omega arith
  length-take-le (suc n) (c ∷ cs) = omega (arith, length-take-le n cs)

  capped-le : (n : ℕ) (cs : List (Candidate Q)) → length (capped n cs) ≤ n
  capped-le n cs = ground (arith, length-take-le n cs)

  capped-All :
      (P : Candidate Q → Type 0) (n : ℕ) (cs : List (Candidate Q)) → All P cs → All P (capped n cs)
  capped-All P n cs h = elim (Bool-cases (ltb n (length cs))) [
    | inl e ↦ rw e (All-take P n cs h)
    | inr e ↦ rw e h
  ]

  of_pool-capped-le :
      (name k : String) (n : ℕ) (cs : List (Candidate Q))
      → All (λ (c : Candidate Q). c.pool.meta.name ≡ k) cs
      → of_pool name (capped n cs) ≤ (if k == name then n else 0)
  of_pool-capped-le name k n cs h =
      let held =
        of_pool-same name k (capped n cs)
          (capped-All (λ (c : Candidate Q). c.pool.meta.name ≡ k) n cs h) in
      elim (Bool-cases (k == name)) [
        | inl same ↦ rw same (omega (arith, capped-le n cs, rw same at held))
        | inr other ↦ rw other (omega (arith, rw other at held))
      ]

  module _ (method : String) (reason : DisruptionReason)
      (replace : List (Candidate Q) → List (ExitClaim Q)) (budgets : BudgetMap) where
    taken-step :
        (name k : String) (cs : List (Candidate Q)) (groups : List (String × List (Candidate Q)))
        → All (λ (c : Candidate Q). c.pool.meta.name ≡ k) cs
        → taken name (commands_of method reason replace budgets ((k, cs) ∷ groups))
          ≤ (if k == name then allowed k reason budgets else 0)
            + taken name (commands_of method reason replace budgets groups)
    unfolding commands_of
    taken-step name k cs groups h =
        let n = allowed k reason budgets in
        elim (Bool-cases (n == 0)) [
          | inl none_left ↦ rw none_left (omega arith)
          | inr some_left ↦ rw some_left (omega (arith, of_pool-capped-le name k n cs h))
        ]

    taken-commands_of :
        (name : String) (groups : List (String × List (Candidate Q)))
        → Bucketed groups
        → taken name (commands_of method reason replace budgets groups)
          ≤ (if contains (keys groups) name then allowed name reason budgets else 0)
    taken-commands_of name [] b = unfold commands_of in omega arith
    taken-commands_of name ((k, cs) ∷ groups) b =
        let rest = taken-commands_of name groups b.2 in
        let step = taken-step name k cs groups b.0 in
        elim (Bool-cases (k == name)) [
          | inl same ↦
              let e : k ≡ name = (string_eq.same_iff k name).0 same in
              ground (
                arith,
                ap (λ (m : String). contains (keys groups) m) e,
                ap (λ (m : String). allowed m reason budgets) e,
                b.1,
              )
          | inr other ↦ ground arith
        ]

    pub taken-per_pool :
        (name : String) (cs : List (Candidate Q))
        → taken name (commands_of method reason replace budgets (per_pool cs []))
          ≤ allowed name reason budgets
    taken-per_pool name cs =
        let h = taken-commands_of name (per_pool cs []) (per_pool-Bucketed cs [] tt) in ground arith

  -- Emptiness takes no more exits of a pool than its budget for the reason allows, whatever candidates it
  -- is given.
  pub emptiness_commands-le :
      (budgets : BudgetMap) (cs : List (Candidate Q)) (name : String)
      → taken name (emptiness_commands budgets cs) ≤ allowed name empty budgets
  unfolding emptiness_commands
  emptiness_commands-le budgets cs name = taken-per_pool "Emptiness" empty (λ _. []) budgets name cs

  -- A method that replaces what it takes down, Drift or Expiration, takes no more exits of a pool than its
  -- budget for the reason allows.
  pub commands_with_replacements-le :
      (method : String) (reason : DisruptionReason) (budgets : BudgetMap) (cs : List (Candidate Q))
      (name : String)
      → taken name (commands_with_replacements method reason budgets cs)
        ≤ allowed name reason budgets
  unfolding commands_with_replacements
  commands_with_replacements-le method reason budgets cs name =
      taken-per_pool method reason (map replacement_for_candidate) budgets name cs
