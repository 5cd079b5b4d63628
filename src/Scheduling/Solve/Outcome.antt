-- ===== src/Scheduling/Solve/Outcome.antt =====
-- The bindings and errors that `Solve` of scheduler.go returns.
use frp_operator.Prelude.{
  ℕ, suc, ◌+◌, String, ◌≡◌, ◌≢◌, refl, sym, ap, ◌∙◌, ◌↔◌, ◌⊎◌, inl, inr, Bool, true, ◌||◌, Option,
  none, some, List, [], ◌∷◌, ◌++◌, arith, length, length-append, Option-cases, Bool-cases, Result,
  ok, err, nat_eq, string_eq, ◌==◌, nat_beq_iff, contains, map, subst,
}
use frp_operator.Prelude.Maps.{insert, keys}
use frp_operator.Api.{Quantity, ExitPool, Tunnel}
use frp_operator.Cloudprovider.{Registry}
use frp_operator.Scheduling.Exits.{
  SchedulingError, can_add, bind, can_add_inflight, bind_inflight, ExistingExit, InflightClaim,
  sort_by_load,
}
use frp_operator.Scheduling.Solve.{
  ClusterView, Binding, Solving, exit_name, pinned, pool_limits_exceeded, tunnel_key, all_scheduled,
  binding_of, place_existing, place_inflight, place_new, record_binding, add_to_new_claim,
  add_to_inflight_claim, add_tunnel, add_tunnels, start, results_of, solve, solve_pools, open_claim,
  try_pool,
}
use frp_operator.Scheduling.Exits.{
  no_pool, incompatible_requirements, limit_exceeded, new_claim_from_pool,
}
use frp_operator.Scheduling.Requirements.{compatible}
use frp_operator.Scheduling.Offerings.{select_instance_type}
use frp_operator.Prelude.{◌<◌, All, beq_refl}

Result-cases : {E A : Type 0} (r : Result E A) → ((a : A) × (r ≡ ok a)) ⊎ ((e : E) × (r ≡ err e))
Result-cases (ok a) = inl (a, refl)
Result-cases (err e) = inr (e, refl)

module _ {Q : Type 0} where
  -- The tunnel has a binding or an error.
  abbrev pub reported : List Binding → List (String × SchedulingError) → Tunnel Q → Bool
  reported bindings errors t =
      contains (map (λ (b : Binding). b.tunnel_key) bindings) (tunnel_key t)
      || contains (keys errors) (tunnel_key t)

module _ {Q : Type 0} ⦃q : Quantity Q⦄ (digest : String → String) (view : ClusterView Q)
    (registry : Option (Registry Q)) where
  -- One tunnel adds its binding, or its error.
  abbrev Placed : Tunnel Q → Solving Q → Solving Q → Type 0
  Placed t s s' =
      ((b : Binding) × (b.tunnel_key ≡ tunnel_key t)
        × (s'.bindings ≡ s.bindings ++ b ∷ [])
        × (s'.tunnel_errors ≡ s.tunnel_errors))
      ⊎ ((problem : SchedulingError) × (s'.bindings ≡ s.bindings)
          × (s'.tunnel_errors ≡ insert (tunnel_key t) problem s.tunnel_errors))

  place_existing-key :
      (t : Tunnel Q) (es es' : List (ExistingExit Q)) (b : Binding)
      → place_existing t es ≡ some (es', b)
      → b.tunnel_key ≡ tunnel_key t
  unfolding place_existing binding_of
  place_existing-key t [] es' b e = cc
  place_existing-key t (x ∷ es) es' b e = elim (Result-cases (can_add x t)) [
    | inl (a, h) ↦
        let e' : some (bind t a x ∷ es, binding_of t (exit_name x.state) a) ≡ some (es', b) =
          rw (h, place_existing) at e in
        let same : binding_of t (exit_name x.state) a ≡ b = cc in
        ap (λ (c : Binding). c.tunnel_key) (sym same)
    | inr (problem, h) ↦ elim (Option-cases (place_existing t es)) [
      | inl k ↦ let e' : none ≡ some (es', b) = rw (h, place_existing, k) at e in cc
      | inr ((es'', b'), k) ↦
          let e' : some (x ∷ es'', b') ≡ some (es', b) = rw (h, place_existing, k) at e in
          let same : b' ≡ b = cc in
          subst (λ (c : Binding). c.tunnel_key ≡ tunnel_key t) same
            (place_existing-key t es es'' b' k)
    ]
  ]

  place_inflight-key :
      (t : Tunnel Q) (cs cs' : List (InflightClaim Q)) (b : Binding)
      → place_inflight t cs ≡ some (cs', b)
      → b.tunnel_key ≡ tunnel_key t
  unfolding place_inflight binding_of
  place_inflight-key t [] cs' b e = cc
  place_inflight-key t (x ∷ cs) cs' b e = elim (Result-cases (can_add_inflight x t)) [
    | inl (a, h) ↦
        let e' : some (bind_inflight t a x ∷ cs, binding_of t x.name a) ≡ some (cs', b) =
          rw (h, place_inflight) at e in
        let same : binding_of t x.name a ≡ b = cc in ap (λ (c : Binding). c.tunnel_key) (sym same)
    | inr (problem, h) ↦ elim (Option-cases (place_inflight t cs)) [
      | inl k ↦ let e' : none ≡ some (cs', b) = rw (h, place_inflight, k) at e in cc
      | inr ((cs'', b'), k) ↦
          let e' : some (x ∷ cs'', b') ≡ some (cs', b) = rw (h, place_inflight, k) at e in
          let same : b' ≡ b = cc in
          subst (λ (c : Binding). c.tunnel_key ≡ tunnel_key t) same
            (place_inflight-key t cs cs'' b' k)
    ]
  ]

  open_claim-key :
      (t : Tunnel Q) (c c' : InflightClaim Q) (b : Binding)
      → open_claim t c ≡ ok (c', b)
      → b.tunnel_key ≡ tunnel_key t
  unfolding open_claim binding_of
  open_claim-key t c c' b e = elim (Result-cases (can_add_inflight c t)) [
    | inl (a, h) ↦
        let e' : ok (bind_inflight t a c, binding_of t c.name a) ≡ ok (c', b) =
          rw (h, open_claim) at e in
        let same : binding_of t c.name a ≡ b = cc in ap (λ (d : Binding). d.tunnel_key) (sym same)
    | inr (problem, h) ↦ let e' : err problem ≡ ok (c', b) = rw (h, open_claim) at e in cc
  ]

  try_pool-key :
      (t : Tunnel Q) (pool : ExitPool Q) (c : InflightClaim Q) (b : Binding)
      → try_pool digest view registry t pool ≡ ok (c, b)
      → b.tunnel_key ≡ tunnel_key t
  unfolding try_pool
  try_pool-key t pool c b e =
      elim (Bool-cases (compatible pool.spec.template.spec.requirements t.spec.requirements)) [
        | inr unmet ↦
            let e' : err incompatible_requirements ≡ ok (c, b) = rw (unmet, try_pool) at e in cc
        | inl met ↦ elim (Option-cases (pool_limits_exceeded view pool)) [
          | inr (dim, over) ↦
              let e' : err (limit_exceeded pool.meta.name dim) ≡ ok (c, b) =
                rw (met, over, try_pool) at e in
              cc
          | inl under ↦
              elim (Result-cases
                (select_instance_type registry pool t.spec.requirements t.spec.requests)) [
                  | inr (problem, h) ↦
                      let e' : err problem ≡ ok (c, b) = rw (met, under, h, try_pool) at e in cc
                  | inl (chosen, h) ↦
                      open_claim-key t
                        (pinned t chosen (new_claim_from_pool digest pool t.meta.uid)) c b
                        (rw (met, under, h, try_pool) at e)
                ]
        ]
      ]

  place_new-key :
      (t : Tunnel Q) (last_err : SchedulingError) (pools : List (ExitPool Q)) (c : InflightClaim Q)
      (b : Binding)
      → place_new digest view registry t last_err pools ≡ ok (c, b)
      → b.tunnel_key ≡ tunnel_key t
  unfolding place_new
  place_new-key t last_err [] c b e = cc
  place_new-key t last_err (pool ∷ pools) c b e =
      elim (Result-cases (try_pool digest view registry t pool)) [
        | inl ((c', b'), h) ↦
            let e' : ok (c', b') ≡ ok (c, b) = rw (h, place_new) at e in
            let same : b' ≡ b = cc in
            subst (λ (d : Binding). d.tunnel_key ≡ tunnel_key t) same (try_pool-key t pool c' b' h)
        | inr (problem, h) ↦ place_new-key t problem pools c b (rw (h, place_new) at e)
      ]

  add_to_new_claim-Placed :
      (t : Tunnel Q) (s : Solving Q) → Placed t s (add_to_new_claim digest view registry t s)
  unfolding add_to_new_claim record_binding
  add_to_new_claim-Placed t s =
      elim (Result-cases
        (place_new digest view registry t (no_pool (tunnel_key t)) (solve_pools view))) [
          | inl ((c, b), e) ↦
              rw (e, add_to_new_claim)
                (inl (
                  b,
                  place_new-key t (no_pool (tunnel_key t)) (solve_pools view) c b e,
                  refl,
                  refl,
                ))
          | inr (problem, e) ↦ rw (e, add_to_new_claim) (inr (problem, refl, refl))
        ]

  add_to_inflight_claim-Placed :
      (t : Tunnel Q) (s : Solving Q) → Placed t s (add_to_inflight_claim digest view registry t s)
  unfolding add_to_inflight_claim record_binding
  add_to_inflight_claim-Placed t s =
      elim (Option-cases (place_inflight t (sort_by_load s.inflight_claims))) [
        | inl e ↦
            rw (e, add_to_inflight_claim)
              (add_to_new_claim-Placed t
                (record s { inflight_claims = sort_by_load s.inflight_claims }))
        | inr ((cs, b), e) ↦
            rw (e, add_to_inflight_claim)
              (inl (b, place_inflight-key t (sort_by_load s.inflight_claims) cs b e, refl, refl))
      ]

  add_tunnel-Placed :
      (t : Tunnel Q) (s : Solving Q) → Placed t s (add_tunnel digest view registry t s)
  unfolding add_tunnel record_binding
  add_tunnel-Placed t s = elim (Option-cases (place_existing t s.existing_exits)) [
    | inl e ↦ rw (e, add_tunnel) (add_to_inflight_claim-Placed t s)
    | inr ((es, b), e) ↦
        rw (e, add_tunnel) (inl (b, place_existing-key t s.existing_exits es b e, refl, refl))
  ]

  insert_nonempty :
      (k : String) (problem : SchedulingError) (m : List (String × SchedulingError))
      → insert k problem m ≢ []
  insert_nonempty k problem [] e = cc
  insert_nonempty k problem ((j, p) ∷ m) e = elim (Bool-cases (j == k)) [
    | inl h ↦ let e' : (j, problem) ∷ m ≡ [] = rw h at e in cc
    | inr h ↦ let e' : (j, p) ∷ insert k problem m ≡ [] = rw h at e in cc
  ]

  -- After `n` tunnels: all are bound and there is no error, or fewer are bound and there is one.
  abbrev Tallies : ℕ → Solving Q → Type 0
  Tallies n s =
      ((length s.bindings ≡ n) × (s.tunnel_errors ≡ []))
      ⊎ ((length s.bindings < n) × (s.tunnel_errors ≢ []))

  Placed-Tallies :
      (t : Tunnel Q) (s s' : Solving Q) (n : ℕ) → Placed t s s' → Tallies n s → Tallies (suc n) s'
  Placed-Tallies t s s' n (inl (b, same, bound, errors)) (inl (count, none_yet)) =
      inl (omega (arith, ap length bound, length-append s.bindings (b ∷ [])), errors ∙ none_yet)
  Placed-Tallies t s s' n (inl (b, same, bound, errors)) (inr (count, some_yet)) = inr (
    omega (arith, ap length bound, length-append s.bindings (b ∷ [])),
    λ e. some_yet (sym errors ∙ e),
  )
  Placed-Tallies t s s' n (inr (problem, bound, errors)) h = inr (
    elim h [
      | inl (count, none_yet) ↦ omega (arith, ap length bound)
      | inr (count, some_yet) ↦ omega (arith, ap length bound)
    ],
    λ e. insert_nonempty (tunnel_key t) problem s.tunnel_errors (sym errors ∙ e),
  )

  add_tunnels-Tallies :
      (ts : List (Tunnel Q)) (s : Solving Q) (n : ℕ)
      → Tallies n s
      → Tallies (n + length ts) (add_tunnels digest view registry ts s)
  unfolding add_tunnels
  add_tunnels-Tallies [] s n h = subst (λ k. Tallies k s) (omega arith) h
  add_tunnels-Tallies (t ∷ ts) s n h =
      let s' = add_tunnel digest view registry t s in
      subst (λ k. Tallies k (add_tunnels digest view registry ts s')) (omega arith)
        (add_tunnels-Tallies ts s' (suc n) (Placed-Tallies t s s' n (add_tunnel-Placed t s) h))

  -- Solve reports every tunnel scheduled exactly when it records no error.
  pub all_scheduled_iff :
      (ts : List (Tunnel Q))
      → (all_scheduled (solve digest view registry ts) (length ts) ≡ true)
        ↔ ((solve digest view registry ts).tunnel_errors ≡ [])
  unfolding all_scheduled solve results_of start
  all_scheduled_iff ts =
      let s = add_tunnels digest view registry ts (start view) in
      elim (add_tunnels-Tallies ts (start view) 0 (inl (refl, refl))) [
        | inl (count, none_yet) ↦
            (λ _. none_yet, λ _. (nat_beq_iff (length s.bindings) (length ts)).1 (omega arith))
        | inr (count, some_yet) ↦ (
          λ h. absurd (let same = (nat_beq_iff (length s.bindings) (length ts)).0 h in omega arith),
          λ e. absurd (some_yet e),
        )
      ]

  contains-keys-insert :
      (k j : String) (problem : SchedulingError) (m : List (String × SchedulingError))
      → contains (keys (insert k problem m)) j ≡ (k == j || contains (keys m) j)
  contains-keys-insert k j problem [] = refl
  contains-keys-insert k j problem ((i, p) ∷ m) =
      ground (arith, contains-keys-insert k j problem m, string_eq.same_iff i k)

  contains-keys-snoc :
      (bs : List Binding) (b : Binding) (k : String)
      → contains (map (λ (c : Binding). c.tunnel_key) (bs ++ b ∷ [])) k
        ≡ (b.tunnel_key == k || contains (map (λ (c : Binding). c.tunnel_key) bs) k)
  contains-keys-snoc [] b k = refl
  contains-keys-snoc (c ∷ bs) b k = ground (arith, contains-keys-snoc bs b k)

  Placed-reported :
      (t u : Tunnel Q) (s s' : Solving Q)
      → Placed t s s'
      → reported s'.bindings s'.tunnel_errors u
        ≡ (tunnel_key t == tunnel_key u || reported s.bindings s.tunnel_errors u)
  Placed-reported t u s s' (inl (b, same, bound, errors)) =
      rw (bound, errors, sym same) (ground (arith, contains-keys-snoc s.bindings b (tunnel_key u)))
  Placed-reported t u s s' (inr (problem, bound, errors)) =
      rw (bound, errors)
        (ground (arith, contains-keys-insert (tunnel_key t) (tunnel_key u) problem s.tunnel_errors))

  add_tunnels-keeps :
      (ts : List (Tunnel Q)) (s : Solving Q) (u : Tunnel Q)
      → reported s.bindings s.tunnel_errors u ≡ true
      → (let s' = add_tunnels digest view registry ts s in reported s'.bindings s'.tunnel_errors u)
        ≡ true
  unfolding add_tunnels
  add_tunnels-keeps [] s u h = h
  add_tunnels-keeps (t ∷ ts) s u h =
      let s' = add_tunnel digest view registry t s in
      let step = Placed-reported t u s s' (add_tunnel-Placed t s) in
      add_tunnels-keeps ts s' u (ground arith)

  add_tunnels-reported :
      (ts : List (Tunnel Q)) (s : Solving Q)
      → (let s' = add_tunnels digest view registry ts s in
          All (λ u. reported s'.bindings s'.tunnel_errors u ≡ true) ts)
  unfolding add_tunnels
  add_tunnels-reported [] s = tt
  add_tunnels-reported (t ∷ ts) s =
      let s' = add_tunnel digest view registry t s in
      let step = Placed-reported t t s s' (add_tunnel-Placed t s) in
      (
        add_tunnels-keeps ts s' t (ground (arith, beq_refl (tunnel_key t))),
        add_tunnels-reported ts s',
      )

  -- Solve loses no tunnel: each one that it is given has a binding or an error under its key.
  pub solve-reported :
      (ts : List (Tunnel Q))
      → All
          (λ t.
            reported
              (solve digest view registry ts).bindings
              (solve digest view registry ts).tunnel_errors
              t
            ≡ true)
          ts
  unfolding solve results_of
  solve-reported ts = add_tunnels-reported ts (start view)
