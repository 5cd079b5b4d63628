-- ===== src/Scheduling/Ports/Free.antt =====
-- The set that `computeFree` of ports.go builds, and the intervals that its entries denote.
use frp_operator.Prelude.{
  ℕ, zero, suc, ◌+◌, ◌-◌, ◌≤◌, ◌<◌, String, ◌≡◌, refl, ◌↔◌, ◌⊎◌, inl, inr, true, false, Option,
  none, some, List, [], ◌∷◌, arith, nat_eq, ◌==◌, ltb, if◌then◌else◌, add, contains, remove_all,
  contains-add, contains-remove_all, nat_beq_iff, Bool-cases,
}
use frp_operator.Prelude.Int.{ℤ, pos, negsuc}
use frp_operator.Text.{codes, trim_space, cut, atoi}
use frp_operator.Api.{Port}
use frp_operator.Scheduling.Ports.{
  to_int32, add_range, add_bounds, add_single, add_trimmed, add_specs, compute_free,
}

-- The interval of ports that an entry denotes, if it denotes one.
abbrev bounds : Option ℤ → Option ℤ → Option (ℕ × ℕ)
bounds (some (pos lo)) (some (pos hi)) = if ltb hi lo then none else some (lo, hi)
bounds _ _ = none

abbrev point : Option ℤ → Option (ℕ × ℕ)
point (some (pos n)) = some (n, n)
point _ = none

pub interval : List ℕ → Option (ℕ × ℕ)
interval [] = none
interval (c ∷ cs) = elim (cut b'-' (c ∷ cs)) [
  | none ↦ point (atoi (c ∷ cs))
  | some (lo, hi) ↦ bounds (atoi (trim_space lo)) (atoi (trim_space hi))
]

-- A port is the `int32` of a number of the interval.
abbrev pub Within : Option (ℕ × ℕ) → Port → Type 0
Within none p = ⊥
Within (some (lo, hi)) p = (n : ℕ) × (lo ≤ n) × (n ≤ hi) × (to_int32 n ≡ p)

abbrev pub Covered : List String → Port → Type 0
Covered [] p = ⊥
Covered (spec ∷ specs) p = Within (interval (trim_space (codes spec))) p ⊎ Covered specs p

contains-add_range_old :
    (rounds n : ℕ) (free : List Port) (p : Port)
    → contains free p ≡ true
    → contains (add_range n rounds free) p ≡ true
unfolding add_range
contains-add_range_old zero n free p h = h
contains-add_range_old (suc rounds) n free p h =
    contains-add_range_old rounds (n + 1) (add (to_int32 n) free) p
      (ground (arith, contains-add (to_int32 n) free p))

contains-add_range_new :
    (rounds n k : ℕ) (free : List Port)
    → n ≤ k
    → k < n + rounds
    → contains (add_range n rounds free) (to_int32 k) ≡ true
unfolding add_range
contains-add_range_new zero n k free h j = absurd (omega arith)
contains-add_range_new (suc rounds) n k free h j = elim (Bool-cases (n == k)) [
  | inl e ↦ contains-add_range_old rounds (n + 1) (add (to_int32 n) free) (to_int32 k) (
      let e' = (nat_beq_iff n k).0 e in ground (arith, contains-add (to_int32 n) free (to_int32 k)))
  | inr e ↦
      contains-add_range_new rounds (n + 1) k (add (to_int32 n) free) (ground arith) (omega arith)
]

contains-add_range :
    (rounds n : ℕ) (free : List Port) (p : Port)
    → contains (add_range n rounds free) p ≡ true
    → ((k : ℕ) × (n ≤ k) × (k < n + rounds) × (to_int32 k ≡ p)) ⊎ (contains free p ≡ true)
unfolding add_range
contains-add_range zero n free p h = inr h
contains-add_range (suc rounds) n free p h =
    elim (contains-add_range rounds (n + 1) (add (to_int32 n) free) p h) [
      | inl (k, a, b, e) ↦ inl (k, omega arith, omega arith, e)
      | inr old ↦ elim (Bool-cases (to_int32 n == p)) [
        | inl e ↦ inl (n, omega arith, omega arith, (nat_beq_iff (to_int32 n) p).0 e)
        | inr e ↦ inr (ground (arith, contains-add (to_int32 n) free p))
      ]
    ]

-- `after` has the ports of the interval and those of `before`.
abbrev Adds : Option (ℕ × ℕ) → List Port → List Port → Port → Type 0
Adds i before after p = (contains after p ≡ true) ↔ (Within i p ⊎ (contains before p ≡ true))

Adds-nothing : (free : List Port) (p : Port) → Adds none free free p
Adds-nothing free p = (λ h. inr h, λ h. elim h [ inl v ↦ absurd v | inr old ↦ old ])

add_range-Adds :
    (lo hi : ℕ) (free : List Port) (p : Port)
    → lo ≤ hi
    → Adds (some (lo, hi)) free (add_range lo (hi - lo + 1) free) p
add_range-Adds lo hi free p h = (
  λ c. elim (contains-add_range (hi - lo + 1) lo free p c) [
    | inl (k, a, b, e) ↦ inl (k, a, omega arith, e)
    | inr old ↦ inr old
  ],
  λ d. elim d [
    | inl (k, a, b, e) ↦ rw (← e) (contains-add_range_new (hi - lo + 1) lo k free a (omega arith))
    | inr old ↦ contains-add_range_old (hi - lo + 1) lo free p old
  ],
)

add_point-Adds :
    (n : ℕ) (free : List Port) (p : Port) → Adds (some (n, n)) free (add (to_int32 n) free) p
add_point-Adds n free p = (
  λ c. elim (Bool-cases (to_int32 n == p)) [
    | inl e ↦ inl (n, omega arith, omega arith, (nat_beq_iff (to_int32 n) p).0 e)
    | inr e ↦ inr (ground (arith, contains-add (to_int32 n) free p))
  ],
  λ d. elim d [
    | inl (k, a, b, e) ↦
        (let e' : to_int32 n ≡ p = let k' : k ≡ n = omega arith in rw (← k') e in
          ground (arith, contains-add (to_int32 n) free p))
    | inr old ↦ ground (arith, contains-add (to_int32 n) free p)
  ],
)

add_single-Adds :
    (o : Option ℤ) (free : List Port) (p : Port) → Adds (point o) free (add_single o free) p
unfolding add_single
add_single-Adds (some (pos n)) free p = add_point-Adds n free p
add_single-Adds none free p = Adds-nothing free p
add_single-Adds (some (negsuc n)) free p = Adds-nothing free p

add_bounds-Adds :
    (a b : Option ℤ) (free : List Port) (p : Port) → Adds (bounds a b) free (add_bounds a b free) p
unfolding add_bounds
add_bounds-Adds (some (pos lo)) (some (pos hi)) free p = elim (Bool-cases (ltb hi lo)) [
  | inl e ↦ rw e (Adds-nothing free p)
  | inr e ↦ rw e (add_range-Adds lo hi free p (ground arith))
]
add_bounds-Adds (some (pos lo)) (some (negsuc hi)) free p = Adds-nothing free p
add_bounds-Adds (some (pos lo)) none free p = Adds-nothing free p
add_bounds-Adds (some (negsuc lo)) b free p = Adds-nothing free p
add_bounds-Adds none b free p = Adds-nothing free p

add_trimmed-Adds :
    (cs : List ℕ) (free : List Port) (p : Port) → Adds (interval cs) free (add_trimmed cs free) p
unfolding add_trimmed interval
add_trimmed-Adds [] free p = Adds-nothing free p
add_trimmed-Adds (c ∷ cs) free p = go (cut b'-' (c ∷ cs)) refl
  where
    go :
        (o : Option (List ℕ × List ℕ))
        → cut b'-' (c ∷ cs) ≡ o
        → Adds (interval (c ∷ cs)) free (add_trimmed (c ∷ cs) free) p
    go none e = rw (e, interval, add_trimmed) (add_single-Adds (atoi (c ∷ cs)) free p)
    go (some (lo, hi)) e =
        rw (e, interval, add_trimmed)
          (add_bounds-Adds (atoi (trim_space lo)) (atoi (trim_space hi)) free p)

contains-add_specs :
    (specs : List String) (free : List Port) (p : Port)
    → (contains (add_specs specs free) p ≡ true) ↔ (Covered specs p ⊎ (contains free p ≡ true))
unfolding add_specs
contains-add_specs [] free p = Adds-nothing free p
contains-add_specs (spec ∷ specs) free p =
    let cs = trim_space (codes spec) in
    let step = add_trimmed-Adds cs free p in
    let rest = contains-add_specs specs (add_trimmed cs free) p in
    (
      λ h. elim (rest.0 h) [
        | inl later ↦ inl (inr later)
        | inr now ↦ elim (step.0 now) [ inl w ↦ inl (inl w) | inr old ↦ inr old ]
      ],
      λ d. elim d [
        | inl (inl w) ↦ rest.1 (inr (step.1 (inl w)))
        | inl (inr later) ↦ rest.1 (inl later)
        | inr old ↦ rest.1 (inr (step.1 (inr old)))
      ],
    )

-- A port is free just if an entry covers it and it is neither reserved nor used.
pub contains-compute_free :
    (allow : List String) (reserved used : List Port) (p : Port)
    → (contains (compute_free allow reserved used) p ≡ true)
      ↔ (Covered allow p × (contains reserved p ≡ false) × (contains used p ≡ false))
unfolding compute_free
contains-compute_free allow reserved used p =
    let all = contains-add_specs allow [] p in
    let less_reserved = contains-remove_all reserved (add_specs allow []) p in
    let less_used = contains-remove_all used (remove_all reserved (add_specs allow [])) p in
    (
      λ h. (
        elim (all.0 (ground (arith, less_reserved, less_used))) [
          | inl covered ↦ covered
          | inr none_before ↦ absurd (ground arith)
        ],
        ground (arith, less_reserved, less_used),
        ground (arith, less_reserved, less_used),
      ),
      λ (covered, unreserved, unused).
          let before = all.1 (inl covered) in ground (arith, less_reserved, less_used),
    )
