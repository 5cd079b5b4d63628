-- ===== src/Scheduling/Ports/Loop.antt =====
-- The loop of `computeFree` of ports.go as it runs, with an `int` that wraps around: a bit pattern of 64
-- bits, and rounds as fuel. `none` is a loop that is still running.
use frp_operator.Prelude.{
  ℕ, nat_eq, zero, suc, ◌+◌, ◌-◌, ◌%◌, ◌≤◌, ◌<◌, inl, inr, Option-cases, String, ◌≡◌, refl, Bool,
  true, false, Option, none, some, List, [], ◌∷◌, arith, leb, ltb, add, All, Bool-cases,
  if◌then◌else◌, remove_all, map,
}
use frp_operator.Prelude.Int.{ℤ, pos, negsuc}
use frp_operator.Text.{codes, trim_space, cut, atoi}
use frp_operator.Api.{Port, TunnelPort}
use frp_operator.Scheduling.Ports.{
  to_int32, add_range, add_bounds, add_single, add_trimmed, add_specs, compute_free, wanted,
  claim_explicit, assign_autos, resolve_auto_assign,
}

-- `p++` on `int`.
next_int : ℕ → ℕ
next_int p = (p + 1) % 18446744073709551616

-- `p <= hi` on `int`: the sign bit flipped makes it the order of the patterns.
int_le : ℕ → ℕ → Bool
int_le p hi =
    leb ((p + 9223372036854775808) % 18446744073709551616)
      ((hi + 9223372036854775808) % 18446744073709551616)

-- for p := lo; p <= hi; p++ { free[int32(p)] = struct{}{} }.
pub range_loop : ℕ → ℕ → ℕ → List Port → Option (List Port)
unfolding next_int int_le to_int32
range_loop zero p hi free = none
range_loop (suc fuel) p hi free =
    let rest = range_loop fuel (next_int p) hi (add (to_int32 p) free) in
    if int_le p hi then rest else some free

bounds_loop : ℕ → Option ℤ → Option ℤ → List Port → Option (List Port)
unfolding range_loop
bounds_loop fuel (some (pos lo)) (some (pos hi)) free =
    if ltb hi lo then some free else range_loop fuel lo hi free
bounds_loop fuel _ _ free = some free

trimmed_loop : ℕ → List ℕ → List Port → Option (List Port)
unfolding cut atoi trim_space bounds_loop add_single
trimmed_loop fuel [] free = some free
trimmed_loop fuel (c ∷ cs) free = elim (cut b'-' (c ∷ cs)) [
  | none ↦ some (add_single (atoi (c ∷ cs)) free)
  | some (lo, hi) ↦ bounds_loop fuel (atoi (trim_space lo)) (atoi (trim_space hi)) free
]

specs_loop : ℕ → List String → List Port → Option (List Port)
unfolding trimmed_loop
specs_loop fuel [] free = some free
specs_loop fuel (spec ∷ specs) free = elim (trimmed_loop fuel (trim_space (codes spec)) free) [
  | none ↦ none
  | some free' ↦ specs_loop fuel specs free'
]

-- `computeFree`, as it runs.
pub free_loop : ℕ → List String → List Port → List Port → Option (List Port)
unfolding specs_loop
free_loop fuel allow reserved used = elim (specs_loop fuel allow []) [
  | none ↦ none
  | some free ↦ some (remove_all used (remove_all reserved free))
]

abbrev pub resolve_with : List Port → List TunnelPort → Option (List Port)
resolve_with free requested = elim (claim_explicit free (map wanted requested)) [
  | none ↦ none
  | some c ↦ assign_autos c
]

-- `ResolveAutoAssign`, as it runs.
pub resolve_loop :
    ℕ → List String → List Port → List Port → List TunnelPort → Option (Option (List Port))
unfolding free_loop
resolve_loop fuel allow reserved used requested = elim (free_loop fuel allow reserved used) [
  | none ↦ none
  | some free ↦ some (resolve_with free requested)
]

-- The upper end of a range is below the greatest `int`.
abbrev pub RangeEnds : Option ℤ → Option ℤ → Type 0
RangeEnds (some (pos lo)) (some (pos hi)) = hi < 9223372036854775807
RangeEnds _ _ = Unit

abbrev pub TrimmedEnds : List ℕ → Type 0
TrimmedEnds [] = Unit
TrimmedEnds (c ∷ cs) = elim (cut b'-' (c ∷ cs)) [
  | none ↦ Unit
  | some (lo, hi) ↦ RangeEnds (atoi (trim_space lo)) (atoi (trim_space hi))
]

-- No entry is a range up to the greatest `int`.
abbrev pub Ends : String → Type 0
Ends spec = TrimmedEnds (trim_space (codes spec))

in_range : (p hi : ℕ) → hi < 9223372036854775807 → p ≤ hi → int_le p hi ≡ true
unfolding int_le
in_range p hi h k = ground arith

past_range : (p hi : ℕ) → hi < 9223372036854775807 → p ≡ hi + 1 → int_le p hi ≡ false
unfolding int_le
past_range p hi h k = ground arith

next_int_small : (p : ℕ) → p < 9223372036854775807 → next_int p ≡ p + 1
unfolding next_int
next_int_small p h = omega arith

-- Below the greatest `int` a loop ends with the ports of the range.
range_loop_ends :
    (fuel rounds p hi : ℕ) (free : List Port)
    → rounds < fuel
    → p + rounds ≡ hi + 1
    → hi < 9223372036854775807
    → range_loop fuel p hi free ≡ some (add_range p rounds free)
unfolding range_loop add_range
range_loop_ends zero rounds p hi free enough e h = absurd (omega arith)
range_loop_ends (suc fuel) zero p hi free enough e h =
    rw (range_loop, past_range p hi h (omega arith)) refl
range_loop_ends (suc fuel) (suc rounds) p hi free enough e h =
    rw (range_loop, in_range p hi h (omega arith), next_int_small p (omega arith))
      (range_loop_ends fuel rounds (p + 1) hi (add (to_int32 p) free) (omega arith) (omega arith) h)

below_greatest : (p : ℕ) → int_le p 9223372036854775807 ≡ true
unfolding int_le
below_greatest p = ground arith

-- A loop up to the greatest `int` never ends.
pub range_loop_diverges :
    (fuel p : ℕ) (free : List Port) → range_loop fuel p 9223372036854775807 free ≡ none
unfolding range_loop
range_loop_diverges zero p free = refl
range_loop_diverges (suc fuel) p free =
    rw (range_loop, below_greatest p)
      (range_loop_diverges fuel (next_int p) (add (to_int32 p) free))

module _ (fuel : ℕ) (enough : 9223372036854775808 ≤ fuel) where
  bounds_loop_ends :
      (a b : Option ℤ) (free : List Port)
      → RangeEnds a b
      → bounds_loop fuel a b free ≡ some (add_bounds a b free)
  unfolding bounds_loop add_bounds
  bounds_loop_ends (some (pos lo)) (some (pos hi)) free h = elim (Bool-cases (ltb hi lo)) [
    | inl empty ↦ rw (bounds_loop, empty) refl
    | inr full ↦
        rw (bounds_loop, full)
          (range_loop_ends fuel (hi - lo + 1) lo hi free (omega arith) (ground arith) h)
  ]
  bounds_loop_ends (some (pos lo)) (some (negsuc hi)) free h = refl
  bounds_loop_ends (some (pos lo)) none free h = refl
  bounds_loop_ends (some (negsuc lo)) b free h = refl
  bounds_loop_ends none b free h = refl

  trimmed_loop_ends :
      (cs : List ℕ) (free : List Port)
      → TrimmedEnds cs
      → trimmed_loop fuel cs free ≡ some (add_trimmed cs free)
  unfolding trimmed_loop add_trimmed
  trimmed_loop_ends [] free h = refl
  trimmed_loop_ends (c ∷ cs) free h = elim (Option-cases (cut b'-' (c ∷ cs))) [
    | inl single ↦ rw (trimmed_loop, single, add_trimmed) refl
    | inr ((lo, hi), range) ↦
        rw (trimmed_loop, range, add_trimmed)
          (bounds_loop_ends (atoi (trim_space lo)) (atoi (trim_space hi)) free
            (rw (range, TrimmedEnds) at h))
  ]

  specs_loop-Ends :
      (specs : List String) (free : List Port)
      → All Ends specs
      → specs_loop fuel specs free ≡ some (add_specs specs free)
  unfolding specs_loop add_specs
  specs_loop-Ends [] free h = refl
  specs_loop-Ends (spec ∷ specs) free h =
      rw (specs_loop, trimmed_loop_ends (trim_space (codes spec)) free h.0)
        (specs_loop-Ends specs (add_trimmed (trim_space (codes spec)) free) h.1)

  -- Where no entry reaches the greatest `int`, ResolveAutoAssign ends.
  pub resolve_loop-Ends :
      (allow : List String) (reserved used : List Port) (requested : List TunnelPort)
      → All Ends allow
      → resolve_loop fuel allow reserved used requested
        ≡ some (resolve_auto_assign allow reserved used requested)
  unfolding resolve_loop free_loop compute_free resolve_auto_assign
  resolve_loop-Ends allow reserved used requested h =
      rw (resolve_loop, free_loop, specs_loop-Ends allow [] h) refl
