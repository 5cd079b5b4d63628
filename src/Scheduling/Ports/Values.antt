-- ===== src/Scheduling/Ports/Values.antt =====
-- The elements of the set that `computeFree` of ports.go builds.
use frp_operator.Prelude.{
  ℕ, zero, suc, ◌+◌, ◌-◌, ◌<◌, String, ◌≡◌, refl, inl, inr, Option, none, some, List, [], ◌∷◌,
  arith, nat_eq, ◌==◌, ltb, Distinct, add, contains, remove, remove_all, remove_all-Distinct, All,
  Bool-cases,
}
use frp_operator.Prelude.Int.{ℤ, pos, negsuc}
use frp_operator.Text.{codes, trim_space, cut, atoi}
use frp_operator.Api.{Port}
use frp_operator.Scheduling.Ports.{
  to_int32, add_range, add_bounds, add_single, add_trimmed, add_specs, compute_free,
}

-- The set holds no port twice, and only values of an `int32`.
abbrev pub IsInt32 : Port → Type 0
IsInt32 p = p < 4294967296

abbrev IsPortSet : List Port → Type 0
IsPortSet free = Distinct free × All IsInt32 free

add_int32-IsPortSet :
    (n : ℕ) (free : List Port) → IsPortSet free → IsPortSet (add (to_int32 n) free)
add_int32-IsPortSet n free (d, b) = elim (Bool-cases (contains free (to_int32 n))) [
  | inl e ↦ rw e (d, b)
  | inr e ↦ rw e ((e, d), (unfold to_int32 in omega arith, b))
]

add_range-IsPortSet :
    (rounds n : ℕ) (free : List Port) → IsPortSet free → IsPortSet (add_range n rounds free)
unfolding add_range
add_range-IsPortSet zero n free s = s
add_range-IsPortSet (suc rounds) n free s =
    add_range-IsPortSet rounds (n + 1) (add (to_int32 n) free) (add_int32-IsPortSet n free s)

add_single-IsPortSet :
    (o : Option ℤ) (free : List Port) → IsPortSet free → IsPortSet (add_single o free)
unfolding add_single
add_single-IsPortSet (some (pos n)) free s = add_int32-IsPortSet n free s
add_single-IsPortSet none free s = s
add_single-IsPortSet (some (negsuc n)) free s = s

add_bounds-IsPortSet :
    (a b : Option ℤ) (free : List Port) → IsPortSet free → IsPortSet (add_bounds a b free)
unfolding add_bounds
add_bounds-IsPortSet (some (pos lo)) (some (pos hi)) free s = elim (Bool-cases (ltb hi lo)) [
  | inl e ↦ rw e s
  | inr e ↦ rw e (add_range-IsPortSet (hi - lo + 1) lo free s)
]
add_bounds-IsPortSet (some (pos lo)) (some (negsuc hi)) free s = s
add_bounds-IsPortSet (some (pos lo)) none free s = s
add_bounds-IsPortSet (some (negsuc lo)) b free s = s
add_bounds-IsPortSet none b free s = s

add_trimmed-IsPortSet :
    (cs : List ℕ) (free : List Port) → IsPortSet free → IsPortSet (add_trimmed cs free)
unfolding add_trimmed
add_trimmed-IsPortSet [] free s = s
add_trimmed-IsPortSet (c ∷ cs) free s = go (cut b'-' (c ∷ cs)) refl
  where
    go :
        (o : Option (List ℕ × List ℕ))
        → cut b'-' (c ∷ cs) ≡ o
        → IsPortSet (add_trimmed (c ∷ cs) free)
    go none e = rw (e, add_trimmed) (add_single-IsPortSet (atoi (c ∷ cs)) free s)
    go (some (lo, hi)) e =
        rw (e, add_trimmed)
          (add_bounds-IsPortSet (atoi (trim_space lo)) (atoi (trim_space hi)) free s)

add_specs-IsPortSet :
    (specs : List String) (free : List Port) → IsPortSet free → IsPortSet (add_specs specs free)
unfolding add_specs
add_specs-IsPortSet [] free s = s
add_specs-IsPortSet (spec ∷ specs) free s =
    add_specs-IsPortSet specs _ (add_trimmed-IsPortSet (trim_space (codes spec)) free s)

All-remove : (P : Port → Type 0) (p : Port) (xs : List Port) → All P xs → All P (remove p xs)
All-remove P p [] h = tt
All-remove P p (x ∷ xs) h = elim (Bool-cases (x == p)) [
  | inl e ↦ rw e (All-remove P p xs h.1)
  | inr e ↦ rw e (h.0, All-remove P p xs h.1)
]

All-remove_all : (P : Port → Type 0) (ps xs : List Port) → All P xs → All P (remove_all ps xs)
All-remove_all P [] xs h = h
All-remove_all P (p ∷ ps) xs h = All-remove_all P ps (remove p xs) (All-remove P p xs h)

pub compute_free-Distinct :
    (allow : List String) (reserved used : List Port) → Distinct (compute_free allow reserved used)
unfolding compute_free
compute_free-Distinct allow reserved used =
    remove_all-Distinct used _
      (remove_all-Distinct reserved _ (add_specs-IsPortSet allow [] (tt, tt)).0)

pub compute_free-IsInt32 :
    (allow : List String) (reserved used : List Port)
    → All IsInt32 (compute_free allow reserved used)
unfolding compute_free
compute_free-IsInt32 allow reserved used =
    All-remove_all IsInt32 used _
      (All-remove_all IsInt32 reserved _ (add_specs-IsPortSet allow [] (tt, tt)).1)
