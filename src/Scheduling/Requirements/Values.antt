-- ===== src/Scheduling/Requirements/Values.antt =====
-- The searches through value lists of requirements.go.
use frp_operator.Prelude.{
  String, ◌≡◌, refl, inl, inr, Bool, true, false, ◌||◌, not, List, [], ◌∷◌, arith, string_eq, ◌==◌,
  contains, Bool-cases, beq_refl,
}
use frp_operator.Prelude.Int.{ℤ}
use frp_operator.Scheduling.Requirements.{
  intersects, has_value_not_in, int_of, any_int_greater, any_int_less, exceeds, falls_below,
}

-- A value of the list that passes the test.
abbrev pub Found : (String → Bool) → List String → Type 0
Found test vals = (v : String) × (contains vals v ≡ true) × (test v ≡ true)

-- All four searches are this loop.
any : (String → Bool) → List String → Bool
any test [] = false
any test (v ∷ vals) = test v || any test vals

any-Found : (test : String → Bool) (vals : List String) → any test vals ≡ true → Found test vals
unfolding any
any-Found test [] h = cc
any-Found test (v ∷ vals) h = elim (Bool-cases (test v)) [
  | inl here ↦ (v, ground (arith, beq_refl v), here)
  | inr gone ↦ let (w, m, hit) = any-Found test vals (ground arith) in (w, ground arith, hit)
]

any_of_mem :
    (test : String → Bool) (vals : List String) (v : String)
    → contains vals v ≡ true
    → test v ≡ true
    → any test vals ≡ true
unfolding any
any_of_mem test [] v m h = cc
any_of_mem test (w ∷ vals) v m h = elim (Bool-cases (w == v)) [
  | inl same ↦ let e = (string_eq.same_iff w v).0 same in rw e (ground arith)
  | inr other ↦ ground (arith, any_of_mem test vals v)
]

intersects-eq-any : (a b : List String) → intersects a b ≡ any (contains b) a
unfolding intersects any
intersects-eq-any [] b = refl
intersects-eq-any (x ∷ a) b = ground (arith, intersects-eq-any a b)

has_value_not_in-eq-any :
    (a b : List String) → has_value_not_in a b ≡ any (λ v. not (contains b v)) a
unfolding has_value_not_in any
has_value_not_in-eq-any [] b = refl
has_value_not_in-eq-any (x ∷ a) b = ground (arith, has_value_not_in-eq-any a b)

any_int_greater-eq-any :
    (a : List String) (n : ℤ) → any_int_greater a n ≡ any (λ v. exceeds n (int_of v)) a
unfolding any_int_greater any
any_int_greater-eq-any [] n = refl
any_int_greater-eq-any (x ∷ a) n = rw (any_int_greater-eq-any a n)

any_int_less-eq-any :
    (a : List String) (n : ℤ) → any_int_less a n ≡ any (λ v. falls_below n (int_of v)) a
unfolding any_int_less any
any_int_less-eq-any [] n = refl
any_int_less-eq-any (x ∷ a) n = rw (any_int_less-eq-any a n)

module _ (a : List String) where
  pub intersects-Found : (b : List String) → intersects a b ≡ true → Found (contains b) a
  intersects-Found b h = any-Found _ a (rw intersects-eq-any at h)

  pub intersects_of_mem :
      (b : List String) (v : String)
      → contains a v ≡ true
      → contains b v ≡ true
      → intersects a b ≡ true
  intersects_of_mem b v m h = rw intersects-eq-any (any_of_mem _ a v m h)

  pub has_value_not_in-Found :
      (b : List String) → has_value_not_in a b ≡ true → Found (λ v. not (contains b v)) a
  has_value_not_in-Found b h = any-Found _ a (rw has_value_not_in-eq-any at h)

  pub has_value_not_in_of_mem :
      (b : List String) (v : String)
      → contains a v ≡ true
      → not (contains b v) ≡ true
      → has_value_not_in a b ≡ true
  has_value_not_in_of_mem b v m h = rw has_value_not_in-eq-any (any_of_mem _ a v m h)

  pub any_int_greater-Found :
      (n : ℤ) → any_int_greater a n ≡ true → Found (λ v. exceeds n (int_of v)) a
  any_int_greater-Found n h = any-Found _ a (rw any_int_greater-eq-any at h)

  pub any_int_greater_of_mem :
      (n : ℤ) (v : String)
      → contains a v ≡ true
      → exceeds n (int_of v) ≡ true
      → any_int_greater a n ≡ true
  any_int_greater_of_mem n v m h = rw any_int_greater-eq-any (any_of_mem _ a v m h)

  pub any_int_less-Found :
      (n : ℤ) → any_int_less a n ≡ true → Found (λ v. falls_below n (int_of v)) a
  any_int_less-Found n h = any-Found _ a (rw any_int_less-eq-any at h)

  pub any_int_less_of_mem :
      (n : ℤ) (v : String)
      → contains a v ≡ true
      → falls_below n (int_of v) ≡ true
      → any_int_less a n ≡ true
  any_int_less_of_mem n v m h = rw any_int_less-eq-any (any_of_mem _ a v m h)
