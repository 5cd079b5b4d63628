-- ===== src/Prelude/Sort.antt =====
-- `sort.SliceStable`: the stable sort by a strict order `less`, as an insertion from the back.
use mathlib.Core.List.Perm
use frp_operator.Prelude.{
  ◌≡◌, inl, inr, Bool, true, false, List, [], ◌∷◌, Perm, All, All-map, Bool-cases, if◌then◌else◌,
}

module _ {ℓ} {A : Type ℓ} (less : A → A → Bool) where
  -- An element goes before the first one that is not less than it.
  insert_stable : A → List A → List A
  insert_stable x [] = x ∷ []
  insert_stable x (y ∷ ys) = if less y x then y ∷ insert_stable x ys else x ∷ y ∷ ys

  unfoldable pub slice_stable : List A → List A
  unfolding insert_stable
  slice_stable [] = []
  slice_stable (x ∷ xs) = insert_stable x (slice_stable xs)

  -- No element is less than one before it.
  abbrev pub Sorted : List A → Type 0
  Sorted [] = Unit
  Sorted (x ∷ xs) = All (λ y. less y x ≡ false) xs × Sorted xs

  insert_stable-perm : (x : A) (xs : List A) → Perm (insert_stable x xs) (x ∷ xs)
  unfolding insert_stable
  insert_stable-perm x [] = Perm.rfl
  insert_stable-perm x (y ∷ ys) = elim (Bool-cases (less y x)) [
    | inl e ↦ rw e (Perm.trans (Perm.cons y (insert_stable-perm x ys)) (Perm.swap x y ys))
    | inr e ↦ rw e Perm.rfl
  ]

  pub slice_stable-perm : (xs : List A) → Perm (slice_stable xs) xs
  unfolding slice_stable
  slice_stable-perm [] = Perm.rfl
  slice_stable-perm (x ∷ xs) =
      Perm.trans (insert_stable-perm x (slice_stable xs)) (Perm.cons x (slice_stable-perm xs))

  -- A strict order whose complement is transitive, as the comparisons of the source are.
  pub record IsStrict : Type ℓ where
    pub asymmetric : (x y : A) → less x y ≡ true → less y x ≡ false
    pub not_less_trans : (x y z : A) → less y x ≡ false → less z y ≡ false → less z x ≡ false

module _ {ℓ} {A : Type ℓ} (less : A → A → Bool) (strict : IsStrict less) where
  All-insert_stable :
      (x y : A) (ys : List A)
      → less x y ≡ false
      → All (λ z. less z y ≡ false) ys
      → All (λ z. less z y ≡ false) (insert_stable less x ys)
  unfolding insert_stable
  All-insert_stable x y [] h a = (h, tt)
  All-insert_stable x y (z ∷ ys) h a = elim (Bool-cases (less z x)) [
    | inl e ↦ rw e (a.0, All-insert_stable x y ys h a.1)
    | inr e ↦ rw e (h, a)
  ]

  insert_stable-Sorted :
      (x : A) (xs : List A) → Sorted less xs → Sorted less (insert_stable less x xs)
  unfolding insert_stable
  insert_stable-Sorted x [] s = (tt, tt)
  insert_stable-Sorted x (y ∷ ys) s = elim (Bool-cases (less y x)) [
    | inl e ↦
        rw e (All-insert_stable x y ys (strict.asymmetric y x e) s.0, insert_stable-Sorted x ys s.1)
    | inr e ↦ rw e ((e, All-map ys (λ z h. strict.not_less_trans x y z e h) s.0), s)
  ]

  pub slice_stable-Sorted : (xs : List A) → Sorted less (slice_stable less xs)
  unfolding slice_stable
  slice_stable-Sorted [] = tt
  slice_stable-Sorted (x ∷ xs) = insert_stable-Sorted x _ (slice_stable-Sorted xs)
