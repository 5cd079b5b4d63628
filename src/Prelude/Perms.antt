-- ===== src/Prelude/Perms.antt =====
-- Bridges to the library's `Mem`, `Nodup` and `Perm`: what depends on a list's elements alone is kept
-- by reordering it.
use mathlib.Core.Logic.{◌↔◌, ∥∥₁_elim}
use mathlib.Core.Logic.Or
use mathlib.Core.List.{Mem, Nodup, mem-cons, not-mem-nil, Nodup-cons, Nodup-nil, Permᴰ}
use mathlib.Core.List.Perm
use native.Mathlib.Nat.{ℕ_set}
use mathlib.Core.Logic.{∥∥₁_elim}
use mathlib.Core.List.{Permᴰ}
use mathlib.Core.Bool.{Bool-set}
use frp_operator.Prelude.{
  ◌∙◌, ◌≡◌, refl, sym, inl, inr, Bool, true, false, List, [], ◌∷◌, Perm, arith, HasEqual, ◌==◌,
  contains, Distinct, All, Bool-cases, length, ap, suc,
}

pub Bool-eq_of_iff : (b c : Bool) → (b ≡ true → c ≡ true) → (c ≡ true → b ≡ true) → b ≡ c
Bool-eq_of_iff true c f g = sym (f refl)
Bool-eq_of_iff false true f g = g refl
Bool-eq_of_iff false false f g = refl

module _ {ℓ} {A : Type ℓ} ⦃e : HasEqual A⦄ where
  mem_of_contains : (xs : List A) (a : A) → contains xs a ≡ true → Mem a xs
  mem_of_contains [] a h = cc
  mem_of_contains (x ∷ xs) a h = elim (Bool-cases (x == a)) [
    | inl same ↦ mem-cons.1 (Or.inl (sym ((e.same_iff x a).0 same)))
    | inr other ↦ mem-cons.1 (Or.inr (mem_of_contains xs a (ground arith)))
  ]

  contains_of_mem : (xs : List A) (a : A) → Mem a xs → contains xs a ≡ true
  contains_of_mem [] a m = absurd (not-mem-nil m)
  contains_of_mem (x ∷ xs) a m =
      Or.elim (Bool-set _ _) (mem-cons.0 m)
        (λ same. let hit = (e.same_iff x a).1 (sym same) in ground arith)
        (λ later. let hit = contains_of_mem xs a later in ground arith)

  pub contains_iff_mem : (xs : List A) (a : A) → (contains xs a ≡ true) ↔ Mem a xs
  contains_iff_mem xs a = (mem_of_contains xs a, contains_of_mem xs a)

  pub contains-perm : (xs ys : List A) (a : A) → Perm xs ys → contains xs a ≡ contains ys a
  contains-perm xs ys a p =
      Bool-eq_of_iff (contains xs a) (contains ys a)
        (λ h. (contains_iff_mem ys a).1 ((Perm.mem_iff p).0 ((contains_iff_mem xs a).0 h)))
        (λ h. (contains_iff_mem xs a).1 ((Perm.mem_iff p).1 ((contains_iff_mem ys a).0 h)))

  pub not_mem_of_contains : (xs : List A) (a : A) → contains xs a ≡ false → ¬ Mem a xs
  not_mem_of_contains xs a h m = let hit = contains_of_mem xs a m in ground arith

  not_contains_of_mem : (xs : List A) (a : A) → ¬ Mem a xs → contains xs a ≡ false
  not_contains_of_mem xs a n = elim (Bool-cases (contains xs a)) [
    | inl h ↦ absurd (n (mem_of_contains xs a h))
    | inr h ↦ h
  ]

  Nodup-of_Distinct : (xs : List A) → Distinct xs → Nodup xs
  Nodup-of_Distinct [] d = Nodup-nil
  Nodup-of_Distinct (x ∷ xs) d =
      Nodup-cons.1 (not_mem_of_contains xs x d.0, Nodup-of_Distinct xs d.1)

  Distinct-of_Nodup : (xs : List A) → Nodup xs → Distinct xs
  Distinct-of_Nodup [] n = tt
  Distinct-of_Nodup (x ∷ xs) n =
      let (fresh, rest) = Nodup-cons.0 n in
      (not_contains_of_mem xs x fresh, Distinct-of_Nodup xs rest)

  pub Distinct-perm : (xs ys : List A) → Perm xs ys → Distinct xs → Distinct ys
  Distinct-perm xs ys p d = Distinct-of_Nodup ys (Perm.nodup p (Nodup-of_Distinct xs d))

module _ {ℓ κ} {A : Type ℓ} (P : A → Type κ) (pr : (a : A) → IsProp (P a)) where
  pub All-mem : (xs : List A) (a : A) → All P xs → Mem a xs → P a
  All-mem [] a h m = absurd (not-mem-nil m)
  All-mem (x ∷ xs) a h m = Or.elim (pr a) (mem-cons.0 m) (λ same. rw same h.0) (All-mem xs a h.1)

  All_of_mem : (xs : List A) → ((a : A) → Mem a xs → P a) → All P xs
  All_of_mem [] f = tt
  All_of_mem (x ∷ xs) f =
      (f x (mem-cons.1 (Or.inl refl)), All_of_mem xs (λ a m. f a (mem-cons.1 (Or.inr m))))

  pub All-perm : (xs ys : List A) → Perm xs ys → All P xs → All P ys
  All-perm xs ys p h = All_of_mem ys (λ a m. All-mem xs a h ((Perm.mem_iff p).1 m))

module _ {ℓ} {A : Type ℓ} where
  length-permᴰ : {xs ys : List A} → Permᴰ xs ys → length xs ≡ length ys
  length-permᴰ Permᴰ.nil = refl
  length-permᴰ (Permᴰ.cons e p) = ap suc (length-permᴰ p)
  length-permᴰ (Permᴰ.swap e f) = refl
  length-permᴰ (Permᴰ.trans p q) = length-permᴰ p ∙ length-permᴰ q

  pub length-perm : (xs ys : List A) → Perm xs ys → length xs ≡ length ys
  length-perm xs ys p = ∥∥₁_elim p (ℕ_set _ _) (λ q. length-permᴰ q)
