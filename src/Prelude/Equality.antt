-- ===== src/Prelude/Equality.antt =====
-- Decidable equality as an interface: `==` of the source on numbers and on texts, and membership.
use Prim.Native.Nat.{ℕ}
use Prim.Native.String.{String}
use mathlib.Core.Path.{◌≡◌, refl}
use mathlib.Core.Logic.{◌↔◌, ◌⊎◌, inl, inr, ◌≢◌}
use mathlib.Core.Bool.{Bool, true, false, ◌||◌}
use mathlib.Core.List.{List, [], ◌∷◌, ◌++◌}
use native.Mathlib.Omega.{arith}
use text.Mathlib.Text.{◌==◌ as str_eq}
use text.Mathlib.TextEquality.{eq_iff}
use frp_operator.Prelude.Tests.{nat_beq, nat_beq_iff, if◌then◌else◌, Bool-cases}

-- A Boolean test that decides when two values are the same.
pub record HasEqual {ℓ} (A : Type ℓ) : Type ℓ where
  pub same : (a b : A) → Bool
  pub same_iff : (a b : A) → (same a b ≡ true) ↔ (a ≡ b)

instance abbrev pub string_eq : HasEqual String
string_eq = record { same = str_eq; same_iff = eq_iff }

instance abbrev pub nat_eq : HasEqual ℕ
nat_eq = record { same = nat_beq; same_iff = nat_beq_iff }

module _ {ℓ} {A : Type ℓ} ⦃e : HasEqual A⦄ where
  infix 50 ◌==◌
  abbrev pub ◌==◌ : A → A → Bool
  a == b = e.same a b

  -- `slices.Contains`, and a key test of a Go set.
  abbrev pub contains : List A → A → Bool
  contains [] a = false
  contains (x ∷ xs) a = x == a || contains xs a

  -- Adds an element to a set: a `map[K]struct{}` with its keys in some order.
  abbrev pub add : A → List A → List A
  add a xs = if contains xs a then xs else a ∷ xs

  -- `delete` on a set.
  abbrev pub remove : A → List A → List A
  remove a [] = []
  remove a (x ∷ xs) = if x == a then remove a xs else x ∷ remove a xs

  abbrev pub add_all : List A → List A → List A
  add_all [] xs = xs
  add_all (a ∷ as') xs = add_all as' (add a xs)

  abbrev pub remove_all : List A → List A → List A
  remove_all [] xs = xs
  remove_all (a ∷ as') xs = remove_all as' (remove a xs)

  -- No element stands twice.
  abbrev pub Distinct : List A → Type 0
  Distinct [] = Unit
  Distinct (x ∷ xs) = (contains xs x ≡ false) × Distinct xs

  pub beq_refl : (a : A) → (a == a) ≡ true
  beq_refl a = (e.same_iff a a).1 refl

  pub same-of_ne : (a b : A) → a ≢ b → (a == b) ≡ false
  same-of_ne a b n = elim (Bool-cases (a == b)) [
    | inl h ↦ absurd (n ((e.same_iff a b).0 h))
    | inr h ↦ h
  ]

  pub same-cases : (a b : A) → (a ≡ b) ⊎ (a ≢ b)
  same-cases a b = elim (Bool-cases (a == b)) [
    | inl h ↦ inl ((e.same_iff a b).0 h)
    | inr h ↦ inr (λ q. ground (arith, e.same_iff a b, q))
  ]

  pub beq_comm : (a b : A) → (a == b) ≡ (b == a)
  beq_comm a b = ground (arith, e.same_iff a b, e.same_iff b a)

  pub contains-append :
      (xs ys : List A) (a : A) → contains (xs ++ ys) a ≡ (contains xs a || contains ys a)
  contains-append [] ys a = refl
  contains-append (x ∷ xs) ys a = ground (arith, contains-append xs ys a)

  pub contains-add :
      (b : A) (xs : List A) (a : A) → contains (add b xs) a ≡ (b == a || contains xs a)
  contains-add b xs a = ground (arith, e.same_iff b a)

  pub contains-remove :
      (b : A) (xs : List A) (a : A)
      → contains (remove b xs) a ≡ (if b == a then false else contains xs a)
  contains-remove b [] a = ground arith
  contains-remove b (x ∷ xs) a =
      ground (arith, contains-remove b xs a, e.same_iff x b, e.same_iff b a, e.same_iff x a)

  pub contains-add_all :
      (as' xs : List A) (a : A) → contains (add_all as' xs) a ≡ (contains as' a || contains xs a)
  contains-add_all [] xs a = refl
  contains-add_all (b ∷ as') xs a =
      ground (arith, contains-add_all as' (add b xs) a, contains-add b xs a)

  pub contains-remove_all :
      (as' xs : List A) (a : A)
      → contains (remove_all as' xs) a ≡ (if contains as' a then false else contains xs a)
  contains-remove_all [] xs a = refl
  contains-remove_all (b ∷ as') xs a =
      ground (arith, contains-remove_all as' (remove b xs) a, contains-remove b xs a)

  pub remove-Distinct : (b : A) (xs : List A) → Distinct xs → Distinct (remove b xs)
  remove-Distinct b [] d = tt
  remove-Distinct b (x ∷ xs) d = ground (arith, remove-Distinct b xs d.1, contains-remove b xs x)

  pub add-Distinct : (b : A) (xs : List A) → Distinct xs → Distinct (add b xs)
  add-Distinct b xs d = ground arith

  pub add_all-Distinct : (as' xs : List A) → Distinct xs → Distinct (add_all as' xs)
  add_all-Distinct [] xs d = d
  add_all-Distinct (b ∷ as') xs d = add_all-Distinct as' (add b xs) (add-Distinct b xs d)

  pub remove_all-Distinct : (as' xs : List A) → Distinct xs → Distinct (remove_all as' xs)
  remove_all-Distinct [] xs d = d
  remove_all-Distinct (b ∷ as') xs d =
      remove_all-Distinct as' (remove b xs) (remove-Distinct b xs d)
