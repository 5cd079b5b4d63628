-- ===== src/Scheduling/Ports/Order.antt =====
-- `sortedKeys` of ports.go.
use mathlib.Core.List.{
  reverse, reverse-cons, reverse_perm, perm_middle, append-nil, mem-cons, mem-cons_self,
}
use mathlib.Core.List.Perm
use mathlib.Core.Logic.Or
use native.Mathlib.Bridge.{le_prop}
use frp_operator.Prelude.Perms.{All-mem, All-perm}
use mathlib.Core.Path.{ap₂}
use frp_operator.Prelude.{
  ◌≤◌, ◌≡◌, sym, inl, inr, List, [], ◌∷◌, ◌++◌, Perm, arith, nat_eq, ltb, All, All-append, All-map,
  Bool-cases,
}
use frp_operator.Api.{Port}
use frp_operator.Scheduling.Ports.{signed_key, sink, sort_rounds, sorted_keys}
use frp_operator.Scheduling.Ports.Values.{IsInt32}

-- Each port is at most those behind it, as `int32` values.
abbrev pub Ascending : List Port → Type 0
Ascending [] = Unit
Ascending (x ∷ xs) = All (λ y. signed_key x ≤ signed_key y) xs × Ascending xs

abbrev Descending : List Port → Type 0
Descending [] = Unit
Descending (x ∷ xs) = All (λ y. signed_key y ≤ signed_key x) xs × Descending xs

All-sink : (P : Port → Type 0) (x : Port) (s : List Port) → P x → All P s → All P (sink x s)
unfolding sink
All-sink P x [] h a = (h, tt)
All-sink P x (y ∷ s) h a = elim (Bool-cases (ltb (signed_key x) (signed_key y))) [
  | inl e ↦ rw e (a.0, All-sink P x s h a.1)
  | inr e ↦ rw e (h, a)
]

sink-Descending : (x : Port) (s : List Port) → Descending s → Descending (sink x s)
unfolding sink
sink-Descending x [] d = (tt, tt)
sink-Descending x (y ∷ s) d = elim (Bool-cases (ltb (signed_key x) (signed_key y))) [
  | inl e ↦ rw e (All-sink _ x s (ground arith) d.0, sink-Descending x s d.1)
  | inr e ↦ rw e ((ground arith, All-map s (λ (z : Port) h. ground arith) d.0), d)
]

sort_rounds-Descending : (s xs : List Port) → Descending s → Descending (sort_rounds s xs)
unfolding sort_rounds
sort_rounds-Descending s [] d = d
sort_rounds-Descending s (x ∷ xs) d = sort_rounds-Descending (sink x s) xs (sink-Descending x s d)

Ascending-snoc :
    (xs : List Port) (x : Port)
    → Ascending xs
    → All (λ y. signed_key y ≤ signed_key x) xs
    → Ascending (xs ++ x ∷ [])
Ascending-snoc [] x a h = (tt, tt)
Ascending-snoc (y ∷ xs) x a h =
    (All-append _ xs (x ∷ []) a.0 (h.0, tt), Ascending-snoc xs x a.1 h.1)

All-reverse : (P : Port → Type 0) (xs : List Port) → All P xs → All P (reverse xs)
All-reverse P [] h = tt
All-reverse P (x ∷ xs) h =
    rw (reverse-cons x xs) (All-append P (reverse xs) (x ∷ []) (All-reverse P xs h.1) (h.0, tt))

reverse-Ascending : (s : List Port) → Descending s → Ascending (reverse s)
reverse-Ascending [] d = tt
reverse-Ascending (x ∷ s) d =
    rw (reverse-cons x s)
      (Ascending-snoc (reverse s) x (reverse-Ascending s d.1) (All-reverse _ s d.0))

pub sorted_keys-Ascending : (keys : List Port) → Ascending (sorted_keys keys)
unfolding sorted_keys
sorted_keys-Ascending keys = reverse-Ascending _ (sort_rounds-Descending [] keys tt)

sink-perm : (x : Port) (s : List Port) → Perm (sink x s) (x ∷ s)
unfolding sink
sink-perm x [] = Perm.rfl
sink-perm x (y ∷ s) = elim (Bool-cases (ltb (signed_key x) (signed_key y))) [
  | inl e ↦ rw e (Perm.trans (Perm.cons y (sink-perm x s)) (Perm.swap x y s))
  | inr e ↦ rw e Perm.rfl
]

sort_rounds-perm : (s xs : List Port) → Perm (sort_rounds s xs) (xs ++ s)
unfolding sort_rounds
sort_rounds-perm s [] = Perm.rfl
sort_rounds-perm s (x ∷ xs) =
    Perm.trans (sort_rounds-perm (sink x s) xs)
      (Perm.trans (Perm.append_left xs (sink-perm x s)) (perm_middle xs s))

pub sorted_keys-perm : (keys : List Port) → Perm (sorted_keys keys) keys
unfolding sorted_keys
sorted_keys-perm keys =
    Perm.trans (reverse_perm (sort_rounds [] keys)) (rw append-nil at (sort_rounds-perm [] keys))

signed_key_injective : (p q : Port) → IsInt32 p → IsInt32 q → signed_key p ≡ signed_key q → p ≡ q
unfolding signed_key
signed_key_injective p q hp hq e = omega arith

-- The first of an ascending list is at most any port of a list with the same ports.
head_le :
    (x y : Port) (xs ys : List Port)
    → Ascending (x ∷ xs)
    → Perm (y ∷ ys) (x ∷ xs)
    → signed_key x ≤ signed_key y
head_le x y xs ys a p =
    Or.elim le_prop (mem-cons.0 ((Perm.mem_iff p).0 mem-cons_self)) (λ e. rw e (omega arith))
      (All-mem _ (λ _. le_prop) xs y a.0)

Ascending-unique :
    (xs ys : List Port)
    → Ascending xs
    → Ascending ys
    → All IsInt32 xs
    → All IsInt32 ys
    → Perm xs ys
    → xs ≡ ys
Ascending-unique [] ys a b s t p = Perm.nil-eq p
Ascending-unique (x ∷ xs) [] a b s t p = Perm.eq-nil p
Ascending-unique (x ∷ xs) (y ∷ ys) a b s t p =
    let least = head_le x y xs ys a (Perm.symm p) in
    let same =
      signed_key_injective x y s.0 t.0
        (omega (arith, head_le x y xs ys a (Perm.symm p), head_le y x ys xs b p)) in
    let tails = Perm.cons_inv (Perm.trans p (Perm.cons' (sym same) Perm.rfl)) in
    ap₂ ◌∷◌ same (Ascending-unique xs ys a.1 b.1 s.1 t.1 tails)

-- The sorted keys do not depend on the order in which the map yields its keys, which are `int32`
-- values.
pub sorted_keys_order_irrelevant :
    (xs ys : List Port) → All IsInt32 xs → Perm xs ys → sorted_keys xs ≡ sorted_keys ys
sorted_keys_order_irrelevant xs ys s p =
    let bounded = All-perm IsInt32 (λ _. le_prop) in
    Ascending-unique (sorted_keys xs) (sorted_keys ys) (sorted_keys-Ascending xs)
      (sorted_keys-Ascending ys) (bounded xs (sorted_keys xs) (Perm.symm (sorted_keys-perm xs)) s)
      (bounded ys (sorted_keys ys) (Perm.symm (sorted_keys-perm ys)) (bounded xs ys p s))
      (Perm.trans (sorted_keys-perm xs) (Perm.trans p (Perm.symm (sorted_keys-perm ys))))

-- `sortedKeys` returns each of its keys, as often as it is given, in ascending order of their `int32` values.
pub sorted_keys-sorts :
    (keys : List Port) → Ascending (sorted_keys keys) × Perm (sorted_keys keys) keys
sorted_keys-sorts keys = (sorted_keys-Ascending keys, sorted_keys-perm keys)
