-- ===== src/Scheduling/Ports/Assign.antt =====
-- The ports that `ResolveAutoAssign` of ports.go hands out.
use mathlib.Core.List.Perm
use frp_operator.Prelude.{
  ℕ, zero, suc, ◌≤◌, String, ◌≡◌, refl, sym, ap, ◌∙◌, inl, inr, true, false, ◌||◌, Option, none,
  some, List, [], ◌∷◌, map, arith, nat_eq, ◌==◌, if◌then◌else◌, Distinct, contains,
  contains-remove_all, remove_all-Distinct, length, Bool-cases, nat_beq_iff, take, subst,
  Option-cases,
}
use frp_operator.Prelude.Perms.{contains-perm, Distinct-perm, All-mem, contains_iff_mem}
use frp_operator.Api.{Port, TunnelPort}
use frp_operator.Scheduling.Ports.{
  compute_free, sorted_keys, Claimed, wanted, claim_explicit, autos, fill, assign_autos,
  resolve_auto_assign, signed_key,
}
use frp_operator.Scheduling.Ports.Values.{compute_free-Distinct}
use frp_operator.Scheduling.Ports.Order.{Ascending, sorted_keys-Ascending, sorted_keys-perm}
use native.Mathlib.Bridge.{le_prop}
use mathlib.Core.Bool.{Bool-set}
use frp_operator.Scheduling.Ports.Claim.{fixed, Claims, claim_explicit-Claims}

pub fill_full :
    (slots : List (Option Port)) (sorted : List Port)
    → autos slots ≡ 0
    → fill slots [] ≡ fill slots sorted
fill_full [] sorted e = refl
fill_full (none ∷ slots) sorted e = absurd (omega arith)
fill_full (some p ∷ slots) sorted e = ap (◌∷◌ p) (fill_full slots sorted e)

contains-fill :
    (slots : List (Option Port)) (sorted : List Port) (p : Port)
    → autos slots ≤ length sorted
    → contains (fill slots sorted) p
      ≡ (contains (fixed slots) p || contains (take (autos slots) sorted) p)
contains-fill [] sorted p h = refl
contains-fill (some q ∷ slots) sorted p h = ground (arith, contains-fill slots sorted p)
contains-fill (none ∷ slots) [] p h = absurd (omega arith)
contains-fill (none ∷ slots) (q ∷ sorted) p h = ground (arith, contains-fill slots sorted p)

contains-take :
    (n : ℕ) (xs : List Port) (p : Port) → contains (take n xs) p ≡ true → contains xs p ≡ true
contains-take zero xs p h = cc
contains-take (suc n) [] p h = cc
contains-take (suc n) (x ∷ xs) p h = ground (arith, contains-take n xs p)

-- Each slot that holds a port keeps it.
abbrev pub Honours : List (Option Port) → List Port → Type 0
Honours [] [] = Unit
Honours [] (p ∷ out) = ⊥
Honours (w ∷ wishes) [] = ⊥
Honours (none ∷ wishes) (p ∷ out) = Honours wishes out
Honours (some q ∷ wishes) (p ∷ out) = (p ≡ q) × Honours wishes out

fill-Honours :
    (slots : List (Option Port)) (sorted : List Port)
    → autos slots ≤ length sorted
    → Honours slots (fill slots sorted)
fill-Honours [] sorted h = tt
fill-Honours (some q ∷ slots) sorted h = (refl, fill-Honours slots sorted h)
fill-Honours (none ∷ slots) [] h = absurd (omega arith)
fill-Honours (none ∷ slots) (q ∷ sorted) h = fill-Honours slots sorted (omega arith)

fill-Distinct :
    (slots : List (Option Port)) (sorted : List Port)
    → autos slots ≤ length sorted
    → Distinct (fixed slots)
    → Distinct sorted
    → ((p : Port) → contains (fixed slots) p ≡ true → contains sorted p ≡ false)
    → Distinct (fill slots sorted)
fill-Distinct [] sorted h d s apart = tt
fill-Distinct (some q ∷ slots) sorted h d s apart = (
  ground (
    arith,
    contains-fill slots sorted q,
    contains-take (autos slots) sorted q,
    apart q,
    nat_beq_iff q q,
  ),
  fill-Distinct slots sorted h d.1 s (λ p m. apart p (ground arith)),
)
fill-Distinct (none ∷ slots) [] h d s apart = absurd (omega arith)
fill-Distinct (none ∷ slots) (q ∷ sorted) h d s apart = (
  ground (
    arith,
    contains-fill slots sorted q,
    contains-take (autos slots) sorted q,
    apart q,
    nat_beq_iff q q,
  ),
  fill-Distinct slots sorted (omega arith) d s.1 (λ p m. ground (arith, apart p m)),
)

-- The first ports of an ascending list are at most those behind them.
take_lowest :
    (n : ℕ) (xs : List Port) (p q : Port)
    → Ascending xs
    → contains (take n xs) p ≡ true
    → contains xs q ≡ true
    → contains (take n xs) q ≡ false
    → signed_key p ≤ signed_key q
take_lowest zero xs p q a hp hq out = cc
take_lowest (suc n) [] p q a hp hq out = cc
take_lowest (suc n) (x ∷ xs) p q a hp hq out = elim (Bool-cases (x == p)) [
  | inl e ↦
      let e' = (nat_beq_iff x p).0 e in
      rw (← e') (All-mem _ (λ _. le_prop) xs q a.0 ((contains_iff_mem xs q).0 (ground arith)))
  | inr e ↦ take_lowest n xs p q a.1 (ground arith) (ground arith) (ground arith)
]

pub assign_autos_cases :
    (c : Claimed) (out : List Port)
    → assign_autos c ≡ some out
    → (autos c.slots ≤ length (sorted_keys c.free)) × (out ≡ fill c.slots (sorted_keys c.free))
unfolding assign_autos
assign_autos_cases c out e = ground (arith, fill_full c.slots (sorted_keys c.free))

-- The ports that the requests ask for by number.
abbrev pub explicit : List TunnelPort → List Port
explicit requested = fixed (map wanted requested)

-- What an assignment `out` of ports from `free` to the requests has to be.
pub record IsAssignment (free : List Port) (requested : List TunnelPort) (out : List Port)
    : Type 0 where
  pub honours : Honours (map wanted requested) out
  pub distinct : Distinct out
  pub from_free : (p : Port) → contains out p ≡ true → contains free p ≡ true
  pub lowest :
      (p q : Port)
      → contains out p ≡ true
      → contains (explicit requested) p ≡ false
      → contains free q ≡ true
      → contains out q ≡ false
      → signed_key p ≤ signed_key q

module _ (free : List Port) (requested : List TunnelPort) (c : Claimed)
    (free-Distinct : Distinct free) (claims : Claims free (map wanted requested) c)
    (enough : autos c.slots ≤ length (sorted_keys c.free)) where
  sorted : List Port
  sorted = sorted_keys c.free

  contains-sorted :
      (p : Port)
      → contains sorted p ≡ (if contains (explicit requested) p then false else contains free p)
  unfolding sorted
  contains-sorted p =
      contains-perm (sorted_keys c.free) c.free p (sorted_keys-perm c.free)
      ∙ ap (λ l. contains l p) claims.left
      ∙ contains-remove_all (explicit requested) free p

  contains-out :
      (p : Port)
      → contains (fill c.slots sorted) p
        ≡ (contains (explicit requested) p || contains (take (autos c.slots) sorted) p)
  unfolding sorted
  contains-out p =
      contains-fill c.slots (sorted_keys c.free) p enough
      ∙ ap (λ l. contains (fixed l) p || contains (take (autos c.slots) (sorted_keys c.free)) p)
          claims.kept

  explicit_free : (p : Port) → contains (explicit requested) p ≡ true → contains free p ≡ true
  explicit_free p h =
      All-mem _ (λ _. Bool-set _ _) (explicit requested) p claims.available
        ((contains_iff_mem (explicit requested) p).0 h)

  fill-IsAssignment : IsAssignment free requested (fill c.slots sorted)
  unfolding sorted
  fill-IsAssignment = record {
    honours =
        subst (λ w. Honours w (fill c.slots sorted)) claims.kept
          (fill-Honours c.slots sorted enough);
    distinct =
        fill-Distinct c.slots sorted enough
          (subst (λ w. Distinct (fixed w)) (sym claims.kept) claims.distinct)
          (Distinct-perm c.free sorted (Perm.symm (sorted_keys-perm c.free)) (
            subst (λ l. Distinct l) (sym claims.left)
              (remove_all-Distinct (explicit requested) free free-Distinct)))
          (λ p m.
            let m' : contains (explicit requested) p ≡ true =
              subst (λ w. contains (fixed w) p ≡ true) claims.kept m in
            rw (contains-sorted p, m'));
    from_free = λ p m. ground (
      arith,
      contains-out p,
      explicit_free p,
      contains-take (autos c.slots) sorted p,
      contains-sorted p,
    );
    lowest = λ p q hp auto hq out.
        take_lowest (autos c.slots) sorted p q (sorted_keys-Ascending c.free)
          (ground (arith, contains-out p)) (ground (arith, contains-sorted q, contains-out q))
          (ground (arith, contains-out q));
  }

-- Whatever ResolveAutoAssign returns honours the requested ports, uses no port twice, takes free ports
-- only, and gives the auto-assigned slots ports that are at most any free port left over.
pub resolve_auto_assign-IsAssignment :
    (allow : List String) (reserved used : List Port) (requested : List TunnelPort)
    (out : List Port)
    → resolve_auto_assign allow reserved used requested ≡ some out
    → IsAssignment (compute_free allow reserved used) requested out
unfolding resolve_auto_assign
resolve_auto_assign-IsAssignment allow reserved used requested out e =
    let free = compute_free allow reserved used in
    elim (Option-cases (claim_explicit free (map wanted requested))) [
      | inl failed ↦ let e' : none ≡ some out = rw (failed, resolve_auto_assign) at e in cc
      | inr (c, claimed) ↦
          let e' : assign_autos c ≡ some out = rw (claimed, resolve_auto_assign) at e in
          let (enough, filled) = assign_autos_cases c out e' in
          let claims = claim_explicit-Claims free (map wanted requested) c claimed in
          rw filled (
            unfold sorted in
            fill-IsAssignment free requested c (compute_free-Distinct allow reserved used) claims
              enough)
    ]
