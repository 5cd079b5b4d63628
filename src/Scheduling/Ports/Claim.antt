-- ===== src/Scheduling/Ports/Claim.antt =====
-- Pass 1 of `ResolveAutoAssign` of ports.go: the explicit ports.
use frp_operator.Prelude.{
  ◌≡◌, refl, ap, ◌∙◌, inl, inr, true, false, Option, none, some, List, [], ◌∷◌, arith, nat_eq,
  Distinct, remove, contains, remove_all, contains-remove, All, Bool-cases, nat_beq_iff,
}
use frp_operator.Api.{Port}
use frp_operator.Scheduling.Ports.{Claimed, claim_next, claim_explicit}

-- The ports that the slots already hold.
abbrev pub fixed : List (Option Port) → List Port
fixed [] = []
fixed (none ∷ slots) = fixed slots
fixed (some p ∷ slots) = p ∷ fixed slots

abbrev pub Subset : List Port → List Port → Type 0
Subset xs ys = All (λ p. contains ys p ≡ true) xs

All-contains-remove :
    (p : Port) (xs free : List Port)
    → Subset xs (remove p free)
    → (contains xs p ≡ false) × Subset xs free
All-contains-remove p [] free h = (refl, tt)
All-contains-remove p (x ∷ xs) free h =
    let (fresh, rest) = All-contains-remove p xs free h.1 in
    let here = contains-remove p free x in
    (ground (arith, nat_beq_iff p x, nat_beq_iff x p), (ground arith, rest))

pub Subset-remove :
    (p : Port) (xs free : List Port)
    → contains xs p ≡ false
    → Subset xs free
    → Subset xs (remove p free)
Subset-remove p [] free h s = tt
Subset-remove p (x ∷ xs) free h s = (
  ground (arith, contains-remove p free x, nat_beq_iff p x, nat_beq_iff x p),
  Subset-remove p xs free (ground arith) s.1,
)

claim_next_inv :
    (slot : Option Port) (o : Option Claimed) (c : Claimed)
    → claim_next slot o ≡ some c
    → (c' : Claimed) × (o ≡ some c') × (c.free ≡ c'.free) × (c.slots ≡ slot ∷ c'.slots)
claim_next_inv slot none c e = cc
claim_next_inv slot (some c') c e = (c', refl, ground arith, ground arith)

-- What pass 1 leaves for the wishes `slots`: the slots, and the free set without their ports, which
-- were distinct and free.
pub record Claims (free : List Port) (slots : List (Option Port)) (c : Claimed) : Type 0 where
  pub kept : c.slots ≡ slots
  pub left : c.free ≡ remove_all (fixed slots) free
  pub distinct : Distinct (fixed slots)
  pub available : Subset (fixed slots) free

pub claim_explicit-Claims :
    (free : List Port) (wishes : List (Option Port)) (c : Claimed)
    → claim_explicit free wishes ≡ some c
    → Claims free wishes c
unfolding claim_explicit
claim_explicit-Claims free [] c e = record {
  kept = ground arith;
  left = ground arith;
  distinct = tt;
  available = tt;
}
claim_explicit-Claims free (none ∷ wishes) c e =
    let (c', found, f, s) = claim_next_inv none (claim_explicit free wishes) c e in
    let r = claim_explicit-Claims free wishes c' found in
    record {
      kept = s ∙ ap (◌∷◌ none) r.kept;
      left = f ∙ r.left;
      distinct = r.distinct;
      available = r.available;
    }
claim_explicit-Claims free (some want ∷ wishes) c e = elim (Bool-cases (contains free want)) [
  | inl here ↦
      let (c', found, f, s) =
        claim_next_inv (some want) (claim_explicit (remove want free) wishes) c (rw here at e) in
      let r = claim_explicit-Claims (remove want free) wishes c' found in
      let (fresh, rest) = All-contains-remove want (fixed wishes) free r.available in
      record {
        kept = s ∙ ap (◌∷◌ (some want)) r.kept;
        left = f ∙ r.left;
        distinct = (fresh, r.distinct);
        available = (here, rest);
      }
  | inr gone ↦ cc (let e' : none ≡ some c = rw gone at e in e')
]

pub claim_explicit_total :
    (free : List Port) (wishes : List (Option Port))
    → Distinct (fixed wishes)
    → Subset (fixed wishes) free
    → (c : Claimed) × (claim_explicit free wishes ≡ some c)
unfolding claim_explicit
claim_explicit_total free [] d s = (record { free = free; slots = [] }, refl)
claim_explicit_total free (none ∷ wishes) d s =
    let (c, e) = claim_explicit_total free wishes d s in (record c { slots = none ∷ c.slots }, rw e)
claim_explicit_total free (some want ∷ wishes) d s =
    let (c, e) =
      claim_explicit_total (remove want free) wishes d.1
        (Subset-remove want (fixed wishes) free d.0 s.1) in
    (record c { slots = some want ∷ c.slots }, rw (s.0, e))
