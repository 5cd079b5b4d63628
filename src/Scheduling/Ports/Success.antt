-- ===== src/Scheduling/Ports/Success.antt =====
-- The conditions under which `ResolveAutoAssign` of ports.go returns ports.
use frp_operator.Prelude.{
  ℕ, ◌∙◌, All, ◌+◌, ◌≤◌, String, ◌≡◌, refl, ap, ◌↔◌, inl, inr, true, false, Option, none, some,
  List, [], ◌∷◌, map, arith, nat_eq, Distinct, remove, contains, remove_all, remove-Distinct,
  length, nat_beq_iff, Option-cases,
}
use frp_operator.Api.{Port, TunnelPort}
use frp_operator.Scheduling.Ports.{
  compute_free, sorted_keys, Claimed, wanted, claim_explicit, autos, fill, assign_autos,
  resolve_auto_assign,
}
use frp_operator.Scheduling.Ports.Loop.{Ends, resolve_loop, resolve_loop-Ends}
use frp_operator.Scheduling.Ports.Values.{compute_free-Distinct}
use frp_operator.Scheduling.Ports.Order.{sorted_keys-perm}
use frp_operator.Scheduling.Ports.Claim.{
  fixed, Subset, Claims, claim_explicit-Claims, claim_explicit_total, Subset-remove,
}
use frp_operator.Scheduling.Ports.Assign.{explicit, fill_full, assign_autos_cases}
use frp_operator.Prelude.Perms.{length-perm}
use frp_operator.Scheduling.Ports.Claim.{Subset-remove}
use frp_operator.Prelude.{length-map}

length-remove :
    (p : Port) (xs : List Port)
    → Distinct xs
    → contains xs p ≡ true
    → length (remove p xs) + 1 ≡ length xs
length-remove p [] d h = cc
length-remove p (x ∷ xs) d h =
    ground (arith, length-remove p xs d.1, remove_absent p xs, nat_beq_iff x p)
  where
    remove_absent : (q : Port) (ys : List Port) → contains ys q ≡ false → remove q ys ≡ ys
    remove_absent q [] h = refl
    remove_absent q (y ∷ ys) h = ground (arith, remove_absent q ys)

length-remove_all :
    (ps xs : List Port)
    → Distinct xs
    → Distinct ps
    → Subset ps xs
    → length (remove_all ps xs) + length ps ≡ length xs
length-remove_all [] xs d dp s = omega arith
length-remove_all (p ∷ ps) xs d dp s = omega (
  arith,
  length-remove p xs d s.0,
  length-remove_all ps (remove p xs) (remove-Distinct p xs d) dp.1 (Subset-remove p ps xs dp.0 s.1),
)

autos-add-fixed : (slots : List (Option Port)) → autos slots + length (fixed slots) ≡ length slots
autos-add-fixed [] = omega arith
autos-add-fixed (none ∷ slots) = omega (arith, autos-add-fixed slots)
autos-add-fixed (some p ∷ slots) = omega (arith, autos-add-fixed slots)

length-sorted_keys : (keys : List Port) → length (sorted_keys keys) ≡ length keys
length-sorted_keys keys = length-perm _ _ (sorted_keys-perm keys)

assign_autos_total :
    (c : Claimed)
    → autos c.slots ≤ length (sorted_keys c.free)
    → (out : List Port) × (assign_autos c ≡ some out)
unfolding assign_autos
assign_autos_total c h =
    (fill c.slots (sorted_keys c.free), ground (arith, fill_full c.slots (sorted_keys c.free)))

-- The request can be met: the explicit ports are distinct and free, and enough ports are free.
abbrev pub CanAssign : List Port → List TunnelPort → Type 0
CanAssign free requested =
    Distinct (explicit requested)
    × Subset (explicit requested) free
    × (length requested ≤ length free)

module _ (free : List Port) (requested : List TunnelPort) (c : Claimed)
    (free-Distinct : Distinct free) (claims : Claims free (map wanted requested) c) where
  -- The ports left over after pass 1, counted.
  length-left :
      (autos c.slots + length (explicit requested) ≡ length requested)
      × (length (sorted_keys c.free) + length (explicit requested) ≡ length free)
  length-left = (
    omega (
      arith,
      autos-add-fixed c.slots,
      ap length (ap fixed claims.kept),
      ap length claims.kept,
      length-map requested wanted,
    ),
    omega (
      arith,
      length-sorted_keys c.free,
      ap length claims.left,
      length-remove_all (explicit requested) free free-Distinct claims.distinct claims.available,
    ),
  )

resolve_auto_assign_iff :
    (allow : List String) (reserved used : List Port) (requested : List TunnelPort)
    → ((out : List Port) × (resolve_auto_assign allow reserved used requested ≡ some out))
      ↔ CanAssign (compute_free allow reserved used) requested
unfolding resolve_auto_assign
resolve_auto_assign_iff allow reserved used requested = (succeeded, total)
  where
    free : List Port
    free = compute_free allow reserved used

    succeeded :
        (out : List Port) × (resolve_auto_assign allow reserved used requested ≡ some out)
        → CanAssign free requested
    succeeded (out, e) = elim (Option-cases (claim_explicit free (map wanted requested))) [
      | inl failed ↦ let e' : none ≡ some out = rw (failed, resolve_auto_assign) at e in cc
      | inr (c, claimed) ↦
          let e' : assign_autos c ≡ some out = rw (claimed, resolve_auto_assign) at e in
          let (enough, filled) = assign_autos_cases c out e' in
          let claims = claim_explicit-Claims free (map wanted requested) c claimed in
          let (wish_count, free_count) =
            length-left free requested c (compute_free-Distinct allow reserved used) claims in
          (claims.distinct, claims.available, omega arith)
    ]

    total :
        CanAssign free requested
        → (out : List Port) × (resolve_auto_assign allow reserved used requested ≡ some out)
    total (distinct, available, count) =
        let (c, claimed) = claim_explicit_total free (map wanted requested) distinct available in
        let claims = claim_explicit-Claims free (map wanted requested) c claimed in
        let (wish_count, free_count) =
          length-left free requested c (compute_free-Distinct allow reserved used) claims in
        let (out, e) = assign_autos_total c (omega arith) in
        (out, rw (claimed, resolve_auto_assign) e)

-- Where no entry of AllowPorts is a range up to the greatest int, over which the loop of computeFree would
-- not end, ResolveAutoAssign ends within 2^63 rounds of each of its loops over a range, and succeeds exactly
-- when the explicitly requested ports are distinct and free and the free ports are at least as many as the
-- requested ones.
pub resolve_auto_assign_succeeds :
    (fuel : ℕ) (allow : List String) (reserved used : List Port) (requested : List TunnelPort)
    → 9223372036854775808 ≤ fuel
    → All Ends allow
    → ((answer : Option (List Port)) × (resolve_loop fuel allow reserved used requested
          ≡ some answer))
      × (((out : List Port) × (resolve_loop fuel allow reserved used requested ≡ some (some out)))
          ↔ CanAssign (compute_free allow reserved used) requested)
resolve_auto_assign_succeeds fuel allow reserved used requested enough ends =
    let answers = resolve_loop-Ends fuel enough allow reserved used requested ends in
    let exact = resolve_auto_assign_iff allow reserved used requested in
    (
      (resolve_auto_assign allow reserved used requested, answers),
      (
        λ (out, e).
            let e' : resolve_auto_assign allow reserved used requested ≡ some out = cc in
            exact.0 (out, e'),
        λ can.
            let (out, e) = exact.1 can in
            (out, answers ∙ ap (λ (o : Option (List Port)). some o) e),
      ),
    )
