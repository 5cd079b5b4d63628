-- ===== src/Scheduling/Ports.antt =====
-- pkg/controllers/provisioning/scheduling/ports.go. A Go set of ports is a list of its keys in some
-- order. `free`, `out` and `autoIdx` of ResolveAutoAssign are the record `Claimed`: `slots` is `out`
-- with `none` at the indices that `autoIdx` holds.
-- A range whose upper end is the greatest `int` is here the finite set of its ports; the Go loop over
-- it does not end, since `p++` wraps around: see Loop.
pub mod Free
pub mod Values
pub mod Order
pub mod Claim
pub mod Assign
pub mod Loop
pub mod Success
mod Tests
use mathlib.Core.List.{reverse}
use frp_operator.Prelude.{
  ℕ, zero, suc, ◌+◌, ◌-◌, ◌%◌, ◌^◌, String, ◌≡◌, refl, Bool, true, false, ◌||◌, Option, none, some,
  List, [], ◌∷◌, leb, ltb, nat_eq, ◌==◌, if◌then◌else◌, add, remove, contains, add_all, remove_all,
  length, is_some, map,
}
use frp_operator.Prelude.Int.{ℤ, pos, negsuc}
use frp_operator.Text.{codes, trim_space, cut, atoi}
use frp_operator.Api.{Port, TunnelPort}

-- `int32(p)`.
unfoldable pub to_int32 : ℕ → Port
to_int32 p = p % 4294967296

-- The order of `int32` on bit patterns: the sign bit flipped makes it that of the numbers.
unfoldable pub signed_key : Port → ℕ
signed_key p = (p + 2147483648) % 4294967296

-- for p := lo; p <= hi; p++ { free[int32(p)] = struct{}{} }, with the count of rounds left.
unfoldable pub add_range : ℕ → ℕ → List Port → List Port
unfolding to_int32
add_range p zero free = free
add_range p (suc rounds) free = add_range (p + 1) rounds (add (to_int32 p) free)

-- A part that comes before a `-` has no sign of its own, so `lo` is not negative here.
add_bounds : Option ℤ → Option ℤ → List Port → List Port
unfolding add_range
add_bounds (some (pos lo)) (some (pos hi)) free =
    if ltb hi lo then free else add_range lo (hi - lo + 1) free
add_bounds _ _ free = free

add_single : Option ℤ → List Port → List Port
unfolding to_int32
add_single (some (pos n)) free = add (to_int32 n) free
add_single _ free = free

-- One entry of `AllowPorts`: blank, a range, or one port. What does not parse is skipped.
add_trimmed : List ℕ → List Port → List Port
unfolding cut atoi trim_space add_bounds add_single
add_trimmed [] free = free
add_trimmed (c ∷ cs) free = elim (cut b'-' (c ∷ cs)) [
  | none ↦ add_single (atoi (c ∷ cs)) free
  | some (lo, hi) ↦ add_bounds (atoi (trim_space lo)) (atoi (trim_space hi)) free
]

add_specs : List String → List Port → List Port
unfolding add_trimmed
add_specs [] free = free
add_specs (spec ∷ specs) free = add_specs specs (add_trimmed (trim_space (codes spec)) free)

-- `computeFree`.
pub compute_free : List String → List Port → List Port → List Port
unfolding add_specs
compute_free allow reserved used = remove_all used (remove_all reserved (add_specs allow []))

-- One round of the insertion sort: `sorted` is out[i-1], …, out[0], and the inner loop moves out[i]
-- down past what is greater.
sink : Port → List Port → List Port
unfolding signed_key
sink x [] = x ∷ []
sink x (y ∷ sorted) =
    if ltb (signed_key x) (signed_key y) then y ∷ sink x sorted else x ∷ y ∷ sorted

sort_rounds : List Port → List Port → List Port
unfolding sink
sort_rounds sorted [] = sorted
sort_rounds sorted (x ∷ rest) = sort_rounds (sink x sorted) rest

-- `sortedKeys`, for the keys in the order in which the map yields them.
pub sorted_keys : List Port → List Port
unfolding sort_rounds
sorted_keys keys = reverse (sort_rounds [] keys)

pub record Claimed : Type 0 where
  pub free : List Port
  pub slots : List (Option Port)

-- The port of a request, with `none` for auto-assignment: PublicPort nil or 0.
pub wanted : TunnelPort → Option Port
wanted p = elim p.public_port [ none ↦ none | some want ↦ if want == 0 then none else some want ]

abbrev pub claim_next : Option Port → Option Claimed → Option Claimed
claim_next slot none = none
claim_next slot (some c) = some (record c { slots = slot ∷ c.slots })

-- Pass 1, over the ports that the requests want: claims the explicit ones in order.
pub claim_explicit : List Port → List (Option Port) → Option Claimed
claim_explicit free [] = some (record { free = free; slots = [] })
claim_explicit free (none ∷ wishes) = claim_next none (claim_explicit free wishes)
claim_explicit free (some want ∷ wishes) =
    if contains free want
    then claim_next (some want) (claim_explicit (remove want free) wishes)
    else none

-- `len(autoIdx)`.
abbrev pub autos : List (Option Port) → ℕ
autos [] = 0
autos (none ∷ slots) = suc (autos slots)
autos (some p ∷ slots) = autos slots

-- Pass 2: out[idx] = freeSorted[n]. An index out of range, which would panic, does not occur below
-- the length test.
abbrev pub fill : List (Option Port) → List Port → List Port
fill [] sorted = []
fill (some p ∷ slots) sorted = p ∷ fill slots sorted
fill (none ∷ slots) (q ∷ sorted) = q ∷ fill slots sorted
fill (none ∷ slots) [] = []

pub assign_autos : Claimed → Option (List Port)
unfolding sorted_keys
assign_autos c =
    if autos c.slots == 0
    then some (fill c.slots [])
    else (let sorted = sorted_keys c.free in
        if ltb (length sorted) (autos c.slots) then none else some (fill c.slots sorted))

-- `ResolveAutoAssign`.
pub resolve_auto_assign : List String → List Port → List Port → List TunnelPort → Option (List Port)
resolve_auto_assign allow reserved used requested =
    elim (claim_explicit (compute_free allow reserved used) (map wanted requested)) [
      | none ↦ none
      | some c ↦ assign_autos c
    ]

-- `PortsFit`.
pub ports_fit : List String → List Port → List Port → List TunnelPort → Bool
ports_fit allow reserved used requested =
    is_some (resolve_auto_assign allow reserved used requested)

-- What a run of `resolve_auto_assign` computes with.
unfoldable pub resolving : Unit {0}
unfolding compute_free wanted claim_explicit assign_autos resolve_auto_assign
resolving = tt
