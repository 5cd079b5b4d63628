-- ===== src/Scheduling/Ports/Tests.antt =====
-- Runs of `ResolveAutoAssign` and `sortedKeys` on concrete ports.
use mathlib.Core.List.Perm
use frp_operator.Prelude.{
  String, ◌≡◌, refl, ◌↔◌, true, false, Option, none, some, List, [], ◌∷◌, contains, All, Perm,
  arith, nat_eq, ℕ,
}
use frp_operator.Api.{Port, TunnelPort}
use frp_operator.Scheduling.Ports.{resolving, compute_free, sorted_keys, resolve_auto_assign}
use frp_operator.Scheduling.Ports.Free.{Covered, contains-compute_free}
use frp_operator.Scheduling.Ports.Order.{Ascending, sorted_keys_order_irrelevant, sorted_keys-sorts}
use frp_operator.Text.{cut, atoi, trim_space}
use frp_operator.Scheduling.Ports.Loop.{Ends, resolve_loop}
use frp_operator.Scheduling.Ports.Values.{IsInt32}
use frp_operator.Scheduling.Ports.Assign.{IsAssignment, resolve_auto_assign-IsAssignment}
use frp_operator.Scheduling.Ports.Success.{CanAssign, resolve_auto_assign_succeeds}

abbrev request : Option Port → TunnelPort
request p = record { name = ""; public_port = p; service_port = 80; protocol = "TCP" }

abbrev allowed : List String
allowed = "80" ∷ " 1024 - 1027 " ∷ "x" ∷ []

abbrev mixed : List TunnelPort
mixed = request none ∷ request (some 80) ∷ request (some 0) ∷ []

resolve_mixed :
    resolve_auto_assign allowed (1025 ∷ []) (1024 ∷ []) mixed ≡ some (1026 ∷ 80 ∷ 1027 ∷ [])
unfolding resolving
resolve_mixed = refl

resolve_conflict :
    resolve_auto_assign ("80-81" ∷ []) [] [] (request (some 80) ∷ request (some 80) ∷ []) ≡ none
unfolding resolving
resolve_conflict = refl

resolve_auto_assign-IsAssignment_example :
    IsAssignment (compute_free allowed (1025 ∷ []) (1024 ∷ [])) mixed (1026 ∷ 80 ∷ 1027 ∷ [])
resolve_auto_assign-IsAssignment_example =
    resolve_auto_assign-IsAssignment allowed (1025 ∷ []) (1024 ∷ []) mixed (1026 ∷ 80 ∷ 1027 ∷ [])
      resolve_mixed

allowed-Ends : All Ends allowed
unfolding cut atoi trim_space
allowed-Ends = (tt, (omega arith, (tt, tt)))

abbrev rounds : ℕ
rounds = 9223372036854775808

resolve_auto_assign_succeeds_example :
    ((answer : Option (List Port)) × (resolve_loop rounds allowed (1025 ∷ []) (1024 ∷ []) mixed
        ≡ some answer))
    × (((out : List Port) × (resolve_loop rounds allowed (1025 ∷ []) (1024 ∷ []) mixed
            ≡ some (some out)))
        ↔ CanAssign (compute_free allowed (1025 ∷ []) (1024 ∷ [])) mixed)
resolve_auto_assign_succeeds_example =
    resolve_auto_assign_succeeds rounds allowed (1025 ∷ []) (1024 ∷ []) mixed (omega arith)
      allowed-Ends

abbrev reserved_one : List Port
reserved_one = 1025 ∷ []

abbrev used_one : List Port
used_one = 1024 ∷ []

contains-compute_free_example :
    (contains (compute_free allowed reserved_one used_one) 1026 ≡ true) ↔ (
      Covered allowed 1026
      × (contains reserved_one 1026 ≡ false)
      × (contains used_one 1026 ≡ false))
contains-compute_free_example = contains-compute_free allowed reserved_one used_one 1026

small : All IsInt32 (3 ∷ 4294967295 ∷ [])
small = (omega arith, (omega arith, tt))

sorted_keys_order_irrelevant_example :
    sorted_keys (3 ∷ 4294967295 ∷ []) ≡ sorted_keys (4294967295 ∷ 3 ∷ [])
sorted_keys_order_irrelevant_example =
    sorted_keys_order_irrelevant (3 ∷ 4294967295 ∷ []) (4294967295 ∷ 3 ∷ []) small
      (Perm.swap 4294967295 3 [])

sorted_keys-sorts_example :
    Ascending (sorted_keys (3 ∷ 4294967295 ∷ []))
    × Perm (sorted_keys (3 ∷ 4294967295 ∷ [])) (3 ∷ 4294967295 ∷ [])
sorted_keys-sorts_example = sorted_keys-sorts (3 ∷ 4294967295 ∷ [])
