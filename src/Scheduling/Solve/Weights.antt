-- ===== src/Scheduling/Solve/Weights.antt =====
-- `sortPoolsByWeight` of scheduler.go.
use frp_operator.Prelude.{◌≤◌, ◌≡◌, false, List, [], ◌∷◌, Perm, arith, All, All-map}
use frp_operator.Prelude.Sort.{
  slice_stable, slice_stable-perm, slice_stable-Sorted, Sorted, IsStrict,
}
use frp_operator.Api.{ExitPool}
use frp_operator.Scheduling.Solve.{weight, heavier, sort_pools_by_weight}

module _ {Q : Type 0} where
  -- Each pool is at least as heavy as those behind it.
  abbrev pub Descending : List (ExitPool Q) → Type 0
  Descending [] = Unit
  Descending (p ∷ pools) = All (λ r. weight r ≤ weight p) pools × Descending pools

  heavier-IsStrict : IsStrict (heavier {Q = Q})
  unfolding heavier
  heavier-IsStrict = record {
    asymmetric = λ x y h. ground arith;
    not_less_trans = λ x y z h k. ground arith;
  }

  heavier-le : (p r : ExitPool Q) → heavier r p ≡ false → weight r ≤ weight p
  unfolding heavier
  heavier-le p r h = ground arith

  Sorted-Descending : (pools : List (ExitPool Q)) → Sorted heavier pools → Descending pools
  Sorted-Descending [] s = tt
  Sorted-Descending (p ∷ pools) s =
      (All-map pools (λ r h. heavier-le p r h) s.0, Sorted-Descending pools s.1)

  -- `sortPoolsByWeight` keeps every pool, as often as it is given, and puts them in descending order of
  -- weight, where a pool without a weight has weight 0.
  pub sort_pools_by_weight-sorts :
      (pools : List (ExitPool Q))
      → Descending (sort_pools_by_weight pools) × Perm (sort_pools_by_weight pools) pools
  unfolding sort_pools_by_weight
  sort_pools_by_weight-sorts pools = (
    Sorted-Descending (slice_stable heavier pools)
        (slice_stable-Sorted heavier heavier-IsStrict pools),
    slice_stable-perm heavier pools,
  )
