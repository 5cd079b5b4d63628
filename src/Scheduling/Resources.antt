-- ===== src/Scheduling/Resources.antt =====
-- pkg/controllers/provisioning/scheduling/resources.go, over any type of quantities.
use frp_operator.Prelude.{
  Bool, true, false, Option, none, some, List, [], ◌∷◌, string_eq, if◌then◌else◌,
}
use frp_operator.Prelude.Maps.{lookup, insert}
use frp_operator.Api.{ResourceList, Quantity, is_lt}

module _ {Q : Type 0} ⦃q : Quantity Q⦄ where
  -- `ResourcesFit`.
  pub resources_fit : ResourceList Q → ResourceList Q → Bool
  resources_fit available [] = true
  resources_fit available ((k, req) ∷ requested) =
      let rest = resources_fit available requested in
      elim (lookup k available) [
        | none ↦ rest
        | some avail ↦ if is_lt (q.cmp avail req) then false else rest
      ]

  abbrev pub minus_requested : Option Q → Q → Q
  minus_requested none v = v
  minus_requested (some r) v = q.minus v r

  -- `Subtract`: the keys of `available`, in its order.
  pub subtract : ResourceList Q → ResourceList Q → ResourceList Q
  subtract [] requested = []
  subtract ((k, v) ∷ available) requested =
      (k, minus_requested (lookup k requested) v) ∷ subtract available requested

  abbrev pub plus_found : Option Q → Q → Q
  plus_found none v = v
  plus_found (some cur) v = q.plus cur v

  -- The inner loop of `Sum`: one list added to `out`.
  unfoldable pub add_list : ResourceList Q → ResourceList Q → ResourceList Q
  add_list [] out = out
  add_list ((k, v) ∷ l) out = add_list l (insert k (plus_found (lookup k out) v) out)

  sum_onto : List (ResourceList Q) → ResourceList Q → ResourceList Q
  sum_onto [] out = out
  sum_onto (l ∷ lists) out = sum_onto lists (add_list l out)

  -- `Sum`.
  pub sum : List (ResourceList Q) → ResourceList Q
  unfolding sum_onto
  sum lists = sum_onto lists []

-- What a run of `resources_fit`, `subtract` and `sum` computes with.
unfoldable pub totalling : Unit {0}
unfolding resources_fit subtract add_list sum_onto sum
totalling = tt
