-- ===== src/Api/Resources.antt =====
-- Resource lists over `resource.Quantity` of apimachinery, which is no code of this repository: the
-- quantities are a type `Q` with the methods that the operator calls. Go's maps are association lists
-- that stand for the map in some order of its keys.
use Prim.Native.Nat.{Ordering}
use frp_operator.Prelude.{String, Bool, true, false, ◌≡◌, List}

-- `Cmp`, `Add` and `Sub`.
pub record Quantity (Q : Type 0) : Type 0 where
  pub cmp : Q → Q → Ordering
  pub plus : Q → Q → Q
  pub minus : Q → Q → Q

abbrev pub ResourceList : Type 0 → Type 0
ResourceList Q = List (String × Q)

abbrev pub is_lt : Ordering → Bool
is_lt Ordering.lt = true
is_lt _ = false

-- Documented behaviour of a `Quantity`: subtraction is exact, so what is left after `s` covers `r`
-- just if the whole covers `s` and `r` together.
pub record QuantityLaws {Q : Type 0} (q : Quantity Q) : Type 0 where
  pub minus_covers : (a s r : Q) → is_lt (q.cmp (q.minus a s) r) ≡ is_lt (q.cmp a (q.plus s r))
