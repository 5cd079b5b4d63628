-- ===== src/Exitpool.antt =====
-- pkg/controllers/exitpool: the controllers that write the status of a pool. This file is the counter
-- (counter/controller.go); Surfaces is readiness and validation, Totals what the counter adds up.
pub mod Totals
pub mod Surfaces
mod Tests
use Prim.Native.Nat.{Ordering}
use frp_operator.Prelude.{
  ℕ, suc, String, Bool, true, false, ◌&&◌, not, Option, none, some, List, [], ◌∷◌, string_eq,
  nat_eq, ◌==◌, is_some, length, Result, ok, err, if◌then◌else◌,
}
use frp_operator.Prelude.Maps.{lookup, insert}
use frp_operator.Kube.{ApiError, ignore_not_found, Requeue, done}
use frp_operator.Api.{ExitClaim, ExitPool, ResourceList, Quantity, resource_exits, label_exit_pool}
use frp_operator.Scheduling.Resources.{add_list}
use frp_operator.Disruption.Methods.{text_at}

-- What the counter calls. `list_claims_of` lists by the pool label.
pub record Outside (Q W : Type 0) : Type 0 where
  pub get_pool : String → W → Result ApiError (ExitPool Q) × W
  pub list_claims_of : String → W → Result ApiError (List (ExitClaim Q)) × W
  pub patch_status : ExitPool Q → W → Option ApiError × W

abbrev pub is_eq : Ordering → Bool
is_eq Ordering.eq = true
is_eq _ = false

module _ {Q : Type 0} ⦃q : Quantity Q⦄ where
  -- The value is there and compares equal.
  abbrev pub same_value : Q → Option Q → Bool
  same_value v none = false
  same_value v (some other) = is_eq (q.cmp v other)

  -- The loop of `resourceListsEqual`.
  pub all_same : ResourceList Q → ResourceList Q → Bool
  all_same [] b = true
  all_same ((k, v) ∷ a) b =
      let rest = all_same a b in if same_value v (lookup k b) then rest else false

  -- `resourceListsEqual`.
  pub resource_lists_equal : ResourceList Q → ResourceList Q → Bool
  unfolding all_same
  resource_lists_equal a b = if length a == length b then all_same a b else false

  -- The loop of `Reconcile`: the claims that are not being deleted, and the sums of what they have.
  pub roll_up : List (ExitClaim Q) → ℕ → ResourceList Q → ℕ × ResourceList Q
  unfolding add_list
  roll_up [] exits resources = (exits, resources)
  roll_up (c ∷ claims) exits resources =
      if is_some c.meta.deletion_timestamp
      then roll_up claims exits resources
      else roll_up claims (suc exits) (add_list c.status.allocatable resources)

  module _ (of_int : ℕ → Q) where
    -- The count and the resources for the status; `of_int` is `resource.NewQuantity`.
    pub totals : List (ExitClaim Q) → ℕ × ResourceList Q
    unfolding roll_up
    totals claims =
        let (exits, resources) = roll_up claims 0 [] in
        (exits, insert resource_exits (of_int exits) resources)

    -- The pool with that status.
    abbrev pub with_totals : ExitPool Q → ℕ × ResourceList Q → ExitPool Q
    with_totals pool (exits, resources) = record pool {
      status = record pool.status { exits = exits; resources = resources };
    }

    -- The status that the pool has already.
    pub up_to_date : ExitPool Q → ℕ × ResourceList Q → Bool
    unfolding resource_lists_equal
    up_to_date pool (exits, resources) =
        pool.status.exits == exits && resource_lists_equal pool.status.resources resources

    -- `Reconcile` of the counter.
    pub reconcile_counter :
        {W : Type 0} → Outside Q W → String → W → (Requeue × Option ApiError) × W
    unfolding totals up_to_date
    reconcile_counter out name w =
        let (answer, w1) = out.get_pool name w in
        elim answer [
          | err e ↦ ((done, ignore_not_found e), w1)
          | ok pool ↦ elim (is_some pool.meta.deletion_timestamp) [
            | true ↦ ((done, none), w1)
            | false ↦
                let (listed, w2) = out.list_claims_of pool.meta.name w1 in
                elim listed [
                  | err e ↦ ((done, some e), w2)
                  | ok claims ↦ elim (up_to_date pool (totals claims)) [
                    | true ↦ ((done, none), w2)
                    | false ↦
                        let (failure, w3) =
                          out.patch_status (with_totals pool (totals claims)) w2 in
                        ((done, failure), w3)
                  ]
                ]
          ]
        ]

-- `claimToPool` of the counter: the pool that an event of the claim has counted anew.
pub claim_to_pool : {Q : Type 0} → ExitClaim Q → Option String
claim_to_pool c =
    let name = text_at label_exit_pool c.meta.labels in if name == "" then none else some name
