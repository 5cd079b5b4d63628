-- ===== src/Exitpool/Totals.antt =====
-- The counter of a pool adds up what the claims of the pool have, and leaves a status alone that is right.
use Prim.Native.Nat.{Ordering}
use frp_operator.Prelude.{
  same-cases, subst, ℕ, suc, ◌+◌, String, ◌≡◌, ◌≢◌, refl, sym, ap, ◌∙◌, inl, inr, Bool, true, false,
  not, Option, none, some, List, [], ◌∷◌, string_eq, nat_eq, arith, is_some, length, keep, All,
  Distinct, Bool-cases, beq_refl, same-of_ne, ok, contains,
}
use frp_operator.Prelude.Maps.{
  lookup, insert, keys, lookup-insert_self, lookup-insert_other, insert-Distinct, lookup_absent,
  lookup_entries,
}
use frp_operator.Kube.{done}
use frp_operator.Api.{ExitClaim, ExitPool, ResourceList, Quantity, resource_exits}
use frp_operator.Scheduling.Resources.{add_list, plus_found}
use frp_operator.Exitpool.{
  Outside, all_same, resource_lists_equal, roll_up, totals, with_totals, up_to_date,
  reconcile_counter,
}

module _ {Q : Type 0} ⦃q : Quantity Q⦄ where
  -- A sum to which a quantity is added, if there is one.
  abbrev pub plus_both : Option Q → Option Q → Option Q
  plus_both sum none = sum
  plus_both sum (some v) = some (plus_found sum v)

  abbrev pub remains : ExitClaim Q → Bool
  remains c = not (is_some c.meta.deletion_timestamp)

  -- The sum of what the claims have of a resource, if one has any.
  abbrev pub total_of : String → List (ExitClaim Q) → Option Q → Option Q
  total_of k [] sum = sum
  total_of k (c ∷ claims) sum = total_of k claims (plus_both sum (lookup k c.status.allocatable))

  -- The resources of a claim are a map.
  abbrev pub HasMap : ExitClaim Q → Type 0
  HasMap c = Distinct (keys c.status.allocatable)

  lookup-add_list :
      (k : String) (l out : ResourceList Q)
      → Distinct (keys l)
      → lookup k (add_list l out) ≡ plus_both (lookup k out) (lookup k l)
  unfolding add_list
  lookup-add_list k [] out d = refl
  lookup-add_list k ((j, v) ∷ l) out d =
      let new : Q = plus_found (lookup j out) v in
      lookup-add_list k l (insert j new out) d.1 ∙ (elim (same-cases j k) [
        | inl at ↦
            let absent : lookup k l ≡ none =
              lookup_absent k l (subst (λ x. contains (keys l) x ≡ false) at d.0) in
            rw (at, absent, lookup-insert_self k (plus_found (lookup k out) v) out, beq_refl k) refl
        | inr n ↦ rw (lookup-insert_other j k new out (λ q. n (sym q)), same-of_ne j k n) refl
      ])

  lookup-roll_up :
      (k : String) (claims : List (ExitClaim Q)) (n : ℕ) (out : ResourceList Q)
      → All HasMap claims
      → lookup k (roll_up claims n out).1 ≡ total_of k (keep remains claims) (lookup k out)
  unfolding roll_up
  lookup-roll_up k [] n out m = refl
  lookup-roll_up k (c ∷ claims) n out m = elim (Bool-cases (is_some c.meta.deletion_timestamp)) [
    | inl e ↦ rw (e) (lookup-roll_up k claims n out m.1)
    | inr e ↦ rw (e) (
        lookup-roll_up k claims (suc n) (add_list c.status.allocatable out) m.1
        ∙ ap (total_of k (keep remains claims)) (lookup-add_list k c.status.allocatable out m.0))
  ]

  length-roll_up :
      (claims : List (ExitClaim Q)) (n : ℕ) (out : ResourceList Q)
      → (roll_up claims n out).0 ≡ n + length (keep remains claims)
  unfolding roll_up
  length-roll_up [] n out = omega arith
  length-roll_up (c ∷ claims) n out = elim (Bool-cases (is_some c.meta.deletion_timestamp)) [
    | inl e ↦ rw (e) (length-roll_up claims n out)
    | inr e ↦
        rw (e) (omega (arith, length-roll_up claims (suc n) (add_list c.status.allocatable out)))
  ]

  add_list-Distinct :
      (l out : ResourceList Q) → Distinct (keys out) → Distinct (keys (add_list l out))
  unfolding add_list
  add_list-Distinct [] out d = d
  add_list-Distinct ((j, v) ∷ l) out d =
      let new : Q = plus_found (lookup j out) v in
      add_list-Distinct l (insert j new out) (insert-Distinct j new out d)

  roll_up-Distinct :
      (claims : List (ExitClaim Q)) (n : ℕ) (out : ResourceList Q)
      → Distinct (keys out)
      → Distinct (keys (roll_up claims n out).1)
  unfolding roll_up
  roll_up-Distinct [] n out d = d
  roll_up-Distinct (c ∷ claims) n out d = elim (Bool-cases (is_some c.meta.deletion_timestamp)) [
    | inl e ↦ rw (e) (roll_up-Distinct claims n out d)
    | inr e ↦ rw (e) (
        roll_up-Distinct claims (suc n) (add_list c.status.allocatable out)
          (add_list-Distinct c.status.allocatable out d))
  ]

  all_same_of_entries :
      (a b : ResourceList Q)
      → ((x : Q) → q.cmp x x ≡ Ordering.eq)
      → All (λ (kv : String × Q). lookup kv.0 b ≡ some kv.1) a
      → all_same a b ≡ true
  unfolding all_same
  all_same_of_entries [] b reflexive h = refl
  all_same_of_entries ((k, v) ∷ a) b reflexive h =
      rw (h.0, reflexive v) (all_same_of_entries a b reflexive h.1)

  module _ (of_int : ℕ → Q) where
    -- The counter counts the claims of the pool that are not being deleted, and gives each resource but
    -- that count the sum of what these claims have of it, and none where none of them has it.
    pub totals_iff :
        (claims : List (ExitClaim Q))
        → All HasMap claims
        → ((totals of_int claims).0 ≡ length (keep remains claims))
          × (lookup resource_exits (totals of_int claims).1
              ≡ some (of_int (length (keep remains claims))))
          × ((k : String)
              → k ≢ resource_exits
              → lookup k (totals of_int claims).1 ≡ total_of k (keep remains claims) none)
    unfolding totals
    totals_iff claims maps =
        let n : ℕ = (roll_up claims 0 []).0 in
        let counted : n ≡ length (keep remains claims) =
          omega (arith, length-roll_up claims 0 []) in
        (
          counted,
          lookup-insert_self resource_exits (of_int n) (roll_up claims 0 []).1
              ∙ ap (λ m. some (of_int m)) counted,
          λ k apart.
              lookup-insert_other resource_exits k (of_int n) (roll_up claims 0 []).1 apart
              ∙ lookup-roll_up k claims 0 [] maps,
        )

    up_to_date-with_totals :
        ((x : Q) → q.cmp x x ≡ Ordering.eq)
        → (pool : ExitPool Q) (claims : List (ExitClaim Q))
        → up_to_date of_int (with_totals of_int pool (totals of_int claims)) (totals of_int claims)
          ≡ true
    unfolding up_to_date totals resource_lists_equal
    up_to_date-with_totals reflexive pool claims =
        let r : ResourceList Q = (totals of_int claims).1 in
        let d : Distinct (keys r) =
          insert-Distinct resource_exits (of_int (roll_up claims 0 []).0) (roll_up claims 0 []).1
            (roll_up-Distinct claims 0 [] tt) in
        let same = all_same_of_entries r r reflexive (lookup_entries r d) in
        rw (beq_refl (totals of_int claims).0, beq_refl (length r), same) refl

    -- The counter leaves a status alone that it has written from the claims that it lists: it makes no
    -- call but Get and List.
    pub reconcile_counter_settled :
        {W : Type 0} (out : Outside Q W) (name : String) (w : W) (pool : ExitPool Q)
        (claims : List (ExitClaim Q))
        → ((x : Q) → q.cmp x x ≡ Ordering.eq)
        → pool.meta.deletion_timestamp ≡ none
        → (out.get_pool name w).0 ≡ ok (with_totals of_int pool (totals of_int claims))
        → (out.list_claims_of pool.meta.name (out.get_pool name w).1).0 ≡ ok claims
        → reconcile_counter of_int out name w
          ≡ ((done, none), (out.list_claims_of pool.meta.name (out.get_pool name w).1).1)
    unfolding reconcile_counter
    reconcile_counter_settled out name w pool claims reflexive live_pool got listed =
        rw (reconcile_counter, got, live_pool, listed, up_to_date-with_totals reflexive pool claims)
          refl
