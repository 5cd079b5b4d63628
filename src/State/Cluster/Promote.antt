-- ===== src/State/Cluster/Promote.antt =====
-- What `UpdateExit` of cluster.go does to the maps of the cluster when a claim has been launched.
use frp_operator.Prelude.{
  ◌==◌, ◌&&◌, not, String, ◌≡◌, ◌≢◌, refl, sym, ap, ◌∙◌, inl, inr, Option, none, some, List,
  string_eq, Bool-cases, same-cases, subst, beq_refl, not, same-of_ne,
}
use frp_operator.Prelude.Maps.{
  lookup, insert, delete, insert-cases, delete-cases, lookup-insert_self, lookup-insert_other,
  lookup-delete_other,
}
use frp_operator.Api.{ExitClaim}
use frp_operator.State.Exit.{StateExit, TunnelKey, TunnelBinding}
use frp_operator.State.Cluster.Fresh.{IsFresh}
use frp_operator.State.Cluster.{drop_orphan, with_claim}
use frp_operator.State.Cluster.Sound.{Sound, names_inj}

module _ {Q : Type 0} where
  -- What is left of the exits was there before, and is not the orphan.
  pub drop_orphan-cases :
      (old : Option String) (id j : String) (se : StateExit Q) (exits : List (String × StateExit Q))
      → lookup j (drop_orphan old id exits) ≡ some se
      → (lookup j exits ≡ some se) × (old ≡ some j → j ≢ "" → j ≡ id)
  unfolding drop_orphan
  drop_orphan-cases none id j se exits h = (h, λ e n. cc)
  drop_orphan-cases (some k) id j se exits h = elim (same-cases k "") [
    | inl e ↦ let h' : lookup j exits ≡ some se = rw (e) at h in (h', λ q n. absurd (n cc))
    | inr named ↦ elim (same-cases k id) [
      | inl e ↦
          let h' : lookup j exits ≡ some se =
            rw (e, beq_refl id, same-of_ne id "" (λ q. named (e ∙ q))) at h in
          (h', λ q n. cc)
      | inr other ↦
          let h' : lookup j (delete k exits) ≡ some se =
            rw (same-of_ne k "" named, same-of_ne k id other) at h in
          let (d, found) = delete-cases k j se exits h' in (found, λ q n. absurd (d cc))
    ]
  ]

  -- An exit stays unless it is the orphan.
  pub lookup-drop_orphan :
      (old : Option String) (id j : String) (exits : List (String × StateExit Q))
      → old ≢ some j
      → lookup j (drop_orphan old id exits) ≡ lookup j exits
  unfolding drop_orphan
  lookup-drop_orphan none id j exits n = refl
  lookup-drop_orphan (some k) id j exits n = elim (Bool-cases (not (k == "") && not (k == id))) [
    | inl e ↦ rw (e) (lookup-delete_other k j exits (λ q. n (ap some (sym q))))
    | inr e ↦ rw (e) refl
  ]

  with_claim-claim :
      (o : Option (StateExit Q)) (claim : ExitClaim Q) → (with_claim o claim).claim ≡ some claim
  unfolding with_claim
  with_claim-claim none claim = refl
  with_claim-claim (some se) claim = refl

  module _ {exits : List (String × StateExit Q)} {names : List (String × String)}
      {pending : List (String × ExitClaim Q)} (s : Sound exits names pending) (claim : ExitClaim Q)
      (launched : claim.status.provider_id ≢ "")
      (owned : (name : String)
        → lookup name names ≡ some claim.status.provider_id
        → name ≡ claim.meta.name) where
    open s use {exits_claimed, names_served, names_waiting, pending_named}

    abbrev name : String
    name = claim.meta.name

    abbrev id : String
    id = claim.status.provider_id

    abbrev pub left : List (String × StateExit Q)
    left = drop_orphan (lookup name names) id exits

    -- The exit of any other name is not the orphan.
    other_left :
        (other i : String)
        → other ≢ name
        → lookup other names ≡ some i
        → i ≢ ""
        → lookup i left ≡ lookup i exits
    other_left other i n known named =
        lookup-drop_orphan (lookup name names) id i exits
          (λ e. n (names_inj s other name i known e named))

    -- The maps after a promotion agree.
    pub promote-Sound :
        Sound
          (insert id (with_claim (lookup id left) claim) left)
          (insert name id names)
          (delete name pending)
    promote-Sound = record {
      exits_claimed = λ j se h.
          elim (insert-cases id j (with_claim (lookup id left) claim) se left h) [
            | inl (at, is_new) ↦ (
              claim,
              ap (λ (x : StateExit Q). x.claim) (sym is_new)
                  ∙ with_claim-claim (lookup id left) claim,
              sym at,
              rw at (lookup-insert_self name id names),
              λ e. launched (sym at ∙ e),
            )
            | inr (other, h') ↦
                let (found, not_orphan) = drop_orphan-cases (lookup name names) id j se exits h' in
                let (c, has, its, of_name, named) = exits_claimed j se found in
                (
                  c,
                  has,
                  its,
                  lookup-insert_other name c.meta.name id names (λ e.
                        other (not_orphan (subst (λ x. lookup x names ≡ some j) e of_name) named))
                      ∙ of_name,
                  named,
                )
          ];
      names_served = λ m i h n. elim (insert-cases name m id i names h) [
        | inl (at, is_id) ↦ (
          with_claim (lookup id left) claim,
          claim,
          rw (sym is_id) (lookup-insert_self id (with_claim (lookup id left) claim) left),
          with_claim-claim (lookup id left) claim,
          sym at,
        )
        | inr (other, h') ↦
            let (se, c, there, has, named) = names_served m i h' n in
            (
              se,
              c,
              lookup-insert_other id i (with_claim (lookup id left) claim) left
                    (λ e. other (owned m (rw e at h')))
                  ∙ (other_left m i other h' n ∙ there),
              has,
              named,
            )
      ];
      names_waiting = λ m h. elim (insert-cases name m id "" names h) [
        | inl (at, e) ↦ absurd (launched e)
        | inr (other, h') ↦
            let (c, there) = names_waiting m h' in
            (c, lookup-delete_other name m pending other ∙ there)
      ];
      pending_named = λ m c h.
          let (other, h') = delete-cases name m c pending h in
          let (n, w, k) = pending_named m c h' in
          (n, w, lookup-insert_other name m id names other ∙ k);
    }

    -- No other exit becomes stale.
    pub promote-IsFresh :
        (bindings : List (TunnelKey × TunnelBinding)) (m : String)
        → m ≢ name
        → IsFresh exits names bindings m
        → IsFresh
            (insert id (with_claim (lookup id left) claim) left)
            (insert name id names)
            bindings
            m
    promote-IsFresh bindings m n fresh i se h found = elim (insert-cases name m id i names h) [
      | inl (at, is_id) ↦ absurd (n at)
      | inr (other, h') ↦
          elim (insert-cases id i (with_claim (lookup id left) claim) se left found) [
            | inl (at, is_se) ↦ absurd (n (owned m (rw (sym at) h')))
            | inr (apart, found') ↦
                fresh i se h' (drop_orphan-cases (lookup name names) id i se exits found').0
          ]
    ]
