-- ===== src/State/Cluster/Sound.antt =====
-- What links the maps of a `Cluster` of cluster.go, and which edits of the maps keep the links.
use frp_operator.Prelude.{
  String, ◌≡◌, ◌≢◌, sym, ap, ◌∙◌, inl, inr, some, List, [], string_eq, same-cases, subst,
}
use frp_operator.Prelude.Maps.{
  lookup, insert, delete, insert-cases, delete-cases, lookup-insert_self, lookup-insert_other,
  lookup-delete_other,
}
use frp_operator.Api.{ExitClaim}
use frp_operator.State.Exit.{StateExit}

module _ {Q : Type 0} where
  -- An exit is kept under the id of its claim, which is that of the claim's name.
  abbrev pub Claimed : List (String × String) → String → StateExit Q → Type 0
  Claimed names id se =
      (claim : ExitClaim Q) × (se.claim ≡ some claim)
      × (claim.status.provider_id ≡ id)
      × (lookup claim.meta.name names ≡ some id)
      × (id ≢ "")

  -- The exit of a name is there, and has a claim of that name.
  abbrev pub Served : List (String × StateExit Q) → String → String → Type 0
  Served exits name id =
      (se : StateExit Q) × (claim : ExitClaim Q) × (lookup id exits ≡ some se)
      × (se.claim ≡ some claim)
      × (claim.meta.name ≡ name)

  -- A claim in wait for its launch is kept under its name, which has the empty id.
  abbrev pub Waiting : List (String × String) → String → ExitClaim Q → Type 0
  Waiting names name claim =
      (claim.meta.name ≡ name) × (claim.status.provider_id ≡ "") × (lookup name names ≡ some "")

  -- `exits`, `nameToProviderID` and `pendingClaims` agree with each other.
  pub record Sound (exits : List (String × StateExit Q)) (names : List (String × String))
      (pending : List (String × ExitClaim Q)) : Type 0 where
    pub exits_claimed :
        (id : String) (se : StateExit Q) → lookup id exits ≡ some se → Claimed names id se
    pub names_served :
        (name id : String) → lookup name names ≡ some id → id ≢ "" → Served exits name id
    pub names_waiting :
        (name : String)
        → lookup name names ≡ some ""
        → (claim : ExitClaim Q) × (lookup name pending ≡ some claim)
    pub pending_named :
        (name : String) (claim : ExitClaim Q)
        → lookup name pending ≡ some claim
        → Waiting names name claim

  pub empty-Sound : Sound [] [] []
  empty-Sound = record {
    exits_claimed = λ id se h. cc;
    names_served = λ name id h n. cc;
    names_waiting = λ name h. cc;
    pending_named = λ name claim h. cc;
  }

  module _ {exits : List (String × StateExit Q)} {names : List (String × String)}
      {pending : List (String × ExitClaim Q)} (s : Sound exits names pending) where
    open s use {exits_claimed, names_served, names_waiting, pending_named}

    -- Two names do not share an exit.
    pub names_inj :
        (a b id : String) → lookup a names ≡ some id → lookup b names ≡ some id → id ≢ "" → a ≡ b
    names_inj a b id ha hb n =
        let (se, claim, found, has, named) = names_served a id ha n in
        let (se', claim', found', has', named') = names_served b id hb n in cc

    -- An exit may be written anew with the claim that it has.
    pub rewrite_exit-Sound :
        (id : String) (old new : StateExit Q)
        → lookup id exits ≡ some old
        → new.claim ≡ old.claim
        → Sound (insert id new exits) names pending
    rewrite_exit-Sound id old new found same = record {
      exits_claimed = λ j se h. elim (insert-cases id j new se exits h) [
        | inl (at, is_new) ↦
            let (claim, has, its, of_name, named) = exits_claimed id old found in
            (
              claim,
              ap (λ (x : StateExit Q). x.claim) (sym is_new) ∙ (same ∙ has),
              its ∙ sym at,
              rw at of_name,
              λ e. named (sym at ∙ e),
            )
        | inr (other, h') ↦ exits_claimed j se h'
      ];
      names_served = λ name i h n.
          let (se, claim, there, has, named) = names_served name i h n in
          elim (same-cases i id) [
            | inl at ↦
                let of_old : old ≡ se = cc in
                (
                  new,
                  claim,
                  rw at (lookup-insert_self id new exits),
                  same ∙ (ap (λ (x : StateExit Q). x.claim) of_old ∙ has),
                  named,
                )
            | inr other ↦ (se, claim, lookup-insert_other id i new exits other ∙ there, has, named)
          ];
      names_waiting = names_waiting;
      pending_named = pending_named;
    }

    -- A claim that has no exit yet may be kept as pending.
    pub add_pending-Sound :
        (claim : ExitClaim Q)
        → claim.status.provider_id ≡ ""
        → ((id : String) → lookup claim.meta.name names ≡ some id → id ≡ "")
        → Sound exits (insert claim.meta.name "" names) (insert claim.meta.name claim pending)
    add_pending-Sound claim waits unlaunched = record {
      exits_claimed = λ id se h.
          let (c, has, its, of_name, named) = exits_claimed id se h in
          (
            c,
            has,
            its,
            lookup-insert_other claim.meta.name c.meta.name "" names
                  (λ e. named (unlaunched id (subst (λ x. lookup x names ≡ some id) e of_name)))
                ∙ of_name,
            named,
          );
      names_served = λ name id h n. elim (insert-cases claim.meta.name name "" id names h) [
        | inl (at, is_id) ↦ absurd (n (sym is_id))
        | inr (other, h') ↦ names_served name id h' n
      ];
      names_waiting = λ name h. elim (insert-cases claim.meta.name name "" "" names h) [
        | inl (at, e) ↦ (claim, rw at (lookup-insert_self claim.meta.name claim pending))
        | inr (other, h') ↦
            let (c, there) = names_waiting name h' in
            (c, lookup-insert_other claim.meta.name name claim pending other ∙ there)
      ];
      pending_named = λ name c h. elim (insert-cases claim.meta.name name claim c pending h) [
        | inl (at, is_c) ↦ (
          ap (λ (x : ExitClaim Q). x.meta.name) (sym is_c) ∙ sym at,
          ap (λ (x : ExitClaim Q). x.status.provider_id) (sym is_c) ∙ waits,
          rw at (lookup-insert_self claim.meta.name "" names),
        )
        | inr (other, h') ↦
            let (n, w, k) = pending_named name c h' in
            (n, w, lookup-insert_other claim.meta.name name "" names other ∙ k)
      ];
    }

    -- A name may be dropped from the three maps, with its exit.
    pub drop_name-Sound :
        (name id : String)
        → lookup name names ≡ some id
        → Sound (delete id exits) (delete name names) (delete name pending)
    drop_name-Sound name id known = record {
      exits_claimed = λ j se h.
          let (other, h') = delete-cases id j se exits h in
          let (c, has, its, of_name, named) = exits_claimed j se h' in
          (
            c,
            has,
            its,
            lookup-delete_other name c.meta.name names (λ e. other cc) ∙ of_name,
            named,
          );
      names_served = λ m i h n.
          let (other, h') = delete-cases name m i names h in
          let (se, c, there, has, named) = names_served m i h' n in
          (
            se,
            c,
            lookup-delete_other id i exits (λ e. other (names_inj m name i h' (rw e known) n))
                ∙ there,
            has,
            named,
          );
      names_waiting = λ m h.
          let (other, h') = delete-cases name m "" names h in
          let (c, there) = names_waiting m h' in
          (c, lookup-delete_other name m pending other ∙ there);
      pending_named = λ m c h.
          let (other, h') = delete-cases name m c pending h in
          let (n, w, k) = pending_named m c h' in
          (n, w, lookup-delete_other name m names other ∙ k);
    }
