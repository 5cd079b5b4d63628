-- ===== src/State/Cluster/Claims.antt =====
-- What the events of exit claims leave of the state that the operations of cluster.go keep.
use frp_operator.Prelude.{
  same-of_ne, ℕ, String, ◌≡◌, ◌≢◌, refl, sym, inl, inr, some, string_eq, nat_eq, Option-cases, true,
}
use frp_operator.Prelude.Maps.{lookup, insert, delete, insert-cases, delete-cases}
use frp_operator.Api.{ExitClaim}
use frp_operator.State.Exit.{StateExit}
use frp_operator.State.Cluster.{
  Cluster, recompute_allocations, bump, promote, update_exit, delete_exit, mark_exit_for_deletion,
}
use frp_operator.State.Cluster.Sound.{rewrite_exit-Sound, add_pending-Sound, drop_name-Sound}
use frp_operator.State.Cluster.Promote.{promote-Sound, promote-IsFresh}
use frp_operator.State.Cluster.Fresh.{rewrite_exit-IsFresh}
use frp_operator.State.Cluster.Recompute.{Linked, WellFormed, recompute_allocations-WellFormed}

module _ {Q : Type 0} where
  -- The claim has no exit yet.
  abbrev pub Unlaunched : Cluster Q → ExitClaim Q → Type 0
  Unlaunched c claim =
      (id : String) → lookup claim.meta.name c.name_to_provider_id ≡ some id → id ≡ ""

  -- No other claim has the id of this one.
  abbrev pub Owned : Cluster Q → ExitClaim Q → Type 0
  Owned c claim =
      (name : String)
      → lookup name c.name_to_provider_id ≡ some claim.status.provider_id
      → name ≡ claim.meta.name

  -- The stamp of a change is no part of what is kept.
  pub stamp-WellFormed : (c : Cluster Q) (now : ℕ) → WellFormed c → WellFormed (bump now c).0
  unfolding bump
  stamp-WellFormed c now w = record {
    linked = record {
      sound = w.linked.sound;
      distinct = w.linked.distinct;
      bound = w.linked.bound;
      pooled = w.linked.pooled;
    };
    fresh = w.fresh;
  }

  module _ (c : Cluster Q) (w : WellFormed c) where
    open w use {linked, fresh}
    open linked use {sound, distinct, bound, pooled}

    pub claim_waits-WellFormed :
        (now : ℕ) (claim : ExitClaim Q)
        → claim.status.provider_id ≡ ""
        → Unlaunched c claim
        → WellFormed (update_exit now claim c).0
    unfolding update_exit
    claim_waits-WellFormed now claim waits unlaunched =
        let name : String = claim.meta.name in
        let c' : Cluster Q = record c {
          name_to_provider_id = insert name "" c.name_to_provider_id;
          pending_claims = insert name claim c.pending_claims;
        } in
        let after : (update_exit now claim c).0 ≡ (bump now c').0 = rw (waits, update_exit) refl in
        let kept : WellFormed c' = record {
          linked = record {
            sound = add_pending-Sound sound claim waits unlaunched;
            distinct = distinct;
            bound = bound;
            pooled = pooled;
          };
          fresh = λ m id se h found. elim (insert-cases name m "" id c.name_to_provider_id h) [
            | inl (at, is_id) ↦
                let (x, has, its, of_name, named) = sound.exits_claimed id se found in
                absurd (named (sym is_id))
            | inr (other, h') ↦ fresh m id se h' found
          ];
        } in
        rw after (stamp-WellFormed c' now kept)

    pub claim_launched-WellFormed :
        (now : ℕ) (claim : ExitClaim Q)
        → claim.status.provider_id ≢ ""
        → Owned c claim
        → WellFormed (update_exit now claim c).0
    unfolding update_exit promote
    claim_launched-WellFormed now claim launched owned =
        let name : String = claim.meta.name in
        let promoted : Cluster Q = promote claim c in
        let kept : Linked promoted = record {
          sound = promote-Sound sound claim launched owned;
          distinct = distinct;
          bound = bound;
          pooled = pooled;
        } in
        let after : (update_exit now claim c).0
            ≡ (bump now (recompute_allocations name promoted)).0 =
          rw (update_exit, same-of_ne claim.status.provider_id "" launched) refl in
        rw after (
          stamp-WellFormed (recompute_allocations name promoted) now (
            recompute_allocations-WellFormed promoted kept name
              (λ m n. promote-IsFresh sound claim launched owned c.bindings m n (fresh m))))

    pub claim_gone-WellFormed : (now : ℕ) (name : String) → WellFormed (delete_exit now name c).0
    unfolding delete_exit
    claim_gone-WellFormed now name = elim (Option-cases (lookup name c.name_to_provider_id)) [
      | inl unknown ↦ elim (Option-cases (lookup name c.pending_claims)) [
        | inl e ↦ rw (delete_exit, unknown, e) w
        | inr (claim, e) ↦ let (named, waits, known) = sound.pending_named name claim e in absurd cc
      ]
      | inr (id, known) ↦
          let c' : Cluster Q = record c {
            exits = delete id c.exits;
            name_to_provider_id = delete name c.name_to_provider_id;
            pending_claims = delete name c.pending_claims;
          } in
          let after : (delete_exit now name c).0 ≡ (bump now c').0 = rw (delete_exit, known) refl in
          let kept : WellFormed c' = record {
            linked = record {
              sound = drop_name-Sound sound name id known;
              distinct = distinct;
              bound = bound;
              pooled = pooled;
            };
            fresh = λ m i se h found.
                fresh m i se (delete-cases name m i c.name_to_provider_id h).1
                  (delete-cases id i se c.exits found).1;
          } in
          rw after (stamp-WellFormed c' now kept)
    ]

    pub exit_marked-WellFormed : (name : String) → WellFormed (mark_exit_for_deletion name c)
    unfolding mark_exit_for_deletion
    exit_marked-WellFormed name = elim (Option-cases (lookup name c.name_to_provider_id)) [
      | inl e ↦ rw (mark_exit_for_deletion, e) w
      | inr (id, known) ↦ elim (Option-cases (lookup id c.exits)) [
        | inl e ↦ rw (mark_exit_for_deletion, known, e) w
        | inr (se, found) ↦
            let new : StateExit Q = record se { marked_for_deletion = true } in
            let c' : Cluster Q = record c { exits = insert id new c.exits } in
            let after : mark_exit_for_deletion name c ≡ c' =
              rw (mark_exit_for_deletion, known, found) refl in
            let kept : WellFormed c' = record {
              linked = record {
                sound = rewrite_exit-Sound sound id se new found refl;
                distinct = distinct;
                bound = bound;
                pooled = pooled;
              };
              fresh = λ m.
                  rewrite_exit-IsFresh sound c.bindings name m id se new known found
                    (fresh name id se known found) (fresh m);
            } in
            rw after kept
      ]
    ]
