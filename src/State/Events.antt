-- ===== src/State/Events.antt =====
-- The runs of the informers (pkg/controllers/state/informer), with the marks for deletion that `finalize`
-- and the queue set, as steps of a cluster: all calls that change one.
use frp_operator.Prelude.{
  Result, ok, err, same-cases, ℕ, String, Bool, ◌≡◌, ◌≢◌, refl, sym, inl, inr, some, [], string_eq,
  nat_eq, Bool-cases, subst,
}
use frp_operator.Prelude.Maps.{insert, delete, insert-cases, delete-cases}
use frp_operator.Api.{Tunnel, ExitClaim, ExitPool}
use frp_operator.State.Exit.{StatePool}
use frp_operator.Kube.{ApiError, is_not_found}
use frp_operator.State.Informer.{sync_claim, sync_pool, sync_tunnel, key_of}
use frp_operator.State.Cluster.{
  Cluster, new_cluster, set_triggers, update_pool, delete_pool, delete_tunnel_binding,
  mark_exit_for_deletion,
}
use frp_operator.State.Cluster.Bindings.{tunnel_changed-WellFormed}
use frp_operator.State.Cluster.Claims.{
  Unlaunched, Owned, stamp-WellFormed, claim_waits-WellFormed, claim_launched-WellFormed,
  claim_gone-WellFormed, exit_marked-WellFormed,
}
use frp_operator.State.Cluster.Sound.{empty-Sound}
use frp_operator.State.Cluster.Recompute.{WellFormed}

module _ {Q : Type 0} where
  -- No two claims share an id, and a claim does not lose the id that it has.
  abbrev pub Plausible : Cluster Q → ExitClaim Q → Type 0
  Plausible c claim =
      (claim.status.provider_id ≡ "" → Unlaunched c claim)
      × (claim.status.provider_id ≢ "" → Owned c claim)

  pub data Event (c : Cluster Q) : Cluster Q → Type 0 where
    claim_read :
        (now : ℕ) (name : String) (claim : ExitClaim Q)
        → Plausible c claim
        → Event c (sync_claim now name (ok claim) c).1
    claim_unread :
        (now : ℕ) (name : String) (e : ApiError) → Event c (sync_claim now name (err e) c).1
    pool_synced :
        (now : ℕ) (name : String) (answer : Result ApiError (ExitPool Q))
        → Event c (sync_pool now name answer c).1
    tunnel_synced :
        (now : ℕ) (namespace name : String) (answer : Result ApiError (Tunnel Q))
        → Event c (sync_tunnel now namespace name answer c).1
    exit_marked : (name : String) → Event c (mark_exit_for_deletion name c)

  pub data Reach : Cluster Q → Type 0 where
    start :
        (provisioner disruption : Bool) → Reach (set_triggers provisioner disruption new_cluster)
    later : {c d : Cluster Q} → Reach c → Event c d → Reach d

  start-WellFormed : (p d : Bool) → WellFormed (set_triggers {Q = Q} p d new_cluster)
  unfolding set_triggers new_cluster
  start-WellFormed p d = record {
    linked = record {
      sound = empty-Sound;
      distinct = tt;
      bound = λ key b h. cc;
      pooled = λ name sp h. cc;
    };
    fresh = λ name id se h found. cc;
  }

  module _ (c : Cluster Q) (w : WellFormed c) where
    open w use {linked, fresh}
    open linked use {sound, distinct, bound, pooled}

    pool_changed-WellFormed : (now : ℕ) (pool : ExitPool Q) → WellFormed (update_pool now pool c).0
    unfolding update_pool
    pool_changed-WellFormed now pool =
        let new : StatePool Q = record {
          pool = some pool;
          resources = pool.status.resources;
          exits = pool.status.exits;
        } in
        stamp-WellFormed (record c { pools = insert pool.meta.name new c.pools }) now
          (record {
            linked = record {
              sound = sound;
              distinct = distinct;
              bound = bound;
              pooled = λ n sp h. elim (insert-cases pool.meta.name n new sp c.pools h) [
                | inl (at, is_sp) ↦
                    subst
                      (λ (x : StatePool Q).
                        (p : ExitPool Q) × (x.pool ≡ some p)
                        × (p.meta.name ≡ n)
                        × (x.resources ≡ p.status.resources)
                        × (x.exits ≡ p.status.exits))
                      is_sp (pool, refl, sym at, refl, refl)
                | inr (other, h') ↦ pooled n sp h'
              ];
            };
            fresh = fresh;
          })

    pool_gone-WellFormed : (now : ℕ) (name : String) → WellFormed (delete_pool now name c).0
    unfolding delete_pool
    pool_gone-WellFormed now name =
        stamp-WellFormed (record c { pools = delete name c.pools }) now
          (record {
            linked = record {
              sound = sound;
              distinct = distinct;
              bound = bound;
              pooled = λ n sp h. pooled n sp (delete-cases name n sp c.pools h).1;
            };
            fresh = fresh;
          })

  Event-WellFormed : {c d : Cluster Q} → Event c d → WellFormed c → WellFormed d
  unfolding sync_claim sync_pool sync_tunnel delete_tunnel_binding
  Event-WellFormed {c} (claim_read now name claim plausible) w =
      elim (same-cases claim.status.provider_id "") [
        | inl e ↦ claim_waits-WellFormed c w now claim e (plausible.0 e)
        | inr n ↦ claim_launched-WellFormed c w now claim n (plausible.1 n)
      ]
  Event-WellFormed {c} (claim_unread now name e) w = elim (Bool-cases (is_not_found e)) [
    | inl gone ↦ rw (sync_claim, gone) (claim_gone-WellFormed c w now name)
    | inr failed ↦ rw (sync_claim, failed) w
  ]
  Event-WellFormed {c} (pool_synced now name (ok pool)) w = pool_changed-WellFormed c w now pool
  Event-WellFormed {c} (pool_synced now name (err e)) w = elim (Bool-cases (is_not_found e)) [
    | inl gone ↦ rw (sync_pool, gone) (pool_gone-WellFormed c w now name)
    | inr failed ↦ rw (sync_pool, failed) w
  ]
  Event-WellFormed {c} (tunnel_synced now namespace name (ok t)) w =
      tunnel_changed-WellFormed c w now (key_of namespace name) t.status.assigned_exit
        t.status.assigned_ports
  Event-WellFormed {c} (tunnel_synced now namespace name (err e)) w =
      elim (Bool-cases (is_not_found e)) [
        | inl gone ↦
            rw (sync_tunnel, gone) (tunnel_changed-WellFormed c w now (key_of namespace name) "" [])
        | inr failed ↦ rw (sync_tunnel, failed) w
      ]
  Event-WellFormed {c} (exit_marked name) w = exit_marked-WellFormed c w name

  -- In every state that runs of the informers and marks for deletion lead to from a new cluster, as long
  -- as no two claims share a provider ID and none loses it, the maps agree: an exit stands under the ID of
  -- its claim, which the name of the claim has, a name without an ID is that of a pending claim and the
  -- other way round, bindings and pools stand under their names, and what an exit has allocated is what the
  -- bindings to its name give.
  pub Reach-WellFormed : {c : Cluster Q} → Reach c → WellFormed c
  Reach-WellFormed (start p d) = start-WellFormed p d
  Reach-WellFormed (later r e) = Event-WellFormed e (Reach-WellFormed r)
