-- ===== src/State/Informer.antt =====
-- pkg/controllers/state/informer: the controllers that keep the cluster in step with the apiserver. Each
-- takes the answer of its Get, and gives its error with the cluster and the triggers fired.
use frp_operator.Prelude.{ℕ, String, true, false, Option, none, some, List, [], Result, ok, err}
use frp_operator.Kube.{ApiError, is_not_found}
use frp_operator.Api.{ExitClaim, ExitPool, Tunnel}
use frp_operator.Scheduling.Exits.{concat}
use frp_operator.State.Exit.{TunnelKey}
use frp_operator.State.Cluster.{
  Cluster, Trigger, update_exit, delete_exit, update_pool, delete_pool, update_tunnel_binding,
  delete_tunnel_binding,
}

-- The key that `fmt.Sprintf` makes.
abbrev pub key_of : String → String → TunnelKey
key_of namespace name = concat namespace (concat "/" name)

module _ {Q : Type 0} where
  -- `ExitClaimController.Reconcile` for the claim of this name.
  unfoldable pub sync_claim :
      ℕ
      → String
      → Result ApiError (ExitClaim Q)
      → Cluster Q
      → Option ApiError × Cluster Q × List Trigger
  sync_claim now name answer c = elim answer [
    | err e ↦ elim (is_not_found e) [
      | true ↦ let (after, fired) = delete_exit now name c in (none, after, fired)
      | false ↦ (some e, c, [])
    ]
    | ok claim ↦ let (after, fired) = update_exit now claim c in (none, after, fired)
  ]

  -- `ExitPoolController.Reconcile` for the pool of this name.
  unfoldable pub sync_pool :
      ℕ
      → String
      → Result ApiError (ExitPool Q)
      → Cluster Q
      → Option ApiError × Cluster Q × List Trigger
  sync_pool now name answer c = elim answer [
    | err e ↦ elim (is_not_found e) [
      | true ↦ let (after, fired) = delete_pool now name c in (none, after, fired)
      | false ↦ (some e, c, [])
    ]
    | ok pool ↦ let (after, fired) = update_pool now pool c in (none, after, fired)
  ]

  -- `TunnelController.Reconcile` for the tunnel of this namespace and name.
  unfoldable pub sync_tunnel :
      ℕ
      → String
      → String
      → Result ApiError (Tunnel Q)
      → Cluster Q
      → Option ApiError × Cluster Q × List Trigger
  sync_tunnel now namespace name answer c = elim answer [
    | err e ↦ elim (is_not_found e) [
      | true ↦
          let (after, fired) = delete_tunnel_binding now (key_of namespace name) c in
          (none, after, fired)
      | false ↦ (some e, c, [])
    ]
    | ok t ↦
        let (after, fired) =
          update_tunnel_binding now (key_of namespace name) t.status.assigned_exit
            t.status.assigned_ports c in
        (none, after, fired)
  ]
