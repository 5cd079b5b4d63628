-- ===== src/Servicewatcher/Sibling.antt =====
-- pkg/controllers/servicewatcher: the reconcilers of controller.go and reverse_sync.go, which return an
-- error at most. A tunnel that is created has the zero value wherever the code sets nothing.
use frp_operator.Prelude.{
  String, Bool, true, false, ◌&&◌, not, Option, none, some, List, [], ◌∷◌, string_eq, nat_eq, ◌==◌,
  is_some, map, Result, ok, err,
}
use frp_operator.Prelude.Maps.{lookup, insert, delete}
use frp_operator.Kube.{ApiError, is_not_found, ignore_not_found}
use frp_operator.Api.{Tunnel, TunnelSpec, TunnelStatus, unset, annotation_do_not_disrupt}
use frp_operator.Disruption.Methods.{text_at}
use frp_operator.Servicewatcher.{
  Service, Ingress, Parsers, WatchError, call_failed, label_managed_by_service, is_our_service,
  port_from_service, copy_do_not_disrupt, annotations_equal, load_balancer_equal, parse_annotations,
}

-- What the reconcilers call.
pub record Outside (Q W : Type 0) : Type 0 where
  pub get_service : String → String → W → Result ApiError Service × W
  pub get_tunnel : String → String → W → Result ApiError (Tunnel Q) × W
  pub create_tunnel : Tunnel Q → W → Option ApiError × W
  pub update_tunnel : Tunnel Q → W → Option ApiError × W
  pub delete_tunnel : Tunnel Q → W → Option ApiError × W
  pub patch_service_status : Service → W → Option ApiError × W

abbrev pub as_failure : Option ApiError → Option WatchError
as_failure none = none
as_failure (some e) = some (call_failed e)

-- The annotation that the watcher manages, in the map of the tunnel.
abbrev pub merged : Option String → List (String × String) → List (String × String)
merged none existing = delete annotation_do_not_disrupt existing
merged (some v) existing = insert annotation_do_not_disrupt v existing

abbrev pub new_status : TunnelStatus
new_status = record {
  phase = unset;
  assigned_exit = "";
  assigned_ip = "";
  assigned_ports = [];
  conditions = [];
}

module _ {Q : Type 0} where
  -- The tunnel that `upsertSibling` creates.
  unfoldable pub new_sibling : Service → TunnelSpec Q → Tunnel Q
  unfolding copy_do_not_disrupt
  new_sibling svc spec = record {
    meta = record {
      name = svc.meta.name;
      namespace = svc.meta.namespace;
      uid = "";
      generation = 0;
      labels = (label_managed_by_service, "true") ∷ [];
      annotations = copy_do_not_disrupt svc.meta.annotations;
      creation_timestamp = 0;
      deletion_timestamp = none;
      finalizers = [];
      generate_name = "";
    };
    spec = spec;
    status = new_status;
  }

  -- The tunnel that it updates.
  unfoldable pub updated_sibling : Service → TunnelSpec Q → Tunnel Q → Tunnel Q
  unfolding copy_do_not_disrupt
  updated_sibling svc spec existing = record existing {
    meta = record existing.meta {
      annotations =
          merged (lookup annotation_do_not_disrupt (copy_do_not_disrupt svc.meta.annotations))
            existing.meta.annotations;
      labels = insert label_managed_by_service "true" existing.meta.labels;
    };
    spec = spec;
  }

  module _ (parsers : Parsers Q) where
    -- The spec that the Service asks for.
    unfoldable pub desired_spec : Service → Result WatchError (TunnelSpec Q)
    unfolding parse_annotations port_from_service
    desired_spec svc = elim (parse_annotations parsers svc) [
      | err e ↦ err e
      | ok spec ↦ ok (record spec { ports = map port_from_service svc.ports })
    ]

    -- The tunnel has what the Service asks for.
    unfoldable pub is_settled : Service → TunnelSpec Q → Tunnel Q → Bool
    unfolding annotations_equal copy_do_not_disrupt
    is_settled svc spec existing =
        parsers.spec_equal existing.spec spec
        && annotations_equal existing.meta.annotations (copy_do_not_disrupt svc.meta.annotations)

    module _ {W : Type 0} (out : Outside Q W) where
      -- `upsertSibling` with the spec.
      unfoldable pub upsert_spec : Service → TunnelSpec Q → W → Option WatchError × W
      unfolding new_sibling updated_sibling is_settled
      upsert_spec svc spec w =
          let (answer, w1) = out.get_tunnel svc.meta.namespace svc.meta.name w in
          elim answer [
            | err e ↦ elim (is_not_found e) [
              | false ↦ (some (call_failed e), w1)
              | true ↦
                  let (failure, w2) = out.create_tunnel (new_sibling svc spec) w1 in
                  (as_failure failure, w2)
            ]
            | ok existing ↦ elim (is_settled svc spec existing) [
              | true ↦ (none, w1)
              | false ↦
                  let (failure, w2) = out.update_tunnel (updated_sibling svc spec existing) w1 in
                  (as_failure failure, w2)
            ]
          ]

      -- `upsertSibling` with the spec that the Service asks for, or an error.
      unfoldable pub upsert_wanted :
          Result WatchError (TunnelSpec Q) → Service → W → Option WatchError × W
      unfolding upsert_spec
      upsert_wanted (err e) svc w = (some e, w)
      upsert_wanted (ok spec) svc w = upsert_spec svc spec w

      -- `upsertSibling`.
      abbrev pub upsert_sibling : Service → W → Option WatchError × W
      upsert_sibling svc w = upsert_wanted (desired_spec svc) svc w

      -- `deleteSiblingIfOurs`.
      unfoldable pub delete_sibling_if_ours : String → String → W → Option WatchError × W
      delete_sibling_if_ours namespace name w =
          let (answer, w1) = out.get_tunnel namespace name w in
          elim answer [
            | err e ↦ (as_failure (ignore_not_found e), w1)
            | ok t ↦ elim (text_at label_managed_by_service t.meta.labels == "true") [
              | false ↦ (none, w1)
              | true ↦ elim (is_some t.meta.deletion_timestamp) [
                | true ↦ (none, w1)
                | false ↦
                    let (failure, w2) = out.delete_tunnel t w1 in
                    elim failure [
                      | none ↦ (none, w2)
                      | some e ↦ (as_failure (ignore_not_found e), w2)
                    ]
              ]
            ]
          ]

      -- `Controller.Reconcile`.
      unfoldable pub reconcile_service : String → String → W → Option WatchError × W
      unfolding is_our_service upsert_wanted delete_sibling_if_ours
      reconcile_service namespace name w =
          let (answer, w1) = out.get_service namespace name w in
          elim answer [
            | err e ↦ elim (is_not_found e) [
              | true ↦ delete_sibling_if_ours namespace name w1
              | false ↦ (some (call_failed e), w1)
            ]
            | ok svc ↦ elim (is_our_service svc) [
              | false ↦ (none, w1)
              | true ↦ elim (is_some svc.meta.deletion_timestamp) [
                | true ↦ delete_sibling_if_ours svc.meta.namespace svc.meta.name w1
                | false ↦ upsert_sibling svc w1
              ]
            ]
          ]

  -- `ReverseSync.Reconcile`.
  pub reverse_sync : {W : Type 0} → Outside Q W → String → String → W → Option ApiError × W
  unfolding is_our_service load_balancer_equal
  reverse_sync out namespace name w =
      let (answer, w1) = out.get_tunnel namespace name w in
      elim answer [
        | err e ↦ (ignore_not_found e, w1)
        | ok t ↦ elim (t.status.assigned_ip == "") [
          | true ↦ (none, w1)
          | false ↦
              let (found, w2) = out.get_service t.meta.namespace t.meta.name w1 in
              elim found [
                | err e ↦ (ignore_not_found e, w2)
                | ok svc ↦
                    let desired : List Ingress =
                      record { ip = t.status.assigned_ip; hostname = "" } ∷ [] in
                    elim (is_our_service svc && not (load_balancer_equal svc.ingress desired)) [
                      | false ↦ (none, w2)
                      | true ↦ out.patch_service_status (record svc { ingress = desired }) w2
                    ]
              ]
        ]
      ]
