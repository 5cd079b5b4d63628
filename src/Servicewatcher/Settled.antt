-- ===== src/Servicewatcher/Settled.antt =====
-- What the watcher writes for a Service satisfies it, and which tunnels it deletes.
use frp_operator.Prelude.{
  String, ◌≡◌, refl, inl, inr, true, Option, none, some, List, [], ◌∷◌, string_eq, nat_eq, ◌==◌,
  Bool-cases, Option-cases, Result-cases, beq_refl, ok, is_some,
}
use frp_operator.Prelude.Maps.{lookup, lookup-insert_self, lookup-delete}
use frp_operator.Kube.{is_not_found}
use frp_operator.Api.{Tunnel, TunnelSpec, annotation_do_not_disrupt}
use frp_operator.Disruption.Methods.{text_at}
use frp_operator.Servicewatcher.{
  Service, Parsers, label_managed_by_service, is_our_service, copy_do_not_disrupt,
  annotations_equal,
}
use frp_operator.Servicewatcher.Sibling.{
  Outside, merged, new_sibling, updated_sibling, desired_spec, is_settled, upsert_spec,
  upsert_wanted, delete_sibling_if_ours, reconcile_service,
}

-- The annotation that the watcher manages, merged into a map, reads as it was desired.
text_at-merged :
    (a existing : List (String × String))
    → text_at annotation_do_not_disrupt
        (merged (lookup annotation_do_not_disrupt (copy_do_not_disrupt a)) existing)
      ≡ text_at annotation_do_not_disrupt (copy_do_not_disrupt a)
unfolding copy_do_not_disrupt
text_at-merged a existing = elim (Bool-cases (text_at annotation_do_not_disrupt a == "")) [
  | inl e ↦
      let none_wanted : copy_do_not_disrupt a ≡ [] = rw (copy_do_not_disrupt, e) refl in
      rw (none_wanted) (
        rw (text_at, lookup-delete annotation_do_not_disrupt annotation_do_not_disrupt existing)
          refl)
  | inr e ↦
      let v : String = text_at annotation_do_not_disrupt a in
      let wanted : copy_do_not_disrupt a ≡ (annotation_do_not_disrupt, v) ∷ [] =
        rw (copy_do_not_disrupt, e) refl in
      rw (wanted) (rw (text_at, lookup-insert_self annotation_do_not_disrupt v existing) refl)
]

module _ {Q : Type 0} (parsers : Parsers Q) where
  -- The tunnel that `upsertSibling` leaves: the one that it makes where there is none, or the one that it
  -- updates.
  abbrev pub written : Service → TunnelSpec Q → Option (Tunnel Q) → Tunnel Q
  written svc spec none = new_sibling svc spec
  written svc spec (some existing) = updated_sibling svc spec existing

  is_settled-written :
      ((s : TunnelSpec Q) → parsers.spec_equal s s ≡ true)
      → (svc : Service) (spec : TunnelSpec Q) (existing : Option (Tunnel Q))
      → is_settled parsers svc spec (written svc spec existing) ≡ true
  unfolding is_settled annotations_equal new_sibling updated_sibling
  is_settled-written reflexive svc spec none =
      rw
        (
          reflexive spec,
          beq_refl (text_at annotation_do_not_disrupt (copy_do_not_disrupt svc.meta.annotations)),
        )
        refl
  is_settled-written reflexive svc spec (some existing) =
      rw
        (
          reflexive spec,
          text_at-merged svc.meta.annotations existing.meta.annotations,
          beq_refl (text_at annotation_do_not_disrupt (copy_do_not_disrupt svc.meta.annotations)),
        )
        refl

  module _ {W : Type 0} (out : Outside Q W) where
    -- A run for a Service of ours leaves a tunnel alone that the watcher has written for the Service as it
    -- is, be it created or updated: it makes no call but Get.
    pub reconcile_service_settled :
        (namespace name : String) (w : W) (svc : Service) (spec : TunnelSpec Q)
        (existing : Option (Tunnel Q))
        → ((s : TunnelSpec Q) → parsers.spec_equal s s ≡ true)
        → (out.get_service namespace name w).0 ≡ ok svc
        → is_our_service svc ≡ true
        → svc.meta.deletion_timestamp ≡ none
        → desired_spec parsers svc ≡ ok spec
        → (out.get_tunnel svc.meta.namespace svc.meta.name (out.get_service namespace name w).1).0
          ≡ ok (written svc spec existing)
        → reconcile_service parsers out namespace name w ≡ (
          none,
          (out.get_tunnel svc.meta.namespace svc.meta.name (out.get_service namespace name w).1).1,
        )
    unfolding reconcile_service upsert_wanted upsert_spec
    reconcile_service_settled namespace name w svc spec existing reflexive got ours live wanted
          there =
        rw
          (
            reconcile_service,
            got,
            ours,
            live,
            wanted,
            upsert_wanted,
            upsert_spec,
            there,
            is_settled-written reflexive svc spec existing,
          )
          refl

    -- `P` outlasts every call but the deletion of a tunnel without the label of the watcher.
    pub record OutlastsOurs (P : W → Type 0) : Type 0 where
      pub get_service :
          (namespace name : String) (w : W) → P w → P (out.get_service namespace name w).1
      pub get_tunnel :
          (namespace name : String) (w : W) → P w → P (out.get_tunnel namespace name w).1
      pub create : (t : Tunnel Q) (w : W) → P w → P (out.create_tunnel t w).1
      pub update : (t : Tunnel Q) (w : W) → P w → P (out.update_tunnel t w).1
      pub delete :
          (t : Tunnel Q) (w : W)
          → text_at label_managed_by_service t.meta.labels ≡ "true"
          → P w
          → P (out.delete_tunnel t w).1

    module _ (P : W → Type 0) (o : OutlastsOurs P) where
      delete_sibling_if_ours_spares :
          (namespace name : String) (w : W)
          → P w
          → P (delete_sibling_if_ours parsers out namespace name w).1
      unfolding delete_sibling_if_ours
      delete_sibling_if_ours_spares namespace name w p =
          let p1 = o.get_tunnel namespace name w p in
          let w1 : W = (out.get_tunnel namespace name w).1 in
          elim (Result-cases (out.get_tunnel namespace name w).0) [
            | inr (e, f) ↦ rw (delete_sibling_if_ours, f) p1
            | inl (t, f) ↦
                elim (Bool-cases (text_at label_managed_by_service t.meta.labels == "true")) [
                  | inr bare ↦ rw (delete_sibling_if_ours, f, bare) p1
                  | inl ours ↦
                      let labelled =
                        (string_eq.same_iff (text_at label_managed_by_service t.meta.labels)
                            "true").0
                          ours in
                      let p2 = o.delete t w1 labelled p1 in
                      elim (Bool-cases (is_some t.meta.deletion_timestamp)) [
                        | inl gone ↦ rw (delete_sibling_if_ours, f, ours, gone) p1
                        | inr live ↦ elim (Option-cases (out.delete_tunnel t w1).0) [
                          | inl d ↦ rw (delete_sibling_if_ours, f, ours, live, d) p2
                          | inr (e, d) ↦ rw (delete_sibling_if_ours, f, ours, live, d) p2
                        ]
                      ]
                ]
          ]

      upsert_spec_spares :
          (svc : Service) (spec : TunnelSpec Q) (w : W)
          → P w
          → P (upsert_spec parsers out svc spec w).1
      unfolding upsert_spec
      upsert_spec_spares svc spec w p =
          let p1 = o.get_tunnel svc.meta.namespace svc.meta.name w p in
          let w1 : W = (out.get_tunnel svc.meta.namespace svc.meta.name w).1 in
          elim (Result-cases (out.get_tunnel svc.meta.namespace svc.meta.name w).0) [
            | inr (e, f) ↦ elim (Bool-cases (is_not_found e)) [
              | inl g ↦ rw (upsert_spec, f, g) (o.create (new_sibling svc spec) w1 p1)
              | inr g ↦ rw (upsert_spec, f, g) p1
            ]
            | inl (t, f) ↦ elim (Bool-cases (is_settled parsers svc spec t)) [
              | inl g ↦ rw (upsert_spec, f, g) p1
              | inr g ↦ rw (upsert_spec, f, g) (o.update (updated_sibling svc spec t) w1 p1)
            ]
          ]

      -- A run of the watcher deletes no tunnel but one that has the label of the watcher: what every call
      -- but the deletion of another tunnel keeps, a run keeps.
      pub reconcile_service_spares :
          (namespace name : String) (w : W)
          → P w
          → P (reconcile_service parsers out namespace name w).1
      unfolding reconcile_service upsert_wanted
      reconcile_service_spares namespace name w p =
          let p1 = o.get_service namespace name w p in
          let w1 : W = (out.get_service namespace name w).1 in
          elim (Result-cases (out.get_service namespace name w).0) [
            | inr (e, f) ↦ elim (Bool-cases (is_not_found e)) [
              | inl g ↦
                  rw (reconcile_service, f, g) (delete_sibling_if_ours_spares namespace name w1 p1)
              | inr g ↦ rw (reconcile_service, f, g) p1
            ]
            | inl (svc, f) ↦ elim (Bool-cases (is_our_service svc)) [
              | inr g ↦ rw (reconcile_service, f, g) p1
              | inl g ↦ elim (Bool-cases (is_some svc.meta.deletion_timestamp)) [
                | inl h ↦
                    rw (reconcile_service, f, g, h)
                      (delete_sibling_if_ours_spares svc.meta.namespace svc.meta.name w1 p1)
                | inr h ↦ elim (Result-cases (desired_spec parsers svc)) [
                  | inr (problem, d) ↦ rw (reconcile_service, f, g, h, d) p1
                  | inl (spec, d) ↦
                      rw (reconcile_service, f, g, h, d) (upsert_spec_spares svc spec w1 p1)
                ]
              ]
            ]
          ]
