-- ===== src/Provisioning/Doomed.antt =====
-- A tunnel is not bound to a claim that is being deleted.
use frp_operator.Prelude.{
  String, ◌≡◌, ◌≢◌, refl, ap, subst, inl, inr, Bool, true, false, ◌||◌, some, List, [], ◌∷◌, arith,
  string_eq, ◌==◌, contains, is_some, map, Bool-cases, Option-cases, Result, ok, Result-cases,
}
use frp_operator.Kube.{already_exists, is_not_found, is_already_exists}
use frp_operator.Api.{ExitClaim, Tunnel}
use frp_operator.Scheduling.Exits.{InflightClaim, SchedulingError}
use frp_operator.Scheduling.Solve.{Binding, Results}
use frp_operator.Provisioning.{
  Outside, ProvisionError, claim_to_create, split_key, bound, create_claims, write_bindings,
  bind_results, write_errors, unscheduled, persist_results,
}

-- `P` outlasts the calls of `persistResults`, but for a patch that binds a tunnel to the claim: one that
-- leaves the assigned exit of a tunnel just read as it is does not; and as long as `P` holds, creating the
-- claim fails since it exists, and it is being deleted.
pub record Doomed {Q W : Type 0} (out : Outside Q W) (P : W → Type 0) (name : String) : Type 0 where
  pub get_claim : (n : String) (w : W) → P w → P (out.get_claim n w).1
  pub get_tunnel : (ns n : String) (w : W) → P w → P (out.get_tunnel ns n w).1
  pub create : (c : ExitClaim Q) (w : W) → P w → P (out.create_claim c w).1
  pub patch :
      (t : Tunnel Q) (w : W)
      → t.status.assigned_exit ≢ name
      → P w
      → P (out.patch_tunnel_status t w).1
  pub repatch :
      (ns n : String) (w : W) (t new : Tunnel Q)
      → P w
      → (out.get_tunnel ns n w).0 ≡ ok t
      → new.status.assigned_exit ≡ t.status.assigned_exit
      → P (out.patch_tunnel_status new (out.get_tunnel ns n w).1).1
  pub exists_already :
      (c : ExitClaim Q) (w : W)
      → c.meta.name ≡ name
      → P w
      → (out.create_claim c w).0 ≡ some already_exists
  pub being_deleted :
      (n : String) (w : W) (c : ExitClaim Q)
      → n ≡ name
      → P w
      → (out.get_claim n w).0 ≡ ok c
      → is_some c.meta.deletion_timestamp ≡ true

module _ {Q W : Type 0} (out : Outside Q W) (P : W → Type 0) (name : String)
    (d : Doomed out P name) where
  write_bindings_spare :
      (rejected : List String) (bs : List Binding) (w : W)
      → contains rejected name ≡ true
      → P w
      → P (write_bindings out rejected bs w).1
  unfolding write_bindings bound
  write_bindings_spare rejected [] w barred p = p
  write_bindings_spare rejected (b ∷ bs) w barred p =
      let (ns, tunnel) = split_key b.tunnel_key in
      let w1 = (out.get_tunnel ns tunnel w).1 in
      let p1 = d.get_tunnel ns tunnel w p in
      elim (Bool-cases (contains rejected b.exit_claim_name)) [
        | inl skipped ↦ rw (write_bindings, skipped) (write_bindings_spare rejected bs w barred p)
        | inr taken ↦ elim (Result-cases (out.get_tunnel ns tunnel w).0) [
          | inr (e, failed) ↦ elim (Bool-cases (is_not_found e)) [
            | inl gone ↦
                rw (write_bindings, taken, failed, gone)
                  (write_bindings_spare rejected bs w1 barred p1)
            | inr other ↦ rw (write_bindings, taken, failed, other) p1
          ]
          | inl (t, there) ↦
              let written = bound (out.now w1) b t in
              let apart : b.exit_claim_name ≢ name = λ same.
                let e = ap (λ (n : String). contains rejected n) same in
                ground (arith, e, taken, barred) in
              let p2 = d.patch written w1 apart p1 in
              elim (Option-cases (out.patch_tunnel_status written w1).0) [
                | inr (e, failed) ↦ rw (write_bindings, taken, there, failed) p2
                | inl fine ↦
                    rw (write_bindings, taken, there, fine)
                      (write_bindings_spare rejected bs (out.patch_tunnel_status written w1).1
                        barred p2)
              ]
        ]
      ]

  -- `create_claims` ends in a state with `P`, and rejects the claim where it was to be created.
  abbrev Bars : Bool → Result ProvisionError (List String) × W → Type 0
  Bars wanted r =
      P (r.1)
      × ((rejected : List String)
          → r.0 ≡ ok rejected
          → wanted ≡ true
          → contains rejected name ≡ true)

  abbrev wanted_in : List (InflightClaim Q) → List String → Bool
  wanted_in cs rejected = contains (map (λ c. c.name) cs) name || contains rejected name

  create_claims-Bars :
      (cs : List (InflightClaim Q)) (rejected : List String) (w : W)
      → P w
      → Bars (wanted_in cs rejected) (create_claims out cs rejected w)
  unfolding create_claims claim_to_create
  create_claims-Bars [] rejected w p = (
    p,
    λ r h wanted.
        let e : rejected ≡ r = cc in
        subst (λ (xs : List String). contains xs name ≡ true) e (ground (arith, wanted)),
  )
  create_claims-Bars (c ∷ cs) rejected w p =
      let made = claim_to_create c in
      let w1 = (out.create_claim made w).1 in
      let p1 = d.create made w p in
      let w2 = (out.get_claim c.name w1).1 in
      let p2 = d.get_claim c.name w1 p1 in
      elim (Option-cases (out.create_claim made w).0) [
        | inl fine ↦
            let other : (c.name == name) ≡ false = elim (Bool-cases (c.name == name)) [
              | inr apart ↦ apart
              | inl same ↦
                  let clash = d.exists_already made w ((string_eq.same_iff c.name name).0 same) p in
                  absurd cc
            ] in
            rw (create_claims, fine, other) (create_claims-Bars cs rejected w1 p1)
        | inr (e, failed) ↦ elim (Bool-cases (is_already_exists e)) [
          | inr new ↦ rw (create_claims, failed, new) (p1, λ r h wanted. cc)
          | inl old ↦ elim (Result-cases (out.get_claim c.name w1).0) [
            | inr (g, lost) ↦ rw (create_claims, failed, old, lost) (p2, λ r h wanted. cc)
            | inl (existing, there) ↦ elim (Bool-cases (is_some existing.meta.deletion_timestamp)) [
              | inl leaving ↦
                  let rest = create_claims-Bars cs (c.name ∷ rejected) w2 p2 in
                  rw (create_claims, failed, old, there, leaving)
                    (rest.0, λ r h wanted. rest.1 r h (ground (arith, wanted)))
              | inr staying ↦
                  let other : (c.name == name) ≡ false = elim (Bool-cases (c.name == name)) [
                    | inr apart ↦ apart
                    | inl same ↦
                        let doomed =
                          d.being_deleted c.name w1 existing
                            ((string_eq.same_iff c.name name).0 same) p1 there in
                        absurd (ground (arith, doomed, staying))
                  ] in
                  rw (create_claims, failed, old, there, staying, other)
                    (create_claims-Bars cs rejected w2 p2)
            ]
          ]
        ]
      ]

  bind_results_spare :
      (claims : List (InflightClaim Q)) (bindings : List Binding) (w : W)
      → contains (map (λ c. c.name) claims) name ≡ true
      → P w
      → P (bind_results out claims bindings w).1
  unfolding bind_results
  bind_results_spare claims bindings w made p =
      let w1 = (create_claims out claims [] w).1 in
      let bars = create_claims-Bars claims [] w p in
      elim (Result-cases (create_claims out claims [] w).0) [
        | inr (e, failed) ↦ rw (bind_results, failed) (bars.0)
        | inl (rejected, created) ↦
            rw (bind_results, created)
              (write_bindings_spare rejected bindings w1
                (bars.1 rejected created (ground (arith, made))) (bars.0))
      ]

  write_errors_spare :
      (describe : SchedulingError → String) (problems : List (String × SchedulingError)) (w : W)
      → P w
      → P (write_errors out describe problems w).1
  unfolding write_errors unscheduled
  write_errors_spare describe [] w p = p
  write_errors_spare describe ((key, problem) ∷ problems) w p =
      let (ns, tunnel) = split_key key in
      let w1 = (out.get_tunnel ns tunnel w).1 in
      let p1 = d.get_tunnel ns tunnel w p in
      elim (Result-cases (out.get_tunnel ns tunnel w).0) [
        | inr (e, failed) ↦ elim (Bool-cases (is_not_found e)) [
          | inl gone ↦ rw (write_errors, failed, gone) (write_errors_spare describe problems w1 p1)
          | inr other ↦ rw (write_errors, failed, other) p1
        ]
        | inl (t, there) ↦
            let written = unscheduled (out.now w1) (describe problem) t in
            let p2 = d.repatch ns tunnel w t written p there refl in
            elim (Option-cases (out.patch_tunnel_status written w1).0) [
              | inr (e, failed) ↦ rw (write_errors, there, failed) p2
              | inl fine ↦
                  rw (write_errors, there, fine)
                    (write_errors_spare describe problems (out.patch_tunnel_status written w1).1 p2)
            ]
      ]

  -- Where Solve has made a claim whose name belongs to one that is being deleted, `persistResults` as a whole
  -- binds no tunnel to that name: the state that it leaves behind, with or without an error, is one that
  -- calls other than such a patch lead to.
  pub persist_results_spare :
      (describe : SchedulingError → String) (r : Results Q) (w : W)
      → contains (map (λ c. c.name) r.new_claims) name ≡ true
      → P w
      → P (persist_results out describe r w).1
  unfolding persist_results
  persist_results_spare describe r w made p =
      let q = bind_results_spare r.new_claims r.bindings w made p in
      elim (Option-cases (bind_results out r.new_claims r.bindings w).0) [
        | inr (e, failed) ↦ rw (persist_results, failed) q
        | inl fine ↦
            rw (persist_results, fine)
              (write_errors_spare describe r.tunnel_errors
                (bind_results out r.new_claims r.bindings w).1 q)
      ]
