-- ===== src/Lifecycle/Drain.antt =====
-- An exit is not given up while tunnels are bound to it, nor before the provider has deleted it.
use frp_operator.Prelude.{
  ℕ, ◌-◌, String, ◌≡◌, ◌≢◌, ◌⊎◌, refl, inl, inr, true, Option, none, some, List, [], ◌∷◌, string_eq,
  nat_eq, ltb, contains, Bool-cases, Option-cases, ok, Result-cases,
}
use frp_operator.Kube.{ApiError, Requeue, done, after, seconds}
use frp_operator.Api.{ExitClaim, Tunnel, termination_finalizer}
use frp_operator.State.Cluster.{Cluster}
use frp_operator.Lifecycle.{
  Outside, DeleteError, is_exit_not_found, first_error, grace_of, marked_in, bound_to, unbound,
  release_all, strip_finalizer, delete_exit, finalize_bound, finalize,
}

-- `P` outlasts the listing of the tunnels and every patch of the status of a tunnel.
pub record OutlastsRelease {Q W : Type 0} (out : Outside Q W) (P : W → Type 0) : Type 0 where
  pub list : (w : W) → P w → P (out.list_tunnels w).1
  pub patch : (t : Tunnel Q) (w : W) → P w → P (out.patch_tunnel_status t w).1

-- `P` outlasts the deletion by a provider too, so every call but the patch of the claim.
pub record OutlastsDelete {Q W : Type 0} (out : Outside Q W) (P : W → Type 0) : Type 0 where
  pub release : OutlastsRelease out P
  pub delete :
      (kind : String) (f : ExitClaim Q → W → Option DeleteError × W) (claim : ExitClaim Q) (w : W)
      → out.provider kind ≡ some f
      → P w
      → P (f claim w).1

module _ {Q W : Type 0} (out : Outside Q W) (P : W → Type 0) (o : OutlastsRelease out P) where
  release_all_keeps :
      (ts : List (Tunnel Q)) (failure : Option ApiError) (w : W)
      → P w
      → P (release_all out ts failure w).1
  unfolding release_all
  release_all_keeps [] failure w p = p
  release_all_keeps (t ∷ ts) failure w p =
      release_all_keeps ts (first_error failure (out.patch_tunnel_status (unbound t) w).0)
        (out.patch_tunnel_status (unbound t) w).1 (o.patch (unbound t) w p)

  finalize_bound_drains :
      (claim : ExitClaim Q) (deleted_at : ℕ) (ts : List (Tunnel Q)) (w : W)
      → ts ≢ []
      → ltb (out.now w - deleted_at) (grace_of claim.spec.termination_grace_period) ≡ true
      → P w
      → ((finalize_bound out claim deleted_at ts w).0.0 ≡ after (seconds 5))
        × P (finalize_bound out claim deleted_at ts w).1
  unfolding finalize_bound
  finalize_bound_drains claim deleted_at [] w some_bound early p = absurd (some_bound refl)
  finalize_bound_drains claim deleted_at (t ∷ ts) w some_bound early p =
      rw (finalize_bound, early) (refl, release_all_keeps (t ∷ ts) none w p)

  -- While a tunnel is bound to a deleted claim and its grace period lasts, `finalize` neither has the
  -- provider delete the exit nor removes the finalizer: it marks the exit, makes no calls but List and the
  -- patches of tunnels, and asks to be run again in five seconds.
  pub finalize_drains :
      (claim : ExitClaim Q) (deleted_at : ℕ) (c : Option (Cluster Q)) (w : W)
      (tunnels : List (Tunnel Q))
      → (out.list_tunnels w).0 ≡ ok tunnels
      → bound_to claim.meta.name tunnels ≢ []
      → ltb
          (out.now (out.list_tunnels w).1 - deleted_at)
          (grace_of claim.spec.termination_grace_period)
        ≡ true
      → P w
      → ((finalize out claim deleted_at c w).0.0 ≡ after (seconds 5))
        × ((finalize out claim deleted_at c w).1 ≡ marked_in claim.meta.name c)
        × P (finalize out claim deleted_at c w).2
  unfolding finalize
  finalize_drains claim deleted_at c w tunnels listed some_bound early p =
      let w1 = (out.list_tunnels w).1 in
      let ts = bound_to claim.meta.name tunnels in
      let kept = finalize_bound_drains claim deleted_at ts w1 some_bound early (o.list w p) in
      rw (finalize, listed) (kept.0, refl, kept.1)

module _ {Q W : Type 0} (out : Outside Q W) (P : W → Type 0) (o : OutlastsDelete out P) where
  strip_finalizer_ends : (claim : ExitClaim Q) (w : W) → (strip_finalizer out claim w).0.0 ≡ done
  unfolding strip_finalizer
  strip_finalizer_ends claim w =
      elim (Bool-cases (contains claim.meta.finalizers termination_finalizer)) [
        | inl there ↦ rw there refl
        | inr gone ↦ rw gone refl
      ]

  -- A run that asks to be run again has kept `P`; one that has stripped the finalizer does not ask.
  abbrev Retries : (Requeue × Option ApiError) × W → Type 0
  Retries r = (r.0.0 ≡ done) ⊎ P (r.1)

  strip_finalizer-Retries : (claim : ExitClaim Q) (w : W) → Retries (strip_finalizer out claim w)
  strip_finalizer-Retries claim w = inl (strip_finalizer_ends claim w)

  delete_exit-Retries : (claim : ExitClaim Q) (w : W) → P w → Retries (delete_exit out claim w)
  unfolding delete_exit
  delete_exit-Retries claim w p =
      elim (Option-cases (out.provider claim.spec.provider_class_ref.kind)) [
        | inl unknown ↦ rw (delete_exit, unknown) (strip_finalizer-Retries claim w)
        | inr (delete, known) ↦
            let w1 = (delete claim w).1 in
            let p1 = o.delete claim.spec.provider_class_ref.kind delete claim w known p in
            elim (Option-cases (delete claim w).0) [
              | inl fine ↦ rw (delete_exit, known, fine) (strip_finalizer-Retries claim w1)
              | inr (e, failed) ↦ elim (Bool-cases (is_exit_not_found e)) [
                | inl gone ↦
                    rw (delete_exit, known, failed, gone) (strip_finalizer-Retries claim w1)
                | inr other ↦ rw (delete_exit, known, failed, other) (inr p1)
              ]
            ]
      ]

  finalize_bound-Retries :
      (claim : ExitClaim Q) (deleted_at : ℕ) (ts : List (Tunnel Q)) (w : W)
      → P w
      → Retries (finalize_bound out claim deleted_at ts w)
  unfolding finalize_bound
  finalize_bound-Retries claim deleted_at [] w p = delete_exit-Retries claim w p
  finalize_bound-Retries claim deleted_at (t ∷ ts) w p =
      elim (Bool-cases
        (ltb (out.now w - deleted_at) (grace_of claim.spec.termination_grace_period))) [
          | inl early ↦
              rw (finalize_bound, early) (inr (release_all_keeps out P o.release (t ∷ ts) none w p))
          | inr late ↦ rw (finalize_bound, late) (delete_exit-Retries claim w p)
        ]

  -- A run of `finalize` that asks to be run again after a time, as it does when the provider fails to delete the
  -- exit, has made no call to patch the claim, so the finalizer is still there.
  pub finalize_retries :
      (claim : ExitClaim Q) (deleted_at : ℕ) (c : Option (Cluster Q)) (w : W)
      → P w
      → (finalize out claim deleted_at c w).0.0 ≢ done
      → P (finalize out claim deleted_at c w).2
  unfolding finalize
  finalize_retries claim deleted_at c w p again =
      let w1 = (out.list_tunnels w).1 in
      elim (Result-cases (out.list_tunnels w).0) [
        | inr (e, failed) ↦ rw (finalize, failed) (o.release.list w p)
        | inl (tunnels, listed) ↦
            let ts = bound_to claim.meta.name tunnels in
            let r = finalize_bound-Retries claim deleted_at ts w1 (o.release.list w p) in
            elim r [
              | inl ended ↦ absurd (again (rw (finalize, listed) ended))
              | inr kept ↦ rw (finalize, listed) kept
            ]
      ]
