-- ===== src/Stamps/Tests.antt =====
-- A claim with the hash of an older template, kept by an apiserver that has no other.
use frp_operator.Prelude.{
  String, ◌≡◌, refl, true, none, [], ◌∷◌, string_eq, nat_eq, ok, err, subst, All, ℕ,
}
use frp_operator.Kube.{not_found, done}
use frp_operator.Api.{ExitClaim, annotation_pool_hash}
use frp_operator.Scheduling.Exits.Tests.{claim, edge}
use frp_operator.Disruption.Methods.{hashes_differ}
use frp_operator.Stamps.{Outside, with_stamp, stamp_each, leave_alone, stamp_children, stamp_pool}
use frp_operator.Stamps.Drift.{Undrifted, Settles, AllSettled, listing_world, stamp_pool-Settles}

abbrev older : ExitClaim ℕ
older = record claim {
  meta = record claim.meta { annotations = (annotation_pool_hash, "older") ∷ [] };
}

abbrev one_claim : Outside ℕ Unit (ExitClaim ℕ)
one_claim = record {
  get_pool = λ name w. (ok edge, w);
  get_class = λ name w. (err not_found, w);
  patch_pool = λ p w. (none, w);
  patch_class = λ c w. (none, w);
  list_pools = λ w. (ok (edge ∷ []), w);
  list_claims = λ w. (ok (w ∷ []), w);
  list_claims_of = λ name w. (ok (w ∷ []), w);
  patch_claim = λ c w. (none, c);
}

abbrev hash : String
hash = "newer"

-- The claim at hand shows no drift.
abbrev Kept : String → ExitClaim ℕ → Type 0
Kept name w = Undrifted hash edge.meta w.meta

one_claim-Settles : Settles one_claim hash Kept edge.meta.name edge.meta
one_claim-Settles = record {
  seen = λ w claims e.
      let same : w ∷ [] ≡ claims = cc in
      subst
        (λ cs. All (λ (c : ExitClaim ℕ). Undrifted hash edge.meta c.meta → Kept c.meta.name w) cs)
        same (λ u. u, tt);
  tried = λ c w u goes. u;
  unrefused = λ c w refused. cc;
  kept = λ other c w u p. u;
}

drifted :
    hashes_differ older.meta (with_stamp annotation_pool_hash hash edge.meta) annotation_pool_hash
    ≡ true
drifted = refl

run_ends : (stamp_pool one_claim edge hash older).0 ≡ (done, none)
unfolding stamp_pool stamp_children stamp_each leave_alone
run_ends = refl

stamp_pool-Settles_example :
    AllSettled one_claim hash Kept edge.meta.name
      (listing_world one_claim hash Kept edge older)
      (stamp_pool one_claim edge hash older).1
stamp_pool-Settles_example =
    stamp_pool-Settles one_claim hash Kept edge older one_claim-Settles run_ends
