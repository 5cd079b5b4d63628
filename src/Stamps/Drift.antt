-- ===== src/Stamps/Drift.antt =====
-- What exitpool/hash leaves of the drift that pkg/controllers/disruption/methods/drift.go looks for.
use frp_operator.Prelude.{
  String, ◌≡◌, ◌≢◌, ◌⊎◌, refl, ap, inl, inr, true, false, Option, none, some, List, All, string_eq,
  nat_eq, ◌==◌, Bool-cases, Option-cases, Result-cases, beq_refl, ok, All-map,
}
use frp_operator.Kube.{
  ApiError, Requeue, done, at_once, is_conflict, not_found, conflict, already_exists, other_error,
}
use frp_operator.Api.{ObjectMeta, ExitClaim, ExitPool, annotation_pool_hash}
use frp_operator.Disruption.Methods.{text_at, hashes_differ}
use frp_operator.Stamps.{
  Outside, with_stamp, stamp_each, stamp_children, stamp_pool, claim_meta, claim_with, pool_with,
  stopped,
}
use frp_operator.Stamps.Settled.{text_at-with_stamp, goes_on, Settling, stamp_each_settles}

-- Beside the pool with its new hash Drift sees no difference in this claim.
abbrev pub Undrifted : String → ObjectMeta → ObjectMeta → Type 0
Undrifted hash pool claim =
    hashes_differ claim (with_stamp annotation_pool_hash hash pool) annotation_pool_hash ≡ false

has-Undrifted :
    (hash : String) (pool claim : ObjectMeta)
    → text_at annotation_pool_hash claim.annotations ≡ hash
    → Undrifted hash pool claim
has-Undrifted hash pool claim has =
    let own : text_at annotation_pool_hash (with_stamp annotation_pool_hash hash pool).annotations
        ≡ hash =
      text_at-with_stamp annotation_pool_hash hash pool in
    elim (Bool-cases (hash == "")) [
      | inl e ↦ rw (hashes_differ, has, own, e) refl
      | inr e ↦ rw (hashes_differ, has, own, e, beq_refl hash) refl
    ]

stopped_fails : (e : ApiError) → stopped e ≢ (done, none)
stopped_fails e h = elim (Bool-cases (is_conflict e)) [
  | inl c ↦
      let h' : (at_once, none) ≡ (done, none) = rw (stopped, c) at h in
      let requeued : true ≡ false = ap (λ (r : Requeue × Option ApiError). r.0.requeue) h' in cc
  | inr c ↦
      let h' : (done, some e) ≡ (done, none) = rw (stopped, c) at h in
      let gone : some e ≡ none = ap (λ (r : Requeue × Option ApiError). r.1) h' in cc
]

module _ {Q C W : Type 0} (out : Outside Q C W) (hash : String) (P : String → W → Type 0) where
  -- `P` is true of a claim that is read or written without drift, or that turns out to be gone when it is
  -- written, and no such write ends it for another. A merge patch names no version of the claim, so that
  -- the apiserver does not refuse it with a conflict.
  pub record Settles (name : String) (pool : ObjectMeta) : Type 0 where
    pub seen :
        (w : W) (claims : List (ExitClaim Q))
        → (out.list_claims_of name w).0 ≡ ok claims
        → All (λ c. Undrifted hash pool c.meta → P c.meta.name (out.list_claims_of name w).1) claims
    pub tried :
        (c : ExitClaim Q) (w : W)
        → Undrifted hash pool c.meta
        → ((out.patch_claim c w).0 ≡ none) ⊎ ((out.patch_claim c w).0 ≡ some not_found)
        → P c.meta.name (out.patch_claim c w).1
    pub unrefused : (c : ExitClaim Q) (w : W) → (out.patch_claim c w).0 ≢ some conflict
    pub kept :
        (other : String) (c : ExitClaim Q) (w : W)
        → Undrifted hash pool c.meta
        → P other w
        → P other (out.patch_claim c w).1

  -- A loop that goes on has written the claim or found it gone.
  written_or_gone :
      (answer : Option ApiError)
      → goes_on answer ≡ true
      → answer ≢ some conflict
      → (answer ≡ none) ⊎ (answer ≡ some not_found)
  written_or_gone none goes unrefused = inl refl
  written_or_gone (some not_found) goes unrefused = inr refl
  written_or_gone (some conflict) goes unrefused = absurd (unrefused refl)
  written_or_gone (some already_exists) goes unrefused = cc
  written_or_gone (some (other_error text)) goes unrefused = cc

  -- The world in which the run lists the claims: behind the stamp on the pool, if it needs one.
  abbrev pub listing_world : ExitPool Q → W → W
  listing_world pool w = elim (text_at annotation_pool_hash pool.meta.annotations == hash) [
    | true ↦ w
    | false ↦ (out.patch_pool (pool_with pool (with_stamp annotation_pool_hash hash pool.meta)) w).1
  ]

  -- Every claim that the List in this world gives and that is not being deleted is settled in the end.
  abbrev pub AllSettled : String → W → W → Type 0
  AllSettled name w end =
      (claims : List (ExitClaim Q)) × ((out.list_claims_of name w).0 ≡ ok claims)
      × All (λ c. c.meta.deletion_timestamp ≡ none → P c.meta.name end) claims

  Settles-Settling :
      (name : String) (pool : ObjectMeta)
      → Settles name pool
      → Settling claim_meta claim_with out.patch_claim (λ c. true) annotation_pool_hash hash P
  Settles-Settling name pool s = record {
    reads_back = λ c m. refl;
    tried = λ c w has goes.
        s.tried c w (has-Undrifted hash pool c.meta has)
          (written_or_gone (out.patch_claim c w).0 goes (s.unrefused c w));
    kept = λ name c w has p. s.kept name c w (has-Undrifted hash pool c.meta has) p;
  }

  stamp_children-Settles :
      (pool : ExitPool Q) (base : ObjectMeta) (w : W)
      → Settles pool.meta.name base
      → (stamp_children out pool hash w).0 ≡ (done, none)
      → AllSettled pool.meta.name w (stamp_children out pool hash w).1
  unfolding stamp_children stamp_each
  stamp_children-Settles pool base w s h =
      elim (Result-cases (out.list_claims_of pool.meta.name w).0) [
        | inl (claims, e) ↦
            let w1 : W = (out.list_claims_of pool.meta.name w).1 in
            let h' : (stamp_each claim_meta claim_with out.patch_claim (λ c. true)
                  annotation_pool_hash hash claims w1).0
                ≡ none =
              ap (λ (r : Requeue × Option ApiError). r.1) (rw (stamp_children, e) at h) in
            rw (stamp_children, e)
              (
                claims,
                refl,
                All-map claims (λ c f live. f (live, refl))
                    (stamp_each_settles claim_meta claim_with out.patch_claim (λ c. true)
                      annotation_pool_hash hash P (Settles-Settling pool.meta.name base s) claims w1
                      h'
                      (All-map claims (λ c f has. f (has-Undrifted hash base c.meta has))
                        (s.seen w claims e))),
              )
        | inr (problem, e) ↦
            let h' : (done, some problem) ≡ (done, none) = rw (stamp_children, e) at h in
            let gone : some problem ≡ none = ap (λ (r : Requeue × Option ApiError). r.1) h' in
            absurd cc
      ]

  -- Where no patch of a claim is refused with a conflict, a run of the hash controller of a pool that ends
  -- without an error and without asking for another run has settled every claim of the pool that its List
  -- gave and that is not being deleted: the claim is gone, or Drift sees no difference from the new hash any
  -- more, as one made from an older template has its hash replaced by the new one.
  pub stamp_pool-Settles :
      (pool : ExitPool Q) (w : W)
      → Settles pool.meta.name pool.meta
      → (stamp_pool out pool hash w).0 ≡ (done, none)
      → AllSettled pool.meta.name (listing_world pool w) (stamp_pool out pool hash w).1
  unfolding stamp_pool
  stamp_pool-Settles pool w s h =
      elim (Bool-cases (text_at annotation_pool_hash pool.meta.annotations == hash)) [
        | inl e ↦
            let h' : (stamp_children out pool hash w).0 ≡ (done, none) = rw (stamp_pool, e) at h in
            rw (stamp_pool, e, listing_world) (stamp_children-Settles pool pool.meta w s h')
        | inr e ↦
            let new : ExitPool Q =
              pool_with pool (with_stamp annotation_pool_hash hash pool.meta) in
            let w1 : W = (out.patch_pool new w).1 in
            elim (Option-cases (out.patch_pool new w).0) [
              | inl f ↦
                  let h' : (stamp_children out new hash w1).0 ≡ (done, none) =
                    rw (stamp_pool, e, f) at h in
                  rw (stamp_pool, e, f, listing_world)
                    (stamp_children-Settles new pool.meta w1 s h')
              | inr (problem, f) ↦
                  let h' : stopped problem ≡ (done, none) = rw (stamp_pool, e, f) at h in
                  absurd (stopped_fails problem h')
            ]
      ]
