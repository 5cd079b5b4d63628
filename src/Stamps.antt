-- ===== src/Stamps.antt =====
-- The controllers that write the hash of a specification on what is made from it:
-- pkg/controllers/exitpool/hash (controller.go, hash.go) and pkg/controllers/providerclass/hash
-- (controller.go). The marshalled text and its SHA-256, cut to 16 digits, are a parameter.
pub mod Settled
pub mod Drift
mod Tests
use frp_operator.Prelude.{
  ℕ, String, Bool, true, false, ◌&&◌, ◌||◌, not, Option, none, some, List, [], ◌∷◌, string_eq,
  nat_eq, ◌==◌, is_some, Result, ok, err, map, if◌then◌else◌, ltb,
}
use frp_operator.Prelude.Maps.{insert}
use frp_operator.Prelude.Sort.{slice_stable}
use frp_operator.Kube.{
  ApiError, other_error, is_not_found, is_conflict, ignore_not_found, Requeue, done, at_once,
}
use frp_operator.Api.{
  ObjectMeta, ExitClaim, ExitPool, ExitClaimTemplateSpec, NodeSelectorRequirement, ProviderClassRef,
  label_exit_pool, annotation_pool_hash, annotation_provider_class_hash, Port,
}
use frp_operator.Text.{text_ltb}
use frp_operator.Scheduling.Ports.{signed_key}
use frp_operator.Disruption.Methods.{text_at}

-- `sort.Strings` on the values of a requirement.
abbrev pub with_sorted_values : NodeSelectorRequirement → NodeSelectorRequirement
with_sorted_values r = record r { values = slice_stable text_ltb r.values }

-- `<` on `int32`.
abbrev pub before_int32 : Port → Port → Bool
before_int32 a b = ltb (signed_key a) (signed_key b)

-- `canonicalize`.
pub canonicalize : ExitClaimTemplateSpec → ExitClaimTemplateSpec
unfolding signed_key
canonicalize t = record t {
  requirements = map with_sorted_values (slice_stable (λ a b. text_ltb a.key b.key) t.requirements);
  frps = record t.frps {
    allow_ports = slice_stable text_ltb t.frps.allow_ports;
    reserved_ports = slice_stable before_int32 t.frps.reserved_ports;
  };
}

-- The object with an annotation.
abbrev pub with_stamp : String → String → ObjectMeta → ObjectMeta
with_stamp key hash meta = record meta { annotations = insert key hash meta.annotations }

-- After an error of these two the loops go on with the next object.
abbrev pub is_skipped : ApiError → Bool
is_skipped e = is_conflict e || is_not_found e

-- A loop over objects of one kind: those at hand, not being deleted and without the hash, are patched.
module _ {A W : Type 0} (meta : A → ObjectMeta) (with_meta : A → ObjectMeta → A)
    (patch : A → W → Option ApiError × W) (mine : A → Bool) (key hash : String) where
  pub leave_alone : A → Bool
  leave_alone a =
      is_some (meta a).deletion_timestamp
      || not (mine a)
      || text_at key (meta a).annotations == hash

  pub stamp_each : List A → W → Option ApiError × W
  stamp_each [] w = (none, w)
  stamp_each (a ∷ objects) w = elim (leave_alone a) [
    | true ↦ stamp_each objects w
    | false ↦
        let (failure, w1) = patch (with_meta a (with_stamp key hash (meta a))) w in
        elim failure [
          | none ↦ stamp_each objects w1
          | some e ↦ elim (is_skipped e) [ true ↦ stamp_each objects w1 | false ↦ (some e, w1) ]
        ]
  ]

module _ {Q : Type 0} where
  -- `PoolTemplateHash`.
  abbrev pub pool_template_hash :
      (ExitClaimTemplateSpec → Result String String) → ExitPool Q → Result String String
  pool_template_hash digest pool = digest (canonicalize pool.spec.template.spec)

  abbrev pub claim_meta : ExitClaim Q → ObjectMeta
  claim_meta c = c.meta

  abbrev pub claim_with : ExitClaim Q → ObjectMeta → ExitClaim Q
  claim_with c m = record c { meta = m }

  abbrev pub pool_meta : ExitPool Q → ObjectMeta
  pool_meta p = p.meta

  abbrev pub pool_with : ExitPool Q → ObjectMeta → ExitPool Q
  pool_with p m = record p { meta = m }

-- What the controllers call. An object of the provider class of a kind is of the type `C`.
pub record Outside (Q C W : Type 0) : Type 0 where
  pub get_pool : String → W → Result ApiError (ExitPool Q) × W
  pub get_class : String → W → Result ApiError C × W
  pub patch_pool : ExitPool Q → W → Option ApiError × W
  pub patch_class : C → W → Option ApiError × W
  pub list_pools : W → Result ApiError (List (ExitPool Q)) × W
  pub list_claims : W → Result ApiError (List (ExitClaim Q)) × W
  pub list_claims_of : String → W → Result ApiError (List (ExitClaim Q)) × W
  pub patch_claim : ExitClaim Q → W → Option ApiError × W

-- The metadata of a provider class, and `SpecHash`.
pub record ClassObject (C : Type 0) : Type 0 where
  pub meta : C → ObjectMeta
  pub with_meta : C → ObjectMeta → C
  pub spec_hash : C → Result String String

-- The result after a patch of the object itself: a conflict asks for another run.
abbrev pub stopped : ApiError → Requeue × Option ApiError
stopped e = elim (is_conflict e) [ true ↦ (at_once, none) | false ↦ (done, some e) ]

module _ {Q C W : Type 0} (out : Outside Q C W) where
  -- `Reconcile` of exitpool/hash, behind the stamp on the pool.
  pub stamp_children : ExitPool Q → String → W → (Requeue × Option ApiError) × W
  unfolding stamp_each
  stamp_children pool hash w =
      let (answer, w1) = out.list_claims_of pool.meta.name w in
      elim answer [
        | err e ↦ ((done, some e), w1)
        | ok claims ↦
            let (failure, w2) =
              stamp_each claim_meta claim_with out.patch_claim (λ c. true) annotation_pool_hash hash
                claims w1 in
            ((done, failure), w2)
      ]

  -- `Reconcile` of exitpool/hash, with the hash.
  pub stamp_pool : ExitPool Q → String → W → (Requeue × Option ApiError) × W
  unfolding stamp_children
  stamp_pool pool hash w = elim (text_at annotation_pool_hash pool.meta.annotations == hash) [
    | true ↦ stamp_children pool hash w
    | false ↦
        let new = pool_with pool (with_stamp annotation_pool_hash hash pool.meta) in
        let (failure, w1) = out.patch_pool new w in
        elim failure [ none ↦ stamp_children new hash w1 | some e ↦ (stopped e, w1) ]
  ]

  -- `Reconcile` of exitpool/hash.
  pub reconcile_pool_hash :
      (ExitClaimTemplateSpec → Result String String) → String → W → (Requeue × Option ApiError) × W
  unfolding stamp_pool canonicalize
  reconcile_pool_hash digest name w =
      let (answer, w1) = out.get_pool name w in
      elim answer [
        | err e ↦ ((done, ignore_not_found e), w1)
        | ok pool ↦ elim (is_some pool.meta.deletion_timestamp) [
          | true ↦ ((done, none), w1)
          | false ↦ elim (pool_template_hash digest pool) [
            | err problem ↦ ((done, some (other_error problem)), w1)
            | ok hash ↦ stamp_pool pool hash w1
          ]
        ]
      ]

  module _ (class : ClassObject C) (kind : String) where
    -- A reference to the provider class of this name.
    abbrev pub refers_to : String → ProviderClassRef → Bool
    refers_to name ref = ref.kind == kind && ref.name == name

    -- `stampObject`.
    pub stamp_object : C → String → W → Option ApiError × W
    stamp_object obj hash w =
        elim (text_at annotation_provider_class_hash (class.meta obj).annotations == hash) [
          | true ↦ (none, w)
          | false ↦
              out.patch_class
                (class.with_meta obj
                  (with_stamp annotation_provider_class_hash hash (class.meta obj)))
                w
        ]

    -- `stampPools`.
    pub stamp_pools : String → String → W → Option ApiError × W
    unfolding stamp_each
    stamp_pools name hash w =
        let (answer, w1) = out.list_pools w in
        elim answer [
          | err e ↦ (some e, w1)
          | ok pools ↦
              stamp_each pool_meta pool_with out.patch_pool
                (λ p. refers_to name p.spec.template.spec.provider_class_ref)
                annotation_provider_class_hash hash pools w1
        ]

    -- `stampClaims`.
    pub stamp_claims : String → String → W → Option ApiError × W
    unfolding stamp_each
    stamp_claims name hash w =
        let (answer, w1) = out.list_claims w in
        elim answer [
          | err e ↦ (some e, w1)
          | ok claims ↦
              stamp_each claim_meta claim_with out.patch_claim
                (λ c. refers_to name c.spec.provider_class_ref) annotation_provider_class_hash hash
                claims w1
        ]

    -- `Reconcile` of providerclass/hash, with the hash.
    pub stamp_class : C → String → W → (Requeue × Option ApiError) × W
    unfolding stamp_object stamp_pools stamp_claims
    stamp_class obj hash w =
        let (failure, w1) = stamp_object obj hash w in
        elim failure [
          | some e ↦ (stopped e, w1)
          | none ↦
              let (problem, w2) = stamp_pools (class.meta obj).name hash w1 in
              elim problem [
                | some e ↦ ((done, some e), w2)
                | none ↦
                    let (last, w3) = stamp_claims (class.meta obj).name hash w2 in
                    ((done, last), w3)
              ]
        ]

    -- `Reconcile` of providerclass/hash.
    pub reconcile_class_hash : String → W → (Requeue × Option ApiError) × W
    unfolding stamp_class
    reconcile_class_hash name w =
        let (answer, w1) = out.get_class name w in
        elim answer [
          | err e ↦ ((done, ignore_not_found e), w1)
          | ok obj ↦ elim (is_some (class.meta obj).deletion_timestamp) [
            | true ↦ ((done, none), w1)
            | false ↦ elim (class.spec_hash obj) [
              | err problem ↦ ((done, some (other_error problem)), w1)
              | ok hash ↦ stamp_class obj hash w1
            ]
          ]
        ]

    -- `poolToPC` and `claimToPC`: the class that a reference has reconciled.
    abbrev pub class_of_ref : ProviderClassRef → Option String
    class_of_ref ref = if not (ref.kind == kind) || ref.name == "" then none else some ref.name

    abbrev pub pool_to_class : ExitPool Q → Option String
    pool_to_class p = class_of_ref p.spec.template.spec.provider_class_ref

    abbrev pub claim_to_class : ExitClaim Q → Option String
    claim_to_class c = class_of_ref c.spec.provider_class_ref
