-- ===== src/Disruption/Methods.antt =====
-- pkg/controllers/disruption/methods: emptiness.go, expiration.go, drift.go and replacement.go. `now` is
-- the reading of the method's clock. The map of candidates by pool stands in the order in which the
-- pools first occur.
pub mod Caps
pub mod Replacement
use frp_operator.Prelude.{
  ℕ, ◌-◌, String, Bool, true, false, ◌||◌, ◌&&◌, not, Option, none, some, List, [], ◌∷◌, ◌++◌,
  string_eq, nat_eq, ◌==◌, leb, ltb, length, take, map, if◌then◌else◌,
}
use frp_operator.Prelude.Maps.{lookup, insert}
use frp_operator.Kube.{minutes}
use frp_operator.Api.{
  ExitClaim, ExitPool, DisruptionReason, empty, drifted, expired, ObjectMeta, label_exit_pool,
  annotation_pool_hash, annotation_provider_class_hash,
}
use frp_operator.State.Exit.{is_empty}
use frp_operator.Scheduling.Exits.{concat}
use frp_operator.Disruption.{Candidate, Command, BudgetMap, allowed, reason_eq}

abbrev pub default_consolidate_after : ℕ
default_consolidate_after = minutes 5

-- The text at a key, with Go's empty text for a missing one.
abbrev pub text_at : String → List (String × String) → String
text_at key m = elim (lookup key m) [ none ↦ "" | some v ↦ v ]

-- `maps.Copy(dst, src)`.
abbrev pub copy_into : List (String × String) → List (String × String) → List (String × String)
copy_into [] dst = dst
copy_into ((k, v) ∷ src) dst = copy_into src (insert k v dst)

-- `hashesDiffer`.
abbrev pub hashes_differ : ObjectMeta → ObjectMeta → String → Bool
hashes_differ claim pool key =
    let a = text_at key claim.annotations in
    let b = text_at key pool.annotations in if a == "" || b == "" then false else not (a == b)

-- The annotations of a replacement: those of the template, and the hash of the pool.
abbrev pub stamped_annotations : String → List (String × String) → List (String × String)
stamped_annotations hash annotations =
    if not (hash == "") then insert annotation_pool_hash hash annotations else annotations

module _ {Q : Type 0} where
  -- `Emptiness.ShouldDisrupt`.
  pub emptiness_should_disrupt : ℕ → Candidate Q → Bool
  unfolding is_empty
  emptiness_should_disrupt now c =
      if not (is_empty c.state)
      then false
      else if c.state.marked_for_deletion
      then false
      else (let wanted = c.pool.spec.disruption.consolidate_after in
          let wait = if wanted == 0 then default_consolidate_after else wanted in
          not (c.last_binding_change == 0) && leb wait (now - c.last_binding_change))

  -- `Expiration.ShouldDisrupt`.
  pub expiration_should_disrupt : ℕ → Candidate Q → Bool
  expiration_should_disrupt now c =
      if c.state.marked_for_deletion
      then false
      else if c.claim.spec.expire_after == 0
      then false
      else if c.claim.meta.creation_timestamp == 0
      then false
      else leb c.claim.spec.expire_after (now - c.claim.meta.creation_timestamp)

  -- `Drift.ShouldDisrupt`.
  pub drift_should_disrupt : Candidate Q → Bool
  drift_should_disrupt c =
      if c.state.marked_for_deletion
      then false
      else if hashes_differ c.claim.meta c.pool.meta annotation_pool_hash
      then true
      else hashes_differ c.claim.meta c.pool.meta annotation_provider_class_hash

  -- perPool[c.Pool.Name] = append(perPool[c.Pool.Name], c).
  abbrev pub append_at :
      String → Candidate Q → List (String × List (Candidate Q)) → List (String × List (Candidate Q))
  append_at name c [] = (name, c ∷ []) ∷ []
  append_at name c ((k, cs) ∷ groups) =
      if k == name then (k, cs ++ c ∷ []) ∷ groups else (k, cs) ∷ append_at name c groups

  -- The loop that buckets the candidates by pool.
  pub per_pool :
      List (Candidate Q) → List (String × List (Candidate Q)) → List (String × List (Candidate Q))
  per_pool [] groups = groups
  per_pool (c ∷ cs) groups = per_pool cs (append_at c.pool.meta.name c groups)

  -- if len(cs) > allowed { cs = cs[:allowed] }.
  abbrev pub capped : ℕ → List (Candidate Q) → List (Candidate Q)
  capped n cs = if ltb n (length cs) then take n cs else cs

  -- The loop of both `ComputeCommands` over the buckets; `replace` gives the replacements.
  pub commands_of :
      String
      → DisruptionReason
      → (List (Candidate Q) → List (ExitClaim Q))
      → BudgetMap
      → List (String × List (Candidate Q))
      → List (Command Q)
  commands_of method reason replace budgets [] = []
  commands_of method reason replace budgets ((name, cs) ∷ groups) =
      let rest = commands_of method reason replace budgets groups in
      let n = allowed name reason budgets in
      if n == 0
      then rest
      else record {
        candidates = capped n cs;
        replacements = replace (capped n cs);
        reason = reason;
        method = method;
      }
        ∷ rest

  -- `Emptiness.ComputeCommands`.
  pub emptiness_commands : BudgetMap → List (Candidate Q) → List (Command Q)
  emptiness_commands budgets candidates =
      commands_of "Emptiness" empty (λ _. []) budgets (per_pool candidates [])

  -- `replacementForCandidate`.
  pub replacement_for_candidate : Candidate Q → ExitClaim Q
  replacement_for_candidate c =
      let pool = c.pool in
      let tmpl = pool.spec.template in
      record {
        meta = record {
          name = "";
          namespace = "";
          uid = "";
          generation = 0;
          labels = copy_into tmpl.labels ((label_exit_pool, pool.meta.name) ∷ []);
          annotations =
              stamped_annotations (text_at annotation_pool_hash pool.meta.annotations)
                (copy_into tmpl.annotations []);
          creation_timestamp = 0;
          deletion_timestamp = none;
          finalizers = [];
          generate_name = concat pool.meta.name "-";
        };
        spec = record {
          provider_class_ref = tmpl.spec.provider_class_ref;
          requirements = tmpl.spec.requirements;
          frps = tmpl.spec.frps;
          requests = [];
          expire_after = tmpl.spec.expire_after;
          termination_grace_period = tmpl.spec.termination_grace_period;
        };
        status = record {
          provider_id = "";
          public_ip = "";
          exit_name = "";
          image_id = "";
          frps_version = "";
          capacity = [];
          allocatable = [];
          conditions = [];
        };
      }

  -- `computePerPoolWithReplacements`.
  pub commands_with_replacements :
      String → DisruptionReason → BudgetMap → List (Candidate Q) → List (Command Q)
  commands_with_replacements method reason budgets candidates =
      commands_of method reason (map replacement_for_candidate) budgets (per_pool candidates [])

  -- `Drift.ComputeCommands` and `Expiration.ComputeCommands`.
  pub drift_commands : BudgetMap → List (Candidate Q) → List (Command Q)
  drift_commands budgets candidates = commands_with_replacements "Drift" drifted budgets candidates

  pub expiration_commands : BudgetMap → List (Candidate Q) → List (Command Q)
  expiration_commands budgets candidates =
      commands_with_replacements "Expiration" expired budgets candidates
