-- ===== src/Api/Meta.antt =====
-- Object metadata and status conditions (api/v1alpha1/conditions.go and labels.go), with what the
-- operator reads of apimachinery's `metav1` types. Times and durations are nanoseconds; a time of
-- zero is Go's zero time.
use frp_operator.Prelude.{
  ℕ, String, Bool, true, false, ◌&&◌, Option, List, [], ◌∷◌, ◌==◌, string_eq, if◌then◌else◌,
}

pub data ConditionStatus : Type 0 where
  is_true is_false is_unknown : ConditionStatus

abbrev pub status_beq : ConditionStatus → ConditionStatus → Bool
status_beq is_true is_true = true
status_beq is_false is_false = true
status_beq is_unknown is_unknown = true
status_beq _ _ = false

pub record Condition : Type 0 where
  pub type : String
  pub status : ConditionStatus
  pub reason : String
  pub message : String
  pub last_transition_time : ℕ
  pub observed_generation : ℕ

pub record ObjectMeta : Type 0 where
  pub name : String
  pub namespace : String
  pub uid : String
  pub generation : ℕ
  pub labels : List (String × String)
  pub annotations : List (String × String)
  pub creation_timestamp : ℕ
  pub deletion_timestamp : Option ℕ
  pub finalizers : List String
  pub generate_name : String

-- The loop of `isReady`, `readyTrue` and `disruptedTrue`: some condition of this type is True.
abbrev pub has_true : String → List Condition → Bool
has_true type [] = false
has_true type (c ∷ cs) =
    if c.type == type && status_beq c.status is_true then true else has_true type cs

abbrev pub condition_type_ready : String
condition_type_ready = "Ready"

abbrev pub condition_type_empty : String
condition_type_empty = "Empty"

abbrev pub condition_type_disrupted : String
condition_type_disrupted = "Disrupted"

abbrev pub condition_type_launched : String
condition_type_launched = "Launched"

abbrev pub condition_type_registered : String
condition_type_registered = "Registered"

abbrev pub condition_type_initialized : String
condition_type_initialized = "Initialized"

abbrev pub condition_type_provider_class_ready : String
condition_type_provider_class_ready = "ProviderClassReady"

abbrev pub condition_type_validation_succeeded : String
condition_type_validation_succeeded = "ValidationSucceeded"

abbrev pub label_exit_pool : String
label_exit_pool = "frp.operator.io/exitpool"

abbrev pub annotation_do_not_disrupt : String
annotation_do_not_disrupt = "frp.operator.io/do-not-disrupt"

abbrev pub requirement_instance_type : String
requirement_instance_type = "node.kubernetes.io/instance-type"

abbrev pub requirement_region : String
requirement_region = "topology.kubernetes.io/region"

abbrev pub annotation_pool_hash : String
annotation_pool_hash = "frp.operator.io/pool-hash"

abbrev pub annotation_provider_class_hash : String
annotation_provider_class_hash = "frp.operator.io/providerclass-hash"

abbrev pub termination_finalizer : String
termination_finalizer = "frp.operator.io/termination"

abbrev pub resource_exits : String
resource_exits = "frp.operator.io/exits"
