-- ===== src/Api/Pool.antt =====
-- `ExitPool` (api/v1alpha1/exitpool_types.go). `limits` is the map type `Limits`.
use frp_operator.Prelude.{ℕ, String, Option, List}
use frp_operator.Api.Meta.{Condition, ObjectMeta}
use frp_operator.Api.Requirement.{ProviderClassRef, NodeSelectorRequirement}
use frp_operator.Api.Resources.{ResourceList}
use frp_operator.Api.Claim.{FrpsConfig}

pub record ExitClaimTemplateSpec : Type 0 where
  pub provider_class_ref : ProviderClassRef
  pub requirements : List NodeSelectorRequirement
  pub frps : FrpsConfig
  pub expire_after : ℕ
  pub termination_grace_period : Option ℕ

pub record ExitClaimTemplate : Type 0 where
  pub labels : List (String × String)
  pub annotations : List (String × String)
  pub spec : ExitClaimTemplateSpec

pub data ConsolidationPolicy : Type 0 where
  when_empty when_empty_or_underutilized : ConsolidationPolicy
  other_policy : String → ConsolidationPolicy

pub data DisruptionReason : Type 0 where
  empty drifted expired underutilized : DisruptionReason

pub record DisruptionBudget : Type 0 where
  pub nodes : String
  pub schedule : String
  pub duration : Option ℕ
  pub reasons : List DisruptionReason

pub record Disruption : Type 0 where
  pub consolidation_policy : ConsolidationPolicy
  pub consolidate_after : ℕ
  pub budgets : List DisruptionBudget

pub record ExitPoolSpec (Q : Type 0) : Type 0 where
  pub template : ExitClaimTemplate
  pub disruption : Disruption
  pub limits : ResourceList Q
  pub weight : Option ℕ
  pub replicas : Option ℕ

pub record ExitPoolStatus (Q : Type 0) : Type 0 where
  pub conditions : List Condition
  pub exits : ℕ
  pub resources : ResourceList Q

pub record ExitPool (Q : Type 0) : Type 0 where
  pub meta : ObjectMeta
  pub spec : ExitPoolSpec Q
  pub status : ExitPoolStatus Q
