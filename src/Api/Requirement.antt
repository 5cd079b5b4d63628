-- ===== src/Api/Requirement.antt =====
-- Requirements and references (api/v1alpha1/types_shared.go).
use frp_operator.Prelude.{ℕ, String, Option, List}

pub record SecretKeyRef : Type 0 where
  pub name : String
  pub key : String

pub record ProviderClassRef : Type 0 where
  pub group : String
  pub kind : String
  pub name : String

-- `other` is a text that is none of the six constants.
pub data NodeSelectorOperator : Type 0 where
  op_in op_not_in op_exists op_does_not_exist op_gt op_lt : NodeSelectorOperator
  op_other : String → NodeSelectorOperator

pub record NodeSelectorRequirement : Type 0 where
  pub key : String
  pub operator : NodeSelectorOperator
  pub values : List String
  pub min_values : Option ℕ

-- An `int32` port is its bit pattern, a number below 2^32.
abbrev pub Port : Type 0
Port = ℕ
