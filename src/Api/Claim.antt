-- ===== src/Api/Claim.antt =====
-- `FrpsConfig` of api/v1alpha1/types_shared.go, and `ExitClaim` of api/v1alpha1/exitclaim_types.go.
use frp_operator.Prelude.{ℕ, String, Bool, Option, List}
use frp_operator.Api.Meta.{Condition, ObjectMeta}
use frp_operator.Api.Requirement.{SecretKeyRef, ProviderClassRef, NodeSelectorRequirement, Port}
use frp_operator.Api.Resources.{ResourceList}

pub record FrpsAuthConfig : Type 0 where
  pub method : String
  pub token_secret_ref : Option SecretKeyRef

pub record FrpsTlsConfig : Type 0 where
  pub force : Bool
  pub cert_secret : Option SecretKeyRef
  pub key_secret : Option SecretKeyRef
  pub ca_secret : Option SecretKeyRef

pub record FrpsConfig : Type 0 where
  pub version : String
  pub bind_port : Port
  pub admin_port : Port
  pub vhost_http_port : Option Port
  pub vhost_https_port : Option Port
  pub kcp_bind_port : Option Port
  pub quic_bind_port : Option Port
  pub allow_ports : List String
  pub reserved_ports : List Port
  pub auth : FrpsAuthConfig
  pub tls : Option FrpsTlsConfig

pub record ExitClaimSpec (Q : Type 0) : Type 0 where
  pub provider_class_ref : ProviderClassRef
  pub requirements : List NodeSelectorRequirement
  pub frps : FrpsConfig
  pub requests : ResourceList Q
  pub expire_after : ℕ
  pub termination_grace_period : Option ℕ

pub record ExitClaimStatus (Q : Type 0) : Type 0 where
  pub provider_id : String
  pub public_ip : String
  pub exit_name : String
  pub image_id : String
  pub frps_version : String
  pub capacity : ResourceList Q
  pub allocatable : ResourceList Q
  pub conditions : List Condition

pub record ExitClaim (Q : Type 0) : Type 0 where
  pub meta : ObjectMeta
  pub spec : ExitClaimSpec Q
  pub status : ExitClaimStatus Q
