-- ===== src/Api/Tunnels.antt =====
-- `Tunnel` (api/v1alpha1/tunnel_types.go).
use frp_operator.Prelude.{Bool, true, false, String, Option, List}
use frp_operator.Api.Meta.{Condition, ObjectMeta}
use frp_operator.Api.Requirement.{NodeSelectorRequirement, Port}
use frp_operator.Api.Resources.{ResourceList}

pub record TunnelPort : Type 0 where
  pub name : String
  pub public_port : Option Port
  pub service_port : Port
  pub protocol : String

pub record TunnelSpec (Q : Type 0) : Type 0 where
  pub ports : List TunnelPort
  pub requirements : List NodeSelectorRequirement
  pub exit_claim_ref : Option String
  pub requests : ResourceList Q

-- `unset` is the empty text of a status that was never written.
pub data TunnelPhase : Type 0 where
  unset pending allocating provisioning ready failed : TunnelPhase

pub record TunnelStatus : Type 0 where
  pub phase : TunnelPhase
  pub assigned_exit : String
  pub assigned_ip : String
  pub assigned_ports : List Port
  pub conditions : List Condition

pub record Tunnel (Q : Type 0) : Type 0 where
  pub meta : ObjectMeta
  pub spec : TunnelSpec Q
  pub status : TunnelStatus

abbrev pub phase_beq : TunnelPhase → TunnelPhase → Bool
phase_beq unset unset = true
phase_beq pending pending = true
phase_beq allocating allocating = true
phase_beq provisioning provisioning = true
phase_beq ready ready = true
phase_beq failed failed = true
phase_beq _ _ = false
