-- ===== src/Servicewatcher.antt =====
-- pkg/controllers/servicewatcher: annotations.go, controller.go and reverse_sync.go. The answer of
-- `TargetPort.IntValue` is a bit pattern of 64 bits. `ParseQuantity`, the decoder of JSON and `DeepEqual`
-- are parameters.
pub mod Sibling
pub mod Settled
mod Tests
use frp_operator.Prelude.{
  ℕ, String, Bool, true, false, ◌&&◌, not, Option, none, some, List, [], ◌∷◌, ◌++◌, string_eq,
  nat_eq, ◌==◌, is_some, map, Result, ok, err, ◌>>=◌, if◌then◌else◌,
}
use frp_operator.Prelude.Maps.{lookup, insert, delete}
use frp_operator.Kube.{ApiError, is_not_found, ignore_not_found}
use frp_operator.Api.{
  ObjectMeta, Tunnel, TunnelSpec, TunnelPort, TunnelStatus, unset, Port, NodeSelectorRequirement,
  op_in, label_exit_pool, annotation_do_not_disrupt,
}
use frp_operator.Scheduling.Ports.{to_int32}
use frp_operator.Disruption.Methods.{text_at}

abbrev pub load_balancer_class : String
load_balancer_class = "frp.operator.io/frp"

abbrev pub label_managed_by_service : String
label_managed_by_service = "frp.operator.io/managed-by-service"

-- What the watcher reads of `corev1.Service`.
pub record ServicePort : Type 0 where
  pub name : String
  pub protocol : String
  pub port : Port
  pub target_port : ℕ

pub record Ingress : Type 0 where
  pub ip : String
  pub hostname : String

pub record Service : Type 0 where
  pub meta : ObjectMeta
  pub type : String
  pub class : Option String
  pub ports : List ServicePort
  pub ingress : List Ingress

-- An annotation or a call that fails, with its text.
pub data WatchError : Type 0 where
  bad_annotation : (label problem : String) → WatchError
  call_failed : ApiError → WatchError

pub record Parsers (Q : Type 0) : Type 0 where
  pub parse_quantity : String → Result String Q
  pub unmarshal : String → Result String (List NodeSelectorRequirement)
  pub spec_equal : TunnelSpec Q → TunnelSpec Q → Bool

-- `isOurService`.
unfoldable pub is_our_service : Service → Bool
is_our_service svc = elim (svc.type == "LoadBalancer") [
  | false ↦ false
  | true ↦ elim svc.class [ none ↦ false | some class ↦ class == load_balancer_class ]
]

-- The loop of `PortsFromService`.
pub port_from_service : ServicePort → TunnelPort
unfolding to_int32
port_from_service p = record {
  name = p.name;
  public_port = some p.port;
  service_port = if p.target_port == 0 then p.port else to_int32 p.target_port;
  protocol = if p.protocol == "" then "TCP" else p.protocol;
}

-- `copyDoNotDisrupt`.
unfoldable pub copy_do_not_disrupt : List (String × String) → List (String × String)
copy_do_not_disrupt a =
    let v = text_at annotation_do_not_disrupt a in
    if v == "" then [] else (annotation_do_not_disrupt, v) ∷ []

-- `annotationsEqual`.
unfoldable pub annotations_equal : List (String × String) → List (String × String) → Bool
annotations_equal a b = text_at annotation_do_not_disrupt a == text_at annotation_do_not_disrupt b

-- `loadBalancerEqual`.
pub load_balancer_equal : List Ingress → List Ingress → Bool
load_balancer_equal [] [] = true
load_balancer_equal [] (b ∷ bs) = false
load_balancer_equal (a ∷ as') [] = false
load_balancer_equal (a ∷ as') (b ∷ bs) =
    let rest = load_balancer_equal as' bs in
    if a.ip == b.ip && a.hostname == b.hostname then rest else false

module _ {Q : Type 0} (parsers : Parsers Q) where
  abbrev pub labelled : {A : Type 0} → String → Result String A → Result WatchError A
  labelled label (ok a) = ok a
  labelled label (err problem) = err (bad_annotation label problem)

  -- `addRequest` of `ParseAnnotations`.
  pub add_request : String → String → String → TunnelSpec Q → Result WatchError (TunnelSpec Q)
  add_request key raw label spec =
      if raw == ""
      then ok spec
      else labelled label (parsers.parse_quantity raw) >>= λ q.
          ok (record spec { requests = insert key q spec.requests })

  -- The requirements that are given as JSON.
  pub add_requirements : String → TunnelSpec Q → Result WatchError (TunnelSpec Q)
  add_requirements raw spec =
      if raw == ""
      then ok spec
      else labelled "requirements" (parsers.unmarshal raw) >>= λ rs.
          ok (record spec { requirements = rs })

  -- The shorthand for a pool.
  pub add_pool : String → TunnelSpec Q → TunnelSpec Q
  add_pool name spec = if name == "" then spec else record spec {
    requirements =
        spec.requirements
        ++ (record {
          key = label_exit_pool;
          operator = op_in;
          values = name ∷ [];
          min_values = none;
        }
            ∷ []);
  }

  abbrev pub empty_spec : TunnelSpec Q
  empty_spec = record { ports = []; requirements = []; exit_claim_ref = none; requests = [] }

  -- `ParseAnnotations`.
  pub parse_annotations : Service → Result WatchError (TunnelSpec Q)
  unfolding add_request add_requirements add_pool
  parse_annotations svc =
      let a = svc.meta.annotations in
      let pinned = text_at "frp.operator.io/exit-claim-ref" a in
      add_request "cpu" (text_at "frp.operator.io/resources.requests.cpu" a) "cpu" empty_spec
      >>= λ s1.
          add_request "memory" (text_at "frp.operator.io/resources.requests.memory" a) "memory" s1
          >>= λ s2.
              add_request "frp.operator.io/bandwidthMbps"
                (text_at "frp.operator.io/resources.requests.bandwidthMbps" a) "bandwidth" s2
              >>= λ s3.
                  add_request "frp.operator.io/monthlyTrafficGB"
                    (text_at "frp.operator.io/resources.requests.monthlyTrafficGB" a) "traffic" s3
                  >>= λ s4. add_requirements (text_at "frp.operator.io/requirements" a) s4 >>= λ s5.
                      let s6 = add_pool (text_at "frp.operator.io/exit-pool" a) s5 in
                      ok (if pinned == "" then s6 else record s6 { exit_claim_ref = some pinned })
