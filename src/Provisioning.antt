-- ===== src/Provisioning.antt =====
-- pkg/controllers/provisioning/provisioner.go. The world `W` outside is a parameter: the answers of the
-- Kubernetes client, and the clock, depend on it. The text of a scheduling error is a parameter. Not
-- here: the endless loop of `SetupWithManager`, and logging.
pub mod Batcher
pub mod Keys
pub mod Doomed
mod Tests
use Prim.Native.Char.{Char, code}
use frp_operator.Prelude.{
  ℕ, String, Bool, true, false, ◌||◌, ◌&&◌, not, Option, none, some, List, [], ◌∷◌, ◌++◌, string_eq,
  nat_eq, ◌==◌, contains, is_some, Result, ok, err, if◌then◌else◌,
}
use frp_operator.Kube.{ApiError, Requeue, done, after, seconds, is_not_found, is_already_exists}
use frp_operator.Api.{
  ExitClaim, Tunnel, TunnelPhase, unset, pending, allocating, provisioning, ready, phase_beq,
  Condition, ConditionStatus, is_true, is_false, status_beq, has_true, condition_type_ready,
  label_exit_pool,
}
use frp_operator.Conditions.{new_condition}
use frp_operator.Scheduling.Exits.{InflightClaim, SchedulingError, concat}
use frp_operator.Scheduling.Solve.{Binding, Results}

-- What the provisioner calls.
pub record Outside (Q W : Type 0) : Type 0 where
  pub list_tunnels : W → Result ApiError (List (Tunnel Q)) × W
  pub get_claim : String → W → Result ApiError (ExitClaim Q) × W
  pub get_tunnel : String → String → W → Result ApiError (Tunnel Q) × W
  pub create_claim : ExitClaim Q → W → Option ApiError × W
  pub patch_tunnel_status : Tunnel Q → W → Option ApiError × W
  pub now : W → ℕ

-- The errors, each with the name or key that it tells.
pub data ProvisionError : Type 0 where
  call_failed : ApiError → ProvisionError
  promote_failed : String → String → ApiError → ProvisionError
  create_claim_failed get_existing_failed get_tunnel_failed patch_tunnel_failed :
      String → ApiError → ProvisionError

abbrev pub before_text : Char → Option (String × String) → Option (String × String)
before_text c none = none
before_text c (some (before, behind)) = some (String.◌∷◌ c before, behind)

-- `strings.Cut` at a one-byte separator.
pub cut_text : ℕ → String → Option (String × String)
cut_text sep String.[] = none
cut_text sep (String.◌∷◌ c s) =
    let rest = cut_text sep s in if code c == sep then some (String.[], s) else before_text c rest

abbrev pub or_whole : String → Option (String × String) → String × String
or_whole key none = ("", key)
or_whole key (some parts) = parts

-- `splitKey`.
pub split_key : String → String × String
split_key key = or_whole key (cut_text b'/' key)

-- `setTunnelCondition`, on the conditions of a tunnel of that generation.
pub set_tunnel_condition :
    ℕ → ℕ → List Condition → String → ConditionStatus → String → String → List Condition
set_tunnel_condition now generation [] type status reason message =
    new_condition type status generation reason message now ∷ []
set_tunnel_condition now generation (c ∷ cs) type status reason message =
    if not (c.type == type)
    then c ∷ set_tunnel_condition now generation cs type status reason message
    else new_condition type status generation reason message
        (if not (status_beq c.status status) then now else c.last_transition_time)
      ∷ cs

module _ {Q : Type 0} where
  -- `exitClaimReady`.
  abbrev pub exit_claim_ready : ExitClaim Q → Bool
  exit_claim_ready claim = has_true condition_type_ready claim.status.conditions

  -- The tunnels that `promoteReadyTunnels` looks at.
  pub is_waiting : Tunnel Q → Bool
  is_waiting t =
      not (is_some t.meta.deletion_timestamp)
      && phase_beq t.status.phase provisioning
      && not (t.status.assigned_exit == "")

  -- A tunnel promoted to Ready.
  pub promoted : ℕ → ExitClaim Q → Tunnel Q → Tunnel Q
  unfolding set_tunnel_condition
  promoted now claim t = record t {
    status = record t.status {
      phase = ready;
      assigned_ip =
          (if not (claim.status.public_ip == "") && t.status.assigned_ip == ""
            then claim.status.public_ip
            else t.status.assigned_ip);
      conditions =
          set_tunnel_condition now t.meta.generation t.status.conditions "Ready" is_true
            "Reconciled" "exit Ready";
    };
  }

  -- The loop of `listPendingTunnels`.
  pub pending_tunnels : List (Tunnel Q) → List (Tunnel Q)
  pending_tunnels [] = []
  pending_tunnels (t ∷ ts) =
      let rest = pending_tunnels ts in
      if is_some t.meta.deletion_timestamp
      then rest
      else if t.status.assigned_exit == "" || phase_beq t.status.phase allocating
      then t ∷ rest
      else rest

  -- The claim that `persistResults` creates.
  pub claim_to_create : InflightClaim Q → ExitClaim Q
  claim_to_create c = record {
    meta = record {
      name = c.name;
      namespace = "";
      uid = "";
      generation = 0;
      labels = (label_exit_pool, c.pool.meta.name) ∷ [];
      annotations = [];
      creation_timestamp = 0;
      deletion_timestamp = none;
      finalizers = [];
      generate_name = "";
    };
    spec = c.spec;
    status = record {
      provider_id = "";
      public_ip = "";
      exit_name = "";
      image_id = "";
      frps_version = "";
      capacity = [];
      allocatable = [];
      conditions = [];
    };
  }

  -- A tunnel with the binding written to its status.
  pub bound : ℕ → Binding → Tunnel Q → Tunnel Q
  unfolding set_tunnel_condition
  bound now b t = record t {
    status = record t.status {
      assigned_exit = b.exit_claim_name;
      assigned_ports = b.assigned_ports;
      phase = provisioning;
      conditions =
          set_tunnel_condition now t.meta.generation t.status.conditions "Ready" is_false
            "Provisioning" (concat "scheduler bound to " b.exit_claim_name);
    };
  }

  -- A tunnel with its scheduling error written to its status.
  pub unscheduled : ℕ → String → Tunnel Q → Tunnel Q
  unfolding set_tunnel_condition
  unscheduled now message t = record t {
    status = record t.status {
      phase =
          (if phase_beq t.status.phase unset || phase_beq t.status.phase pending
            then allocating
            else t.status.phase);
      conditions =
          set_tunnel_condition now t.meta.generation t.status.conditions "Ready" is_false
            "Unschedulable" message;
    };
  }

  module _ {W : Type 0} (out : Outside Q W) where
    -- The loop of `promoteReadyTunnels`.
    pub promote_all : List (Tunnel Q) → W → Option ProvisionError × W
    promote_all [] w = (none, w)
    promote_all (t ∷ ts) w = elim (is_waiting t) [
      | false ↦ promote_all ts w
      | true ↦
          let (answer, w1) = out.get_claim t.status.assigned_exit w in
          elim answer [
            | err e ↦ elim (is_not_found e) [
              | true ↦ promote_all ts w1
              | false ↦ (some (call_failed e), w1)
            ]
            | ok claim ↦ elim (exit_claim_ready claim) [
              | false ↦ promote_all ts w1
              | true ↦
                  let (failure, w2) = out.patch_tunnel_status (promoted (out.now w1) claim t) w1 in
                  elim failure [
                    | some e ↦ (some (promote_failed t.meta.namespace t.meta.name e), w2)
                    | none ↦ promote_all ts w2
                  ]
            ]
          ]
    ]

    -- `promoteReadyTunnels`.
    pub promote_ready_tunnels : W → Option ProvisionError × W
    promote_ready_tunnels w =
        let (answer, w1) = out.list_tunnels w in
        elim answer [ err e ↦ (some (call_failed e), w1) | ok tunnels ↦ promote_all tunnels w1 ]

    -- `listPendingTunnels`.
    pub list_pending_tunnels : W → Result ProvisionError (List (Tunnel Q)) × W
    list_pending_tunnels w =
        let (answer, w1) = out.list_tunnels w in
        elim answer [
          | err e ↦ (err (call_failed e), w1)
          | ok tunnels ↦ (ok (pending_tunnels tunnels), w1)
        ]

    -- The first loop of `persistResults`, with the names rejected so far.
    pub create_claims :
        List (InflightClaim Q) → List String → W → Result ProvisionError (List String) × W
    create_claims [] rejected w = (ok rejected, w)
    create_claims (c ∷ cs) rejected w =
        let (failure, w1) = out.create_claim (claim_to_create c) w in
        elim failure [
          | none ↦ create_claims cs rejected w1
          | some e ↦ elim (is_already_exists e) [
            | false ↦ (err (create_claim_failed c.name e), w1)
            | true ↦
                let (answer, w2) = out.get_claim c.name w1 in
                elim answer [
                  | err g ↦ (err (get_existing_failed c.name g), w2)
                  | ok existing ↦ elim (is_some existing.meta.deletion_timestamp) [
                    | true ↦ create_claims cs (c.name ∷ rejected) w2
                    | false ↦ create_claims cs rejected w2
                  ]
                ]
          ]
        ]

    -- The second loop of `persistResults`.
    pub write_bindings : List String → List Binding → W → Option ProvisionError × W
    write_bindings rejected [] w = (none, w)
    write_bindings rejected (b ∷ bs) w = elim (contains rejected b.exit_claim_name) [
      | true ↦ write_bindings rejected bs w
      | false ↦
          let (ns, name) = split_key b.tunnel_key in
          let (answer, w1) = out.get_tunnel ns name w in
          elim answer [
            | err e ↦ elim (is_not_found e) [
              | true ↦ write_bindings rejected bs w1
              | false ↦ (some (get_tunnel_failed b.tunnel_key e), w1)
            ]
            | ok t ↦
                let (failure, w2) = out.patch_tunnel_status (bound (out.now w1) b t) w1 in
                elim failure [
                  | some e ↦ (some (patch_tunnel_failed b.tunnel_key e), w2)
                  | none ↦ write_bindings rejected bs w2
                ]
          ]
    ]

    -- The first two steps of `persistResults`.
    pub bind_results : List (InflightClaim Q) → List Binding → W → Option ProvisionError × W
    bind_results claims bindings w =
        let (created, w1) = create_claims claims [] w in
        elim created [ err e ↦ (some e, w1) | ok rejected ↦ write_bindings rejected bindings w1 ]

    module _ (describe : SchedulingError → String) where
      -- The last loop of `persistResults`.
      pub write_errors : List (String × SchedulingError) → W → Option ProvisionError × W
      write_errors [] w = (none, w)
      write_errors ((key, problem) ∷ problems) w =
          let (ns, name) = split_key key in
          let (answer, w1) = out.get_tunnel ns name w in
          elim answer [
            | err e ↦ elim (is_not_found e) [
              | true ↦ write_errors problems w1
              | false ↦ (some (get_tunnel_failed key e), w1)
            ]
            | ok t ↦
                let (failure, w2) =
                  out.patch_tunnel_status (unscheduled (out.now w1) (describe problem) t) w1 in
                elim failure [
                  | some e ↦ (some (patch_tunnel_failed key e), w2)
                  | none ↦ write_errors problems w2
                ]
          ]

      -- `persistResults`.
      pub persist_results : Results Q → W → Option ProvisionError × W
      persist_results r w =
          let (failure, w1) = bind_results r.new_claims r.bindings w in
          elim failure [ some e ↦ (some e, w1) | none ↦ write_errors r.tunnel_errors w1 ]

      abbrev pub provision :
          (List (Tunnel Q) → Results Q) → List (Tunnel Q) → W → Option ProvisionError × W
      provision solve [] w = (none, w)
      provision solve (t ∷ ts) w = persist_results (solve (t ∷ ts)) w

      -- `Reconcile`: whether a batch was waited for, the answer of the cluster's `Synced`, and Solve on
      -- the tunnels pending.
      pub reconcile :
          Bool → Bool → (List (Tunnel Q) → Results Q) → W → (Requeue × Option ProvisionError) × W
      reconcile waited synced solve w =
          if not waited
          then ((done, none), w)
          else if not synced
          then ((after (seconds 1), none), w)
          else (let (failure, w1) = promote_ready_tunnels w in
              elim failure [
                | some e ↦ ((done, some e), w1)
                | none ↦
                    let (listed, w2) = list_pending_tunnels w1 in
                    elim listed [
                      | err e ↦ ((done, some e), w2)
                      | ok tunnels ↦
                          let (problem, w3) = provision solve tunnels w2 in ((done, problem), w3)
                    ]
              ])
