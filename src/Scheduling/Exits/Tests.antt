-- ===== src/Scheduling/Exits/Tests.antt =====
-- Placement on a concrete exit: quantities are numbers, the exit serves ports 8000 to 8002, of which
-- 8000 is reserved and 8001 is taken.
use Prim.Native.Nat.{compare}
use frp_operator.Prelude.{
  ℕ, ◌+◌, ◌-◌, String, ◌≡◌, refl, true, false, none, some, List, [], ◌∷◌, nat_eq, string_eq,
  contains, ok,
}
use frp_operator.Api.{
  when_empty, Port, Quantity, is_true, Condition, ObjectMeta, FrpsConfig, ExitClaimSpec, ExitClaim,
  ExitPool, Tunnel, pending,
}
use frp_operator.Scheduling.Ports.{resolving}
use frp_operator.Scheduling.Ports.Free.{Covered}
use frp_operator.Scheduling.Requirements.{matching}
use frp_operator.Scheduling.Resources.{totalling}
use frp_operator.Scheduling.Exits.{
  ExistingExit, InflightClaim, sum_tunnel_requests, merge_port_sets, can_fit, gate, can_add, bind,
  can_add_inflight, bind_inflight,
}
use frp_operator.Scheduling.Exits.Placement.{can_add_ports, can_add_inflight_ports}

instance abbrev pub units : Quantity ℕ
units = record { cmp = compare; plus = λ a b. a + b; minus = λ a b. a - b }

abbrev pub named : String → ObjectMeta
named n = record {
  name = n;
  namespace = "default";
  uid = n;
  generation = 1;
  labels = [];
  annotations = [];
  creation_timestamp = 0;
  deletion_timestamp = none;
  finalizers = [];
  generate_name = "";
}

abbrev frps : FrpsConfig
frps = record {
  version = "v0.68.1";
  bind_port = 7000;
  admin_port = 7400;
  vhost_http_port = none;
  vhost_https_port = none;
  kcp_bind_port = none;
  quic_bind_port = none;
  allow_ports = "8000-8002" ∷ [];
  reserved_ports = 8000 ∷ [];
  auth = record { method = "token"; token_secret_ref = none };
  tls = none;
}

abbrev spec : ExitClaimSpec ℕ
spec = record {
  provider_class_ref = record { group = ""; kind = "Fake"; name = "fake" };
  requirements = [];
  frps = frps;
  requests = [];
  expire_after = 0;
  termination_grace_period = none;
}

abbrev ready_condition : Condition
ready_condition = record {
  type = "Ready";
  status = is_true;
  reason = "";
  message = "";
  last_transition_time = 0;
  observed_generation = 1;
}

abbrev pub claim : ExitClaim ℕ
claim = record {
  meta = named "exit";
  spec = spec;
  status = record {
    provider_id = "fake://exit";
    public_ip = "";
    exit_name = "";
    image_id = "";
    frps_version = "";
    capacity = [];
    allocatable = ("memory", 4) ∷ [];
    conditions = ready_condition ∷ [];
  };
}

abbrev pub tunnel : Tunnel ℕ
tunnel = record {
  meta = named "web";
  spec = record {
    ports = record { name = ""; public_port = none; service_port = 80; protocol = "TCP" } ∷ [];
    requirements = [];
    exit_claim_ref = none;
    requests = ("memory", 3) ∷ [];
  };
  status = record {
    phase = pending;
    assigned_exit = "";
    assigned_ip = "";
    assigned_ports = [];
    conditions = [];
  };
}

abbrev pub edge : ExitPool ℕ
edge = record {
  meta = named "edge";
  spec = record {
    template = record {
      labels = [];
      annotations = [];
      spec = record {
        provider_class_ref = record { group = ""; kind = "Fake"; name = "fake" };
        requirements = [];
        frps = frps;
        expire_after = 0;
        termination_grace_period = none;
      };
    };
    disruption = record { consolidation_policy = when_empty; consolidate_after = 0; budgets = [] };
    limits = [];
    weight = none;
    replicas = none;
  };
  status = record { conditions = []; exits = 0; resources = [] };
}

abbrev pub exit : ExistingExit ℕ
exit = record {
  state = record {
    claim = some claim;
    allocations = (8001, "default/db") ∷ [];
    marked_for_deletion = false;
    nominated = false;
  };
  newly_bound = [];
  newly_used_ports = [];
}

abbrev pub inflight : InflightClaim ℕ
inflight = record {
  spec = spec;
  name = "edge-1";
  pool = edge;
  tunnels = [];
  used_ports = 8001 ∷ [];
  persisted = false;
}

abbrev given : List Port
given = 8002 ∷ []

exit_takes : can_add exit tunnel ≡ ok (8002 ∷ [])
unfolding can_add gate can_fit sum_tunnel_requests merge_port_sets resolving matching totalling
exit_takes = refl

inflight_takes : can_add_inflight inflight tunnel ≡ ok (8002 ∷ [])
unfolding can_add_inflight resolving matching
inflight_takes = refl

assigned_has : contains given 8002 ≡ true
assigned_has = refl

abbrev reserved : List Port
reserved = 8000 ∷ []

abbrev taken : List Port
taken = 8001 ∷ []

abbrev unbound : List Port
unbound = []

can_add_ports_example :
    Covered ("8000-8002" ∷ []) 8002
    × (contains reserved 8002 ≡ false)
    × (contains taken 8002 ≡ false)
    × (contains unbound 8002 ≡ false)
    × (contains (bind tunnel (8002 ∷ []) exit).newly_used_ports 8002 ≡ true)
can_add_ports_example =
    can_add_ports exit tunnel (8002 ∷ []) claim 8002 refl exit_takes assigned_has

can_add_inflight_ports_example :
    Covered ("8000-8002" ∷ []) 8002
    × (contains reserved 8002 ≡ false)
    × (contains taken 8002 ≡ false)
    × (contains (bind_inflight tunnel (8002 ∷ []) inflight).used_ports 8002 ≡ true)
can_add_inflight_ports_example =
    can_add_inflight_ports inflight tunnel (8002 ∷ []) 8002 inflight_takes assigned_has
