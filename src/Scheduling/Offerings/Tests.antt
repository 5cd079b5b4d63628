-- ===== src/Scheduling/Offerings/Tests.antt =====
-- A catalog of two instance types, quantities as numbers: the first has the cheapest offering, which is
-- not available.
use frp_operator.Prelude.{
  ℕ, ◌≡◌, refl, Bool, true, false, none, some, [], ◌∷◌, nat_eq, string_eq, ok,
}
use frp_operator.Prelude.Sort.{slice_stable}
use frp_operator.Api.{when_empty, FrpsConfig, ExitPool}
use frp_operator.Cloudprovider.{
  Offering, InstanceType, CloudProvider, Registry, allocatable, provider_for,
}
use frp_operator.Scheduling.Exits.Tests.{units}
use frp_operator.Scheduling.Requirements.{matching}
use frp_operator.Scheduling.Resources.{totalling}
use frp_operator.Scheduling.Offerings.{
  usable, next_best, cheapest_from, cheapest_compatible_offering, cheaper, first_of_sorted, choose,
  suits, candidates, select_instance_type,
}
use frp_operator.Scheduling.Offerings.Cheapest.{
  IsSuitable, IsCheapest, select_instance_type-IsCheapest,
}

abbrev frps : FrpsConfig
frps = record {
  version = "v0.68.1";
  bind_port = 7000;
  admin_port = 7400;
  vhost_http_port = none;
  vhost_https_port = none;
  kcp_bind_port = none;
  quic_bind_port = none;
  allow_ports = "8000-8002" ∷ [];
  reserved_ports = [];
  auth = record { method = "token"; token_secret_ref = none };
  tls = none;
}

abbrev pub edge : ExitPool ℕ
edge = record {
  meta = record {
    name = "edge";
    namespace = "";
    uid = "u";
    generation = 1;
    labels = [];
    annotations = [];
    creation_timestamp = 0;
    deletion_timestamp = none;
    finalizers = [];
    generate_name = "";
  };
  spec = record {
    template = record {
      labels = [];
      annotations = [];
      spec = record {
        provider_class_ref = record { group = ""; kind = "Fake"; name = "fake" };
        requirements = [];
        frps = frps;
        expire_after = 0;
        termination_grace_period = none;
      };
    };
    disruption = record { consolidation_policy = when_empty; consolidate_after = 0; budgets = [] };
    limits = [];
    weight = none;
    replicas = none;
  };
  status = record { conditions = []; exits = 0; resources = [] };
}

abbrev pub priced : ℕ → Bool → Offering
priced cost can = record { requirements = []; price = cost; available = can }

abbrev pub small : InstanceType ℕ
small = record {
  name = "small";
  requirements = [];
  offerings = priced 2 false ∷ priced 9 true ∷ [];
  capacity = ("memory", 4) ∷ [];
  overhead = ("memory", 1) ∷ [];
}

abbrev pub large : InstanceType ℕ
large = record {
  name = "large";
  requirements = [];
  offerings = priced 7 true ∷ [];
  capacity = ("memory", 8) ∷ [];
  overhead = [];
}

abbrev fake : CloudProvider ℕ
fake = record { get_instance_types = λ _. some (small ∷ large ∷ []) }

abbrev pub registered : Registry ℕ
registered = ("Fake", fake) ∷ []

pub chosen :
    select_instance_type (some registered) edge [] (("memory", 3) ∷ [])
    ≡ ok (record { it = large; offering = priced 7 true })
unfolding select_instance_type provider_for choose candidates suits allocatable
    cheapest_compatible_offering cheapest_from next_best usable first_of_sorted slice_stable cheaper
    matching totalling
chosen = refl

found : provider_for "Fake" registered ≡ some fake
unfolding provider_for
found = refl

select_instance_type-IsCheapest_example :
    IsSuitable [] []
      (("memory", 3) ∷ [])
      (small ∷ large ∷ [])
      (record { it = large; offering = priced 7 true })
    × IsCheapest [] []
        (("memory", 3) ∷ [])
        (small ∷ large ∷ [])
        (record { it = large; offering = priced 7 true })
select_instance_type-IsCheapest_example =
    select_instance_type-IsCheapest registered fake edge (small ∷ large ∷ []) []
      (("memory", 3) ∷ []) (record { it = large; offering = priced 7 true }) found refl chosen
