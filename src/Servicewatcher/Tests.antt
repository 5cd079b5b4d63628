-- ===== src/Servicewatcher/Tests.antt =====
-- A Service of ours with one port, and a tunnel under its name that nobody has labelled.
use frp_operator.Prelude.{
  ℕ, ◌+◌, String, ◌≡◌, refl, true, none, some, [], ◌∷◌, string_eq, nat_eq, ok, err,
}
use frp_operator.Kube.{not_found}
use frp_operator.Api.{Tunnel, TunnelSpec}
use frp_operator.Scheduling.Exits.Tests.{named, tunnel}
use frp_operator.Disruption.Methods.{text_at}
use frp_operator.Servicewatcher.{Service, Parsers, label_managed_by_service, is_our_service}
use frp_operator.Servicewatcher.Sibling.{Outside, desired_spec, reconcile_service}
use frp_operator.Servicewatcher.Settled.{
  written, OutlastsOurs, reconcile_service_settled, reconcile_service_spares,
}

abbrev service : Service
service = record {
  meta = named "web";
  type = "LoadBalancer";
  class = some "frp.operator.io/frp";
  ports = record { name = "http"; protocol = ""; port = 80; target_port = 0 } ∷ [];
  ingress = [];
}

abbrev parsers : Parsers ℕ
parsers = record {
  parse_quantity = λ raw. err "not a quantity";
  unmarshal = λ raw. err "not JSON";
  spec_equal = λ a b. true;
}

abbrev wanted : TunnelSpec ℕ
wanted = record {
  ports = record { name = "http"; public_port = some 80; service_port = 80; protocol = "TCP" } ∷ [];
  requirements = [];
  exit_claim_ref = none;
  requests = [];
}

wanted_spec : desired_spec parsers service ≡ ok wanted
unfolding desired_spec
wanted_spec = refl

-- The world counts the calls that write.
abbrev calls : Tunnel ℕ → Outside ℕ ℕ
calls stored = record {
  get_service = λ namespace name w. (ok service, w);
  get_tunnel = λ namespace name w. (ok stored, w);
  create_tunnel = λ t w. (none, w + 1);
  update_tunnel = λ t w. (none, w + 1);
  delete_tunnel = λ t w. (none, w + 1);
  patch_service_status = λ svc w. (none, w + 1);
}

ours : is_our_service service ≡ true
unfolding is_our_service
ours = refl

reconcile_service_settled_example :
    reconcile_service parsers
      (calls (written parsers service wanted (some tunnel)))
      "default"
      "web"
      0
    ≡ (none, 0)
reconcile_service_settled_example =
    reconcile_service_settled parsers (calls (written parsers service wanted (some tunnel)))
      "default" "web" 0 service wanted (some tunnel) (λ s. refl) refl ours refl wanted_spec refl

-- A Service that is gone; the world tells the label of the last tunnel that was deleted.
abbrev gone : Outside ℕ String
gone = record {
  get_service = λ namespace name w. (err not_found, w);
  get_tunnel = λ namespace name w. (ok tunnel, w);
  create_tunnel = λ t w. (none, w);
  update_tunnel = λ t w. (none, w);
  delete_tunnel = λ t w. (none, text_at label_managed_by_service t.meta.labels);
  patch_service_status = λ svc w. (none, w);
}

abbrev Ours : String → Type 0
Ours w = w ≡ "true"

gone-OutlastsOurs : OutlastsOurs parsers gone Ours
gone-OutlastsOurs = record {
  get_service = λ namespace name w p. p;
  get_tunnel = λ namespace name w p. p;
  create = λ t w p. p;
  update = λ t w p. p;
  delete = λ t w labelled p. labelled;
}

reconcile_service_spares_example : Ours (reconcile_service parsers gone "default" "web" "true").1
reconcile_service_spares_example =
    reconcile_service_spares parsers gone Ours gone-OutlastsOurs "default" "web" "true" refl
