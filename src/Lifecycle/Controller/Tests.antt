-- ===== src/Lifecycle/Controller/Tests.antt =====
-- A claim with the finalizer whose exit has not been made yet.
use frp_operator.Prelude.{
  subst, Result, ℕ, String, ◌≡◌, refl, true, Option, none, List, [], ◌∷◌, string_eq, nat_eq, ok,
  err, Bool, contains,
}
use frp_operator.Api.{ExitClaim, Condition, termination_finalizer}
use frp_operator.Conditions.{find_condition, upsert_condition}
use frp_operator.Scheduling.Exits.Tests.{claim}
use frp_operator.Lifecycle.{Outside, false}
use frp_operator.Lifecycle.Phases.{Apimeta, Outside as PhasesOutside}
use frp_operator.Lifecycle.Liveness.{Outside as LivenessOutside, Settings}
use frp_operator.Lifecycle.Controller.{reconcile_claim}
use frp_operator.Lifecycle.Controller.Finalizer.{OutlastsGuarded, reconcile_claim_guarded}

abbrev guarded : ExitClaim ℕ
guarded = record claim { meta = record claim.meta { finalizers = termination_finalizer ∷ [] } }

abbrev meta : Apimeta
meta = record { set = upsert_condition; holds = λ cs type. false }

abbrev find : List Condition → String → Option Condition
find cs type = find_condition type cs

abbrev settings : Settings
settings = record { registration_ttl = 0; probe_interval = 0; failure_threshold = 0 }

-- The world tells whether every exit was made for a claim with the finalizer.
abbrev out : Outside ℕ Bool
out = record {
  list_tunnels = λ w. (ok [], w);
  patch_tunnel_status = λ t w. (none, w);
  provider = λ kind. none;
  patch_claim = λ c w. (none, w);
  now = λ w. 9;
}

abbrev made : ExitClaim ℕ → Bool → Result String (ExitClaim ℕ) × Bool
made c w = (ok c, contains c.meta.finalizers termination_finalizer)

abbrev phases : PhasesOutside ℕ Bool
phases = record {
  provider = λ kind. ok made;
  get_server_info = λ host port w. (err "timeout", w);
  patch_status = λ c w. (none, w);
  now = λ w. 9;
}

abbrev liveness : LivenessOutside ℕ Bool
liveness = record {
  get_server_info = λ host port w. (err "timeout", w);
  patch_claim = λ c w. (none, w);
  patch_status = λ c w. (none, w);
  delete_claim = λ c w. (none, w);
  now = λ w. 9;
}

abbrev AllGuarded : Bool → Type 0
AllGuarded w = w ≡ true

create_guarded :
    (f : ExitClaim ℕ → Bool → Result String (ExitClaim ℕ) × Bool) (c : ExitClaim ℕ) (w : Bool)
    → phases.provider "Fake" ≡ ok f
    → contains c.meta.finalizers termination_finalizer ≡ true
    → AllGuarded (f c w).1
create_guarded f c w known guard =
    let same : made ≡ f = cc in
    subst (λ (g : ExitClaim ℕ → Bool → Result String (ExitClaim ℕ) × Bool). AllGuarded (g c w).1)
      same guard

calls-OutlastsGuarded : OutlastsGuarded out phases liveness AllGuarded
calls-OutlastsGuarded = record {
  create = λ kind f c w known guard p. create_guarded f c w known guard;
  add = λ c w p. p;
  info = λ host port w p. p;
  patch = λ c w p. p;
  ask = λ host port w p. p;
  count = λ c w p. p;
  tell = λ c w p. p;
  delete = λ c w p. p;
}

reconcile_claim_guarded_example :
    AllGuarded (reconcile_claim meta find settings out phases liveness (ok guarded) none true).2
reconcile_claim_guarded_example =
    reconcile_claim_guarded meta find settings out phases liveness AllGuarded calls-OutlastsGuarded
      guarded none true refl refl
