-- ===== src/Exitpool/Tests.antt =====
-- A pool with two claims, one of which is being deleted, and a provider class that is there.
use Prim.Native.Nat.{Ordering, compare}
use frp_operator.Prelude.{
  ◌+◌, ℕ, String, ◌≡◌, ◌≢◌, refl, Option, none, some, List, [], ◌∷◌, string_eq, nat_eq, ◌==◌, ok,
  arith, length, keep,
}
use frp_operator.Prelude.Maps.{lookup}
use frp_operator.Kube.{ApiError, conflict, done}
use frp_operator.Api.{ExitClaim, ExitPool, Condition, resource_exits, condition_type_ready}
use frp_operator.Conditions.{patch_condition}
use frp_operator.Conditions.Tests.{serve, serve_laws}
use frp_operator.Scheduling.Exits.Tests.{claim, edge, units}
use frp_operator.Exitpool.{Outside, totals, with_totals, roll_up, reconcile_counter}
use frp_operator.Exitpool.Totals.{remains, total_of, totals_iff, reconcile_counter_settled}
use frp_operator.Exitpool.Surfaces.{
  Outside as SurfaceOutside, cond_is_true, reconcile_readiness, surface_class, class_condition,
  write_condition, roll_ready_up, ready_rollup,
}
use frp_operator.Exitpool.Surfaces.Ready.{Server, class_found, reconcile_readiness_iff}

abbrev leaving : ExitClaim ℕ
leaving = record claim { meta = record claim.meta { deletion_timestamp = some 5 } }

abbrev claims : List (ExitClaim ℕ)
claims = claim ∷ leaving ∷ []

abbrev of_int : ℕ → ℕ
of_int n = n

totals_iff_example :
    ((totals of_int claims).0 ≡ length (keep remains claims))
    × (lookup resource_exits (totals of_int claims).1
        ≡ some (of_int (length (keep remains claims))))
    × ((k : String)
        → k ≢ resource_exits
        → lookup k (totals of_int claims).1 ≡ total_of k (keep remains claims) none)
totals_iff_example = totals_iff of_int claims ((refl, tt), ((refl, tt), tt))

one_live : (totals of_int claims).0 ≡ 1
unfolding totals roll_up
one_live = refl

abbrev counting : Outside ℕ ℕ
counting = record {
  get_pool = λ name w. (ok (with_totals of_int edge (totals of_int claims)), w);
  list_claims_of = λ name w. (ok claims, w);
  patch_status = λ p w. (none, w + 1);
}

compare_refl : (x : ℕ) → compare x x ≡ Ordering.eq
compare_refl x = ground arith

reconcile_counter_settled_example : reconcile_counter of_int counting "edge" 0 ≡ ((done, none), 0)
reconcile_counter_settled_example =
    reconcile_counter_settled of_int counting "edge" 0 edge claims compare_refl refl refl refl

abbrev written : ExitPool ℕ → Option (List Condition) → Option ApiError × ExitPool ℕ
written p none = (some conflict, p)
written p (some cs) = (none, record p { status = record p.status { conditions = cs } })

abbrev server : SurfaceOutside ℕ (ExitPool ℕ)
server = record {
  get_pool = λ name w. (ok w, w);
  known = λ kind. kind == "Fake";
  get_class = λ kind name w. (none, w);
  text_of = λ e. "refused";
  patch_conditions = λ p body w. written w (serve body w.status.conditions);
  now = λ w. 9;
}

abbrev stored : ExitPool ℕ → ExitPool ℕ
stored w = w

server-Server : Server server serve stored
server-Server = record {
  body = serve_laws;
  get = λ name w. refl;
  get_kept = λ name w. refl;
  get_class = λ kind name w. refl;
  patched = λ p body w cs made accepted. rw made refl;
}

run_ends : (reconcile_readiness server "edge" edge).0 ≡ (done, none)
unfolding reconcile_readiness surface_class class_condition write_condition roll_ready_up
    ready_rollup cond_is_true patch_condition
run_ends = refl

reconcile_readiness_iff_example :
    cond_is_true server condition_type_ready
      (stored (reconcile_readiness server "edge" edge).1).status.conditions
    ≡ class_found server (stored edge) edge
reconcile_readiness_iff_example =
    reconcile_readiness_iff server serve stored server-Server "edge" edge refl run_ends
