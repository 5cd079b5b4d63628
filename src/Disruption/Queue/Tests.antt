-- ===== src/Disruption/Queue/Tests.antt =====
-- A command for one exit, whose cordon fails.
use frp_operator.Prelude.{
  ℕ, ◌+◌, ◌≡◌, ◌≢◌, refl, false, none, some, [], ◌∷◌, string_eq, nat_eq, arith, ok, err,
}
use frp_operator.Kube.{ApiError, other_error}
use frp_operator.Api.{underutilized}
use frp_operator.State.Cluster.{Cluster, new_cluster}
use frp_operator.Scheduling.Exits.Tests.{edge, claim, exit}
use frp_operator.Disruption.{Command}
use frp_operator.Disruption.Queue.{
  Outside, QueueError, cordon_failed, cordon_call_failed, out_of_rounds, cordon_rounds, cordon_all,
  enqueue, wait_for_replacements_ready,
}
use frp_operator.Disruption.Queue.Abort.{Outlasts, enqueue_aborted}
use frp_operator.Disruption.Queue.Wait.{ClockLaws, wait_for_replacements_ready_ends}

abbrev down : ApiError
down = other_error "connection refused"

-- Each deletion counts; no other call changes the world.
abbrev unreachable : Outside ℕ ℕ
unreachable = record {
  get_claim = λ name w. (err down, w);
  patch_conditions = λ live cs w. (none, w);
  delete_claim = λ live w. (none, w + 1);
  create_replacements = none;
  now = λ w. 0;
  sleep = λ d w. (false, w);
}

abbrev Undeleted : ℕ → Type 0
Undeleted w = w ≡ 0

unreachable-Outlasts : Outlasts unreachable Undeleted
unreachable-Outlasts = record {
  get = λ name w p. p;
  patch = λ live cs w p. p;
  create = λ f rs w missing p. absurd cc;
  wake = λ d w p. p;
}

abbrev command : Command ℕ
command = record {
  candidates =
      record {
        claim = claim;
        state = exit.state;
        pool = edge;
        disruption_cost = 0;
        last_binding_change = 0;
      }
      ∷ [];
  replacements = [];
  reason = underutilized;
  method = "SingleNodeConsolidation";
}

abbrev nothing_known : Cluster ℕ
nothing_known = new_cluster

abbrev failure : QueueError
failure = cordon_failed "exit" (cordon_call_failed down)

fails : (enqueue unreachable 61 5 300 command nothing_known 0).0 ≡ some failure
unfolding enqueue cordon_all cordon_rounds
fails = refl

enqueue_aborted_example :
    ((enqueue unreachable 61 5 300 command nothing_known 0).1 ≡ nothing_known)
    × Undeleted (enqueue unreachable 61 5 300 command nothing_known 0).2
enqueue_aborted_example =
    enqueue_aborted unreachable Undeleted unreachable-Outlasts 61 5 300 command nothing_known 0
      failure refl fails refl

-- A world that is the time, in which no replacement gets ready.
abbrev waiting : Outside ℕ ℕ
waiting = record {
  get_claim = λ name w. (ok (record claim { status = record claim.status { conditions = [] } }), w);
  patch_conditions = λ live cs w. (none, w);
  delete_claim = λ live w. (none, w);
  create_replacements = none;
  now = λ w. w;
  sleep = λ d w. (false, w + d);
}

waiting_laws : ClockLaws waiting
waiting_laws = record { get_later = λ name w. omega arith; slept = λ d w awake. omega arith }

wait_for_replacements_ready_ends_example :
    (wait_for_replacements_ready waiting 61 5 300 (claim ∷ []) 0).0 ≢ out_of_rounds
wait_for_replacements_ready_ends_example =
    wait_for_replacements_ready_ends waiting waiting_laws 60 5 300 (claim ∷ []) 0 (omega arith)
