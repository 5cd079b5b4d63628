-- ===== src/Kube.antt =====
-- The Kubernetes client, which is no code of this repository: the answers of its calls and what a
-- reconciler returns to it. Durations are nanoseconds.
use frp_operator.Prelude.{
  ℕ, ◌*◌, String, Bool, true, false, ◌&&◌, not, Option, none, some, ◌==◌, nat_eq,
}

pub data ApiError : Type 0 where
  not_found conflict already_exists : ApiError
  other_error : String → ApiError

abbrev pub is_not_found : ApiError → Bool
is_not_found not_found = true
is_not_found _ = false

abbrev pub is_conflict : ApiError → Bool
is_conflict conflict = true
is_conflict _ = false

abbrev pub is_already_exists : ApiError → Bool
is_already_exists already_exists = true
is_already_exists _ = false

-- `reconcile.Result`.
pub record Requeue : Type 0 where
  pub requeue : Bool
  pub requeue_after : ℕ

abbrev pub done : Requeue
done = record { requeue = false; requeue_after = 0 }

abbrev pub at_once : Requeue
at_once = record { requeue = true; requeue_after = 0 }

abbrev pub after : ℕ → Requeue
after d = record { requeue = false; requeue_after = d }

-- `Result.IsZero`.
abbrev pub is_zero : Requeue → Bool
is_zero r = not r.requeue && r.requeue_after == 0

abbrev pub seconds : ℕ → ℕ
seconds n = n * 1000000000

abbrev pub minutes : ℕ → ℕ
minutes n = n * 60000000000

-- `client.IgnoreNotFound`.
abbrev pub ignore_not_found : ApiError → Option ApiError
ignore_not_found not_found = none
ignore_not_found e = some e
