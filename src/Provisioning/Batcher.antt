-- ===== src/Provisioning/Batcher.antt =====
-- pkg/controllers/provisioning/batcher.go, with the windows that provisioner.go gives it and the
-- controllers that feed it (pod_controller.go, node_controller.go). The channel holds at most one signal.
-- Times and windows are nanoseconds.
pub mod Window
mod Tests
use frp_operator.Prelude.{
  ℕ, ◌+◌, ◌≤◌, String, Bool, true, false, ◌≡◌, ◌⊎◌, ◌||◌, Option, none, some, List, [], ◌∷◌,
  string_eq, nat_eq, ◌==◌, add, Result, ok, err, if◌then◌else◌,
}
use frp_operator.Kube.{ApiError, ignore_not_found, is_not_found, seconds}
use frp_operator.Api.{ExitClaim, Tunnel, allocating, phase_beq}

abbrev pub default_batch_idle_duration : ℕ
default_batch_idle_duration = seconds 1

abbrev pub default_batch_max_duration : ℕ
default_batch_max_duration = seconds 10

-- `triggers` tells whether the channel holds a signal.
pub record Batcher : Type 0 where
  pub pending : List String
  pub triggers : Bool
  pub idle : ℕ
  pub max : ℕ

-- `NewBatcher`.
abbrev pub new_batcher : ℕ → ℕ → Batcher
new_batcher idle max = record { pending = []; triggers = false; idle = idle; max = max }

-- The batcher of `NewWithBatcher`: a window of zero becomes the default one.
abbrev pub new_with_batcher : ℕ → ℕ → Batcher
new_with_batcher idle max =
    new_batcher (if idle == 0 then default_batch_idle_duration else idle)
      (if max == 0 then default_batch_max_duration else max)

-- `Trigger`: a channel that is full stays as it is.
pub trigger : String → Batcher → Batcher
trigger t b = record b { pending = add t b.pending; triggers = true }

-- `Drain`.
pub drain : Batcher → List String × Batcher
drain b = (b.pending, record b { pending = [] })

-- `PodController.Reconcile`.
pub pod_reconcile : {Q : Type 0} → Result ApiError (Tunnel Q) → Batcher → Option ApiError × Batcher
unfolding trigger
pod_reconcile (err e) b = (ignore_not_found e, b)
pod_reconcile (ok t) b = (
  none,
  if t.status.assigned_exit == "" || phase_beq t.status.phase allocating
      then trigger t.meta.uid b
      else b,
)

-- `NodeController.Reconcile` for the claim of this name.
pub node_reconcile :
    {Q : Type 0} → String → Result ApiError (ExitClaim Q) → Batcher → Option ApiError × Batcher
unfolding trigger
node_reconcile name (err e) b = elim (is_not_found e) [
  | true ↦ (none, trigger name b)
  | false ↦ (some e, b)
]
node_reconcile name (ok c) b = (none, trigger c.meta.uid b)

-- Where a call of `Wait` stands: before its first signal; in its loop, with the time of that signal, the
-- time of the last one, and the times at which `idleTimer` and `deadline` fire; or back, with its answer.
pub data Phase : Type 0 where
  blocked : Phase
  collecting : (first last idle_at deadline : ℕ) → Phase
  returned : Bool → Phase

pub record Waiting : Type 0 where
  pub now : ℕ
  pub cancelled : Bool
  pub batcher : Batcher
  pub phase : Phase

-- The signal is taken from the channel.
abbrev pub taken : Batcher → Batcher
taken b = record b { triggers = false }

-- A step of `Wait`, or of the world around it: a trigger, a cancellation, or time that passes, also past
-- the time of a timer, since a goroutine may run late. Of several branches that are ready a `select` takes
-- any.
pub data WaitStep (s : Waiting) : Waiting → Type 0 where
  triggered : (t : String) → WaitStep s (record s { batcher = trigger t s.batcher })
  cancel : WaitStep s (record s { cancelled = true })
  passes : (time : ℕ) → s.now ≤ time → WaitStep s (record s { now = time })
  begins :
      s.phase ≡ blocked
      → s.batcher.triggers ≡ true
      → WaitStep s (record s {
        batcher = taken s.batcher;
        phase = collecting s.now s.now (s.now + s.batcher.idle) (s.now + s.batcher.max);
      })
  resets :
      (first last idle_at deadline : ℕ)
      → s.phase ≡ collecting first last idle_at deadline
      → s.batcher.triggers ≡ true
      → WaitStep s (record s {
        batcher = taken s.batcher;
        phase = collecting first s.now (s.now + s.batcher.idle) deadline;
      })
  gives_up :
      s.phase ≡ blocked → s.cancelled ≡ true → WaitStep s (record s { phase = returned false })
  cut_short :
      (first last idle_at deadline : ℕ)
      → s.phase ≡ collecting first last idle_at deadline
      → s.cancelled ≡ true
      → WaitStep s (record s { phase = returned true })
  times_out :
      (first last idle_at deadline : ℕ)
      → s.phase ≡ collecting first last idle_at deadline
      → (idle_at ≤ s.now) ⊎ (deadline ≤ s.now)
      → WaitStep s (record s { phase = returned true })

-- The call `Wait` of a batcher, and what follows.
pub data Waits (b : Batcher) (start : ℕ) : Waiting → Type 0 where
  called :
      (cancelled : Bool)
      → Waits b start (record { now = start; cancelled = cancelled; batcher = b; phase = blocked })
  goes_on : {s t : Waiting} → Waits b start s → WaitStep s t → Waits b start t
