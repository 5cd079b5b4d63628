-- ===== src/Provisioning/Batcher/Window.antt =====
-- When `Wait` of batcher.go returns.
use frp_operator.Prelude.{ℕ, ◌+◌, ◌≤◌, ◌≡◌, ◌⊎◌}
use frp_operator.Provisioning.Batcher.{Batcher, Phase, blocked, collecting, returned, Waiting}

-- Where the loop stands: the idle timer was set at the last signal, the other one at the first.
abbrev pub OnTime : Batcher → ℕ → Phase → Type 0
OnTime b now blocked = Unit
OnTime b now (returned answer) = Unit
OnTime b now (collecting first last idle_at deadline) =
    (first ≤ last) × (last ≤ now) × (idle_at ≡ last + b.idle) × (deadline ≡ first + b.max)

record Timely (b : Batcher) (s : Waiting) : Type 0 where
  idle : s.batcher.idle ≡ b.idle
  max : s.batcher.max ≡ b.max
  on_time : OnTime b s.now s.phase

-- One of the timers of the loop has fired.
abbrev Fired : ℕ → Phase → Type 0
Fired now blocked = ⊥
Fired now (returned answer) = Unit
Fired now (collecting first last idle_at deadline) = (idle_at ≤ now) ⊎ (deadline ≤ now)
