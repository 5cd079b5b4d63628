-- ===== src/Conditions.antt =====
-- pkg/controllers/conditions/conditions.go, and the helpers on condition lists of
-- pkg/controllers/exitclaim/emptiness/controller.go and pkg/controllers/disruption/queue.go.
pub mod Race
pub mod Tests
use frp_operator.Prelude.{
  ℕ, zero, suc, String, Bool, true, false, ◌≡◌, refl, Option, none, some, List, [], ◌∷◌, string_eq,
  ◌==◌, if◌then◌else◌,
}
use frp_operator.Api.{ConditionStatus, status_beq, Condition}

-- `findCondition`: the first condition of the type.
abbrev pub find_condition : String → List Condition → Option Condition
find_condition type [] = none
find_condition type (c ∷ cs) = if c.type == type then some c else find_condition type cs

-- The time of a transition stays while the status does.
abbrev pub stamped : Condition → Condition → Condition
stamped old new =
    if status_beq old.status new.status
    then record new { last_transition_time = old.last_transition_time }
    else new

-- `upsertCondition`.
abbrev pub upsert_condition : List Condition → Condition → List Condition
upsert_condition [] new = new ∷ []
upsert_condition (c ∷ cs) new =
    if c.type == new.type then stamped c new ∷ cs else c ∷ upsert_condition cs new

abbrev pub new_condition : String → ConditionStatus → ℕ → String → String → ℕ → Condition
new_condition type status generation reason message time = record {
  type = type;
  status = status;
  reason = reason;
  message = message;
  last_transition_time = time;
  observed_generation = generation;
}

-- `MakeCondition`; `now` is the reading of the clock.
abbrev pub make_condition :
    ℕ → List Condition → String → ConditionStatus → ℕ → String → String → Condition
make_condition now [] type status generation reason message =
    new_condition type status generation reason message now
make_condition now (c ∷ cs) type status generation reason message =
    if c.type == type
    then new_condition type status generation reason message
        (if status_beq c.status status then c.last_transition_time else now)
    else make_condition now cs type status generation reason message

-- The request bodies of `PatchCondition`: a merge patch that writes a list of one condition, and the JSON
-- Patch operations `replace /status/conditions/i` and `add /status/conditions/-`.
pub data Patch : Type 0 where
  merge : Condition → Patch
  replace : ℕ → Condition → Patch
  append : Condition → Patch

abbrev pub shifted : Option ℕ → Option ℕ
shifted none = none
shifted (some i) = some (suc i)

-- The first loop of `PatchCondition`; `none` is the index -1.
abbrev pub index_of : String → List Condition → Option ℕ
index_of type [] = none
index_of type (c ∷ cs) = if c.type == type then some 0 else shifted (index_of type cs)

abbrev pub patch_at : Option ℕ → List Condition → Condition → Patch
patch_at none [] new = merge new
patch_at none (c ∷ cs) new = append new
patch_at (some i) existing new = replace i new

-- `PatchCondition`: the request that it sends.
unfoldable pub patch_condition : List Condition → Condition → Patch
patch_condition existing new = patch_at (index_of new.type existing) existing new
