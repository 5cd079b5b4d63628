-- ===== src/Provisioning/Batcher/Tests.antt =====
-- A call of Wait that a second signal keeps in its loop.
use frp_operator.Prelude.{false, ◌≡◌, refl, [], ◌∷◌}
use frp_operator.Provisioning.Batcher.{
  Batcher, new_batcher, trigger, drain, collecting, Waiting, taken,
}

abbrev small : Batcher
small = new_batcher 3 10

abbrev collects_again : Waiting
collects_again = record {
  now = 7;
  cancelled = false;
  batcher = taken (trigger "b" (taken (trigger "a" small)));
  phase = collecting 5 7 10 15;
}

drained : (drain (trigger "b" (trigger "a" (trigger "b" small)))).0 ≡ "a" ∷ "b" ∷ []
unfolding drain trigger
drained = refl
