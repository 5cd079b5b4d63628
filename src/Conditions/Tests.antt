-- ===== src/Conditions/Tests.antt =====
-- An apiserver for one list of conditions, and two writers that race on it.
use frp_operator.Prelude.{
  ℕ, ◌<◌, String, ◌≡◌, ◌≢◌, refl, Option, none, some, List, [], ◌∷◌, ◌++◌, arith, string_eq, ◌==◌,
  set, length, if◌then◌else◌, ltb,
}
use frp_operator.Api.{Condition, is_true, is_false}
use frp_operator.Conditions.{
  find_condition, new_condition, Patch, merge, replace, append, patch_condition,
}
use frp_operator.Conditions.Race.{JsonPatchLaws, patch_condition_keeps_both}

abbrev pub appended_to : List Condition → Condition → Option (List Condition)
appended_to [] c = none
appended_to (d ∷ ds) c = some ((d ∷ ds) ++ c ∷ [])

abbrev pub serve : Patch → List Condition → Option (List Condition)
serve (merge c) cs = some (c ∷ [])
serve (replace i c) cs = if ltb i (length cs) then some (set cs i c) else none
serve (append c) cs = appended_to cs c

serve-replace :
    (i : ℕ) (c : Condition) (cs : List Condition)
    → i < length cs
    → serve (replace i c) cs ≡ some (set cs i c)
serve-replace i c cs h = ground arith

serve-append :
    (c : Condition) (cs : List Condition) → cs ≢ [] → serve (append c) cs ≡ some (cs ++ c ∷ [])
serve-append c [] h = absurd (h refl)
serve-append c (d ∷ ds) h = refl

pub serve_laws : JsonPatchLaws serve
serve_laws = record { merged = λ c cs. refl; replaced = serve-replace; appended = serve-append }

abbrev launched : Condition
launched = new_condition "Launched" is_true 1 "Provisioned" "" 5

abbrev valid : Condition
valid = new_condition "ValidationSucceeded" is_true 1 "Reconciled" "" 7

abbrev unready : Condition
unready = new_condition "Ready" is_false 1 "NotReady" "" 8

one : launched ∷ [] ≢ []
one e = cc

apart : valid.type ≢ unready.type
apart e = cc

patch_condition_keeps_both_example :
    (r : List Condition) × (r' : List Condition) × (serve
        (patch_condition (launched ∷ []) valid)
        (launched ∷ [])
      ≡ some r)
    × (serve (patch_condition (launched ∷ []) unready) r ≡ some r')
    × ((t : String)
        → find_condition t r' ≡ (
            if unready.type == t
            then some unready
            else if valid.type == t
            then some valid
            else find_condition t (launched ∷ [])))
patch_condition_keeps_both_example =
    patch_condition_keeps_both serve serve_laws (launched ∷ []) valid unready one apart
