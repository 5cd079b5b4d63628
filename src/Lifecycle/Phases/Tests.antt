-- ===== src/Lifecycle/Phases/Tests.antt =====
-- A claim without conditions, launched by a provider that answers.
use frp_operator.Prelude.{
  ℕ, String, ◌≡◌, ◌≢◌, refl, Bool, true, false, ◌&&◌, ◌||◌, not, none, List, [], ◌∷◌, arith,
  string_eq, nat_eq, ◌==◌, Bool-cases, inl, inr, ok, subst, if◌then◌else◌, ◌||◌,
}
use frp_operator.Api.{ExitClaim, Condition, status_beq, is_true}
use frp_operator.Conditions.{upsert_condition}
use frp_operator.Scheduling.Exits.Tests.{claim}
use frp_operator.Lifecycle.Phases.{Apimeta, Outside, run_phases}
use frp_operator.Lifecycle.Phases.Stages.{ApimetaLaws, Ordered, OutlastsOrdered, run_phases_ordered}

abbrev first_holds : List Condition → String → Bool
first_holds [] type = false
first_holds (c ∷ cs) type =
    if c.type == type then status_beq c.status is_true else first_holds cs type

abbrev meta : Apimeta
meta = record { set = upsert_condition; holds = first_holds }

set_same :
    (cs : List Condition) (c : Condition)
    → first_holds (upsert_condition cs c) c.type ≡ status_beq c.status is_true
set_same [] c = ground (arith, string_eq.same_iff c.type c.type)
set_same (d ∷ cs) c = elim (Bool-cases (d.type == c.type)) [
  | inr other ↦ rw (upsert_condition, other) (rw other (set_same cs c))
  | inl same ↦ elim (Bool-cases (status_beq d.status c.status)) [
    | inl kept ↦ ground (arith, same, kept, string_eq.same_iff c.type c.type)
    | inr new ↦ ground (arith, same, new, string_eq.same_iff c.type c.type)
  ]
]

set_other :
    (cs : List Condition) (c : Condition) (t : String)
    → t ≢ c.type
    → first_holds (upsert_condition cs c) t ≡ first_holds cs t
set_other [] c t apart = ground (arith, string_eq.same_iff c.type t)
set_other (d ∷ cs) c t apart = elim (Bool-cases (d.type == c.type)) [
  | inr other ↦
      let rest = set_other cs c t apart in
      elim (Bool-cases (d.type == t)) [
        | inl here ↦ rw (other, here) refl
        | inr later ↦ rw (other, later) rest
      ]
  | inl same ↦
      let e : d.type ≡ c.type = (string_eq.same_iff d.type c.type).0 same in
      elim (Bool-cases (status_beq d.status c.status)) [
        | inl kept ↦
            ground (arith, same, kept, e, string_eq.same_iff c.type t, string_eq.same_iff d.type t)
        | inr new ↦
            ground (arith, same, new, e, string_eq.same_iff c.type t, string_eq.same_iff d.type t)
      ]
]

meta_laws : ApimetaLaws meta
meta_laws = record { set_same = set_same; set_other = set_other }

abbrev new_claim : ExitClaim ℕ
new_claim = record claim { status = record claim.status { conditions = [] } }

-- The world keeps whether every status written had its stages in order.
abbrev in_order : List Condition → Bool
in_order cs =
    (not (first_holds cs "Registered") || first_holds cs "Launched")
    && (not (first_holds cs "Initialized") || first_holds cs "Registered")
    && (not (first_holds cs "Ready") || first_holds cs "Registered")

abbrev answering : Outside ℕ Bool
answering = record {
  provider = λ kind. ok (λ c w. (ok claim, w));
  get_server_info = λ host port w. (ok "0.68.1", w);
  patch_status = λ c w. (none, w && in_order c.status.conditions);
  now = λ w. 7;
}

abbrev Good : Bool → Type 0
Good w = w ≡ true

or_of : (a b : Bool) → (a ≡ true → b ≡ true) → (not a || b) ≡ true
or_of true b f = f refl
or_of false b f = refl

in_order_of : (cs : List Condition) → Ordered meta cs → in_order cs ≡ true
in_order_of cs o =
    let one = or_of (first_holds cs "Registered") (first_holds cs "Launched") (o.0) in
    let two = or_of (first_holds cs "Initialized") (first_holds cs "Registered") (o.1) in
    let three = or_of (first_holds cs "Ready") (first_holds cs "Registered") (o.2) in
    rw (one, two, three) refl

answering-OutlastsOrdered : OutlastsOrdered meta answering Good
answering-OutlastsOrdered = record {
  create = λ kind f c w known p.
      (let e : (λ (x : ExitClaim ℕ) (v : Bool). (ok claim, v)) ≡ f = cc in
        subst (λ g. Good (g c w).1) e p);
  info = λ host port w p. p;
  patch = λ c w order p. rw p (in_order_of c.status.conditions order);
}

nothing_yet : Ordered meta []
nothing_yet = (λ h. cc, λ h. cc, λ h. cc)

run_phases_ordered_example : Good (run_phases meta answering new_claim true).1
run_phases_ordered_example =
    run_phases_ordered meta meta_laws answering Good answering-OutlastsOrdered new_claim true
      nothing_yet refl
