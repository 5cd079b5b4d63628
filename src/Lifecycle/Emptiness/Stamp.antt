-- ===== src/Lifecycle/Emptiness/Stamp.antt =====
-- The condition Empty that the emptiness controller leaves on a Ready claim, and since when it holds.
use frp_operator.Prelude.{
  ◌&&◌, ℕ, String, ◌≡◌, refl, sym, ap, ◌∙◌, inl, inr, true, false, Option, none, some, List, [],
  ◌∷◌, string_eq, nat_eq, ◌==◌, Bool-cases, Option-cases, beq_refl, arith, if◌then◌else◌,
  Result-cases,
}
use frp_operator.Api.{
  is_unknown, condition_type_ready, ExitClaim, Tunnel, Condition, ConditionStatus, is_true,
  is_false, status_beq, condition_type_empty,
}
use frp_operator.Conditions.{find_condition, upsert_condition, stamped, new_condition}
use frp_operator.Lifecycle.Emptiness.{
  is_current, count_bound_tunnels, with_empty, stamp_empty, Outside, ok, patch_if,
  reconcile_emptiness, is_up,
}

-- The time of a condition is that of the condition before it, if that has the same status.
abbrev pub KeepsTime : Option Condition → Condition → Type 0
KeepsTime none c = Unit
KeepsTime (some old) c =
    status_beq old.status c.status ≡ true → c.last_transition_time ≡ old.last_transition_time

-- The condition of this type is there, with this status and the time that it should have.
abbrev pub Stamped : String → ConditionStatus → List Condition → List Condition → Type 0
Stamped type status before after =
    (c : Condition) × (find_condition type after ≡ some c)
    × (c.status ≡ status)
    × KeepsTime (find_condition type before) c

stamped-type : (old new : Condition) → (stamped old new).type ≡ new.type
stamped-type old new = ground arith

stamped-status : (old new : Condition) → (stamped old new).status ≡ new.status
stamped-status old new = ground arith

stamped-KeepsTime : (old new : Condition) → KeepsTime (some old) (stamped old new)
stamped-KeepsTime old new same = elim (Bool-cases (status_beq old.status new.status)) [
  | inl s ↦ rw s refl
  | inr d ↦
      let other : false ≡ true =
        sym d ∙ (ap (status_beq old.status) (sym (stamped-status old new)) ∙ same) in
      absurd cc
]

upsert_condition-Stamped :
    (cs : List Condition) (new : Condition)
    → Stamped new.type new.status cs (upsert_condition cs new)
upsert_condition-Stamped [] new = (new, rw (beq_refl new.type) refl, refl, tt)
upsert_condition-Stamped (c ∷ cs) new = elim (Bool-cases (c.type == new.type)) [
  | inl e ↦ rw e (
    stamped c new,
    rw (stamped-type c new, beq_refl new.type) refl,
    stamped-status c new,
    stamped-KeepsTime c new,
  )
  | inr e ↦
      let (d, found, its, keeps) = upsert_condition-Stamped cs new in
      rw e (d, rw e found, its, keeps)
]

status_beq_iff : (a b : ConditionStatus) → status_beq a b ≡ true → a ≡ b
status_beq_iff is_true is_true e = refl
status_beq_iff is_false is_false e = refl
status_beq_iff is_unknown is_unknown e = refl
status_beq_iff a b e = ground arith

module _ {Q : Type 0} where
  -- The claim that is patched, or the one at hand where there is nothing to patch.
  abbrev pub afterwards : ExitClaim Q → Option (ExitClaim Q) → ExitClaim Q
  afterwards claim none = claim
  afterwards claim (some patched) = patched

  with_empty-Stamped :
      (now : ℕ) (claim : ExitClaim Q) (status : ConditionStatus) (reason message : String)
      → Stamped condition_type_empty status claim.status.conditions
          (afterwards claim (with_empty now claim status reason message)).status.conditions
  unfolding with_empty
  with_empty-Stamped now claim status reason message =
      let cs : List Condition = claim.status.conditions in
      let new : Condition = new_condition condition_type_empty status 0 reason message now in
      elim (Bool-cases (is_current status reason (find_condition condition_type_empty cs))) [
        | inr e ↦ rw (with_empty, e) (upsert_condition-Stamped cs new)
        | inl e ↦ elim (Option-cases (find_condition condition_type_empty cs)) [
          | inl f ↦ let e' : false ≡ true = rw f at e in absurd cc
          | inr (c, f) ↦
              let e' : (status_beq c.status status && c.reason == reason) ≡ true = rw f at e in
              rw (with_empty, e)
                (c, f, status_beq_iff c.status status (ground (arith, e')), rw f (λ same. refl))
        ]
      ]

  stamp_empty-Stamped :
      (now : ℕ) (claim : ExitClaim Q) (tunnels : List (Tunnel Q))
      → Stamped condition_type_empty
          (if count_bound_tunnels claim.meta.name tunnels == 0 then is_true else is_false)
          claim.status.conditions
          (afterwards claim (stamp_empty now claim tunnels)).status.conditions
  unfolding stamp_empty
  stamp_empty-Stamped now claim tunnels =
      elim (Bool-cases (count_bound_tunnels claim.meta.name tunnels == 0)) [
        | inl e ↦ rw (stamp_empty, e) (with_empty-Stamped now claim is_true "NoTunnels" _)
        | inr e ↦ rw (stamp_empty, e) (with_empty-Stamped now claim is_false "HasTunnel" _)
      ]

  -- `Has c w`: the apiserver has the claim `c`. It has what a Get gives, a List changes nothing, and after
  -- a patch of the status without an error it has what was written.
  pub record Serves {W : Type 0} (out : Outside Q W) (Has : ExitClaim Q → W → Type 0) : Type 0 where
    pub got :
        (name : String) (w : W) (c : ExitClaim Q)
        → (out.get_claim name w).0 ≡ ok c
        → Has c (out.get_claim name w).1
    pub listed : (c : ExitClaim Q) (w : W) → Has c w → Has c (out.list_tunnels w).1
    pub patched :
        (c : ExitClaim Q) (w : W) → (out.patch_status c w).0 ≡ none → Has c (out.patch_status c w).1

  module _ {W : Type 0} (out : Outside Q W) (Has : ExitClaim Q → W → Type 0) where
    -- In the end the claim has its condition Empty, as the tunnels that the run has listed ask for.
    pub record Emptied (name : String) (before : ExitClaim Q) (w end : W) : Type 0 where
      pub tunnels : List (Tunnel Q)
      pub listing : (out.list_tunnels (out.get_claim name w).1).0 ≡ ok tunnels
      pub after : ExitClaim Q
      pub has : Has after end
      pub stamped_empty :
          Stamped condition_type_empty
            (if count_bound_tunnels before.meta.name tunnels == 0 then is_true else is_false)
            before.status.conditions
            after.status.conditions

    patch_if-Has :
        (claim : ExitClaim Q) (patch : Option (ExitClaim Q)) (w : W)
        → Serves out Has
        → Has claim w
        → (patch_if out patch w).0.1 ≡ none
        → Has (afterwards claim patch) (patch_if out patch w).1
    unfolding patch_if
    patch_if-Has claim none w s has h = has
    patch_if-Has claim (some new) w s has h = s.patched new w h

    -- A run of the emptiness controller that ends without an error, on a claim that it reads as Ready and not
    -- being deleted, leaves the claim on the apiserver with its condition Empty: True where no tunnel of the
    -- List that stays is assigned to it, False elsewhere. Where the status is what it was before, the time of
    -- the last transition, from which an exit counts as empty, is too.
    pub reconcile_emptiness-Emptied :
        (name : String) (claim : ExitClaim Q) (w : W)
        → Serves out Has
        → (out.get_claim name w).0 ≡ ok claim
        → claim.meta.deletion_timestamp ≡ none
        → is_up (find_condition condition_type_ready claim.status.conditions) ≡ true
        → (reconcile_emptiness out name w).0.1 ≡ none
        → Emptied name claim w (reconcile_emptiness out name w).1
    unfolding reconcile_emptiness
    reconcile_emptiness-Emptied name claim w s found live up h =
        let w1 = (out.get_claim name w).1 in
        let w2 = (out.list_tunnels w1).1 in
        elim (Result-cases (out.list_tunnels w1).0) [
          | inr (e, failed) ↦
              let h' : some e ≡ none = rw (reconcile_emptiness, found, live, up, failed) at h in
              absurd cc
          | inl (tunnels, answered) ↦
              let new = stamp_empty (out.now w2) claim tunnels in
              let h' : (patch_if out new w2).0.1 ≡ none =
                rw (reconcile_emptiness, found, live, up, answered) at h in
              rw (reconcile_emptiness, found, live, up, answered)
                (record {
                  tunnels = tunnels;
                  listing = answered;
                  after = afterwards claim new;
                  has =
                      patch_if-Has claim new w2 s (s.listed claim w1 (s.got name w claim found)) h';
                  stamped_empty = stamp_empty-Stamped (out.now w2) claim tunnels;
                })
        ]
