-- ===== src/State/Cluster/Fresh.antt =====
-- When the allocations of an exit of cluster.go are those that the bindings give, and which edits of the
-- maps keep them so.
use frp_operator.Prelude.{
  String, ◌≡◌, ◌≢◌, refl, sym, ap, ◌∙◌, inl, inr, some, List, [], ◌∷◌, string_eq, nat_eq, ◌==◌,
  Bool-cases, true, false, if◌then◌else◌, Distinct, contains, same-of_ne, subst,
}
use frp_operator.Prelude.Maps.{lookup, insert, delete, keys, insert-cases}
use frp_operator.Api.{Port, ExitClaim}
use frp_operator.State.Exit.{TunnelKey, TunnelBinding, StateExit}
use frp_operator.State.Cluster.{allocate, derive}
use frp_operator.State.Cluster.Sound.{Sound, names_inj}

-- No binding of the tunnel is one to this exit.
abbrev pub Elsewhere : String → TunnelKey → List (TunnelKey × TunnelBinding) → Type 0
Elsewhere name key bindings =
    (old : TunnelBinding) → lookup key bindings ≡ some old → old.exit_claim_name ≢ name

pub derive-insert :
    (name : String) (key : TunnelKey) (b : TunnelBinding)
    (bindings : List (TunnelKey × TunnelBinding)) (allocs : List (Port × TunnelKey))
    → Elsewhere name key bindings
    → b.exit_claim_name ≢ name
    → derive name (insert key b bindings) allocs ≡ derive name bindings allocs
unfolding derive
derive-insert name key b [] allocs gone n = rw (same-of_ne b.exit_claim_name name n) refl
derive-insert name key b ((k, old) ∷ bindings) allocs gone n = elim (Bool-cases (k == key)) [
  | inl e ↦
      let m : old.exit_claim_name ≢ name = gone old (rw e refl) in
      let other : (b.exit_claim_name == name) ≡ false = same-of_ne b.exit_claim_name name n in
      let old_other : (old.exit_claim_name == name) ≡ false =
        same-of_ne old.exit_claim_name name m in
      let skipped : (if b.exit_claim_name == name
            then allocate k b.assigned_ports allocs
            else allocs)
          ≡ allocs =
        rw (other) refl in
      let old_skipped : (if old.exit_claim_name == name
            then allocate k old.assigned_ports allocs
            else allocs)
          ≡ allocs =
        rw (old_other) refl in
      rw (e) (ap (derive name bindings) (skipped ∙ sym old_skipped))
  | inr e ↦ rw (e) (
      derive-insert name key b bindings
        (if old.exit_claim_name == name then allocate k old.assigned_ports allocs else allocs)
        (λ o h. gone o (rw e h)) n)
]

derive-delete_absent :
    (name : String) (key : TunnelKey) (bindings : List (TunnelKey × TunnelBinding))
    (allocs : List (Port × TunnelKey))
    → contains (keys bindings) key ≡ false
    → derive name (delete key bindings) allocs ≡ derive name bindings allocs
unfolding derive
derive-delete_absent name key [] allocs absent = refl
derive-delete_absent name key ((k, old) ∷ bindings) allocs absent = elim (Bool-cases (k == key)) [
  | inl e ↦ let f : true ≡ false = rw e at absent in absurd cc
  | inr e ↦ rw (e) (
      derive-delete_absent name key bindings
        (if old.exit_claim_name == name then allocate k old.assigned_ports allocs else allocs)
        (rw e at absent))
]

pub derive-delete :
    (name : String) (key : TunnelKey) (bindings : List (TunnelKey × TunnelBinding))
    (allocs : List (Port × TunnelKey))
    → Distinct (keys bindings)
    → Elsewhere name key bindings
    → derive name (delete key bindings) allocs ≡ derive name bindings allocs
unfolding derive
derive-delete name key [] allocs d gone = refl
derive-delete name key ((k, old) ∷ bindings) allocs d gone = elim (Bool-cases (k == key)) [
  | inl e ↦
      let m : old.exit_claim_name ≢ name = gone old (rw e refl) in
      let same : k ≡ key = (string_eq.same_iff k key).0 e in
      rw (e, same-of_ne old.exit_claim_name name m)
        (derive-delete_absent name key bindings allocs
          (subst (λ x. contains (keys bindings) x ≡ false) same d.0))
  | inr e ↦ rw (e) (
      derive-delete name key bindings
        (if old.exit_claim_name == name then allocate k old.assigned_ports allocs else allocs) d.1
        (λ o h. gone o (rw e h)))
]

module _ {Q : Type 0} where
  -- The allocations of the exit of this name, if it has one, are those of the bindings.
  abbrev pub IsFresh :
      List (String × StateExit Q)
      → List (String × String)
      → List (TunnelKey × TunnelBinding)
      → String
      → Type 0
  IsFresh exits names bindings name =
      (id : String) (se : StateExit Q)
      → lookup name names ≡ some id
      → lookup id exits ≡ some se
      → se.allocations ≡ derive name bindings []

  module _ {exits : List (String × StateExit Q)} {names : List (String × String)}
      {pending : List (String × ExitClaim Q)} (s : Sound exits names pending)
      (bindings : List (TunnelKey × TunnelBinding)) where
    open s use {exits_claimed}

    -- An exit written anew with its allocations recomputed, or kept, makes no exit stale.
    pub rewrite_exit-IsFresh :
        (name m id : String) (old new : StateExit Q)
        → lookup name names ≡ some id
        → lookup id exits ≡ some old
        → new.allocations ≡ derive name bindings []
        → IsFresh exits names bindings m
        → IsFresh (insert id new exits) names bindings m
    rewrite_exit-IsFresh name m id old new known found derived fresh i se h there =
        elim (insert-cases id i new se exits there) [
          | inl (at, is_new) ↦
              let (c, has, its, of_name, named) = exits_claimed id old found in
              let same : m ≡ name = names_inj s m name id (rw (sym at) h) known named in
              ap (λ (x : StateExit Q). x.allocations) (sym is_new)
              ∙ (derived ∙ ap (λ x. derive x bindings []) (sym same))
          | inr (other, there') ↦ fresh i se h there'
        ]

    -- The exit that has just been written for the name is the one found.
    pub rewritten-IsFresh :
        (name id : String) (new : StateExit Q)
        → lookup name names ≡ some id
        → new.allocations ≡ derive name bindings []
        → IsFresh (insert id new exits) names bindings name
    rewritten-IsFresh name id new known derived i se h there =
        elim (insert-cases id i new se exits there) [
          | inl (at, is_new) ↦ ap (λ (x : StateExit Q). x.allocations) (sym is_new) ∙ derived
          | inr (other, there') ↦ absurd (other cc)
        ]
