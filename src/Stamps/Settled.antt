-- ===== src/Stamps/Settled.antt =====
-- What the hash controller of a pool makes of the claims of the pool, and with it of their drift.
use frp_operator.Prelude.{
  String, ◌≡◌, refl, sym, ap, inl, inr, Bool, true, Option, none, some, List, [], ◌∷◌, All,
  string_eq, nat_eq, ◌==◌, Bool-cases, Option-cases, subst, ◌∙◌, All-map,
}
use frp_operator.Prelude.Maps.{lookup-insert_self}
use frp_operator.Kube.{ApiError}
use frp_operator.Api.{ObjectMeta}
use frp_operator.Disruption.Methods.{text_at}
use frp_operator.Stamps.{with_stamp, is_skipped, leave_alone, stamp_each}

-- The loops go on after this answer.
abbrev pub goes_on : Option ApiError → Bool
goes_on none = true
goes_on (some e) = is_skipped e

pub text_at-with_stamp :
    (key hash : String) (m : ObjectMeta) → text_at key (with_stamp key hash m).annotations ≡ hash
text_at-with_stamp key hash m = rw (text_at, lookup-insert_self key hash m.annotations) refl

module _ {A W : Type 0} (meta : A → ObjectMeta) (with_meta : A → ObjectMeta → A)
    (patch : A → W → Option ApiError × W) (mine : A → Bool) (key hash : String)
    (P : String → W → Type 0) where
  -- Objects with the hash: a patch with one that is answered so that the loop goes on makes `P` true of
  -- its name, and no patch with one ends `P` for any name.
  pub record Settling : Type 0 where
    pub reads_back : (a : A) (m : ObjectMeta) → meta (with_meta a m) ≡ m
    pub tried :
        (a : A) (w : W)
        → text_at key (meta a).annotations ≡ hash
        → goes_on (patch a w).0 ≡ true
        → P (meta a).name (patch a w).1
    pub kept :
        (name : String) (a : A) (w : W)
        → text_at key (meta a).annotations ≡ hash
        → P name w
        → P name (patch a w).1

  -- The object is due for the stamp.
  abbrev pub Due : A → Type 0
  Due a = ((meta a).deletion_timestamp ≡ none) × (mine a ≡ true)

  -- Of an object that has the hash, `P` is true already.
  abbrev pub Known : W → A → Type 0
  Known w a = text_at key (meta a).annotations ≡ hash → P (meta a).name w

  module _ (s : Settling) where
    abbrev new : A → A
    new a = with_meta a (with_stamp key hash (meta a))

    new_has : (a : A) → text_at key (meta (new a)).annotations ≡ hash
    new_has a =
        rw (s.reads_back a (with_stamp key hash (meta a))) (text_at-with_stamp key hash (meta a))

    stamp_each_keeps :
        (as' : List A) (name : String) (w : W)
        → P name w
        → P name (stamp_each meta with_meta patch mine key hash as' w).1
    unfolding stamp_each
    stamp_each_keeps [] name w p = p
    stamp_each_keeps (a ∷ as') name w p =
        elim (Bool-cases (leave_alone meta with_meta patch mine key hash a)) [
          | inl e ↦ rw (stamp_each, e) (stamp_each_keeps as' name w p)
          | inr e ↦
              let p1 = s.kept name (new a) w (new_has a) p in
              elim (Option-cases (patch (new a) w).0) [
                | inl f ↦ rw (stamp_each, e, f) (stamp_each_keeps as' name (patch (new a) w).1 p1)
                | inr (problem, f) ↦ elim (Bool-cases (is_skipped problem)) [
                  | inl g ↦
                      rw (stamp_each, e, f, g) (stamp_each_keeps as' name (patch (new a) w).1 p1)
                  | inr g ↦ rw (stamp_each, e, f, g) p1
                ]
              ]
        ]

    -- A due object that the loop leaves alone has the hash.
    left_alone_has :
        (a : A)
        → Due a
        → leave_alone meta with_meta patch mine key hash a ≡ true
        → text_at key (meta a).annotations ≡ hash
    unfolding leave_alone
    left_alone_has a (live, its) e =
        let same : (text_at key (meta a).annotations == hash) ≡ true =
          rw (leave_alone, live, its) at e in
        (string_eq.same_iff (text_at key (meta a).annotations) hash).0 same

    abbrev run : List A → W → Option ApiError × W
    run as' w = stamp_each meta with_meta patch mine key hash as' w

    abbrev Stamped : List A → Option ApiError × W → Type 0
    Stamped as' r = All (λ a. Due a → P (meta a).name r.1) as'

    -- The loop ends as the rest of it does, which has begun where `P` is true of the first object.
    first_settles :
        (a : A) (as' : List A) (w w1 : W)
        → run (a ∷ as') w ≡ run as' w1
        → (run (a ∷ as') w).0 ≡ none
        → (Due a → P (meta a).name w1)
        → ((run as' w1).0 ≡ none → Stamped as' (run as' w1))
        → Stamped (a ∷ as') (run (a ∷ as') w)
    first_settles a as' w w1 same h first rest = subst (Stamped (a ∷ as')) (sym same) (
      λ due. stamp_each_keeps as' (meta a).name w1 (first due),
      rest (ap (λ (r : Option ApiError × W). r.0) (sym same) ∙ h),
    )

    -- After a loop without an error `P` is true of every due object.
    pub stamp_each_settles :
        (as' : List A) (w : W)
        → (stamp_each meta with_meta patch mine key hash as' w).0 ≡ none
        → All (Known w) as'
        → All
            (λ a. Due a → P (meta a).name (stamp_each meta with_meta patch mine key hash as' w).1)
            as'
    unfolding stamp_each
    stamp_each_settles [] w h known = tt
    stamp_each_settles (a ∷ as') w h known =
        elim (Bool-cases (leave_alone meta with_meta patch mine key hash a)) [
          | inl e ↦
              first_settles a as' w w (rw (stamp_each, e) refl) h
                (λ due. known.0 (left_alone_has a due e))
                (λ h'. stamp_each_settles as' w h' known.1)
          | inr e ↦
              let w1 : W = (patch (new a) w).1 in
              let later : All (Known w1) as' =
                All-map as' (λ b k has. s.kept (meta b).name (new a) w (new_has a) (k has))
                  known.1 in
              let here : goes_on (patch (new a) w).0 ≡ true → P (meta a).name w1 = (λ goes.
                subst (λ (m : ObjectMeta). P m.name w1)
                  (s.reads_back a (with_stamp key hash (meta a)))
                  (s.tried (new a) w (new_has a) goes)) in
              elim (Option-cases (patch (new a) w).0) [
                | inl f ↦
                    first_settles a as' w w1 (rw (stamp_each, e, f) refl) h
                      (λ due. here (rw f refl)) (λ h'. stamp_each_settles as' w1 h' later)
                | inr (problem, f) ↦ elim (Bool-cases (is_skipped problem)) [
                  | inl g ↦
                      first_settles a as' w w1 (rw (stamp_each, e, f, g) refl) h
                        (λ due. here (rw f g)) (λ h'. stamp_each_settles as' w1 h' later)
                  | inr g ↦
                      let h' : some problem ≡ none = rw (stamp_each, e, f, g) at h in absurd cc
                ]
              ]
        ]
