-- ===== src/Conditions/Race.antt =====
-- `PatchCondition` under concurrent writers: two controllers that read the same conditions and write
-- different types. The apiserver is a parameter.
use frp_operator.Prelude.{
  ℕ, zero, suc, ◌<◌, String, ◌≡◌, ◌≢◌, refl, ap, subst, ◌∙◌, inl, inr, Option, none, some, List, [],
  ◌∷◌, ◌++◌, arith, string_eq, ◌==◌, same-of_ne, set, length, if◌then◌else◌, Bool-cases,
  Option-cases,
}
use frp_operator.Api.{Condition}
use frp_operator.Conditions.{
  find_condition, Patch, merge, replace, append, shifted, index_of, patch_condition,
}

-- Documented behaviour of the apiserver: a merge patch writes the list that it holds, and of the JSON
-- Patch operations of RFC 6902 `replace` wants an index in range and `add` to `-` appends.
pub record JsonPatchLaws (apply : Patch → List Condition → Option (List Condition)) : Type 0 where
  pub merged : (c : Condition) (cs : List Condition) → apply (merge c) cs ≡ some (c ∷ [])
  pub replaced :
      (i : ℕ) (c : Condition) (cs : List Condition)
      → i < length cs
      → apply (replace i c) cs ≡ some (set cs i c)
  pub appended :
      (c : Condition) (cs : List Condition) → cs ≢ [] → apply (append c) cs ≡ some (cs ++ c ∷ [])

-- The server's list still has the types of the list that was read, at the same places.
abbrev Extends : List Condition → List Condition → Type 0
Extends [] server = Unit
Extends (a ∷ read) [] = ⊥
Extends (a ∷ read) (b ∷ server) = (a.type ≡ b.type) × Extends read server

Extends-refl : (s : List Condition) → Extends s s
Extends-refl [] = tt
Extends-refl (a ∷ s) = (refl, Extends-refl s)

Extends-snoc :
    (read server : List Condition) (c : Condition)
    → Extends read server
    → Extends read (server ++ c ∷ [])
Extends-snoc [] server c h = tt
Extends-snoc (a ∷ read) [] c h = absurd h
Extends-snoc (a ∷ read) (b ∷ server) c h = (h.0, Extends-snoc read server c h.1)

find-snoc :
    (t : String) (server : List Condition) (c : Condition)
    → find_condition c.type server ≡ none
    → find_condition t (server ++ c ∷ [])
      ≡ (if c.type == t then some c else find_condition t server)
find-snoc t [] c h = refl
find-snoc t (b ∷ server) c h = ground (
  arith,
  find-snoc t server c,
  string_eq.same_iff b.type c.type,
  string_eq.same_iff b.type t,
  string_eq.same_iff c.type t,
)

some-inj : (i j : ℕ) → some i ≡ some j → i ≡ j
some-inj i j e = cc

-- What the first loop of `PatchCondition` finds in the list that was read serves for the server's.
replace-Extends :
    (read server : List Condition) (c : Condition) (i : ℕ)
    → index_of c.type read ≡ some i
    → Extends read server
    → (i < length server)
      × Extends read (set server i c)
      × ((t : String)
          → find_condition t (set server i c)
            ≡ (if c.type == t then some c else find_condition t server))
replace-Extends [] server c i e h = cc
replace-Extends (a ∷ read) [] c i e h = absurd h
replace-Extends (a ∷ read) (b ∷ server) c i e h = elim (Bool-cases (a.type == c.type)) [
  | inl here ↦
      let e' : some zero ≡ some i = rw here at e in
      let zeroth : zero ≡ i = cc in
      let same : a.type ≡ c.type = (string_eq.same_iff a.type c.type).0 here in
      subst
        (λ k.
          (k < length (b ∷ server))
          × Extends (a ∷ read) (set (b ∷ server) k c)
          × ((t : String)
              → find_condition t (set (b ∷ server) k c)
                ≡ (if c.type == t then some c else find_condition t (b ∷ server))))
        zeroth
        (
          omega arith,
          (same, h.1),
          λ t. ground (arith, string_eq.same_iff b.type t, string_eq.same_iff c.type t),
        )
  | inr there ↦
      let e' : shifted (index_of c.type read) ≡ some i = rw there at e in
      elim (Option-cases (index_of c.type read)) [
        | inl lost ↦ let e'' : none ≡ some i = rw lost at e' in cc
        | inr (j, found) ↦
            let e'' : some (suc j) ≡ some i = rw found at e' in
            let (below, kept, found_again) = replace-Extends read server c j found h.1 in
            subst
              (λ k.
                (k < length (b ∷ server))
                × Extends (a ∷ read) (set (b ∷ server) k c)
                × ((t : String)
                    → find_condition t (set (b ∷ server) k c)
                      ≡ (if c.type == t then some c else find_condition t (b ∷ server))))
              (some-inj (suc j) i e'')
              (
                omega arith,
                (h.0, kept),
                λ t. ground (
                  arith,
                  found_again t,
                  h.0,
                  string_eq.same_iff a.type c.type,
                  string_eq.same_iff b.type t,
                  string_eq.same_iff c.type t,
                ),
              )
      ]
]

index-none : (t : String) (cs : List Condition) → index_of t cs ≡ none → find_condition t cs ≡ none
index-none t [] e = refl
index-none t (c ∷ cs) e = elim (Bool-cases (c.type == t)) [
  | inl here ↦ let e' : some zero ≡ none = rw here at e in cc
  | inr there ↦
      let e' : shifted (index_of t cs) ≡ none = rw there at e in
      elim (Option-cases (index_of t cs)) [
        | inl lost ↦ rw there (index-none t cs lost)
        | inr (j, found) ↦ let e'' : some (suc j) ≡ none = rw found at e' in cc
      ]
]

module _ (apply : Patch → List Condition → Option (List Condition))
    (laws : JsonPatchLaws apply) where
  -- The request made from `read` writes the condition into a later list of the server, and nothing else.
  patch_writes :
      (read server : List Condition) (c : Condition)
      → read ≢ []
      → Extends read server
      → (index_of c.type read ≡ none → find_condition c.type server ≡ none)
      → (r : List Condition) × (apply (patch_condition read c) server ≡ some r)
        × Extends read r
        × ((t : String)
            → find_condition t r ≡ (if c.type == t then some c else find_condition t server))
  unfolding patch_condition
  patch_writes [] server c nonempty h fresh = absurd (nonempty refl)
  patch_writes (a ∷ read) [] c nonempty h fresh = absurd h
  patch_writes (a ∷ read) (b ∷ server) c nonempty h fresh =
      elim (Option-cases (index_of c.type (a ∷ read))) [
        | inl lost ↦ (
          (b ∷ server) ++ c ∷ [],
          rw lost (laws.appended c (b ∷ server) (λ e. cc)),
          Extends-snoc (a ∷ read) (b ∷ server) c h,
          λ t. find-snoc t (b ∷ server) c (fresh lost),
        )
        | inr (i, found) ↦
            let (below, kept, finds) = replace-Extends (a ∷ read) (b ∷ server) c i found h in
            (set (b ∷ server) i c, rw found (laws.replaced i c (b ∷ server) below), kept, finds)
      ]

  -- The same for the list that was read, which may be empty.
  pub patch_condition_alone :
      (read : List Condition) (c : Condition)
      → (r : List Condition) × (apply (patch_condition read c) read ≡ some r)
        × ((t : String)
            → find_condition t r ≡ (if c.type == t then some c else find_condition t read))
  unfolding patch_condition
  patch_condition_alone [] c = (c ∷ [], laws.merged c [], λ t. refl)
  patch_condition_alone (a ∷ read) c =
      let (r, done, kept, finds) =
        patch_writes (a ∷ read) (a ∷ read) c (λ e. cc) (Extends-refl (a ∷ read))
          (index-none c.type (a ∷ read)) in
      (r, done, finds)

  -- Two controllers that have read the same conditions, not none, and write conditions of different types
  -- do not clobber each other: the apiserver accepts both requests, in the order of arrival, and then
  -- holds both conditions and, for every other type, what was read.
  pub patch_condition_keeps_both :
      (read : List Condition) (c d : Condition)
      → read ≢ []
      → c.type ≢ d.type
      → (r : List Condition) × (r' : List Condition) × (apply (patch_condition read c) read
          ≡ some r)
        × (apply (patch_condition read d) r ≡ some r')
        × ((t : String)
            → find_condition t r' ≡ (
                if d.type == t
                then some d
                else if c.type == t
                then some c
                else find_condition t read))
  patch_condition_keeps_both read c d nonempty apart =
      let (r, first, kept, finds) =
        patch_writes read read c nonempty (Extends-refl read) (index-none c.type read) in
      let (r', second, kept', finds') = patch_writes read r d nonempty kept (λ lost.
        finds d.type ∙ rw (same-of_ne c.type d.type apart) (index-none d.type read lost)) in
      (
        r,
        r',
        first,
        second,
        λ t. finds' t ∙ ap (λ rest. if d.type == t then some d else rest) (finds t),
      )
