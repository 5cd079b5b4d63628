-- ===== src/Prelude/Maps.antt =====
-- Go maps as association lists. A key of the map stands once, and the order of the list is that in
-- which one iteration yields the entries.
use frp_operator.Prelude.{
  Option-cases, beq_refl, All, All-map, Distinct, ◌≡◌, ◌≢◌, ◌⊎◌, inl, inr, refl, sym, Bool-cases,
  Option, none, some, List, [], ◌∷◌, arith, HasEqual, ◌==◌, contains, if◌then◌else◌, is_some, false,
  true,
}

module _ {ℓ κ} {K : Type ℓ} {V : Type κ} ⦃e : HasEqual K⦄ where
  -- `m[key]`, with `none` for the missing entry.
  abbrev pub lookup : K → List (K × V) → Option V
  lookup key ((found, v) ∷ rest) = if found == key then some v else lookup key rest
  lookup key [] = none

  -- `m[key] = new`: an entry at hand keeps its place.
  abbrev pub insert : K → V → List (K × V) → List (K × V)
  insert key new ((found, v) ∷ rest) =
      if found == key then (found, new) ∷ rest else (found, v) ∷ insert key new rest
  insert key new [] = (key, new) ∷ []

  -- `delete(m, k)`.
  abbrev pub delete : K → List (K × V) → List (K × V)
  delete k [] = []
  delete k ((j, w) ∷ m) = if j == k then delete k m else (j, w) ∷ delete k m

  abbrev pub keys : List (K × V) → List K
  keys [] = []
  keys ((k, v) ∷ m) = k ∷ keys m

  abbrev pub values : List (K × V) → List V
  values [] = []
  values ((k, v) ∷ m) = v ∷ values m

  pub lookup-insert :
      (set asked : K) (new : V) (m : List (K × V))
      → lookup asked (insert set new m) ≡ (if set == asked then some new else lookup asked m)
  lookup-insert set asked new [] = refl
  lookup-insert set asked new ((key, v) ∷ rest) = ground (
    arith,
    lookup-insert set asked new rest,
    e.same_iff set asked,
    e.same_iff key asked,
    e.same_iff key set,
  )

  pub lookup-delete :
      (k j : K) (m : List (K × V)) → lookup j (delete k m) ≡ (if k == j then none else lookup j m)
  lookup-delete k j [] = ground arith
  lookup-delete k j ((i, w) ∷ m) =
      ground (arith, e.same_iff k j, e.same_iff i k, e.same_iff i j, lookup-delete k j m)

  pub contains-keys : (k : K) (m : List (K × V)) → contains (keys m) k ≡ is_some (lookup k m)
  contains-keys k [] = refl
  contains-keys k ((i, w) ∷ m) = ground (arith, contains-keys k m)

  pub lookup-insert_self : (k : K) (v : V) (m : List (K × V)) → lookup k (insert k v m) ≡ some v
  lookup-insert_self k v m = ground (arith, lookup-insert k k v m, e.same_iff k k)

  pub lookup-insert_other :
      (set asked : K) (new : V) (m : List (K × V))
      → asked ≢ set
      → lookup asked (insert set new m) ≡ lookup asked m
  lookup-insert_other set asked new m n =
      ground (arith, lookup-insert set asked new m, e.same_iff set asked)

  -- What an insertion lets a lookup find.
  pub insert-cases :
      (set asked : K) (new v : V) (m : List (K × V))
      → lookup asked (insert set new m) ≡ some v
      → ((asked ≡ set) × (new ≡ v)) ⊎ ((asked ≢ set) × (lookup asked m ≡ some v))
  insert-cases set asked new v m found = elim (Bool-cases (set == asked)) [
    | inl same ↦
        let found' : some new ≡ some v = rw (lookup-insert set asked new m, same) at found in
        inl (sym ((e.same_iff set asked).0 same), cc)
    | inr other ↦
        let found' : lookup asked m ≡ some v = rw (lookup-insert set asked new m, other) at found in
        inr (λ h. ground (arith, e.same_iff set asked, h), found')
  ]

  pub lookup-delete_other :
      (k j : K) (m : List (K × V)) → j ≢ k → lookup j (delete k m) ≡ lookup j m
  lookup-delete_other k j m n = ground (arith, lookup-delete k j m, e.same_iff k j)

  -- What a deletion lets a lookup find.
  pub delete-cases :
      (k j : K) (v : V) (m : List (K × V))
      → lookup j (delete k m) ≡ some v
      → (j ≢ k) × (lookup j m ≡ some v)
  delete-cases k j v m found = elim (Bool-cases (k == j)) [
    | inl same ↦ let found' : none ≡ some v = rw (lookup-delete k j m, same) at found in absurd cc
    | inr other ↦
        let found' : lookup j m ≡ some v = rw (lookup-delete k j m, other) at found in
        (λ h. ground (arith, e.same_iff k j, h), found')
  ]

  pub insert-Distinct :
      (k : K) (v : V) (m : List (K × V)) → Distinct (keys m) → Distinct (keys (insert k v m))
  insert-Distinct k v [] d = (refl, tt)
  insert-Distinct k v ((j, w) ∷ m) d = ground (
    arith,
    insert-Distinct k v m d.1,
    contains-keys j (insert k v m),
    contains-keys j m,
    lookup-insert k j v m,
    e.same_iff k j,
    e.same_iff j k,
  )

  pub delete-Distinct :
      (k : K) (m : List (K × V)) → Distinct (keys m) → Distinct (keys (delete k m))
  delete-Distinct k [] d = tt
  delete-Distinct k ((j, w) ∷ m) d = ground (
    arith,
    delete-Distinct k m d.1,
    contains-keys j (delete k m),
    contains-keys j m,
    lookup-delete k j m,
  )

  pub lookup_absent : (k : K) (m : List (K × V)) → contains (keys m) k ≡ false → lookup k m ≡ none
  lookup_absent k m h = elim (Option-cases (lookup k m)) [
    | inl e ↦ e
    | inr (v, e) ↦ let found : true ≡ false = rw (contains-keys k m, e) at h in absurd cc
  ]

  -- What stands in a map is what a lookup finds.
  pub lookup_entries :
      (m : List (K × V)) → Distinct (keys m) → All (λ (kv : K × V). lookup kv.0 m ≡ some kv.1) m
  lookup_entries [] d = tt
  lookup_entries ((k, v) ∷ m) d = (
    rw (beq_refl k) refl,
    All-map m
        (λ kv found. elim (Bool-cases (k == kv.0)) [
          | inl same ↦
              let at : k ≡ kv.0 = (e.same_iff k kv.0).0 same in
              let gone : lookup kv.0 m ≡ none = rw (sym at) (lookup_absent k m d.0) in absurd cc
          | inr other ↦ rw other found
        ])
        (lookup_entries m d.1),
  )
