-- ===== src/State/Synced/Agreement.antt =====
-- What the cache and the apiserver agree on once Synced says so.
use frp_operator.Prelude.{
  String, ◌≡◌, refl, sym, ap, ◌∙◌, inl, inr, true, false, ◌||◌, List, [], ◌∷◌, arith, Option-cases,
  string_eq, ◌==◌, contains, map, All, Bool-cases, is_some, ok,
}
use frp_operator.Prelude.Maps.{lookup, insert, keys, contains-keys, lookup-insert}
use frp_operator.Prelude.Perms.{Bool-eq_of_iff}
use frp_operator.Api.{ExitClaim, ExitPool, Tunnel}
use frp_operator.State.Exit.{TunnelKey, TunnelBinding}
use frp_operator.State.Cluster.{Cluster}
use frp_operator.State.Synced.{
  provider_ids, claim_names, pool_names, cache_key, assignments, claims_cached, pools_cached,
  binds_to, tunnels_cached, all_in, names_live, bindings_live, agrees, synced,
}

contains_transport :
    (ks : List String) (x n : String)
    → (x == n) ≡ true
    → contains ks x ≡ true
    → contains ks n ≡ true
contains_transport ks x n same h =
    sym (ap (λ (k : String). contains ks k) ((string_eq.same_iff x n).0 same)) ∙ h

all_in-contains :
    (ks known : List String) (k : String)
    → all_in ks known ≡ true
    → contains ks k ≡ true
    → contains known k ≡ true
unfolding all_in
all_in-contains [] known k h found = ground arith
all_in-contains (j ∷ ks) known k h found = elim (Bool-cases (j == k)) [
  | inl same ↦ contains_transport known j k same (ground (arith, h))
  | inr other ↦ all_in-contains ks known k (ground (arith, h)) (ground (arith, found, other))
]

names_live-contains :
    (cached : List (String × String)) (names ids : List String) (k : String)
    → names_live cached names ids ≡ true
    → contains (keys cached) k ≡ true
    → contains names k ≡ true
unfolding names_live
names_live-contains [] names ids k h found = ground arith
names_live-contains ((j, id) ∷ cached) names ids k h found = elim (Bool-cases (j == k)) [
  | inl same ↦ contains_transport names j k same (ground (arith, h))
  | inr other ↦
      names_live-contains cached names ids k (ground (arith, h)) (ground (arith, found, other))
]

module _ {Q : Type 0} (c : Cluster Q) where
  pools_cached-contains :
      (pools : List (ExitPool Q)) (k : String)
      → pools_cached c pools ≡ true
      → contains (pool_names pools) k ≡ true
      → contains (keys c.pools) k ≡ true
  unfolding pools_cached
  pools_cached-contains [] k h found = ground arith
  pools_cached-contains (p ∷ pools) k h found = elim (Bool-cases (p.meta.name == k)) [
    | inl same ↦
        contains_transport (keys c.pools) p.meta.name k same
          (contains-keys p.meta.name c.pools ∙ ground (arith, h))
    | inr other ↦ pools_cached-contains pools k (ground (arith, h)) (ground (arith, found, other))
  ]

  claims_cached_names :
      (claims : List (ExitClaim Q)) (k : String)
      → claims_cached c claims ≡ true
      → contains (claim_names claims) k ≡ true
      → contains (keys c.name_to_provider_id) k ≡ true
  unfolding claims_cached
  claims_cached_names [] k h found = ground arith
  claims_cached_names (claim ∷ claims) k h found = elim (Bool-cases (claim.meta.name == k)) [
    | inl same ↦
        contains_transport (keys c.name_to_provider_id) claim.meta.name k same
          (contains-keys claim.meta.name c.name_to_provider_id ∙ ground (arith, h))
    | inr other ↦ claims_cached_names claims k (ground (arith, h)) (ground (arith, found, other))
  ]

  claims_cached_ids :
      (claims : List (ExitClaim Q)) (k : String)
      → claims_cached c claims ≡ true
      → contains (provider_ids claims) k ≡ true
      → contains (keys c.exits) k ≡ true
  unfolding claims_cached provider_ids
  claims_cached_ids [] k h found = ground arith
  claims_cached_ids (claim ∷ claims) k h found =
      elim (Bool-cases (claim.status.provider_id == "")) [
        | inl pending ↦
            claims_cached_ids claims k (ground (arith, h, pending)) (ground (arith, found, pending))
        | inr launched ↦ elim (Bool-cases (claim.status.provider_id == k)) [
          | inl same ↦
              contains_transport (keys c.exits) claim.status.provider_id k same
                (contains-keys claim.status.provider_id c.exits ∙ ground (arith, h, launched))
          | inr other ↦
              claims_cached_ids claims k (ground (arith, h, launched))
                (ground (arith, found, launched, other))
        ]
      ]

  -- The tunnels that the API has bound are bound to the same exit in the cache.
  abbrev pub Bound : List (Tunnel Q) → Type 0
  Bound tunnels =
      All
        (λ (t : Tunnel Q).
          (t.status.assigned_exit == "") ≡ false
          → binds_to (lookup (cache_key t) c.bindings) t.status.assigned_exit ≡ true)
        tunnels

  tunnels_cached-Bound : (ts : List (Tunnel Q)) → tunnels_cached c ts ≡ true → Bound ts
  unfolding tunnels_cached
  tunnels_cached-Bound [] h = tt
  tunnels_cached-Bound (t ∷ ts) h =
      (λ assigned. ground (arith, h, assigned), tunnels_cached-Bound ts (ground (arith, h)))

  assignments_known :
      (ts : List (Tunnel Q)) (seen : List (TunnelKey × String)) (key : TunnelKey)
      → is_some (lookup key (assignments ts seen))
        ≡ (contains (map cache_key ts) key || is_some (lookup key seen))
  unfolding assignments
  assignments_known [] seen key = refl
  assignments_known (t ∷ ts) seen key =
      let rest = assignments_known ts (insert (cache_key t) t.status.assigned_exit seen) key in
      let here = lookup-insert (cache_key t) key t.status.assigned_exit seen in
      elim (Bool-cases (cache_key t == key)) [
        | inl same ↦
            let found = rw same at here in let e = ap is_some found in ground (arith, rest, e, same)
        | inr other ↦
            let kept = rw other at here in let e = ap is_some kept in ground (arith, rest, e, other)
      ]

  -- The bindings in the cache are those of tunnels that the API has.
  abbrev pub Known : List String → List (TunnelKey × TunnelBinding) → Type 0
  Known known cached = All (λ (kb : TunnelKey × TunnelBinding). contains known kb.0 ≡ true) cached

  bindings_live-Known :
      (cached : List (TunnelKey × TunnelBinding)) (ts : List (Tunnel Q))
      → bindings_live cached (assignments ts []) ≡ true
      → Known (map cache_key ts) cached
  unfolding bindings_live
  bindings_live-Known [] ts h = tt
  bindings_live-Known ((key, b) ∷ cached) ts h =
      let known = assignments_known ts [] key in
      (
        elim (Option-cases (lookup key (assignments ts []))) [
          | inl missing ↦ absurd (let g = rw missing at h in ground (arith, g))
          | inr (exit_name, found) ↦ let e = ap is_some found in ground (arith, known, e)
        ],
        bindings_live-Known cached ts (ground (arith, h)),
      )

  -- What cache and API have in common where they agree.
  pub record Agreement (claims : List (ExitClaim Q)) (pools : List (ExitPool Q))
      (tunnels : List (Tunnel Q)) : Type 0 where
    pub same_pools : (n : String) → contains (keys c.pools) n ≡ contains (pool_names pools) n
    pub same_claims :
        (n : String) → contains (keys c.name_to_provider_id) n ≡ contains (claim_names claims) n
    pub same_exits : (id : String) → contains (keys c.exits) id ≡ contains (provider_ids claims) id
    pub bound : Bound tunnels
    pub known : Known (map cache_key tunnels) c.bindings

  -- Where Synced has got its three lists and answers true, the cache has exactly the pools, claims and
  -- launched exits of the API, each tunnel that the API has bound is bound to the same exit in the cache,
  -- and each binding in the cache is that of a tunnel of the API.
  pub synced-Agreement :
      (claims : List (ExitClaim Q)) (pools : List (ExitPool Q)) (tunnels : List (Tunnel Q))
      → synced c (ok claims) (ok pools) (ok tunnels) ≡ true
      → Agreement claims pools tunnels
  unfolding synced agrees
  synced-Agreement claims pools tunnels h =
      let claims_in : claims_cached c claims ≡ true = ground (arith, h) in
      let pools_in : pools_cached c pools ≡ true = ground (arith, h) in
      let tunnels_in : tunnels_cached c tunnels ≡ true = ground (arith, h) in
      let exits_out : all_in (keys c.exits) (provider_ids claims) ≡ true = ground (arith, h) in
      let names_out : names_live c.name_to_provider_id (claim_names claims) (provider_ids claims)
          ≡ true =
        ground (arith, h) in
      let pools_out : all_in (keys c.pools) (pool_names pools) ≡ true = ground (arith, h) in
      let bindings_out : bindings_live c.bindings (assignments tunnels []) ≡ true =
        ground (arith, h) in
      record {
        same_pools = λ n.
            Bool-eq_of_iff (contains (keys c.pools) n) (contains (pool_names pools) n)
              (all_in-contains (keys c.pools) (pool_names pools) n pools_out)
              (pools_cached-contains pools n pools_in);
        same_claims = λ n.
            Bool-eq_of_iff (contains (keys c.name_to_provider_id) n)
              (contains (claim_names claims) n)
              (names_live-contains c.name_to_provider_id (claim_names claims) (provider_ids claims)
                n names_out)
              (claims_cached_names claims n claims_in);
        same_exits = λ id.
            Bool-eq_of_iff (contains (keys c.exits) id) (contains (provider_ids claims) id)
              (all_in-contains (keys c.exits) (provider_ids claims) id exits_out)
              (claims_cached_ids claims id claims_in);
        bound = tunnels_cached-Bound tunnels tunnels_in;
        known = bindings_live-Known c.bindings tunnels bindings_out;
      }
