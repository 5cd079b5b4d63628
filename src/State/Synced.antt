-- ===== src/State/Synced.antt =====
-- pkg/controllers/state/synced.go. The answers of the three List calls are arguments.
pub mod Agreement
mod Tests
use frp_operator.Prelude.{
  String, ◌≡◌, refl, sym, ap, ◌∙◌, inl, inr, Bool, true, false, ◌&&◌, ◌||◌, not, Option, none, some,
  List, [], ◌∷◌, arith, string_eq, ◌==◌, contains, map, Bool-cases, is_some, Result, ok, err, Bool,
  if◌then◌else◌,
}
use frp_operator.Prelude.Maps.{lookup, insert, keys}
use frp_operator.Prelude.Perms.{Bool-eq_of_iff}
use frp_operator.Kube.{ApiError}
use frp_operator.Api.{ExitClaim, ExitPool, Tunnel}
use frp_operator.State.Exit.{TunnelKey, TunnelBinding, StateExit, StatePool}
use frp_operator.State.Cluster.{Cluster}
use frp_operator.Scheduling.Exits.{concat}

abbrev pub binds_to : Option TunnelBinding → String → Bool
binds_to none exit_name = false
binds_to (some b) exit_name = b.exit_claim_name == exit_name

-- A loop over the keys of a cache: all of them are in the API.
pub all_in : List String → List String → Bool
all_in [] known = true
all_in (k ∷ ks) known = let rest = all_in ks known in if not (contains known k) then false else rest

-- The loop over the names in the cache.
pub names_live : List (String × String) → List String → List String → Bool
names_live [] names ids = true
names_live ((name, id) ∷ cached) names ids =
    let rest = names_live cached names ids in
    if not (contains names name)
    then false
    else if not (id == "") && not (contains ids id)
    then false
    else rest

abbrev pub is_assigned : Option String → String → Bool
is_assigned none exit_name = false
is_assigned (some assigned) exit_name = exit_name == assigned

-- The loop over the bindings in the cache.
pub bindings_live : List (TunnelKey × TunnelBinding) → List (TunnelKey × String) → Bool
bindings_live [] assigned = true
bindings_live ((key, b) ∷ cached) assigned =
    let rest = bindings_live cached assigned in
    if not (is_assigned (lookup key assigned) b.exit_claim_name) then false else rest

module _ {Q : Type 0} where
  -- The provider ids that the API has.
  pub provider_ids : List (ExitClaim Q) → List String
  provider_ids [] = []
  provider_ids (c ∷ cs) =
      let rest = provider_ids cs in
      if c.status.provider_id == "" then rest else c.status.provider_id ∷ rest

  abbrev pub claim_names : List (ExitClaim Q) → List String
  claim_names cs = map (λ c. c.meta.name) cs

  abbrev pub pool_names : List (ExitPool Q) → List String
  pool_names ps = map (λ p. p.meta.name) ps

  -- The key of a tunnel in the cache.
  abbrev pub cache_key : Tunnel Q → TunnelKey
  cache_key t = concat t.meta.namespace (concat "/" t.meta.name)

  -- apiTunnelKeys.
  pub assignments : List (Tunnel Q) → List (TunnelKey × String) → List (TunnelKey × String)
  assignments [] seen = seen
  assignments (t ∷ ts) seen = assignments ts (insert (cache_key t) t.status.assigned_exit seen)

  -- The loop over the claims.
  pub claims_cached : Cluster Q → List (ExitClaim Q) → Bool
  claims_cached c [] = true
  claims_cached c (claim ∷ claims) =
      let rest = claims_cached c claims in
      if not (is_some (lookup claim.meta.name c.name_to_provider_id))
      then false
      else if claim.status.provider_id == ""
      then rest
      else if not (is_some (lookup claim.status.provider_id c.exits))
      then false
      else rest

  -- The loop over the pools.
  pub pools_cached : Cluster Q → List (ExitPool Q) → Bool
  pools_cached c [] = true
  pools_cached c (pool ∷ pools) =
      let rest = pools_cached c pools in
      if not (is_some (lookup pool.meta.name c.pools)) then false else rest

  -- The loop over the tunnels.
  pub tunnels_cached : Cluster Q → List (Tunnel Q) → Bool
  tunnels_cached c [] = true
  tunnels_cached c (t ∷ ts) =
      let rest = tunnels_cached c ts in
      if t.status.assigned_exit == ""
      then rest
      else if not (binds_to (lookup (cache_key t) c.bindings) t.status.assigned_exit)
      then false
      else rest

  -- `Synced` behind its three calls.
  pub agrees : Cluster Q → List (ExitClaim Q) → List (ExitPool Q) → List (Tunnel Q) → Bool
  agrees c claims pools tunnels =
      claims_cached c claims
      && pools_cached c pools
      && tunnels_cached c tunnels
      && all_in (keys c.exits) (provider_ids claims)
      && names_live c.name_to_provider_id (claim_names claims) (provider_ids claims)
      && all_in (keys c.pools) (pool_names pools)
      && bindings_live c.bindings (assignments tunnels [])

  -- `Synced`.
  pub synced :
      Cluster Q
      → Result ApiError (List (ExitClaim Q))
      → Result ApiError (List (ExitPool Q))
      → Result ApiError (List (Tunnel Q))
      → Bool
  synced c (ok claims) (ok pools) (ok tunnels) = agrees c claims pools tunnels
  synced c _ _ _ = false
