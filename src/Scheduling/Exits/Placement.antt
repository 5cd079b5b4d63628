-- ===== src/Scheduling/Exits/Placement.antt =====
-- `CanAdd` and `Add` of existing_exit.go and inflight_claim.go.
use frp_operator.Prelude.{
  true, false, ◌≡◌, inl, inr, none, some, List, nat_eq, arith, contains, contains-add_all,
  Option-cases, is_some, ok, err,
}
use mathlib.Core.Path.{subst}
use frp_operator.Scheduling.Exits.{no_claim}
use frp_operator.Prelude.Maps.{keys}
use frp_operator.Api.{
  Port, Quantity, ExitClaim, Tunnel, has_true, condition_type_ready, condition_type_disrupted,
}
use frp_operator.State.Exit.{StateExit}
use frp_operator.Scheduling.Ports.{resolve_auto_assign}
use frp_operator.Scheduling.Ports.Free.{contains-compute_free, Covered}
use frp_operator.Scheduling.Ports.Assign.{resolve_auto_assign-IsAssignment}
use frp_operator.Scheduling.Requirements.{compatible}
use frp_operator.Scheduling.Resources.{resources_fit, subtract}
use frp_operator.Scheduling.Exits.{
  ExistingExit, InflightClaim, merge_port_sets, sum_tunnel_requests, can_fit, gate, can_add, bind,
  can_add_inflight, bind_inflight,
}

-- The ports that a place has in use: those allocated, and those bound in this Solve.
abbrev pub occupied : {Q : Type 0} → ExistingExit Q → List Port
occupied e = merge_port_sets (keys e.state.allocations) e.newly_used_ports

module _ {Q : Type 0} ⦃q : Quantity Q⦄ where
  -- All that has to hold for `ports` to be what an existing exit gives the tunnel.
  pub record Accepts (e : ExistingExit Q) (t : Tunnel Q) (claim : ExitClaim Q) (ports : List Port)
      : Type 0 where
    pub has_claim : e.state.claim ≡ some claim
    pub unmarked : e.state.marked_for_deletion ≡ false
    pub undeleted : is_some claim.meta.deletion_timestamp ≡ false
    pub undisrupted : has_true condition_type_disrupted claim.status.conditions ≡ false
    pub ready : has_true condition_type_ready claim.status.conditions ≡ true
    pub compatible_requirements : compatible claim.spec.requirements t.spec.requirements ≡ true
    pub room :
        resources_fit
          (subtract claim.status.allocatable (sum_tunnel_requests e.newly_bound))
          t.spec.requests
        ≡ true
    pub assigned :
        resolve_auto_assign claim.spec.frps.allow_ports claim.spec.frps.reserved_ports
          (occupied e)
          t.spec.ports
        ≡ some ports

  gate-none :
      (se : StateExit Q) (claim : ExitClaim Q)
      → gate se claim ≡ none
      → (se.marked_for_deletion ≡ false)
        × (is_some claim.meta.deletion_timestamp ≡ false)
        × (has_true condition_type_disrupted claim.status.conditions ≡ false)
        × (has_true condition_type_ready claim.status.conditions ≡ true)
  unfolding gate
  gate-none se claim e = ground arith

  can_fit-ok :
      (e : ExistingExit Q) (claim : ExitClaim Q) (t : Tunnel Q) (ports : List Port)
      → can_fit e claim t ≡ ok ports
      → (compatible claim.spec.requirements t.spec.requirements ≡ true)
        × (resources_fit
              (subtract claim.status.allocatable (sum_tunnel_requests e.newly_bound))
              t.spec.requests
            ≡ true)
        × (resolve_auto_assign claim.spec.frps.allow_ports claim.spec.frps.reserved_ports
              (occupied e)
              t.spec.ports
            ≡ some ports)
  unfolding can_fit
  can_fit-ok e claim t ports h = ground arith

  can_add-Accepts :
      (e : ExistingExit Q) (t : Tunnel Q) (ports : List Port)
      → can_add e t ≡ ok ports
      → (claim : ExitClaim Q) × Accepts e t claim ports
  unfolding can_add
  can_add-Accepts e t ports h = elim (Option-cases e.state.claim) [
    | inl missing ↦ let h' : err no_claim ≡ ok ports = rw (missing, can_add) at h in cc
    | inr (claim, present) ↦ elim (Option-cases (gate e.state claim)) [
      | inl open_gate ↦
          let fits : can_fit e claim t ≡ ok ports = rw (present, open_gate, can_add) at h in
          let (unmarked, undeleted, undisrupted, ready) = gate-none e.state claim open_gate in
          let (reqs, room, assigned) = can_fit-ok e claim t ports fits in
          (
            claim,
            record {
              has_claim = present;
              unmarked = unmarked;
              undeleted = undeleted;
              undisrupted = undisrupted;
              ready = ready;
              compatible_requirements = reqs;
              room = room;
              assigned = assigned;
            },
          )
      | inr (problem, shut) ↦
          let h' : err problem ≡ ok ports = rw (present, shut, can_add) at h in cc
    ]
  ]

  -- The ports that an existing exit gives a tunnel are allowed, not reserved, and in nobody's use: neither allocated nor bound
  -- earlier in the Solve. Once bound they are in use.
  pub can_add_ports :
      (e : ExistingExit Q) (t : Tunnel Q) (ports : List Port) (claim : ExitClaim Q) (p : Port)
      → e.state.claim ≡ some claim
      → can_add e t ≡ ok ports
      → contains ports p ≡ true
      → Covered claim.spec.frps.allow_ports p
        × (contains claim.spec.frps.reserved_ports p ≡ false)
        × (contains (keys e.state.allocations) p ≡ false)
        × (contains e.newly_used_ports p ≡ false)
        × (contains (bind t ports e).newly_used_ports p ≡ true)
  unfolding merge_port_sets bind
  can_add_ports e t ports claim p present h m =
      let (claim', a) = can_add-Accepts e t ports h in
      let same : claim' ≡ claim = cc (a.has_claim, present) in
      let frps = claim'.spec.frps in
      let free =
        (resolve_auto_assign-IsAssignment frps.allow_ports frps.reserved_ports (occupied e)
            t.spec.ports ports a.assigned).from_free
          p m in
      let (covered, unreserved, unused) =
        (contains-compute_free frps.allow_ports frps.reserved_ports (occupied e) p).0 free in
      let merged = contains-add_all e.newly_used_ports (keys e.state.allocations) p in
      (
        subst (λ (c : ExitClaim Q). Covered c.spec.frps.allow_ports p) same covered,
        subst (λ (c : ExitClaim Q). contains c.spec.frps.reserved_ports p ≡ false) same unreserved,
        ground arith,
        ground arith,
        ground (arith, contains-add_all ports e.newly_used_ports p),
      )

  -- The ports that a claim in flight gives a tunnel are allowed, not reserved, and not used by a tunnel
  -- bound to it before. Once bound they are in use.
  pub can_add_inflight_ports :
      (c : InflightClaim Q) (t : Tunnel Q) (ports : List Port) (p : Port)
      → can_add_inflight c t ≡ ok ports
      → contains ports p ≡ true
      → Covered c.spec.frps.allow_ports p
        × (contains c.spec.frps.reserved_ports p ≡ false)
        × (contains c.used_ports p ≡ false)
        × (contains (bind_inflight t ports c).used_ports p ≡ true)
  unfolding can_add_inflight bind_inflight
  can_add_inflight_ports c t ports p h m =
      let frps = c.spec.frps in
      let assigned : resolve_auto_assign frps.allow_ports frps.reserved_ports c.used_ports
            t.spec.ports
          ≡ some ports =
        ground arith in
      let free =
        (resolve_auto_assign-IsAssignment frps.allow_ports frps.reserved_ports c.used_ports
            t.spec.ports ports assigned).from_free
          p m in
      let (covered, unreserved, unused) =
        (contains-compute_free frps.allow_ports frps.reserved_ports c.used_ports p).0 free in
      (covered, unreserved, unused, ground (arith, contains-add_all ports c.used_ports p))
