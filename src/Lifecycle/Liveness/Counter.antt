-- ===== src/Lifecycle/Liveness/Counter.antt =====
-- The count of failed probes.
use frp_operator.Prelude.{
  ℕ, ◌+◌, ◌%◌, ◌<◌, ◌^◌, String, ◌≡◌, ◌≢◌, refl, sym, ap, ◌∙◌, inl, inr, true, false, Option, some,
  List, arith, is_some, string_eq, ◌==◌, ltb, Bool-cases, Option-cases, Result-cases,
}
use frp_operator.Prelude.Int.{ℤ, pos, ltb_ℤ}
use frp_operator.Prelude.Maps.{lookup, lookup-insert}
use frp_operator.Text.{codes, atoi}
use frp_operator.Text.Decimal.{itoa, atoi-itoa}
use frp_operator.Api.{ExitClaim, Condition}
use frp_operator.Disruption.Budgets.{wrap_int}
use frp_operator.Disruption.Methods.{text_at}
use frp_operator.Disruption.Methods.Replacement.{or_blank}
use frp_operator.Lifecycle.Phases.{Apimeta, admin_port_of}
use frp_operator.Lifecycle.Liveness.{
  Outside, Settings, annotation_liveness_failures, count_of_text, text_of_int, read_failure_count,
  next_count, counted, uncounted, record_failure, record_success, probe, threshold,
}

wrap_int_small : (n : ℕ) → n < 2 ^ 63 → wrap_int n ≡ pos n
unfolding wrap_int
wrap_int_small n h =
    let same : n % 18446744073709551616 ≡ n = omega (arith, h) in
    let short : ltb n 9223372036854775808 ≡ true = ground (arith, h) in rw (same, short) refl

atoi_none : {n : ℕ} → atoi (codes "") ≢ some (pos n)
unfolding atoi
atoi_none e = cc

itoa_given : (n : ℕ) → n < 2 ^ 63 → (itoa n == "") ≡ false
itoa_given n h = elim (Bool-cases (itoa n == "")) [
  | inr given ↦ given
  | inl blank ↦
      let none_there =
        sym (ap (λ (s : String). atoi (codes s)) ((string_eq.same_iff (itoa n) "").0 blank))
        ∙ atoi-itoa n h in
      absurd (atoi_none none_there)
]

module _ {Q : Type 0} where
  text_at-counted :
      (count : ℤ) (n : ℕ) (claim : ExitClaim Q)
      → count ≡ pos n
      → text_at annotation_liveness_failures (counted count claim).meta.annotations ≡ itoa n
  unfolding counted
  text_at-counted count n claim e =
      ap or_blank (
        lookup-insert annotation_liveness_failures annotation_liveness_failures (text_of_int count)
          claim.meta.annotations)
      ∙ ap text_of_int e

  -- The count that a failed probe writes is what the next one reads: one more, as long as it fits in an
  -- `int`.
  pub read_failure_count-counted :
      (claim : ExitClaim Q)
      → read_failure_count claim + 1 < 2 ^ 63
      → read_failure_count (counted (next_count claim) claim) ≡ read_failure_count claim + 1
  unfolding read_failure_count next_count wrap_int
  read_failure_count-counted claim fits =
      let n = read_failure_count claim + 1 in
      let written = text_at-counted (next_count claim) n claim (wrap_int_small n fits) in
      rw (written, itoa_given n fits) (ap count_of_text (atoi-itoa n fits))

-- `P` outlasts the probes and the patches of annotations, so every call but the patch of a status and the
-- deletion of the claim.
pub record OutlastsProbes {Q W : Type 0} (out : Outside Q W) (P : W → Type 0) : Type 0 where
  pub info : (host : String) (port : ℕ) (w : W) → P w → P (out.get_server_info host port w).1
  pub patch : (claim : ExitClaim Q) (w : W) → P w → P (out.patch_claim claim w).1

module _ {Q W : Type 0} (m : Apimeta) (find : List Condition → String → Option Condition)
    (settings : Settings) (out : Outside Q W) (P : W → Type 0) (o : OutlastsProbes out P) where
  record_failure_tolerates :
      (claim : ExitClaim Q) (problem : String) (w : W)
      → ltb_ℤ (next_count claim) (pos (threshold m find settings out)) ≡ true
      → P w
      → P (record_failure m find settings out claim problem w).1
  unfolding record_failure
  record_failure_tolerates claim problem w few p =
      let written = counted (next_count claim) claim in
      let p1 = o.patch written w p in
      elim (Option-cases (out.patch_claim written w).0) [
        | inr (e, lost) ↦ rw (record_failure, lost) p1
        | inl fine ↦ rw (record_failure, fine, few) p1
      ]

  record_success_keeps :
      (claim : ExitClaim Q) (w : W) → P w → P (record_success m find settings out claim w).1
  unfolding record_success
  record_success_keeps claim w p =
      let p1 = o.patch (uncounted claim) w p in
      elim (Bool-cases (is_some (lookup annotation_liveness_failures claim.meta.annotations))) [
        | inr absent ↦ rw (record_success, absent) p
        | inl there ↦ elim (Option-cases (out.patch_claim (uncounted claim) w).0) [
          | inr (e, lost) ↦ rw (record_success, there, lost) p1
          | inl fine ↦ rw (record_success, there, fine) p1
        ]
      ]

  -- A probe of a Ready claim changes no condition and deletes nothing while the failures in a row, this one
  -- included, stay below the threshold.
  pub probe_tolerates :
      (claim : ExitClaim Q) (w : W)
      → ltb_ℤ (next_count claim) (pos (threshold m find settings out)) ≡ true
      → P w
      → P (probe m find settings out claim w).1
  unfolding probe
  probe_tolerates claim w few p =
      let port = admin_port_of claim.spec.frps.admin_port in
      let w1 = (out.get_server_info claim.status.public_ip port w).1 in
      let p1 = o.info claim.status.public_ip port w p in
      elim (Bool-cases (claim.status.public_ip == "")) [
        | inl nowhere ↦ rw (probe, nowhere) p
        | inr somewhere ↦
            elim (Result-cases (out.get_server_info claim.status.public_ip port w).0) [
              | inl (version, reached) ↦
                  rw (probe, somewhere, reached) (record_success_keeps claim w1 p1)
              | inr (problem, failed) ↦
                  rw (probe, somewhere, failed) (record_failure_tolerates claim problem w1 few p1)
            ]
      ]
