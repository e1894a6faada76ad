-- ===== src/Preflight/Report/Clean.antt =====
-- On `build_report` of scripts/akamai_state_preflight.py.
mod Tests
use iac_modules.Common.{
  All-any, All-map, ℕ, zero, suc, ◌≤◌, String, ◌≡◌, refl, sym, ap, subst, ◌∙◌, Bool, true, false,
  not, ◌&&◌, ◌||◌, Bool-cases, inl, inr, List, [], ◌∷◌, ◌++◌, All, Distinct, any, length, member,
  eqb, arith, ok, ok-injective, >>=-eq-ok, eq_iff, ◌==◌, ◌+++◌, if◌then◌else◌,
}
use iac_modules.Json.{Value, arr, at, get, find, items, is_text}
use iac_modules.Contracts.Transition.{unique}
use iac_modules.Preflight.Findings.{when_found}
use iac_modules.Preflight.Claims.{
  Claim, disagree, claims_of, target_claims, is_shared, shares, stop_where, namespace_of,
}
use iac_modules.Preflight.Mapping.{
  Candidate, Standing, is_misplaced, is_duplicate, is_mismatched, count_such,
}
use iac_modules.Preflight.Survey.{Inputs, Survey, survey}
use iac_modules.Preflight.Report.Missing.{
  append-eq-nil, when_found-eq-nil, first_missing, last_missing, not_repeated-Distinct,
}
use iac_modules.Preflight.Report.{
  repeated, is_ambiguous, ambiguous_failures, persists, misplaced_failures, stop_misplaced,
  shared_ids, shared_targets, final_items, failures_in, legacy_present, retirement_plan,
  candidate_reports, report_of, build_report,
}

-- No two of the claims on one resource are of different namespaces.
abbrev AreApart : List Claim → Type 0
AreApart claims = All (λ c. All (λ d. disagree c d ≡ false) claims) claims

-- Nothing across the namespaces stands against a migration of the legacy state.
pub record IsClean (s : Survey) : Type 0 where
  pub labels : Distinct s.labels
  pub firewall_labels : Distinct s.firewall_labels
  pub unprotected : s.protected ≡ false
  pub unambiguous : All (λ item. is_ambiguous item ≡ false) s.items
  pub ids : AreApart (claims_of s.items)
  pub none_persists : All (λ item. persists item ≡ false) s.items
  pub in_place : All (λ (t : Candidate). is_misplaced s.expectations t.resource t ≡ false) s.targets
  pub target_ids : AreApart (target_claims s.targets)
  pub no_duplicate : count_such is_duplicate s.mapped ≡ 0
  pub no_mismatch : count_such is_mismatched s.mapped ≡ 0

not_shared-AreApart :
    (claims : List Claim) → any (is_shared claims) claims ≡ false → AreApart claims
not_shared-AreApart claims h =
    All-map (λ c. is_shared claims c ≡ false) (λ c. All (λ d. disagree c d ≡ false) claims) claims
      (λ c. All-any (disagree c) claims) (All-any (is_shared claims) claims h)

ambiguous_failures-nil :
    (vs : List Value) → ambiguous_failures vs ≡ [] → All (λ v. is_ambiguous v ≡ false) vs
ambiguous_failures-nil [] h = tt
ambiguous_failures-nil (v ∷ vs) h =
    let (first, others) =
      first_missing (is_ambiguous v) ("namespace_ambiguous:" +++ namespace_of v)
        (ambiguous_failures vs) h in
    (first, ambiguous_failures-nil vs others)

module _ (expectations : List Value) where
  abbrev InPlace : Candidate → Type 0
  InPlace t = is_misplaced expectations t.resource t ≡ false

  misplaced_failures-nil :
      (ts : List Candidate) → misplaced_failures expectations ts ≡ [] → All InPlace ts
  misplaced_failures-nil [] h = tt
  misplaced_failures-nil (t ∷ ts) h =
      let (first, others) =
        first_missing (is_misplaced expectations t.resource t)
          "namespace_state_resource_in_wrong_namespace" (misplaced_failures expectations ts) h in
      (first, misplaced_failures-nil ts others)

  stop_misplaced-InPlace :
      (ts : List Candidate) (reports : List Value)
      → All InPlace ts
      → stop_misplaced expectations ts reports ≡ reports
  stop_misplaced-InPlace [] reports h = refl
  stop_misplaced-InPlace (t ∷ ts) reports (p, h) = rw p (stop_misplaced-InPlace ts reports h)

final_items-InPlace :
    (s : Survey)
    → shared_ids s ≡ false
    → All (InPlace s.expectations) s.targets
    → final_items s ≡ s.items
unfolding final_items
final_items-InPlace s apart in_place =
    rw apart (stop_misplaced-InPlace s.expectations s.targets s.items in_place)

neither : (a b : Bool) → (a || b) ≡ false → (a ≡ false) × (b ≡ false)
neither a b h = (ground arith, ground arith)

not_some : (n : ℕ) → not (eqb n 0) ≡ false → n ≡ 0
not_some n h = ground arith

failures_in-IsClean : (s : Survey) → failures_in s ≡ [] → IsClean s × (final_items s ≡ s.items)
unfolding failures_in
failures_in-IsClean s h =
    let (h1, _) = last_missing _ _ "legacy_state_archive_check_unavailable" h in
    let (h2, _) = last_missing _ _ "legacy_state_version_inventory_unavailable" h1 in
    let (h3, mismatch) = last_missing _ _ "legacy_resource_mapped_to_wrong_namespace" h2 in
    let (h4, duplicate) = last_missing _ _ "legacy_resource_maps_to_multiple_target_states" h3 in
    let (h5, targets) = last_missing _ _ "resource_id_maps_to_multiple_namespaces" h4 in
    let (h6, in_place) = append-eq-nil _ (misplaced_failures s.expectations s.targets) h5 in
    let (h7, persist) = last_missing _ _ "persistent_target_in_cleanup_scope" h6 in
    let (h8, ids) = last_missing _ _ "resource_id_maps_to_multiple_namespaces" h7 in
    let (h9, unambiguous) = append-eq-nil _ (ambiguous_failures s.items) h8 in
    let (h10, unprotected) = last_missing _ _ "protected_source_present_in_akamai_state" h9 in
    let labels = when_found-eq-nil _ "duplicate_manifest_label_across_namespaces" h10 in
    let (first, second) = neither (repeated s.labels) (repeated s.firewall_labels) labels in
    (
      record {
        labels = not_repeated-Distinct s.labels first;
        firewall_labels = not_repeated-Distinct s.firewall_labels second;
        unprotected = unprotected;
        unambiguous = ambiguous_failures-nil s.items unambiguous;
        ids = not_shared-AreApart (claims_of s.items) ids;
        none_persists = All-any persists s.items persist;
        in_place = misplaced_failures-nil s.expectations s.targets in_place;
        target_ids = not_shared-AreApart (target_claims s.targets) targets;
        no_duplicate = not_some (count_such is_duplicate s.mapped) duplicate;
        no_mismatch = not_some (count_such is_mismatched s.mapped) mismatch;
      },
      final_items-InPlace s ids (misplaced_failures-nil s.expectations s.targets in_place),
    )

complete_only_clean :
    (failures : List String)
    → ((elim failures [ [] ↦ "complete" | _ ↦ "failed" ]) == "complete") ≡ true
    → failures ≡ []
complete_only_clean [] h = refl
complete_only_clean (f ∷ fs) h = absurd (cc)

-- What the two fields of a report say of its survey.
complete-IsClean :
    (c : Inputs) (s : Survey) (candidates : List Value) (plan : Value)
    → is_text "complete" (get "status" (report_of c s candidates plan)) ≡ true
    → (get "namespaces" (report_of c s candidates plan) ≡ arr (items s.items)) × IsClean s
unfolding find
complete-IsClean c s candidates plan complete =
    let (clean, same) = failures_in-IsClean s (complete_only_clean (failures_in s) complete) in
    (ap (λ vs. arr (items vs)) same, clean)

-- A report that says "complete" is one of a survey that is clean, and it shows the namespaces as they
-- were classified: no label is declared twice, no state holds protected text, no namespace is
-- ambiguous, no two namespaces have one resource by what is live or by their states, no persistent
-- target is eligible for cleanup, no namespace's state holds a resource that is declared for another
-- namespace, and no resource of the legacy state is mapped twice or to the wrong namespace.
pub build_report-IsClean :
    (c : Inputs) {report : Value}
    → build_report c ≡ ok report
    → is_text "complete" (get "status" report) ≡ true
    → (s : Survey) × (survey c ≡ ok s) × (get "namespaces" report ≡ arr (items s.items)) × IsClean s
unfolding build_report
build_report-IsClean c h complete =
    let (s, surveyed, h1) = >>=-eq-ok (survey c) _ h in
    let (plan, _, h2) = >>=-eq-ok (retirement_plan c s) _ h1 in
    let (_, _, h3) = >>=-eq-ok (at "version_inventory_status" s.versions) _ h2 in
    let (present, _, h4) = >>=-eq-ok (legacy_present s) _ h3 in
    let (candidates, _, h5) = >>=-eq-ok (candidate_reports present c.migration_sources) _ h4 in
    let done = ok-injective h5 in
    let (shown, clean) =
      complete-IsClean c s candidates plan
        (subst (λ r. is_text "complete" (get "status" r) ≡ true) (sym done) complete) in
    (s, surveyed, subst (λ r. get "namespaces" r ≡ arr (items s.items)) done shown, clean)
