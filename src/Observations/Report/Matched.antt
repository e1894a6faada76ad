-- ===== src/Observations/Report/Matched.antt =====
-- How `reconcile_observations`, of terraform-hcl-standard/scripts/cmdb_observations_v1.py, matches
-- one resource with its declaration.
use iac_modules.Common.{
  String, ◌≡◌, refl, sym, subst, Bool, true, false, not, ◌&&◌, inl, inr, Option, none, some,
  Bool-cases, Dict, lookup, ok, ok-injective, >>=-eq-ok, if◌then◌else◌,
}
use iac_modules.Json.{Value, at, get, eq}
use iac_modules.Json.Laws.{at-eq-ok}
use iac_modules.Cmdb.Endpoint.{Readers}
use iac_modules.Observations.Report.{
  Report, Match, matched, drifted, declared_only, observed_only, gone, is_present, is_match, agree,
  match_present, match_of, count_resource, report_resource,
}

abbrev pub is_declared : Option Value → Bool
is_declared none = false
is_declared (some _) = true

-- The resource is declared with the region and the form that it has.
abbrev pub agrees : Option Value → Value → Bool
agrees none resource = false
agrees (some desired) resource =
    eq (get "region" desired) (get "region" resource)
    && eq (get "runtime_form" desired) (get "runtime_form" resource)

-- A present resource is matched if it is declared as it is, drifted if it is declared otherwise, and
-- observed only if it is not declared. A declared one that is not present is declared only.
pub record IsFor (desired : Option Value) (resource : Value) (m : Match) : Type 0 where
  pub is_matched : is_match matched m ≡ (is_present resource && agrees desired resource)
  pub is_drifted :
      is_match drifted m
      ≡ (is_present resource && (is_declared desired && not (agrees desired resource)))
  pub is_declared_only :
      is_match declared_only m ≡ (is_declared desired && not (is_present resource))
  pub is_observed_only :
      is_match observed_only m ≡ (is_present resource && not (is_declared desired))

agree-eq :
    (name : String) (desired resource : Value) {b : Bool}
    → agree name desired resource ≡ ok b
    → eq (get name desired) (get name resource) ≡ b
agree-eq name desired resource h =
    let (x, at_desired, h1) = >>=-eq-ok (at name desired) _ h in
    let (y, at_resource, h2) = >>=-eq-ok (at name resource) _ h1 in
    rw (at-eq-ok name desired at_desired)
      (rw (at-eq-ok name resource at_resource) (ok-injective h2))

match_present-agrees :
    (desired resource : Value) {m : Match}
    → match_present desired resource ≡ ok m
    → m ≡ (if agrees (some desired) resource then matched else drifted)
unfolding match_present
match_present-agrees desired resource h =
    let (in_place, region, h1) = >>=-eq-ok (agree "region" desired resource) _ h in
    let same_region = agree-eq "region" desired resource region in
    elim (Bool-cases in_place) [
      | inl same ↦
          let (agreed, form, h2) =
            >>=-eq-ok (agree "runtime_form" desired resource) _ (rw same at h1) in
          let same_form = agree-eq "runtime_form" desired resource form in
          rw (same_region, same, same_form) (sym (ok-injective h2))
      | inr moved ↦ rw (same_region, moved) (sym (ok-injective (rw moved at h1)))
    ]

undeclared-IsFor :
    (resource : Value) → IsFor none resource (if is_present resource then observed_only else gone)
undeclared-IsFor resource = elim (Bool-cases (is_present resource)) [
  | inl here ↦ record {
    is_matched = rw here refl;
    is_drifted = rw here refl;
    is_declared_only = rw here refl;
    is_observed_only = rw here refl;
  }
  | inr away ↦ record {
    is_matched = rw away refl;
    is_drifted = rw away refl;
    is_declared_only = rw away refl;
    is_observed_only = rw away refl;
  }
]

present-IsFor :
    (desired resource : Value)
    → is_present resource ≡ true
    → IsFor (some desired) resource (if agrees (some desired) resource then matched else drifted)
present-IsFor desired resource here = elim (Bool-cases (agrees (some desired) resource)) [
  | inl alike ↦ record {
    is_matched = rw (here, alike) refl;
    is_drifted = rw (here, alike) refl;
    is_declared_only = rw (here, alike) refl;
    is_observed_only = rw (here, alike) refl;
  }
  | inr apart ↦ record {
    is_matched = rw (here, apart) refl;
    is_drifted = rw (here, apart) refl;
    is_declared_only = rw (here, apart) refl;
    is_observed_only = rw (here, apart) refl;
  }
]

pub match_of-IsFor :
    (desired : Option Value) (resource : Value) {m : Match}
    → match_of desired resource ≡ ok m
    → IsFor desired resource m
unfolding match_of
match_of-IsFor none resource h =
    subst (IsFor none resource) (ok-injective h) (undeclared-IsFor resource)
match_of-IsFor (some desired) resource h = elim (Bool-cases (is_present resource)) [
  | inl here ↦
      subst (IsFor (some desired) resource)
        (sym (match_present-agrees desired resource (rw here at h)))
        (present-IsFor desired resource here)
  | inr away ↦ subst (IsFor (some desired) resource) (ok-injective (rw away at h)) (record {
    is_matched = rw away refl;
    is_drifted = rw away refl;
    is_declared_only = rw away refl;
    is_observed_only = rw away refl;
  })
]

pub report_resource-IsFor :
    (r : Readers) (desired : Dict Value) (key : String) (resource : Value) (report : Report)
    {next : Report}
    → report_resource r desired key resource report ≡ ok next
    → (m : Match) × IsFor (lookup key desired) resource m
      × (next.tally ≡ count_resource m resource report.tally)
unfolding report_resource
report_resource-IsFor r desired key resource report h =
    let (_, _, h1) = >>=-eq-ok (at "status" resource) _ h in
    let (_, _, h2) = >>=-eq-ok (at "lifecycle" resource) _ h1 in
    let (m, is_m, h3) = >>=-eq-ok (match_of (lookup key desired) resource) _ h2 in
    (
      m,
      match_of-IsFor (lookup key desired) resource is_m,
      subst (λ (n : Report). n.tally ≡ count_resource m resource report.tally) (ok-injective h3)
          refl,
    )
