-- ===== src/Observations/Report/Counted.antt =====
-- On the counts of the summary that `reconcile_observations`, of
-- terraform-hcl-standard/scripts/cmdb_observations_v1.py, makes.
use iac_modules.Common.{
  ℕ, ◌+◌, String, ◌≡◌, refl, ap, subst, ◌∙◌, Bool, not, ◌&&◌, inl, inr, [], ◌∷◌, arith, Bool-cases,
  Dict, lookup, insert, sorted, ok, ok-injective, >>=-eq-ok,
}
use iac_modules.Json.{Value, at, text_value}
use iac_modules.Cmdb.Endpoint.{Readers}
use iac_modules.Observations.Buckets.{declare_in}
use iac_modules.Observations.Reconcile.{Reconciled}
use iac_modules.Observations.Report.{
  Tally, Report, Match, no_resources, is_present, has_status, one_if, count_resource,
  report_resource, report_resources, count_desired, empty_report, by_key, report_of,
}
use iac_modules.Observations.Report.Matched.{is_declared, agrees, IsFor, report_resource-IsFor}

-- The number of entries that pass a test.
abbrev pub count : (String × Value → Bool) → Dict Value → ℕ
count test [] = 0
count test (entry ∷ d) = one_if (test entry) + count test d

count-insert :
    (test : String × Value → Bool) (entry : String × Value) (d : Dict Value)
    → count test (insert by_key entry d) ≡ one_if (test entry) + count test d
count-insert test entry [] = refl
count-insert test entry (first ∷ d) = elim (Bool-cases (by_key entry first)) [
  | inl before ↦ rw before
  | inr after ↦ let rest = count-insert test entry d in grind arith
]

count-sorted :
    (test : String × Value → Bool) (d : Dict Value) → count test (sorted by_key d) ≡ count test d
count-sorted test [] = refl
count-sorted test (entry ∷ d) =
    count-insert test entry (sorted by_key d)
    ∙ ap (λ n. one_if (test entry) + n) (count-sorted test d)

abbrev pub present : String × Value → Bool
present entry = is_present entry.1

abbrev status_is : String → String × Value → Bool
status_is status entry = has_status status entry.1

-- Present, and declared with the region and the form that it has.
abbrev pub as_declared : Dict Value → String × Value → Bool
as_declared desired entry = is_present entry.1 && agrees (lookup entry.0 desired) entry.1

-- Present, and declared with another region or form.
abbrev pub not_as_declared : Dict Value → String × Value → Bool
not_as_declared desired entry =
    let declared = lookup entry.0 desired in
    is_present entry.1 && (is_declared declared && not (agrees declared entry.1))

abbrev pub absent : Dict Value → String × Value → Bool
absent desired entry = is_declared (lookup entry.0 desired) && not (is_present entry.1)

abbrev pub undeclared : Dict Value → String × Value → Bool
undeclared desired entry = is_present entry.1 && not (is_declared (lookup entry.0 desired))

-- What a tally has more than another after the resources of a state.
record Adds (desired state : Dict Value) (t u : Tally) : Type 0 where
  pub active : u.active ≡ t.active + count present state
  pub observed_active : u.observed_active ≡ t.observed_active + count (status_is "active") state
  pub unobserved : u.unobserved ≡ t.unobserved + count (status_is "unobserved") state
  pub collection_failed :
      u.collection_failed ≡ t.collection_failed + count (status_is "collection_failed") state
  pub deleted : u.deleted ≡ t.deleted + count (status_is "deleted") state
  pub matched : u.matched ≡ t.matched + count (as_declared desired) state
  pub drifted : u.drifted ≡ t.drifted + count (not_as_declared desired) state
  pub declared_only : u.declared_only ≡ t.declared_only + count (absent desired) state
  pub observed_only : u.observed_only ≡ t.observed_only + count (undeclared desired) state

Adds-none : (desired : Dict Value) (t : Tally) → Adds desired [] t t
Adds-none desired t = record {
  active = omega arith;
  observed_active = omega arith;
  unobserved = omega arith;
  collection_failed = omega arith;
  deleted = omega arith;
  matched = omega arith;
  drifted = omega arith;
  declared_only = omega arith;
  observed_only = omega arith;
}

-- One resource more.
Adds-more :
    (desired : Dict Value) (key : String) (resource : Value) (rest : Dict Value) (m : Match)
    (t : Tally) {u : Tally}
    → IsFor (lookup key desired) resource m
    → Adds desired rest (count_resource m resource t) u
    → Adds desired ((key, resource) ∷ rest) t u
unfolding count_resource
Adds-more desired key resource rest m t is_for adds =
    let active = adds.active in
    let observed_active = adds.observed_active in
    let unobserved = adds.unobserved in
    let collection_failed = adds.collection_failed in
    let deleted = adds.deleted in
    let one_matched = ap one_if is_for.is_matched in
    let matched = adds.matched in
    let one_drifted = ap one_if is_for.is_drifted in
    let drifted = adds.drifted in
    let one_absent = ap one_if is_for.is_declared_only in
    let declared_only = adds.declared_only in
    let one_undeclared = ap one_if is_for.is_observed_only in
    let observed_only = adds.observed_only in
    record {
      active = omega arith;
      observed_active = omega arith;
      unobserved = omega arith;
      collection_failed = omega arith;
      deleted = omega arith;
      matched = omega arith;
      drifted = omega arith;
      declared_only = omega arith;
      observed_only = omega arith;
    }

report_resources-Adds :
    (r : Readers) (desired state : Dict Value) (report : Report) {end : Report}
    → report_resources r desired state report ≡ ok end
    → Adds desired state report.tally end.tally
unfolding report_resources
report_resources-Adds r desired [] report h =
    subst (λ (end : Report). Adds desired [] report.tally end.tally) (ok-injective h)
      (Adds-none desired report.tally)
report_resources-Adds r desired ((key, resource) ∷ rest) report {end} h =
    let (next, first, h1) = >>=-eq-ok (report_resource r desired key resource report) _ h in
    let (m, is_for, tally) = report_resource-IsFor r desired key resource report first in
    Adds-more desired key resource rest m report.tally is_for (
      subst (λ (t : Tally). Adds desired rest t end.tally) tally
        (report_resources-Adds r desired rest next h1))

count_desired-tally :
    (desired : Dict Value) (report : Report) {next : Report}
    → count_desired desired report ≡ ok next
    → next.tally ≡ report.tally
unfolding count_desired
count_desired-tally [] report h =
    subst (λ (n : Report). n.tally ≡ report.tally) (ok-injective h) refl
count_desired-tally ((key, entry) ∷ rest) report h =
    let (environment, _, h1) = >>=-eq-ok (at "environment" entry) _ h in
    let (form, _, h2) = >>=-eq-ok (at "runtime_form" entry) _ h1 in
    let (by_form, _, h3) = >>=-eq-ok (declare_in (text_value form) report.by_form) _ h2 in
    count_desired-tally rest _ h3

-- The summary of a state: each count is that of the resources it is about, whatever the
-- order they are taken in.
pub record Summarizes (desired state : Dict Value) (t : Tally) : Type 0 where
  pub active : t.active ≡ count present state
  pub observed_active : t.observed_active ≡ count (status_is "active") state
  pub unobserved : t.unobserved ≡ count (status_is "unobserved") state
  pub collection_failed : t.collection_failed ≡ count (status_is "collection_failed") state
  pub deleted : t.deleted ≡ count (status_is "deleted") state
  pub matched : t.matched ≡ count (as_declared desired) state
  pub drifted : t.drifted ≡ count (not_as_declared desired) state
  pub declared_only : t.declared_only ≡ count (absent desired) state
  pub observed_only : t.observed_only ≡ count (undeclared desired) state

-- From nothing, and in the state's own order.
counted-sorted :
    (test : String × Value → Bool) (state : Dict Value) {n : ℕ}
    → n ≡ 0 + count test (sorted by_key state)
    → n ≡ count test state
counted-sorted test state h = let same = count-sorted test state in omega arith

Adds-Summarizes :
    (desired state : Dict Value) {t : Tally}
    → Adds desired (sorted by_key state) no_resources t
    → Summarizes desired state t
Adds-Summarizes desired state adds = record {
  active = counted-sorted present state adds.active;
  observed_active = counted-sorted (status_is "active") state adds.observed_active;
  unobserved = counted-sorted (status_is "unobserved") state adds.unobserved;
  collection_failed = counted-sorted (status_is "collection_failed") state adds.collection_failed;
  deleted = counted-sorted (status_is "deleted") state adds.deleted;
  matched = counted-sorted (as_declared desired) state adds.matched;
  drifted = counted-sorted (not_as_declared desired) state adds.drifted;
  declared_only = counted-sorted (absent desired) state adds.declared_only;
  observed_only = counted-sorted (undeclared desired) state adds.observed_only;
}

pub report_of-Summarizes :
    (r : Readers) (x : Reconciled) {report : Report}
    → report_of r x ≡ ok report
    → Summarizes x.desired x.state report.tally
unfolding report_of
report_of-Summarizes r x {report} h =
    let (start, declared_all, h1) = >>=-eq-ok (count_desired x.desired empty_report) _ h in
    Adds-Summarizes x.desired x.state (
      subst (λ (t : Tally). Adds x.desired (sorted by_key x.state) t report.tally)
        (count_desired-tally x.desired empty_report declared_all)
        (report_resources-Adds r x.desired (sorted by_key x.state) start h1))
