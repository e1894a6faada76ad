-- ===== src/Observations/Report.antt =====
-- The report of `reconcile_observations`, of terraform-hcl-standard/scripts/cmdb_observations_v1.py.
mod Matched
mod Counted
pub mod Document
use iac_modules.Common.{
  ℕ, ◌+◌, String, Bool, true, false, Option, none, some, List, [], ◌∷◌, ◌++◌, text_leb, ◌+++◌, Dict,
  lookup, store, sorted, Result, ok, ◌>>=◌, ◌>>◌, if◌then◌else◌,
}
use iac_modules.Json.{Value, str, get, put, at, mapping, is_text, eq, text_value}
use iac_modules.Cmdb.Words.{text_of, first_of}
use iac_modules.Cmdb.Endpoint.{Readers}
use iac_modules.Observations.Buckets.{Bucket, form_bucket, environment_bucket, count_in, declare_in}
use iac_modules.Observations.Reconcile.{Reconciled}

-- What the report says of the resources so far.
pub record Tally : Type 0 where
  pub active : ℕ
  pub observed_active : ℕ
  pub unobserved : ℕ
  pub collection_failed : ℕ
  pub deleted : ℕ
  pub matched : ℕ
  pub declared_only : ℕ
  pub observed_only : ℕ
  pub drifted : ℕ

abbrev pub no_resources : Tally
no_resources = record {
  active = 0;
  observed_active = 0;
  unobserved = 0;
  collection_failed = 0;
  deleted = 0;
  matched = 0;
  declared_only = 0;
  observed_only = 0;
  drifted = 0;
}

pub record Report : Type 0 where
  pub tally : Tally
  pub by_environment : Dict Bucket
  pub by_form : Dict Bucket
  pub diffs : List Value
  pub resources : Dict Value

-- How a resource stands to what is declared.
pub data Match : Type 0 where
  matched drifted declared_only observed_only gone : Match

abbrev name_of : Match → String
name_of matched = "matched"
name_of drifted = "drifted"
name_of declared_only = "declared_only"
name_of observed_only = "observed_only"
name_of gone = "deleted"

abbrev pub is_present : Value → Bool
is_present resource = is_text "present" (get "lifecycle" resource)

-- Whether two entries have an equal field of this name.
abbrev agree : String → Value → Value → Result Bool
agree name desired resource = do a ← at name desired; b ← at name resource; ok (eq a b)

abbrev when_agreed : Result Bool → Result Match
when_agreed same = do agreed ← same; ok (if agreed then matched else drifted)

unfoldable pub match_present : Value → Value → Result Match
unfolding eq
match_present desired resource = do
  in_place ← agree "region" desired resource
  if in_place then when_agreed (agree "runtime_form" desired resource) else ok drifted

unfoldable pub match_of : Option Value → Value → Result Match
unfolding match_present
match_of none resource = ok (if is_present resource then observed_only else gone)
match_of (some desired) resource =
    if is_present resource then match_present desired resource else ok declared_only

-- One more, if the test passes.
abbrev pub one_if : Bool → ℕ
one_if true = 1
one_if false = 0

abbrev pub has_status : String → Value → Bool
has_status status resource = is_text status (get "status" resource)

abbrev pub is_match : Match → Match → Bool
is_match matched matched = true
is_match drifted drifted = true
is_match declared_only declared_only = true
is_match observed_only observed_only = true
is_match gone gone = true
is_match _ _ = false

unfoldable pub count_resource : Match → Value → Tally → Tally
count_resource match resource t = record {
  active = t.active + one_if (is_present resource);
  observed_active = t.observed_active + one_if (has_status "active" resource);
  unobserved = t.unobserved + one_if (has_status "unobserved" resource);
  collection_failed = t.collection_failed + one_if (has_status "collection_failed" resource);
  deleted = t.deleted + one_if (has_status "deleted" resource);
  matched = t.matched + one_if (is_match matched match);
  declared_only = t.declared_only + one_if (is_match declared_only match);
  observed_only = t.observed_only + one_if (is_match observed_only match);
  drifted = t.drifted + one_if (is_match drifted match);
}

-- The declared resources, before the others are counted.
unfoldable pub count_desired : Dict Value → Report → Result Report
unfolding count_in declare_in
count_desired [] report = ok report
count_desired ((key, desired) ∷ rest) report = do
  environment ← at "environment" desired
  form ← at "runtime_form" desired
  by_form ← declare_in (text_value form) report.by_form
  count_desired rest (record report {
    by_environment =
        count_in environment_bucket (text_value environment) ("declared_count" ∷ [])
          report.by_environment;
    by_form = by_form;
  })

abbrev pub empty_report : Report
empty_report = record {
  tally = no_resources;
  by_environment = [];
  by_form = ("k3s_node", form_bucket) ∷ ("serverless", form_bucket) ∷ ("vm", form_bucket) ∷ [];
  diffs = [];
  resources = [];
}

abbrev pub by_key : String × Value → String × Value → Bool
by_key a b = text_leb a.0 b.0

module _ (r : Readers) where
  -- Why a resource stands in the differences, if it does.
  unfoldable pub detail_of : Match → Value → Option String
  detail_of matched resource =
      if has_status "collection_failed" resource
      then some (
          "retained active asset during partial/failed collection ("
          +++ (text_of r.show (get "last_collection_error" resource) +++ ")"))
      else none
  detail_of drifted resource = some "region or runtime_form drifted from desired declaration"
  detail_of declared_only resource = some (
      if has_status "deleted" resource
      then "declared resource was confirmed deleted"
      else "declared resource has not been observed")
  detail_of observed_only resource = some "observed active resource is not in desired declarations"
  detail_of gone resource =
      some "previously observed resource was confirmed deleted in complete scope run"

  abbrev environment_of : Value → String
  environment_of resource =
      text_of r.show
        (first_of (get "environment" resource ∷ get "scope" resource ∷ str "unknown" ∷ []))

  abbrev form_of : Value → String
  form_of resource = text_of r.show (first_of (get "runtime_form" resource ∷ str "vm" ∷ []))

  unfoldable pub diff_of : String → Match → Value → List Value
  unfolding detail_of
  diff_of key match resource = elim (detail_of match resource) [
    | none ↦ []
    | some detail ↦
        mapping (
          ("resource_key", str key)
          ∷ ("environment", str (environment_of resource))
          ∷ ("runtime_form", str (form_of resource))
          ∷ ("status", get "status" resource)
          ∷ ("observed_match", str (name_of match))
          ∷ ("last_observed_at", get "last_observed_at" resource)
          ∷ ("detail", str detail)
          ∷ [])
        ∷ []
  ]

  -- The counters that a status raises.
  abbrev status_counters : Value → List String
  status_counters resource =
      if has_status "unobserved" resource
      then "unobserved_count" ∷ []
      else if has_status "collection_failed" resource
      then "collection_failed_count" ∷ []
      else if has_status "deleted" resource
      then "deleted_count" ∷ []
      else []

  abbrev environment_counters : Value → List String
  environment_counters resource =
      if is_present resource
      then "active_count" ∷ (form_of resource +++ "_count") ∷ status_counters resource
      else status_counters resource

  abbrev form_counters : Value → List String
  form_counters resource =
      if is_present resource
      then "active_count" ∷ status_counters resource
      else status_counters resource

  unfoldable pub report_resource : Dict Value → String → Value → Report → Result Report
  unfolding count_in diff_of match_of count_resource
  report_resource desired key resource report = do
    status ← at "status" resource
    lifecycle ← at "lifecycle" resource
    match ← match_of (lookup key desired) resource
    ok (record {
      tally = count_resource match resource report.tally;
      by_environment =
          count_in environment_bucket (environment_of resource) (environment_counters resource)
            report.by_environment;
      by_form = count_in form_bucket (form_of resource) (form_counters resource) report.by_form;
      diffs = report.diffs ++ diff_of key match resource;
      resources = store key (put "observed_match" (str (name_of match)) resource) report.resources;
    })

  unfoldable pub report_resources : Dict Value → Dict Value → Report → Result Report
  unfolding report_resource
  report_resources desired [] report = ok report
  report_resources desired ((key, resource) ∷ rest) report = do
    next ← report_resource desired key resource report
    report_resources desired rest next

  -- The report on a state that is reconciled.
  unfoldable pub report_of : Reconciled → Result Report
  unfolding report_resources count_desired
  report_of x = do
    declared ← count_desired x.desired empty_report
    report_resources x.desired (sorted by_key x.state) declared
