-- ===== src/Observations/Report/Document/Summary.antt =====
-- On the document of `reconcile_observations`, of
-- terraform-hcl-standard/scripts/cmdb_observations_v1.py.
use iac_modules.Common.{
  String, ◌≡◌, refl, subst, List, [], ◌∷◌, length, ok, ok-injective, >>=-eq-ok,
}
use iac_modules.Json.{Value, str, get, find}
use iac_modules.Cmdb.Words.{strip, text_of, first_of}
use iac_modules.Cmdb.Endpoint.{Readers}
use iac_modules.Observations.Checks.{timestamp}
use iac_modules.Observations.Reconcile.{Reconciled, reconcile_state}
use iac_modules.Observations.Report.{Tally, report_of}
use iac_modules.Observations.Report.Counted.{Summarizes, report_of-Summarizes}
use iac_modules.Observations.Report.Document.{summary, last_run, reconcile_observations}

module _ (r : Readers) (quote : String → String) (now generated_at : Value)
    (envelopes desired prior : List Value) where
  -- What the summary of a document says of the resources it was made of.
  abbrev pub IsSummarized : Value → Type 0
  IsSummarized document =
      (x : Reconciled) × (t : Tally) × (reconcile_state r quote envelopes desired prior ≡ ok x)
      × (get "summary" document ≡ summary (length x.desired) t)
      × Summarizes x.desired x.state t

  -- The summary of a document that the observations were reconciled to stands on the state after
  -- the runs. It counts as active the resources of the state that are present, as observed active,
  -- unobserved, collection failed and deleted those with that status, as matched those that are
  -- present and declared with the region and the form that they have, as drifted those that are
  -- present and declared with another, as declared only those that are declared and not present,
  -- and as observed only those that are present and not declared.
  pub reconcile_observations-IsSummarized :
      {document : Value}
      → reconcile_observations r quote now generated_at envelopes desired prior ≡ ok document
      → IsSummarized document
  unfolding reconcile_observations find
  reconcile_observations-IsSummarized h =
      let (x, reconciled, h1) = >>=-eq-ok (reconcile_state r quote envelopes desired prior) _ h in
      let (report, reported, h2) = >>=-eq-ok (report_of r x) _ h1 in
      let generated =
        strip (text_of r.show (first_of (generated_at ∷ last_run x.runs ∷ now ∷ []))) in
      let (_, _, h3) = >>=-eq-ok (timestamp r (str generated)) _ h2 in
      subst IsSummarized (ok-injective h3)
        (x, report.tally, reconciled, refl, report_of-Summarizes r x reported)
