-- ===== src/Cmdb/Document/Fresh.antt =====
-- On the index that `make_document`, of terraform-hcl-standard/scripts/cmdb_v1.py, ends with.
use iac_modules.Common.{
  ℕ, String, ◌≡◌, refl, sym, ◌∙◌, true, false, ◌⊎◌, inl, inr, ltb, ◌==◌, arith, Bool, [], ◌∷◌,
  Option-cases, Bool-cases, lookup, store, ok, expect, ok-injective, require-eq-ok, >>=-eq-ok,
  >>-eq-ok,
}
use iac_modules.Json.{Value, Fields, end, field, str, is_mapping, obj}
use iac_modules.Cmdb.Words.{strip, text_of, first_of}
use iac_modules.Cmdb.Environment.{infer_environment, extract_path_environments}
use iac_modules.Cmdb.Environment.Laws.{AreOne, infer_environment-AreOne}
use iac_modules.Cmdb.Endpoint.{Readers, parse_timestamp}
use iac_modules.Cmdb.Resource.{Resource, Scope, normalize_resource_record}
use iac_modules.Cmdb.Resource.Laws.{normalize_resource_record-IsNormal}
use iac_modules.Cmdb.Document.{
  Index, Making, no_resources, place, displace, forced, ingest_found, ingest_entry, ingest_entries,
  ingest, scope_of, document_of, make_document,
}
use iac_modules.Cmdb.Document.Newest.{
  SeenAt, Keyed, Grows, Kept, Stored, IsSeen, AreSeen, HasNewer-found, Grows-step, Grows-same,
  Grows-trans, IsSeen-grows, AreSeen-grows,
}

place-resources :
    (found : Resource) (name : String) (entry : Value) (x : Index)
    → (place found name entry x).resources ≡ store found.resource_key found x.resources
unfolding place
place-resources found name entry x = elim (Bool-cases (found.runtime_form == "serverless")) [
  | inl serverless ↦ rw serverless refl
  | inr hosted ↦ rw hosted refl
]

module _ (r : Readers) (scope : Scope) where
  ingest_found_cases :
      (found : Resource) (name : String) (entry : Value) (x y : Index) (t : ℕ)
      → SeenAt r found t
      → ingest_found r scope found name entry x ≡ ok y
      → Kept r found t x y ⊎ Stored r found t x y
  unfolding ingest_found displace
  ingest_found_cases found name entry x y t seen h =
      let key = found.resource_key in
      elim (Option-cases (lookup key x.resources)) [
        | inl nothing ↦ inr (record {
          resources =
              rw (sym (ok-injective (rw (nothing, ingest_found) at h)))
                (place-resources found name entry x);
          newest = inl nothing;
        })
        | inr (old, stands) ↦
            let (_, h1) =
              require-eq-ok (old.environment == found.environment)
                "duplicate resource_key has conflicting environments" _
                (rw (stands, ingest_found) at h) in
            let (u, seen_old, h2) = >>=-eq-ok (parse_timestamp r (str old.last_observed_at)) _ h1 in
            let (t', seen_new, h3) =
              >>=-eq-ok (parse_timestamp r (str found.last_observed_at)) _ h2 in
            let same : t' ≡ t = ok-injective (sym seen_new ∙ seen) in
            elim (Bool-cases (ltb t' u)) [
              | inl older ↦ inl (record {
                unchanged = sym (ok-injective (rw older at h3));
                newer = record {
                  indexed = old;
                  time = u;
                  stands = stands;
                  seen = seen_old;
                  newer = ground arith;
                };
              })
              | inr newest ↦ inr (record {
                resources =
                    rw (sym (ok-injective (rw newest at h3)))
                      (place-resources found name entry (displace key name x));
                newest = inr (old, u, stands, seen_old, ground arith);
              })
            ]
      ]

  ingest_entry-IsSeen :
      (force : Bool) (name : String) (entry : Value) (x : Index) {y : Index}
      → ingest_entry r scope force name entry x ≡ ok y
      → IsSeen r scope (forced force) y name entry × Grows r x y
  unfolding ingest_entry
  ingest_entry-IsSeen force name entry x {y} h =
      let (_, h1) = >>-eq-ok (expect (is_mapping entry)) _ h in
      let (found, normal, h2) =
        >>=-eq-ok (normalize_resource_record r scope name (forced force entry)) _ h1 in
      let (t, seen) =
        (normalize_resource_record-IsNormal r scope name (forced force entry) normal).seen in
      let step = ingest_found_cases found name entry x y t seen h2 in
      (
        record {
          found = found;
          time = t;
          normal = normal;
          seen = seen;
          kept = HasNewer-found r found t x y seen step;
        },
        Grows-step r found t x y seen step,
      )

  ingest_entries-AreSeen :
      (force : Bool) (fs : Fields) (x : Index) {y : Index}
      → ingest_entries r scope force fs x ≡ ok y
      → AreSeen r scope (forced force) y fs × Grows r x y
  unfolding ingest_entries
  ingest_entries-AreSeen force end x {y} h = (tt, Grows-same r x y (ok-injective h))
  ingest_entries-AreSeen force (field name entry rest) x {y} h =
      let (z, first, h1) = >>=-eq-ok (ingest_entry r scope force name entry x) _ h in
      let (seen, grows) = ingest_entry-IsSeen force name entry x first in
      let (later, more) = ingest_entries-AreSeen force rest z h1 in
      (
        (IsSeen-grows r scope (forced force) z y more name entry seen, later),
        Grows-trans r x z y grows more,
      )

  -- The index of the hosts and the serverless resources of a document.
  pub record IsFresh (hosts serverless : Fields) (x : Index) : Type 0 where
    pub keyed : Keyed r x
    pub hosts_seen : AreSeen r scope (forced false) x hosts
    pub serverless_seen : AreSeen r scope (forced true) x serverless

  ingest-IsFresh :
      (hosts serverless : Fields) {x : Index}
      → ingest r scope hosts serverless ≡ ok x
      → IsFresh hosts serverless x
  unfolding ingest
  ingest-IsFresh hosts serverless {x} h =
      let (y, first, second) = >>=-eq-ok (ingest_entries r scope false hosts no_resources) _ h in
      let (seen, grows) = ingest_entries-AreSeen false hosts no_resources first in
      let (later, more) = ingest_entries-AreSeen true serverless y second in
      record {
        keyed = more.keyed (grows.keyed tt);
        hosts_seen = AreSeen-grows r scope (forced false) y x more hosts seen;
        serverless_seen = later;
      }

-- A document that is made, with the environment, the time and the index that it is made of.
pub record IsMade (r : Readers) (m : Making) (hosts serverless : Fields) (document : Value)
    : Type 0 where
  pub environment : String
  pub time : String
  pub index : Index
  pub one : AreOne environment (extract_path_environments m.resource_paths)
  pub fresh : IsFresh r (scope_of m environment time) hosts serverless index
  pub made : document ≡ obj (document_of m environment time index)

-- A document is made of an index in which each resource stands under its own key. Of every host
-- and every serverless resource the index holds the observation that is given, or one of the same
-- resource that is no older. The document's environment is that of every path that names one, or
-- unknown.
pub make_document-IsMade :
    (r : Readers) (m : Making) (hosts serverless : Fields) {document : Value}
    → make_document r m hosts serverless ≡ ok document
    → IsMade r m hosts serverless document
unfolding make_document
make_document-IsMade r m hosts serverless h =
    let (environment, inferred, h1) =
      >>=-eq-ok (infer_environment r.show m.variable m.resource_paths m.environment) _ h in
    let seen = strip (text_of r.show (first_of (m.observed_at ∷ str r.now ∷ []))) in
    let (_, _, h2) = >>=-eq-ok (parse_timestamp r (str seen)) _ h1 in
    let (x, ingested, h3) =
      >>=-eq-ok (ingest r (scope_of m environment seen) hosts serverless) _ h2 in
    record {
      environment = environment;
      time = seen;
      index = x;
      one = infer_environment-AreOne r.show m.variable m.resource_paths m.environment inferred;
      fresh = ingest-IsFresh r (scope_of m environment seen) hosts serverless ingested;
      made = sym (ok-injective h3);
    }
