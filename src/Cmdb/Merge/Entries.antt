-- ===== src/Cmdb/Merge/Entries.antt =====
-- How `merge_documents`, of terraform-hcl-standard/scripts/cmdb_v1.py, merges the entries of one
-- document.
use iac_modules.Common.{
  String, ◌≡◌, refl, sym, subst, ◌∙◌, ◌⊎◌, inl, inr, ltb, ◌==◌, arith, Option-cases, Bool-cases,
  lookup, store, ok, ok-injective, >>=-eq-ok,
}
use iac_modules.Json.{Value, Fields, end, field, str}
use iac_modules.Cmdb.Endpoint.{Readers, parse_timestamp}
use iac_modules.Cmdb.Resource.{Resource, Scope, normalize_resource_record}
use iac_modules.Cmdb.Resource.Laws.{normalize_resource_record-IsNormal}
use iac_modules.Cmdb.Document.{Index}
use iac_modules.Cmdb.Document.Newest.{
  Grows, Kept, Stored, IsSeen, AreSeen, HasNewer-found, Grows-step, Grows-same, Grows-trans,
  IsSeen-grows,
}
use iac_modules.Cmdb.Merge.{put_host, put_serverless, merge_entry, merge_entries}

-- A function that stores the resource it is given.
abbrev pub Stores : (Resource → String → Value → Index → Index) → Type 0
Stores put_entry =
    (found : Resource) (name : String) (entry : Value) (x : Index)
    → (put_entry found name entry x).resources ≡ store found.resource_key found x.resources

pub put_host-Stores : Stores put_host
unfolding put_host
put_host-Stores found name entry x = elim (Bool-cases (found.runtime_form == "serverless")) [
  | inl serverless ↦ rw serverless refl
  | inr hosted ↦ rw hosted refl
]

pub put_serverless-Stores : Stores put_serverless
unfolding put_serverless
put_serverless-Stores found name entry x = refl

abbrev pub as_it_is : Value → Value
as_it_is v = v

module _ (r : Readers) where
  module _ (put_entry : Resource → String → Value → Index → Index) (stores : Stores put_entry)
      (scope : Scope) where
    merge_entry-IsSeen :
        (name : String) (entry : Value) (x : Index) {y : Index}
        → merge_entry r put_entry scope name entry x ≡ ok y
        → IsSeen r scope as_it_is y name entry × Grows r x y
    unfolding merge_entry
    merge_entry-IsSeen name entry x {y} h =
        let (found, normal, h1) = >>=-eq-ok (normalize_resource_record r scope name entry) _ h in
        let (t, seen) = (normalize_resource_record-IsNormal r scope name entry normal).seen in
        let key = found.resource_key in
        let step : Kept r found t x y ⊎ Stored r found t x y =
          elim (Option-cases (lookup key x.resources)) [
            | inl nothing ↦ inr (record {
              resources =
                  subst (λ (z : Index). z.resources ≡ store key found x.resources)
                    (ok-injective (rw nothing at h1)) (stores found name entry x);
              newest = inl nothing;
            })
            | inr (old, stands) ↦
                let (t', seen_new, h2) =
                  >>=-eq-ok (parse_timestamp r (str found.last_observed_at)) _ (rw stands at h1) in
                let (u, seen_old, h3) =
                  >>=-eq-ok (parse_timestamp r (str old.last_observed_at)) _ h2 in
                let same : t' ≡ t = ok-injective (sym seen_new ∙ seen) in
                elim (Bool-cases (ltb t' u)) [
                  | inl older ↦ inl (record {
                    unchanged = sym (ok-injective (rw older at h3));
                    newer = record {
                      indexed = old;
                      time = u;
                      stands = stands;
                      seen = seen_old;
                      newer = ground arith;
                    };
                  })
                  | inr newest ↦ inr (record {
                    resources =
                        subst (λ (z : Index). z.resources ≡ store key found x.resources)
                          (ok-injective (rw newest at h3)) (stores found name entry x);
                    newest = inr (old, u, stands, seen_old, ground arith);
                  })
                ]
          ] in
        (
          record {
            found = found;
            time = t;
            normal = normal;
            seen = seen;
            kept = HasNewer-found r found t x y seen step;
          },
          Grows-step r found t x y seen step,
        )

    pub merge_entries-AreSeen :
        (fs : Fields) (x : Index) {y : Index}
        → merge_entries r put_entry scope fs x ≡ ok y
        → AreSeen r scope as_it_is y fs × Grows r x y
    unfolding merge_entries
    merge_entries-AreSeen end x {y} h = (tt, Grows-same r x y (ok-injective h))
    merge_entries-AreSeen (field name entry rest) x {y} h =
        let (z, first, h1) = >>=-eq-ok (merge_entry r put_entry scope name entry x) _ h in
        let (seen, grows) = merge_entry-IsSeen name entry x first in
        let (later, more) = merge_entries-AreSeen rest z h1 in
        (
          (IsSeen-grows r scope as_it_is z y more name entry seen, later),
          Grows-trans r x z y grows more,
        )
