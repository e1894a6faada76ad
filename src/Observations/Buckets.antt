-- ===== src/Observations/Buckets.antt =====
-- The counters of `by_environment` and `by_runtime_form` of `reconcile_observations`, in
-- terraform-hcl-standard/scripts/cmdb_observations_v1.py.
use iac_modules.Common.{
  ℕ, ◌+◌, String, none, some, List, [], ◌∷◌, Dict, lookup, store, Result, malformed, ok, err,
}

-- The counters of an environment or of a form.
abbrev pub Bucket : Type 0
Bucket = Dict ℕ

unfoldable pub bump : String → Bucket → Bucket
bump name bucket = elim (lookup name bucket) [
  | none ↦ store name 1 bucket
  | some n ↦ store name (n + 1) bucket
]

abbrev pub form_bucket : Bucket
form_bucket =
    ("declared_count", 0)
    ∷ ("active_count", 0)
    ∷ ("deleted_count", 0)
    ∷ ("unobserved_count", 0)
    ∷ ("collection_failed_count", 0)
    ∷ []

abbrev pub environment_bucket : Bucket
environment_bucket =
    ("declared_count", 0)
    ∷ ("active_count", 0)
    ∷ ("vm_count", 0)
    ∷ ("k3s_node_count", 0)
    ∷ ("serverless_count", 0)
    ∷ ("unobserved_count", 0)
    ∷ ("collection_failed_count", 0)
    ∷ ("deleted_count", 0)
    ∷ []

unfoldable pub bump_all : List String → Bucket → Bucket
unfolding bump
bump_all [] bucket = bucket
bump_all (name ∷ names) bucket = bump_all names (bump name bucket)

-- `buckets.setdefault(key, fresh)`, with the counters of these names raised
unfoldable pub count_in : Bucket → String → List String → Dict Bucket → Dict Bucket
unfolding bump_all
count_in fresh key names buckets =
    let bucket : Bucket = elim (lookup key buckets) [ none ↦ fresh | some b ↦ b ] in
    store key (bump_all names bucket) buckets

-- `buckets[key]["declared_count"] += 1`, where the bucket has to be there
unfoldable pub declare_in : String → Dict Bucket → Result (Dict Bucket)
unfolding bump
declare_in key buckets = elim (lookup key buckets) [
  | none ↦ err malformed
  | some bucket ↦ ok (store key (bump "declared_count" bucket) buckets)
]
