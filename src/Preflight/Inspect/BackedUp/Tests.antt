-- ===== src/Preflight/Inspect/BackedUp/Tests.antt =====
-- A state object with one version, whose archive has the same ETag, with the laws at it.
use iac_modules.Common.{
  ◌≡◌, refl, String, true, List, [], ◌∷◌, none, some, ok, Dict, lookup, store, starts_with,
  contains, member, if◌then◌else◌,
}
use iac_modules.Common.Steps.{return}
use iac_modules.Json.{Value, bool, int, str, pos, arr, items, mapping, eq, find, get, is_true}
use iac_modules.Cmdb.Words.{without_prefix, strip_of}
use iac_modules.Preflight.Versions.{versions_in, read_versions, read_archive, int_in, text_in}
use iac_modules.Preflight.Inspect.{
  Aws, aws_readonly, archive_in, find_archive, inspect_listed, inspect_legacy_object_versions,
}
use iac_modules.Preflight.Inspect.BackedUp.{IsBackedUp, inspect_legacy_object_versions-IsBackedUp}

abbrev version : Value
version = mapping (
    ("Key", str "terraform/legacy")
    ∷ ("VersionId", str "v1")
    ∷ ("IsLatest", bool true)
    ∷ ("Size", int (pos 3))
    ∷ ("ETag", str "\"e\"")
    ∷ [])

abbrev head : Value
head = mapping (("ContentLength", int (pos 3)) ∷ ("ETag", str "\"e\"") ∷ [])

abbrev listing : Value
listing = mapping (("Versions", arr (items (version ∷ []))) ∷ [])

abbrev answer : List String → Value
answer arguments = if member "head-object" arguments then head else listing

-- The command answers both requests.
abbrev aws : Aws (Unit {0})
aws = record {
  run = λ arguments env.
      return (some (record { returncode = pos 0; stdout = some (answer arguments); stderr = "" }));
  readers = record { show = λ v. ""; number = λ s. none };
}

abbrev env : Dict String
env =
    ("TF_STATE_ENDPOINT", "https://s3")
    ∷ ("TF_STATE_BUCKET", "states")
    ∷ ("TF_STATE_ACCESS_KEY", "a")
    ∷ ("TF_STATE_SECRET_KEY", "s")
    ∷ ("TF_STATE_REGION", "r")
    ∷ []

abbrev version_value : Value
version_value = mapping (
    ("version_id", str "v1")
    ∷ ("is_latest", bool true)
    ∷ ("last_modified", str "")
    ∷ ("size", int (pos 3))
    ∷ ("etag", str "e")
    ∷ [])

abbrev report : Value
report = mapping (
    ("state_key", str "terraform/legacy")
    ∷ ("version_inventory_status", str "available")
    ∷ ("object_present", bool true)
    ∷ ("versioning_enabled", bool true)
    ∷ ("current_version", version_value)
    ∷ ("previous_version_count", int (pos 0))
    ∷ ("versions", arr (items (version_value ∷ [])))
    ∷ ("suggested_archive_key", str "terraform/archive/legacy")
    ∷ (
      "archive_object",
      mapping (
          ("present", bool true)
          ∷ ("check_status", str "available")
          ∷ ("version_id", str "")
          ∷ ("size", int (pos 3))
          ∷ ("etag", str "e")
          ∷ ("matches_current_version_metadata", bool true)
          ∷ []),
    )
    ∷ ("backup_prerequisite_satisfied", bool true)
    ∷ [])

is_inspected : inspect_legacy_object_versions aws "terraform/legacy" env tt ≡ (ok report, tt)
unfolding inspect_legacy_object_versions aws_readonly inspect_listed find_archive archive_in
    read_versions versions_in read_archive int_in text_in strip_of without_prefix lookup store find
    eq starts_with contains
is_inspected = refl

is_satisfied : is_true (get "backup_prerequisite_satisfied" report) ≡ true
unfolding find
is_satisfied = refl

inspect_legacy_object_versions-IsBackedUp_example : IsBackedUp aws "terraform/legacy" env tt report
inspect_legacy_object_versions-IsBackedUp_example =
    inspect_legacy_object_versions-IsBackedUp aws "terraform/legacy" env tt is_inspected
      is_satisfied
