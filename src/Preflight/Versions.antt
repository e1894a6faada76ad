-- ===== src/Preflight/Versions.antt =====
-- The versions of a state object, of `inspect_legacy_object_versions` in
-- scripts/akamai_state_preflight.py. `str` of a value and `int` of a text are parameters.
use iac_modules.Common.{
  ℕ, ◌-◌, String, Bool, true, false, not, ◌&&◌, ◌||◌, Option, none, some, List, [], ◌∷◌, ◌+++◌, any,
  eqb, ltb, length, member, sorted, text_leb, ◌==◌, Result, ok, err, malformed, expect, ◌>>=◌, ◌>>◌,
  if◌then◌else◌,
}
use iac_modules.Json.{
  ℤ, pos, negsuc, Value, null, bool, int, str, arr, obj, end, nil, items, elems, mapping, get,
  get_or, eq, int_eq, is_mapping, truthy,
}
use iac_modules.Cmdb.Words.{strip_of, without_prefix}
use iac_modules.Preflight.Findings.{shown}

-- What `str` makes of a value and `int` of a text.
pub record Readers : Type 0 where
  pub show : Value → String
  pub number : String → Option ℤ

pub record Version : Type 0 where
  pub version_id : String
  pub is_latest : Bool
  pub last_modified : String
  pub size : ℤ
  pub etag : String

-- `archive`
pub record Archive : Type 0 where
  pub is_match : Bool
  pub value : Value

-- The objects that a loop over the value calls `get` on.
abbrev pub entries_of : Value → Result (List Value)
entries_of (arr xs) = ok (elems xs)
entries_of (obj end) = ok []
entries_of (str s) = if s == "" then ok [] else err malformed
entries_of _ = err malformed

abbrev pub unquoted : String → String
unquoted s = strip_of (λ c. eqb c 34) s

-- `(not item["is_latest"], item["last_modified"])` in order
abbrev pub version_leb : Version → Version → Bool
version_leb a b =
    if a.is_latest
    then not b.is_latest || text_leb a.last_modified b.last_modified
    else not b.is_latest && text_leb a.last_modified b.last_modified

-- The first version that is the latest.
abbrev find_latest : List Version → Option Version
find_latest [] = none
find_latest (v ∷ vs) = let rest = find_latest vs in if v.is_latest then some v else rest

-- `current`
abbrev pub current_of : List Version → Option Version
current_of vs = elim (find_latest vs) [
  | some v ↦ some v
  | none ↦ elim vs [ [] ↦ none | v ∷ rest ↦ some v ]
]

abbrev pub is_versioned : Version → Bool
is_versioned v = not (member v.version_id ("" ∷ "null" ∷ []))

abbrev pub archive_key : String → String
archive_key key = "terraform/archive/" +++ without_prefix ("terraform/" ∷ []) key

abbrev pub unavailable : String → String → Value
unavailable key reason = mapping (
    ("state_key", str key)
    ∷ ("version_inventory_status", str "unavailable")
    ∷ ("version_inventory_error", str reason)
    ∷ ("object_present", bool false)
    ∷ ("versioning_enabled", bool false)
    ∷ ("current_version", null)
    ∷ ("previous_version_count", int (pos 0))
    ∷ ("versions", arr nil)
    ∷ ("suggested_archive_key", str (archive_key key))
    ∷ (
      "archive_object",
      mapping (("present", bool false) ∷ ("matches_current_version_metadata", bool false) ∷ []),
    )
    ∷ ("backup_prerequisite_satisfied", bool false)
    ∷ [])

abbrev pub version_value : Version → Value
version_value v = mapping (
    ("version_id", str v.version_id)
    ∷ ("is_latest", bool v.is_latest)
    ∷ ("last_modified", str v.last_modified)
    ∷ ("size", int v.size)
    ∷ ("etag", str v.etag)
    ∷ [])

abbrev version_values : List Version → List Value
version_values [] = []
version_values (v ∷ vs) = version_value v ∷ version_values vs

-- The archive where nothing is found of it.
abbrev pub no_archive : String → Archive
no_archive status = record {
  is_match = false;
  value = mapping (
      ("present", bool false)
      ∷ ("matches_current_version_metadata", bool false)
      ∷ ("check_status", str status)
      ∷ []);
}

-- `backup_prerequisite_satisfied`
abbrev pub is_backed_up : List Version → Archive → Bool
is_backed_up versions archive = any is_versioned versions && elim (current_of versions) [
  | none ↦ false
  | some c ↦ is_versioned c && (ltb 1 (length versions) || archive.is_match)
]

abbrev pub current_value : Option Version → Value
current_value none = null
current_value (some v) = version_value v

-- `previous_versions`
abbrev pub previous_count : Option Version → List Version → ℕ
previous_count none versions = length versions
previous_count (some current) versions = length versions - 1

abbrev pub inventory : String → List Version → Archive → Value
inventory key versions archive = mapping (
    ("state_key", str key)
    ∷ ("version_inventory_status", str "available")
    ∷ ("object_present", bool (ltb 0 (length versions)))
    ∷ ("versioning_enabled", bool (any is_versioned versions))
    ∷ ("current_version", current_value (current_of versions))
    ∷ ("previous_version_count", int (pos (previous_count (current_of versions) versions)))
    ∷ ("versions", arr (items (version_values versions)))
    ∷ ("suggested_archive_key", str (archive_key key))
    ∷ ("archive_object", archive.value)
    ∷ ("backup_prerequisite_satisfied", bool (is_backed_up versions archive))
    ∷ [])

module _ (r : Readers) where
  -- `int(item.get(key, default))`
  unfoldable pub int_in : String → ℤ → Value → Result ℤ
  int_in key default item = elim (get_or key (int default) item) [
    | int n ↦ ok n
    | bool b ↦ ok (pos (if b then 1 else 0))
    | str s ↦ elim (r.number s) [ none ↦ err malformed | some n ↦ ok n ]
    | _ ↦ err malformed
  ]

  unfoldable pub text_in : String → Value → String
  text_in key item = shown r.show (get_or key (str "") item)

  -- `versions`, before they are sorted
  unfoldable pub versions_in : String → List Value → Result (List Version)
  versions_in key [] = ok []
  versions_in key (item ∷ rest) =
      let later = versions_in key rest in
      do
        expect (is_mapping item)
        if eq (get "Key" item) (str key)
            then (do
              size ← int_in "Size" (pos 0) item
              others ← later
              ok (
                  record {
                    version_id = text_in "VersionId" item;
                    is_latest = truthy (get "IsLatest" item);
                    last_modified = text_in "LastModified" item;
                    size = size;
                    etag = unquoted (text_in "ETag" item);
                  }
                  ∷ others))
            else later

  -- `versions`
  unfoldable pub read_versions : String → Value → Result (List Version)
  read_versions key payload = do
    expect (is_mapping payload)
    entries ← entries_of (get_or "Versions" (arr nil) payload)
    versions ← versions_in key entries
    ok (sorted version_leb versions)

  -- The archive that the headers of its object describe.
  unfoldable pub read_archive : Version → Value → Result Archive
  read_archive current metadata = do
    expect (is_mapping metadata)
    size ← int_in "ContentLength" (pos 0) metadata
    given ← int_in "ContentLength" (negsuc 0) metadata
    let etag = unquoted (text_in "ETag" metadata)
    let matches = int_eq given current.size && etag == current.etag
    ok (record {
      is_match = matches;
      value = mapping (
          ("present", bool true)
          ∷ ("check_status", str "available")
          ∷ ("version_id", str (text_in "VersionId" metadata))
          ∷ ("size", int size)
          ∷ ("etag", str etag)
          ∷ ("matches_current_version_metadata", bool matches)
          ∷ []);
    })
