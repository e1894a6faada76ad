-- ===== src/Dns/Plan.antt =====
-- `bind_zone`, `current`, `make_plan` and `validate_plan` of scripts/pipeline/dns-reconcile.py: a
-- plan names one record, as it is and as it shall be.
use iac_modules.Common.{◌&&◌, List, [], ◌∷◌, Result, ok, err, refused, malformed, if◌then◌else◌}
use iac_modules.Json.{
  pos, Value, null, int, str, obj, arr, cons, nil, end, mapping, get, eq, merge, is_null,
  is_mapping, is_text, or_empty, members, fields,
}
use iac_modules.Dns.Record.{Ipv4, intent, snapshot, keeps_owner}
use iac_modules.Dns.Host.{Step, ◌>>=◌, ◌>>◌, lift, return, check, Host, zone, records}

-- `None if before is None else before["id"]`
abbrev pub id_of : Value → Value
id_of before = if is_null before then null else get "id" before

-- No record, or one; the source reads `record.get` of it.
abbrev pub single : List Value → Result Value
single [] = ok null
single (entry ∷ []) = if is_mapping entry then ok entry else err malformed
single (entry ∷ other ∷ rest) = err (refused "Conflicting or duplicate DNS records")

-- The record that the plan leaves: what stands there, with the fields of the intent.
abbrev pub desired_record : Value → Value → Value
desired_record spec before =
    let fresh = mapping (
      ("comment", str "")
      ∷ ("tags", arr (cons (get "owner_tag" spec) nil))
      ∷ ("settings", obj end)
      ∷ []) in
    let base = if is_null before then fresh else get "record" before in
    obj (merge (fields base) (fields (get "record" spec)))

module _ {W : Type 0} (host : Host W) where
  unfoldable pub bind_zone : Value → Step W (Unit {0})
  bind_zone spec = do
    found ← zone host (get "zone_id" spec)
    check
        ((is_mapping found && eq (get "id" found) (get "zone_id" spec))
          && (eq (get "name" found) (get "zone_name" spec)
              && (is_text "active" (get "status" found)
                  && eq (get "id" (or_empty (get "account" found))) (get "account_id" spec))))
        "Zone/account binding mismatch"

  -- What is configured for the name, or null.
  unfoldable pub current : Ipv4 → Value → Step W Value
  current ip spec = do
    let name = get "name" (get "record" spec)
    found ← records host (get "zone_id" spec) name
    one ← lift (single (members found))
    if is_null one then return null else (do
      check (eq (get "name" one) name) "Record name mismatch"
      configured ← lift (snapshot ip one)
      check (keeps_owner spec (get "record" configured))
          "Existing canonical owner must be preserved"
      return configured)

  unfoldable pub make_plan : Ipv4 → Value → Step W Value
  make_plan ip given = do
    spec ← lift (intent ip given)
    bind_zone spec
    before ← current ip spec
    check (eq (id_of before) (get "expected_record_id" spec))
        "Expected record identity/absence mismatch"
    return (
        mapping (
          ("version", int (pos 1))
          ∷ ("intent", spec)
          ∷ ("before", before)
          ∷ ("desired", desired_record spec before)
          ∷ []))
