-- ===== src/Dns/Validate.antt =====
-- `validate_plan` of scripts/pipeline/dns-reconcile.py: a plan that was written earlier is checked
-- again before it is applied or restored.
pub mod Laws
use iac_modules.Common.{not, ◌&&◌, [], ◌∷◌, Result, ok, require, when, ◌>>=◌, ◌>>◌}
use iac_modules.Json.{Value, get, put, eq, is_null, is_mapping}
use iac_modules.Dns.Record.{Ipv4, intent, snapshot, keeps_owner, has_exactly, is_version}
use iac_modules.Dns.Plan.{id_of, desired_record}

-- The record that a plan found.
unfoldable pub check_before : Ipv4 → Value → Value → Result (Unit {0})
check_before ip spec before = do
  require (is_mapping before && has_exactly ("id" ∷ "record" ∷ []) before) "Invalid prior record"
  again ← snapshot ip (put "id" (get "id" before) (get "record" before))
  require (eq again before) "Invalid prior record state"
  require (eq (get "name" (get "record" before)) (get "name" (get "record" spec)))
      "Prior record name mismatch"
  require (keeps_owner spec (get "record" before)) "Existing canonical owner must be preserved"

unfoldable pub validate_plan : Ipv4 → Value → Result Value
validate_plan ip plan = do
  require
      (is_mapping plan
        && (has_exactly ("version" ∷ "intent" ∷ "before" ∷ "desired" ∷ []) plan && is_version plan))
      "Invalid plan schema"
  spec ← intent ip (get "intent" plan)
  let before = get "before" plan
  when (not (is_null before)) (check_before ip spec before)
  require (eq (id_of before) (get "expected_record_id" spec)) "Plan identity mismatch"
  require (eq (get "desired" plan) (desired_record spec before))
      "Plan changes unapproved record metadata"
  ok spec
