-- ===== src/Dns/Tests.antt =====
-- A record that is created, and one that is taken back, with the laws at them.
use iac_modules.Common.{
  String, ◌≡◌, refl, true, false, inl, none, some, [], ◌∷◌, ok, err, starts_with,
}
use iac_modules.Json.{Value, null, str, texts, put, get, find, set, eq}
use iac_modules.Dns.Record.{identity, domain, intent, check_record, payload, snapshot}
use iac_modules.Dns.Host.{request, zone, records, create, update, delete}
use iac_modules.Dns.Plan.{bind_zone, current, make_plan}
use iac_modules.Dns.Validate.{validate_plan, check_before}
use iac_modules.Dns.Validate.Laws.{validate_plan-make_plan}
use iac_modules.Json.Plain.{plain, plain-IsPlain}
use iac_modules.Dns.Checkpoint.{State, written, read_state, optional_state, required_state, receipt}
use iac_modules.Dns.Apply.{begin, make_record, reconcile, verify, apply}
use iac_modules.Dns.Apply.Laws.{IsVerified, apply-IsVerified, reconcile-idle}
use iac_modules.Dns.Restore.{undo, await_direct, confirm, restore}
use iac_modules.Dns.Restore.Laws.{IsRestored, restore-IsRestored, undo-idle}
use iac_modules.Dns.Samples.{World, host, ipv4, spec, plan, desired, record_id}

abbrev empty : World
empty = record { stands = null; file = none }

abbrev made : Value
made = put "id" (str record_id) desired

abbrev at_phase : String → Value
at_phase phase = written plan (record { record_id = str record_id; phase = phase })

abbrev created : World
created = record { stands = made; file = some (at_phase "verified") }

abbrev removed : World
removed = record { stands = null; file = some (at_phase "restored") }

-- The functions that a run calls.
running : Unit {0}
unfolding validate_plan check_before intent check_record identity domain payload snapshot request
    zone records create update delete bind_zone current read_state optional_state required_state
    begin make_record reconcile verify apply undo await_direct confirm restore find set eq
    starts_with
running = tt

is_planned : make_plan host ipv4 spec empty ≡ (ok plan, empty)
unfolding running make_plan
is_planned = refl

is_applied :
    apply host ipv4 plan empty ≡ (ok (receipt spec "apply" true (str record_id) true), created)
unfolding running
is_applied = refl

-- What was applied is taken back.
is_restored :
    restore host ipv4 plan created
    ≡ (ok (receipt spec "restore" true (str record_id) false), removed)
unfolding running
is_restored = refl

-- A record that stands already, with its tags out of order.
abbrev standing : World
standing = record {
  stands =
      put "id" (str record_id) (put "tags" (texts ("team:web" ∷ "owner:gateway" ∷ [])) desired);
  file = none;
}

abbrev update_spec : Value
update_spec = put "expected_record_id" (str record_id) spec

abbrev update_plan : Value
unfolding running make_plan
update_plan = elim (make_plan host ipv4 update_spec standing).0 [ ok p ↦ p | err _ ↦ null ]

is_update :
    (make_plan host ipv4 update_spec standing ≡ (ok update_plan, standing))
    × (plain update_plan ≡ true)
unfolding running make_plan plain
is_update = (refl, refl)

validate_plan-make_plan_example : validate_plan ipv4 update_plan ≡ ok update_spec
validate_plan-make_plan_example =
    validate_plan-make_plan host ipv4 update_spec update_plan standing standing is_update.0
      (plain-IsPlain update_plan is_update.1)

apply-IsVerified_example : IsVerified host ipv4 plan created
apply-IsVerified_example =
    apply-IsVerified host ipv4 plan (receipt spec "apply" true (str record_id) true) empty created
      is_applied

restore-IsRestored_example : IsRestored host ipv4 plan removed
restore-IsRestored_example =
    restore-IsRestored host ipv4 plan (receipt spec "restore" true (str record_id) false) created
      removed is_restored

abbrev begun : State
begun = record { record_id = null; phase = "prepared" }

is_other : eq made (get "before" plan) ≡ false
unfolding eq find set
is_other = refl

reconcile-idle_example : (reconcile host ipv4 plan spec begun made created).1 ≡ created
reconcile-idle_example = reconcile-idle host ipv4 plan spec begun made created (inl is_other)

is_there : eq null (get "before" plan) ≡ true
unfolding eq find
is_there = refl

undo-idle_example : (undo host ipv4 plan spec begun null empty).1 ≡ empty
undo-idle_example = undo-idle host ipv4 plan spec begun null empty (inl is_there)
