-- ===== src/Evidence/Receipts/Laws.antt =====
-- On `verify_receipt` and `collect` of scripts/pipeline/unified/evidence.py.
use iac_modules.Common.{
  String, ◌≡◌, refl, sym, ap, subst, true, false, not, Option, none, some, List, [], ◌∷◌, ◌++◌, All,
  All-prefix, All-suffix, member, ◌==◌, ◌+++◌, ok, err, malformed, require, when, >>=-eq-ok,
  require-eq-ok, >>-eq-ok, when-eq-ok, require-passed, ok-injective,
}
use iac_modules.Json.{Value, str, fields_of, fields, get, get_or, at, eq, text_value}
use iac_modules.Json.Laws.{at-eq-ok}
use iac_modules.Contracts.Target.Tables.{is_among}
use iac_modules.Evidence.Receipts.{
  take_fields, run_fields, target_fields, open_fields, binding_fields, spec_at, receipt_base,
  successes, proves, has_length, check_binding_fields, check_terraform_receipt, check_mode_receipt,
  ran_terraform, verify_receipt,
}

-- A receipt agrees with a field that binds it.
abbrev Agrees : Value → String × Value → Type 0
Agrees receipt (k, v) = member k open_fields ≡ false → eq (get k receipt) v ≡ true

check_binding_fields-Agrees :
    (place : String) (receipt : Value) (pairs : List (String × Value))
    → check_binding_fields place receipt (fields_of pairs) ≡ ok tt
    → All (Agrees receipt) pairs
unfolding check_binding_fields
check_binding_fields-Agrees place receipt [] h = tt
check_binding_fields-Agrees place receipt ((k, v) ∷ rest) h =
    let (here, later) = >>-eq-ok (when (not (member k open_fields)) _) _ h in
    (
      (λ closed.
          require-passed _ _ (when-eq-ok (not (member k open_fields)) _ here (rw closed refl))),
      check_binding_fields-Agrees place receipt rest later,
    )

-- The receipt repeats the field of a mapping, unless the stage has to fill it in.
abbrev pub Repeats : Value → Value → String → Type 0
Repeats receipt v k = member k open_fields ≡ false → eq (get k receipt) (get k v) ≡ true

take_fields-Repeats :
    (ks : List String) (v receipt : Value) {pairs : List (String × Value)}
    → take_fields ks v ≡ ok pairs
    → All (Agrees receipt) pairs
    → All (Repeats receipt v) ks
unfolding take_fields
take_fields-Repeats [] v receipt h a = tt
take_fields-Repeats (k ∷ ks) v receipt h a =
    let (w, found, h1) = >>=-eq-ok (at k v) _ h in
    let (rest, later, h2) = >>=-eq-ok (take_fields ks v) _ h1 in
    let (here, others) : All (Agrees receipt) ((k, w) ∷ rest) =
      subst (All (Agrees receipt)) (sym (ok-injective h2)) a in
    (
      (λ closed. rw (at-eq-ok k v found) (here closed)),
      take_fields-Repeats ks v receipt later others,
    )

-- What a receipt of a stage says of the run it is from.
pub record IsOfRun (context target : Value) (stage : String) (receipt : Value) : Type 0 where
  pub run : All (Repeats receipt context) run_fields
  pub identity : All (Repeats receipt target) target_fields
  pub id : eq (get "target_id" receipt) (get "id" target) ≡ true
  pub own_stage : eq (get "stage" receipt) (str stage) ≡ true

receipt_base-IsOfRun :
    (context target : Value) (stage place : String) (receipt : Value) {base : Value}
    → receipt_base context target stage ≡ ok base
    → check_binding_fields place receipt (fields base) ≡ ok tt
    → IsOfRun context target stage receipt
unfolding receipt_base binding_fields
receipt_base-IsOfRun context target stage place receipt h checked =
    let (spec, _, h1) = >>=-eq-ok (spec_at stage target) _ h in
    let (bound, is_bound, h2) = >>=-eq-ok (binding_fields context target stage spec) _ h1 in
    let (run, is_run, b1) = >>=-eq-ok (take_fields run_fields context) _ is_bound in
    let (manifest, _, b2) = >>=-eq-ok (at "manifest_sha256" context) _ b1 in
    let (id, is_id, b3) = >>=-eq-ok (at "id" target) _ b2 in
    let (identity, is_identity, b4) = >>=-eq-ok (take_fields target_fields target) _ b3 in
    let whole = check_binding_fields-Agrees place receipt (bound ++ _) (
      subst (λ b. check_binding_fields place receipt (fields b) ≡ ok tt) (sym (ok-injective h2))
        checked) in
    let all_bound = All-prefix (Agrees receipt) bound _ whole in
    let facts = subst (All (Agrees receipt)) (sym (ok-injective b4)) all_bound in
    let rest = facts.1.1.1.1.1.1 in
    record {
      run = take_fields-Repeats run_fields context receipt is_run (All-prefix _ run identity rest);
      identity =
          take_fields-Repeats target_fields target receipt is_identity
            (All-suffix _ run identity rest);
      id = rw (at-eq-ok "id" target is_id) (facts.1.1.0 refl);
      own_stage = facts.1.1.1.0 refl;
    }

-- What an accepted receipt proves.
pub record IsProven (context target : Value) (stage : String) (receipt : Value) : Type 0 where
  pub of_run : IsOfRun context target stage receipt
  pub result :
      (results : List String) × (successes (text_value (get "action" context)) ≡ some results)
      × (is_among results (get "result" receipt) ≡ true)
  pub contract : proves receipt "contract" ≡ true
  pub cleanup : proves receipt "cleanup" ≡ true
  pub terraform :
      ran_terraform stage (get stage (get "stages" target)) (get "bootstrap_mode" context) ≡ true
      → (proves receipt "ownership" ≡ true)
        × (has_length 64 (get_or "plan_sha256" (str "") receipt) ≡ true)
        × ((text_value (get "action" context) == "plan") ≡ false
            → proves receipt "convergence" ≡ true)

check_terraform_receipt-proves :
    (action : String) (target : Value) (stage : String) (receipt : Value)
    → check_terraform_receipt action target stage receipt ≡ ok tt
    → (proves receipt "ownership" ≡ true)
      × (has_length 64 (get_or "plan_sha256" (str "") receipt) ≡ true)
      × ((action == "plan") ≡ false → proves receipt "convergence" ≡ true)
unfolding check_terraform_receipt
check_terraform_receipt-proves action target stage receipt h =
    let (_, h1) = >>-eq-ok _ _ h in
    let (owned, h2) = require-eq-ok (proves receipt "ownership") _ _ h1 in
    let (saved, h3) =
      require-eq-ok (has_length 64 (get_or "plan_sha256" (str "") receipt)) _ _ h2 in
    let (converged, _) =
      >>-eq-ok (when (not (action == "plan")) (require (proves receipt "convergence") _)) _ h3 in
    (
      owned,
      saved,
      λ acts. require-passed _ _ (when-eq-ok (not (action == "plan")) _ converged (rw acts refl)),
    )

spec_at-eq :
    (stage : String) (target : Value) {spec : Value}
    → spec_at stage target ≡ ok spec
    → get stage (get "stages" target) ≡ spec
spec_at-eq stage target h =
    let (stages, found, h1) = >>=-eq-ok (at "stages" target) _ h in
    rw (at-eq-ok "stages" target found) (at-eq-ok stage stages h1)

some-of :
    (o : Option (List String)) {rs : List String}
    → elim o [ none ↦ err malformed | some r ↦ ok r ] ≡ ok rs
    → o ≡ some rs
some-of none h = cc
some-of (some r) h = ap some (ok-injective h)

-- An accepted receipt repeats what identifies its run, target and stage, reports a success that the
-- action can have, and proves the contract and the removal of credentials. Where Terraform ran it
-- proves ownership and a saved plan, and convergence unless the run only plans.
pub verify_receipt-IsProven :
    (context target : Value) (stage : String) (receipt accepted : Value)
    → verify_receipt context target stage receipt ≡ ok accepted
    → IsProven context target stage receipt
unfolding verify_receipt
verify_receipt-IsProven context target stage receipt accepted h =
    let place = text_value (get "id" target) +++ ("/" +++ stage) in
    let (base, is_base, h1) = >>=-eq-ok (receipt_base context target stage) _ h in
    let (bound, h2) = >>-eq-ok (check_binding_fields place receipt (fields base)) _ h1 in
    let (action, at_action, h3) = >>=-eq-ok (at "action" context) _ h2 in
    let (results, are_results, h4) =
      >>=-eq-ok (elim (successes (text_value action)) [ none ↦ err malformed | some rs ↦ ok rs ]) _
        h3 in
    let (success, h5) = require-eq-ok (is_among results (get "result" receipt)) _ _ h4 in
    let (contract, h6) = require-eq-ok (proves receipt "contract") _ _ h5 in
    let (cleanup, h7) = require-eq-ok (proves receipt "cleanup") _ _ h6 in
    let (spec, at_spec, h8) = >>=-eq-ok (spec_at stage target) _ h7 in
    let (_, h9) = >>-eq-ok (check_mode_receipt spec receipt) _ h8 in
    let (terraform, _) =
      >>-eq-ok
        (when (ran_terraform stage spec (get "bootstrap_mode" context))
          (check_terraform_receipt (text_value action) target stage receipt))
        _ h9 in
    record {
      of_run = receipt_base-IsOfRun context target stage place receipt is_base bound;
      result = (results, rw (at-eq-ok "action" context at_action) (some-of _ are_results), success);
      contract = contract;
      cleanup = cleanup;
      terraform = rw (at-eq-ok "action" context at_action) (
          rw (spec_at-eq stage target at_spec) (λ ran.
            check_terraform_receipt-proves (text_value action) target stage receipt
              (when-eq-ok _ _ terraform ran)));
    }
