-- ===== src/Runtime/Tests.antt =====
-- A stage whose identity is refused, and one that converges, with the laws at them.
use iac_modules.Common.{◌≡◌, refl, [], ◌∷◌, none, ok, err, refused, Error, Result, String}
use iac_modules.Json.{Value, null, obj, arr, nil, end, str, mapping, put, find, set}
use iac_modules.Runtime.{Machine, initialize}
use iac_modules.Runtime.Execute.{
  Stage, perform, run_stage, run_terraform, isolate_if, plan_stage, bootstrap_repository, converge,
}
use iac_modules.Evidence.Guard.{guard_plan, guard_changes, finish}
use iac_modules.States.{Resources}
use iac_modules.Runtime.Laws.{
  FailsClosed, run_stage-FailsClosed, IsGuarded, IsConverged, run_terraform-IsConverged,
}

abbrev refusal : Error
refusal = refused "provider identity mismatch"

-- The world is the receipt file. No identity is accepted, and every command finds nothing.
abbrev machine : Machine Value
machine = record {
  identity = λ target runtime w. (err refusal, w);
  checks = λ target checks w. (ok tt, w);
  render = λ w. (ok tt, w);
  command = λ c w. (ok (arr nil), w);
  plan_digest = λ w. (ok "digest", w);
  repository = λ w. (ok null, w);
  hosts = λ w. (ok (obj end), w);
  publish = λ hosts w. (ok "digest", w);
  write = λ r w. (ok tt, r);
  receipts = [];
  texts = record { dumps = λ v. ""; sha256 = λ v. ""; show = λ v. "" };
  addresses = record { address = λ v. none; interface = λ s. none; show = λ v. "" };
}

abbrev account : Stage
account = record {
  context = obj end;
  action = "apply";
  target = obj end;
  name = "account";
  spec = mapping (("mode", str "terraform") ∷ []);
  owners = "module.account" ∷ [];
}

abbrev started : Value
started = mapping (("result", str "failed") ∷ ("verification", obj end) ∷ [])

abbrev failed : Value
failed = put "result" (str "failed") started

is_refused : run_stage machine account started null ≡ (err refusal, failed)
unfolding run_stage perform find set
is_refused = refl

abbrev stateful : Stage
stateful = record account {
  spec = mapping (("mode", str "terraform") ∷ ("state", mapping []) ∷ []);
}

abbrev end_of : Result (Unit {0}) × (Value × Value) → Value × Value
end_of (r, last) = last

abbrev finished : Value × Value
finished = end_of (run_terraform machine stateful (started, null))

is_converged : run_terraform machine stateful (started, null) ≡ (ok tt, finished)
unfolding run_terraform initialize isolate_if plan_stage bootstrap_repository guard_plan
    guard_changes finish converge find set
is_converged = refl

run_stage-FailsClosed_example : FailsClosed machine refusal failed
run_stage-FailsClosed_example =
    run_stage-FailsClosed machine account started null failed refusal is_refused

run_terraform-IsConverged_example :
    (digest : String) × (kept : Resources × Value) × (planned : Value × Value) × IsGuarded machine
      stateful digest planned
    × IsConverged machine stateful digest kept planned finished
run_terraform-IsConverged_example =
    run_terraform-IsConverged machine stateful (started, null) finished refl is_converged
