-- ===== src/Dns/Apply.antt =====
-- `apply` of scripts/pipeline/dns-reconcile.py.
pub mod Laws
use iac_modules.Common.{
  String, Bool, true, false, not, ◌&&◌, ◌==◌, Option, none, some, List, [], ◌∷◌, if◌then◌else◌,
}
use iac_modules.Json.{Value, null, get, eq, is_null}
use iac_modules.Dns.Record.{Ipv4, identity}
use iac_modules.Dns.Host.{Step, ◌>>=◌, ◌>>◌, lift, return, check, Host, create, update}
use iac_modules.Dns.Plan.{bind_zone, current, id_of}
use iac_modules.Dns.Validate.{validate_plan}
use iac_modules.Dns.Checkpoint.{State, written, configured, optional_state, receipt}

abbrev is_restored : Option State → Bool
is_restored none = false
is_restored (some s) = s.phase == "restored"

module _ {W : Type 0} (host : Host W) (ip : Ipv4) where
  -- The state to go on from: the checkpoint's, or a new one, which is saved.
  unfoldable pub begin : Value → Value → Option State → Step W State
  begin plan observed (some s) = return s
  begin plan observed none = do
    check (eq observed (get "before" plan)) "DNS changed after planning"
    let s : State = record { record_id = id_of observed; phase = "prepared" }
    host.save (written plan s)
    return s

  -- A record is made where there is none.
  unfoldable pub make_record : Value → Value → State → Step W State
  make_record plan spec s = do
    check (is_null s.record_id) "Created record disappeared; refusing another create"
    result ← create host (get "zone_id" spec) (get "desired" plan)
    id ← lift (identity (get "id" result))
    let made : State = record { record_id = id; phase = s.phase }
    host.save (written plan made)
    return made

  -- The one change of the provider that the plan allows.
  unfoldable pub reconcile : Value → Value → State → Value → Step W State
  reconcile plan spec s observed =
      if eq observed (get "before" plan)
      then (if is_null observed
          then make_record plan spec s
          else if not (eq (get "record" observed) (get "desired" plan))
          then (do
            updated ← update host (get "zone_id" spec) (get "id" observed) (get "desired" plan)
            return s)
          else return s)
      else (do
        check
            (not (is_null s.record_id) && eq observed (configured s.record_id (get "desired" plan)))
            "DNS changed or create outcome is uncertain"
        return s)

  -- The readback, the wait for the resolvers, and the readback after it.
  unfoldable pub verify : Value → Value → State → Step W (Unit {0})
  verify plan spec s = do
    let expected = configured s.record_id (get "desired" plan)
    seen ← current host ip spec
    check (eq seen expected) "Provider readback mismatch; checkpoint retained"
    host.save (written plan (record { record_id = s.record_id; phase = "applied" }))
    let wanted = get "record" spec
    converged ← host.converges (get "name" wanted) (get "content" wanted)
    check converged "Resolver convergence failed; checkpoint retained"
    last ← current host ip spec
    check (eq last expected) "DNS changed during resolver wait"
    host.save (written plan (record { record_id = s.record_id; phase = "verified" }))

  unfoldable pub apply : Value → Step W Value
  apply plan = do
    spec ← lift (validate_plan ip plan)
    bind_zone host spec
    host.lock
    loaded ← host.load
    known ← lift (optional_state plan loaded)
    check (not (is_restored known)) "Use a new operation after restore"
    observed ← current host ip spec
    begun ← begin plan observed known
    s ← reconcile plan spec begun observed
    verify plan spec s
    let changed = not (eq (get "before" plan) (configured s.record_id (get "desired" plan)))
    return (receipt spec "apply" changed s.record_id true)
