-- ===== src/Dns/Restore.antt =====
-- `restore` of scripts/pipeline/dns-reconcile.py.
pub mod Laws
use iac_modules.Common.{
  String, Bool, true, false, not, ◌&&◌, Option, none, some, List, [], ◌∷◌, if◌then◌else◌,
}
use iac_modules.Json.{Value, get, eq, is_null, truthy}
use iac_modules.Dns.Record.{Ipv4}
use iac_modules.Dns.Host.{Step, ◌>>=◌, ◌>>◌, lift, return, check, Host, delete, update}
use iac_modules.Dns.Plan.{bind_zone, current}
use iac_modules.Dns.Validate.{validate_plan}
use iac_modules.Dns.Checkpoint.{State, written, configured, required_state, receipt}

-- The prior record is one that resolvers answer with.
abbrev pub is_direct : Value → Bool
is_direct before = not (is_null before) && not (truthy (get "proxied" (get "record" before)))

module _ {W : Type 0} (host : Host W) (ip : Ipv4) where
  -- The one change of the provider that undoes the plan.
  unfoldable pub undo : Value → Value → State → Value → Step W (Unit {0})
  undo plan spec s observed =
      let before = get "before" plan in
      if eq observed before then return tt else (do
        check
            (not (is_null s.record_id) && eq observed (configured s.record_id (get "desired" plan)))
            "Refusing recovery after concurrent/uncertain change"
        if is_null before then delete host (get "zone_id" spec) s.record_id else (do
          updated ← update host (get "zone_id" spec) s.record_id (get "record" before)
          return tt))

  unfoldable pub await_direct : Value → Value → Step W (Unit {0})
  await_direct spec before =
      if is_direct before
      then (do
        let name = get "name" (get "record" spec)
        converged ← host.converges name (get "content" (get "record" before))
        check converged "Recovered at provider; resolver recovery remains pending")
      else return tt

  unfoldable pub confirm : Value → Value → State → Step W (Unit {0})
  confirm plan spec s = do
    let before = get "before" plan
    seen ← current host ip spec
    check (eq seen before) "Recovery readback mismatch"
    await_direct spec before
    host.save (written plan (record { record_id = s.record_id; phase = "restored" }))

  unfoldable pub restore : Value → Step W Value
  restore plan = do
    spec ← lift (validate_plan ip plan)
    bind_zone host spec
    host.lock
    loaded ← host.load
    s ← lift (required_state plan loaded)
    observed ← current host ip spec
    undo plan spec s observed
    confirm plan spec s
    let before = get "before" plan
    return (receipt spec "restore" (not (eq observed before)) s.record_id (is_direct before))
