-- ===== src/Dns/Apply/Laws.antt =====
-- On `apply` of scripts/pipeline/dns-reconcile.py.
use iac_modules.Common.{
  ◌≡◌, refl, ap, subst, Bool, true, false, not, ◌&&◌, ◌⊎◌, inl, inr, Bool-cases, Result, ok,
}
use iac_modules.Json.{Value, get, eq, is_null}
use iac_modules.Dns.Record.{Ipv4}
use iac_modules.Dns.Host.{Host}
use iac_modules.Common.Steps.{>>=-Went, check-passed, lift-passed}
use iac_modules.Dns.Plan.{bind_zone, current}
use iac_modules.Dns.Validate.{validate_plan}
use iac_modules.Dns.Checkpoint.{State, written, configured, optional_state}
use iac_modules.Dns.Apply.{is_restored, begin, make_record, reconcile, verify, apply}

module _ {W : Type 0} (host : Host W) (ip : Ipv4) where
  drifted-idle :
      (plan spec : Value) (s : State) (observed : Value) (w : W)
      → eq observed (get "before" plan) ≡ false
      → (reconcile host ip plan spec s observed w).1 ≡ w
  unfolding reconcile
  drifted-idle plan spec s observed w other = elim (Bool-cases resumed) [
    | inl same ↦ rw other (rw same refl)
    | inr drifted ↦ rw other (rw drifted refl)
  ]
    where
      resumed : Bool
      resumed =
          not (is_null s.record_id) && eq observed (configured s.record_id (get "desired" plan))

  -- Nothing is sent to the provider and no checkpoint is written where something else stands than
  -- what the plan found, and where a record is gone whose creation the checkpoint holds: a run that
  -- is repeated neither overwrites a foreign change nor creates a second record.
  pub reconcile-idle :
      (plan spec : Value) (s : State) (observed : Value) (w : W)
      → (eq observed (get "before" plan) ≡ false)
        ⊎ ((is_null s.record_id ≡ false) × (is_null observed ≡ true))
      → (reconcile host ip plan spec s observed w).1 ≡ w
  unfolding reconcile make_record
  reconcile-idle plan spec s observed w (inl other) = drifted-idle plan spec s observed w other
  reconcile-idle plan spec s observed w (inr (made, gone)) =
      elim (Bool-cases (eq observed (get "before" plan))) [
        | inl same ↦ rw same (rw gone (rw made refl))
        | inr other ↦ drifted-idle plan spec s observed w other
      ]

  -- What the last readback and the last write of a successful run were.
  pub record IsVerified (plan : Value) (end : W) : Type 0 where
    pub spec : Value
    pub valid : validate_plan ip plan ≡ ok spec
    pub record_id : Value
    pub asked : W
    pub readback : W
    pub answered :
        host.converges (get "name" (get "record" spec)) (get "content" (get "record" spec)) asked
        ≡ (ok true, readback)
    pub between : W
    pub last : Value
    pub read : current host ip spec readback ≡ (ok last, between)
    pub same : eq last (configured record_id (get "desired" plan)) ≡ true
    pub saved :
        host.save (written plan (record { record_id = record_id; phase = "verified" })) between
        ≡ (ok tt, end)

  verify-last :
      (plan spec : Value) (s : State) (w end : W)
      → validate_plan ip plan ≡ ok spec
      → verify host ip plan spec s w ≡ (ok tt, end)
      → IsVerified plan end
  unfolding verify
  verify-last plan spec s w end valid h =
      let expected = configured s.record_id (get "desired" plan) in
      let first = >>=-Went (current host ip spec) _ w h in
      let (_, h1) = check-passed (eq first.value expected) _ _ first.mid first.rest in
      let saved =
        >>=-Went (host.save (written plan (record { record_id = s.record_id; phase = "applied" })))
          _ first.mid h1 in
      let wanted = get "record" spec in
      let waited =
        >>=-Went (host.converges (get "name" wanted) (get "content" wanted)) _ saved.mid
          saved.rest in
      let (reached, h2) = check-passed waited.value _ _ waited.mid waited.rest in
      let again = >>=-Went (current host ip spec) _ waited.mid h2 in
      let (same, h3) = check-passed (eq again.value expected) _ _ again.mid again.rest in
      record {
        spec = spec;
        valid = valid;
        record_id = s.record_id;
        asked = saved.mid;
        readback = waited.mid;
        answered =
            subst
              (λ b.
                host.converges (get "name" wanted) (get "content" wanted) saved.mid
                ≡ (ok b, waited.mid))
              reached waited.first;
        between = again.mid;
        last = again.value;
        read = again.first;
        same = same;
        saved = h3;
      }

  -- A run that reports success has waited until the resolvers answered with the address of its
  -- record. Right after that it has read the record back from the provider, found exactly the desired
  -- record under the identity of its checkpoint, and then wrote the phase `verified` as its last act.
  pub apply-IsVerified :
      (plan result : Value) (w end : W)
      → apply host ip plan w ≡ (ok result, end)
      → IsVerified plan end
  unfolding apply
  apply-IsVerified plan result w end h =
      let (spec, valid, h1) = lift-passed (validate_plan ip plan) _ w h in
      let bound = >>=-Went (bind_zone host spec) _ w h1 in
      let locked = >>=-Went host.lock _ bound.mid bound.rest in
      let loaded = >>=-Went host.load _ locked.mid locked.rest in
      let (known, _, h2) =
        lift-passed (optional_state plan loaded.value) _ loaded.mid loaded.rest in
      let (_, h3) = check-passed (not (is_restored known)) _ _ loaded.mid h2 in
      let seen = >>=-Went (current host ip spec) _ loaded.mid h3 in
      let begun = >>=-Went (begin host ip plan seen.value known) _ seen.mid seen.rest in
      let acted =
        >>=-Went (reconcile host ip plan spec begun.value seen.value) _ begun.mid begun.rest in
      let verified = >>=-Went (verify host ip plan spec acted.value) _ acted.mid acted.rest in
      let same : verified.mid ≡ end = ap (λ (r : Result Value × W). r.1) verified.rest in
      subst (IsVerified plan) same
        (verify-last plan spec acted.value acted.mid verified.mid valid verified.first)
