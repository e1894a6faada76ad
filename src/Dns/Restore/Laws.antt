-- ===== src/Dns/Restore/Laws.antt =====
-- On `restore` of scripts/pipeline/dns-reconcile.py.
use iac_modules.Common.{◌≡◌, refl, ap, subst, true, false, Bool-cases, inl, inr, ◌⊎◌, Result, ok}
use iac_modules.Json.{Value, get, eq, is_null}
use iac_modules.Dns.Record.{Ipv4}
use iac_modules.Dns.Host.{Host}
use iac_modules.Common.Steps.{>>=-Went, check-passed, lift-passed}
use iac_modules.Dns.Plan.{bind_zone, current}
use iac_modules.Dns.Validate.{validate_plan}
use iac_modules.Dns.Checkpoint.{State, written, configured, required_state}
use iac_modules.Dns.Restore.{undo, await_direct, confirm, restore}

module _ {W : Type 0} (host : Host W) (ip : Ipv4) where
  -- Nothing is sent to the provider where the prior record stands already, and where something
  -- stands that is neither it nor the record that this operation left.
  pub undo-idle :
      (plan spec : Value) (s : State) (observed : Value) (w : W)
      → (eq observed (get "before" plan) ≡ true)
        ⊎ (eq observed (configured s.record_id (get "desired" plan)) ≡ false)
      → (undo host ip plan spec s observed w).1 ≡ w
  unfolding undo
  undo-idle plan spec s observed w (inl there) = rw there refl
  undo-idle plan spec s observed w (inr foreign) =
      elim (Bool-cases (eq observed (get "before" plan))) [
        | inl there ↦ rw there refl
        | inr other ↦ elim (Bool-cases (is_null s.record_id)) [
          | inl none ↦ rw other (rw none refl)
          | inr some ↦ rw other (rw some (rw foreign refl))
        ]
      ]

  -- The last readback of a successful restore, and its last write.
  pub record IsRestored (plan : Value) (end : W) : Type 0 where
    pub spec : Value
    pub valid : validate_plan ip plan ≡ ok spec
    pub record_id : Value
    pub start : W
    pub mid : W
    pub between : W
    pub last : Value
    pub read : current host ip spec start ≡ (ok last, mid)
    pub same : eq last (get "before" plan) ≡ true
    pub awaited : await_direct host ip spec (get "before" plan) mid ≡ (ok tt, between)
    pub saved :
        host.save (written plan (record { record_id = record_id; phase = "restored" })) between
        ≡ (ok tt, end)

  confirm-last :
      (plan spec : Value) (s : State) (w end : W)
      → validate_plan ip plan ≡ ok spec
      → confirm host ip plan spec s w ≡ (ok tt, end)
      → IsRestored plan end
  unfolding confirm
  confirm-last plan spec s w end valid h =
      let seen = >>=-Went (current host ip spec) _ w h in
      let (same, h1) = check-passed (eq seen.value (get "before" plan)) _ _ seen.mid seen.rest in
      let waited = >>=-Went (await_direct host ip spec (get "before" plan)) _ seen.mid h1 in
      record {
        spec = spec;
        valid = valid;
        record_id = s.record_id;
        start = w;
        mid = seen.mid;
        between = waited.mid;
        last = seen.value;
        read = seen.first;
        same = same;
        awaited = waited.first;
        saved = waited.rest;
      }

  -- A restore that reports success has read the record back from the provider and found exactly what
  -- the plan had found, waited for the resolvers where they answer with it, and then wrote the phase
  -- `restored` as its last act.
  pub restore-IsRestored :
      (plan result : Value) (w end : W)
      → restore host ip plan w ≡ (ok result, end)
      → IsRestored plan end
  unfolding restore
  restore-IsRestored plan result w end h =
      let (spec, valid, h1) = lift-passed (validate_plan ip plan) _ w h in
      let bound = >>=-Went (bind_zone host spec) _ w h1 in
      let locked = >>=-Went host.lock _ bound.mid bound.rest in
      let loaded = >>=-Went host.load _ locked.mid locked.rest in
      let (s, _, h2) = lift-passed (required_state plan loaded.value) _ loaded.mid loaded.rest in
      let seen = >>=-Went (current host ip spec) _ loaded.mid h2 in
      let undone = >>=-Went (undo host ip plan spec s seen.value) _ seen.mid seen.rest in
      let confirmed = >>=-Went (confirm host ip plan spec s) _ undone.mid undone.rest in
      let same : confirmed.mid ≡ end = ap (λ (r : Result Value × W). r.1) confirmed.rest in
      subst (IsRestored plan) same
        (confirm-last plan spec s undone.mid confirmed.mid valid confirmed.first)
