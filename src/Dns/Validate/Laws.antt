-- ===== src/Dns/Validate/Laws.antt =====
-- On `validate_plan` of scripts/pipeline/dns-reconcile.py, after `make_plan`.
use iac_modules.Common.{
  ◌≡◌, refl, sym, ap, subst, true, false, not, inl, inr, [], ◌∷◌, Bool-cases, arith, Result, ok,
  when,
}
use iac_modules.Common.Steps.{>>=-Went, check-passed, lift-passed}
use iac_modules.Json.{pos, int, Value, null, mapping, get, find, put, set, eq, is_null, members}
use iac_modules.Json.Laws.{IsPlain, eq_refl, get-IsPlain}
use iac_modules.Dns.Record.{Ipv4, intent, snapshot, keeps_owner}
use iac_modules.Dns.Record.Laws.{IsConfigured, snapshot-IsConfigured}
use iac_modules.Dns.Host.{Host, records}
use iac_modules.Dns.Plan.{id_of, single, bind_zone, current, make_plan, desired_record}
use iac_modules.Dns.Validate.{check_before, validate_plan}

intent_same : (ip : Ipv4) (v : Value) {spec : Value} → intent ip v ≡ ok spec → v ≡ spec
unfolding intent
intent_same ip v h = ground arith

-- A prior record that `current` found passes the check of a plan.
configured-passes :
    (ip : Ipv4) (spec one : Value) {found : Value}
    → IsConfigured ip one found
    → eq (get "name" one) (get "name" (get "record" spec)) ≡ true
    → keeps_owner spec (get "record" found) ≡ true
    → IsPlain found
    → (is_null found ≡ false) × (check_before ip spec found ≡ ok tt)
unfolding check_before find set
configured-passes ip spec one c named owned plain =
    subst
      (λ f.
        keeps_owner spec (get "record" f) ≡ true
        → IsPlain f
        → snapshot ip (put "id" c.id c.kept) ≡ ok f
        → (is_null f ≡ false) × (check_before ip spec f ≡ ok tt))
      c.made
      (λ owns is_plain again.
        (refl, rw again (rw (eq_refl _ is_plain) (rw c.name (rw named (rw owns refl))))))
      owned plain c.again

ap-ok : {W A : Type 0} {a b : A} {v w : W} → ◌≡◌ {A = Result A × W} (ok a, v) (ok b, w) → a ≡ b
ap-ok h = cc

module _ {W : Type 0} (host : Host W) (ip : Ipv4) where
  current-passes :
      (spec : Value) (w : W) {before : Value} {end : W}
      → current host ip spec w ≡ (ok before, end)
      → IsPlain before
      → when (not (is_null before)) (check_before ip spec before) ≡ ok tt
  unfolding current
  current-passes spec w {before} {end} h plain =
      let name = get "name" (get "record" spec) in
      let found = >>=-Went (records host (get "zone_id" spec) name) _ w h in
      let (one, _, h1) = lift-passed (single (members found.value)) _ found.mid found.rest in
      elim (Bool-cases (is_null one)) [
        | inl none_ ↦ let same : null ≡ before = ap-ok (rw none_ at h1) in rw (← same) refl
        | inr there ↦
            let (named, h2) =
              check-passed (eq (get "name" one) name) _ _ found.mid (rw there at h1) in
            let (configured, seen, h3) = lift-passed (snapshot ip one) _ found.mid h2 in
            let (owned, h4) =
              check-passed (keeps_owner spec (get "record" configured)) _ _ found.mid h3 in
            let same : configured ≡ before = ap-ok h4 in
            let (not_null, passes) =
              configured-passes ip spec one (snapshot-IsConfigured ip one there (rw same at seen))
                named (rw same at owned) plain in
            rw not_null passes
      ]

  -- A plan that `make_plan` writes is one that `validate_plan` accepts, with the intent it was made
  -- for, as long as no mapping in it holds a key twice, as in every Python dict.
  pub validate_plan-make_plan :
      (given plan : Value) (w end : W)
      → make_plan host ip given w ≡ (ok plan, end)
      → IsPlain plan
      → validate_plan ip plan ≡ ok given
  unfolding make_plan validate_plan find eq
  validate_plan-make_plan given plan w end h plain =
      let (spec, is_spec, h1) = lift-passed (intent ip given) _ w h in
      let bound = >>=-Went (bind_zone host spec) _ w h1 in
      let seen = >>=-Went (current host ip spec) _ bound.mid bound.rest in
      let before = seen.value in
      let (known, h2) =
        check-passed (eq (id_of before) (get "expected_record_id" spec)) _ _ seen.mid seen.rest in
      let made : mapping (
            ("version", int (pos 1))
            ∷ ("intent", spec)
            ∷ ("before", before)
            ∷ ("desired", desired_record spec before)
            ∷ [])
          ≡ plan =
        ap-ok h2 in
      let same = intent_same ip given is_spec in
      subst (λ p. IsPlain p → validate_plan ip p ≡ ok given) made
        (λ is_plain.
          let passes = current-passes spec bound.mid seen.first (get-IsPlain "before" _ is_plain) in
          let fixed : intent ip spec ≡ ok spec = rw same at is_spec in
          rw fixed (
            rw passes
              (rw known (rw (eq_refl _ (get-IsPlain "desired" _ is_plain)) (ap ok (sym same))))))
        plain
