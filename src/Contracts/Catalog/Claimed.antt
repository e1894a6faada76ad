-- ===== src/Contracts/Catalog/Claimed.antt =====
-- What `load_targets`, of scripts/pipeline/unified/contracts.py, claims for one target.
use iac_modules.Common.{
  String, ◌≡◌, sym, ap, subst, ◌∙◌, not, List, [], ◌∷◌, ◌++◌, member, Distinct, Distinct-append,
  arith, Bool-cases, inl, inr, ok, require, ◌>>=◌, ◌>>◌, >>=-eq-ok, require-eq-ok, ok-injective,
  not-eq-true, if◌then◌else◌, append-nil, list_append_assoc,
}
use iac_modules.Json.{Value, get, values, fields, text_value, as_text}
use iac_modules.Contracts.Checkout.{Checkout}
use iac_modules.Contracts.Target.{validate_target}
use iac_modules.Contracts.Catalog.{
  Claims, is_managed_stage, claim_stage, claim_stages, claim_target, migration_key,
}

-- The keys of the stages that Terraform runs.
abbrev pub stage_keys : List Value → List String
stage_keys [] = []
stage_keys (spec ∷ rest) =
    let later = stage_keys rest in
    if is_managed_stage spec then text_value (get "key" (get "state" spec)) ∷ later else later

-- All state keys of a list of targets.
abbrev pub state_keys : List Value → List String
state_keys [] = []
state_keys (t ∷ ts) = stage_keys (values (fields (get "stages" t))) ++ state_keys ts

abbrev pub target_ids : List Value → List String
target_ids [] = []
target_ids (t ∷ ts) = text_value (get "id" t) ∷ target_ids ts

abbrev pub migration_keys : List Value → List String
migration_keys [] = []
migration_keys (m ∷ ms) = migration_key m ∷ migration_keys ms

pub as_text-value : (v : Value) {s : String} → as_text v ≡ ok s → text_value v ≡ s
as_text-value v h = ground arith

-- A claim that succeeded took a new text and put it at the end.
pub claimed :
    (v : Value) (keys : List String) (message : String) {taken : List String}
    → (do key ← as_text v; require (not (member key keys)) message; ok (keys ++ key ∷ []))
      ≡ ok taken
    → Distinct keys
    → Distinct taken × (taken ≡ keys ++ text_value v ∷ [])
claimed v keys message {taken} h d =
    let (key, is_key, h1) = >>=-eq-ok (as_text v) _ h in
    let (new, h2) = require-eq-ok _ _ _ h1 in
    let same : keys ++ key ∷ [] ≡ taken = ok-injective h2 in
    (
      subst Distinct same (Distinct-append keys key d (not-eq-true _ new)),
      sym same ∙ ap (λ k. keys ++ k ∷ []) (sym (as_text-value v is_key)),
    )

pub claim_stage-grows :
    (spec : Value) (keys : List String) {taken : List String}
    → claim_stage spec keys ≡ ok taken
    → Distinct keys
    → Distinct taken × (taken ≡ keys ++ stage_keys (spec ∷ []))
unfolding claim_stage
claim_stage-grows spec keys {taken} h d = elim (Bool-cases (is_managed_stage spec)) [
  | inl managed ↦
      rw managed (
        claimed (get "key" (get "state" spec)) keys "duplicate state ownership" (rw managed at h) d)
  | inr skipped ↦
      let same : keys ≡ taken = ok-injective (rw skipped at h) in
      rw skipped (subst Distinct same d, sym same ∙ sym (append-nil keys))
]

pub stage_keys-append :
    (spec : Value) (rest : List Value)
    → stage_keys (spec ∷ []) ++ stage_keys rest ≡ stage_keys (spec ∷ rest)
stage_keys-append spec rest = ground arith

pub claim_stages-grow :
    (specs : List Value) (keys : List String) {taken : List String}
    → claim_stages specs keys ≡ ok taken
    → Distinct keys
    → Distinct taken × (taken ≡ keys ++ stage_keys specs)
unfolding claim_stages
claim_stages-grow [] keys h d =
    let same = ok-injective h in (subst Distinct same d, sym same ∙ sym (append-nil keys))
claim_stages-grow (spec ∷ rest) keys h d =
    let (mid, first, h1) = >>=-eq-ok (claim_stage spec keys) _ h in
    let (d1, e1) = claim_stage-grows spec keys first d in
    let (d2, e2) = claim_stages-grow rest mid h1 d1 in
    (
      d2,
      e2
          ∙ ap (λ k. k ++ stage_keys rest) e1
          ∙ list_append_assoc keys _ _
          ∙ ap (λ k. keys ++ k) (stage_keys-append spec rest),
    )

-- Both lists of claims hold no text twice.
pub record IsExclusive (claims : Claims) : Type 0 where
  pub ids : Distinct claims.ids
  pub keys : Distinct claims.keys

pub claim_target-grows :
    (root : Checkout) (t : Value) (claims : Claims) {valid : Value} {taken : Claims}
    → claim_target root t claims ≡ ok (valid, taken)
    → IsExclusive claims
    → IsExclusive taken
      × (taken.ids ≡ claims.ids ++ target_ids (valid ∷ []))
      × (taken.keys ≡ claims.keys ++ state_keys (valid ∷ []))
      × (validate_target root t ≡ ok valid)
unfolding claim_target
claim_target-grows root t claims {valid} {taken} h d =
    let (v, is_valid, h1) = >>=-eq-ok (validate_target root t) _ h in
    let (id, is_id, h2) = >>=-eq-ok (as_text (get "id" v)) _ h1 in
    let (new, h3) = require-eq-ok _ _ _ h2 in
    let (keys, is_keys, h4) =
      >>=-eq-ok (claim_stages (values (fields (get "stages" v))) claims.keys) _ h3 in
    let (dk, ek) = claim_stages-grow _ _ is_keys d.keys in
    let done : ◌≡◌ {A = Value × Claims} (v, record { ids = claims.ids ++ id ∷ []; keys = keys })
        (valid, taken) =
      ok-injective h4 in
    subst
      (λ (r : Value × Claims).
        IsExclusive r.1
        × (r.1.ids ≡ claims.ids ++ target_ids (r.0 ∷ []))
        × (r.1.keys ≡ claims.keys ++ state_keys (r.0 ∷ []))
        × (validate_target root t ≡ ok r.0))
      done
      (
        record { ids = Distinct-append claims.ids id d.ids (not-eq-true _ new); keys = dk },
        ap (λ i. claims.ids ++ i ∷ []) (sym (as_text-value _ is_id)),
        ek ∙ ap (λ k. claims.keys ++ k) (sym (append-nil _)),
        is_valid,
      )
