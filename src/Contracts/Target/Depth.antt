-- ===== src/Contracts/Target/Depth.antt =====
-- On the rounds in which `validate_target`, of scripts/pipeline/unified/contracts.py, follows
-- the source of a validation target.
use iac_modules.Common.{
  String, ◌≡◌, subst, ap, true, false, ◌&&◌, List, require, ok, Result, ◌>>=◌, ◌>>◌, inl, inr,
  Bool-cases, >>=-eq-ok, >>-eq-ok, require-eq-ok, >>=-congruent, ok-injective, not-eq-true,
  and-eq-true, if◌then◌else◌,
}
use iac_modules.Json.{
  find, Value, null, bool, int, str, arr, obj, end, field, get, is_null, items, is_mapping, is_text,
  truthy,
}
use iac_modules.Contracts.Checkout.{Checkout, source_file}
use iac_modules.Contracts.Target.{check_target}
use iac_modules.Contracts.Target.Stage.{first_member}
use iac_modules.Contracts.Target.Candidate.{
  validate_candidate, serving_source, only_serving, bind_candidate,
}

pub falsy_mode :
    (v : Value) → truthy v ≡ false → (is_mapping v && is_text "cleanroom" (get "mode" v)) ≡ true → ⊥
unfolding find
falsy_mode (obj end) h e = cc
falsy_mode (obj (field k v fs)) h e = cc
falsy_mode null h e = cc
falsy_mode (bool b) h e = cc
falsy_mode (int n) h e = cc
falsy_mode (str s) h e = cc
falsy_mode (arr vs) h e = cc

-- A candidate whose `validation` is falsy is refused, however sources are validated.
pub falsy_candidate :
    (v w : Value → Result Value) (root : Checkout) (t : Value)
    → truthy (get "validation" t) ≡ false
    → validate_candidate v root t ≡ validate_candidate w root t
unfolding validate_candidate
falsy_candidate v w root t h =
    elim (Bool-cases
      (is_mapping (get "validation" t) && is_text "cleanroom" (get "mode" (get "validation" t)))) [
        | inl e ↦ absurd (falsy_mode (get "validation" t) h e)
        | inr e ↦ rw (e)
      ]

pub only_serving-unvalidated :
    (matches : List Value) {source : Value}
    → only_serving matches ≡ ok source
    → truthy (get "validation" source) ≡ false
unfolding only_serving
only_serving-unvalidated matches {source} h =
    let (alone, same) = require-eq-ok _ _ _ h in
    let e : first_member (arr (items matches)) ≡ source = ok-injective same in
    rw (← e) (not-eq-true _ (and-eq-true _ _ alone).1)

pub serving_source-unvalidated :
    (root : Checkout) (validation : Value) {found : String × Value}
    → serving_source root validation ≡ ok found
    → truthy (get "validation" found.1) ≡ false
unfolding serving_source
serving_source-unvalidated root validation {found} h =
    let (path, _, h1) = >>=-eq-ok (source_file root (get "source_manifest" validation)) _ h in
    let (_, h2) = require-eq-ok _ _ _ h1 in
    let (_, h3) = >>-eq-ok _ _ h2 in
    let (source, alone, h4) = >>=-eq-ok (only_serving _) _ h3 in
    let e : ◌≡◌ {A = String × Value} (path, source) found = ok-injective h4 in
    subst (λ p. truthy (get "validation" p.1) ≡ false) e (only_serving-unvalidated _ alone)

-- One round of `validate_target`, in which another validator is asked about the source.
abbrev pub follow : Checkout → (Value → Result Value) → Value → Result Value
follow root v t = do
  check_target root t
  if is_null (get "validation" t) then ok t else validate_candidate v root t

-- The validator calls itself on the source, as the code does.
abbrev pub Recurs : Checkout → (Value → Result Value) → Type 0
Recurs root v = (t : Value) → v t ≡ follow root v t

-- A target with no validation of its own is validated alike, whatever is asked about its source.
pub shallow :
    (root : Checkout) (v w : Value → Result Value) (t : Value)
    → truthy (get "validation" t) ≡ false
    → follow root v t ≡ follow root w t
shallow root v w t h =
    >>=-congruent (check_target root t) _ _ λ _ _.
      ap (λ c. if is_null (get "validation" t) then ok t else c) (falsy_candidate v w root t h)

-- Only sources are asked about, and those have no validation of their own.
pub candidate_agrees :
    (root : Checkout) (v w : Value → Result Value) (t : Value)
    → ((source : Value) → truthy (get "validation" source) ≡ false → v source ≡ w source)
    → validate_candidate v root t ≡ validate_candidate w root t
unfolding validate_candidate
candidate_agrees root v w t same =
    let validation = get "validation" t in
    >>=-congruent
      (require (is_mapping validation && is_text "cleanroom" (get "mode" validation))
        "unknown validation mode")
      _ _
      λ _ _.
        >>=-congruent
          (require (is_text "akamai-cloud" (get "provider" t))
            "validation compute cleanup currently supports Akamai only")
          _ _
          λ _ _. >>=-congruent (serving_source root validation) _ _ λ found e.
            ap (λ (r : Result Value). r >>= bind_candidate root t validation found.0)
              (same found.1 (serving_source-unvalidated root validation e))

pub follow_agrees :
    (root : Checkout) (v w : Value → Result Value) (t : Value)
    → ((source : Value) → truthy (get "validation" source) ≡ false → v source ≡ w source)
    → follow root v t ≡ follow root w t
follow_agrees root v w t same = >>=-congruent (check_target root t) _ _ λ _ _.
    ap (λ c. if is_null (get "validation" t) then ok t else c) (candidate_agrees root v w t same)
