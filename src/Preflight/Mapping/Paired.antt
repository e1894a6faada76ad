-- ===== src/Preflight/Mapping/Paired.antt =====
-- On the mapping of the legacy state that `build_report`, of scripts/akamai_state_preflight.py, makes.
mod Tests
use iac_modules.Common.{
  ℕ, zero, suc, ◌+◌, ◌≤◌, String, ◌≡◌, refl, sym, ap, subst, ◌∙◌, Bool, true, false, not, ◌&&◌, ◌⊎◌,
  inl, inr, Option, none, some, List, [], ◌∷◌, ◌++◌, All, eqb, leb, length, arith, Bool-cases,
  Option-cases, and-eq-true, Result, ok, ok-injective, >>=-eq-ok, if◌then◌else◌, ◌||◌,
  some-injective,
}
use iac_modules.Json.{Value, at, get, truthy, eq}
use iac_modules.Preflight.Mapping.{
  Candidate, Standing, one_to_one, mismatched, duplicate, unmapped, identity_of, same_identity,
  count_identity, is_complete, is_misplaced, paired, standing_of, map_resource, map_resources,
  is_one_to_one, is_mismatched, is_duplicate, is_unmapped, count_such, standing_fields,
  label_fields,
}

-- A resource of the legacy state and its only counterpart in the states of the namespaces.
pub record IsPaired (expectations legacy : List Value) (targets : List Candidate) (resource : Value)
    : Type 0 where
  pub target : Candidate
  pub only : same_identity (identity_of resource) targets ≡ target ∷ []
  pub once : count_identity (identity_of resource) legacy ≡ 1
  pub complete : is_complete resource ≡ true
  pub target_complete : is_complete target.resource ≡ true
  pub in_place : is_misplaced expectations resource target ≡ false

paired-eq-some :
    (resource : Value) (ts : List Candidate) (n : ℕ) {t : Candidate}
    → paired resource ts n ≡ some t
    → (ts ≡ t ∷ []) × (is_complete resource ≡ true) × (is_complete t.resource ≡ true) × (n ≡ 1)
paired-eq-some resource [] n h = absurd (cc)
paired-eq-some resource (u ∷ v ∷ ts) n h = absurd (cc)
paired-eq-some resource (u ∷ []) n {t} h =
    elim (Bool-cases (is_complete resource && (is_complete u.resource && eqb n 1))) [
      | inl both ↦
          let same : u ≡ t = some-injective (rw both at h) in
          let (complete, others) = and-eq-true _ _ both in
          let (target, once) = and-eq-true _ _ others in
          (
            ap (λ a. a ∷ []) same,
            complete,
            subst (λ (a : Candidate). is_complete a.resource ≡ true) same target,
            ground arith,
          )
      | inr fails ↦ absurd (let e = rw fails at h in cc)
    ]

module _ (expectations legacy : List Value) (targets : List Candidate) where
  standing_of-IsPaired :
      (resource : Value)
      → is_one_to_one (standing_of expectations legacy targets resource) ≡ true
      → IsPaired expectations legacy targets resource
  unfolding standing_of
  standing_of-IsPaired resource h =
      let matches = same_identity (identity_of resource) targets in
      let count = count_identity (identity_of resource) legacy in
      elim (Option-cases (paired resource matches count)) [
        | inl none_ ↦
            absurd (not_one (leb 2 (length matches) || leb 2 count) (rw (none_, standing_of) at h))
        | inr (t, is_t) ↦ elim (Bool-cases (is_misplaced expectations resource t)) [
          | inl away ↦ absurd (let e = rw (is_t, away, standing_of) at h in cc)
          | inr in_place ↦
              let (only, complete, target, once) = paired-eq-some resource matches count is_t in
              record {
                target = t;
                only = only;
                once = once;
                complete = complete;
                target_complete = target;
                in_place = in_place;
              }
        ]
      ]
    where
      not_one : (b : Bool) → is_one_to_one (if b then duplicate else unmapped) ≡ true → ⊥
      not_one true e = cc
      not_one false e = cc

  map_resource-stands :
      (resource : Value) {standing : Standing} {v : Value}
      → map_resource expectations legacy targets resource ≡ ok (standing, v)
      → standing_of expectations legacy targets resource ≡ standing
  unfolding map_resource
  map_resource-stands resource h =
      let (identity, _, h1) = >>=-eq-ok (at "identity_sha256" resource) _ h in
      let (_, _, h2) = >>=-eq-ok (at "address" resource) _ h1 in
      let (_, _, h3) = >>=-eq-ok (at "resource_type" resource) _ h2 in
      let (_, _, h4) = >>=-eq-ok (label_fields resource) _ h3 in
      let (_, _, h5) =
        >>=-eq-ok
          (standing_fields (standing_of expectations legacy targets resource)
            (length (same_identity identity targets)))
          _ h4 in
      ap (λ (p : Standing × Value). p.0) (ok-injective h5)

  one_to_one-le :
      (rest : List Value) {mapped : List (Standing × Value)}
      → map_resources expectations legacy targets rest ≡ ok mapped
      → count_such is_one_to_one mapped ≤ length rest
  unfolding map_resources
  one_to_one-le [] {mapped} h =
      subst (λ m. count_such is_one_to_one m ≤ 0) (ok-injective h) (omega arith)
  one_to_one-le (resource ∷ rest) {mapped} h =
      let ((standing, v), _, h1) =
        >>=-eq-ok (map_resource expectations legacy targets resource) _ h in
      let (others, later, h2) = >>=-eq-ok (map_resources expectations legacy targets rest) _ h1 in
      let less = one_to_one-le rest later in
      subst (λ m. count_such is_one_to_one m ≤ suc (length rest)) (ok-injective h2)
        (elim (Bool-cases (is_one_to_one standing)) [
          | inl one ↦ rw one (omega arith)
          | inr other ↦ rw other (omega arith)
        ])

  all-IsPaired :
      (rest : List Value) {mapped : List (Standing × Value)}
      → map_resources expectations legacy targets rest ≡ ok mapped
      → count_such is_one_to_one mapped ≡ length rest
      → All (IsPaired expectations legacy targets) rest
  unfolding map_resources
  all-IsPaired [] h e = tt
  all-IsPaired (resource ∷ rest) {mapped} h e =
      let ((standing, v), here, h1) =
        >>=-eq-ok (map_resource expectations legacy targets resource) _ h in
      let (others, later, h2) = >>=-eq-ok (map_resources expectations legacy targets rest) _ h1 in
      let same : (standing, v) ∷ others ≡ mapped = ok-injective h2 in
      let counted : count_such is_one_to_one ((standing, v) ∷ others) ≡ suc (length rest) =
        subst (λ m. count_such is_one_to_one m ≡ suc (length rest)) (sym same) e in
      let less = one_to_one-le rest later in
      elim (Bool-cases (is_one_to_one standing)) [
        | inl one ↦ (
          standing_of-IsPaired resource (rw (map_resource-stands resource here) one),
          all-IsPaired rest later (let k = rw one at counted in omega arith),
        )
        | inr other ↦ absurd (let k = rw other at counted in omega arith)
      ]

-- Where the report counts as many one-to-one mappings as the legacy state has resources, each of
-- these resources has exactly one counterpart in the states of the namespaces under its identity,
-- no other resource of the legacy state has that identity, both are complete, and the namespace of
-- the counterpart is the declared one where one is declared.
pub map_resources-ArePaired :
    (expectations legacy : List Value) (targets : List Candidate) {mapped : List (Standing × Value)}
    → map_resources expectations legacy targets legacy ≡ ok mapped
    → count_such is_one_to_one mapped ≡ length legacy
    → All (IsPaired expectations legacy targets) legacy
map_resources-ArePaired expectations legacy targets h e =
    all-IsPaired expectations legacy targets legacy h e
