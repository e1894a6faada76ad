-- ===== src/States/Laws.antt =====
-- On `isolated_states`, `verify_retained` and `state_resources` of
-- scripts/pipeline/unified/validation.py.
use iac_modules.Common.{
  String, ◌≡◌, refl, sym, subst, ◌∙◌, true, false, not, ◌&&◌, and-eq-true, or_cases, Bool-cases,
  inl, inr, List, [], ◌∷◌, all, All, All-of_all, Distinct, ◌==◌, eq_iff, arith, ok, >>=-eq-ok,
  >>-eq-ok, require-eq-ok, require-passed, not-eq-true, ok-injective,
}
use iac_modules.Json.{Value, arr, nil, get, get_or, truthy, eq, members, as_texts}
use iac_modules.Contracts.Ownership.{owner_match}
use iac_modules.States.{
  Texts, Identity, Resources, addresses, state_resources, owned, not_owned, has_identity,
  some_resource, covers, disjoint, is_one_instance, isolated_states, has_resource, same_identity,
  all_in, same_resources, verify_retained,
}
use iac_modules.States.Addresses.{add_resources-Distinct}

-- What is kept of a cleanup's owners.
kept_of :
    (owners : List String) (before found : Resources)
    → All (λ (r : String × Identity). has_resource r found ≡ true) (not_owned owners before)
    → All
        (λ (r : String × Identity). owner_match r.0 owners ≡ false → has_resource r found ≡ true)
        before
kept_of owners [] found h = tt
kept_of owners (r ∷ rest) found h = elim (Bool-cases (owner_match r.0 owners)) [
  | inl mine ↦ (
    (λ other. absurd (let clash = sym mine ∙ other in cc)),
    kept_of owners rest found (rw mine at h),
  )
  | inr other ↦
      let both : All (λ (s : String × Identity). has_resource s found ≡ true)
          (r ∷ not_owned owners rest) =
        rw other at h in
      ((λ _. both.0), kept_of owners rest found both.1)
]

-- What stands among the resources that are kept.
found_in :
    (owners : List String) (before : Resources) (r : String × Identity)
    → has_resource r (not_owned owners before) ≡ true
    → (has_resource r before ≡ true) × (owner_match r.0 owners ≡ false)
found_in owners [] r h = absurd (cc)
found_in owners (s ∷ rest) r h = elim (Bool-cases (owner_match s.0 owners)) [
  | inl mine ↦ let (there, other) = found_in owners rest r (rw mine at h) in (ground arith, other)
  | inr other ↦
      let split =
        or_cases (r.0 == s.0 && same_identity r.1 s.1) (has_resource r (not_owned owners rest))
          (rw other at h) in
      elim split [
        | inl here ↦
            let (same, _) = and-eq-true (r.0 == s.0) (same_identity r.1 s.1) here in
            (
              ground arith,
              subst (λ a. owner_match a owners ≡ false) (sym ((eq_iff r.0 s.0).0 same)) other,
            )
        | inr later ↦ let (there, kept) = found_in owners rest r later in (ground arith, kept)
      ]
]

-- What a cleanup has left.
pub record IsRetained (before found : Resources) (owners : List String) : Type 0 where
  pub kept :
      All
        (λ (r : String × Identity). owner_match r.0 owners ≡ false → has_resource r found ≡ true)
        before
  pub only :
      All
        (λ (r : String × Identity).
          (has_resource r before ≡ true) × (owner_match r.0 owners ≡ false))
        found

all_found_in :
    (owners : List String) (before found : Resources)
    → All (λ (r : String × Identity). has_resource r (not_owned owners before) ≡ true) found
    → All
        (λ (r : String × Identity).
          (has_resource r before ≡ true) × (owner_match r.0 owners ≡ false))
        found
all_found_in owners before [] h = tt
all_found_in owners before (r ∷ rest) (here, later) =
    (found_in owners before r here, all_found_in owners before rest later)

-- After a cleanup that is accepted the state holds every resource that the cleanup did not select,
-- with its identity, and nothing else: no selected resource is left and none is new.
pub verify_retained-IsRetained :
    (t : Texts) (before : Resources) (after : Value) (owners : List String)
    → verify_retained t before after owners ≡ ok tt
    → (found : Resources) × (state_resources t after ≡ ok found) × IsRetained before found owners
unfolding verify_retained
verify_retained-IsRetained t before after owners h =
    let (found, is_found, h1) = >>=-eq-ok (state_resources t after) _ h in
    let same = require-passed (same_resources found (not_owned owners before)) _ h1 in
    let (there, back) =
      and-eq-true (all_in found (not_owned owners before)) (all_in (not_owned owners before) found)
        same in
    (
      found,
      is_found,
      record {
        kept = kept_of owners before found (All-of_all _ (not_owned owners before) back);
        only = all_found_in owners before found (All-of_all _ found there);
      },
    )

-- What is known of two states that are isolated.
pub record IsIsolated (t : Texts) (target candidate source : Value) (current selected : Resources)
    : Type 0 where
  pub lineages : eq (get "lineage" candidate) (get "lineage" source) ≡ false
  pub serving : Resources
  pub found : state_resources t candidate ≡ ok current
  pub served : state_resources t source ≡ ok serving
  pub apart : All (λ (r : String × Identity). not (has_identity r.1 serving) ≡ true) current
  pub owners : List String
  pub named : as_texts (get "destroy_owners" (get "validation" target)) ≡ ok owners
  pub chosen : selected ≡ owned owners current
  pub one : is_one_instance selected ≡ true

-- A cleanup may only begin where the candidate's and the serving source's states have different
-- lineages and share no resource, and where the owners to destroy select exactly one instance of the
-- candidate; that instance is then no resource of the serving source.
pub isolated_states-IsIsolated :
    (t : Texts) (target candidate source : Value) (current selected : Resources)
    → isolated_states t target candidate source ≡ ok (current, selected)
    → IsIsolated t target candidate source current selected
unfolding isolated_states
isolated_states-IsIsolated t target candidate source current selected h =
    let (lineages, h1) =
      require-eq-ok
        ((truthy (get "lineage" candidate) && truthy (get "lineage" source))
          && not (eq (get "lineage" candidate) (get "lineage" source)))
        "candidate/source state lineage must differ" _ h in
    let (found, is_found, h2) = >>=-eq-ok (state_resources t candidate) _ h1 in
    let (serving, is_serving, h3) = >>=-eq-ok (state_resources t source) _ h2 in
    let (_, h4) =
      require-eq-ok (some_resource found && some_resource serving)
        "both candidate and serving source state must exist" _ h3 in
    let validation = get "validation" target in
    let (source_owners, _, h5) =
      >>=-eq-ok (as_texts (get "owners" (get "source_binding" validation))) _ h4 in
    let (_, h6) =
      require-eq-ok (all (λ (r : String × Identity). owner_match r.0 source_owners) serving)
        "serving source state does not match its declared ownership" _ h5 in
    let (apart, h7) =
      require-eq-ok (disjoint found serving) "candidate state contains serving source resources" _
        h6 in
    let (owners, named, h8) = >>=-eq-ok (as_texts (get "destroy_owners" validation)) _ h7 in
    let (one, h9) =
      require-eq-ok (is_one_instance (owned owners found))
        "exactly one candidate instance must be present" _ h8 in
    let spec = get "resources" (get "stages" target) in
    let (own, _, h10) = >>=-eq-ok (as_texts (get "owners" spec)) _ h9 in
    let (_, h11) =
      require-eq-ok (all (λ (r : String × Identity). owner_match r.0 own) found)
        "candidate state contains undeclared resources" _ h10 in
    let (protected, _, h12) = >>=-eq-ok (as_texts (get_or "protected" (arr nil) spec)) _ h11 in
    let (_, h13) =
      require-eq-ok (all (covers found) protected)
        "retained protected resource is missing from candidate state" _ h12 in
    let done : ◌≡◌ {A = Resources × Resources} (found, owned owners found) (current, selected) =
      ok-injective h13 in
    subst (λ (r : Resources × Resources). IsIsolated t target candidate source r.0 r.1) done
      (record {
        lineages = not-eq-true _ (and-eq-true _ _ lineages).1;
        serving = serving;
        found = is_found;
        served = is_serving;
        apart = All-of_all (λ (r : String × Identity). not (has_identity r.1 serving)) found apart;
        owners = owners;
        named = named;
        chosen = refl;
        one = one;
      })

-- The addresses of the resources that a state gives are distinct, over all its modules and indices.
state_resources-Distinct :
    (t : Texts) (state : Value) (found : Resources)
    → state_resources t state ≡ ok found
    → Distinct (addresses found)
unfolding state_resources
state_resources-Distinct t state found h =
    let (_, h1) = >>-eq-ok _ _ h in
    add_resources-Distinct t [] (members (get_or "resources" (arr nil) state)) h1 tt
