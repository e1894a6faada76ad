-- ===== src/Contracts/Transition/Declared.antt =====
-- On the states that `validate_catalog_transition`, of scripts/pipeline/unified/contracts.py,
-- compares.
use iac_modules.Common.{
  ℕ, String, ◌≡◌, refl, sym, ap, ◌∙◌, Bool, true, false, ◌⊎◌, inl, inr, List, [], ◌∷◌, ◌++◌, member,
  all, All, All-of_all, length, Bool-cases, Option-cases, ok, >>=-eq-ok, >>-eq-ok, require-eq-ok,
  ok-injective, eq_iff,
}
use iac_modules.Json.{
  Value, null, bool, int, str, arr, obj, nil, end, at, get, get_or, find, is_text, members, values,
  fields, text_value, as_text,
}
use iac_modules.Json.Laws.{at-eq-ok}
use iac_modules.Contracts.Checkout.{Checkout, source_file}
use iac_modules.Contracts.Catalog.{
  Declared, keep, selected, is_chosen, is_managed_stage, load_targets, read_declaration,
  migration_key,
}
use iac_modules.Contracts.Catalog.Claimed.{stage_keys, state_keys, migration_keys, as_text-value}
use iac_modules.Contracts.Catalog.Laws.{IsHistorical, IsResolved, load_targets-IsResolved}
use iac_modules.Contracts.Transition.{
  owned_keys, keys_of, source_keys, everything, catalog_keys, historical_keys, previous_keys,
  unique, validate_catalog_transition,
}

owned_keys-eq :
    (specs : List Value) {keys : List String} → owned_keys specs ≡ ok keys → keys ≡ stage_keys specs
unfolding owned_keys
owned_keys-eq [] h = sym (ok-injective h)
owned_keys-eq (spec ∷ rest) {keys} h = elim (Bool-cases (is_managed_stage spec)) [
  | inl managed ↦
      let (state, at_state, h1) = >>=-eq-ok (at "state" spec) _ (rw managed at h) in
      let (value, at_value, h2) = >>=-eq-ok (at "key" state) _ h1 in
      let (key, is_key, h3) = >>=-eq-ok (as_text value) _ h2 in
      let (others, later, h4) = >>=-eq-ok (owned_keys rest) _ h3 in
      let here : text_value (get "key" (get "state" spec)) ≡ key =
        rw (at-eq-ok "state" spec at_state)
          (rw (at-eq-ok "key" state at_value) (as_text-value value is_key)) in
      rw (managed, here) (sym (ok-injective h4) ∙ ap (λ k. key ∷ k) (owned_keys-eq rest later))
  | inr skipped ↦ rw skipped (owned_keys-eq rest (rw skipped at h))
]

keys_of-eq :
    (targets : List Value) {keys : List String}
    → keys_of targets ≡ ok keys
    → keys ≡ state_keys targets
unfolding keys_of
keys_of-eq [] h = sym (ok-injective h)
keys_of-eq (target ∷ rest) h =
    let (stages, at_stages, h1) = >>=-eq-ok (at "stages" target) _ h in
    let (_, h2) = >>-eq-ok _ _ h1 in
    let (first, is_first, h3) = >>=-eq-ok (owned_keys (values (fields stages))) _ h2 in
    let (others, later, h4) = >>=-eq-ok (keys_of rest) _ h3 in
    rw (at-eq-ok "stages" target at_stages) (
      sym (ok-injective h4)
      ∙ ap (λ k. k ++ others) (owned_keys-eq (values (fields stages)) is_first)
      ∙ ap (λ k. stage_keys (values (fields stages)) ++ k) (keys_of-eq rest later))

at-get_or :
    (name : String) (default v : Value) {w : Value} → at name v ≡ ok w → get_or name default v ≡ w
at-get_or name default v h = elim (Option-cases (find name (fields v))) [
  | inl e ↦ absurd (let raised = rw (e, at) at h in cc)
  | inr found ↦ let (_, e) = found in rw e (ok-injective (rw (e, at) at h))
]

is_text-value : (s : String) (v : Value) → is_text s v ≡ true → text_value v ≡ s
is_text-value s (str t) h = (eq_iff t s).0 h
is_text-value s null h = cc
is_text-value s (bool b) h = cc
is_text-value s (int n) h = cc
is_text-value s (arr vs) h = cc
is_text-value s (obj fs) h = cc

source_keys-eq :
    (sources : List Value) {keys : List String}
    → All IsHistorical sources
    → source_keys sources ≡ ok keys
    → keys ≡ migration_keys sources
unfolding source_keys
source_keys-eq [] historical h = sym (ok-injective h)
source_keys-eq (source ∷ rest) (first, others) h =
    let (state, at_state, h1) = >>=-eq-ok (at "state" source) _ h in
    let (value, at_value, h2) = >>=-eq-ok (at "key" state) _ h1 in
    let (key, is_key, h3) = >>=-eq-ok (as_text value) _ h2 in
    let (keys, later, h4) = >>=-eq-ok (source_keys rest) _ h3 in
    let stated : is_text (migration_key source) value ≡ true =
      rw (at-get_or "key" (str "") state at_value) at
        (rw (at-get_or "state" (obj end) source at_state) at first.key) in
    let here : key ≡ migration_key source =
      sym (as_text-value value is_key) ∙ is_text-value (migration_key source) value stated in
    rw (← here) (sym (ok-injective h4) ∙ ap (λ k. key ∷ k) (source_keys-eq rest others later))

keep-everything : (p : Value → Bool) (vs : List Value) → ((v : Value) → p v ≡ true) → keep p vs ≡ vs
keep-everything p [] h = refl
keep-everything p (v ∷ vs) h = rw (h v) (ap (λ rest. v ∷ rest) (keep-everything p vs h))

-- Every state key that a catalog declares: those of the stages of all its targets, whatever their
-- lifecycle, and those of its migration sources.
pub record IsDeclared (root : Checkout) (catalog : String) (keys : List String) : Type 0 where
  pub declared : Declared
  pub valid : List Value
  pub read : read_declaration root (str catalog) ≡ ok declared
  pub resolved : IsResolved root declared valid
  pub all_keys : keys ≡ state_keys valid ++ migration_keys declared.migrations

catalog_keys-IsDeclared :
    (root : Checkout) (catalog : String) {keys : List String}
    → catalog_keys root catalog ≡ ok keys
    → IsDeclared root catalog keys
unfolding catalog_keys selected
catalog_keys-IsDeclared root catalog {keys} h =
    let (loaded, is_loaded, h1) = >>=-eq-ok (load_targets root (str catalog) everything) _ h in
    let (active, is_active, h2) = >>=-eq-ok (keys_of loaded.chosen) _ h1 in
    let (sources, is_sources, h3) = >>=-eq-ok (source_keys loaded.migrations) _ h2 in
    let (declared, valid, read, resolved, chosen, migrations) =
      load_targets-IsResolved root (str catalog) everything loaded is_loaded in
    let all_chosen = chosen ∙ keep-everything (is_chosen everything) valid (λ v. refl) in
    let all_sources =
      migrations ∙ keep-everything (selected everything) declared.migrations (λ v. refl) in
    let of_sources =
      source_keys-eq declared.migrations resolved.historical (rw all_sources at is_sources) in
    record {
      declared = declared;
      valid = valid;
      read = read;
      resolved = resolved;
      all_keys =
          sym (ok-injective h3)
          ∙ ap (λ k. k ++ sources) (keys_of-eq loaded.chosen is_active ∙ ap state_keys all_chosen)
          ∙ ap (λ k. state_keys valid ++ k) of_sources;
    }

-- The state keys of the targets of manifests, which no catalog names yet.
abbrev pub AreOf : Checkout → List String → List String → Type 0
AreOf root [] keys = keys ≡ []
AreOf root (path ∷ rest) keys =
    (source : String) × (others : List String) × (source_file root (str path) ≡ ok source)
    × AreOf root rest others
    × (keys ≡ state_keys (members (get_or "targets" (arr nil) (root.load source))) ++ others)

historical_keys-AreOf :
    (root : Checkout) (files : List String) {keys : List String}
    → historical_keys root files ≡ ok keys
    → AreOf root files keys
unfolding historical_keys
historical_keys-AreOf root [] h = sym (ok-injective h)
historical_keys-AreOf root (path ∷ rest) h =
    let (source, is_source, h1) = >>=-eq-ok (source_file root (str path)) _ h in
    let (_, h2) = >>-eq-ok _ _ h1 in
    let (_, h3) = require-eq-ok _ _ _ h2 in
    let (_, h4) = >>-eq-ok _ _ h3 in
    let targets = members (get_or "targets" (arr nil) (root.load source)) in
    let (first, is_first, h5) = >>=-eq-ok (keys_of targets) _ h4 in
    let (others, later, h6) = >>=-eq-ok (historical_keys root rest) _ h5 in
    (
      source,
      others,
      is_source,
      historical_keys-AreOf root rest later,
      sym (ok-injective h6) ∙ ap (λ k. k ++ others) (keys_of-eq targets is_first),
    )

-- What was declared before a change: by the catalog, if there was one, and by the manifests
-- otherwise.
abbrev pub WereDeclared : Checkout → String → List String → Type 0
WereDeclared root catalog keys =
    ((root.is_file catalog ≡ true) × IsDeclared root catalog keys)
    ⊎ ((root.is_file catalog ≡ false) × AreOf root root.target_files keys)

previous_keys-WereDeclared :
    (root : Checkout) (catalog : String) {keys : List String}
    → previous_keys root catalog ≡ ok keys
    → WereDeclared root catalog keys
unfolding previous_keys
previous_keys-WereDeclared root catalog h = elim (Bool-cases (root.is_file catalog)) [
  | inl found ↦ inl (found, catalog_keys-IsDeclared root catalog (rw found at h))
  | inr new ↦ inr (new, historical_keys-AreOf root root.target_files (rw new at h))
]

-- A catalog change that is accepted forgets no state: every state key that a stage of a target or a
-- migration source of the old catalog had, or a stage of a target of the manifests where there was
-- no catalog, is one of a target, of whatever lifecycle, or of a migration source of the new
-- catalog. All that the catalogs declare is valid. The number returned is that of the old keys.
pub validate_catalog_transition-retains :
    (before after : Checkout) (catalog : String) (n : ℕ)
    → validate_catalog_transition before after catalog ≡ ok n
    → (previous : List String) × (retained : List String) × WereDeclared before catalog previous
      × IsDeclared after catalog retained
      × All (λ key. member key retained ≡ true) previous
      × (n ≡ length (unique previous))
unfolding validate_catalog_transition
validate_catalog_transition-retains before after catalog n h =
    let (retained, is_retained, h1) = >>=-eq-ok (catalog_keys after catalog) _ h in
    let (previous, is_previous, h2) = >>=-eq-ok (previous_keys before catalog) _ h1 in
    let (kept, h3) = require-eq-ok (all (λ key. member key retained) previous) _ _ h2 in
    (
      previous,
      retained,
      previous_keys-WereDeclared before catalog is_previous,
      catalog_keys-IsDeclared after catalog is_retained,
      All-of_all (λ k. member k retained) previous kept,
      sym (ok-injective h3),
    )
