-- ===== src/Contracts/Catalog/Laws.antt =====
-- On `load_targets` of scripts/pipeline/unified/contracts.py.
use iac_modules.Common.{
  String, ◌≡◌, false, refl, sym, ap, subst, ◌∙◌, true, not, ◌&&◌, and-eq-true, require-passed, ◌==◌,
  All, List, [], ◌∷◌, ◌++◌, member, Distinct, Distinct-append, ok, >>=-eq-ok, require-eq-ok,
  >>-eq-ok, ok-injective, not-eq-true, append-nil, list_append_assoc,
}
use iac_modules.Json.{
  Value, str, obj, end, get_or, is_text, get, values, fields, text_value, is_true, is_bool,
  str_such,
}
use iac_modules.Contracts.Checkout.{Checkout, is_sha}
use iac_modules.Contracts.Target.Tables.{provider_folder, is_some, github_environment, is_among}
use iac_modules.Contracts.Target.Stage.{is_plain_path}
use iac_modules.Contracts.Target.{validate_target}
use iac_modules.Contracts.Catalog.{
  Claims, no_claims, claim_target, claim_targets, migration_key, check_migration, claim_migration,
  claim_migrations, Declared, Selection, Loaded, keep, selected, is_chosen, claim_all,
  read_declaration, load_targets,
}
use iac_modules.Contracts.Catalog.Claimed.{
  stage_keys, state_keys, target_ids, migration_keys, IsExclusive, claim_target-grows,
}

-- Every target of the list is one that `validate_target` accepted.
abbrev pub Validated : Checkout → List Value → List Value → Type 0
Validated root [] [] = Unit
Validated root [] (v ∷ vs) = ⊥
Validated root (t ∷ ts) [] = ⊥
Validated root (t ∷ ts) (v ∷ vs) = (validate_target root t ≡ ok v) × Validated root ts vs

-- What a run of claims over targets leaves.
pub record IsClaimed (root : Checkout) (targets valid : List Value) (before after : Claims)
    : Type 0 where
  pub exclusive : IsExclusive after
  pub ids : after.ids ≡ before.ids ++ target_ids valid
  pub keys : after.keys ≡ before.keys ++ state_keys valid
  pub validated : Validated root targets valid

claim_targets-IsClaimed :
    (root : Checkout) (targets : List Value) (claims : Claims) {r : List Value × Claims}
    → claim_targets root targets claims ≡ ok r
    → IsExclusive claims
    → IsClaimed root targets r.0 claims r.1
unfolding claim_targets
claim_targets-IsClaimed root [] claims h d =
    let done : ◌≡◌ {A = List Value × Claims} ([], claims) _ = ok-injective h in
    subst (λ (r : List Value × Claims). IsClaimed root [] r.0 claims r.1) done
      (record {
        exclusive = d;
        ids = sym (append-nil claims.ids);
        keys = sym (append-nil claims.keys);
        validated = tt;
      })
claim_targets-IsClaimed root (t ∷ ts) claims h d =
    let (first, here, h1) = >>=-eq-ok (claim_target root t claims) _ h in
    let (others, there, h2) = >>=-eq-ok (claim_targets root ts first.1) _ h1 in
    let (d1, ids1, keys1, valid) = claim_target-grows root t claims here d in
    let later = claim_targets-IsClaimed root ts first.1 there d1 in
    let done : ◌≡◌ {A = List Value × Claims} (first.0 ∷ others.0, others.1) _ = ok-injective h2 in
    subst (λ (r : List Value × Claims). IsClaimed root (t ∷ ts) r.0 claims r.1) done
      (record {
        exclusive = later.exclusive;
        ids =
            later.ids
            ∙ ap (λ k. k ++ target_ids others.0) ids1
            ∙ list_append_assoc claims.ids (target_ids (first.0 ∷ [])) (target_ids others.0);
        keys =
            later.keys
            ∙ ap (λ k. k ++ state_keys others.0) keys1
            ∙ list_append_assoc claims.keys (state_keys (first.0 ∷ [])) (state_keys others.0)
            ∙ ap (λ k. claims.keys ++ (k ++ state_keys others.0))
                (append-nil (stage_keys (values (fields (get "stages" first.0)))));
        validated = (valid, later.validated);
      })

abbrev pub migration_ids : List Value → List String
migration_ids [] = []
migration_ids (m ∷ ms) = text_value (get "id" m) ∷ migration_ids ms

-- A historical state that may only be read: it is of a supported provider and environment and of a
-- concrete account, its state is that of its identity, in the default workspace, and it names the
-- commit and the path that it came from.
pub record IsHistorical (item : Value) : Type 0 where
  pub status : is_text "migration" (get "status" (get_or "lifecycle" (obj end) item)) ≡ true
  pub read_only : is_true (get "read_only" item) ≡ true
  pub provider : str_such (λ p. is_some (provider_folder p)) (get "provider" item) ≡ true
  pub environment : str_such (λ e. is_some (github_environment e)) (get "environment" item) ≡ true
  pub account : is_among ("primary" ∷ "default" ∷ "main" ∷ []) (get "account" item) ≡ false
  pub persistence : is_bool (get "persistent" (get "lifecycle" item)) ≡ true
  pub commit :
      str_such is_sha (get_or "commit" (str "") (get_or "provenance" (obj end) item)) ≡ true
  pub path : is_plain_path (get "path" (get_or "provenance" (obj end) item)) ≡ true
  pub key :
      is_text (migration_key item) (get_or "key" (str "") (get_or "state" (obj end) item)) ≡ true
  pub workspace : is_text "default" (get "cli_workspace" (get_or "state" (obj end) item)) ≡ true

check_migration-parts :
    (item : Value)
    → check_migration item ≡ ok tt
    → (is_text "migration" (get "status" (get_or "lifecycle" (obj end) item)) ≡ true)
      × (is_true (get "read_only" item) ≡ true)
      × (str_such (λ p. is_some (provider_folder p)) (get "provider" item) ≡ true)
      × (str_such (λ e. is_some (github_environment e)) (get "environment" item) ≡ true)
      × (is_among ("primary" ∷ "default" ∷ "main" ∷ []) (get "account" item) ≡ false)
      × (is_bool (get "persistent" (get "lifecycle" item)) ≡ true)
      × (str_such is_sha (get_or "commit" (str "") (get_or "provenance" (obj end) item)) ≡ true)
      × (is_plain_path (get "path" (get_or "provenance" (obj end) item)) ≡ true)
unfolding check_migration
check_migration-parts item h =
    let provenance = get_or "provenance" (obj end) item in
    let (reads, h1) =
      require-eq-ok
        (is_text "migration" (get "status" (get_or "lifecycle" (obj end) item))
          && is_true (get "read_only" item))
        "historical state sources must be read-only migration objects" _ h in
    let (supported, h2) =
      require-eq-ok
        (str_such (λ p. is_some (provider_folder p)) (get "provider" item)
          && str_such (λ e. is_some (github_environment e)) (get "environment" item))
        "unsupported migration provider/environment" _ h1 in
    let (concrete, h3) =
      require-eq-ok (not (is_among ("primary" ∷ "default" ∷ "main" ∷ []) (get "account" item)))
        "concrete migration account required" _ h2 in
    let (persistence, h4) =
      require-eq-ok (is_bool (get "persistent" (get "lifecycle" item)))
        "migration persistence required" _ h3 in
    let (source, h5) =
      require-eq-ok
        (str_such is_sha (get_or "commit" (str "") provenance)
          && str_such (λ s. not (s == "")) (get "path" provenance))
        "historical source provenance required" _ h4 in
    let (status, read_only) = and-eq-true _ _ reads in
    let (commit, _) = and-eq-true _ _ source in
    let (provider, environment) = and-eq-true _ _ supported in
    (
      status,
      read_only,
      provider,
      environment,
      not-eq-true _ concrete,
      persistence,
      commit,
      require-passed _ _ h5,
    )

-- What one claim of a historical state adds.
pub record IsTaken (item : Value) (claims taken : Claims) : Type 0 where
  pub exclusive : IsExclusive taken
  pub ids : taken.ids ≡ claims.ids ++ text_value (get "id" item) ∷ []
  pub keys : taken.keys ≡ claims.keys ++ migration_key item ∷ []
  pub historical : IsHistorical item

claim_migration-IsTaken :
    (item : Value) (claims : Claims) {taken : Claims}
    → claim_migration item claims ≡ ok taken
    → IsExclusive claims
    → IsTaken item claims taken
unfolding claim_migration
claim_migration-IsTaken item claims {taken} h d =
    let (_, h1) = require-eq-ok _ _ _ h in
    let (_, h2) = >>-eq-ok _ _ h1 in
    let (new_id, h3) = require-eq-ok _ _ _ h2 in
    let (checked, h4) = >>-eq-ok (check_migration item) _ h3 in
    let state = get_or "state" (obj end) item in
    let (fits, h5) =
      require-eq-ok (is_text (migration_key item) (get_or "key" (str "") state))
        "historical state key/identity mismatch" _ h4 in
    let (workspace, h6) =
      require-eq-ok (is_text "default" (get "cli_workspace" state))
        "migration workspace must be explicit" _ h5 in
    let (new_key, h7) =
      require-eq-ok (not (member (migration_key item) claims.keys))
        "migration state overlaps active target" _ h6 in
    let (status, read_only, provider, environment, account, persistence, commit, path) =
      check_migration-parts item checked in
    let done : record {
      ids = claims.ids ++ text_value (get "id" item) ∷ [];
      keys = claims.keys ++ migration_key item ∷ [];
    }
        ≡ taken =
      ok-injective h7 in
    subst (λ (c : Claims). IsTaken item claims c) done
      (record {
        exclusive = record {
          ids = Distinct-append claims.ids _ d.ids (not-eq-true _ new_id);
          keys = Distinct-append claims.keys _ d.keys (not-eq-true _ new_key);
        };
        ids = refl;
        keys = refl;
        historical = record {
          status = status;
          read_only = read_only;
          provider = provider;
          environment = environment;
          account = account;
          persistence = persistence;
          commit = commit;
          path = path;
          key = fits;
          workspace = workspace;
        };
      })

-- What the claims of historical states leave.
pub record AreTaken (list : List Value) (claims taken : Claims) : Type 0 where
  pub exclusive : IsExclusive taken
  pub ids : taken.ids ≡ claims.ids ++ migration_ids list
  pub keys : taken.keys ≡ claims.keys ++ migration_keys list
  pub historical : All IsHistorical list

claim_migrations-AreTaken :
    (list : List Value) (claims : Claims) {taken : Claims}
    → claim_migrations list claims ≡ ok taken
    → IsExclusive claims
    → AreTaken list claims taken
unfolding claim_migrations
claim_migrations-AreTaken [] claims h d = subst (AreTaken [] claims) (ok-injective h) (record {
  exclusive = d;
  ids = sym (append-nil claims.ids);
  keys = sym (append-nil claims.keys);
  historical = tt;
})
claim_migrations-AreTaken (item ∷ rest) claims h d =
    let (mid, here, h1) = >>=-eq-ok (claim_migration item claims) _ h in
    let first = claim_migration-IsTaken item claims here d in
    let others = claim_migrations-AreTaken rest mid h1 first.exclusive in
    record {
      exclusive = others.exclusive;
      ids =
          others.ids
          ∙ ap (λ k. k ++ migration_ids rest) first.ids
          ∙ list_append_assoc claims.ids _ _;
      keys =
          others.keys
          ∙ ap (λ k. k ++ migration_keys rest) first.keys
          ∙ list_append_assoc claims.keys _ _;
      historical = (first.historical, others.historical);
    }

-- What is known of everything that a manifest declares, once it is loaded.
pub record IsResolved (root : Checkout) (declared : Declared) (valid : List Value) : Type 0 where
  pub validated : Validated root declared.targets valid
  pub historical : All IsHistorical declared.migrations
  pub distinct_ids : Distinct (target_ids valid ++ migration_ids declared.migrations)
  pub distinct_keys : Distinct (state_keys valid ++ migration_keys declared.migrations)

claim_all-IsResolved :
    (root : Checkout) (declared : Declared) {r : List Value × Claims}
    → claim_all root declared ≡ ok r
    → IsResolved root declared r.0
unfolding claim_all
claim_all-IsResolved root declared {r} h =
    let (_, h1) = require-eq-ok _ _ _ h in
    let (valid, claimed_targets, h2) =
      >>=-eq-ok (claim_targets root declared.targets no_claims) _ h1 in
    let (after, claimed_migrations, h3) =
      >>=-eq-ok (claim_migrations declared.migrations valid.1) _ h2 in
    let c =
      claim_targets-IsClaimed root declared.targets no_claims claimed_targets
        (record { ids = tt; keys = tt }) in
    let m = claim_migrations-AreTaken declared.migrations valid.1 claimed_migrations c.exclusive in
    let done : ◌≡◌ {A = List Value × Claims} (valid.0, after) r = ok-injective h3 in
    subst (λ (p : List Value × Claims). IsResolved root declared p.0) done
      (record {
        validated = c.validated;
        historical = m.historical;
        distinct_ids =
            subst Distinct (m.ids ∙ ap (λ k. k ++ migration_ids declared.migrations) c.ids)
              m.exclusive.ids;
        distinct_keys =
            subst Distinct (m.keys ∙ ap (λ k. k ++ migration_keys declared.migrations) c.keys)
              m.exclusive.keys;
      })

pub load_targets-IsResolved :
    (root : Checkout) (manifest : Value) (s : Selection) (loaded : Loaded)
    → load_targets root manifest s ≡ ok loaded
    → (declared : Declared) × (valid : List Value) × (read_declaration root manifest ≡ ok declared)
      × IsResolved root declared valid
      × (loaded.chosen ≡ keep (is_chosen s) valid)
      × (loaded.migrations ≡ keep (selected s) declared.migrations)
unfolding load_targets
load_targets-IsResolved root manifest s loaded h =
    let (declared, is_declared, h1) = >>=-eq-ok (read_declaration root manifest) _ h in
    let (valid, is_valid, h2) = >>=-eq-ok (claim_all root declared) _ h1 in
    let (_, h3) = require-eq-ok _ _ _ h2 in
    let done = ok-injective h3 in
    (
      declared,
      valid.0,
      is_declared,
      claim_all-IsResolved root declared is_valid,
      ap (λ (l : Loaded). l.chosen) (sym done),
      ap (λ (l : Loaded). l.migrations) (sym done),
    )
