-- ===== src/Observations/Deduplicate/Newest.antt =====
-- On `deduplicate_observations` of terraform-hcl-standard/scripts/cmdb_observations_v1.py.
use iac_modules.Common.{
  ℕ, ◌≤◌, String, ◌≡◌, refl, sym, subst, ◌∙◌, not, ◌&&◌, ◌⊎◌, inl, inr, some, List, [], ◌∷◌, map,
  ltb, ◌==◌, arith, eq_iff, All, Bool-cases, Option-cases, Dict, names, store-Distinct, Distinct,
  lookup, store, lookup-store, AllEntries, AllEntries-store, ok, ok-injective, >>=-eq-ok,
  require-eq-ok, some-injective,
}
use iac_modules.Json.{Value, null, bool, int, str, arr, obj, get, put, truthy, eq}
use iac_modules.Json.Laws.{get_or-put}
use iac_modules.Cmdb.Words.{first_of}
use iac_modules.Cmdb.Endpoint.{Readers}
use iac_modules.Observations.Checks.{timestamp, normalize_provider, normalize_native_resource_id}
use iac_modules.Observations.Keys.{
  plain, classify_runtime_form, infer_observation_region, resource_key, canonical_id,
}
use iac_modules.Observations.Item.{Observed}
use iac_modules.Observations.Deduplicate.{
  own_scope, normal_observation, keep_newest, deduplicated, deduplicate_observations,
}

module _ (r : Readers) where
  abbrev SeenAt : Value → ℕ → Type 0
  SeenAt v t = timestamp r (get "last_observed_at" v) ≡ ok t

  -- An observation of a resource that is no older than the given time.
  pub record HasNewer (found : Dict Value) (key : String) (t : ℕ) : Type 0 where
    pub value : Value
    pub time : ℕ
    pub stands : lookup key found ≡ some value
    pub seen : SeenAt value time
    pub newer : t ≤ time

  -- What is stored under a key replaces what is no newer.
  store-HasNewer :
      (key : String) (v : Value) (t : ℕ) (found : Dict Value) (other : String) {u : ℕ}
      → SeenAt v t
      → ((w : Value) (s : ℕ) → lookup key found ≡ some w → SeenAt w s → s ≤ t)
      → HasNewer found other u
      → HasNewer (store key v found) other u
  store-HasNewer key v t found other seen older h = elim (Bool-cases (key == other)) [
    | inl same ↦
        let here : lookup key found ≡ some h.value = rw ((eq_iff key other).0 same) h.stands in
        let replaced = older h.value h.time here h.seen in
        let newer = h.newer in
        record {
          value = v;
          time = t;
          stands = rw (lookup-store key other v found) (rw same refl);
          seen = seen;
          newer = omega arith;
        }
    | inr differs ↦ record {
      value = h.value;
      time = h.time;
      stands = rw (lookup-store key other v found) (rw differs h.stands);
      seen = h.seen;
      newer = h.newer;
    }
  ]

  module _ (quote : String → String) where
    -- An observation is dropped where a newer one stands, and stored where none does.
    abbrev IsKeptOver : Observed → Dict Value → Dict Value → Type 0
    IsKeptOver o found next =
        (HasNewer found o.key o.seen × (found ≡ next))
        ⊎ (((w : Value) (s : ℕ) → lookup o.key found ≡ some w → SeenAt w s → s ≤ o.seen)
            × (store o.key o.value found ≡ next))

    keep_newest_cases :
        (o : Observed) (found : Dict Value) {next : Dict Value}
        → keep_newest r quote o found ≡ ok next
        → IsKeptOver o found next
    unfolding keep_newest
    keep_newest_cases o found h = elim (Option-cases (lookup o.key found)) [
      | inl new ↦ inr (
        λ w s is_there _. absurd (let e = rw new at is_there in cc),
        ok-injective (rw (new, keep_newest) at h),
      )
      | inr (existing, there) ↦
          let old = own_scope existing in
          let own = own_scope o.value in
          let (_, h1) =
            require-eq-ok (not (truthy old && (truthy own && not (eq old own))))
              "cross-environment duplicate resource_key" _ (rw (there, keep_newest) at h) in
          let (before, at_before, h2) =
            >>=-eq-ok (timestamp r (get "last_observed_at" existing)) _ h1 in
          elim (Bool-cases (ltb o.seen before)) [
            | inl stale ↦ inl (
              record {
                value = existing;
                time = before;
                stands = there;
                seen = at_before;
                newer = ground arith;
              },
              ok-injective (rw stale at h2),
            )
            | inr newest ↦ inr (
              λ w s is_there at_s.
                  let same : existing ≡ w = some-injective (rw there at is_there) in
                  let e : before ≡ s = ok-injective (sym at_before ∙ rw same at_s) in ground arith,
              ok-injective (rw newest at h2),
            )
          ]
    ]

    -- Nothing is lost, and the observation or a newer one is there.
    abbrev Grows : Observed → Dict Value → Dict Value → Type 0
    Grows o found next =
        HasNewer next o.key o.seen
        × ((key : String) (u : ℕ) → HasNewer found key u → HasNewer next key u)

    keep_newest-Grows :
        (o : Observed) (found : Dict Value) {next : Dict Value}
        → SeenAt o.value o.seen
        → keep_newest r quote o found ≡ ok next
        → Grows o found next
    keep_newest-Grows o found seen h = elim (keep_newest_cases o found h) [
      | inl (newer, same) ↦ subst (Grows o found) same (newer, λ key u kept. kept)
      | inr (older, made) ↦ subst (Grows o found) made (
        record {
          value = o.value;
          time = o.seen;
          stands = rw (lookup-store o.key o.key o.value found, (eq_iff o.key o.key).1 refl);
          seen = seen;
          newer = omega arith;
        },
        λ key u. store-HasNewer o.key o.value o.seen found key seen older,
      )
    ]

    normal_observation-seen :
        (item : Value) {o : Observed}
        → normal_observation r quote item ≡ ok o
        → SeenAt o.value o.seen
    unfolding normal_observation
    normal_observation-seen (obj fs) {o} h =
        let item = obj fs in
        let (form, _, h1) = >>=-eq-ok (classify_runtime_form r item) _ h in
        let (region, _, h2) = >>=-eq-ok (infer_observation_region r item "") _ h1 in
        let (provider, _, h3) = >>=-eq-ok (normalize_provider (get "provider" item)) _ h2 in
        let (native, _, h4) =
          >>=-eq-ok (normalize_native_resource_id (get "native_resource_id" item)) _ h3 in
        let placed = put "runtime_form" (str form) (
          put "region" (str region)
            (put "native_resource_id" (str native) (put "provider" (str provider) item))) in
        let (key, _, h5) = >>=-eq-ok (resource_key r placed "") _ h4 in
        let (id, _, h6) =
          >>=-eq-ok (canonical_id r quote (put "resource_key" (str key) placed)) _ h5 in
        let last =
          str (plain r (first_of (get "last_observed_at" item ∷ get "observed_at" item ∷ []))) in
        let (seen, at, h7) = >>=-eq-ok (timestamp r last) _ h6 in
        subst (λ (n : Observed). SeenAt n.value n.seen) (ok-injective h7) (rw get_or-put at)
    normal_observation-seen null h = absurd (cc)
    normal_observation-seen (bool b) h = absurd (cc)
    normal_observation-seen (int n) h = absurd (cc)
    normal_observation-seen (str t) h = absurd (cc)
    normal_observation-seen (arr vs) h = absurd (cc)

    -- What came of one observation: it was read, and one of the same resource that is no older is
    -- among the others.
    abbrev pub IsKept : Dict Value → Value → Type 0
    IsKept found item =
        (o : Observed) × (normal_observation r quote item ≡ ok o) × HasNewer found o.key o.seen

    deduplicated-kept :
        (items : List Value) (found : Dict Value) {end : Dict Value}
        → deduplicated r quote items found ≡ ok end
        → All (IsKept end) items
          × ((key : String) (u : ℕ) → HasNewer found key u → HasNewer end key u)
    unfolding deduplicated
    deduplicated-kept [] found h =
        (tt, λ key u kept. subst (λ e. HasNewer e key u) (ok-injective h) kept)
    deduplicated-kept (item ∷ rest) found h =
        let (o, normal, h1) = >>=-eq-ok (normal_observation r quote item) _ h in
        let (next, kept, h2) = >>=-eq-ok (keep_newest r quote o found) _ h1 in
        let (here, grows) = keep_newest-Grows o found (normal_observation-seen item normal) kept in
        let (later, more) = deduplicated-kept rest next h2 in
        (((o, normal, more o.key o.seen here), later), λ key u old. more key u (grows key u old))

    -- An observation of the list, as it was read.
    abbrev pub ComesFrom : List Value → String → Value → Type 0
    ComesFrom [] key v = ⊥
    ComesFrom (item ∷ rest) key v =
        ((o : Observed) × (normal_observation r quote item ≡ ok o) × (o.key ≡ key) × (o.value ≡ v))
        ⊎ ComesFrom rest key v

    keep_newest-entries :
        (P : String → Value → Type 0) (o : Observed) (found : Dict Value) {next : Dict Value}
        → keep_newest r quote o found ≡ ok next
        → P o.key o.value
        → AllEntries P found × Distinct (names found)
        → AllEntries P next × Distinct (names next)
    keep_newest-entries P o found h p (all, distinct) = elim (keep_newest_cases o found h) [
      | inl (_, same) ↦ subst (λ n. AllEntries P n × Distinct (names n)) same (all, distinct)
      | inr (_, made) ↦
          subst (λ n. AllEntries P n × Distinct (names n)) made
            (
              AllEntries-store P o.key o.value found p all,
              store-Distinct o.key o.value found distinct,
            )
    ]

    deduplicated-entries :
        (P : String → Value → Type 0) (items : List Value) (found : Dict Value) {end : Dict Value}
        → deduplicated r quote items found ≡ ok end
        → ((key : String) (v : Value) → ComesFrom items key v → P key v)
        → AllEntries P found × Distinct (names found)
        → AllEntries P end × Distinct (names end)
    unfolding deduplicated
    deduplicated-entries P [] found h f all =
        subst (λ e. AllEntries P e × Distinct (names e)) (ok-injective h) all
    deduplicated-entries P (item ∷ rest) found h f all =
        let (o, normal, h1) = >>=-eq-ok (normal_observation r quote item) _ h in
        let (next, kept, h2) = >>=-eq-ok (keep_newest r quote o found) _ h1 in
        let here = f o.key o.value (inl (o, normal, refl, refl)) in
        deduplicated-entries P rest next h2 (λ key v c. f key v (inr c))
          (keep_newest-entries P o found kept here all)

    -- What is returned of the observations: one of each resource, none of them invented, and none
    -- older than another that was given.
    pub record IsDeduplicated (items values : List Value) : Type 0 where
      pub found : Dict Value
      pub listed : map (λ (entry : String × Value). entry.1) found ≡ values
      pub once : Distinct (names found)
      pub given : AllEntries (ComesFrom items) found
      pub newest : All (IsKept found) items

    -- The observations that are returned are of different resources, each is one that was given, as
    -- it is normalised, and of each resource that was given none is returned that is older than
    -- another.
    pub deduplicate_observations-IsDeduplicated :
        (items : List Value) {values : List Value}
        → deduplicate_observations r quote items ≡ ok values
        → IsDeduplicated items values
    unfolding deduplicate_observations
    deduplicate_observations-IsDeduplicated items h =
        let (found, made, h1) = >>=-eq-ok (deduplicated r quote items []) _ h in
        let (given, once) =
          deduplicated-entries (ComesFrom items) items [] made (λ key v c. c) (tt, tt) in
        record {
          found = found;
          listed = ok-injective h1;
          once = once;
          given = given;
          newest = (deduplicated-kept items [] made).0;
        }
