-- ===== src/Cmdb/Document/Newest.antt =====
-- On the observation times in an index of terraform-hcl-standard/scripts/cmdb_v1.py.
use iac_modules.Common.{
  ℕ, ◌≤◌, String, ◌≡◌, refl, sym, ap, ◌∙◌, subst, ◌⊎◌, inl, inr, none, some, ◌==◌, arith, eq_iff,
  Bool-cases, lookup, store, lookup-store, AllEntries, AllEntries-store, ok, ok-injective,
  if◌then◌else◌, some-injective,
}
use iac_modules.Json.{Value, Fields, end, field, str}
use iac_modules.Cmdb.Endpoint.{Readers, parse_timestamp}
use iac_modules.Cmdb.Resource.{Resource, Scope, normalize_resource_record}
use iac_modules.Cmdb.Document.{Index}

module _ (r : Readers) where
  -- The resource was last observed at that time.
  abbrev pub SeenAt : Resource → ℕ → Type 0
  SeenAt found t = parse_timestamp r (str found.last_observed_at) ≡ ok t

  -- An observation of a resource that is no older than the given time is in the index.
  pub record HasNewer (x : Index) (key : String) (t : ℕ) : Type 0 where
    pub indexed : Resource
    pub time : ℕ
    pub stands : lookup key x.resources ≡ some indexed
    pub seen : SeenAt indexed time
    pub newer : t ≤ time

  -- Every resource stands under its own key, and was seen at a readable time.
  abbrev pub Keyed : Index → Type 0
  Keyed x =
      AllEntries (λ key found. (found.resource_key ≡ key) × ((t : ℕ) × SeenAt found t)) x.resources

  -- The steps that lead from one index to another lose no observation.
  pub record Grows (x y : Index) : Type 0 where
    pub keyed : Keyed x → Keyed y
    pub newer : (key : String) (u : ℕ) → HasNewer x key u → HasNewer y key u

  -- An entry that is older than what is indexed changes nothing.
  pub record Kept (found : Resource) (t : ℕ) (x y : Index) : Type 0 where
    pub unchanged : y ≡ x
    pub newer : HasNewer x found.resource_key t

  -- Any other is stored.
  pub record Stored (found : Resource) (t : ℕ) (x y : Index) : Type 0 where
    pub resources : y.resources ≡ store found.resource_key found x.resources
    pub newest :
        (lookup found.resource_key x.resources ≡ none)
        ⊎ ((old : Resource) × (u : ℕ) × (lookup found.resource_key x.resources ≡ some old)
            × SeenAt old u
            × (u ≤ t))

  -- What is found of an entry, and that the index has it or a newer observation. An entry is read
  -- as `read` makes it.
  pub record IsSeen (scope : Scope) (read : Value → Value) (x : Index) (name : String)
      (entry : Value) : Type 0 where
    pub found : Resource
    pub time : ℕ
    pub normal : normalize_resource_record r scope name (read entry) ≡ ok found
    pub seen : SeenAt found time
    pub kept : HasNewer x found.resource_key time

  abbrev pub AreSeen : Scope → (Value → Value) → Index → Fields → Type 0
  AreSeen scope read x end = Unit
  AreSeen scope read x (field name entry rest) =
      IsSeen scope read x name entry × AreSeen scope read x rest

  found_after :
      (found : Resource) (t : ℕ) (x y : Index) (key : String)
      → Stored found t x y
      → lookup key y.resources
        ≡ (if found.resource_key == key then some found else lookup key x.resources)
  found_after found t x y key stored =
      ap (lookup key) stored.resources ∙ lookup-store found.resource_key key found x.resources

  -- What was there under the key of an entry that is stored is no newer.
  older_than :
      (found : Resource) (t : ℕ) (x y : Index) (u : ℕ)
      → SeenAt found t
      → Stored found t x y
      → HasNewer x found.resource_key u
      → u ≤ t
  older_than found t x y u seen stored h = elim stored.newest [
    | inl nothing ↦ absurd (cc (nothing, h.stands))
    | inr (old, v, stands, seen_old, le) ↦
        let e : h.indexed ≡ old = some-injective (sym h.stands ∙ stands) in
        let same : h.time ≡ v =
          ok-injective (sym h.seen ∙ subst (λ f. SeenAt f v) (sym e) seen_old) in
        let newer = h.newer in ground arith
  ]

  module _ (found : Resource) (t : ℕ) (x y : Index) (seen : SeenAt found t) where
    Keyed-step : Kept found t x y ⊎ Stored found t x y → Keyed x → Keyed y
    Keyed-step (inl kept) h = subst Keyed (sym kept.unchanged) h
    Keyed-step (inr stored) h =
        let P : String → Resource → Type 0 =
          λ key f. (f.resource_key ≡ key) × ((u : ℕ) × SeenAt f u) in
        subst (AllEntries P) (sym stored.resources)
          (AllEntries-store P found.resource_key found x.resources (refl, (t, seen)) h)

    -- What was there before is there, or a newer observation.
    HasNewer-step :
        Kept found t x y ⊎ Stored found t x y
        → (key : String) (u : ℕ) → HasNewer x key u
        → HasNewer y key u
    HasNewer-step (inl kept) key u h = subst (λ z. HasNewer z key u) (sym kept.unchanged) h
    HasNewer-step (inr stored) key u h = elim (Bool-cases (found.resource_key == key)) [
      | inl same ↦
          let e = (eq_iff found.resource_key key).0 same in
          record {
            indexed = found;
            time = t;
            stands = found_after found t x y key stored ∙ rw same refl;
            seen = seen;
            newer = older_than found t x y u seen stored (rw (← e) at h);
          }
      | inr other ↦ record {
        indexed = h.indexed;
        time = h.time;
        stands = found_after found t x y key stored ∙ rw other h.stands;
        seen = h.seen;
        newer = h.newer;
      }
    ]

    pub Grows-step : Kept found t x y ⊎ Stored found t x y → Grows x y
    Grows-step step = record { keyed = Keyed-step step; newer = HasNewer-step step }

    -- The entry itself is in the index afterwards, or a newer observation.
    pub HasNewer-found : Kept found t x y ⊎ Stored found t x y → HasNewer y found.resource_key t
    HasNewer-found (inl kept) =
        subst (λ z. HasNewer z found.resource_key t) (sym kept.unchanged) kept.newer
    HasNewer-found (inr stored) = record {
      indexed = found;
      time = t;
      stands =
          found_after found t x y found.resource_key stored
          ∙ rw ((eq_iff found.resource_key found.resource_key).1 refl) refl;
      seen = seen;
      newer = omega arith;
    }

  pub Grows-same : (x y : Index) → x ≡ y → Grows x y
  Grows-same x y e = subst (Grows x) e (record { keyed = λ k. k; newer = λ key u k. k })

  pub Grows-trans : (x y z : Index) → Grows x y → Grows y z → Grows x z
  Grows-trans x y z g h = record {
    keyed = λ k. h.keyed (g.keyed k);
    newer = λ key u k. h.newer key u (g.newer key u k);
  }

  module _ (scope : Scope) (read : Value → Value) (x y : Index) (g : Grows x y) where
    pub IsSeen-grows :
        (name : String) (entry : Value)
        → IsSeen scope read x name entry
        → IsSeen scope read y name entry
    IsSeen-grows name entry h = record {
      found = h.found;
      time = h.time;
      normal = h.normal;
      seen = h.seen;
      kept = g.newer h.found.resource_key h.time h.kept;
    }

    pub AreSeen-grows : (fs : Fields) → AreSeen scope read x fs → AreSeen scope read y fs
    AreSeen-grows end h = tt
    AreSeen-grows (field name entry rest) (h, hs) =
        (IsSeen-grows name entry h, AreSeen-grows rest hs)
