-- ===== src/Preflight/State/Shape.antt =====
-- On the states that `inspect_terraform_state`, of scripts/akamai_state_preflight.py, reports to
-- `build_report`.
mod Tests
use iac_modules.Common.{
  ℕ, String, ◌≡◌, refl, sym, ◌∙◌, ap, subst, Bool, true, false, ◌&&◌, ◌||◌, Bool-cases, inl, inr,
  or_cases, Option, Option-cases, none, some, List, [], ◌∷◌, ◌++◌, All, length, leb, eqb, arith,
  eq_iff, ◌==◌, Result, ok, ◌>>=◌, if◌then◌else◌, some-injective,
}
use iac_modules.Json.{Value, bool, mapping, str, at, get, find, is_text, eq}
use iac_modules.Preflight.Show.{Resource, is_named}
use iac_modules.Preflight.State.{resource_value, resource_values}
use iac_modules.Preflight.Mapping.{
  Candidate, Standing, one_to_one, mismatched, duplicate, unmapped, standing_of, standing_fields,
  label_fields, map_resource, map_resources, paired, is_complete, is_misplaced, same_identity,
  count_identity, identity_of,
}

-- A resource of the states has an address.
abbrev pub HasAddress : Candidate → Type 0
HasAddress t = (address : Value) × (at "address" t.resource ≡ ok address)

-- A result there is.
abbrev Returns {ℓ} : {A : Type ℓ} → Result A → Type ℓ
Returns {A} m = (a : A) × (m ≡ ok a)

>>=-Returns {ℓ} :
    {A B : Type ℓ} (m : Result A) (f : A → Result B)
    → Returns m
    → ((a : A) → Returns (f a))
    → Returns (m >>= f)
>>=-Returns m f (a, e) later = rw e (later a)

named_either :
    (kind : String) → is_named kind ≡ (kind == "linode_instance" || kind == "linode_firewall")
named_either kind = ground (
  arith,
  eq_iff kind "linode_instance",
  eq_iff "linode_instance" kind,
  eq_iff kind "linode_firewall",
  eq_iff "linode_firewall" kind,
)

abbrev common_fields : Resource → List (String × Value)
common_fields r =
    ("address", str r.address)
    ∷ ("resource_type", str r.kind)
    ∷ ("identity_sha256", str r.identity)
    ∷ ("identity_complete", bool r.complete)
    ∷ []

resource_value-named :
    (r : Resource)
    → is_named r.kind ≡ true
    → resource_value r ≡ mapping (common_fields r ++ ("id", str r.id) ∷ ("label", str r.label) ∷ [])
unfolding resource_value
resource_value-named r h = rw h refl

resource_value-other :
    (r : Resource) → is_named r.kind ≡ false → resource_value r ≡ mapping (common_fields r)
unfolding resource_value
resource_value-other r h = rw h refl

label_fields-Returns : (r : Resource) → Returns (label_fields (resource_value r))
unfolding label_fields find
label_fields-Returns r = elim (Bool-cases (is_named r.kind)) [
  | inl named ↦
      let e = sym (named_either r.kind) ∙ named in
      (
        ("id", str r.id) ∷ ("label", str r.label) ∷ [],
        rw (resource_value-named r named) (rw e refl),
      )
  | inr other ↦
      let e = sym (named_either r.kind) ∙ other in
      ([], rw (resource_value-other r other) (rw e refl))
]

same_identity-All :
    (identity : Value) (ts : List Candidate)
    → All HasAddress ts
    → All HasAddress (same_identity identity ts)
same_identity-All identity [] h = tt
same_identity-All identity (t ∷ ts) (here, h) =
    elim (Bool-cases (eq (identity_of t.resource) identity)) [
      | inl same ↦ rw same (here, same_identity-All identity ts h)
      | inr other ↦ rw other (same_identity-All identity ts h)
    ]

paired-HasAddress :
    (resource : Value) (ts : List Candidate) (n : ℕ) {t : Candidate}
    → All HasAddress ts
    → paired resource ts n ≡ some t
    → HasAddress t
paired-HasAddress resource [] n h e = absurd (cc)
paired-HasAddress resource (u ∷ v ∷ ts) n h e = absurd (cc)
paired-HasAddress resource (u ∷ []) n (here, _) e =
    elim (Bool-cases (is_complete resource && (is_complete u.resource && eqb n 1))) [
      | inl both ↦ subst HasAddress (some-injective (rw both at e)) here
      | inr fails ↦ absurd (let none_ = rw fails at e in cc)
    ]

-- What a standing refers to has an address.
abbrev IsPlaced : Standing → Type 0
IsPlaced (one_to_one t) = HasAddress t
IsPlaced (mismatched t) = HasAddress t
IsPlaced _ = Unit

standing_fields-Returns : (s : Standing) (n : ℕ) → IsPlaced s → Returns (standing_fields s n)
unfolding standing_fields
standing_fields-Returns (one_to_one t) n h =
    >>=-Returns (at "address" t.resource) _ h (λ address. (_, refl))
standing_fields-Returns (mismatched t) n h =
    >>=-Returns (at "address" t.resource) _ h (λ address. (_, refl))
standing_fields-Returns duplicate n h = (_, refl)
standing_fields-Returns unmapped n h = (_, refl)

standing_of-IsPlaced :
    (expectations legacy : List Value) (targets : List Candidate) (resource : Value)
    → All HasAddress targets
    → IsPlaced (standing_of expectations legacy targets resource)
unfolding standing_of
standing_of-IsPlaced expectations legacy targets resource h =
    let matches = same_identity (identity_of resource) targets in
    let count = count_identity (identity_of resource) legacy in
    elim (Option-cases (paired resource matches count)) [
      | inl nothing ↦ rw (nothing, standing_of) (apart (leb 2 (length matches) || leb 2 count))
      | inr (t, is_t) ↦
          let placed : HasAddress t =
            paired-HasAddress resource matches count
              (same_identity-All (identity_of resource) targets h) is_t in
          elim (Bool-cases (is_misplaced expectations resource t)) [
            | inl away ↦ rw (is_t, away, standing_of) placed
            | inr here ↦ rw (is_t, here, standing_of) placed
          ]
    ]
  where
    apart : (b : Bool) → IsPlaced (if b then duplicate else unmapped)
    apart true = tt
    apart false = tt

module _ (expectations legacy : List Value) (targets : List Candidate)
    (placed : All HasAddress targets) where
  map_resource-Returns :
      (r : Resource) → Returns (map_resource expectations legacy targets (resource_value r))
  unfolding map_resource resource_value find
  map_resource-Returns r =
      let v = resource_value r in
      let placed_here = standing_of-IsPlaced expectations legacy targets v placed in
      >>=-Returns (at "identity_sha256" v) _ (str r.identity, refl)
        λ identity.
          >>=-Returns (at "address" v) _ (str r.address, refl)
            λ address.
              >>=-Returns (at "resource_type" v) _ (str r.kind, refl)
                λ kind. >>=-Returns (label_fields v) _ (label_fields-Returns r) λ labels.
                  >>=-Returns
                    (standing_fields (standing_of expectations legacy targets v)
                      (length (same_identity identity targets)))
                    _
                    (standing_fields-Returns (standing_of expectations legacy targets v)
                      (length (same_identity identity targets)) placed_here)
                    λ stands. (
                      (
                        standing_of expectations legacy targets v,
                        mapping (
                            ("legacy_address", address)
                            ∷ ("resource_type", kind)
                            ∷ ("identity_sha256", identity)
                            ∷ (labels ++ stands)),
                      ),
                      refl,
                    )

  -- The mapping of a state's resources, as they are projected from the output of `terraform show`,
  -- never raises, whatever is expected and whatever the legacy state holds, where the resources of
  -- the namespaces' states have addresses.
  pub map_resources-Returns :
      (rs : List Resource)
      → (mapped : List (Standing × Value)) × (map_resources expectations legacy targets
            (resource_values rs)
          ≡ ok mapped)
  unfolding map_resources resource_values
  map_resources-Returns [] = ([], refl)
  map_resources-Returns (r ∷ rs) =
      >>=-Returns (map_resource expectations legacy targets (resource_value r)) _
        (map_resource-Returns r)
        λ here.
          >>=-Returns (map_resources expectations legacy targets (resource_values rs)) _
            (map_resources-Returns rs) λ others. (here ∷ others, refl)
