-- ===== src/Contracts/Ownership.antt =====
-- `owner_match` of scripts/pipeline/unified/contracts.py: which Terraform addresses a stage owns.
use mathlib.Core.Logic.{inl, inr}
use iac_modules.Common.{
  String, ◌≡◌, ap, ◌∙◌, ◌↔◌, Bool, true, ◌||◌, List, any, member, ◌==◌, eq_iff, ◌+++◌, starts_with,
  starts_with-append, starts_with_rest, append_assoc, or_cases, arith, any-member,
}

-- The address is the owner, an attribute of it or an instance of it.
abbrev pub owned_by : String → String → Bool
owned_by address owner =
    address == owner || (starts_with address (owner +++ ".") || starts_with address (owner +++ "["))

unfoldable pub owner_match : String → List String → Bool
owner_match address owners = any (owned_by address) owners

-- What it means to be owned, with no test: the rest of the address follows a dot or a bracket.
pub data Owns (owner address : String) : Type 0 where
  whole : address ≡ owner → Owns owner address
  attribute : (rest : String) → address ≡ owner +++ ("." +++ rest) → Owns owner address
  instance_of : (rest : String) → address ≡ owner +++ ("[" +++ rest) → Owns owner address

owned_by-Owns : (address owner : String) → owned_by address owner ≡ true → Owns owner address
owned_by-Owns address owner h = elim (or_cases (address == owner) _ h) [
  | inl same ↦ whole ((eq_iff address owner).0 same)
  | inr further ↦ elim (or_cases (starts_with address (owner +++ ".")) _ further) [
    | inl dotted ↦
        let (rest, e) = starts_with_rest address (owner +++ ".") dotted in
        attribute rest (e ∙ append_assoc owner "." rest)
    | inr bracketed ↦
        let (rest, e) = starts_with_rest address (owner +++ "[") bracketed in
        instance_of rest (e ∙ append_assoc owner "[" rest)
  ]
]

starts_with-joined :
    (address owner mark rest : String)
    → address ≡ owner +++ (mark +++ rest)
    → starts_with address (owner +++ mark) ≡ true
starts_with-joined address owner mark rest e =
    rw e (rw (← append_assoc owner mark rest) (starts_with-append (owner +++ mark) rest))

Owns-owned_by : {address owner : String} → Owns owner address → owned_by address owner ≡ true
Owns-owned_by {address} {owner} (whole e) = ground (arith, eq_iff address owner)
Owns-owned_by {address} {owner} (attribute rest e) =
    ground (arith, starts_with-joined address owner "." rest e)
Owns-owned_by {address} {owner} (instance_of rest e) =
    ground (arith, starts_with-joined address owner "[" rest e)

-- One of the owners owns the address.
abbrev pub IsOwned : String → List String → Type 0
IsOwned address owners = (owner : String) × (member owner owners ≡ true) × Owns owner address

-- `owner_match` accepts an address exactly when a listed owner owns it.
owner_match_iff :
    (address : String) (owners : List String)
    → (owner_match address owners ≡ true) ↔ IsOwned address owners
unfolding owner_match
owner_match_iff address owners = (
  λ h.
      let (owner, m, owned) = (any-member (owned_by address) owners).0 h in
      (owner, m, owned_by-Owns address owner owned),
  λ (owner, m, owned). (any-member (owned_by address) owners).1 (owner, m, Owns-owned_by owned),
)

Owns-nested :
    {owner address : String} (rest : String)
    → Owns owner address
    → Owns owner (address +++ ("." +++ rest))
Owns-nested rest (whole e) = attribute rest (ap (λ a. a +++ ("." +++ rest)) e)
Owns-nested {owner} rest (attribute r e) =
    attribute (r +++ ("." +++ rest)) (rw e (simp append_assoc))
Owns-nested {owner} rest (instance_of r e) =
    instance_of (r +++ ("." +++ rest)) (rw e (simp append_assoc))

-- What is nested in an owned address is owned: a module's owner owns all its resources.
owner_match-nested :
    (address rest : String) (owners : List String)
    → owner_match address owners ≡ true
    → owner_match (address +++ ("." +++ rest)) owners ≡ true
owner_match-nested address rest owners h =
    let (owner, m, owned) = (owner_match_iff address owners).0 h in
    (owner_match_iff _ owners).1 (owner, m, Owns-nested rest owned)
