-- ===== src/States.antt =====
-- `state_resources`, `isolated_states`, `verify_retained` and `state_digest` of
-- scripts/pipeline/unified/validation.py: what a cleanup of a candidate may find in the states of the
-- candidate and its serving source. JSON texts, their SHA-256 and `str` are parameters.
mod Addresses
pub mod Laws
mod Tests
use Prim.Native.String
use Prim.Native.Char.{code}
use iac_modules.Common.{
  ℕ, String, Bool, true, false, not, ◌&&◌, ◌||◌, Option, none, some, List, [], ◌∷◌, ◌++◌, all, any,
  length, member, eqb, starts_with, drop, text_leb, sorted, ◌==◌, ◌+++◌, Result, ok, err, malformed,
  require, expect, collect, ◌>>=◌, ◌>>◌, if◌then◌else◌,
}
use iac_modules.Json.{
  Value, str, obj, arr, nil, end, items, get, get_or, at, has, put, eq, is_text, is_list,
  is_mapping, truthy, members, is_loopable, text_value, as_text, as_texts,
}
use iac_modules.Contracts.Ownership.{owner_match}

-- `json.dumps(value, sort_keys=True)`, the SHA-256 of it, and `str(value)`.
pub record Texts : Type 0 where
  pub dumps : Value → String
  pub sha256 : Value → String
  pub show : Value → String

-- `[^"\]]+` and then `"]`, after a part that was read.
abbrev quoted_rest : String → String → Option String
quoted_rest taken String.[] = none
quoted_rest taken (String.◌∷◌ c cs) =
    let later = quoted_rest (taken +++ String.◌∷◌ c String.[]) cs in
    if eqb (code c) b'"'
    then (if starts_with cs "]" && not (taken == "") then some taken else none)
    else if eqb (code c) b']'
    then none
    else later

-- `re.search(r'provider\["([^"\]]+)"\]', text)`
abbrev pub provider_name : String → Option String
provider_name String.[] = none
provider_name (String.◌∷◌ c cs) =
    let whole = String.◌∷◌ c cs in
    let later = provider_name cs in
    elim (if starts_with whole "provider[\"" then quoted_rest "" (drop 10 whole) else none) [
      | none ↦ later
      | some name ↦ some name
    ]

-- The provider, the type and the id of an instance.
abbrev pub Identity : Type 0
Identity = String × String × String

abbrev pub same_identity : Identity → Identity → Bool
same_identity (p, t, i) (q, u, j) = p == q && (t == u && i == j)

-- The resources of a state, by address.
abbrev pub Resources : Type 0
Resources = List (String × Identity)

abbrev pub addresses : Resources → List String
addresses [] = []
addresses ((a, i) ∷ rest) = a ∷ addresses rest

-- `".".join(filter(None, parts))`
abbrev joined : List String → String
joined [] = ""
joined (p ∷ ps) =
    let rest = joined ps in if p == "" then rest else if rest == "" then p else p +++ ("." +++ rest)

abbrev pub index_suffix : Texts → Value → String
index_suffix t instance_ =
    if has "index_key" instance_ then "[" +++ (t.dumps (get "index_key" instance_) +++ "]") else ""

-- `str(v)` of the id, where a missing one is the empty text
abbrev pub id_text : Texts → Value → String
id_text t (str s) = s
id_text t v = t.show v

-- One round of the inner loop.
unfoldable pub add_instance : Texts → Value → String → Resources → Value → Result Resources
add_instance t resource base found instance_ = do
  provider ← at "provider" resource
  text ← as_text provider
  let name = provider_name text
  require (elim name [ none ↦ false | some n ↦ true ]) "state provider identity is incomplete"
  kind ← at "type" resource
  let address = base +++ index_suffix t instance_
  let id = id_text t (get_or "id" (str "") (get_or "attributes" (obj end) instance_))
  require (not (id == "") && not (member address (addresses found)))
      "state resource identity is incomplete"
  ok (found ++ (address, (elim name [ none ↦ "" | some n ↦ n ], text_value kind, id)) ∷ [])

unfoldable pub add_instances : Texts → Value → String → Resources → List Value → Result Resources
add_instances t resource base found [] = ok found
add_instances t resource base found (instance_ ∷ rest) = do
  more ← add_instance t resource base found instance_
  add_instances t resource base more rest

abbrev module_of : Value → String
module_of resource = text_value (get "module" resource)

-- One round of the outer loop.
unfoldable pub add_resource : Texts → Resources → Value → Result Resources
add_resource t found resource =
    if is_text "managed" (get_or "mode" (str "managed") resource)
    then (do
      kind ← at "type" resource
      name ← at "name" resource
      let base = joined (module_of resource ∷ text_value kind ∷ text_value name ∷ [])
      let instances = get_or "instances" (arr nil) resource
      expect (is_loopable instances)
      add_instances t resource base found (members instances))
    else ok found

unfoldable pub add_resources : Texts → Resources → List Value → Result Resources
add_resources t found [] = ok found
add_resources t found (resource ∷ rest) = do
  more ← add_resource t found resource
  add_resources t more rest

unfoldable pub state_resources : Texts → Value → Result Resources
state_resources t state = do
  let resources = get_or "resources" (arr nil) state
  expect (is_loopable resources)
  add_resources t [] (members resources)

abbrev pub owned : List String → Resources → Resources
owned owners [] = []
owned owners (r ∷ rs) =
    let rest = owned owners rs in if owner_match r.0 owners then r ∷ rest else rest

abbrev pub not_owned : List String → Resources → Resources
not_owned owners [] = []
not_owned owners (r ∷ rs) =
    let rest = not_owned owners rs in if owner_match r.0 owners then rest else r ∷ rest

-- The identity stands among the resources.
abbrev pub has_identity : Identity → Resources → Bool
has_identity i [] = false
has_identity i ((a, j) ∷ rest) = same_identity i j || has_identity i rest

-- No identity stands in both states.
abbrev pub disjoint : Resources → Resources → Bool
disjoint current serving = all (λ (r : String × Identity). not (has_identity r.1 serving)) current

abbrev pub some_resource : Resources → Bool
some_resource [] = false
some_resource (r ∷ rs) = true

-- The only resource, if it is an instance.
abbrev pub is_one_instance : Resources → Bool
is_one_instance [] = false
is_one_instance ((a, (p, t, i)) ∷ []) = t == "linode_instance"
is_one_instance (r ∷ s ∷ rs) = false

abbrev pub covers : Resources → String → Bool
covers current owner = any (λ (r : String × Identity). owner_match r.0 (owner ∷ [])) current

unfoldable pub isolated_states : Texts → Value → Value → Value → Result (Resources × Resources)
isolated_states t target candidate source = do
  require
      ((truthy (get "lineage" candidate) && truthy (get "lineage" source))
        && not (eq (get "lineage" candidate) (get "lineage" source)))
      "candidate/source state lineage must differ"
  current ← state_resources t candidate
  serving ← state_resources t source
  require (some_resource current && some_resource serving)
      "both candidate and serving source state must exist"
  let validation = get "validation" target
  source_owners ← as_texts (get "owners" (get "source_binding" validation))
  require (all (λ (r : String × Identity). owner_match r.0 source_owners) serving)
      "serving source state does not match its declared ownership"
  require (disjoint current serving) "candidate state contains serving source resources"
  owners ← as_texts (get "destroy_owners" validation)
  require (is_one_instance (owned owners current)) "exactly one candidate instance must be present"
  let spec = get "resources" (get "stages" target)
  own ← as_texts (get "owners" spec)
  require (all (λ (r : String × Identity). owner_match r.0 own) current)
      "candidate state contains undeclared resources"
  protected ← as_texts (get_or "protected" (arr nil) spec)
  require (all (covers current) protected)
      "retained protected resource is missing from candidate state"
  ok (current, owned owners current)

abbrev pub has_resource : String × Identity → Resources → Bool
has_resource r [] = false
has_resource r (s ∷ rest) = (r.0 == s.0 && same_identity r.1 s.1) || has_resource r rest

abbrev pub all_in : Resources → Resources → Bool
all_in a b = all (λ (r : String × Identity). has_resource r b) a

-- `a == b` of two mappings
abbrev pub same_resources : Resources → Resources → Bool
same_resources a b = all_in a b && all_in b a

unfoldable pub verify_retained : Texts → Resources → Value → List String → Result (Unit {0})
verify_retained t before after owners = do
  found ← state_resources t after
  require (same_resources found (not_owned owners before))
      "validation cleanup changed retained resources"

-- `sorted(values, key=dumps)`
abbrev sorted_by_text : Texts → Value → Value
sorted_by_text t v = arr (items (sorted (λ a b. text_leb (t.dumps a) (t.dumps b)) (members v)))

abbrev normal_check : Texts → Value → Value
normal_check t check =
    if is_list (get "objects" check)
    then put "objects" (sorted_by_text t (get "objects" check)) check
    else check

abbrev normal_checks : Texts → List Value → List Value
normal_checks t [] = []
normal_checks t (c ∷ cs) = normal_check t c ∷ normal_checks t cs

-- The state with its unordered parts in the order of their texts.
abbrev pub normalized : Texts → Value → Value
normalized t state =
    if is_list (get "check_results" state)
    then put "check_results"
        (sorted_by_text t (arr (items (normal_checks t (members (get "check_results" state))))))
        state
    else state

abbrev pub state_digest : Texts → Value → String
state_digest t state = t.sha256 (normalized t state)
