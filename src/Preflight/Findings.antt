-- ===== src/Preflight/Findings.antt =====
-- `_project_live`, `_one_by_label` and the findings of `_classify_namespace`, of
-- scripts/akamai_state_preflight.py.
use iac_modules.Common.{
  String, Bool, true, false, not, ◌&&◌, ◌||◌, List, [], ◌∷◌, ◌++◌, any, all_chars, is_digit, length,
  leb, ◌==◌, Result, ok, require, ◌>>=◌, ◌>>◌, if◌then◌else◌,
}
use iac_modules.Json.{
  Value, bool, int, str, mapping, get, get_or, eq, is_text, is_str, truthy, members, text_value,
}
use iac_modules.Contracts.Ownership.{owner_match}

abbrev pub is_nonempty : List Value → Bool
is_nonempty [] = false
is_nonempty (v ∷ vs) = true

abbrev pub shown : (Value → String) → Value → String
shown show (str s) = s
shown show v = show v

-- `isinstance(value, (str, int, float, bool))`
abbrev pub is_scalar : Value → Bool
is_scalar (str s) = true
is_scalar (int n) = true
is_scalar (bool b) = true
is_scalar v = false

abbrev pub scalars : Value → List String → List (String × Value)
scalars item [] = []
scalars item (k ∷ ks) =
    let rest = scalars item ks in if is_scalar (get k item) then (k, get k item) ∷ rest else rest

abbrev pub live_keys : String → List String
live_keys kind =
    if kind == "linode_instance" then "region" ∷ "type" ∷ "status" ∷ [] else "status" ∷ []

-- One round of the loop over what the API lists. A resource without a label is skipped.
unfoldable pub project_one : (Value → String) → String → Value → Result (List Value)
project_one show kind item =
    if is_str (get "label" item)
    then (do
      let identifier = shown show (get_or "id" (str "") item)
      require (not (identifier == "") && all_chars is_digit identifier) "linode_resource_id_invalid"
      ok (
          mapping
            (("id", str identifier) ∷ ("label", get "label" item) ∷ scalars item (live_keys kind))
          ∷ []))
    else ok []

unfoldable pub project_live : (Value → String) → List Value → String → Result (List Value)
project_live show [] kind = ok []
project_live show (item ∷ rest) kind = do
  one ← project_one show kind item
  others ← project_live show rest kind
  ok (one ++ others)

-- `_one_by_label`
abbrev pub one_by_label : List Value → Value → List Value
one_by_label [] label = []
one_by_label (v ∷ vs) label =
    let rest = one_by_label vs label in if eq (get "label" v) label then v ∷ rest else rest

-- The resources of a type and a label.
abbrev pub of_kind : String → Value → List Value → List Value
of_kind kind label [] = []
of_kind kind label (v ∷ vs) =
    let rest = of_kind kind label vs in
    if is_text kind (get "resource_type" v) && eq (get "label" v) label then v ∷ rest else rest

-- What was found of the expected instance and its firewall.
pub record Facts : Type 0 where
  pub live_instance : List Value
  pub live_firewall : List Value
  pub state_instances : List Value
  pub state_firewalls : List Value
  pub target_instances : List Value
  pub target_firewalls : List Value

-- The lists that are searched.
pub record Listed : Type 0 where
  pub instances : List Value
  pub firewalls : List Value
  pub legacy : List Value
  pub namespace : List Value

unfoldable pub facts_of : Value → Listed → Facts
facts_of expected l =
    let label = get "label" expected in
    let firewall = get "firewall_label" expected in
    record {
      live_instance = one_by_label l.instances label;
      live_firewall = one_by_label l.firewalls firewall;
      state_instances = of_kind "linode_instance" label l.legacy;
      state_firewalls = of_kind "linode_firewall" firewall l.legacy;
      target_instances = of_kind "linode_instance" label l.namespace;
      target_firewalls = of_kind "linode_firewall" firewall l.namespace;
    }

abbrev pub when_found : Bool → String → List String
when_found c name = if c then name ∷ [] else []

abbrev pub strings : List Value → List String
strings [] = []
strings (v ∷ vs) = text_value v ∷ strings vs

abbrev pub same_id : Value → List Value → List Value
same_id id [] = []
same_id id (v ∷ vs) = let rest = same_id id vs in if eq (get "id" v) id then v ∷ rest else rest

abbrev pub first_label_differs : List Value → Value → Bool
first_label_differs [] label = false
first_label_differs (v ∷ vs) label = not (eq (get "label" v) label)

-- The checks of one type in the namespace's state.
abbrev pub label_failures : String → Value → List Value → List Value → List String
label_failures kind label live [] = []
label_failures kind label live (r ∷ rs) =
    let rest = label_failures kind label live rs in
    if is_text kind (get "resource_type" r)
    then when_found (not (eq (get "label" r) label))
        "namespace_state_label_differs_from_declaration"
      ++ when_found (first_label_differs (same_id (get "id" r) live) (get "label" r))
          "live_resource_id_label_mismatch"
      ++ rest
    else rest

-- A resource of the type under the id of a live one, with another label.
abbrev pub mislabelled : String → Value → List Value → List Value → Bool
mislabelled kind label live resources =
    any
      (λ r.
        is_text kind (get "resource_type" r)
        && (is_nonempty (same_id (get "id" r) live) && not (eq (get "label" r) label)))
      resources

-- The first ones of both lists have different ids.
abbrev pub first_ids_differ : List Value → List Value → Bool
first_ids_differ (a ∷ xs) (b ∷ ys) = not (eq (get "id" a) (get "id" b))
first_ids_differ xs ys = false

abbrev pub several : List Value → Bool
several vs = leb 2 (length vs)

abbrev pub missing : List Value → List Value → Bool
missing found live = is_nonempty found && not (is_nonempty live)

-- The failures that compare the states with each other and with what is live.
abbrev pub match_failures : Value → Listed → Facts → List String
match_failures expected l f =
    let label = get "label" expected in
    let firewall = get "firewall_label" expected in
    when_found (mislabelled "linode_instance" label f.live_instance l.legacy)
      "legacy_state_instance_id_label_mismatch"
    ++ when_found (mislabelled "linode_firewall" firewall f.live_firewall l.legacy)
        "legacy_state_firewall_id_label_mismatch"
    ++ when_found (mislabelled "linode_instance" label f.live_instance l.namespace)
        "namespace_state_instance_id_label_mismatch"
    ++ when_found (mislabelled "linode_firewall" firewall f.live_firewall l.namespace)
        "namespace_state_firewall_id_label_mismatch"
    ++ when_found (several f.live_instance || several f.live_firewall) "duplicate_live_label"
    ++ when_found (several f.state_instances || several f.state_firewalls)
        "duplicate_legacy_state_label"
    ++ when_found (several f.target_instances || several f.target_firewalls)
        "duplicate_namespace_state_label"
    ++ when_found (first_ids_differ f.state_instances f.live_instance)
        "legacy_state_instance_id_mismatch"
    ++ when_found (first_ids_differ f.state_firewalls f.live_firewall)
        "legacy_state_firewall_id_mismatch"
    ++ when_found (first_ids_differ f.target_instances f.live_instance)
        "namespace_state_instance_id_mismatch"
    ++ when_found (first_ids_differ f.target_firewalls f.live_firewall)
        "namespace_state_firewall_id_mismatch"
    ++ when_found
        (missing f.state_instances f.live_instance || missing f.state_firewalls f.live_firewall)
        "state_resource_missing_from_linode_api"
    ++ when_found
        (missing f.target_instances f.live_instance || missing f.target_firewalls f.live_firewall)
        "namespace_state_resource_missing_from_linode_api"
    ++ when_found (missing f.live_firewall f.live_instance) "orphan_firewall"
    ++ when_found
        (is_nonempty f.state_firewalls
          && (is_nonempty f.live_instance && not (is_nonempty f.state_instances)))
        "firewall_only_in_legacy_state"
    ++ when_found
        (is_nonempty f.target_firewalls
          && (is_nonempty f.live_instance && not (is_nonempty f.target_instances)))
        "firewall_only_in_namespace_state"

-- `failures`, up to the choice of the status
unfoldable pub failures_of : Value → Listed → Facts → List String
failures_of expected l f =
    let label = get "label" expected in
    let firewall = get "firewall_label" expected in
    when_found
      (truthy (get "owners" expected)
        && any
            (λ r. not (
              owner_match (text_value (get "address" r))
                (strings (members (get "owners" expected)))))
            l.namespace)
      "state_resource_outside_declared_owners"
    ++ label_failures "linode_instance" label l.instances l.namespace
    ++ label_failures "linode_firewall" firewall l.firewalls l.namespace
    ++ when_found
        (is_nonempty l.namespace
          && (not (is_nonempty f.target_instances) && not (is_nonempty f.target_firewalls)))
        "namespace_state_contains_unmatched_bindings"
    ++ match_failures expected l f
