-- ===== src/Preflight/Show.antt =====
-- `parse_terraform_show_json` of scripts/akamai_state_preflight.py: the managed resources of a state,
-- without what else it holds. `str` and the SHA-256 of a JSON list of texts are parameters.
use iac_modules.Common.{
  String, Bool, true, false, not, ◌&&◌, ◌||◌, List, [], ◌∷◌, ◌++◌, all_chars, is_digit, is_alnum,
  one_of, head_tail, member, ◌==◌, Result, ok, err, refused, require, when, ◌>>=◌, ◌>>◌,
  if◌then◌else◌,
}
use iac_modules.Json.{
  Value, Fields, Items, null, str, obj, arr, nil, end, field, cons, get, get_or, is_null, is_text,
  is_list, is_mapping, truthy, members,
}
use iac_modules.Preflight.Findings.{shown}

pub record Texts : Type 0 where
  pub show : Value → String
  pub list_sha256 : List String → String

-- A managed resource, as the report keeps it.
pub record Resource : Type 0 where
  pub address : String
  pub kind : String
  pub identity : String
  pub complete : Bool
  pub id : String
  pub label : String

-- The types whose identity the report names.
abbrev pub is_named : String → Bool
is_named kind = member kind ("linode_instance" ∷ "linode_firewall" ∷ [])

abbrev pub is_decimal : String → Bool
is_decimal s = not (s == "") && all_chars is_digit s

-- `LABEL_PATTERN`
abbrev pub is_label : String → Bool
is_label s = head_tail is_alnum (λ c. is_alnum c || one_of "_.-" c) 95 s

unfoldable pub check_named : String → String → Result (Unit {0})
check_named id label = do
  require (not (id == "")) "terraform_state_resource_id_missing"
  require (is_decimal id) "terraform_state_resource_id_invalid"
  require (is_label label) "terraform_state_resource_label_invalid"

abbrev pub is_managed : Value → Bool
is_managed item = is_mapping item && is_text "managed" (get_or "mode" (str "managed") item)

abbrev pub id_of : Texts → Value → String
id_of t values = let id = get_or "id" (str "") values in if truthy id then shown t.show id else ""

abbrev pub label_of : Texts → Value → String
label_of t values = if is_null (get "label" values) then "" else shown t.show (get "label" values)

-- One round of the loop over a module's resources.
unfoldable pub read_resource : Texts → Value → Result (List Resource)
read_resource t item =
    if is_managed item
    then (do
      let address = shown t.show (get_or "address" (str "") item)
      let kind = shown t.show (get_or "type" (str "") item)
      let values = get "values" item
      require (not (address == "") && (not (kind == "") && is_mapping values))
          "terraform_show_resource_invalid"
      let id = id_of t values
      let label = label_of t values
      when (is_named kind) (check_named id label)
      ok (
          record {
            address = address;
            kind = kind;
            identity = t.list_sha256 (kind ∷ id ∷ label ∷ (if id == "" then address else "") ∷ []);
            complete = not (id == "");
            id = id;
            label = label;
          }
          ∷ []))
    else ok []

unfoldable pub read_resources : Texts → List Value → Result (List Resource)
read_resources t [] = ok []
read_resources t (item ∷ rest) = do
  one ← read_resource t item
  others ← read_resources t rest
  ok (one ++ others)

-- A module's own resources.
unfoldable pub own_resources : Texts → Fields → Result (List Resource)
own_resources t fs = do
  let module_ = obj fs
  require
      (is_list (get_or "resources" (arr nil) module_)
        && is_list (get_or "child_modules" (arr nil) module_))
      "terraform_show_module_invalid"
  read_resources t (members (get_or "resources" (arr nil) module_))

unfoldable mutual
  -- `visit_module`: a module's resources, and then those of its children.
  pub visit_module : Texts → Value → Result (List Resource)
  visit_module t (obj fs) =
      let children = visit_children t fs in
      do own ← own_resources t fs; below ← children; ok (own ++ below)
  visit_module t v = err (refused "terraform_show_child_module_invalid")

  -- The children are those of the first such key.
  pub visit_children : Texts → Fields → Result (List Resource)
  visit_children t end = ok []
  visit_children t (field k v fs) =
      let here = visit_list t v in
      let later = visit_children t fs in if k == "child_modules" then here else later

  pub visit_list : Texts → Value → Result (List Resource)
  visit_list t (arr xs) = visit_items t xs
  visit_list t v = ok []

  pub visit_items : Texts → Items → Result (List Resource)
  visit_items t nil = ok []
  visit_items t (cons v vs) =
      let first = visit_module t v in
      let later = visit_items t vs in do one ← first; others ← later; ok (one ++ others)

abbrev pub root_module : Value → Value
root_module document =
    let values = get "values" document in
    if is_mapping values then get "root_module" values else null

-- The resources, and whether there is a state. The document is the JSON of the output.
unfoldable pub parse_terraform_show_json : Texts → Value → Result (List Resource × Bool)
parse_terraform_show_json t document = do
  require (is_mapping document) "terraform_show_json_invalid"
  let root = root_module document
  if is_null root then ok ([], false) else (do
    require (is_mapping root) "terraform_show_root_module_invalid"
    resources ← visit_module t root
    ok (resources, true))
