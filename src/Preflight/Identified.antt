-- ===== src/Preflight/Identified.antt =====
-- On `parse_terraform_show_json` of scripts/akamai_state_preflight.py.
use iac_modules.Common.{
  String, ◌≡◌, subst, Bool, true, false, not, ◌&&◌, Bool-cases, inl, inr, List, [], ◌∷◌, All,
  All-append, ◌==◌, ok, when, >>=-eq-ok, require-eq-ok, >>-eq-ok, when-eq-ok, require-passed,
  ok-injective,
}
use iac_modules.Json.{
  Value, Fields, Items, null, bool, str, int, obj, arr, nil, end, field, cons, get, get_or, is_null,
  is_mapping, members,
}
use iac_modules.Preflight.Findings.{shown}
use iac_modules.Preflight.Show.{
  Texts, Resource, is_named, is_decimal, is_label, check_named, is_managed, id_of, label_of,
  read_resource, read_resources, own_resources, visit_module, visit_children, visit_list,
  visit_items, root_module, parse_terraform_show_json,
}

-- The identity of a resource that the report names is usable.
pub record IsIdentified (r : Resource) : Type 0 where
  pub id : is_named r.kind ≡ true → is_decimal r.id ≡ true
  pub label : is_named r.kind ≡ true → is_label r.label ≡ true

check_named-passed :
    (id label : String)
    → check_named id label ≡ ok tt
    → (is_decimal id ≡ true) × (is_label label ≡ true)
unfolding check_named
check_named-passed id label h =
    let (_, h1) = require-eq-ok (not (id == "")) "terraform_state_resource_id_missing" _ h in
    let (decimal, h2) = require-eq-ok (is_decimal id) "terraform_state_resource_id_invalid" _ h1 in
    (decimal, require-passed (is_label label) _ h2)

read_resource-IsIdentified :
    (t : Texts) (item : Value) {rs : List Resource}
    → read_resource t item ≡ ok rs
    → All IsIdentified rs
unfolding read_resource
read_resource-IsIdentified t item h = elim (Bool-cases (is_managed item)) [
  | inr other ↦ subst (All IsIdentified) (ok-injective (rw other at h)) tt
  | inl managed ↦
      let address = shown t.show (get_or "address" (str "") item) in
      let kind = shown t.show (get_or "type" (str "") item) in
      let values = get "values" item in
      let (_, h1) =
        require-eq-ok (not (address == "") && (not (kind == "") && is_mapping values))
          "terraform_show_resource_invalid" _ (rw managed at h) in
      let (checked, h2) =
        >>-eq-ok (when (is_named kind) (check_named (id_of t values) (label_of t values))) _ h1 in
      let passed = λ (named : is_named kind ≡ true).
        check_named-passed (id_of t values) (label_of t values)
          (when-eq-ok (is_named kind) _ checked named) in
      subst (All IsIdentified) (ok-injective h2)
        (record { id = λ named. (passed named).0; label = λ named. (passed named).1 }, tt)
]

read_resources-IsIdentified :
    (t : Texts) (list : List Value) {rs : List Resource}
    → read_resources t list ≡ ok rs
    → All IsIdentified rs
unfolding read_resources
read_resources-IsIdentified t [] h = subst (All IsIdentified) (ok-injective h) tt
read_resources-IsIdentified t (item ∷ rest) h =
    let (one, here, h1) = >>=-eq-ok (read_resource t item) _ h in
    let (others, there, h2) = >>=-eq-ok (read_resources t rest) _ h1 in
    subst (All IsIdentified) (ok-injective h2) (
      All-append IsIdentified one others (read_resource-IsIdentified t item here)
        (read_resources-IsIdentified t rest there))

own_resources-IsIdentified :
    (t : Texts) (fs : Fields) {rs : List Resource}
    → own_resources t fs ≡ ok rs
    → All IsIdentified rs
unfolding own_resources
own_resources-IsIdentified t fs h =
    let (_, h1) = require-eq-ok _ "terraform_show_module_invalid" _ h in
    read_resources-IsIdentified t (members (get_or "resources" (arr nil) (obj fs))) h1

mutual
  unfolding visit_module visit_children visit_list visit_items

  module-IsIdentified :
      (t : Texts) (v : Value) {rs : List Resource} → visit_module t v ≡ ok rs → All IsIdentified rs
  module-IsIdentified t (obj fs) h =
      let (own, here, h1) = >>=-eq-ok (own_resources t fs) _ h in
      let (below, there, h2) = >>=-eq-ok (visit_children t fs) _ h1 in
      subst (All IsIdentified) (ok-injective h2) (
        All-append IsIdentified own below (own_resources-IsIdentified t fs here)
          (children-IsIdentified t fs there))
  module-IsIdentified t null h = absurd (cc)
  module-IsIdentified t (bool b) h = absurd (cc)
  module-IsIdentified t (int n) h = absurd (cc)
  module-IsIdentified t (str s) h = absurd (cc)
  module-IsIdentified t (arr xs) h = absurd (cc)

  children-IsIdentified :
      (t : Texts) (fs : Fields) {rs : List Resource}
      → visit_children t fs ≡ ok rs
      → All IsIdentified rs
  children-IsIdentified t end h = subst (All IsIdentified) (ok-injective h) tt
  children-IsIdentified t (field k v fs) h = elim (Bool-cases (k == "child_modules")) [
    | inl here ↦ list-IsIdentified t v (rw here at h)
    | inr other ↦ children-IsIdentified t fs (rw other at h)
  ]

  list-IsIdentified :
      (t : Texts) (v : Value) {rs : List Resource} → visit_list t v ≡ ok rs → All IsIdentified rs
  list-IsIdentified t (arr xs) h = items-IsIdentified t xs h
  list-IsIdentified t (obj fs) h = subst (All IsIdentified) (ok-injective h) tt
  list-IsIdentified t null h = subst (All IsIdentified) (ok-injective h) tt
  list-IsIdentified t (bool b) h = subst (All IsIdentified) (ok-injective h) tt
  list-IsIdentified t (int n) h = subst (All IsIdentified) (ok-injective h) tt
  list-IsIdentified t (str s) h = subst (All IsIdentified) (ok-injective h) tt

  items-IsIdentified :
      (t : Texts) (vs : Items) {rs : List Resource} → visit_items t vs ≡ ok rs → All IsIdentified rs
  items-IsIdentified t nil h = subst (All IsIdentified) (ok-injective h) tt
  items-IsIdentified t (cons v vs) h =
      let (one, here, h1) = >>=-eq-ok (visit_module t v) _ h in
      let (others, there, h2) = >>=-eq-ok (visit_items t vs) _ h1 in
      subst (All IsIdentified) (ok-injective h2) (
        All-append IsIdentified one others (module-IsIdentified t v here)
          (items-IsIdentified t vs there))

-- Every instance and every firewall that a state gives, in whatever nested module, has a decimal id
-- and a label of the permitted form, so that it can be compared with what the provider lists.
pub parse_terraform_show_json-IsIdentified :
    (t : Texts) (document : Value) (resources : List Resource) (present : Bool)
    → parse_terraform_show_json t document ≡ ok (resources, present)
    → All IsIdentified resources
unfolding parse_terraform_show_json
parse_terraform_show_json-IsIdentified t document resources present h =
    let (_, h1) = require-eq-ok (is_mapping document) "terraform_show_json_invalid" _ h in
    let root = root_module document in
    elim (Bool-cases (is_null root)) [
      | inl none ↦
          let done : ◌≡◌ {A = List Resource × Bool} ([], false) (resources, present) =
            ok-injective (rw none at h1) in
          subst (λ (p : List Resource × Bool). All IsIdentified p.0) done tt
      | inr some ↦
          let (_, h2) =
            require-eq-ok (is_mapping root) "terraform_show_root_module_invalid" _
              (rw some at h1) in
          let (found, visited, h3) = >>=-eq-ok (visit_module t root) _ h2 in
          let done : ◌≡◌ {A = List Resource × Bool} (found, true) (resources, present) =
            ok-injective h3 in
          subst (λ (p : List Resource × Bool). All IsIdentified p.0) done
            (module-IsIdentified t root visited)
    ]
