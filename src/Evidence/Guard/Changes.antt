-- ===== src/Evidence/Guard/Changes.antt =====
-- The checks that `guard_plan` makes of one resource change.
use iac_modules.Common.{
  ℕ, suc, ◌+◌, String, Bool, true, false, not, ◌&&◌, ◌||◌, Option, List, [], ◌∷◌, ◌++◌, all, member,
  leb, Result, require, when, ◌>>=◌, ◌>>◌, ◌==◌, ◌+++◌, if◌then◌else◌,
}
use iac_modules.Json.{
  Value, arr, nil, end, str, Fields, get, get_or, at, as_text, as_texts, eq, texts, truthy, is_text,
  holds, is_true, is_false, fields, or_empty, text_value, field,
}
use iac_modules.Contracts.Ownership.{owner_match}
use iac_modules.Contracts.Target.Tables.{stage_of, is_among}
use iac_modules.Evidence.Rebind.{safe_gcp_federation_rebind}

-- What a plan is guarded for.
pub record Request : Type 0 where
  pub target : Value
  pub stage : String
  pub action : String
  pub repository : Option String

-- A change that a create-only stage may not make.
pub record Violation : Type 0 where
  pub address : String
  pub kind : Value
  pub actions : Value
  pub replace_paths : Value
  pub action_reason : Value
  pub changed_fields : List String

-- The counts so far, and the violations.
pub record Tally : Type 0 where
  pub create : ℕ
  pub update : ℕ
  pub delete : ℕ
  pub violations : List Violation

abbrev pub no_changes : Tally
no_changes = record { create = 0; update = 0; delete = 0; violations = [] }

-- `spec`, the stage that the plan is for.
abbrev pub spec_of : Request → Value
spec_of r = stage_of r.stage r.target

abbrev pub actions_of : Value → Value
actions_of item = get "actions" (get "change" item)

-- The one replacement that is allowed.
abbrev pub is_rebind : Request → Value → Bool
is_rebind r item = safe_gcp_federation_rebind r.target r.stage item r.repository

abbrev pub is_destroy : Request → Bool
is_destroy r = r.action == "destroy"

-- `actions in (["create"], ["no-op"], ["read"])`
abbrev pub is_calm : Value → Bool
is_calm actions =
    eq actions (texts ("create" ∷ []))
    || (eq actions (texts ("no-op" ∷ [])) || eq actions (texts ("read" ∷ [])))

abbrev pub persistent_disks : List String
persistent_disks =
    "google_compute_disk" ∷ "aws_ebs_volume" ∷ "linode_volume" ∷ "vultr_block_storage"
    ∷ "ucloud_udisk" ∷ []

unfoldable pub check_ownership : Request → Value → Result (Unit {0})
check_ownership r item = do
  address ← at "address" item
  owned ← as_text address
  owners ← as_texts (get "owners" (spec_of r))
  require (owner_match owned owners) ("resource outside stage ownership: " +++ owned)

unfoldable pub check_existing : Request → Value → Result (Unit {0})
check_existing r item = when (truthy (get "existing_only" (spec_of r))) (
    require (eq (actions_of item) (texts ("no-op" ∷ [])))
      "existing-only target cannot create, update, replace or delete managed resources")

-- Every expected fact is the value before the change.
abbrev same_facts : Fields → Value → Bool
same_facts end before = true
same_facts (field k v fs) before = eq (get k before) v && same_facts fs before

-- The extra checks of a deletion by a validation cleanup.
unfoldable pub check_cleanup : Request → Value → String → Result (Unit {0})
check_cleanup r item address = do
  let validation = get "validation" r.target
  let before = get "before" (get "change" item)
  owners ← as_texts (get "destroy_owners" validation)
  require (owner_match address owners && is_text "linode_instance" (get "type" item))
      "validation may delete only the selected compute instance"
  require (same_facts (fields (get "expected_instance" validation)) before)
      "live candidate label/region differs from validation declaration"
  require (is_false (get "backups_enabled" before))
      "instance-bound provider backups must be preserved before cleanup"

unfoldable pub check_deletion : Request → Value → Result (Unit {0})
check_deletion r item = when (holds "delete" (actions_of item)) (do
  let address = text_value (get "address" item)
  protected ← as_texts (get_or "protected" (arr nil) (spec_of r))
  require (not (owner_match address protected))
      ("protected resource deletion/replacement: " +++ address)
  require (not (is_among persistent_disks (get "type" item)))
      ("persistent disk deletion/replacement requires maintenance: " +++ address)
  require (is_destroy r || is_rebind r item)
      ("ordinary plan/apply cannot delete or replace resources: " +++ address)
  when (truthy (get "validation" r.target)) (check_cleanup r item address))

unfoldable pub check_destroy : Request → Value → Result (Unit {0})
check_destroy r item = when (is_destroy r) (do
  actions ← as_texts (actions_of item)
  require (all (λ a. member a ("delete" ∷ "no-op" ∷ "read" ∷ [])) actions)
      "destroy plan contains forward mutations")

abbrev pub vultr_shapes : List String
vultr_shapes = "vc2-1c-1gb" ∷ "vc2-1c-2gb" ∷ "vc2-2c-4gb" ∷ "vc2-4c-8gb" ∷ []

-- `shapes.index(text)`
abbrev pub index : String → List String → ℕ
index x [] = 0
index x (y ∷ ys) = if y == x then 0 else suc (index x ys)

unfoldable pub check_downgrade : Value → Result (Unit {0})
check_downgrade item =
    when
      (is_text "vultr_instance" (get "type" item) && eq (actions_of item) (texts ("update" ∷ [])))
      (do
        let before = get "plan" (or_empty (get "before" (get "change" item)))
        let after = get "plan" (or_empty (get "after" (get "change" item)))
        when (is_among vultr_shapes before && is_among vultr_shapes after) (
            require
              (leb (index (text_value before) vultr_shapes) (index (text_value after) vultr_shapes))
              "Vultr downgrade requires controlled replacement maintenance"))

-- The fields of a resource type that a message may name.
abbrev safe_fields : Value → List String
safe_fields kind =
    if is_text "linode_volume" kind
    then "filesystem_path" ∷ "label" ∷ "linode_id" ∷ "region" ∷ "size" ∷ "tags" ∷ []
    else []

abbrev changed : List String → Value → Value → Value → List String
changed [] before after unknown = []
changed (f ∷ fs) before after unknown =
    let rest = changed fs before after unknown in
    if not (eq (get f before) (get f after)) || is_true (get f unknown) then f ∷ rest else rest

unfoldable pub violation_of : Value → Violation
violation_of item =
    let change = or_empty (get "change" item) in
    let kind = get_or "type" (str "unknown") item in
    record {
      address = text_value (get "address" item);
      kind = kind;
      actions = actions_of item;
      replace_paths = get_or "replace_paths" (arr nil) change;
      action_reason = get "action_reason" change;
      changed_fields =
          changed (safe_fields kind) (or_empty (get "before" change))
            (or_empty (get "after" change)) (or_empty (get "after_unknown" change));
    }

-- A create-only stage records what it may not do.
abbrev pub is_violation : Request → Value → Bool
is_violation r item =
    truthy (get "create_only" (spec_of r))
    && (not (is_destroy r) && (not (is_calm (actions_of item)) && not (is_rebind r item)))

abbrev pub one_if : Bool → ℕ
one_if true = 1
one_if false = 0

unfoldable pub count_change : Request → Value → Tally → Tally
count_change r item t = record {
  create = t.create + one_if (holds "create" (actions_of item));
  update = t.update + one_if (holds "update" (actions_of item));
  delete = t.delete + one_if (holds "delete" (actions_of item));
  violations = if is_violation r item then t.violations ++ violation_of item ∷ [] else t.violations;
}
