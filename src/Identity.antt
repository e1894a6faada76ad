-- ===== src/Identity.antt =====
-- terraform-hcl-standard/scripts/iac_identity.py: the key of a Terraform state.
pub mod Laws
mod Tests
use iac_modules.Common.{
  ℕ, String, Bool, not, ◌&&◌, ◌||◌, ◌+++◌, ◌==◌, one_of, is_alnum, head_tail, Result, ok, require,
  ◌>>=◌, ◌>>◌, List, [], ◌∷◌, member,
}
use iac_modules.Json.{Value, str, is_text, str_such, text_value}

-- The characters that `_COMPONENT` allows behind the first.
abbrev pub component_char : ℕ → Bool
component_char c = is_alnum c || one_of "._@+-" c

-- `_COMPONENT.fullmatch`
abbrev pub matches_component : String → Bool
matches_component s = head_tail is_alnum component_char 126 s

unfoldable pub component : String → Value → Result String
component name value = do
  require (str_such matches_component value && not (is_text "." value || is_text ".." value))
      ("invalid state identity " +++ name)
  ok (text_value value)

abbrev pub shared_namespaces : List String
shared_namespaces = "selfhost" ∷ "all" ∷ "default" ∷ "shared" ∷ []

unfoldable pub validate_namespace : Value → Result String
validate_namespace namespace = do
  s ← component "namespace" namespace
  require (not (member s shared_namespaces)) "shared Terraform namespace is forbidden"
  ok s

abbrev pub vague_accounts : List String
vague_accounts = "primary" ∷ "default" ∷ "main" ∷ []

-- `f"terraform/{environment}/{project}/{provider}/{account}/{namespace}/terraform.tfstate"`
abbrev pub state_path : String → String → String → String → String → String
state_path environment project provider account namespace =
    "terraform/"
    +++ (environment
        +++ ("/"
            +++ (project
                +++ ("/"
                    +++ (provider
                        +++ ("/"
                            +++ (account +++ ("/" +++ (namespace +++ "/terraform.tfstate")))))))))

unfoldable pub canonical_state_key : Value → Value → Value → Value → Value → Result String
canonical_state_key environment project provider account namespace = do
  e ← component "environment" environment
  p ← component "project" project
  c ← component "provider" provider
  a ← component "account" account
  require (not (member a vague_accounts)) "concrete provider account required"
  n ← validate_namespace namespace
  ok (state_path e p c a n)
