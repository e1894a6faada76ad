-- ===== src/Contracts/Checkout.antt =====
-- `contained` and `source_file` of scripts/pipeline/unified/contracts.py. Git, the file system,
-- PyYAML and SHA-256 are a parameter, the record of what they answer at one commit.
use iac_modules.Common.{
  ℕ, String, ◌≡◌, refl, subst, arith, Bool, true, false, not, List, ◌&&◌, ◌||◌, ◌+++◌, ◌==◌, eqb,
  all_chars, is_digit, leb, size, climbs, is_absolute, Result, ok, require, ◌>>=◌, ◌>>◌,
}
use iac_modules.Json.{Value, null, bool, int, str, arr, obj, str_such, text_value, truthy, is_text}

pub record Checkout : Type 0 where
  -- `git rev-parse HEAD`
  pub head : String
  -- `git diff HEAD --name-only`
  pub changes : String
  -- `(root / path).is_file()`
  pub is_file : String → Bool
  -- The files iac/targets/*.yaml, as relative paths.
  pub target_files : List String
  -- The path resolves to a file inside the checkout.
  pub resolves : String → Bool
  -- Git lists the path at the selected commit.
  pub tracked : String → Bool
  -- `yaml.safe_load` of the file
  pub load : String → Value
  -- The SHA-256 of the file's bytes.
  pub digest : String → String
  -- The characters beyond ASCII that `\w` matches.
  pub unicode_word : ℕ → Bool
  -- `str(value)` of a value that is no string.
  pub show : Value → String

unfoldable pub contained : Checkout → Value → Result String
contained root relative = do
  require (str_such (λ s. not (s == "") && not (is_absolute s)) relative)
      "relative declaration path required"
  require (not (climbs (text_value relative))) "parent traversal rejected"
  require (root.resolves (text_value relative))
      ("missing or escaping declaration: " +++ text_value relative)
  ok (text_value relative)

unfoldable pub source_file : Checkout → Value → Result String
source_file root relative = do
  path ← contained root relative
  require (root.tracked path) "declaration must be tracked at the selected GitOps SHA"
  ok path

-- `SHA.fullmatch`
abbrev pub is_sha : String → Bool
is_sha s = all_chars (λ c. is_digit c || (leb b'a' c && leb c b'f')) s && eqb (size s) 40

-- `checkout_sha`. An empty or null commit is none that is expected.
unfoldable pub checkout_sha : Checkout → Value → Result String
checkout_sha root expected = do
  require (is_sha root.head) "checkout must resolve to a full SHA"
  require (not (truthy expected) || is_text root.head expected)
      "checkout SHA differs from prepared contract"
  require (root.changes == "") "tracked checkout edits rejected"
  ok root.head

-- The path was selected inside the checkout and stands in the commit.
pub record IsSource (root : Checkout) (path : String) : Type 0 where
  pub inside : root.resolves path ≡ true
  pub listed : root.tracked path ≡ true
  pub relative : is_absolute path ≡ false
  pub no_climb : climbs path ≡ false

pub source_file-IsSource :
    (root : Checkout) (v : Value) {path : String}
    → source_file root v ≡ ok path
    → (v ≡ str path) × IsSource root path
unfolding source_file contained
source_file-IsSource root (str s) {path} h =
    let same : s ≡ path = ground arith in
    subst (λ p. (str s ≡ str p) × IsSource root p) same
      (
        refl,
        record {
          inside = ground arith;
          listed = ground arith;
          relative = ground arith;
          no_climb = ground arith;
        },
      )
source_file-IsSource root null h = cc
source_file-IsSource root (bool b) h = cc
source_file-IsSource root (int n) h = cc
source_file-IsSource root (arr vs) h = cc
source_file-IsSource root (obj fs) h = cc
