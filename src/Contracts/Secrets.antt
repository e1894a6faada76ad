-- ===== src/Contracts/Secrets.antt =====
-- `reject_inline_resource_secrets` of scripts/pipeline/unified/contracts.py, at any depth of a
-- manifest.
pub mod Clean
use Prim.Native.Char.{Char, code}
use Prim.Native.String.{[], ◌∷◌}
use iac_modules.Common.{
  ℕ, ◌+◌, String, ◌≡◌, refl, ◌⊎◌, inl, inr, ◌↔◌, Bool, true, false, not, ◌&&◌, ◌||◌, Result, ok,
  err, require, ◌>>◌, ◌>>=◌, is_upper, eqb, size, drop, starts_with, if◌then◌else◌, arith,
  require-eq-ok, >>-eq-ok,
}
use iac_modules.Json.{Value, null, bool, int, str, arr, obj, Items, nil, cons, Fields, end, field}

-- `str.lower`, on code points. Outside ASCII only U+212A has a lower case that a pattern below holds.
abbrev lower : ℕ → ℕ
lower c = if is_upper c then c + 32 else if eqb c 0x212A then b'k' else c

-- `text.lower().startswith(pattern)`
starts_lower : String → String → Bool
starts_lower text [] = true
starts_lower [] (p ∷ ps) = false
starts_lower (c ∷ cs) (p ∷ ps) = eqb (lower (code c)) (code p) && starts_lower cs ps

-- `re.search(pattern, text.lower())`
contains_lower : String → String → Bool
unfolding starts_lower
contains_lower [] pattern = starts_lower [] pattern
contains_lower (c ∷ cs) pattern = starts_lower (c ∷ cs) pattern || contains_lower cs pattern

-- `text.lower().endswith(suffix)`
ends_lower : String → String → Bool
unfolding starts_lower
ends_lower [] suffix = starts_lower [] suffix
ends_lower (c ∷ cs) suffix =
    (starts_lower (c ∷ cs) suffix && eqb (size (c ∷ cs)) (size suffix)) || ends_lower cs suffix

-- `token|password|secret|private[_-]?key|api[_-]?key` in the lower-case name of a field
unfoldable pub is_sensitive : String → Bool
unfolding contains_lower
is_sensitive name =
    contains_lower name "token"
    || contains_lower name "password"
    || contains_lower name "secret"
    || contains_lower name "privatekey"
    || contains_lower name "private_key"
    || contains_lower name "private-key"
    || contains_lower name "apikey"
    || contains_lower name "api_key"
    || contains_lower name "api-key"

-- The name says that the field only refers to a credential.
unfoldable pub is_reference : String → Bool
unfolding ends_lower
is_reference name =
    ends_lower name "_ref"
    || ends_lower name "_refs"
    || ends_lower name "_path"
    || ends_lower name "_paths"

-- `[^-]*PRIVATE KEY-----` from here
closes_key : String → Bool
closes_key [] = false
closes_key (c ∷ cs) =
    starts_with (c ∷ cs) "PRIVATE KEY-----" || (not (eqb (code c) b'-') && closes_key cs)

-- `-----BEGIN ` and then a close of the line, from here
opens_key : String → Bool
unfolding closes_key
opens_key text = starts_with text "-----BEGIN " && closes_key (drop (size "-----BEGIN ") text)

-- `re.search(r"-----BEGIN [^-]*PRIVATE KEY-----", text)`
unfoldable pub holds_private_key : String → Bool
unfolding opens_key
holds_private_key [] = opens_key []
holds_private_key (c ∷ cs) = opens_key (c ∷ cs) || holds_private_key cs

unfoldable mutual
  pub reject_inline_resource_secrets : Value → Result (Unit {0})
  reject_inline_resource_secrets (obj fs) = reject_fields fs
  reject_inline_resource_secrets (arr vs) = reject_items vs
  reject_inline_resource_secrets (str s) =
      require (not (holds_private_key s))
        "private key material is forbidden in resource declarations"
  reject_inline_resource_secrets _ = ok tt

  pub reject_items : Items → Result (Unit {0})
  reject_items nil = ok tt
  reject_items (cons v vs) = reject_inline_resource_secrets v >> reject_items vs

  pub reject_fields : Fields → Result (Unit {0})
  reject_fields end = ok tt
  reject_fields (field k v fs) =
      require (not (is_sensitive k) || is_reference k)
        "inline credential field is forbidden in resource declarations"
      >> (reject_inline_resource_secrets v >> reject_fields fs)
