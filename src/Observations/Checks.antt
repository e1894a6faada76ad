-- ===== src/Observations/Checks.antt =====
-- `_required_text`, `_timestamp`, `normalize_provider`, `normalize_native_resource_id`,
-- `_reject_secret_keys` and `_validate_endpoint_value` of
-- terraform-hcl-standard/scripts/cmdb_observations_v1.py.
use iac_modules.Common.{
  ℕ, String, Bool, not, ◌&&◌, Option, none, some, [], ◌∷◌, any, eqb, contains, ◌==◌, Result, ok,
  err, refused, require, when, ◌>>=◌, ◌>>◌, if◌then◌else◌,
}
use iac_modules.Json.{
  Value, Fields, Items, obj, arr, nil, cons, end, field, is_null, is_str, str_such, text_value,
}
use iac_modules.Cmdb.Words.{strip, strip_of, lower, without_prefix}
use iac_modules.Cmdb.Keys.{alias_of, url_prefixes}
use iac_modules.Cmdb.Endpoint.{Readers, replace_z, check_ip, is_fake}

abbrev has_text : Value → Bool
has_text v = str_such (λ s. not (strip s == "")) v

unfoldable pub required_text : Value → Result String
required_text v = do require (has_text v) "must be a non-empty string"; ok (strip (text_value v))

unfoldable pub normalize_provider : Value → Result String
unfolding required_text alias_of
normalize_provider v = do raw ← required_text v; ok (alias_of (lower raw))

unfoldable pub normalize_native_resource_id : Value → Result String
unfolding required_text
normalize_native_resource_id v = do
  raw ← required_text v
  ok (strip_of (eqb b'/') (without_prefix url_prefixes raw))

-- `SECRET_KEY.search(key)`
unfoldable pub is_secret_key : String → Bool
unfolding contains
is_secret_key key = any (contains (lower key)) (
    "password" ∷ "token" ∷ "secret" ∷ "privatekey" ∷ "private_key" ∷ "private-key" ∷ "credential"
    ∷ "authorization" ∷ "userdata" ∷ "user_data" ∷ "user-data" ∷ "startupscript" ∷ "startup_script"
    ∷ "startup-script" ∷ "environmentvariable" ∷ "environment_variable" ∷ "environment-variable"
    ∷ [])

unfoldable mutual
  unfolding is_secret_key

  pub reject_secret_keys : Value → Result (Unit {0})
  reject_secret_keys (obj fs) = reject_fields fs
  reject_secret_keys (arr vs) = reject_items vs
  reject_secret_keys _ = ok tt

  pub reject_fields : Fields → Result (Unit {0})
  reject_fields end = ok tt
  reject_fields (field key child rest) =
      require (not (is_secret_key key)) "secret-bearing field is not allowed"
      >> (reject_secret_keys child >> reject_fields rest)

  pub reject_items : Items → Result (Unit {0})
  reject_items nil = ok tt
  reject_items (cons child rest) = reject_secret_keys child >> reject_items rest

-- `FAKE_ENDPOINT_OR_IP.match(text)`, which allows the text that the other module calls unknown
abbrev is_fake_endpoint : String → Bool
is_fake_endpoint s = is_fake s && not (s == "unknown")

module _ (r : Readers) where
  unfoldable pub timestamp : Value → Result ℕ
  unfolding required_text replace_z
  timestamp v = do
    text ← required_text v
    parsed ← elim (r.moment (replace_z text)) [
      | none ↦ err (refused "must be an ISO-8601 timestamp")
      | some m ↦ ok m
    ]
    require parsed.zoned "must include a timezone"
    ok parsed.instant

  unfoldable pub validate_endpoint_value : Bool → Value → Result (Option String)
  unfolding check_ip
  validate_endpoint_value require_ip value =
      let text = strip (text_value value) in
      if is_null value then ok none else (do
        require (is_str value) "must be a string or null"
        if text == "" then ok none else (do
          require (not (is_fake_endpoint (lower text))) "cannot use a fabricated value"
          when require_ip (check_ip r text)
          ok (some text)))
