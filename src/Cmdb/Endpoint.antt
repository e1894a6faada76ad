-- ===== src/Cmdb/Endpoint.antt =====
-- `infer_region`, `_validate_endpoint_or_ip` and `_parse_timestamp` of
-- terraform-hcl-standard/scripts/cmdb_v1.py. The modules `ipaddress` and `datetime`, the clock and
-- `str` of a value are parameters.
use Prim.Native.Char.{code}
use iac_modules.Common.{
  ℕ, String, Bool, not, ◌&&◌, ◌||◌, Option, none, some, [], ◌∷◌, eqb, leb, all, any, all_chars,
  is_digit, starts_with, contains, member, ◌==◌, ◌+++◌, Result, ok, err, refused, require, when,
  ◌>>=◌, ◌>>◌, if◌then◌else◌,
}
use iac_modules.Json.{Value, str, get, is_null, is_str, text_value}
use iac_modules.Cmdb.Words.{
  strip, lower, has_char, count_char, before_last, split_at, text_of, text_or, first_of,
}
use iac_modules.Cmdb.Keys.{mapping_at, provider_of, normalize_provider}

-- What the source asks of an address that `ipaddress.ip_address` reads.
pub record IpAddress : Type 0 where
  pub unspecified : Bool
  pub loopback : Bool

-- What `datetime.fromisoformat` reads: whether it has a timezone, and its place in time.
pub record Moment : Type 0 where
  pub zoned : Bool
  pub instant : ℕ

-- `str` of a value that is no text, the modules `ipaddress` and `datetime`, where nothing stands
-- for a ValueError, and what `_utc_now` returns.
pub record Readers : Type 0 where
  pub show : Value → String
  pub ip_address : String → Option IpAddress
  pub moment : String → Option Moment
  pub now : String

-- `text.replace("Z", "+00:00")`
unfoldable pub replace_z : String → String
replace_z String.[] = String.[]
replace_z (String.◌∷◌ c cs) =
    let rest = replace_z cs in if eqb (code c) b'Z' then "+00:00" +++ rest else String.◌∷◌ c rest

-- `FAKE_HOST_OR_IP.match(text)`, of a text that is stripped and in lower case
abbrev one_line : String → Bool
one_line s = not (has_char 10 s)

unfoldable pub is_loopback_form : String → Bool
unfolding starts_with split_at
is_loopback_form s =
    starts_with s "127."
    && (eqb (count_char b'.' s) 3
        && all (λ part. not (part == "") && all_chars is_digit part) (split_at (eqb b'.') s))

unfoldable pub is_fake : String → Bool
unfolding is_loopback_form starts_with
is_fake s =
    member s ("0.0.0.0" ∷ "localhost" ∷ "::1" ∷ "none" ∷ "null" ∷ "n/a" ∷ "unknown" ∷ [])
    || (is_loopback_form s
        || (one_line s
            && (any (starts_with s) ("fake" ∷ "dummy" ∷ "placeholder" ∷ [])
                || any (starts_with s) (
                    "serverlesshost" ∷ "serverless-host" ∷ "serverless_host" ∷ "serverless.host"
                    ∷ []))))

-- `SECRET_KEY.search(key)`
unfoldable pub is_secret_key : String → Bool
unfolding contains
is_secret_key key = any (contains (lower key)) (
    "password" ∷ "token" ∷ "secret" ∷ "privatekey" ∷ "private_key" ∷ "private-key" ∷ "credential"
    ∷ [])

module _ (r : Readers) where
  unfoldable pub parse_timestamp : Value → Result ℕ
  unfolding replace_z
  parse_timestamp value = do
    require (is_str value && not (strip (text_value value) == ""))
        "timestamp must be a non-empty ISO-8601 timestamp"
    parsed ← elim (r.moment (replace_z (strip (text_value value)))) [
      | none ↦ err (refused "timestamp must be a valid ISO-8601 timestamp")
      | some m ↦ ok m
    ]
    require parsed.zoned "timestamp must include a timezone"
    ok parsed.instant

  -- An address that is no address of the machine itself.
  unfoldable pub check_ip : String → Result (Unit {0})
  check_ip text = do
    address ← elim (r.ip_address text) [
      | none ↦ err (refused "must be a valid IP address")
      | some a ↦ ok a
    ]
    require (not (address.unspecified || address.loopback))
        "loopback or unspecified address is not allowed"

  unfoldable pub validate_endpoint_or_ip : Bool → Value → Result (Option String)
  unfolding check_ip
  validate_endpoint_or_ip allow_hostname value =
      let text = if is_null value then "" else strip (text_of r.show value) in
      if text == "" then ok none else (do
        require (not (is_fake (lower text))) "fabricated or placeholder endpoint is not allowed"
        when (not allow_hostname) (check_ip text)
        ok (some text))

  -- `zone.rsplit("-", 1)[0]`, for a zone with two dashes
  abbrev pub region_of_zone : String → String
  region_of_zone zone = if leb 2 (count_char b'-' zone) then before_last b'-' zone else ""

  -- The region of a record that names neither a region nor a zone.
  unfoldable pub fallback_region : Value → Value → String → Value → Result String
  fallback_region entry default_region form cloud_provider =
      let given = strip (text_or r.show default_region) in
      if not (given == "") then ok given else (do
        provider ←
            normalize_provider r.show (provider_of entry (cloud_provider ∷ str "unknown" ∷ []))
        ok (if form == "serverless" && provider == "cloudflare" then "global" else "unknown"))

  unfoldable pub infer_region : Value → Value → String → Value → Result String
  unfolding fallback_region
  infer_region entry default_region form cloud_provider = do
    let host_vars = mapping_at "host_vars" entry
    let attributes = mapping_at "attributes" entry
    let zone = strip (text_or r.show (first_of (get "zone" entry ∷ get "zone" attributes ∷ [])))
    let explicit = strip (text_or r.show (get "region" entry))
    let provider_region = strip (
        text_or r.show (
          first_of (
            get "provider_region" host_vars
            ∷ get "cloud_region" entry
            ∷ get "cloud_region" host_vars
            ∷ [])))
    require (explicit == "" || (region_of_zone zone == "" || explicit == region_of_zone zone))
        "resource region conflicts with zone"
    if not (region_of_zone zone == "")
        then ok (region_of_zone zone)
        else if not (explicit == "")
        then ok explicit
        else if not (provider_region == "")
        then ok provider_region
        else fallback_region entry default_region form cloud_provider
