-- ===== src/Dns/Record.antt =====
-- `identity`, `domain`, `intent`, `payload` and `snapshot` of scripts/pipeline/dns-reconcile.py.
-- `ipaddress.IPv4Address` is a parameter.
pub mod Laws
use Prim.Native.Char.{code}
use iac_modules.Common.{
  ℕ, String, Bool, false, not, ◌&&◌, ◌||◌, List, [], ◌∷◌, all, all_chars, is_digit, is_lower,
  is_upper, is_alnum, one_of, size, leb, eqb, length, member, drop, starts_with, sorted, text_leb,
  ◌==◌, ◌+++◌, Result, ok, require, ◌>>=◌, ◌>>◌, if◌then◌else◌,
}
use iac_modules.Json.{
  pos, Value, null, bool, int, str, arr, nil, texts, mapping, get, get_or, has, eq, keys, values,
  fields, is_null, is_mapping, is_list, is_text, is_str, is_bool, is_int, is_false, truthy,
  or_empty, members, str_such, text_value,
}

-- `IPv4Address(value)` is no error, and `.is_global` of it.
pub record Ipv4 : Type 0 where
  pub reads : Value → Bool
  pub is_global : Value → Bool

-- `[a-f0-9]{32}`
abbrev pub is_identity : String → Bool
is_identity s = eqb (size s) 32 && all_chars (λ c. is_digit c || (leb b'a' c && leb c b'f')) s

unfoldable pub identity : Value → Result Value
identity v = do require (str_such is_identity v) "Invalid provider identity"; ok v

-- A character before the first part.
abbrev push : String → List String → List String
push c [] = c ∷ []
push c (p ∷ ps) = (c +++ p) ∷ ps

-- `value.split(".")`
abbrev pub split_dots : String → List String
split_dots String.[] = "" ∷ []
split_dots (String.◌∷◌ c cs) =
    let rest = split_dots cs in
    if eqb (code c) b'.' then "" ∷ rest else push (String.◌∷◌ c String.[]) rest

abbrev is_label_end : ℕ → Bool
is_label_end c = is_digit c || is_lower c

-- The first and the last character.
abbrev starts_such : (ℕ → Bool) → String → Bool
starts_such p String.[] = false
starts_such p (String.◌∷◌ c cs) = p (code c)

abbrev ends_such : (ℕ → Bool) → String → Bool
ends_such p String.[] = false
ends_such p (String.◌∷◌ c String.[]) = p (code c)
ends_such p (String.◌∷◌ c (String.◌∷◌ d ds)) = ends_such p (String.◌∷◌ d ds)

-- `[a-z0-9](?:[a-z0-9-]{0,61}[a-z0-9])?`
abbrev pub is_label : String → Bool
is_label s =
    starts_such is_label_end s
    && (ends_such is_label_end s
        && (leb (size s) 63 && all_chars (λ c. is_label_end c || eqb c b'-') s))

abbrev pub is_domain : String → Bool
is_domain s =
    leb (size s) 253
    && (all_chars (λ c. not (is_upper c)) s
        && (leb 2 (length (split_dots s)) && all is_label (split_dots s)))

unfoldable pub domain : Value → Result Value
domain v = do require (str_such is_domain v) "Invalid DNS name"; ok v

-- `set(value) == names`
abbrev pub has_exactly : List String → Value → Bool
has_exactly names v = all (λ n. has n v) names && all (λ k. member k names) (keys (fields v))

abbrev is_one : Value → Bool
is_one v = eq v (int (pos 1))

abbrev pub is_version : Value → Bool
is_version v = is_one (get "version" v)

abbrev intent_fields : List String
intent_fields =
    "version" ∷ "environment" ∷ "run_id" ∷ "release_tag" ∷ "account_id" ∷ "zone_id" ∷ "zone_name"
    ∷ "owner_tag" ∷ "record" ∷ "expected_record_id" ∷ []

-- `[a-zA-Z0-9._-]{1,128}`
abbrev is_release : String → Bool
is_release s =
    not (s == "") && (leb (size s) 128 && all_chars (λ c. is_alnum c || one_of "._-" c) s)

-- `owner:[a-z0-9-]{1,64}`
abbrev is_owner_tag : String → Bool
is_owner_tag s =
    starts_with s "owner:"
    && (not (drop 6 s == "")
        && (leb (size (drop 6 s)) 64 && all_chars (λ c. is_label_end c || eqb c b'-') (drop 6 s)))

-- `text.endswith(suffix)`
abbrev ends_with : String → String → Bool
ends_with String.[] suffix = String.[] == suffix
ends_with (String.◌∷◌ c cs) suffix = String.◌∷◌ c cs == suffix || ends_with cs suffix

unfoldable pub check_record : Ipv4 → Value → Value → Result (Unit {0})
check_record ip zone entry = do
  require
      (is_mapping entry && has_exactly ("type" ∷ "name" ∷ "content" ∷ "ttl" ∷ "proxied" ∷ []) entry)
      "Exactly one explicit A record is required"
  name ← domain (get "name" entry)
  require (ends_with (text_value name) ("." +++ text_value zone) && is_text "A" (get "type" entry))
      "Invalid zone or type"
  let content = get "content" entry
  require
      ((ip.reads content && ip.is_global content)
        && (is_int (get "ttl" entry)
            && (eq (get "ttl" entry) (int (pos 60)) && is_false (get "proxied" entry))))
      "Gateway requires public IPv4, TTL 60, DNS-only"

unfoldable pub intent : Ipv4 → Value → Result Value
intent ip v = do
  require (is_mapping v && has_exactly intent_fields v) "Invalid intent fields"
  require (is_version v && is_text "uat" (get "environment" v))
      "Only UAT gateway version 1 is supported"
  require (str_such is_release (get "run_id" v) && str_such is_release (get "release_tag" v))
      "Invalid run or release identity"
  account ← identity (get "account_id" v)
  zone_id ← identity (get "zone_id" v)
  zone ← domain (get "zone_name" v)
  require (str_such is_owner_tag (get "owner_tag" v)) "Invalid owner tag"
  check_record ip zone (get "record" v)
  let expected = get "expected_record_id" v
  if is_null expected then ok v else (do known ← identity expected; ok v)

-- `v or default`
abbrev or_else : Value → Value → Value
or_else v default = if truthy v then v else default

abbrev comment_of : Value → Value
comment_of entry = or_else (get "comment" entry) (str "")

abbrev tags_of : Value → Value
tags_of entry = or_else (get "tags" entry) (arr nil)

abbrev settings_of : Value → Value
settings_of entry = or_empty (get "settings" entry)

abbrev pub tag_texts : List Value → List String
tag_texts [] = []
tag_texts (v ∷ vs) = text_value v ∷ tag_texts vs

-- A record of the provider, without what the program does not own.
unfoldable pub payload : Ipv4 → Value → Result Value
payload ip entry = do
  require (is_mapping entry) "Invalid provider record"
  id ← identity (get "id" entry)
  name ← domain (get "name" entry)
  require (is_text "A" (get "type" entry)) "Conflicting non-A record"
  require (has "content" entry && ip.reads (get "content" entry)) "Invalid provider A address"
  require (is_int (get "ttl" entry) && is_bool (get "proxied" entry)) "Incomplete provider record"
  let settings = settings_of entry
  require
      ((is_str (comment_of entry) && is_list (tags_of entry))
        && (all is_str (members (tags_of entry))
            && (is_mapping settings
                && (all (λ k. member k ("ipv4_only" ∷ "ipv6_only" ∷ [])) (keys (fields settings))
                    && all is_bool (values (fields settings))))))
      "Unsupported provider metadata"
  require (is_false (get_or "private_routing" (bool false) entry)) "Private routing is unsupported"
  ok (
      mapping (
        ("type", get "type" entry)
        ∷ ("name", name)
        ∷ ("content", get "content" entry)
        ∷ ("ttl", get "ttl" entry)
        ∷ ("proxied", get "proxied" entry)
        ∷ ("comment", comment_of entry)
        ∷ ("tags", texts (sorted text_leb (tag_texts (members (tags_of entry)))))
        ∷ ("settings", settings)
        ∷ []))

unfoldable pub snapshot : Ipv4 → Value → Result Value
snapshot ip entry = if is_null entry then ok null else (do
  id ← identity (get "id" entry)
  kept ← payload ip entry
  ok (mapping (("id", id) ∷ ("record", kept) ∷ [])))

-- The owners among the tags are none, or the one of the intent.
abbrev pub keeps_owner : Value → Value → Bool
keeps_owner spec entry =
    all (λ t. not (starts_with t "owner:") || is_text t (get "owner_tag" spec))
      (tag_texts (members (get "tags" entry)))
