-- ===== src/Dns/Record/Laws.antt =====
-- On `payload` and `snapshot` of scripts/pipeline/dns-reconcile.py, of what they gave before.
use iac_modules.Common.{
  String, ◌≡◌, refl, sym, ap, subst, ◌∙◌, Bool, true, false, ◌&&◌, inl, inr, List, [], ◌∷◌, all,
  text_leb, text_leb_total, sorted, sorted-sorted, ◌==◌, eq_iff, Bool-cases, and-eq-true, ok,
  ok-injective, >>=-eq-ok, require-eq-ok, member,
}
use iac_modules.Json.{
  Value, null, bool, int, str, obj, arr, nil, texts, mapping, fields, find, set, get, get_or, put,
  has, keys, values, is_null, is_mapping, is_list, is_text, is_str, is_bool, is_int, is_false,
  truthy, or_empty, members, str_such,
}
use iac_modules.Dns.Record.{
  Ipv4, identity, domain, payload, snapshot, tag_texts, is_identity, is_domain, or_else, comment_of,
  tags_of, settings_of,
}

tag_texts-texts : (l : List String) → tag_texts (members (texts l)) ≡ l
tag_texts-texts [] = refl
tag_texts-texts (s ∷ l) = ap (λ m. s ∷ m) (tag_texts-texts l)

texts-are_texts : (l : List String) → all is_str (members (texts l)) ≡ true
texts-are_texts [] = refl
texts-are_texts (s ∷ l) = texts-are_texts l

or_else-text : (v : Value) → is_str v ≡ true → or_else v (str "") ≡ v
or_else-text (str s) h = elim (Bool-cases (s == "")) [
  | inl e ↦ rw e (ap str (sym ((eq_iff s "").0 e)))
  | inr e ↦ rw e refl
]
or_else-text null h = cc
or_else-text (bool b) h = cc
or_else-text (int n) h = cc
or_else-text (arr vs) h = cc
or_else-text (obj fs) h = cc

or_else-texts : (l : List String) → or_else (texts l) (arr nil) ≡ texts l
or_else-texts [] = refl
or_else-texts (s ∷ l) = refl

or_empty_again : (v : Value) → or_empty (or_empty v) ≡ or_empty v
or_empty_again v = elim (Bool-cases (truthy v)) [ inl e ↦ rw e (rw e refl) | inr e ↦ rw e refl ]

-- What `payload` keeps of a record that it accepts.
abbrev kept_of : Value → Value
kept_of entry = mapping (
    ("type", get "type" entry)
    ∷ ("name", get "name" entry)
    ∷ ("content", get "content" entry)
    ∷ ("ttl", get "ttl" entry)
    ∷ ("proxied", get "proxied" entry)
    ∷ ("comment", comment_of entry)
    ∷ ("tags", texts (sorted text_leb (tag_texts (members (tags_of entry)))))
    ∷ ("settings", settings_of entry)
    ∷ [])

abbrev is_supported : Value → Bool
is_supported entry =
    let settings = settings_of entry in
    ((is_str (comment_of entry) && is_list (tags_of entry))
      && (all is_str (members (tags_of entry))
          && (is_mapping settings
              && (all (λ k. member k ("ipv4_only" ∷ "ipv6_only" ∷ [])) (keys (fields settings))
                  && all is_bool (values (fields settings))))))

record IsPaid (ip : Ipv4) (entry kept : Value) : Type 0 where
  name : str_such is_domain (get "name" entry) ≡ true
  address : is_text "A" (get "type" entry) ≡ true
  content : (has "content" entry && ip.reads (get "content" entry)) ≡ true
  numbers : (is_int (get "ttl" entry) && is_bool (get "proxied" entry)) ≡ true
  supported : is_supported entry ≡ true
  keeps : kept_of entry ≡ kept

pub identity-eq-ok :
    (v : Value) {w : Value} → identity v ≡ ok w → (str_such is_identity v ≡ true) × (v ≡ w)
unfolding identity
identity-eq-ok v h =
    let (such, h1) = require-eq-ok (str_such is_identity v) "Invalid provider identity" _ h in
    (such, ok-injective h1)

domain-eq-ok : (v : Value) {w : Value} → domain v ≡ ok w → (str_such is_domain v ≡ true) × (v ≡ w)
unfolding domain
domain-eq-ok v h =
    let (such, h1) = require-eq-ok (str_such is_domain v) "Invalid DNS name" _ h in
    (such, ok-injective h1)

payload-IsPaid :
    (ip : Ipv4) (entry : Value) {kept : Value} → payload ip entry ≡ ok kept → IsPaid ip entry kept
unfolding payload
payload-IsPaid ip entry {kept} h =
    let (_, h1) = require-eq-ok (is_mapping entry) _ _ h in
    let (_, _, h2) = >>=-eq-ok (identity (get "id" entry)) _ h1 in
    let (name, named, h3) = >>=-eq-ok (domain (get "name" entry)) _ h2 in
    let (is_name, same_name) = domain-eq-ok (get "name" entry) named in
    let (address, h4) = require-eq-ok (is_text "A" (get "type" entry)) _ _ h3 in
    let (content, h5) =
      require-eq-ok (has "content" entry && ip.reads (get "content" entry)) _ _ h4 in
    let (numbers, h6) =
      require-eq-ok (is_int (get "ttl" entry) && is_bool (get "proxied" entry)) _ _ h5 in
    let (supported, h7) = require-eq-ok (is_supported entry) _ _ h6 in
    let (_, h8) = require-eq-ok (is_false (get_or "private_routing" (bool false) entry)) _ _ h7 in
    record {
      name = is_name;
      address = address;
      content = content;
      numbers = numbers;
      supported = supported;
      keeps = rw same_name (ok-injective h8);
    }

kept_again :
    (entry id : Value)
    → is_supported entry ≡ true
    → kept_of (put "id" id (kept_of entry)) ≡ kept_of entry
unfolding find set
kept_again entry id h =
    let (text, _) = and-eq-true _ _ (and-eq-true _ _ h).0 in
    let tags = sorted text_leb (tag_texts (members (tags_of entry))) in
    rw (or_else-text (comment_of entry) text) (
      rw (or_else-texts tags) (
        rw (tag_texts-texts tags) (
          rw (sorted-sorted text_leb text_leb_total (tag_texts (members (tags_of entry))))
            (rw (or_empty_again (get "settings" entry)) refl))))

supported_again :
    (entry id : Value)
    → is_supported entry ≡ true
    → is_supported (put "id" id (kept_of entry)) ≡ true
unfolding find set
supported_again entry id h =
    let (first, others) = and-eq-true _ _ h in
    let (text, _) = and-eq-true _ _ first in
    let (_, settings) = and-eq-true _ _ others in
    let tags = sorted text_leb (tag_texts (members (tags_of entry))) in
    rw (or_else-text (comment_of entry) text) (
      rw (or_else-texts tags)
        (rw (or_empty_again (get "settings" entry)) (rw text (rw (texts-are_texts tags) settings))))

-- A record that is accepted.
payload-kept_of :
    (ip : Ipv4) (entry : Value)
    → is_mapping entry ≡ true
    → str_such is_identity (get "id" entry) ≡ true
    → is_false (get_or "private_routing" (bool false) entry) ≡ true
    → IsPaid ip entry (kept_of entry)
    → payload ip entry ≡ ok (kept_of entry)
unfolding payload identity domain
payload-kept_of ip entry mapping_ is_id direct paid = rw mapping_ (
    rw is_id (
      rw paid.name
        (rw paid.address (rw paid.content (rw paid.numbers (rw paid.supported (rw direct refl)))))))

payload-again :
    (ip : Ipv4) (entry id : Value) {kept : Value}
    → payload ip entry ≡ ok kept
    → str_such is_identity id ≡ true
    → payload ip (put "id" id kept) ≡ ok kept
unfolding find set
payload-again ip entry id {kept} h is_id =
    let paid = payload-IsPaid ip entry h in
    let again = put "id" id (kept_of entry) in
    subst (λ k. payload ip (put "id" id k) ≡ ok k) paid.keeps
      (payload-kept_of ip again refl is_id refl (record {
        name = paid.name;
        address = paid.address;
        content = (and-eq-true _ _ paid.content).1;
        numbers = paid.numbers;
        supported = supported_again entry id paid.supported;
        keeps = refl;
      })
        ∙ ap ok (kept_again entry id paid.supported))

-- What `snapshot` gave is what it gives again.
pub record IsConfigured (ip : Ipv4) (entry found : Value) : Type 0 where
  pub id : Value
  pub kept : Value
  pub made : mapping (("id", id) ∷ ("record", kept) ∷ []) ≡ found
  pub again : snapshot ip (put "id" id kept) ≡ ok found
  pub name : get "name" kept ≡ get "name" entry

pub snapshot-IsConfigured :
    (ip : Ipv4) (entry : Value) {found : Value}
    → is_null entry ≡ false
    → snapshot ip entry ≡ ok found
    → IsConfigured ip entry found
unfolding snapshot identity find set
snapshot-IsConfigured ip entry {found} there h =
    let (id, named, h1) = >>=-eq-ok (identity (get "id" entry)) _ (rw there at h) in
    let (is_id, same) = identity-eq-ok (get "id" entry) named in
    let (kept, paid, h2) = >>=-eq-ok (payload ip entry) _ h1 in
    let is_id' : str_such is_identity id ≡ true = rw (← same) is_id in
    subst
      (λ k.
        mapping (("id", id) ∷ ("record", k) ∷ []) ≡ found
        → payload ip (put "id" id k) ≡ ok k
        → IsConfigured ip entry found)
      (payload-IsPaid ip entry paid).keeps
      (λ made again. record {
        id = id;
        kept = kept_of entry;
        made = made;
        again = rw is_id' (rw again (ap ok made));
        name = refl;
      })
      (ok-injective h2) (payload-again ip entry id paid is_id')
