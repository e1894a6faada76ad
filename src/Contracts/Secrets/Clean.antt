-- ===== src/Contracts/Secrets/Clean.antt =====
-- On what `reject_inline_resource_secrets`, of scripts/pipeline/unified/contracts.py, accepts.
use iac_modules.Common.{
  String, ◌≡◌, refl, ◌⊎◌, ◌↔◌, true, false, not, ◌||◌, ok, require, arith, require-eq-ok, >>-eq-ok,
}
use iac_modules.Json.{Value, null, bool, int, str, arr, obj, Items, nil, cons, Fields, end, field}
use iac_modules.Contracts.Secrets.{
  is_sensitive, is_reference, holds_private_key, reject_inline_resource_secrets, reject_items,
  reject_fields,
}

-- A field that stands in the mapping, an item that stands in the list.
pub data HasField (key : String) (v : Value) : Fields → Type 0 where
  first : {fs : Fields} → HasField key v (field key v fs)
  later : {k : String} {w : Value} {fs : Fields} → HasField key v fs → HasField key v (field k w fs)

pub data HasItem (v : Value) : Items → Type 0 where
  first : {vs : Items} → HasItem v (cons v vs)
  later : {w : Value} {vs : Items} → HasItem v vs → HasItem v (cons w vs)

-- The value stands in the document, at any depth.
pub data Within (v : Value) : Value → Type 0 where
  self : Within v v
  in_field :
      {key : String} {w : Value} {fs : Fields} → HasField key w fs → Within v w → Within v (obj fs)
  in_item : {w : Value} {vs : Items} → HasItem w vs → Within v w → Within v (arr vs)

reject_fields-field :
    {key : String} {v : Value} {fs : Fields}
    → HasField key v fs
    → reject_fields fs ≡ ok tt
    → ((not (is_sensitive key) || is_reference key) ≡ true)
      × (reject_inline_resource_secrets v ≡ ok tt)
unfolding reject_inline_resource_secrets
reject_fields-field first h =
    let (named, rest) = require-eq-ok _ _ _ h in (named, (>>-eq-ok _ _ rest).0)
reject_fields-field (later p) h =
    let (named, rest) = require-eq-ok _ _ _ h in reject_fields-field p (>>-eq-ok _ _ rest).1

reject_items-item :
    {v : Value} {vs : Items}
    → HasItem v vs
    → reject_items vs ≡ ok tt
    → reject_inline_resource_secrets v ≡ ok tt
unfolding reject_inline_resource_secrets
reject_items-item first h = (>>-eq-ok _ _ h).0
reject_items-item (later p) h = reject_items-item p (>>-eq-ok _ _ h).1

reject-Within :
    {v doc : Value}
    → Within v doc
    → reject_inline_resource_secrets doc ≡ ok tt
    → reject_inline_resource_secrets v ≡ ok tt
reject-Within self h = h
reject-Within (in_field f w) h =
    reject-Within w (reject_fields-field f (unfold reject_inline_resource_secrets in h)).1
reject-Within (in_item i w) h =
    reject-Within w (reject_items-item i (unfold reject_inline_resource_secrets in h))

-- What a clean document is: no field at any depth is named like a credential, unless the name says
-- that it is a reference, and no text at any depth holds a private key.
pub record IsClean (doc : Value) : Type 0 where
  pub names :
      (fs : Fields) (key : String) (v : Value)
      → Within (obj fs) doc
      → HasField key v fs
      → (is_sensitive key ≡ false) ⊎ (is_reference key ≡ true)
  pub texts : (s : String) → Within (str s) doc → holds_private_key s ≡ false

accepted-IsClean : (doc : Value) → reject_inline_resource_secrets doc ≡ ok tt → IsClean doc
accepted-IsClean doc h = record {
  names = λ fs key v w f.
      let passed : reject_fields fs ≡ ok tt =
        unfold reject_inline_resource_secrets in reject-Within w h in
      let named = (reject_fields-field f passed).0 in ground (arith, named);
  texts = λ s w.
      let passed : require (not (holds_private_key s))
            "private key material is forbidden in resource declarations"
          ≡ ok tt =
        unfold reject_inline_resource_secrets in reject-Within w h in
      ground arith;
}

field-IsClean :
    {key : String} {v : Value} {fs : Fields} → HasField key v fs → IsClean (obj fs) → IsClean v
field-IsClean f h = record {
  names = λ gs k w p q. h.names gs k w (in_field f p) q;
  texts = λ s p. h.texts s (in_field f p);
}

item-IsClean : {v : Value} {vs : Items} → HasItem v vs → IsClean (arr vs) → IsClean v
item-IsClean i h = record {
  names = λ gs k w p q. h.names gs k w (in_item i p) q;
  texts = λ s p. h.texts s (in_item i p);
}

mutual
  unfolding reject_inline_resource_secrets

  clean-accepted : (doc : Value) → IsClean doc → reject_inline_resource_secrets doc ≡ ok tt
  clean-accepted (obj fs) h = clean_fields fs (λ k v f. (h.names fs k v self f, field-IsClean f h))
  clean-accepted (arr vs) h = clean_items vs (λ v i. item-IsClean i h)
  clean-accepted (str s) h = ground (arith, h.texts s self)
  clean-accepted null h = refl
  clean-accepted (bool b) h = refl
  clean-accepted (int n) h = refl

  clean_items : (vs : Items) → ((v : Value) → HasItem v vs → IsClean v) → reject_items vs ≡ ok tt
  clean_items nil h = refl
  clean_items (cons v vs) h =
      rw (clean-accepted v (h v first)) (clean_items vs (λ w i. h w (later i)))

  clean_fields :
      (fs : Fields)
      → ((k : String) (v : Value)
          → HasField k v fs
          → ((is_sensitive k ≡ false) ⊎ (is_reference k ≡ true)) × IsClean v)
      → reject_fields fs ≡ ok tt
  clean_fields end h = refl
  clean_fields (field k v fs) h =
      let (named, clean) = h k v first in
      let here : (not (is_sensitive k) || is_reference k) ≡ true = ground arith in
      rw (here, clean-accepted v clean) (clean_fields fs (λ j w f. h j w (later f)))

-- A document is accepted exactly when it is clean.
pub reject_inline_resource_secrets_iff :
    (doc : Value) → (reject_inline_resource_secrets doc ≡ ok tt) ↔ IsClean doc
reject_inline_resource_secrets_iff doc = (accepted-IsClean doc, clean-accepted doc)
