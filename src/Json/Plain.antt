-- ===== src/Json/Plain.antt =====
-- A test for mappings without a key that stands twice.
use iac_modules.Common.{◌≡◌, Bool, true, not, ◌&&◌, member, and-eq-true, not-eq-true}
use iac_modules.Json.{
  Value, Fields, Items, null, bool, int, str, obj, arr, end, field, nil, cons, keys,
}
use iac_modules.Json.Laws.{IsPlain, ArePlain, HasPlain}

unfoldable mutual
  pub plain : Value → Bool
  plain (arr xs) = plain_items xs
  plain (obj fs) = plain_fields fs
  plain _ = true

  pub plain_items : Items → Bool
  plain_items nil = true
  plain_items (cons v vs) = plain v && plain_items vs

  pub plain_fields : Fields → Bool
  plain_fields end = true
  plain_fields (field k v fs) = not (member k (keys fs)) && (plain v && plain_fields fs)

mutual
  unfolding plain plain_items plain_fields IsPlain ArePlain HasPlain

  pub plain-IsPlain : (v : Value) → plain v ≡ true → IsPlain v
  plain-IsPlain null h = tt
  plain-IsPlain (bool b) h = tt
  plain-IsPlain (int n) h = tt
  plain-IsPlain (str s) h = tt
  plain-IsPlain (arr xs) h = plain-ArePlain xs h
  plain-IsPlain (obj fs) h = plain-HasPlain fs h

  plain-ArePlain : (vs : Items) → plain_items vs ≡ true → ArePlain vs
  plain-ArePlain nil h = tt
  plain-ArePlain (cons v vs) h =
      let (p, ps) = and-eq-true _ _ h in (plain-IsPlain v p, plain-ArePlain vs ps)

  plain-HasPlain : (fs : Fields) → plain_fields fs ≡ true → HasPlain fs
  plain-HasPlain end h = tt
  plain-HasPlain (field k v fs) h =
      let (new, h1) = and-eq-true _ _ h in
      let (p, ps) = and-eq-true _ _ h1 in
      (not-eq-true _ new, plain-IsPlain v p, plain-HasPlain fs ps)
