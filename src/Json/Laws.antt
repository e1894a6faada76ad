-- ===== src/Json/Laws.antt =====
-- Python's `==` on values, and the reads of a mapping after a write.
use iac_modules.Common.{
  String, ◌≡◌, refl, true, false, some, arith, eq_iff, eqb_refl, ◌==◌, member, Bool-cases,
  Option-cases, ok, ok-injective, inl, inr, subst, some-injective,
}
use iac_modules.Json.{
  ℤ, pos, negsuc, Value, Fields, Items, null, bool, int, str, obj, arr, end, field, nil, cons,
  int_eq, keys, find, set, at, get, get_or, put, fields, eq, eq_items, eq_fields, field_count,
}

-- No mapping in the value holds a key twice, as in every Python dict.
unfoldable mutual
  pub IsPlain : Value → Type 0
  IsPlain (arr xs) = ArePlain xs
  IsPlain (obj fs) = HasPlain fs
  IsPlain _ = Unit

  pub ArePlain : Items → Type 0
  ArePlain nil = Unit
  ArePlain (cons v vs) = IsPlain v × ArePlain vs

  pub HasPlain : Fields → Type 0
  HasPlain end = Unit
  HasPlain (field k v fs) = (member k (keys fs) ≡ false) × IsPlain v × HasPlain fs

-- Every field of one mapping is found in the other.
abbrev FoundIn : Fields → Fields → Type 0
FoundIn end gs = Unit
FoundIn (field k v fs) gs = (find k gs ≡ some v) × FoundIn fs gs

FoundIn-field :
    (fs gs : Fields) (k : String) (v : Value)
    → member k (keys fs) ≡ false
    → FoundIn fs gs
    → FoundIn fs (field k v gs)
unfolding find
FoundIn-field end gs k v new h = tt
FoundIn-field (field l w fs) gs k v new (here, later) = (
  (let other : (k == l) ≡ false = ground (arith, eq_iff k l, eq_iff l k) in rw other here),
  FoundIn-field fs gs k v (ground arith) later,
)

FoundIn-self : (fs : Fields) → HasPlain fs → FoundIn fs fs
unfolding find HasPlain
FoundIn-self end h = tt
FoundIn-self (field k v fs) (new, _, later) = (
  (let same : (k == k) ≡ true = (eq_iff k k).1 refl in rw same refl),
  FoundIn-field fs fs k v new (FoundIn-self fs later),
)

int_eq_refl : (n : ℤ) → int_eq n n ≡ true
int_eq_refl (pos n) = eqb_refl n
int_eq_refl (negsuc n) = eqb_refl n

mutual
  unfolding eq eq_items eq_fields IsPlain ArePlain HasPlain

  -- A value is equal to itself.
  pub eq_refl : (v : Value) → IsPlain v → eq v v ≡ true
  eq_refl null p = refl
  eq_refl (bool true) p = refl
  eq_refl (bool false) p = refl
  eq_refl (int n) p = int_eq_refl n
  eq_refl (str s) p = (eq_iff s s).1 refl
  eq_refl (arr xs) p = items_refl xs p
  eq_refl (obj fs) p = rw (eqb_refl (field_count fs)) (fields_refl fs fs p (FoundIn-self fs p))

  items_refl : (vs : Items) → ArePlain vs → eq_items vs vs ≡ true
  items_refl nil p = refl
  items_refl (cons v vs) (p, ps) = rw (eq_refl v p) (items_refl vs ps)

  fields_refl : (fs gs : Fields) → HasPlain fs → FoundIn fs gs → eq_fields fs gs ≡ true
  fields_refl end gs p f = refl
  fields_refl (field k v fs) gs (_, p, ps) (here, later) =
      rw here (rw (eq_refl v p) (fields_refl fs gs ps later))

-- What stands in a plain mapping is plain.
pub find-IsPlain :
    (key : String) (fs : Fields) {v : Value} → HasPlain fs → find key fs ≡ some v → IsPlain v
unfolding find HasPlain
find-IsPlain key end p h = absurd (cc)
find-IsPlain key (field k w fs) {v} (_, p, ps) h = elim (Bool-cases (k == key)) [
  | inl same ↦ let e : w ≡ v = some-injective (rw same at h) in subst IsPlain e p
  | inr other ↦ find-IsPlain key fs ps (rw other at h)
]

pub get-IsPlain : (key : String) (v : Value) → IsPlain v → IsPlain (get key v)
unfolding IsPlain find
get-IsPlain key (obj fs) p = elim (Option-cases (find key fs)) [
  | inl e ↦ rw e tt
  | inr (v, found) ↦ rw found (find-IsPlain key fs p found)
]
get-IsPlain key null p = tt
get-IsPlain key (bool b) p = tt
get-IsPlain key (int n) p = tt
get-IsPlain key (str s) p = tt
get-IsPlain key (arr vs) p = tt

-- A write leaves the other keys as they are.
find-set-other :
    (key other : String) (value : Value) (fs : Fields)
    → (other == key) ≡ false
    → find key (set other value fs) ≡ find key fs
unfolding find set
find-set-other key other value end d = rw d refl
find-set-other key other value (field k v fs) d = elim (Bool-cases (k == other)) [
  | inl same ↦
      let e = (eq_iff k other).0 same in
      let new : (k == key) ≡ false = rw e d in rw same (rw new refl)
  | inr differs ↦ rw differs (elim (Bool-cases (k == key)) [
    | inl found ↦ rw found refl
    | inr later ↦ rw later (find-set-other key other value fs d)
  ])
]

pub get_or-put-other :
    (key other : String) (default value v : Value)
    → (other == key) ≡ false
    → get_or key default (put other value v) ≡ get_or key default v
get_or-put-other key other default value (obj fs) d = rw (find-set-other key other value fs d) refl
get_or-put-other key other default value (arr vs) d = refl
get_or-put-other key other default value null d = refl
get_or-put-other key other default value (bool b) d = refl
get_or-put-other key other default value (int n) d = refl
get_or-put-other key other default value (str s) d = refl

find-set : (key : String) (value : Value) (fs : Fields) → find key (set key value fs) ≡ some value
unfolding find set
find-set key value end = let same : (key == key) ≡ true = (eq_iff key key).1 refl in rw same refl
find-set key value (field k v fs) = elim (Bool-cases (k == key)) [
  | inl same ↦ rw same (rw same refl)
  | inr other ↦ rw other (rw other (find-set key value fs))
]

pub get_or-put :
    (key : String) (default value : Value) (fs : Fields)
    → get_or key default (put key value (obj fs)) ≡ value
get_or-put key default value fs = rw (find-set key value fs) refl

-- A key that is read has that value.
pub at-eq-ok : (key : String) (v : Value) {w : Value} → at key v ≡ ok w → get key v ≡ w
at-eq-ok key v h = elim (Option-cases (find key (fields v))) [
  | inl e ↦ absurd (let raised = rw (e, at) at h in cc)
  | inr found ↦ let (_, e) = found in rw e (ok-injective (rw (e, at) at h))
]
