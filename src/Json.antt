-- ===== src/Json.antt =====
-- The values that YAML and JSON documents load to, and how the source reads them. Floats are left
-- out: no modelled module computes with one. A mapping keeps the order of its keys, as Python does.
pub mod Laws
pub mod Plain
use iac_modules.Common.{
  ℕ, suc, String, Bool, true, false, not, ◌&&◌, Option, none, some, List, [], ◌∷◌, ◌==◌, eqb, any,
  member, contains, if◌then◌else◌, Result, ok, err, malformed, ◌>>=◌,
}

-- `negsuc n` is -(n + 1).
pub data ℤ : Type 0 where
  pos : ℕ → ℤ
  negsuc : ℕ → ℤ

abbrev pub int_eq : ℤ → ℤ → Bool
int_eq (pos m) (pos n) = eqb m n
int_eq (negsuc m) (negsuc n) = eqb m n
int_eq _ _ = false

mutual
  pub data Fields : Type 0 where
    end : Fields
    field : String → Value → Fields → Fields

  pub data Value : Type 0 where
    null : Value
    bool : Bool → Value
    int : ℤ → Value
    str : String → Value
    obj : Fields → Value
    arr : Items → Value

  pub data Items : Type 0 where
    nil : Items
    cons : Value → Items → Items

abbrev pub elems : Items → List Value
elems nil = []
elems (cons v vs) = v ∷ elems vs

abbrev pub items : List Value → Items
items [] = nil
items (v ∷ vs) = cons v (items vs)

abbrev texts_items : List String → Items
texts_items [] = nil
texts_items (s ∷ ss) = cons (str s) (texts_items ss)

-- A list of strings, as a value.
abbrev pub texts : List String → Value
texts ss = arr (texts_items ss)

abbrev pub fields_of : List (String × Value) → Fields
fields_of [] = end
fields_of ((k, v) ∷ rest) = field k v (fields_of rest)

-- A mapping of the listed pairs.
abbrev pub mapping : List (String × Value) → Value
mapping pairs = obj (fields_of pairs)

abbrev pub keys : Fields → List String
keys end = []
keys (field k v fs) = k ∷ keys fs

abbrev pub values : Fields → List Value
values end = []
values (field k v fs) = v ∷ values fs

abbrev pub field_count : Fields → ℕ
field_count end = 0
field_count (field k v fs) = suc (field_count fs)

-- The value of a key.
unfoldable pub find : String → Fields → Option Value
find key end = none
find key (field k v fs) = if k == key then some v else find key fs

-- `mapping[key] = value`
unfoldable pub set : String → Value → Fields → Fields
set key value end = field key value end
set key value (field k v fs) = if k == key then field k value fs else field k v (set key value fs)

-- `{**base, **update}`
abbrev pub merge : Fields → Fields → Fields
merge base end = base
merge base (field k v fs) = merge (set k v base) fs

-- `mapping.pop(key)`, the fields that are left
unfoldable pub remove : String → Fields → Fields
remove key end = end
remove key (field k v fs) = if k == key then fs else field k v (remove key fs)

-- The fields of a mapping. Other values have none.
abbrev pub fields : Value → Fields
fields (obj fs) = fs
fields _ = end

abbrev pub or_default : Value → Option Value → Value
or_default default none = default
or_default default (some v) = v

-- `mapping.get(key, default)`. Where the value is no mapping, the source raises; each use stands
-- behind a check that it is one, or in a condition that then fails.
abbrev pub get_or : String → Value → Value → Value
get_or key default v = or_default default (find key (fields v))

-- `mapping.get(key)`
abbrev pub get : String → Value → Value
get key v = get_or key null v

-- `key in mapping`
abbrev pub has : String → Value → Bool
has key v = elim (find key (fields v)) [ none ↦ false | some _ ↦ true ]

-- `mapping[key]`
abbrev pub at : String → Value → Result Value
at key v = elim (find key (fields v)) [ none ↦ err malformed | some w ↦ ok w ]

-- `mapping[key] = value` on a value that is a mapping
abbrev pub put : String → Value → Value → Value
put key value (obj fs) = obj (set key value fs)
put key value v = v

abbrev pub is_null : Value → Bool
is_null null = true
is_null _ = false

-- `v is True`
abbrev pub is_true : Value → Bool
is_true (bool b) = b
is_true _ = false

-- `v is False`
abbrev pub is_false : Value → Bool
is_false (bool b) = not b
is_false _ = false

-- `type(v) is bool`
abbrev pub is_bool : Value → Bool
is_bool (bool b) = true
is_bool _ = false

-- `type(v) is int`
abbrev pub is_int : Value → Bool
is_int (int n) = true
is_int _ = false

-- `isinstance(v, str)`
abbrev pub is_str : Value → Bool
is_str (str s) = true
is_str _ = false

-- `isinstance(v, dict)`
abbrev pub is_mapping : Value → Bool
is_mapping (obj fs) = true
is_mapping _ = false

-- `isinstance(v, list)`
abbrev pub is_list : Value → Bool
is_list (arr xs) = true
is_list _ = false

-- `v == text`
abbrev pub is_text : String → Value → Bool
is_text t (str s) = s == t
is_text t _ = false

-- `isinstance(v, str) and test(v)`
abbrev pub str_such : (String → Bool) → Value → Bool
str_such test (str s) = test s
str_such test _ = false

abbrev nonzero : ℤ → Bool
nonzero (pos n) = not (eqb n 0)
nonzero (negsuc n) = true

-- `bool(v)`
abbrev pub truthy : Value → Bool
truthy null = false
truthy (bool b) = b
truthy (int n) = nonzero n
truthy (str s) = not (s == "")
truthy (arr nil) = false
truthy (arr (cons v vs)) = true
truthy (obj end) = false
truthy (obj (field k v fs)) = true

-- `v or {}`
abbrev pub or_empty : Value → Value
or_empty v = if truthy v then v else obj end

-- The members of a list. Other values have none.
abbrev pub members : Value → List Value
members (arr xs) = elems xs
members _ = []

-- `part in v`, of a list, a string or a mapping. Where `v` is none of these, the source raises.
abbrev pub holds : String → Value → Bool
holds part (arr xs) = any (is_text part) (elems xs)
holds part (str s) = contains s part
holds part (obj fs) = member part (keys fs)
holds part _ = false

-- What the operator `in` accepts on its right.
abbrev pub is_container : Value → Bool
is_container (arr xs) = true
is_container (str s) = true
is_container (obj fs) = true
is_container _ = false

-- What a loop that expects mappings runs through without a TypeError or an AttributeError: a list,
-- or a text or a mapping with nothing in it.
abbrev pub is_loopable : Value → Bool
is_loopable (arr xs) = true
is_loopable (str s) = s == ""
is_loopable (obj end) = true
is_loopable _ = false

-- A value that Python can put into a set.
abbrev pub is_hashable : Value → Bool
is_hashable (arr xs) = false
is_hashable (obj fs) = false
is_hashable _ = true

-- The text of a string. Other values are read where the source has checked that there is one.
abbrev pub text_value : Value → String
text_value (str s) = s
text_value _ = ""

-- A string, or the TypeError of its use as one.
abbrev pub as_text : Value → Result String
as_text (str s) = ok s
as_text _ = err malformed

-- `True` is 1 where numbers are compared.
abbrev number_of : Bool → ℤ
number_of true = pos 1
number_of false = pos 0

-- `a == b`: mappings are equal up to the order of their keys.
unfoldable mutual
  pub eq : Value → Value → Bool
  eq null null = true
  eq (bool a) (bool b) = int_eq (number_of a) (number_of b)
  eq (bool a) (int n) = int_eq (number_of a) n
  eq (int n) (bool a) = int_eq n (number_of a)
  eq (int m) (int n) = int_eq m n
  eq (str s) (str t) = s == t
  eq (arr xs) (arr ys) = eq_items xs ys
  eq (obj fs) (obj gs) = eqb (field_count fs) (field_count gs) && eq_fields fs gs
  eq _ _ = false

  pub eq_items : Items → Items → Bool
  eq_items nil nil = true
  eq_items (cons v vs) (cons w ws) = eq v w && eq_items vs ws
  eq_items _ _ = false

  pub eq_fields : Fields → Fields → Bool
  eq_fields end gs = true
  eq_fields (field k v fs) gs =
      elim (find k gs) [ none ↦ false | some w ↦ eq v w ] && eq_fields fs gs

abbrev pub texts_of : Items → Result (List String)
texts_of nil = ok []
texts_of (cons v vs) = do s ← as_text v; ss ← texts_of vs; ok (s ∷ ss)

-- A list of strings, or the TypeError of its use as one.
abbrev pub as_texts : Value → Result (List String)
as_texts (arr xs) = texts_of xs
as_texts _ = err malformed
