-- ===== src/Cmdb/Words.antt =====
-- `str.strip`, `str.lower`, `str.split` and the parts of paths, as
-- terraform-hcl-standard/scripts/cmdb_v1.py uses them. Only ASCII letters have two cases here.
use Prim.Native.Char.{Char, code}
use iac_modules.Common.{
  ℕ, zero, suc, ◌-◌, String, Bool, false, not, ◌&&◌, ◌||◌, List, [], ◌∷◌, eqb, is_upper, is_lower,
  is_digit, is_blank, starts_with, drop, size, member, ◌==◌, if◌then◌else◌,
}
use iac_modules.Json.{Value, str, truthy, null}

-- `text.lstrip` and `text.rstrip`, of the characters in the class
strip_left : (ℕ → Bool) → String → String
strip_left class String.[] = String.[]
strip_left class (String.◌∷◌ c cs) =
    let rest = strip_left class cs in if class (code c) then rest else String.◌∷◌ c cs

strip_right : (ℕ → Bool) → String → String
strip_right class String.[] = String.[]
strip_right class (String.◌∷◌ c cs) =
    let rest = strip_right class cs in
    if rest == "" && class (code c) then String.[] else String.◌∷◌ c rest

unfoldable pub strip_of : (ℕ → Bool) → String → String
unfolding strip_left strip_right
strip_of class s = strip_right class (strip_left class s)

-- `text.strip()`
unfoldable pub strip : String → String
unfolding strip_of
strip s = strip_of is_blank s

pick : ℕ → String → Char → Char
pick n String.[] d = d
pick zero (String.◌∷◌ c cs) d = c
pick (suc n) (String.◌∷◌ c cs) d = pick n cs d

-- `text.lower()`
unfoldable pub lower : String → String
unfolding pick
lower String.[] = String.[]
lower (String.◌∷◌ c cs) =
    let small = pick (code c - 65) "abcdefghijklmnopqrstuvwxyz" c in
    String.◌∷◌ (if is_upper (code c) then small else c) (lower cs)

-- A text without the first of the prefixes that stands there
unfoldable pub without_prefix : List String → String → String
unfolding starts_with
without_prefix [] s = s
without_prefix (p ∷ ps) s =
    let later = without_prefix ps s in if starts_with s p then drop (size p) s else later

-- `mark in text`, for one character
unfoldable pub has_char : ℕ → String → Bool
has_char mark String.[] = false
has_char mark (String.◌∷◌ c cs) = eqb (code c) mark || has_char mark cs

-- `text.count(mark)`
unfoldable pub count_char : ℕ → String → ℕ
count_char mark String.[] = 0
count_char mark (String.◌∷◌ c cs) =
    let rest = count_char mark cs in if eqb (code c) mark then suc rest else rest

-- `text.rsplit(mark, 1)`, for a text that has the mark
unfoldable pub before_last : ℕ → String → String
unfolding has_char
before_last mark String.[] = String.[]
before_last mark (String.◌∷◌ c cs) =
    let rest = before_last mark cs in
    if has_char mark cs
    then String.◌∷◌ c rest
    else if eqb (code c) mark
    then String.[]
    else String.◌∷◌ c cs

after_last : ℕ → String → String
unfolding has_char
after_last mark String.[] = String.[]
after_last mark (String.◌∷◌ c cs) =
    let rest = after_last mark cs in if has_char mark cs then rest else cs

-- `text.split(mark, 1)`, for a text that has the mark
unfoldable pub before_first : ℕ → String → String
before_first mark String.[] = String.[]
before_first mark (String.◌∷◌ c cs) =
    let rest = before_first mark cs in if eqb (code c) mark then String.[] else String.◌∷◌ c rest

unfoldable pub after_first : ℕ → String → String
after_first mark String.[] = String.[]
after_first mark (String.◌∷◌ c cs) =
    let rest = after_first mark cs in if eqb (code c) mark then cs else rest

push : Char → List String → List String
push c [] = String.◌∷◌ c String.[] ∷ []
push c (s ∷ ss) = String.◌∷◌ c s ∷ ss

-- The parts of a text between the characters in the class
unfoldable pub split_at : (ℕ → Bool) → String → List String
unfolding push
split_at class String.[] = "" ∷ []
split_at class (String.◌∷◌ c cs) =
    let rest = split_at class cs in if class (code c) then "" ∷ rest else push c rest

unfoldable pub without : List String → List String → List String
without dropped [] = []
without dropped (s ∷ ss) =
    let rest = without dropped ss in if member s dropped then rest else s ∷ rest

-- `Path(text).parts`, less the root
unfoldable pub parts : String → List String
unfolding split_at without
parts path = without ("" ∷ "." ∷ []) (split_at (eqb b'/') path)

-- `parts[:-1]` and `Path(text).name`
unfoldable pub folders : List String → List String
folders [] = []
folders (s ∷ []) = []
folders (s ∷ t ∷ ss) = s ∷ folders (t ∷ ss)

unfoldable pub last_part : List String → String
last_part [] = ""
last_part (s ∷ []) = s
last_part (s ∷ t ∷ ss) = last_part (t ∷ ss)

-- `Path(name).stem`: a dot at either end of the name does not begin a suffix.
unfoldable pub stem : String → String
unfolding before_last after_last has_char
stem name =
    if has_char b'.' name && (not (before_last b'.' name == "") && not (after_last b'.' name == ""))
    then before_last b'.' name
    else name

-- `re.split(r"[^a-z0-9]+", text)`, less the empty parts
unfoldable pub tokens : String → List String
unfolding split_at without
tokens s = without ("" ∷ []) (split_at (λ c. not (is_lower c || is_digit c)) s)

-- `text[text.index(part):]`, for a text that has the part
unfoldable pub from_part : String → String → String
unfolding starts_with
from_part part String.[] = String.[]
from_part part (String.◌∷◌ c cs) =
    let later = from_part part cs in
    if starts_with (String.◌∷◌ c cs) part then String.◌∷◌ c cs else later

-- `text or default`
abbrev pub or_text : String → String → String
or_text s default = if s == "" then default else s

-- `str(v)`, with `str` of a value that is no text as a parameter
abbrev pub text_of : (Value → String) → Value → String
text_of show (str s) = s
text_of show v = show v

-- `str(v or "")`
abbrev pub text_or : (Value → String) → Value → String
text_or show v = if truthy v then text_of show v else ""

-- `a or b or ...`
abbrev pub first_of : List Value → Value
first_of [] = null
first_of (v ∷ []) = v
first_of (v ∷ w ∷ ws) = let later = first_of (w ∷ ws) in if truthy v then v else later
