-- ===== src/Common/Texts.antt =====
-- Texts as the source's string methods and regular expressions see them. A character class is a
-- test on code points.
use Prim.Native.Nat.{ℕ, zero, suc}
use Prim.Native.Char.{code}
use Prim.Native.String
use Prim.Native.String.{String, [], ◌∷◌}
use mathlib.Core.Path.{◌≡◌, refl}
use mathlib.Core.Bool.{Bool, true, false, ◌&&◌, ◌||◌}
use native.Mathlib.Omega.{arith}
use text.Mathlib.TextEquality.{Char-path}
use text.Mathlib.TextLemmas.{nil-append, cons-append}
use iac_modules.Common.Tests.{leb, eqb, eqb_iff, eqb_refl}

infixr 65 ◌+++◌
-- `a + b` on texts.
abbrev pub ◌+++◌ : String → String → String
a +++ b = String.◌++◌ a b

-- `text.startswith(prefix)`
unfoldable pub starts_with : String → String → Bool
starts_with text [] = true
starts_with [] (p ∷ ps) = false
starts_with (c ∷ cs) (p ∷ ps) = eqb (code c) (code p) && starts_with cs ps

-- `part in text`
unfoldable pub contains : String → String → Bool
unfolding starts_with
contains [] part = starts_with [] part
contains (c ∷ cs) part = starts_with (c ∷ cs) part || contains cs part

-- Every character is in the class.
abbrev pub all_chars : (ℕ → Bool) → String → Bool
all_chars class [] = true
all_chars class (c ∷ cs) = class (code c) && all_chars class cs

-- The number of characters.
abbrev pub size : String → ℕ
size [] = 0
size (c ∷ cs) = suc (size cs)

-- `text[n:]`
abbrev pub drop : ℕ → String → String
drop zero s = s
drop (suc n) [] = []
drop (suc n) (c ∷ cs) = drop n cs

-- `re.fullmatch` of `[head][tail]{0,most}`.
abbrev pub head_tail : (ℕ → Bool) → (ℕ → Bool) → ℕ → String → Bool
head_tail head tail most [] = false
head_tail head tail most (c ∷ cs) = head (code c) && (all_chars tail cs && leb (size cs) most)

abbrev pub is_digit : ℕ → Bool
is_digit c = leb b'0' c && leb c b'9'

abbrev pub is_lower : ℕ → Bool
is_lower c = leb b'a' c && leb c b'z'

abbrev pub is_upper : ℕ → Bool
is_upper c = leb b'A' c && leb c b'Z'

abbrev pub is_alnum : ℕ → Bool
is_alnum c = is_digit c || (is_lower c || is_upper c)

-- The class of the characters of a text.
abbrev pub one_of : String → ℕ → Bool
one_of [] c = false
one_of (d ∷ ds) c = eqb (code d) c || one_of ds c

pub starts_with-append : (p s : String) → starts_with (p +++ s) p ≡ true
unfolding starts_with
starts_with-append [] s = refl
starts_with-append (c ∷ p) s = rw cons-append (rw eqb_refl (starts_with-append p s))

-- The rest of a text behind a prefix of it.
pub starts_with_rest : (t p : String) → starts_with t p ≡ true → (r : String) × (t ≡ p +++ r)
unfolding starts_with
starts_with_rest t [] h = (t, rw nil-append)
starts_with_rest [] (p ∷ ps) h = absurd (cc)
starts_with_rest (c ∷ cs) (p ∷ ps) h =
    let (r, e) = starts_with_rest cs ps (ground arith) in
    let same = Char-path c p ((eqb_iff (code c) (code p)).0 (ground arith)) in
    (r, rw cons-append (cc))
