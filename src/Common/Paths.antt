-- ===== src/Common/Paths.antt =====
-- Paths as `pathlib` reads them, and the blank characters of `str.strip`.
use Prim.Native.Char.{Char, code}
use Prim.Native.Nat.{ℕ}
use Prim.Native.String.{String}
use mathlib.Core.Bool.{Bool, false, not, ◌&&◌, ◌||◌}
use mathlib.Core.List.{List, [], ◌∷◌}
use iac_modules.Common.Tests.{leb, eqb, if◌then◌else◌}
use iac_modules.Common.Lists.{member}
use iac_modules.Common.Texts.{starts_with}

-- A character in front of the first segment.
abbrev push : Char → List String → List String
push c [] = String.◌∷◌ c String.[] ∷ []
push c (s ∷ ss) = String.◌∷◌ c s ∷ ss

-- `text.split("/")`
unfoldable pub segments : String → List String
segments String.[] = String.[] ∷ []
segments (String.◌∷◌ c cs) =
    let rest = segments cs in if eqb (code c) b'/' then String.[] ∷ rest else push c rest

-- `".." in Path(text).parts`
unfoldable pub climbs : String → Bool
unfolding segments
climbs path = member ".." (segments path)

-- `Path(text).is_absolute()`
unfoldable pub is_absolute : String → Bool
unfolding starts_with
is_absolute path = starts_with path "/"

-- The characters that `str.strip` removes.
abbrev pub is_blank : ℕ → Bool
is_blank c =
    (leb 9 c && leb c 13)
    || (leb 28 c && leb c 32)
    || eqb c 0x85
    || eqb c 0xA0
    || eqb c 0x1680
    || (leb 0x2000 c && leb c 0x200A)
    || eqb c 0x2028
    || eqb c 0x2029
    || eqb c 0x202F
    || eqb c 0x205F
    || eqb c 0x3000

-- `bool(text.strip())`
unfoldable pub has_ink : String → Bool
has_ink String.[] = false
has_ink (String.◌∷◌ c cs) = not (is_blank (code c)) || has_ink cs
