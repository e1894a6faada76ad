-- ===== src/Common/Sorting.antt =====
-- Python's `sorted`, and its order on texts.
use Prim.Native.Nat
use Prim.Native.Nat.{Ordering}
use Prim.Native.Char.{code}
use Prim.Native.String.compare as clause
use Prim.Native.String
use Prim.Native.String.{String}
use native.Mathlib.Omega.{arith}
use mathlib.Core.Path.{◌≡◌, refl, sym, ap, ap₂, ◌∙◌}
use mathlib.Core.Logic.{inl, inr}
use mathlib.Core.Bool.{Bool, true, false}
use mathlib.Core.List.{List, [], ◌∷◌}
use iac_modules.Common.Tests.{if◌then◌else◌, Bool-cases}

-- `a <= b`
abbrev pub text_leb : String → String → Bool
text_leb a b = elim (String.compare a b) [ Ordering.gt ↦ false | _ ↦ true ]

module _ {ℓ} {A : Type ℓ} (before : A → A → Bool) where
  abbrev pub insert : A → List A → List A
  insert x [] = x ∷ []
  insert x (y ∷ ys) = let rest = insert x ys in if before x y then x ∷ y ∷ ys else y ∷ rest

  -- `sorted`
  abbrev pub sorted : List A → List A
  sorted [] = []
  sorted (x ∷ xs) = insert x (sorted xs)

-- An order that is read from the other side.
flipped : Ordering → Ordering
flipped Ordering.lt = Ordering.gt
flipped Ordering.eq = Ordering.eq
flipped Ordering.gt = Ordering.lt

compare-flipped : (m n : Nat.ℕ) → Nat.compare m n ≡ flipped (Nat.compare n m)
unfolding flipped
compare-flipped m n = ground arith

then-flipped : (a b : Ordering) → String.then (flipped a) (flipped b) ≡ flipped (String.then a b)
unfolding flipped
then-flipped Ordering.lt b = refl
then-flipped Ordering.eq b = refl
then-flipped Ordering.gt b = refl

text_compare-flipped : (s t : String) → String.compare s t ≡ flipped (String.compare t s)
unfolding flipped
text_compare-flipped String.[] String.[] = rw clause.nil-nil
text_compare-flipped String.[] (String.◌∷◌ d t) = rw (clause.nil-cons, clause.cons-nil)
text_compare-flipped (String.◌∷◌ c s) String.[] = rw (clause.nil-cons, clause.cons-nil)
text_compare-flipped (String.◌∷◌ c s) (String.◌∷◌ d t) =
    clause.cons-cons c d s t
    ∙ ap₂ String.then (compare-flipped (code c) (code d)) (text_compare-flipped s t)
    ∙ then-flipped (Nat.compare (code d) (code c)) (String.compare t s)
    ∙ ap flipped (sym (clause.cons-cons d c t s))

-- Of two texts, one comes first.
pub text_leb_total : (s t : String) → text_leb s t ≡ false → text_leb t s ≡ true
unfolding flipped
text_leb_total s t h = let e = text_compare-flipped s t in ground arith

module _ {ℓ} {A : Type ℓ} (before : A → A → Bool) where
  abbrev Below : A → List A → Type 0
  Below x [] = Unit
  Below x (y ∷ ys) = before x y ≡ true

  abbrev IsSorted : List A → Type 0
  IsSorted [] = Unit
  IsSorted (x ∷ xs) = Below x xs × IsSorted xs

  Below-insert :
      (y x : A) (xs : List A) → before y x ≡ true → Below y xs → Below y (insert before x xs)
  Below-insert y x [] h below = h
  Below-insert y x (z ∷ zs) h below = elim (Bool-cases (before x z)) [
    | inl first ↦ rw first h
    | inr later ↦ rw later below
  ]

  module _ (total : (x y : A) → before x y ≡ false → before y x ≡ true) where
    insert-IsSorted : (x : A) (xs : List A) → IsSorted xs → IsSorted (insert before x xs)
    insert-IsSorted x [] h = (tt, tt)
    insert-IsSorted x (y ∷ ys) (below, h) = elim (Bool-cases (before x y)) [
      | inl first ↦ rw first (first, (below, h))
      | inr later ↦ rw later (Below-insert y x ys (total x y later) below, insert-IsSorted x ys h)
    ]

    sorted-IsSorted : (xs : List A) → IsSorted (sorted before xs)
    sorted-IsSorted [] = tt
    sorted-IsSorted (x ∷ xs) = insert-IsSorted x (sorted before xs) (sorted-IsSorted xs)

    insert_id : (x : A) (xs : List A) → Below x xs → insert before x xs ≡ x ∷ xs
    insert_id x [] below = refl
    insert_id x (y ∷ ys) below = rw below refl

    sorted_id : (xs : List A) → IsSorted xs → sorted before xs ≡ xs
    sorted_id [] h = refl
    sorted_id (x ∷ xs) (below, h) = rw (sorted_id xs h) (insert_id x xs below)

    -- Sorting twice changes nothing more.
    pub sorted-sorted : (xs : List A) → sorted before (sorted before xs) ≡ sorted before xs
    sorted-sorted xs = sorted_id (sorted before xs) (sorted-IsSorted xs)
