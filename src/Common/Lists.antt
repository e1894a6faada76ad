-- ===== src/Common/Lists.antt =====
-- Tests and predicates on lists.
use Prim.Native.Nat.{ℕ, suc}
use Prim.Native.String.{String}
use mathlib.Core.Path.{◌≡◌, refl, subst}
use mathlib.Core.Logic.{◌⊎◌, ◌↔◌, inl, inr}
use mathlib.Core.Bool.{Bool, true, false, ◌&&◌, ◌||◌}
use mathlib.Core.List.{List, [], ◌∷◌, ◌++◌}
use native.Mathlib.Omega.{arith}
use text.Mathlib.Text.{◌==◌}
use text.Mathlib.TextEquality.{eq_iff}

module _ {ℓ} {A : Type ℓ} where
  abbrev pub length : List A → ℕ
  length [] = 0
  length (x ∷ xs) = suc (length xs)

  abbrev pub all : (A → Bool) → List A → Bool
  all p [] = true
  all p (x ∷ xs) = p x && all p xs

  abbrev pub any : (A → Bool) → List A → Bool
  any p [] = false
  any p (x ∷ xs) = p x || any p xs

module _ {ℓ κ} {A : Type ℓ} where
  abbrev pub All : (A → Type κ) → List A → Type κ
  All P [] = Unit
  All P (x ∷ xs) = P x × All P xs

-- `x in xs` for a list of texts.
abbrev pub member : String → List String → Bool
member x [] = false
member x (y ∷ ys) = y == x || member x ys

-- No text stands twice in the list.
abbrev pub Distinct : List String → Type 0
Distinct [] = Unit
Distinct (x ∷ xs) = (member x xs ≡ false) × Distinct xs

pub or_cases : (a b : Bool) → (a || b) ≡ true → (a ≡ true) ⊎ (b ≡ true)
or_cases a b h = ground arith

pub All-append {ℓ κ} :
    {A : Type ℓ} (P : A → Type κ) (xs ys : List A) → All P xs → All P ys → All P (xs ++ ys)
All-append P [] ys h k = k
All-append P (x ∷ xs) ys (p, h) k = (p, All-append P xs ys h k)

pub All-prefix {ℓ κ} : {A : Type ℓ} (P : A → Type κ) (xs ys : List A) → All P (xs ++ ys) → All P xs
All-prefix P [] ys h = tt
All-prefix P (x ∷ xs) ys (p, h) = (p, All-prefix P xs ys h)

pub All-suffix {ℓ κ} : {A : Type ℓ} (P : A → Type κ) (xs ys : List A) → All P (xs ++ ys) → All P ys
All-suffix P [] ys h = h
All-suffix P (x ∷ xs) ys (p, h) = All-suffix P xs ys h

pub All-map {ℓ κ μ} :
    {A : Type ℓ} (P : A → Type κ) (Q : A → Type μ) (xs : List A)
    → ((x : A) → P x → Q x)
    → All P xs
    → All Q xs
All-map P Q [] f h = tt
All-map P Q (x ∷ xs) f (p, h) = (f x p, All-map P Q xs f h)

pub All-any {ℓ} :
    {A : Type ℓ} (p : A → Bool) (xs : List A) → any p xs ≡ false → All (λ x. p x ≡ false) xs
All-any p [] h = tt
All-any p (x ∷ xs) h = (ground arith, All-any p xs (ground arith))

pub All-of_all {ℓ} :
    {A : Type ℓ} (p : A → Bool) (xs : List A) → all p xs ≡ true → All (λ x. p x ≡ true) xs
All-of_all p [] h = tt
All-of_all p (x ∷ xs) h = (ground arith, All-of_all p xs (ground arith))

pub All-of_member {ℓ} :
    (P : String → Type ℓ) (x : String) (xs : List String) → All P xs → member x xs ≡ true → P x
All-of_member P x [] h m = absurd (cc)
All-of_member P x (y ∷ ys) (p, h) m = elim (or_cases (y == x) (member x ys) m) [
  | inl same ↦ subst P ((eq_iff y x).0 same) p
  | inr later ↦ All-of_member P x ys h later
]

-- A test that some member passes.
pub any-member :
    (p : String → Bool) (xs : List String)
    → (any p xs ≡ true) ↔ ((x : String) × (member x xs ≡ true) × (p x ≡ true))
any-member p xs = (found xs, passed xs)
  where
    later :
        (y : String) (ys : List String)
        → (x : String) × (member x ys ≡ true) × (p x ≡ true)
        → (x : String) × (member x (y ∷ ys) ≡ true) × (p x ≡ true)
    later y ys (x, m, h) = (x, ground arith, h)

    found :
        (ys : List String) → any p ys ≡ true → (x : String) × (member x ys ≡ true) × (p x ≡ true)
    found [] h = absurd (cc)
    found (y ∷ ys) h = elim (or_cases (p y) (any p ys) h) [
      | inl here ↦ (y, ground (arith, eq_iff y y), here)
      | inr there ↦ later y ys (found ys there)
    ]

    passed :
        (ys : List String) → (x : String) × (member x ys ≡ true) × (p x ≡ true) → any p ys ≡ true
    passed [] (x, m, h) = cc
    passed (y ∷ ys) (x, m, h) = elim (or_cases (y == x) (member x ys) m) [
      | inl same ↦ let e = (eq_iff y x).0 same in rw e (ground arith)
      | inr there ↦ let rest = passed ys (x, there, h) in ground arith
    ]

pub member-append :
    (x : String) (xs ys : List String) → member x (xs ++ ys) ≡ (member x xs || member x ys)
member-append x [] ys = refl
member-append x (y ∷ xs) ys = ground (arith, member-append x xs ys)

-- A text that is new at the end of distinct ones.
pub Distinct-append :
    (xs : List String) (x : String) → Distinct xs → member x xs ≡ false → Distinct (xs ++ x ∷ [])
Distinct-append [] x d n = (refl, tt)
Distinct-append (y ∷ ys) x (p, d) n = (
  rw (member-append y ys (x ∷ [])) (ground (arith, eq_iff x y, eq_iff y x)),
  Distinct-append ys x d (ground arith),
)
