-- ===== src/Common/Refusal.antt =====
-- Refusals as values: the exceptions that the source raises.
use Prim.Native.String.{String}
use mathlib.Core.Path.{◌≡◌, refl, ap, ◌∙◌}
use mathlib.Core.Bool.{Bool, true, false}
use mathlib.Core.List.{List, [], ◌∷◌}
use mathlib.Core.Option.{Option, none, some}
use iac_modules.Common.Lists.{All}

-- `refused` carries the message of an exception that the source raises itself. `malformed` stands
-- for the KeyError, TypeError or AttributeError that Python raises where a value of a wrong shape
-- is read.
pub data Error : Type 0 where
  refused : String → Error
  malformed : Error

pub data Result {ℓ} (A : Type ℓ) : Type ℓ where
  ok : A → Result A
  err : Error → Result A

-- `require(condition, message)`
abbrev pub require : Bool → String → Result (Unit {0})
require true message = ok tt
require false message = err (refused message)

-- A shape without which Python raises.
abbrev pub expect : Bool → Result (Unit {0})
expect true = ok tt
expect false = err malformed

infixl 5 ◌>>=◌ ◌>>◌
-- One step and what follows it: an exception passes by the rest.
abbrev pub ◌>>=◌ {κ ℓ} : {R : Type κ} {S : Type ℓ} → Result R → (R → Result S) → Result S
err raised >>= rest = err raised
ok value >>= rest = rest value

abbrev pub ◌>>◌ {ℓ} : {S : Type ℓ} → Result (Unit {0}) → Result S → Result S
check >> rest = check >>= λ _. rest

-- `if condition: body`
abbrev pub when : Bool → Result (Unit {0}) → Result (Unit {0})
when true m = m
when false m = ok tt

-- A loop that only checks: the first refusal ends it.
abbrev pub each {ℓ} : {A : Type ℓ} → (A → Result (Unit {0})) → List A → Result (Unit {0})
each f [] = ok tt
each f (x ∷ xs) = f x >> each f xs

module _ {ℓ κ} {A : Type ℓ} {B : Type κ} where
  -- A loop that collects: the first refusal ends it.
  abbrev pub collect : (A → Result B) → List A → Result (List B)
  collect f [] = ok []
  collect f (x ∷ xs) = do y ← f x; ys ← collect f xs; ok (y ∷ ys)

  -- A chain that ends well had a first step that did.
  pub >>=-eq-ok :
      (first : Result A) (rest : A → Result B) {end : B}
      → (first >>= rest) ≡ ok end
      → (value : A) × (first ≡ ok value) × (rest value ≡ ok end)
  >>=-eq-ok (err raised) rest h = cc
  >>=-eq-ok (ok value) rest h = (value, refl, h)

-- A chain whose first step ends well goes on.
pub >>=-ok {ℓ κ} :
    {A : Type ℓ} {B : Type κ} {first : Result A} {value : A} (rest : A → Result B) {end : Result B}
    → first ≡ ok value
    → rest value ≡ end
    → (first >>= rest) ≡ end
>>=-ok rest h k = ap (λ m. m >>= rest) h ∙ k

pub require-true : {c : Bool} (message : String) → c ≡ true → require c message ≡ ok tt
require-true message h = rw h refl

-- What a passed `require` tells.
pub require-eq-ok {ℓ} :
    {B : Type ℓ} (c : Bool) (message : String) (k : Result B) {b : B}
    → (require c message >> k) ≡ ok b
    → (c ≡ true) × (k ≡ ok b)
require-eq-ok true message k h = (refl, h)
require-eq-ok false message k h = cc

pub >>-eq-ok {ℓ} :
    {B : Type ℓ} (m : Result (Unit {0})) (k : Result B) {b : B}
    → (m >> k) ≡ ok b
    → (m ≡ ok tt) × (k ≡ ok b)
>>-eq-ok (ok _) k h = (refl, h)
>>-eq-ok (err e) k h = cc

pub when-eq-ok : (c : Bool) (m : Result (Unit {0})) → when c m ≡ ok tt → c ≡ true → m ≡ ok tt
when-eq-ok true m h e = h
when-eq-ok false m h e = cc

-- Two chains agree where their parts agree on what the first step returns.
pub >>=-congruent {ℓ κ} :
    {A : Type ℓ} {B : Type κ} (m : Result A) (f g : A → Result B)
    → ((a : A) → m ≡ ok a → f a ≡ g a)
    → (m >>= f) ≡ (m >>= g)
>>=-congruent (ok a) f g h = h a refl
>>=-congruent (err e) f g h = refl

pub ok-injective {ℓ} : {A : Type ℓ} {a b : A} → ok a ≡ ok b → a ≡ b
ok-injective h = cc

pub require-passed : (c : Bool) (message : String) → require c message ≡ ok tt → c ≡ true
require-passed true message h = refl
require-passed false message h = cc

pub each-eq-ok {ℓ} :
    {A : Type ℓ} (f : A → Result (Unit {0})) (xs : List A)
    → each f xs ≡ ok tt
    → All (λ x. f x ≡ ok tt) xs
each-eq-ok f [] h = tt
each-eq-ok f (x ∷ xs) h = let (here, later) = >>-eq-ok (f x) _ h in (here, each-eq-ok f xs later)

-- The value that a loop's lookup found, where nothing found is an exception.
pub lookup-eq-ok {ℓ} :
    {A : Type ℓ} (raised : Error) (o : Option A) {a : A}
    → elim o [ none ↦ err raised | some x ↦ ok x ] ≡ ok a
    → o ≡ some a
lookup-eq-ok raised none h = cc
lookup-eq-ok raised (some x) h = ap some (ok-injective h)
