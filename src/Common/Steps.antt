-- ===== src/Common/Steps.antt =====
-- Programs that act on a world, step by step, and chains of steps that ended well.
use Prim.Native.String.{String}
use mathlib.Core.Path.{◌≡◌, refl}
use mathlib.Core.Bool.{Bool, true, false}
use iac_modules.Common.Refusal.{Result, ok, err, require}

-- A step returns or raises, and in both cases leaves a world.
abbrev pub Step : Type 0 → Type 0 → Type 0
Step W A = W → Result A × W

abbrev continue : {W A B : Type 0} → Result A × W → (A → Step W B) → Result B × W
continue (err e, w) f = (err e, w)
continue (ok a, w) f = f a w

infixl 5 ◌>>=◌ ◌>>◌
abbrev pub ◌>>=◌ : {W A B : Type 0} → Step W A → (A → Step W B) → Step W B
m >>= f = λ w. continue (m w) f

abbrev pub ◌>>◌ : {W B : Type 0} → Step W (Unit {0}) → Step W B → Step W B
m >> k = m >>= λ _. k

-- A result that needs no world.
abbrev pub lift : {W A : Type 0} → Result A → Step W A
lift r w = (r, w)

abbrev pub return : {W A : Type 0} → A → Step W A
return a w = (ok a, w)

-- `require`, within a step
abbrev pub check : {W : Type 0} → Bool → String → Step W (Unit {0})
check c message = lift (require c message)

module _ {W A B : Type 0} where
  -- What a step did, and where the next one began.
  pub record Went (m : Step W A) (f : A → Step W B) (w : W) (b : B) (end : W) : Type 0 where
    pub value : A
    pub mid : W
    pub first : m w ≡ (ok value, mid)
    pub rest : f value mid ≡ (ok b, end)

  step_cases :
      (m : Step W A) (f : A → Step W B) (w : W) (r : Result A × W) {b : B} {end : W}
      → m w ≡ r
      → (m >>= f) w ≡ (ok b, end)
      → Went m f w b end
  step_cases m f w (err e, mid) same h = absurd (let raised = rw same at h in cc)
  step_cases m f w (ok a, mid) same h = record {
    value = a;
    mid = mid;
    first = same;
    rest = rw same at h;
  }

  pub >>=-Went :
      (m : Step W A) (f : A → Step W B) (w : W) {b : B} {end : W}
      → (m >>= f) w ≡ (ok b, end)
      → Went m f w b end
  >>=-Went m f w h = step_cases m f w (m w) refl h

module _ {W B : Type 0} where
  -- A check that passed leaves the world as it is.
  pub check-passed :
      (c : Bool) (message : String) (f : Step W B) (w : W) {b : B} {end : W}
      → (check c message >> f) w ≡ (ok b, end)
      → (c ≡ true) × (f w ≡ (ok b, end))
  check-passed true message f w h = (refl, h)
  check-passed false message f w h = absurd (cc)

  pub lift-passed :
      {A : Type 0}
      → (r : Result A) (f : A → Step W B) (w : W) {b : B} {end : W} → (lift r >>= f) w ≡ (ok b, end)
      → (a : A) × (r ≡ ok a) × (f a w ≡ (ok b, end))
  lift-passed (ok a) f w h = (a, refl, h)
  lift-passed (err e) f w h = absurd (cc)

module _ {W A B : Type 0} (P : W → Type 0) where
  continue-leaves :
      (r : Result A × W) (f : A → Step W B) → P r.1 → ((a : A) → P (f a r.1).1) → P (continue r f).1
  continue-leaves (err e, w) f here later = here
  continue-leaves (ok a, w) f here later = later a

  -- What holds of the world after a step, and after every step that may follow.
  pub >>=-leaves :
      (m : Step W A) (f : A → Step W B) (w : W)
      → P (m w).1
      → ((a : A) → P (f a (m w).1).1)
      → P ((m >>= f) w).1
  >>=-leaves m f w here later = continue-leaves (m w) f here later
