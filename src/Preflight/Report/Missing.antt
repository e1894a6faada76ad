-- ===== src/Preflight/Report/Missing.antt =====
-- What is known of the findings that are not there, for `build_report` of
-- scripts/akamai_state_preflight.py.
use iac_modules.Common.{
  ◌≤◌, String, ◌≡◌, refl, sym, subst, ◌∙◌, Bool, true, false, Bool-cases, inl, inr, List, [], ◌∷◌,
  ◌++◌, Distinct, length, member, arith, eq_iff, ◌==◌,
}
use iac_modules.Contracts.Transition.{unique}
use iac_modules.Preflight.Findings.{when_found}
use iac_modules.Preflight.Report.{repeated}

pub append-eq-nil {ℓ} : {A : Type ℓ} (xs ys : List A) → xs ++ ys ≡ [] → (xs ≡ []) × (ys ≡ [])
append-eq-nil [] ys h = (refl, h)
append-eq-nil (x ∷ xs) ys h = absurd (cc)

pub when_found-eq-nil : (c : Bool) (name : String) → when_found c name ≡ [] → c ≡ false
when_found-eq-nil true name h = absurd (cc)
when_found-eq-nil false name h = refl

-- The first finding is not there, and none of the others is.
pub first_missing :
    (c : Bool) (name : String) (rest : List String)
    → when_found c name ++ rest ≡ []
    → (c ≡ false) × (rest ≡ [])
first_missing c name rest h =
    let (first, others) = append-eq-nil (when_found c name) rest h in
    (when_found-eq-nil c name first, others)

-- The last finding is not there, and none of the others is.
pub last_missing :
    (rest : List String) (c : Bool) (name : String)
    → rest ++ when_found c name ≡ []
    → (rest ≡ []) × (c ≡ false)
last_missing rest c name h =
    let (others, last) = append-eq-nil rest (when_found c name) h in
    (others, when_found-eq-nil c name last)

member-unique : (y : String) (xs : List String) → member y (unique xs) ≡ member y xs
member-unique y [] = refl
member-unique y (x ∷ xs) =
    let same = member-unique y xs in
    let there = member-unique x xs in
    elim (Bool-cases (member x (unique xs))) [
      | inl again ↦ elim (Bool-cases (x == y)) [
        | inl e ↦ rw (again, e) (subst (λ z. member z (unique xs) ≡ true) ((eq_iff x y).0 e) again)
        | inr e ↦ rw (again, e) same
      ]
      | inr new ↦ rw (new, same) refl
    ]

unique-le : (xs : List String) → length (unique xs) ≤ length xs
unique-le [] = omega arith
unique-le (x ∷ xs) =
    let less = unique-le xs in
    elim (Bool-cases (member x (unique xs))) [
      | inl there ↦ rw there (omega arith)
      | inr new ↦ rw new (omega arith)
    ]

unique-Distinct : (xs : List String) → length (unique xs) ≡ length xs → Distinct xs
unique-Distinct [] h = tt
unique-Distinct (x ∷ xs) h =
    let less = unique-le xs in
    elim (Bool-cases (member x (unique xs))) [
      | inl there ↦ absurd (let e = rw there at h in omega arith)
      | inr new ↦
          (sym (member-unique x xs) ∙ new, unique-Distinct xs (let e = rw new at h in omega arith))
    ]

pub not_repeated-Distinct : (xs : List String) → repeated xs ≡ false → Distinct xs
not_repeated-Distinct xs h = unique-Distinct xs (ground arith)
