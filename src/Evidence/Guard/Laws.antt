-- ===== src/Evidence/Guard/Laws.antt =====
-- On the plans that `guard_plan`, of scripts/pipeline/unified/evidence.py, passes.
use iac_modules.Common.{
  String, ◌≡◌, ◌≢◌, sym, ap, ◌∙◌, ◌⊎◌, inl, inr, Bool, true, false, not, List, [], ◌∷◌, ◌++◌, All,
  all, member, arith, ok, >>=-eq-ok, >>-eq-ok, require-eq-ok, when-eq-ok, require-passed, or_cases,
  ok-injective, Bool-cases, not-eq-true,
}
use iac_modules.Json.{
  Value, arr, nil, get, get_or, at, as_text, as_texts, eq, texts, truthy, is_text, members, holds,
  text_value,
}
use iac_modules.Contracts.Ownership.{owner_match}
use iac_modules.Contracts.Target.Tables.{is_among}
use iac_modules.Evidence.Guard.{guard_change, guard_changes, finish, guard_plan}
use iac_modules.Evidence.Guard.Changes.{
  Request, Tally, no_changes, spec_of, actions_of, is_rebind, is_destroy, is_calm, persistent_disks,
  check_ownership, check_existing, check_deletion, check_destroy, check_downgrade, is_violation,
  count_change, violation_of,
}

-- The change is to a managed resource.
abbrev pub is_managed : Value → Bool
is_managed item = not (is_text "data" (get "mode" item))

abbrev pub address_of : Value → String
address_of item = text_value (get "address" item)

-- The change lies inside the stage's ownership.
abbrev pub IsInside : Request → Value → Type 0
IsInside r item =
    (owners : List String) × (as_texts (get "owners" (spec_of r)) ≡ ok owners)
    × (owner_match (address_of item) owners ≡ true)

-- What a deletion, alone or in a replacement, must satisfy.
pub record MayDelete (r : Request) (item : Value) : Type 0 where
  pub unprotected :
      (owners : List String) × (as_texts (get_or "protected" (arr nil) (spec_of r)) ≡ ok owners)
      × (owner_match (address_of item) owners ≡ false)
  pub no_disk : is_among persistent_disks (get "type" item) ≡ false
  pub requested : (is_destroy r ≡ true) ⊎ (is_rebind r item ≡ true)

-- What every change to a managed resource satisfies in a plan that passed.
pub record IsAllowed (r : Request) (item : Value) : Type 0 where
  pub inside : IsInside r item
  pub deletion : holds "delete" (actions_of item) ≡ true → MayDelete r item
  pub destroying :
      is_destroy r ≡ true
      → (actions : List String) × (as_texts (actions_of item) ≡ ok actions)
        × (all (λ a. member a ("delete" ∷ "no-op" ∷ "read" ∷ [])) actions ≡ true)
  pub existing_only :
      truthy (get "existing_only" (spec_of r)) ≡ true
      → eq (actions_of item) (texts ("no-op" ∷ [])) ≡ true
  pub create_only :
      truthy (get "create_only" (spec_of r)) ≡ true
      → is_destroy r ≡ false
      → (is_calm (actions_of item) ≡ true) ⊎ (is_rebind r item ≡ true)

address_text :
    (item : Value) {address : Value} {owned : String}
    → at "address" item ≡ ok address
    → as_text address ≡ ok owned
    → address_of item ≡ owned
address_text item {address} {owned} h k = ground arith

check_ownership-IsInside :
    (r : Request) (item : Value) → check_ownership r item ≡ ok tt → IsInside r item
unfolding check_ownership
check_ownership-IsInside r item h =
    let (address, at_address, h1) = >>=-eq-ok (at "address" item) _ h in
    let (owned, is_owned, h2) = >>=-eq-ok (as_text address) _ h1 in
    let (owners, is_owners, h3) = >>=-eq-ok (as_texts (get "owners" (spec_of r))) _ h2 in
    let same : address_of item ≡ owned = address_text item at_address is_owned in
    (owners, is_owners, rw same (require-passed _ _ h3))

check_deletion-MayDelete :
    (r : Request) (item : Value)
    → check_deletion r item ≡ ok tt
    → holds "delete" (actions_of item) ≡ true
    → MayDelete r item
unfolding check_deletion
check_deletion-MayDelete r item h d =
    let (owners, is_owners, h1) =
      >>=-eq-ok (as_texts (get_or "protected" (arr nil) (spec_of r))) _ (when-eq-ok _ _ h d) in
    let (unprotected, h2) = require-eq-ok _ _ _ h1 in
    let (no_disk, h3) = require-eq-ok _ _ _ h2 in
    let (requested, _) = require-eq-ok _ _ _ h3 in
    record {
      unprotected = (owners, is_owners, not-eq-true _ unprotected);
      no_disk = not-eq-true _ no_disk;
      requested = or_cases (is_destroy r) (is_rebind r item) requested;
    }

check_destroy-actions :
    (r : Request) (item : Value)
    → check_destroy r item ≡ ok tt
    → is_destroy r ≡ true
    → (actions : List String) × (as_texts (actions_of item) ≡ ok actions)
      × (all (λ a. member a ("delete" ∷ "no-op" ∷ "read" ∷ [])) actions ≡ true)
unfolding check_destroy
check_destroy-actions r item h d =
    let (actions, e, h1) = >>=-eq-ok (as_texts (actions_of item)) _ (when-eq-ok _ _ h d) in
    (actions, e, require-passed _ _ h1)

check_existing-no_op :
    (r : Request) (item : Value)
    → check_existing r item ≡ ok tt
    → truthy (get "existing_only" (spec_of r)) ≡ true
    → eq (actions_of item) (texts ("no-op" ∷ [])) ≡ true
unfolding check_existing
check_existing-no_op r item h e = require-passed _ _ (when-eq-ok _ _ h e)

-- A managed change passes each check, and is counted.
pub guard_change-parts :
    (r : Request) (t : Tally) (item : Value) {t' : Tally}
    → guard_change r t item ≡ ok t'
    → is_managed item ≡ true
    → (check_ownership r item ≡ ok tt)
      × (check_existing r item ≡ ok tt)
      × (check_deletion r item ≡ ok tt)
      × (check_destroy r item ≡ ok tt)
      × (check_downgrade item ≡ ok tt)
      × (t' ≡ count_change r item t)
unfolding guard_change
guard_change-parts r t item h m =
    (ground arith, ground arith, ground arith, ground arith, ground arith, ground arith)

append-ne-nil {ℓ} : {A : Type ℓ} (xs : List A) (x : A) → xs ++ x ∷ [] ≢ []
append-ne-nil [] x e = cc
append-ne-nil (y ∷ ys) x e = cc

-- A tally without violations comes from one without, and from a change that is none.
count_change-clean :
    (r : Request) (item : Value) (t : Tally)
    → (count_change r item t).violations ≡ []
    → (t.violations ≡ []) × (is_violation r item ≡ false)
unfolding count_change
count_change-clean r item t h = elim (Bool-cases (is_violation r item)) [
  | inl bad ↦ absurd (append-ne-nil t.violations (violation_of item) (ground (arith, bad)))
  | inr fine ↦ (ground arith, fine)
]

pub guard_change-skipped :
    (r : Request) (t : Tally) (item : Value) {t' : Tally}
    → guard_change r t item ≡ ok t'
    → is_managed item ≡ false
    → t ≡ t'
unfolding guard_change
guard_change-skipped r t item h m = ground arith

guard_change-clean :
    (r : Request) (t : Tally) (item : Value) {t' : Tally}
    → guard_change r t item ≡ ok t'
    → t'.violations ≡ []
    → (t.violations ≡ []) × (is_managed item ≡ true → IsAllowed r item)
guard_change-clean r t item {t'} h clean = elim (Bool-cases (is_managed item)) [
  | inl managed ↦
      let (own, existing, deletion, destroying, _, counted) =
        guard_change-parts r t item h managed in
      let (before, fine) =
        count_change-clean r item t (ap (λ (u : Tally). u.violations) (sym counted) ∙ clean) in
      (
        before,
        λ _. record {
          inside = check_ownership-IsInside r item own;
          deletion = check_deletion-MayDelete r item deletion;
          destroying = check_destroy-actions r item destroying;
          existing_only = check_existing-no_op r item existing;
          create_only = λ c d. ground (arith, fine);
        },
      )
  | inr skipped ↦
      let same : t ≡ t' = guard_change-skipped r t item h skipped in
      (ap (λ (u : Tally). u.violations) same ∙ clean, λ m. absurd (cc))
]

guard_changes-IsAllowed :
    (r : Request) (t : Tally) (items : List Value) {t' : Tally}
    → guard_changes r t items ≡ ok t'
    → t'.violations ≡ []
    → (t.violations ≡ []) × All (λ item. is_managed item ≡ true → IsAllowed r item) items
unfolding guard_changes
guard_changes-IsAllowed r t [] h clean =
    (ap (λ (u : Tally). u.violations) (ok-injective h) ∙ clean, tt)
guard_changes-IsAllowed r t (item ∷ rest) h clean =
    let (t1, here, h1) = >>=-eq-ok (guard_change r t item) _ h in
    let (clean1, later) = guard_changes-IsAllowed r t1 rest h1 clean in
    let (before, allowed) = guard_change-clean r t item here clean1 in (before, (allowed, later))

-- The changes of a plan.
abbrev pub changes_of : Value → List Value
changes_of plan = members (get_or "resource_changes" (arr nil) plan)

finish-clean : (u : Tally) {t : Tally} → finish u ≡ ok t → (u ≡ t) × (t.violations ≡ [])
unfolding finish
finish-clean u h = (ground arith, ground arith)

pub guard_plan-parts :
    (r : Request) (plan : Value) {t : Tally}
    → guard_plan r plan ≡ ok t
    → (guard_changes r no_changes (changes_of plan) ≡ ok t) × (t.violations ≡ [])
unfolding guard_plan
guard_plan-parts r plan {t} h =
    let (_, h1) = >>-eq-ok _ _ h in
    let (_, h2) = >>-eq-ok _ _ h1 in
    let (u, passed, h3) = >>=-eq-ok (guard_changes r no_changes (changes_of plan)) finish h2 in
    let (same, clean) = finish-clean u h3 in (passed ∙ ap ok same, clean)

-- Every change of a plan that passed to a managed resource lies inside the stage's ownership. It
-- deletes only what is neither protected nor a persistent disk, and only in a destroy or as the one
-- allowed rebind. A destroy plan creates and updates nothing, an existing-only plan changes nothing,
-- and a create-only plan outside a destroy only creates or reads, or makes the rebind.
pub guard_plan-IsAllowed :
    (r : Request) (plan : Value) (t : Tally)
    → guard_plan r plan ≡ ok t
    → All (λ item. is_managed item ≡ true → IsAllowed r item) (changes_of plan)
guard_plan-IsAllowed r plan t h =
    let (passed, clean) = guard_plan-parts r plan h in
    (guard_changes-IsAllowed r no_changes (changes_of plan) passed clean).1
