-- ===== src/Evidence/Guard/Counts.antt =====
-- On the counts that `guard_plan`, of scripts/pipeline/unified/evidence.py, returns.
use iac_modules.Common.{
  ℕ, ◌+◌, String, ◌≡◌, ◌≢◌, refl, ap, ◌∙◌, inl, inr, true, false, ◌&&◌, ◌||◌, List, [], ◌∷◌, All,
  all, any, member, ◌==◌, eq_iff, arith, ok, >>=-eq-ok, ok-injective, Bool-cases, and-eq-true,
  All-of_member, All-of_all, All-map,
}
use iac_modules.Json.{
  Value, null, bool, int, str, arr, obj, nil, cons, Items, as_text, as_texts, texts_of, elems,
  is_text, holds,
}
use iac_modules.Evidence.Rebind.{safe_gcp_federation_rebind}
use iac_modules.Evidence.Guard.{guard_change, guard_changes, guard_plan}
use iac_modules.Evidence.Guard.Changes.{
  Request, Tally, no_changes, actions_of, is_rebind, one_if, count_change,
}
use iac_modules.Evidence.Guard.Laws.{
  is_managed, IsAllowed, changes_of, guard_change-parts, guard_change-skipped, guard_plan-parts,
  guard_plan-IsAllowed,
}

-- How many managed changes hold the operation.
abbrev pub occurrences : String → List Value → ℕ
occurrences op [] = 0
occurrences op (item ∷ rest) =
    one_if (is_managed item && holds op (actions_of item)) + occurrences op rest

-- The three counts grow by the occurrences.
record IsCounted (items : List Value) (t t' : Tally) : Type 0 where
  pub create : t'.create ≡ t.create + occurrences "create" items
  pub update : t'.update ≡ t.update + occurrences "update" items
  pub delete : t'.delete ≡ t.delete + occurrences "delete" items

guard_change-IsCounted :
    (r : Request) (t : Tally) (item : Value) {t' : Tally}
    → guard_change r t item ≡ ok t'
    → IsCounted (item ∷ []) t t'
unfolding count_change
guard_change-IsCounted r t item {t'} h = elim (Bool-cases (is_managed item)) [
  | inl managed ↦
      let (_, _, _, _, _, counted) = guard_change-parts r t item h managed in
      record {
        create = ground (arith, counted);
        update = ground (arith, counted);
        delete = ground (arith, counted);
      }
  | inr skipped ↦
      let same : t ≡ t' = guard_change-skipped r t item h skipped in
      record {
        create = ground (arith, same);
        update = ground (arith, same);
        delete = ground (arith, same);
      }
]

guard_changes-IsCounted :
    (r : Request) (t : Tally) (items : List Value) {t' : Tally}
    → guard_changes r t items ≡ ok t'
    → IsCounted items t t'
unfolding guard_changes
guard_changes-IsCounted r t [] {t'} h =
    let same : t ≡ t' = ok-injective h in
    record {
      create = ground (arith, same);
      update = ground (arith, same);
      delete = ground (arith, same);
    }
guard_changes-IsCounted r t (item ∷ rest) h =
    let (t1, here, h1) = >>=-eq-ok (guard_change r t item) _ h in
    let first = guard_change-IsCounted r t item here in
    let later = guard_changes-IsCounted r t1 rest h1 in
    record {
      create = omega (arith, first.create, later.create);
      update = omega (arith, first.update, later.update);
      delete = omega (arith, first.delete, later.delete);
    }

-- The counts of a plan that passed are the numbers of its managed changes with each operation.
pub guard_plan-IsCounted :
    (r : Request) (plan : Value) (t : Tally)
    → guard_plan r plan ≡ ok t
    → (t.create ≡ occurrences "create" (changes_of plan))
      × (t.update ≡ occurrences "update" (changes_of plan))
      × (t.delete ≡ occurrences "delete" (changes_of plan))
guard_plan-IsCounted r plan t h =
    let c = guard_changes-IsCounted r no_changes (changes_of plan) (guard_plan-parts r plan h).0 in
    (omega (arith, c.create), omega (arith, c.update), omega (arith, c.delete))

-- No occurrence where each managed change has none.
occurrences-zero :
    (op : String) (items : List Value)
    → All (λ item. is_managed item ≡ true → holds op (actions_of item) ≡ false) items
    → occurrences op items ≡ 0
occurrences-zero op [] h = refl
occurrences-zero op (item ∷ rest) (p, h) = elim (Bool-cases (is_managed item)) [
  | inl managed ↦ let none_here = p managed in ground (arith, occurrences-zero op rest h)
  | inr skipped ↦ ground (arith, occurrences-zero op rest h)
]

as_text-is_text : (x : String) (v : Value) {s : String} → as_text v ≡ ok s → is_text x v ≡ (s == x)
as_text-is_text x (str t) h = ap (λ u. u == x) (ok-injective h)
as_text-is_text x null h = cc
as_text-is_text x (bool b) h = cc
as_text-is_text x (int n) h = cc
as_text-is_text x (arr vs) h = cc
as_text-is_text x (obj fs) h = cc

any_text-member :
    (x : String) (vs : Items) {ss : List String}
    → as_texts (arr vs) ≡ ok ss
    → any (is_text x) (elems vs) ≡ member x ss
any_text-member x nil {ss} h = ap (member x) (ok-injective h)
any_text-member x (cons v vs) {ss} h =
    let (s, is_s, h1) = >>=-eq-ok (as_text v) _ h in
    let (rest, is_rest, h2) = >>=-eq-ok (texts_of vs) _ h1 in
    let e : s ∷ rest ≡ ss = ok-injective h2 in
    rw (← e, any_text-member x vs is_rest) (ap (λ b. b || member x rest) (as_text-is_text x v is_s))

holds-member :
    (x : String) (v : Value) {ss : List String} → as_texts v ≡ ok ss → holds x v ≡ member x ss
holds-member x (arr vs) h = any_text-member x vs h
holds-member x (str s) h = cc
holds-member x null h = cc
holds-member x (bool b) h = cc
holds-member x (int n) h = cc
holds-member x (obj fs) h = cc

-- What is no member of the allowed texts is no member of the others.
not_allowed :
    (x : String) (allowed ss : List String)
    → all (λ a. member a allowed) ss ≡ true
    → member x allowed ≡ false
    → member x ss ≡ false
not_allowed x allowed ss h out = elim (Bool-cases (member x ss)) [
  | inl m ↦
      let inside = All-of_member (λ a. member a allowed ≡ true) x ss (All-of_all _ ss h) m in
      absurd (cc)
  | inr n ↦ n
]

rebind-bootstrap : (r : Request) (item : Value) → is_rebind r item ≡ true → r.stage ≡ "bootstrap"
unfolding safe_gcp_federation_rebind
rebind-bootstrap r item h = (eq_iff r.stage "bootstrap").0 (and-eq-true _ _ (and-eq-true _ _ h).0).1

-- In a plan that passed, an ordinary action on another stage than the bootstrap deletes nothing.
guard_plan-keeps :
    (r : Request) (plan : Value) (t : Tally)
    → guard_plan r plan ≡ ok t
    → r.action ≢ "destroy"
    → r.stage ≢ "bootstrap"
    → t.delete ≡ 0
guard_plan-keeps r plan t h ordinary stage =
    let (_, _, counted) = guard_plan-IsCounted r plan t h in
    counted
    ∙ occurrences-zero "delete" (changes_of plan) (
        All-map _ _ (changes_of plan) (λ item allowed m. no_deletion item (allowed m))
          (guard_plan-IsAllowed r plan t h))
  where
    no_deletion : (item : Value) → IsAllowed r item → holds "delete" (actions_of item) ≡ false
    no_deletion item allowed = elim (Bool-cases (holds "delete" (actions_of item))) [
      | inl d ↦ elim ((allowed.deletion d).requested) [
        | inl destroy ↦ absurd (ordinary ((eq_iff r.action "destroy").0 destroy))
        | inr rebind ↦ absurd (stage (rebind-bootstrap r item rebind))
      ]
      | inr none_here ↦ none_here
    ]

-- A destroy plan that passed creates and updates nothing.
guard_plan-destroys :
    (r : Request) (plan : Value) (t : Tally)
    → guard_plan r plan ≡ ok t
    → r.action ≡ "destroy"
    → (t.create ≡ 0) × (t.update ≡ 0)
guard_plan-destroys r plan t h destroy =
    let (created, updated, _) = guard_plan-IsCounted r plan t h in
    (
      created
          ∙ occurrences-zero "create" (changes_of plan) (
              All-map _ _ (changes_of plan)
                (λ item allowed m. none_of "create" refl item (allowed m)) all_allowed),
      updated
          ∙ occurrences-zero "update" (changes_of plan) (
              All-map _ _ (changes_of plan)
                (λ item allowed m. none_of "update" refl item (allowed m)) all_allowed),
    )
  where
    all_allowed : All (λ item. is_managed item ≡ true → IsAllowed r item) (changes_of plan)
    all_allowed = guard_plan-IsAllowed r plan t h

    none_of :
        (op : String)
        → member op ("delete" ∷ "no-op" ∷ "read" ∷ []) ≡ false
        → (item : Value) → IsAllowed r item
        → holds op (actions_of item) ≡ false
    none_of op out item allowed =
        let (ss, is_ss, inside) = allowed.destroying ((eq_iff r.action "destroy").1 destroy) in
        holds-member op (actions_of item) is_ss
        ∙ not_allowed op ("delete" ∷ "no-op" ∷ "read" ∷ []) ss inside out
