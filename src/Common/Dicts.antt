-- ===== src/Common/Dicts.antt =====
-- Python's `dict` with string keys, in the order of insertion.
use Prim.Native.String.{String}
use mathlib.Core.Path.{◌≡◌, refl, sym, subst, ◌∙◌}
use mathlib.Core.Bool.{false}
use mathlib.Core.Logic.{◌⊎◌, inl, inr}
use mathlib.Core.List.{List, [], ◌∷◌}
use mathlib.Core.Option.{Option, none, some}
use native.Mathlib.Omega.{arith}
use text.Mathlib.Text.{◌==◌}
use text.Mathlib.TextEquality.{eq_iff}
use iac_modules.Common.Lists.{member, Distinct}
use iac_modules.Common.Tests.{if◌then◌else◌, Bool-cases}

abbrev pub Dict {ℓ} : Type ℓ → Type ℓ
Dict V = List (String × V)

pub some-injective {ℓ} : {A : Type ℓ} {a b : A} → some a ≡ some b → a ≡ b
some-injective h = cc

module _ {ℓ} {V : Type ℓ} where
  -- `d.get(k)`
  unfoldable pub lookup : String → Dict V → Option V
  lookup k [] = none
  lookup k ((j, v) ∷ d) = if j == k then some v else lookup k d

  -- `d[k] = v`
  unfoldable pub store : String → V → Dict V → Dict V
  store k v [] = (k, v) ∷ []
  store k v ((j, w) ∷ d) = let rest = store k v d in if j == k then (j, v) ∷ d else (j, w) ∷ rest

  -- `d.pop(k, None)`, what is left
  unfoldable pub without_key : String → Dict V → Dict V
  without_key k [] = []
  without_key k ((j, v) ∷ d) = let rest = without_key k d in if j == k then rest else (j, v) ∷ rest

  pub lookup-store :
      (k j : String) (v : V) (d : Dict V)
      → lookup j (store k v d) ≡ (if k == j then some v else lookup j d)
  unfolding lookup store
  lookup-store k j v [] = refl
  lookup-store k j v ((i, w) ∷ d) =
      ground (arith, eq_iff k j, eq_iff i k, eq_iff i j, lookup-store k j v d)

  pub lookup-without_key :
      (k j : String) (d : Dict V)
      → lookup j (without_key k d) ≡ (if k == j then none else lookup j d)
  unfolding lookup without_key
  lookup-without_key k j [] = ground arith
  lookup-without_key k j ((i, v) ∷ d) =
      ground (arith, lookup-without_key k j d, eq_iff i k, eq_iff i j, eq_iff k j)

  -- What is found after a write, at the key that was written and at the others.
  pub lookup-store_cases :
      (k j : String) (v : V) (d : Dict V) {w : V}
      → lookup j (store k v d) ≡ some w
      → ((k ≡ j) × (v ≡ w)) ⊎ (((k == j) ≡ false) × (lookup j d ≡ some w))
  lookup-store_cases k j v d h = elim (Bool-cases (k == j)) [
    | inl same ↦ inl ((eq_iff k j).0 same, some-injective (rw (lookup-store k j v d, same) at h))
    | inr other ↦ inr (other, rw (lookup-store k j v d, other) at h)
  ]

module _ {ℓ} {V : Type ℓ} where
  abbrev pub names : Dict V → List String
  names [] = []
  names ((k, v) ∷ d) = k ∷ names d

  member-store :
      (j k : String) (v : V) (d : Dict V)
      → (k == j) ≡ false
      → member j (names (store k v d)) ≡ member j (names d)
  unfolding store
  member-store j k v [] other = rw other refl
  member-store j k v ((i, w) ∷ d) other = elim (Bool-cases (i == k)) [
    | inl same ↦ rw same refl
    | inr differs ↦ rw differs (rw (member-store j k v d other) refl)
  ]

  -- A write leaves no name twice.
  pub store-Distinct :
      (k : String) (v : V) (d : Dict V) → Distinct (names d) → Distinct (names (store k v d))
  unfolding store
  store-Distinct k v [] h = (refl, tt)
  store-Distinct k v ((i, w) ∷ d) (new, h) = elim (Bool-cases (i == k)) [
    | inl same ↦ rw same (new, h)
    | inr differs ↦
        let other : (k == i) ≡ false = ground (arith, eq_iff k i, eq_iff i k) in
        rw differs (member-store i k v d other ∙ new, store-Distinct k v d h)
  ]

module _ {ℓ κ} {V : Type ℓ} where
  -- A property of every entry.
  abbrev pub AllEntries : (String → V → Type κ) → Dict V → Type κ
  AllEntries P [] = Unit
  AllEntries P ((k, v) ∷ d) = P k v × AllEntries P d

  pub AllEntries-lookup :
      (P : String → V → Type κ) (k : String) (d : Dict V) {v : V}
      → AllEntries P d
      → lookup k d ≡ some v
      → P k v
  unfolding lookup
  AllEntries-lookup P k [] h f = absurd (cc)
  AllEntries-lookup P k ((j, w) ∷ d) {v} (p, h) f = elim (Bool-cases (j == k)) [
    | inl same ↦
        let e : w ≡ v = some-injective (rw same at f) in
        subst (P k) e (subst (λ i. P i w) ((eq_iff j k).0 same) p)
    | inr other ↦ AllEntries-lookup P k d h (rw other at f)
  ]

  pub AllEntries-store :
      (P : String → V → Type κ) (k : String) (v : V) (d : Dict V)
      → P k v
      → AllEntries P d
      → AllEntries P (store k v d)
  unfolding store
  AllEntries-store P k v [] p h = (p, tt)
  AllEntries-store P k v ((j, w) ∷ d) p (q, h) = elim (Bool-cases (j == k)) [
    | inl same ↦ rw same (subst (λ i. P i v) (sym ((eq_iff j k).0 same)) p, h)
    | inr other ↦ rw other (q, AllEntries-store P k v d p h)
  ]

  -- What is left after a pop has other keys.
  pub AllEntries-without :
      (P : String → V → Type κ) (k : String) (d : Dict V)
      → AllEntries P d
      → AllEntries (λ j v. ((j == k) ≡ false) × P j v) (without_key k d)
  unfolding without_key
  AllEntries-without P k [] h = tt
  AllEntries-without P k ((j, w) ∷ d) (q, h) = elim (Bool-cases (j == k)) [
    | inl same ↦ rw same (AllEntries-without P k d h)
    | inr other ↦ rw other ((other, q), AllEntries-without P k d h)
  ]

module _ {ℓ κ μ} {V : Type ℓ} where
  pub AllEntries-weaken :
      (P : String → V → Type κ) (Q : String → V → Type μ) (d : Dict V)
      → ((k : String) (v : V) → P k v → Q k v)
      → AllEntries P d
      → AllEntries Q d
  AllEntries-weaken P Q [] f h = tt
  AllEntries-weaken P Q ((k, v) ∷ d) f (p, h) = (f k v p, AllEntries-weaken P Q d f h)
