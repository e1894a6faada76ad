-- ===== src/Observations/Reconcile/Records.antt =====
-- On the records that `reconcile_observations`, of
-- terraform-hcl-standard/scripts/cmdb_observations_v1.py, writes.
use iac_modules.Common.{
  String, Bool, ◌≡◌, refl, subst, ◌∙◌, ap, true, false, ◌&&◌, ◌||◌, ◌⊎◌, inl, inr, List, [], ◌∷◌,
  ◌==◌, arith, eq_iff, Bool-cases, if◌then◌else◌,
}
use iac_modules.Json.{Value, Fields, null, str, obj, get, put, set, is_true, is_text}
use iac_modules.Json.Laws.{get_or-put, get_or-put-other}
use iac_modules.Observations.Reconcile.{
  succeeded, assign, observed_record, observed_writes, missing_writes, unreached_writes,
}

-- A resource whose deletion is recorded.
abbrev pub is_deleted : Value → Bool
is_deleted v =
    is_text "deleted" (get "status" v) || is_text "deletion_confirmed" (get "lifecycle" v)

-- A run that proves that its scope was searched whole.
abbrev pub is_complete : Value → Bool
is_complete run = succeeded run && is_true (get "scope_complete" run)

-- What a key has after assignments: the last one, or what it had.
abbrev last_in : String → List (String × Value) → Value → Value
last_in key [] old = old
last_in key ((k, value) ∷ rest) old = last_in key rest (if k == key then value else old)

get-put :
    (key k : String) (value : Value) (fs : Fields)
    → get key (put k value (obj fs)) ≡ (if k == key then value else get key (obj fs))
get-put key k value fs = elim (Bool-cases (k == key)) [
  | inl same ↦ rw same (
      subst (λ j. get j (put k value (obj fs)) ≡ value) ((eq_iff k key).0 same)
        (get_or-put k null value fs))
  | inr other ↦ rw other (get_or-put-other key k null value (obj fs) other)
]

get-assign :
    (key : String) (writes : List (String × Value)) (fs : Fields)
    → get key (assign writes (obj fs)) ≡ last_in key writes (get key (obj fs))
get-assign key [] fs = refl
get-assign key ((k, value) ∷ rest) fs =
    get-assign key rest (set k value fs) ∙ ap (last_in key rest) (get-put key k value fs)

module _ (run : Value) where
  unreached-last :
      (there : Bool) (status lifecycle : Value)
      → (last_in "status" (unreached_writes run there) status ≡ str "collection_failed")
        × ((last_in "lifecycle" (unreached_writes run there) lifecycle ≡ str "present")
            ⊎ (last_in "lifecycle" (unreached_writes run there) lifecycle ≡ lifecycle))
  unreached-last true status lifecycle = (refl, inl refl)
  unreached-last false status lifecycle = (refl, inr refl)

  -- What a run did not reach is not deleted, unless it was.
  pub unreached-is_deleted :
      (fs : Fields) (there : Bool)
      → (is_deleted (assign (unreached_writes run there) (obj fs)) ≡ false)
        ⊎ (is_deleted (obj fs) ≡ true)
  unreached-is_deleted fs there =
      let (status, lifecycle) =
        unreached-last there (get "status" (obj fs)) (get "lifecycle" (obj fs)) in
      let status' = get-assign "status" (unreached_writes run there) fs ∙ status in
      let last = get-assign "lifecycle" (unreached_writes run there) fs in
      elim lifecycle [
        | inl present ↦ inl (rw status' (rw (last ∙ present) refl))
        | inr same ↦ elim (Bool-cases (is_text "deletion_confirmed" (get "lifecycle" (obj fs)))) [
          | inl was ↦ inr (ground arith)
          | inr was_not ↦ inl (rw status' (rw (last ∙ same) was_not))
        ]
      ]

  missing-last :
      (there : Bool) (status lifecycle : Value)
      → (last_in "status" (missing_writes run there) status ≡ str "deleted")
        ⊎ (last_in "lifecycle" (missing_writes run there) lifecycle ≡ str "never_observed")
  missing-last true status lifecycle = inl refl
  missing-last false status lifecycle = inr refl

  -- A complete run deletes what it misses, or notes that it was never seen.
  pub missing-is_deleted :
      (fs : Fields) (there : Bool)
      → (is_deleted (assign (missing_writes run there) (obj fs)) ≡ true)
        ⊎ (is_text "never_observed" (get "lifecycle" (assign (missing_writes run there) (obj fs)))
            ≡ true)
  missing-is_deleted fs there =
      elim (missing-last there (get "status" (obj fs)) (get "lifecycle" (obj fs))) [
        | inl status ↦ inl (rw (get-assign "status" (missing_writes run there) fs ∙ status) refl)
        | inr lifecycle ↦
            inr (rw (get-assign "lifecycle" (missing_writes run there) fs ∙ lifecycle) refl)
      ]

  observed-last :
      (status lifecycle : Value)
      → (is_text "deleted" (last_in "status" (observed_writes run) status) ≡ false)
        × (last_in "lifecycle" (observed_writes run) lifecycle ≡ str "present")
  observed-last status lifecycle = elim (Bool-cases (succeeded run)) [
    | inl good ↦ rw good (refl, refl)
    | inr bad ↦ rw bad (refl, refl)
  ]

  assign-observed : (fs : Fields) → is_deleted (assign (observed_writes run) (obj fs)) ≡ false
  assign-observed fs =
      let (status, lifecycle) = observed-last (get "status" (obj fs)) (get "lifecycle" (obj fs)) in
      rw (get-assign "status" (observed_writes run) fs)
        (rw status (rw (get-assign "lifecycle" (observed_writes run) fs ∙ lifecycle) refl))

  pub observed-is_deleted :
      (observation : Value) (known : Fields)
      → is_deleted (observed_record run observation known) ≡ false
  unfolding observed_record
  observed-is_deleted observation known = assign-observed _
