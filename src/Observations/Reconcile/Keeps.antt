-- ===== src/Observations/Reconcile/Keeps.antt =====
-- On the runs that `reconcile_observations`, of
-- terraform-hcl-standard/scripts/cmdb_observations_v1.py, does not take for complete.
use iac_modules.Common.{
  ℕ, String, ◌≡◌, refl, sym, subst, true, false, ◌⊎◌, inl, inr, List, [], ◌∷◌, All, member, arith,
  eq_iff, Option-cases, Bool-cases, Dict, lookup, AllEntries, AllEntries-store, AllEntries-weaken,
  ok, ok-injective, >>=-eq-ok, if◌then◌else◌,
}
use iac_modules.Json.{
  Value, Fields, null, bool, int, str, obj, arr, end, get, set, is_mapping, fields,
}
use iac_modules.Cmdb.Endpoint.{Readers}
use iac_modules.Observations.Checks.{timestamp}
use iac_modules.Observations.Envelope.{Envelope}
use iac_modules.Observations.Scope.{matches_run_scope}
use iac_modules.Observations.Reconcile.{
  names_in, assign, was_there, observed_record, observed_writes, unreached_writes, is_stale,
  is_newer, apply_observation, apply_observations, sweep_entry, sweep, apply_run, apply_runs,
}
use iac_modules.Observations.Reconcile.Records.{
  is_deleted, is_complete, unreached-is_deleted, observed-is_deleted,
}

-- The names of the resources that are deleted.
abbrev pub deleted_names : Dict Value → List String
deleted_names [] = []
deleted_names ((key, v) ∷ d) =
    let rest = deleted_names d in if is_deleted v then key ∷ rest else rest

-- Nothing is deleted but what was deleted.
abbrev pub DeletesNothing : Dict Value → Dict Value → Type 0
DeletesNothing before after =
    AllEntries (λ key v. (is_deleted v ≡ false) ⊎ (member key (deleted_names before) ≡ true)) after

-- The resources of a state: mappings.
abbrev pub AreMappings : Dict Value → Type 0
AreMappings = AllEntries (λ _ v. is_mapping v ≡ true)

pub assign-is_mapping :
    (writes : List (String × Value)) (fs : Fields) → is_mapping (assign writes (obj fs)) ≡ true
assign-is_mapping [] fs = refl
assign-is_mapping ((k, v) ∷ rest) fs = assign-is_mapping rest (set k v fs)

-- What a state with mappings may be, under one condition on what is deleted.
abbrev pub IsKept : (String → Type 0) → String → Value → Type 0
IsKept Was key v = (is_mapping v ≡ true) × ((is_deleted v ≡ false) ⊎ Was key)

abbrev pub Keeps : (String → Type 0) → Dict Value → Type 0
Keeps Was = AllEntries (IsKept Was)

module _ (r : Readers) (Was : String → Type 0) where
  module _ (run : Value) where
    apply_observation-Keeps :
        (key : String) (observation : Value) (state : Dict Value) {after : Dict Value}
        → apply_observation r run key observation state ≡ ok after
        → Keeps Was state
        → Keeps Was after
    unfolding apply_observation observed_record
    apply_observation-Keeps key observation state h keeps =
        let (seen, _, h1) = >>=-eq-ok (timestamp r (get "last_observed_at" observation)) _ h in
        elim (Option-cases (lookup key state)) [
          | inl new ↦ subst (Keeps Was) (ok-injective (rw new at h1)) (
              AllEntries-store (IsKept Was) key (observed_record run observation end) state
                (
                  assign-is_mapping (observed_writes run) _,
                  inl (observed-is_deleted run observation end),
                )
                keeps)
          | inr (existing, found) ↦
              let (stale, _, h2) =
                >>=-eq-ok (is_stale r observation seen existing) _ (rw found at h1) in
              elim (Bool-cases stale) [
                | inl older ↦ subst (Keeps Was) (ok-injective (rw older at h2)) keeps
                | inr newest ↦ subst (Keeps Was) (ok-injective (rw newest at h2)) (
                    AllEntries-store (IsKept Was) key
                      (observed_record run observation (fields existing)) state
                      (
                        assign-is_mapping (observed_writes run) _,
                        inl (observed-is_deleted run observation (fields existing)),
                      )
                      keeps)
              ]
        ]

    pub apply_observations-Keeps :
        (observations state : Dict Value) {after : Dict Value}
        → apply_observations r run observations state ≡ ok after
        → Keeps Was state
        → Keeps Was after
    unfolding apply_observations
    apply_observations-Keeps [] state h keeps = subst (Keeps Was) (ok-injective h) keeps
    apply_observations-Keeps ((key, observation) ∷ rest) state h keeps =
        let (next, first, h1) = >>=-eq-ok (apply_observation r run key observation state) _ h in
        apply_observations-Keeps rest next h1
          (apply_observation-Keeps key observation state first keeps)

    sweep_entry-IsKept :
        (completed : ℕ) (key : String) (current : Value) {next : Value}
        → is_complete run ≡ false
        → sweep_entry r run completed current ≡ ok next
        → IsKept Was key current
        → IsKept Was key next
    unfolding sweep_entry
    sweep_entry-IsKept completed key current partial h kept =
        let (covered, _, h1) = >>=-eq-ok (matches_run_scope r current run) _ h in
        let (newer, _, h2) =
          >>=-eq-ok (if covered then is_newer r current completed else ok true) _ h1 in
        elim (Bool-cases newer) [
          | inl left ↦ subst (IsKept Was key) (ok-injective (rw left at h2)) kept
          | inr reached ↦
              subst (IsKept Was key) (ok-injective (rw partial at (rw reached at h2)))
                (unreached current kept)
        ]
      where
        unreached :
            (v : Value)
            → IsKept Was key v
            → IsKept Was key (assign (unreached_writes run (was_there v)) v)
        unreached (obj fs) (_, inl alive) = (
          assign-is_mapping (unreached_writes run (was_there (obj fs))) fs,
          elim (unreached-is_deleted run fs (was_there (obj fs))) [
            | inl alive' ↦ inl alive'
            | inr was ↦ absurd (cc)
          ],
        )
        unreached (obj fs) (_, inr was) =
            (assign-is_mapping (unreached_writes run (was_there (obj fs))) fs, inr was)
        unreached null (m, _) = absurd (cc)
        unreached (bool b) (m, _) = absurd (cc)
        unreached (int n) (m, _) = absurd (cc)
        unreached (str s) (m, _) = absurd (cc)
        unreached (arr vs) (m, _) = absurd (cc)

    sweep-Keeps :
        (completed : ℕ) (seen : List String) (state : Dict Value) {after : Dict Value}
        → is_complete run ≡ false
        → sweep r run completed seen state ≡ ok after
        → Keeps Was state
        → Keeps Was after
    unfolding sweep
    sweep-Keeps completed seen [] partial h keeps = subst (Keeps Was) (ok-injective h) tt
    sweep-Keeps completed seen ((key, current) ∷ rest) partial h (kept, keeps) =
        let (next, here, h1) =
          >>=-eq-ok (if member key seen then ok current else sweep_entry r run completed current) _
            h in
        let (others, there, h2) = >>=-eq-ok (sweep r run completed seen rest) _ h1 in
        let rest_kept = sweep-Keeps completed seen rest partial there keeps in
        subst (Keeps Was) (ok-injective h2) (elim (Bool-cases (member key seen)) [
          | inl was_seen ↦
              (subst (IsKept Was key) (ok-injective (rw was_seen at here)) kept, rest_kept)
          | inr missed ↦
              (sweep_entry-IsKept completed key current partial (rw missed at here) kept, rest_kept)
        ])

  apply_runs-Keeps :
      (envelopes : List Envelope) (state : Dict Value) {after : Dict Value}
      → All (λ (e : Envelope). is_complete e.run ≡ false) envelopes
      → apply_runs r envelopes state ≡ ok after
      → Keeps Was state
      → Keeps Was after
  unfolding apply_runs apply_run
  apply_runs-Keeps [] state partial h keeps = subst (Keeps Was) (ok-injective h) keeps
  apply_runs-Keeps (envelope ∷ rest) state (partial, partials) h keeps =
      let (next, first, h1) = >>=-eq-ok (apply_run r envelope state) _ h in
      let (completed, _, h2) = >>=-eq-ok (timestamp r (get "completed_at" envelope.run)) _ first in
      let (observed, h3, h4) =
        >>=-eq-ok (apply_observations r envelope.run envelope.observations state) _ h2 in
      apply_runs-Keeps rest next partials h1 (
        sweep-Keeps envelope.run completed (names_in envelope.observations) observed partial h4
          (apply_observations-Keeps envelope.run envelope.observations state h3 keeps))

deleted_names-Keeps :
    (before state : Dict Value)
    → AllEntries
        (λ key v. (is_deleted v ≡ false) ⊎ (member key (deleted_names before) ≡ true))
        state
    → AreMappings state
    → Keeps (λ key. member key (deleted_names before) ≡ true) state
deleted_names-Keeps before [] h m = tt
deleted_names-Keeps before ((key, v) ∷ rest) (k, h) (m, ms) =
    ((m, k), deleted_names-Keeps before rest h ms)

widen :
    (key : String) (names : List String) (d : Dict Value)
    → AllEntries (λ k v. (is_deleted v ≡ false) ⊎ (member k names ≡ true)) d
    → AllEntries (λ k v. (is_deleted v ≡ false) ⊎ (member k (key ∷ names) ≡ true)) d
widen key names d h =
    AllEntries-weaken (λ k v. (is_deleted v ≡ false) ⊎ (member k names ≡ true))
      (λ k v. (is_deleted v ≡ false) ⊎ (member k (key ∷ names) ≡ true)) d
      (λ k v (one : (is_deleted v ≡ false) ⊎ (member k names ≡ true)). elim one [
        | inl alive ↦ inl alive
        | inr was ↦ inr (ground arith)
      ])
      h

DeletesNothing-self : (state : Dict Value) → DeletesNothing state state
DeletesNothing-self [] = tt
DeletesNothing-self ((key, v) ∷ rest) = elim (Bool-cases (is_deleted v)) [
  | inl deleted ↦
      let names : deleted_names ((key, v) ∷ rest) ≡ key ∷ deleted_names rest = rw deleted refl in
      subst
        (λ names.
          ((is_deleted v ≡ false) ⊎ (member key names ≡ true))
          × AllEntries (λ k w. (is_deleted w ≡ false) ⊎ (member k names ≡ true)) rest)
        (sym names)
        (
          inr (ground (arith, eq_iff key key)),
          widen key (deleted_names rest) rest (DeletesNothing-self rest),
        )
  | inr alive ↦
      let names : deleted_names ((key, v) ∷ rest) ≡ deleted_names rest = rw alive refl in
      subst
        (λ names.
          ((is_deleted v ≡ false) ⊎ (member key names ≡ true))
          × AllEntries (λ k w. (is_deleted w ≡ false) ⊎ (member k names ≡ true)) rest)
        (sym names) (inl alive, DeletesNothing-self rest)
]

-- However many runs follow one another, if none of them is a complete success, no resource is
-- deleted that was not deleted before.
pub apply_runs-DeletesNothing :
    (r : Readers) (envelopes : List Envelope) (state : Dict Value) {after : Dict Value}
    → All (λ (e : Envelope). is_complete e.run ≡ false) envelopes
    → AreMappings state
    → apply_runs r envelopes state ≡ ok after
    → DeletesNothing state after
apply_runs-DeletesNothing r envelopes state {after} partial mappings h =
    let Was : String → Type 0 = λ key. member key (deleted_names state) ≡ true in
    AllEntries-weaken (IsKept Was)
      (λ key v. (is_deleted v ≡ false) ⊎ (member key (deleted_names state) ≡ true)) after
      (λ key v kept. kept.1)
      (apply_runs-Keeps r Was envelopes state partial h
        (deleted_names-Keeps state state (DeletesNothing-self state) mappings))
