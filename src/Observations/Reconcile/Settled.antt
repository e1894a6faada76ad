-- ===== src/Observations/Reconcile/Settled.antt =====
-- On the runs that `reconcile_observations`, of
-- terraform-hcl-standard/scripts/cmdb_observations_v1.py, takes for complete.
use iac_modules.Common.{
  ℕ, String, ◌≡◌, refl, sym, subst, ◌∙◌, ap, true, false, inl, inr, List, [], ◌∷◌, member,
  Bool-cases, Dict, AllEntries-weaken, ok, ok-injective, >>=-eq-ok, if◌then◌else◌,
}
use iac_modules.Json.{Value, null, bool, int, str, obj, arr, get, is_text, is_mapping}
use iac_modules.Cmdb.Endpoint.{Readers}
use iac_modules.Observations.Checks.{timestamp}
use iac_modules.Observations.Envelope.{Envelope}
use iac_modules.Observations.Scope.{matches_run_scope}
use iac_modules.Observations.Reconcile.{
  names_in, assign, was_there, missing_writes, is_newer, apply_observations, sweep_entry, sweep,
  apply_run,
}
use iac_modules.Observations.Reconcile.Records.{is_deleted, is_complete, missing-is_deleted}
use iac_modules.Observations.Reconcile.Keeps.{AreMappings, IsKept, Keeps, apply_observations-Keeps}

-- What a complete run makes of a resource.
pub data IsSettled (r : Readers) (run : Value) (completed : ℕ) (seen : List String) (key : String)
    (before after : Value) : Type 0 where
  observed :
      member key seen ≡ true → after ≡ before → IsSettled r run completed seen key before after
  uncovered :
      matches_run_scope r before run ≡ ok false
      → after ≡ before
      → IsSettled r run completed seen key before after
  seen_since :
      is_newer r before completed ≡ ok true
      → after ≡ before
      → IsSettled r run completed seen key before after
  deleted : is_deleted after ≡ true → IsSettled r run completed seen key before after
  unobserved :
      is_text "never_observed" (get "lifecycle" after) ≡ true
      → IsSettled r run completed seen key before after

abbrev pub AreSettled : Readers → Value → ℕ → List String → Dict Value → Dict Value → Type 0
AreSettled r run completed seen [] [] = Unit
AreSettled r run completed seen [] (entry ∷ after) = ⊥
AreSettled r run completed seen (entry ∷ before) [] = ⊥
AreSettled r run completed seen ((key, v) ∷ before) ((key', w) ∷ after) =
    (key ≡ key')
    × IsSettled r run completed seen key v w
    × AreSettled r run completed seen before after

module _ (r : Readers) (run : Value) (completed : ℕ) (seen : List String) where
  missed-IsSettled :
      (key : String) (current : Value) {next : Value}
      → is_complete run ≡ true
      → is_mapping current ≡ true
      → sweep_entry r run completed current ≡ ok next
      → IsSettled r run completed seen key current next
  unfolding sweep_entry
  missed-IsSettled key current complete mapped h =
      let (covered, matches, h1) = >>=-eq-ok (matches_run_scope r current run) _ h in
      let (newer, since, h2) =
        >>=-eq-ok (if covered then is_newer r current completed else ok true) _ h1 in
      elim (Bool-cases covered) [
        | inr outside ↦
            let left : newer ≡ true = sym (ok-injective (rw outside at since)) in
            uncovered (matches ∙ ap ok outside) (sym (ok-injective (rw left at h2)))
        | inl inside ↦ elim (Bool-cases newer) [
          | inl left ↦
              seen_since (rw inside at since ∙ ap ok left) (sym (ok-injective (rw left at h2)))
          | inr reached ↦
              subst (IsSettled r run completed seen key current)
                (ok-injective (rw complete at (rw reached at h2))) (missing current mapped)
        ]
      ]
    where
      missing :
          (v : Value)
          → is_mapping v ≡ true
          → IsSettled r run completed seen key v (assign (missing_writes run (was_there v)) v)
      missing (obj fs) m = elim (missing-is_deleted run fs (was_there (obj fs))) [
        | inl gone ↦ deleted gone
        | inr never ↦ unobserved never
      ]
      missing null m = absurd (cc)
      missing (bool b) m = absurd (cc)
      missing (int n) m = absurd (cc)
      missing (str s) m = absurd (cc)
      missing (arr vs) m = absurd (cc)

  sweep-AreSettled :
      (state : Dict Value) {after : Dict Value}
      → is_complete run ≡ true
      → AreMappings state
      → sweep r run completed seen state ≡ ok after
      → AreSettled r run completed seen state after
  unfolding sweep
  sweep-AreSettled [] complete m h = subst (AreSettled r run completed seen []) (ok-injective h) tt
  sweep-AreSettled ((key, current) ∷ rest) complete (mapped, m) h =
      let (next, here, h1) =
        >>=-eq-ok (if member key seen then ok current else sweep_entry r run completed current) _
          h in
      let (others, there, h2) = >>=-eq-ok (sweep r run completed seen rest) _ h1 in
      let later = sweep-AreSettled rest complete m there in
      subst (AreSettled r run completed seen ((key, current) ∷ rest)) (ok-injective h2)
        (elim (Bool-cases (member key seen)) [
          | inl was_seen ↦
              (refl, observed was_seen (sym (ok-injective (rw was_seen at here))), later)
          | inr missed ↦
              (refl, missed-IsSettled key current complete mapped (rw missed at here), later)
        ])

-- A run that settles a state, by way of the state that has its observations.
pub record Settles (r : Readers) (envelope : Envelope) (state after : Dict Value) : Type 0 where
  pub completed : ℕ
  pub between : Dict Value
  pub is_completed : timestamp r (get "completed_at" envelope.run) ≡ ok completed
  pub is_observed : apply_observations r envelope.run envelope.observations state ≡ ok between
  pub settled : AreSettled r envelope.run completed (names_in envelope.observations) between after

-- After a complete successful run every resource is settled: the run observed it, does not cover
-- it or was completed before it was last seen, and leaves it as it is; or else it is deleted, or
-- recorded as never observed.
pub apply_run-AreSettled :
    (r : Readers) (envelope : Envelope) (state : Dict Value) {after : Dict Value}
    → is_complete envelope.run ≡ true
    → AreMappings state
    → apply_run r envelope state ≡ ok after
    → Settles r envelope state after
unfolding apply_run
apply_run-AreSettled r envelope state complete m h =
    let Was : String → Type 0 = λ key. Unit {0} in
    let (completed, is_completed, h1) =
      >>=-eq-ok (timestamp r (get "completed_at" envelope.run)) _ h in
    let (between, is_observed, h2) =
      >>=-eq-ok (apply_observations r envelope.run envelope.observations state) _ h1 in
    let keeps : Keeps Was between =
      apply_observations-Keeps r Was envelope.run envelope.observations state is_observed (
        AllEntries-weaken (λ _ v. is_mapping v ≡ true) (IsKept Was) state
          (λ key v mapped. (mapped, inr tt)) m) in
    let mapped : AreMappings between =
      AllEntries-weaken (IsKept Was) (λ _ v. is_mapping v ≡ true) between (λ key v kept. kept.0)
        keeps in
    record {
      completed = completed;
      between = between;
      is_completed = is_completed;
      is_observed = is_observed;
      settled =
          sweep-AreSettled r envelope.run completed (names_in envelope.observations) between
            complete mapped h2;
    }
