-- ===== src/Runtime/Laws.antt =====
-- On `execute` of scripts/pipeline/unified/runtime.py.
use iac_modules.Common.{
  String, ◌≡◌, refl, ap, subst, ◌∙◌, ◌⊎◌, inl, inr, Bool, true, not, eqb, ◌&&◌, ◌||◌, ◌==◌, eq_iff,
  Option, List, Error, Result, ok, err,
}
use iac_modules.Evidence.Guard.Changes.{Tally}
use iac_modules.Evidence.Guard.{guard_plan}
use iac_modules.Common.Steps.{Step, ◌>>◌, lift, return, >>=-Went, check-passed, lift-passed}
use iac_modules.Json.{Value, str, put, get, at, is_text, truthy}
use iac_modules.States.{Resources}
use iac_modules.Runtime.{
  Machine, main, initialize, save_plan, show_plan, apply_plan, check_plan, when_step,
}
use iac_modules.Runtime.Execute.{
  Stage, inner, close, perform, run_stage, converge, same_source, cleans, destroys, check_left,
  targets_of, publish_hosts, plan_stage, check_existing, check_destroyed, bootstrap_repository,
  isolate_if, run_terraform,
}

-- The exception of a step, without what it would have returned.
abbrev void : Result Value → Result (Unit {0})
void (ok v) = ok tt
void (err e) = err e

-- A step under a condition that holds.
when_step-runs :
    {V : Type 0} (c : Bool) (step : Step V (Unit {0})) (v : V) {r : Result (Unit {0}) × V}
    → c ≡ true
    → when_step c step v ≡ r
    → step v ≡ r
when_step-runs c step v {r} e h = subst (λ b. when_step b step v ≡ r) e h

module _ {W : Type 0} (m : Machine W) where
  -- How a stage that raised an exception ended: the failure was written, or writing failed.
  abbrev pub FailsClosed : Error → W → Type 0
  FailsClosed e end =
      ((r : Value) × (mid : W) × (m.write (put "result" (str "failed") r) mid ≡ (ok tt, end)))
      ⊎ ((r : Value) × (mid : W) × (m.write r mid ≡ (err e, end)))

  raised_same :
      {a b : Error} {v w : W}
      → ◌≡◌ {A = Result Value × W} (err a, v) (err b, w)
      → ◌≡◌ {A = Result (Unit {0}) × W} (err a, v) (err b, w)
  raised_same h = ap (λ (p : Result Value × W). (void p.0, p.1)) h

  returned-FailsClosed :
      (r : Value) (w : W) (written : Result (Unit {0}) × W) {e : Error} {end : W}
      → m.write r w ≡ written
      → (m.write r >> return r) w ≡ (err e, end)
      → FailsClosed e end
  returned-FailsClosed r w (ok done, mid) same h = absurd (let returned = rw same at h in cc)
  returned-FailsClosed r w (err e, mid) same h = inr (r, w, same ∙ raised_same (rw same at h))

  raised-FailsClosed :
      (r : Value) (raised : Error) (w : W) (written : Result (Unit {0}) × W) {e : Error} {end : W}
      → m.write (put "result" (str "failed") r) w ≡ written
      → (m.write (put "result" (str "failed") r) >> lift {A = Value} (err raised)) w ≡ (err e, end)
      → FailsClosed e end
  raised-FailsClosed r raised w (ok done, mid) same h =
      let ended : mid ≡ _ = ap (λ (p : Result Value × W). p.1) (rw same at h) in
      inl (r, w, subst (λ x. m.write (put "result" (str "failed") r) w ≡ (ok tt, x)) ended same)
  raised-FailsClosed r raised w (err e, mid) same h =
      inr (put "result" (str "failed") r, w, same ∙ raised_same (rw same at h))

  closed-FailsClosed :
      (p : Result (Unit {0}) × (Value × W)) {e : Error} {end : W}
      → close m p ≡ (err e, end)
      → FailsClosed e end
  closed-FailsClosed (ok done, (r, w)) h = returned-FailsClosed r w (m.write r w) refl h
  closed-FailsClosed (err raised, (r, w)) h = raised-FailsClosed r raised w _ refl h

  started-FailsClosed :
      (s : Stage) (started : Value) (w : W) (written : Result (Unit {0}) × W) {e : Error} {end : W}
      → m.write started w ≡ written
      → run_stage m s started w ≡ (err e, end)
      → FailsClosed e end
  unfolding run_stage
  started-FailsClosed s started w (ok done, mid) same h =
      closed-FailsClosed (perform m s (started, mid)) (rw same at h)
  started-FailsClosed s started w (err raised, mid) same h =
      inr (started, w, same ∙ raised_same (rw same at h))

  -- A stage that ends with an exception, at whatever point, has written its receipt with the result
  -- `failed` as its last act, unless writing the receipt is what raised it.
  pub run_stage-FailsClosed :
      (s : Stage) (started : Value) (w end : W) (e : Error)
      → run_stage m s started w ≡ (err e, end)
      → FailsClosed e end
  run_stage-FailsClosed s started w end e h =
      started-FailsClosed s started w (m.write started w) refl h

  -- What stands between a saved plan and the success of an apply or a destroy: the worlds follow one
  -- another, from the digest that is read again to the end.
  pub record IsConverged (s : Stage) (digest : String) (kept : Resources × Value) (j k : Value × W)
      : Type 0 where
    pub ready : Value × W
    pub unchanged :
        when_step (cleans s) (same_source m kept.1 "serving source state changed before cleanup") j
        ≡ (ok tt, ready)
    pub mid : W
    pub same_plan : m.plan_digest ready.1 ≡ (ok digest, mid)
    pub after : Value × W
    pub output : Value
    pub applied : m.command apply_plan mid ≡ (ok output, after.1)
    pub late : Value × W
    pub left : when_step (destroys s) (check_left m s kept) after ≡ (ok tt, late)
    pub targets : List String
    pub named : targets_of s ≡ ok targets
    pub last : Value × W
    pub nothing : Value
    pub checked : m.command (check_plan (destroys s) targets) late.1 ≡ (ok nothing, last.1)
    pub receipt : Value
    pub published :
        when_step
          (s.action == "apply" && s.name == "resources")
          (publish_hosts m s)
          (receipt, last.1)
        ≡ (ok tt, k)

  inner_first :
      {A : Type 0}
      → (step : Step W A) (j : Value × W) {a : A} {k : Value × W} → inner step j ≡ (ok a, k)
      → step (j.1) ≡ (ok a, k.1)
  inner_first step (r, w) h = ap (λ p. (p.0, p.1.1)) h

  converge-IsConverged :
      (s : Stage) (digest : String) (kept : Resources × Value) (j k : Value × W)
      → converge m s digest kept j ≡ (ok tt, k)
      → IsConverged s digest kept j k
  unfolding converge
  converge-IsConverged s digest kept j k h =
      let unchanged =
        >>=-Went
          (when_step (cleans s)
            (same_source m kept.1 "serving source state changed before cleanup"))
          _ j h in
      let again = >>=-Went (inner m.plan_digest) _ unchanged.mid unchanged.rest in
      let (same, h1) = check-passed (again.value == digest) _ _ again.mid again.rest in
      let applied = >>=-Went (inner (m.command apply_plan)) _ again.mid h1 in
      let left =
        >>=-Went (when_step (destroys s) (check_left m s kept)) _ applied.mid applied.rest in
      let (targets, named, h2) = lift-passed (targets_of s) _ left.mid left.rest in
      let checked = >>=-Went (inner (m.command (check_plan (destroys s) targets))) _ left.mid h2 in
      let equal = (eq_iff again.value digest).0 same in
      record {
        ready = unchanged.mid;
        unchanged = unchanged.first;
        mid = again.mid.1;
        same_plan =
            subst (λ d. m.plan_digest unchanged.mid.1 ≡ (ok d, again.mid.1)) equal
              (inner_first m.plan_digest unchanged.mid again.first);
        after = applied.mid;
        output = applied.value;
        applied = inner_first (m.command apply_plan) again.mid applied.first;
        late = left.mid;
        left = left.first;
        targets = targets;
        named = named;
        last = checked.mid;
        nothing = checked.value;
        checked = inner_first (m.command (check_plan (destroys s) targets)) left.mid checked.first;
        receipt = _;
        published = checked.rest;
      }

  -- What `terraform show` gave of the saved plan, what the guard said of it, and the digest that was
  -- taken of it.
  pub record IsGuarded (s : Stage) (digest : String) (end : Value × W) : Type 0 where
    pub targets : List String
    pub named : targets_of s ≡ ok targets
    pub before : W
    pub output : Value
    pub here : W
    pub saved : m.command (save_plan (destroys s) targets) before ≡ (ok output, here)
    pub plan : Value
    pub there : W
    pub shown : m.command show_plan here ≡ (ok plan, there)
    pub repository : Option String
    pub changes : Tally
    pub guarded :
        guard_plan
          (record { target = s.target; stage = s.name; action = s.action; repository = repository })
          plan
        ≡ ok changes
    pub later : W
    pub taken : m.plan_digest later ≡ (ok digest, end.1)

  plan_stage-IsGuarded :
      (s : Stage) (j : Value × W) {digest : String} {k : Value × W}
      → plan_stage m s j ≡ (ok digest, k)
      → IsGuarded s digest k
  unfolding plan_stage
  plan_stage-IsGuarded s j {digest} {k} h =
      let existing =
        >>=-Went (when_step (truthy (get "requires_existing_state" s.spec)) (check_existing m s)) _
          j h in
      let destroyed =
        >>=-Went (when_step (destroys s) (check_destroyed m s)) _ existing.mid existing.rest in
      let (targets, named, h1) = lift-passed (targets_of s) _ destroyed.mid destroyed.rest in
      let saved =
        >>=-Went (inner (m.command (save_plan (destroys s) targets))) _ destroyed.mid h1 in
      let shown = >>=-Went (inner (m.command show_plan)) _ saved.mid saved.rest in
      let owner = >>=-Went (bootstrap_repository m s) _ shown.mid shown.rest in
      let (changes, guarded, h2) =
        lift-passed
          (guard_plan
            (record {
              target = s.target;
              stage = s.name;
              action = s.action;
              repository = owner.value;
            })
            shown.value)
          _ owner.mid owner.rest in
      let (_, h3) = check-passed (not (cleans s) || eqb changes.delete 1) _ _ _ h2 in
      let digested = >>=-Went (inner m.plan_digest) _ _ h3 in
      record {
        targets = targets;
        named = named;
        before = destroyed.mid.1;
        output = saved.value;
        here = saved.mid.1;
        saved = inner_first (m.command (save_plan (destroys s) targets)) destroyed.mid saved.first;
        plan = shown.value;
        there = shown.mid.1;
        shown = inner_first (m.command show_plan) saved.mid shown.first;
        repository = owner.value;
        changes = changes;
        guarded = guarded;
        later = owner.mid.1;
        taken =
            ap (λ (p : Result String × (Value × W)). (p.0, p.1.1)) digested.first
            ∙ ap (λ (p : Result String × (Value × W)). (p.0, p.1.1)) digested.rest;
      }

  -- An apply or a destroy that the body of a stage ends well has saved a plan and shown it, the guard
  -- has passed that plan, and a digest was taken. From there on, each world following the other: the
  -- plan has that digest again, it is applied, after a destroy the state is checked, a new plan of the
  -- same kind finds nothing to do, and an apply of the resources publishes its hosts.
  pub run_terraform-IsConverged :
      (s : Stage) (j k : Value × W)
      → (s.action == "apply" || s.action == "destroy") ≡ true
      → run_terraform m s j ≡ (ok tt, k)
      → (digest : String) × (kept : Resources × Value) × (planned : Value × W) × IsGuarded s digest
          planned
        × IsConverged s digest kept planned k
  unfolding run_terraform
  run_terraform-IsConverged s j k changes h =
      let (_, h1) = check-passed (is_text "terraform" (get "mode" s.spec)) _ _ j h in
      let rendered = >>=-Went (inner m.render) _ j h1 in
      let (state, _, h2) = lift-passed (at "state" s.spec) _ rendered.mid rendered.rest in
      let ready = >>=-Went (inner (initialize m main state)) _ rendered.mid h2 in
      let kept = >>=-Went (isolate_if m s) _ ready.mid ready.rest in
      let planned = >>=-Went (plan_stage m s) _ kept.mid kept.rest in
      (
        planned.value,
        kept.value,
        planned.mid,
        plan_stage-IsGuarded s kept.mid planned.first,
        converge-IsConverged s planned.value kept.value planned.mid k (
            when_step-runs _ (converge m s planned.value kept.value) planned.mid changes
              planned.rest),
      )
