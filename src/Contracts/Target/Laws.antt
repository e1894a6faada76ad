-- ===== src/Contracts/Target/Laws.antt =====
-- On what `validate_target`, of scripts/pipeline/unified/contracts.py, accepts.
use iac_modules.Common.{
  ℕ, suc, String, ◌≡◌, refl, ◌∙◌, ap, arith, true, false, ◌==◌, eq_iff, ok, >>=-eq-ok, >>-eq-ok,
  sym, Result,
}
use iac_modules.Json.{
  Value, null, bool, int, str, arr, obj, end, get, get_or, is_true, is_false, is_text, truthy,
}
use iac_modules.Identity.{canonical_state_key}
use iac_modules.Identity.Laws.{canonical_state_key_injective}
use iac_modules.Contracts.Checkout.{Checkout}
use iac_modules.Contracts.Target.{check_target, validate_within, validate_target}
use iac_modules.Contracts.Target.Tables.{
  is_among, on_demand_environments, lifecycle_of, namespace_of, stage_of,
}
use iac_modules.Contracts.Target.Identity.{check_identity, check_lifecycle, check_binding}
use iac_modules.Contracts.Target.Stage.{
  check_stage, check_selection, check_terraform, check_state_key,
}
use iac_modules.Contracts.Target.Depth.{follow, Recurs, shallow, follow_agrees}

-- The dev environment is exactly the one whose targets are on demand, and no such target persists.
check_lifecycle-on_demand :
    (t : Value)
    → check_lifecycle t ≡ ok tt
    → (truthy (get "on_demand" (lifecycle_of t))
        ≡ is_among on_demand_environments (get "environment" t))
      × (truthy (get "on_demand" (lifecycle_of t)) ≡ true
          → is_false (get "persistent" (lifecycle_of t)) ≡ true)
unfolding check_lifecycle
check_lifecycle-on_demand t h = (ground arith, ground arith)

check_target-parts :
    (root : Checkout) (t : Value)
    → check_target root t ≡ ok tt
    → (check_identity t ≡ ok tt)
      × (check_lifecycle t ≡ ok tt)
      × (check_binding t ≡ ok tt)
      × (check_stage root t "bootstrap" ≡ ok tt)
      × (check_stage root t "account" ≡ ok tt)
      × (check_stage root t "resources" ≡ ok tt)
unfolding check_target
check_target-parts root t h =
    (ground arith, ground arith, ground arith, ground arith, ground arith, ground arith)

validate_target-checked :
    (root : Checkout) (t t' : Value) → validate_target root t ≡ ok t' → check_target root t ≡ ok tt
unfolding validate_target validate_within
validate_target-checked root t t' h = (>>-eq-ok (check_target root t) _ h).0

check_stage-terraform :
    (root : Checkout) (t : Value) (stage : String)
    → check_stage root t stage ≡ ok tt
    → is_text "terraform" (get "mode" (stage_of stage t)) ≡ true
    → check_terraform root t stage (stage_of stage t) ≡ ok tt
unfolding check_stage
check_stage-terraform root t stage h m = ground arith

check_terraform-parts :
    (root : Checkout) (t : Value) (stage : String) (spec : Value)
    → check_terraform root t stage spec ≡ ok tt
    → (check_selection stage spec ≡ ok tt) × (check_state_key root t stage spec ≡ ok tt)
unfolding check_terraform
check_terraform-parts root t stage spec h = (ground arith, ground arith)

validate_within-follow :
    (n : ℕ) (root : Checkout) (t : Value)
    → validate_within (suc n) root t ≡ follow root (validate_within n root) t
unfolding validate_within
validate_within-follow n root t = refl

validate_target-Recurs : (root : Checkout) → Recurs root (validate_target root)
unfolding validate_target
validate_target-Recurs root t =
    validate_within-follow 1 root t
    ∙ follow_agrees root (validate_within 1 root) (validate_target root) t λ source h.
      validate_within-follow 0 root source
      ∙ shallow root (validate_within 0 root) (validate_within 1 root) source h
      ∙ sym (validate_within-follow 1 root source)

-- One round more, which changes nothing.
pub within_three-Recurs : (root : Checkout) → Recurs root (validate_within 3 root)
unfolding validate_target
within_three-Recurs root t =
    validate_within-follow 2 root t
    ∙ follow_agrees root (validate_target root) (validate_within 3 root) t λ source h.
      validate_target-Recurs root source
      ∙ shallow root (validate_target root) (validate_within 2 root) source h
      ∙ sym (validate_within-follow 2 root source)

-- The mutual recursion of the code has one solution, which two rounds compute: `validate_target`
-- calls itself through `validate_candidate` as the code does, and a validator that does so has the
-- same outcome as it for every target, errors included.
pub validate_target_unique :
    (root : Checkout) (v : Value → Result Value) (t : Value)
    → Recurs root v
    → Recurs root (validate_target root) × (v t ≡ validate_target root t)
validate_target_unique root v t recurs =
    let solved = validate_target-Recurs root in
    (
      solved,
      recurs t
          ∙ follow_agrees root v (validate_target root) t (λ source h.
            recurs source ∙ shallow root v (validate_target root) source h ∙ sym (solved source))
          ∙ sym (solved t),
    )

-- The key of a stage's state.
abbrev pub key_of : String → Value → Value
key_of stage t = get "key" (get_or "state" (obj end) (stage_of stage t))

-- The stage is run by Terraform.
abbrev pub IsManaged : String → Value → Type 0
IsManaged stage t = is_text "terraform" (get "mode" (stage_of stage t)) ≡ true

is_text-eq : (s : String) (v : Value) → is_text s v ≡ true → v ≡ str s
is_text-eq s (str t) h = ap str ((eq_iff t s).0 h)
is_text-eq s null h = cc
is_text-eq s (bool b) h = cc
is_text-eq s (int n) h = cc
is_text-eq s (arr vs) h = cc
is_text-eq s (obj fs) h = cc

check_state_key-canonical :
    (root : Checkout) (t : Value) (stage : String) (spec : Value)
    → check_state_key root t stage spec ≡ ok tt
    → (stage == "bootstrap") ≡ false
    → (key : String) × (get "key" (get_or "state" (obj end) spec) ≡ str key)
      × (canonical_state_key
            (get "environment" t)
            (get "project" t)
            (get "provider" t)
            (get "account" t)
            (namespace_of t)
          ≡ ok key)
unfolding check_state_key
check_state_key-canonical root t stage spec h other =
    let (key, canonical, h1) =
      >>=-eq-ok
        (canonical_state_key (get "environment" t) (get "project" t) (get "provider" t)
          (get "account" t) (namespace_of t))
        _ h in
    (key, ground (arith, is_text-eq key (get "key" (get_or "state" (obj end) spec))), canonical)

accepted-stage :
    (root : Checkout) (t t' : Value)
    → validate_target root t ≡ ok t'
    → (check_stage root t "account" ≡ ok tt) × (check_stage root t "resources" ≡ ok tt)
accepted-stage root t t' h =
    let (_, _, _, _, account, resources) =
      check_target-parts root t (validate_target-checked root t t' h) in
    (account, resources)

-- The resources state of an accepted target has the canonical key of the target's own environment,
-- project, provider, account and namespace.
validate_target-canonical :
    (root : Checkout) (t t' : Value)
    → validate_target root t ≡ ok t'
    → IsManaged "resources" t
    → (key : String) × (key_of "resources" t ≡ str key)
      × (canonical_state_key
            (get "environment" t)
            (get "project" t)
            (get "provider" t)
            (get "account" t)
            (namespace_of t)
          ≡ ok key)
validate_target-canonical root t t' h managed =
    let checked = (accepted-stage root t t' h).1 in
    let terraform = check_stage-terraform root t "resources" checked managed in
    check_state_key-canonical root t "resources" _
      (check_terraform-parts root t "resources" _ terraform).1 refl

-- Two accepted targets whose resources are run by Terraform with the same state key agree on
-- environment, project, provider, account and namespace.
pub validate_target-exclusive :
    (root root' : Checkout) (s s' t t' : Value)
    → validate_target root s ≡ ok s'
    → validate_target root' t ≡ ok t'
    → IsManaged "resources" s
    → IsManaged "resources" t
    → key_of "resources" s ≡ key_of "resources" t
    → (get "environment" s ≡ get "environment" t)
      × (get "project" s ≡ get "project" t)
      × (get "provider" s ≡ get "provider" t)
      × (get "account" s ≡ get "account" t)
      × (namespace_of s ≡ namespace_of t)
validate_target-exclusive root root' s s' t t' hs ht ms mt same =
    let (key, is_key, canonical) = validate_target-canonical root s s' hs ms in
    let (key', is_key', canonical') = validate_target-canonical root' t t' ht mt in
    let e : key' ≡ key = cc in
    canonical_state_key_injective _ _ _ _ _ _ _ _ _ _ key canonical (canonical' ∙ ap ok e)

-- An accepted target is on demand exactly in the dev environment, and then it does not persist.
validate_target-on_demand :
    (root : Checkout) (t t' : Value)
    → validate_target root t ≡ ok t'
    → (truthy (get "on_demand" (lifecycle_of t))
        ≡ is_among on_demand_environments (get "environment" t))
      × (truthy (get "on_demand" (lifecycle_of t)) ≡ true
          → is_false (get "persistent" (lifecycle_of t)) ≡ true)
validate_target-on_demand root t t' h =
    check_lifecycle-on_demand t (check_target-parts root t (validate_target-checked root t t' h)).1

check_selection-existing :
    (stage : String) (spec : Value)
    → check_selection stage spec ≡ ok tt
    → truthy (get "existing_only" spec) ≡ true
    → (stage ≡ "resources")
      × (is_true (get "requires_existing_state" spec) ≡ true)
      × (is_false (get "destroy_allowed" spec) ≡ true)
      × (truthy (get "create_only" spec) ≡ false)
unfolding check_selection
check_selection-existing stage spec h existing =
    (ground (arith, eq_iff stage "resources"), ground arith, ground arith, ground arith)
