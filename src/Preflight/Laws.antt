-- ===== src/Preflight/Laws.antt =====
-- On `_classify_namespace` of scripts/akamai_state_preflight.py.
use iac_modules.Common.{
  String, ◌≡◌, refl, ◌∙◌, Bool, true, false, ◌&&◌, not, Bool-cases, inl, inr, All, any, List, [],
  ◌∷◌, ◌++◌, ◌==◌, ◌||◌, arith,
}
use iac_modules.Json.{Value, eq, texts, get, find, is_text, truthy, members, text_value}
use iac_modules.Contracts.Ownership.{owner_match}
use iac_modules.Preflight.{verdict, clean_verdict, partial, judge, classify_namespace}
use iac_modules.Preflight.Findings.{
  Facts, Listed, facts_of, failures_of, is_nonempty, when_found, one_by_label, of_kind, strings,
  label_failures, match_failures,
}

abbrev has_findings : List String → Bool
has_findings [] = false
has_findings (s ∷ ss) = true

clean_ambiguous :
    (expected : Value) (f : Facts)
    → ((clean_verdict expected f).status == "ambiguous")
      ≡ has_findings (clean_verdict expected f).findings
unfolding clean_verdict
clean_ambiguous expected f =
    elim (Bool-cases (is_nonempty f.live_instance && is_nonempty f.state_instances)) [
      | inl legacy ↦ rw legacy refl
      | inr e1 ↦
          rw e1 (elim (Bool-cases (is_nonempty f.live_instance && is_nonempty f.target_instances)) [
            | inl target ↦ rw target refl
            | inr e2 ↦ rw e2 (elim (Bool-cases (is_nonempty f.live_instance)) [
              | inl live ↦ rw live refl
              | inr e3 ↦ rw e3 (elim (Bool-cases (partial f)) [
                | inl some ↦ rw some refl
                | inr none ↦ rw none refl
              ])
            ])
          ])
    ]

verdict_ambiguous :
    (expected : Value) (failures : List String) (f : Facts)
    → ((verdict expected failures f).status == "ambiguous")
      ≡ has_findings (verdict expected failures f).findings
unfolding verdict
verdict_ambiguous expected [] f = clean_ambiguous expected f
verdict_ambiguous expected (e ∷ es) f = refl

findings_truthy : (ss : List String) → has_findings ss ≡ truthy (texts ss)
findings_truthy [] = refl
findings_truthy (s ∷ ss) = refl

-- A namespace is reported as ambiguous exactly when the report names a finding for it.
classify_namespace-ambiguous :
    (expected : Value) (l : Listed)
    → is_text "ambiguous" (get "status" (classify_namespace expected l))
      ≡ truthy (get "findings" (classify_namespace expected l))
unfolding classify_namespace find
classify_namespace-ambiguous expected l =
    verdict_ambiguous expected (failures_of expected l (facts_of expected l)) (facts_of expected l)
    ∙ findings_truthy (judge expected l).findings

-- No resource of the namespace was found, live or in a state.
abbrev NothingFound : Facts → Type 0
NothingFound f = (is_nonempty f.live_instance ≡ false) × (partial f ≡ false)

clean_absent :
    (expected : Value) (f : Facts)
    → ((clean_verdict expected f).status == "absent") ≡ true
    → NothingFound f
unfolding clean_verdict
clean_absent expected f h =
    elim (Bool-cases (is_nonempty f.live_instance && is_nonempty f.state_instances)) [
      | inl legacy ↦ absurd (let other = rw legacy at h in cc)
      | inr e1 ↦ elim (Bool-cases (is_nonempty f.live_instance && is_nonempty f.target_instances)) [
        | inl target ↦ absurd (let other = rw target at (rw e1 at h) in cc)
        | inr e2 ↦ elim (Bool-cases (is_nonempty f.live_instance)) [
          | inl live ↦ absurd (let other = rw live at (rw e2 at (rw e1 at h)) in cc)
          | inr e3 ↦ elim (Bool-cases (partial f)) [
            | inl some ↦ absurd (let other = rw some at (rw e3 at (rw e2 at (rw e1 at h))) in cc)
            | inr none ↦ (e3, none)
          ]
        ]
      ]
    ]

verdict_absent :
    (expected : Value) (failures : List String) (f : Facts)
    → ((verdict expected failures f).status == "absent") ≡ true
    → (failures ≡ []) × NothingFound f
unfolding verdict
verdict_absent expected [] f h = (refl, clean_absent expected f h)
verdict_absent expected (e ∷ es) f h = absurd (cc)

append-empty : (xs ys : List String) → xs ++ ys ≡ [] → (xs ≡ []) × (ys ≡ [])
append-empty [] ys h = (refl, h)
append-empty (x ∷ xs) ys h = absurd (cc)

when_found-empty : (c : Bool) (name : String) → when_found c name ≡ [] → c ≡ false
when_found-empty true name h = absurd (cc)
when_found-empty false name h = refl

failures_of-matched :
    (expected : Value) (l : Listed) (f : Facts)
    → failures_of expected l f ≡ []
    → (is_nonempty l.namespace
        && (not (is_nonempty f.target_instances) && not (is_nonempty f.target_firewalls)))
      ≡ false
unfolding failures_of
failures_of-matched expected l f h =
    let owners = members (get "owners" expected) in
    let foreign =
      truthy (get "owners" expected)
      && any (λ r. not (owner_match (text_value (get "address" r)) (strings owners))) l.namespace in
    let instances =
      label_failures "linode_instance" (get "label" expected) l.instances l.namespace in
    let firewalls =
      label_failures "linode_firewall" (get "firewall_label" expected) l.firewalls l.namespace in
    let unmatched =
      is_nonempty l.namespace
      && (not (is_nonempty f.target_instances) && not (is_nonempty f.target_firewalls)) in
    let name : String = "namespace_state_contains_unmatched_bindings" in
    let before =
      when_found foreign "state_resource_outside_declared_owners" ++ instances ++ firewalls in
    let (first, _) =
      append-empty (before ++ when_found unmatched name) (match_failures expected l f) h in
    when_found-empty unmatched name (append-empty before (when_found unmatched name) first).1

or-eq-false : (a b : Bool) → (a || b) ≡ false → (a ≡ false) × (b ≡ false)
or-eq-false true b h = absurd (cc)
or-eq-false false b h = (refl, h)

one_by_label-none :
    (vs : List Value) (label : Value)
    → is_nonempty (one_by_label vs label) ≡ false
    → All (λ v. eq (get "label" v) label ≡ false) vs
one_by_label-none [] label h = tt
one_by_label-none (v ∷ vs) label h = elim (Bool-cases (eq (get "label" v) label)) [
  | inl found ↦ absurd (let some = rw found at h in cc)
  | inr other ↦ (other, one_by_label-none vs label (rw other at h))
]

of_kind-none :
    (kind : String) (label : Value) (vs : List Value)
    → is_nonempty (of_kind kind label vs) ≡ false
    → All (λ v. (is_text kind (get "resource_type" v) && eq (get "label" v) label) ≡ false) vs
of_kind-none kind label [] h = tt
of_kind-none kind label (v ∷ vs) h =
    elim (Bool-cases (is_text kind (get "resource_type" v) && eq (get "label" v) label)) [
      | inl found ↦ absurd (let some = rw found at h in cc)
      | inr other ↦ (other, of_kind-none kind label vs (rw other at h))
    ]

is_nonempty-empty : (vs : List Value) → is_nonempty vs ≡ false → vs ≡ []
is_nonempty-empty [] h = refl
is_nonempty-empty (v ∷ vs) h = absurd (cc)

-- The place of a namespace is free: the provider lists no instance and no firewall under its labels,
-- the legacy state holds none of them, and its own state holds no resource at all.
pub record IsVacant (expected : Value) (l : Listed) : Type 0 where
  pub no_instance : All (λ v. eq (get "label" v) (get "label" expected) ≡ false) l.instances
  pub no_firewall :
      All (λ v. eq (get "label" v) (get "firewall_label" expected) ≡ false) l.firewalls
  pub no_legacy_instance :
      All
        (λ v.
          (is_text "linode_instance" (get "resource_type" v)
            && eq (get "label" v) (get "label" expected))
          ≡ false)
        l.legacy
  pub no_legacy_firewall :
      All
        (λ v.
          (is_text "linode_firewall" (get "resource_type" v)
            && eq (get "label" v) (get "firewall_label" expected))
          ≡ false)
        l.legacy
  pub no_binding : l.namespace ≡ []

NothingFound-IsVacant :
    (expected : Value) (l : Listed)
    → failures_of expected l (facts_of expected l) ≡ []
    → NothingFound (facts_of expected l)
    → IsVacant expected l
unfolding facts_of
NothingFound-IsVacant expected l clean (no_instance, rest) =
    let label = get "label" expected in
    let firewall = get "firewall_label" expected in
    let (no_legacy, r1) = or-eq-false _ _ rest in
    let (no_legacy_firewall, r2) = or-eq-false _ _ r1 in
    let (no_target, r3) = or-eq-false _ _ r2 in
    let (no_target_firewall, no_firewall) = or-eq-false _ _ r3 in
    record {
      no_instance = one_by_label-none l.instances label no_instance;
      no_firewall = one_by_label-none l.firewalls firewall no_firewall;
      no_legacy_instance = of_kind-none "linode_instance" label l.legacy no_legacy;
      no_legacy_firewall = of_kind-none "linode_firewall" firewall l.legacy no_legacy_firewall;
      no_binding = is_nonempty-empty l.namespace (
          let matched = failures_of-matched expected l (facts_of expected l) clean in ground arith);
    }

-- A namespace is only reported as absent where the provider lists no instance and no firewall under
-- its labels, the legacy state holds no instance and no firewall under them, and the namespace's own
-- state holds no resource, of whatever type and label.
pub classify_namespace-IsVacant :
    (expected : Value) (l : Listed)
    → is_text "absent" (get "status" (classify_namespace expected l)) ≡ true
    → IsVacant expected l
unfolding classify_namespace find
classify_namespace-IsVacant expected l h =
    let (clean, nothing) =
      verdict_absent expected (failures_of expected l (facts_of expected l)) (facts_of expected l)
        h in
    NothingFound-IsVacant expected l clean nothing
