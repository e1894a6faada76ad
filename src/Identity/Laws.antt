-- ===== src/Identity/Laws.antt =====
-- On the state keys of terraform-hcl-standard/scripts/iac_identity.py.
use Prim.Native.Char.{code}
use Prim.Native.String.{[], ◌∷◌}
use iac_modules.Common.{
  nil-append, cons-append, ℕ, String, ◌≡◌, refl, sym, ap, subst, ◌∙◌, ◌≢◌, eq_iff, Bool, true,
  false, ◌+++◌, arith, eqb, all_chars, ok, member, not-eq-true, >>=-eq-ok, require-eq-ok,
}
use iac_modules.Json.{Value, null, bool, int, arr, obj, str}
use iac_modules.Identity.{
  component_char, matches_component, component, validate_namespace, shared_namespaces,
  vague_accounts, state_path, canonical_state_key,
}

-- No character is a slash.
abbrev pub not_slash : ℕ → Bool
not_slash c = elim (eqb c b'/') [ true ↦ false | false ↦ true ]

abbrev pub NoSlash : String → Type 0
NoSlash s = all_chars not_slash s ≡ true

-- The text `"/" + r` begins with a slash.
slash_append : (r : String) → "/" +++ r ≡ "/" ∷ r
slash_append r = cons-append "/" [] r ∙ ap (λ t. "/" ∷ t) (nil-append r)

-- The first segment of a path is determined by the path.
segment_unique :
    (a b r s : String)
    → NoSlash a
    → NoSlash b
    → a +++ ("/" +++ r) ≡ b +++ ("/" +++ s)
    → (a ≡ b) × (r ≡ s)
segment_unique [] [] r s ha hb e =
    (refl, cc (nil-append ("/" +++ r), nil-append ("/" +++ s), slash_append r, slash_append s))
segment_unique [] (d ∷ b) r s ha hb e =
    let same : "/" ∷ r ≡ d ∷ (b +++ ("/" +++ s)) =
      sym (slash_append r) ∙ sym (nil-append _) ∙ e ∙ cons-append d b _ in
    let c : ◌≡◌ {A = ℕ} b'/' (code d) = cc in absurd (ground arith)
segment_unique (c ∷ a) [] r s ha hb e =
    let same : c ∷ (a +++ ("/" +++ r)) ≡ "/" ∷ s =
      sym (cons-append c a _) ∙ e ∙ nil-append _ ∙ slash_append s in
    let c : ◌≡◌ {A = ℕ} b'/' (code c) = cc in absurd (ground arith)
segment_unique (c ∷ a) (d ∷ b) r s ha hb e =
    let same : c ∷ (a +++ ("/" +++ r)) ≡ d ∷ (b +++ ("/" +++ s)) =
      sym (cons-append c a _) ∙ e ∙ cons-append d b _ in
    let (tails, rests) = segment_unique a b r s (ground arith) (ground arith) (cc) in (cc, rests)

all_chars_mono :
    (f g : ℕ → Bool)
    → ((c : ℕ) → f c ≡ true → g c ≡ true)
    → (s : String) → all_chars f s ≡ true
    → all_chars g s ≡ true
all_chars_mono f g w [] h = refl
all_chars_mono f g w (c ∷ s) h = ground (arith, w (code c), all_chars_mono f g w s)

component_char-not_slash : (c : ℕ) → component_char c ≡ true → not_slash c ≡ true
component_char-not_slash c h = ground arith

matches_component-NoSlash : (s : String) → matches_component s ≡ true → NoSlash s
matches_component-NoSlash [] h = refl
matches_component-NoSlash (c ∷ s) h = ground (
  arith,
  component_char-not_slash (code c),
  all_chars_mono component_char not_slash component_char-not_slash s,
)

-- An accepted component is a string with no slash that names no directory by dots.
pub component-eq-ok :
    (name : String) (v : Value) {s : String}
    → component name v ≡ ok s
    → (v ≡ str s) × NoSlash s × (s ≢ ".") × (s ≢ "..")
unfolding component
component-eq-ok name (str t) {s} h =
    let same : t ≡ s = ground arith in
    subst (λ u. (str t ≡ str u) × NoSlash u × (u ≢ ".") × (u ≢ "..")) same
      (
        refl,
        ground (arith, matches_component-NoSlash t),
        ground (arith, eq_iff t "."),
        ground (arith, eq_iff t ".."),
      )
component-eq-ok name null h = cc
component-eq-ok name (bool b) h = cc
component-eq-ok name (int n) h = cc
component-eq-ok name (arr n) h = cc
component-eq-ok name (obj n) h = cc

-- What an accepted identity is: five plain components, an account that is concrete and a namespace
-- that is not shared.
pub record IsIdentity (e p c a n : String) : Type 0 where
  pub environment : NoSlash e × (e ≢ "..")
  pub project : NoSlash p × (p ≢ "..")
  pub provider : NoSlash c × (c ≢ "..")
  pub account : NoSlash a × (a ≢ "..")
  pub namespace : NoSlash n × (n ≢ "..")
  pub concrete : member a vague_accounts ≡ false
  pub not_shared : member n shared_namespaces ≡ false

validate_namespace-eq-ok :
    (v : Value) {n : String}
    → validate_namespace v ≡ ok n
    → (component "namespace" v ≡ ok n) × (member n shared_namespaces ≡ false)
unfolding validate_namespace
validate_namespace-eq-ok v h =
    let (s, is_s, h') = >>=-eq-ok (component "namespace" v) _ h in
    let (fine, same) = require-eq-ok _ _ _ h' in
    let e : s ≡ _ = cc in (is_s ∙ ap ok e, rw (← e) (not-eq-true _ fine))

-- The parts of a key that was accepted.
pub canonical_state_key-eq-ok :
    (ev pv cv av nv : Value) {key : String}
    → canonical_state_key ev pv cv av nv ≡ ok key
    → (e : String) × (p : String) × (c : String) × (a : String) × (n : String) × (ev ≡ str e)
      × (pv ≡ str p)
      × (cv ≡ str c)
      × (av ≡ str a)
      × (nv ≡ str n)
      × IsIdentity e p c a n
      × (key ≡ state_path e p c a n)
unfolding canonical_state_key
canonical_state_key-eq-ok ev pv cv av nv h =
    let (e, he, h1) = >>=-eq-ok (component "environment" ev) _ h in
    let (p, hp, h2) = >>=-eq-ok (component "project" pv) _ h1 in
    let (c, hc, h3) = >>=-eq-ok (component "provider" cv) _ h2 in
    let (a, ha, h4) = >>=-eq-ok (component "account" av) _ h3 in
    let (concrete, h5) = require-eq-ok _ _ _ h4 in
    let (n, hn, h6) = >>=-eq-ok (validate_namespace nv) _ h5 in
    let (hn', not_shared) = validate_namespace-eq-ok nv hn in
    let (e1, e2, _, e4) = component-eq-ok "environment" ev he in
    let (p1, p2, _, p4) = component-eq-ok "project" pv hp in
    let (c1, c2, _, c4) = component-eq-ok "provider" cv hc in
    let (a1, a2, _, a4) = component-eq-ok "account" av ha in
    let (n1, n2, _, n4) = component-eq-ok "namespace" nv hn' in
    (
      e,
      p,
      c,
      a,
      n,
      e1,
      p1,
      c1,
      a1,
      n1,
      record {
        environment = (e2, e4);
        project = (p2, p4);
        provider = (c2, c4);
        account = (a2, a4);
        namespace = (n2, n4);
        concrete = not-eq-true _ concrete;
        not_shared = not_shared;
      },
      cc,
    )

append-injective_left : (p r s : String) → p +++ r ≡ p +++ s → r ≡ s
append-injective_left [] r s e = sym (nil-append r) ∙ e ∙ nil-append s
append-injective_left (c ∷ p) r s e =
    append-injective_left p r s (cc (cons-append c p r, cons-append c p s))

-- The path determines its five components.
state_path_unique :
    {e p c a n e' p' c' a' n' : String}
    → IsIdentity e p c a n
    → IsIdentity e' p' c' a' n'
    → state_path e p c a n ≡ state_path e' p' c' a' n'
    → (e ≡ e') × (p ≡ p') × (c ≡ c') × (a ≡ a') × (n ≡ n')
state_path_unique h k same =
    let (q1, s1) =
      segment_unique _ _ _ _ h.environment.0 k.environment.0
        (append-injective_left "terraform/" _ _ same) in
    let (q2, s2) = segment_unique _ _ _ _ h.project.0 k.project.0 s1 in
    let (q3, s3) = segment_unique _ _ _ _ h.provider.0 k.provider.0 s2 in
    let (q4, s4) = segment_unique _ _ _ _ h.account.0 k.account.0 s3 in
    (
      q1,
      q2,
      q3,
      q4,
      (segment_unique _ _ "terraform.tfstate" "terraform.tfstate" h.namespace.0 k.namespace.0 s4).0,
    )

-- Two identities that get the same key are the same identity, whatever values they are given as.
pub canonical_state_key_injective :
    (ev pv cv av nv ev' pv' cv' av' nv' : Value) (key : String)
    → canonical_state_key ev pv cv av nv ≡ ok key
    → canonical_state_key ev' pv' cv' av' nv' ≡ ok key
    → (ev ≡ ev') × (pv ≡ pv') × (cv ≡ cv') × (av ≡ av') × (nv ≡ nv')
canonical_state_key_injective ev pv cv av nv ev' pv' cv' av' nv' key h k =
    let (e, p, c, a, n, he, hp, hc, ha, hn, i, ki) = canonical_state_key-eq-ok ev pv cv av nv h in
    let (e', p', c', a', n', he', hp', hc', ha', hn', i', ki') =
      canonical_state_key-eq-ok ev' pv' cv' av' nv' k in
    let (q1, q2, q3, q4, q5) = state_path_unique i i' (sym ki ∙ ki') in (cc, cc, cc, cc, cc)
