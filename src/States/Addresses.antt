-- ===== src/States/Addresses.antt =====
-- The addresses that `state_resources`, of scripts/pipeline/unified/validation.py, adds.
use iac_modules.Common.{
  String, ◌≡◌, refl, ap, subst, true, false, not, ◌&&◌, and-eq-true, Bool-cases, inl, inr, none,
  some, List, [], ◌∷◌, ◌++◌, ◌+++◌, member, Distinct, Distinct-append, ◌==◌, ok, >>=-eq-ok,
  >>-eq-ok, require-eq-ok, not-eq-true, ok-injective,
}
use iac_modules.Json.{Value, get_or, at, is_text, str, obj, end, text_value, as_text}
use iac_modules.States.{
  Texts, Identity, Resources, addresses, add_instance, add_instances, add_resource, add_resources,
  index_suffix, provider_name, id_text,
}

pub addresses-append :
    (rs : Resources) (a : String) (i : Identity)
    → addresses (rs ++ (a, i) ∷ []) ≡ addresses rs ++ a ∷ []
addresses-append [] a i = refl
addresses-append ((b, j) ∷ rs) a i = ap (λ l. b ∷ l) (addresses-append rs a i)

pub add_instance-Distinct :
    (t : Texts) (resource : Value) (base : String) (found : Resources) (instance_ : Value)
    {more : Resources}
    → add_instance t resource base found instance_ ≡ ok more
    → Distinct (addresses found)
    → Distinct (addresses more)
unfolding add_instance
add_instance-Distinct t resource base found instance_ h d =
    let (provider, _, h1) = >>=-eq-ok (at "provider" resource) _ h in
    let (text, _, h2) = >>=-eq-ok (as_text provider) _ h1 in
    let (_, h3) =
      require-eq-ok (elim (provider_name text) [ none ↦ false | some n ↦ true ])
        "state provider identity is incomplete" _ h2 in
    let (kind, _, h4) = >>=-eq-ok (at "type" resource) _ h3 in
    let address = base +++ index_suffix t instance_ in
    let id = id_text t (get_or "id" (str "") (get_or "attributes" (obj end) instance_)) in
    let (new, h5) =
      require-eq-ok (not (id == "") && not (member address (addresses found)))
        "state resource identity is incomplete" _ h4 in
    let identity : Identity =
      (elim (provider_name text) [ none ↦ "" | some n ↦ n ], text_value kind, id) in
    let done : found ++ (address, identity) ∷ [] ≡ _ = ok-injective h5 in
    let fresh = and-eq-true (not (id == "")) (not (member address (addresses found))) new in
    subst (λ m. Distinct (addresses m)) done
      (rw (addresses-append found address identity)
        (Distinct-append (addresses found) address d (not-eq-true _ fresh.1)))

pub add_instances-Distinct :
    (t : Texts) (resource : Value) (base : String) (found : Resources) (list : List Value)
    {more : Resources}
    → add_instances t resource base found list ≡ ok more
    → Distinct (addresses found)
    → Distinct (addresses more)
unfolding add_instances
add_instances-Distinct t resource base found [] h d =
    subst (λ m. Distinct (addresses m)) (ok-injective h) d
add_instances-Distinct t resource base found (instance_ ∷ rest) h d =
    let (mid, here, h1) = >>=-eq-ok (add_instance t resource base found instance_) _ h in
    add_instances-Distinct t resource base mid rest h1
      (add_instance-Distinct t resource base found instance_ here d)

pub add_resource-Distinct :
    (t : Texts) (found : Resources) (resource : Value) {more : Resources}
    → add_resource t found resource ≡ ok more
    → Distinct (addresses found)
    → Distinct (addresses more)
unfolding add_resource
add_resource-Distinct t found resource h d =
    elim (Bool-cases (is_text "managed" (get_or "mode" (str "managed") resource))) [
      | inl managed ↦
          let (kind, _, h1) = >>=-eq-ok (at "type" resource) _ (rw managed at h) in
          let (name, _, h2) = >>=-eq-ok (at "name" resource) _ h1 in
          let (_, h3) = >>-eq-ok _ _ h2 in add_instances-Distinct t resource _ found _ h3 d
      | inr skipped ↦ subst (λ m. Distinct (addresses m)) (ok-injective (rw skipped at h)) d
    ]

pub add_resources-Distinct :
    (t : Texts) (found : Resources) (list : List Value) {more : Resources}
    → add_resources t found list ≡ ok more
    → Distinct (addresses found)
    → Distinct (addresses more)
unfolding add_resources
add_resources-Distinct t found [] h d = subst (λ m. Distinct (addresses m)) (ok-injective h) d
add_resources-Distinct t found (resource ∷ rest) h d =
    let (mid, here, h1) = >>=-eq-ok (add_resource t found resource) _ h in
    add_resources-Distinct t mid rest h1 (add_resource-Distinct t found resource here d)
