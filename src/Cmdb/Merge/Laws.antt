-- ===== src/Cmdb/Merge/Laws.antt =====
-- On `merge_documents` of terraform-hcl-standard/scripts/cmdb_v1.py.
use iac_modules.Common.{
  String, ◌≡◌, refl, sym, subst, true, not, ◌||◌, ◌⊎◌, inl, inr, List, [], ◌∷◌, leb, length, member,
  ◌==◌, arith, eq_iff, Bool-cases, All, ok, expect, ok-injective, require-eq-ok, >>=-eq-ok,
  >>-eq-ok, member-append, if◌then◌else◌,
}
use iac_modules.Json.{Value, is_mapping, arr, nil, get, truthy, is_text, fields}
use iac_modules.Evidence.Inventory.{iterated}
use iac_modules.Cmdb.Words.{first_of}
use iac_modules.Cmdb.Environment.{add}
use iac_modules.Cmdb.Endpoint.{Readers, parse_timestamp}
use iac_modules.Cmdb.Document.{Index}
use iac_modules.Cmdb.Document.Newest.{Keyed, Grows, AreSeen, Grows-same, Grows-trans, AreSeen-grows}
use iac_modules.Cmdb.Merge.{
  Merged, nothing_merged, put_host, put_serverless, environment_or, known_environments,
  merge_entries, entries_of, timestamp_in, scope_in, merge_document, merge_all, merged_document,
  target_of, merge_documents,
}
use iac_modules.Cmdb.Merge.Entries.{
  put_host-Stores, put_serverless-Stores, as_it_is, merge_entries-AreSeen,
}

module _ (r : Readers) where
  -- A document whose observations the index has, or newer ones.
  pub record IsRead (target : String) (first : Value) (x : Index) (doc : Value) : Type 0 where
    pub hosts :
        AreSeen r (scope_in r target first doc) as_it_is x (fields (entries_of r "hosts" doc))
    pub serverless :
        AreSeen r
          (scope_in r target first doc)
          as_it_is
          x
          (fields (entries_of r "serverless_resources" doc))

  merge_document-IsRead :
      (target : String) (first doc : Value) (m : Merged) {n : Merged}
      → merge_document r target first doc m ≡ ok n
      → IsRead target first n.dicts doc × Grows r m.dicts n.dicts
  unfolding merge_document
  merge_document-IsRead target first doc m {n} h =
      let scope = scope_in r target first doc in
      let hosts = fields (entries_of r "hosts" doc) in
      let serverless = fields (entries_of r "serverless_resources" doc) in
      let own = environment_or r target doc in
      let (_, h1) = >>-eq-ok (expect (is_mapping doc)) _ h in
      let (_, h2) =
        require-eq-ok
          (not (truthy (get "schema_version" doc)) || is_text "cmdb.v1" (get "schema_version" doc))
          "unsupported schema_version" _ h1 in
      let (_, h3) =
        require-eq-ok (target == "unknown" || (own == "unknown" || own == target))
          "cross-environment document merge rejected" _ h2 in
      let (_, _, h4) =
        >>=-eq-ok (iterated (first_of (get "source_resources" doc ∷ arr nil ∷ []))) _ h3 in
      let (_, _, h5) = >>=-eq-ok (parse_timestamp r (timestamp_in r doc)) _ h4 in
      let (_, h6) = >>-eq-ok (expect (is_mapping (entries_of r "hosts" doc))) _ h5 in
      let (x, first_part, h7) = >>=-eq-ok (merge_entries r put_host scope hosts m.dicts) _ h6 in
      let (_, h8) = >>-eq-ok (expect (is_mapping (entries_of r "serverless_resources" doc))) _ h7 in
      let (y, second_part, h9) =
        >>=-eq-ok (merge_entries r put_serverless scope serverless x) _ h8 in
      let (seen, grows) =
        merge_entries-AreSeen r put_host put_host-Stores scope hosts m.dicts first_part in
      let (later, more) =
        merge_entries-AreSeen r put_serverless put_serverless-Stores scope serverless x
          second_part in
      subst (λ (n : Merged). IsRead target first n.dicts doc × Grows r m.dicts n.dicts)
        (ok-injective h9)
        (
          record { hosts = AreSeen-grows r scope as_it_is x y more hosts seen; serverless = later },
          Grows-trans r m.dicts x y grows more,
        )

  merge_all-AreRead :
      (target : String) (first : Value) (docs : List Value) (m : Merged) {n : Merged}
      → merge_all r target first docs m ≡ ok n
      → All (IsRead target first n.dicts) docs × Grows r m.dicts n.dicts
  unfolding merge_all
  merge_all-AreRead target first [] m {n} h = (
    tt,
    subst (λ (n : Merged). Grows r m.dicts n.dicts) (ok-injective h)
        (Grows-same r m.dicts m.dicts refl),
  )
  merge_all-AreRead target first (doc ∷ docs) m {n} h =
      let (k, one, h1) = >>=-eq-ok (merge_document r target first doc m) _ h in
      let (here, grows) = merge_document-IsRead target first doc m one in
      let (there, more) = merge_all-AreRead target first docs k h1 in
      let scope = scope_in r target first doc in
      (
        (
          record {
            hosts =
                AreSeen-grows r scope as_it_is k.dicts n.dicts more
                  (fields (entries_of r "hosts" doc)) here.hosts;
            serverless =
                AreSeen-grows r scope as_it_is k.dicts n.dicts more
                  (fields (entries_of r "serverless_resources" doc)) here.serverless;
          },
          there,
        ),
        Grows-trans r m.dicts k.dicts n.dicts grows more,
      )

  member-add :
      (e x : String) (found : List String) → member e found ≡ true → member e (add x found) ≡ true
  member-add e x found h = elim (Bool-cases (member x found)) [
    | inl old ↦ rw old h
    | inr new ↦ rw new (rw (member-append e found (x ∷ [])) (rw h refl))
  ]

  add_self : (x : String) (found : List String) → member x (add x found) ≡ true
  add_self x found = elim (Bool-cases (member x found)) [
    | inl old ↦ rw old old
    | inr new ↦ rw new (rw (member-append x found (x ∷ [])) (ground (arith, eq_iff x x)))
  ]

  known-keeps :
      (e : String) (found : List String) (docs : List Value)
      → member e found ≡ true
      → member e (known_environments r found docs) ≡ true
  unfolding known_environments
  known-keeps e found [] h = h
  known-keeps e found (doc ∷ docs) h =
      elim (Bool-cases (environment_or r "unknown" doc == "unknown")) [
        | inl unknown ↦ rw unknown (known-keeps e found docs h)
        | inr known ↦ rw known (
            known-keeps e (add (environment_or r "unknown" doc) found) docs
              (member-add e (environment_or r "unknown" doc) found h))
      ]

  -- The document names no other environment than the one.
  abbrev pub Names : String → Value → Type 0
  Names target doc =
      (environment_or r "unknown" doc ≡ "unknown") ⊎ (environment_or r "unknown" doc ≡ target)

  single :
      (e : String) (found : List String)
      → leb (length found) 1 ≡ true
      → member e found ≡ true
      → e ≡ target_of r found
  unfolding target_of
  single e [] one h = absurd (cc)
  single e (x ∷ []) one h = ground (arith, eq_iff x e)
  single e (x ∷ y ∷ found) one h = absurd (ground arith)

  -- What is known after one document.
  abbrev next : List String → Value → List String
  next found doc =
      if environment_or r "unknown" doc == "unknown"
      then found
      else add (environment_or r "unknown" doc) found

  next_cases :
      (found : List String) (doc : Value)
      → (environment_or r "unknown" doc ≡ "unknown")
        ⊎ (member (environment_or r "unknown" doc) (next found doc) ≡ true)
  next_cases found doc = elim (Bool-cases (environment_or r "unknown" doc == "unknown")) [
    | inl unknown ↦ inl ((eq_iff _ "unknown").0 unknown)
    | inr known ↦ inr (rw known (add_self (environment_or r "unknown" doc) found))
  ]

  known-has :
      (found : List String) (docs : List Value)
      → leb (length (known_environments r found docs)) 1 ≡ true
      → All (Names (target_of r (known_environments r found docs))) docs
  unfolding known_environments
  known-has found [] one = tt
  known-has found (doc ∷ docs) one = (
    elim (next_cases found doc) [
      | inl unknown ↦ inl unknown
      | inr known ↦
          let own = environment_or r "unknown" doc in
          inr (
            single own (known_environments r (next found doc) docs) one
              (known-keeps own (next found doc) docs known))
    ],
    known-has (next found doc) docs one,
  )

  -- Merged documents, beside their result.
  pub record IsMerged (docs : List Value) (result : Value) : Type 0 where
    pub first : Value
    pub target : String
    pub merged : Merged
    pub one : All (Names target) docs
    pub keyed : Keyed r merged.dicts
    pub read : All (IsRead target first merged.dicts) docs
    pub made : result ≡ merged_document r target first merged

  -- Documents that are merged name one environment at most, which is the result's. The index holds
  -- of every host and every serverless resource of every document the observation that is given
  -- there, or one of the same resource that is no older. Each resource stands under its own key.
  pub merge_documents-IsMerged :
      (docs : List Value) {result : Value}
      → merge_documents r docs ≡ ok result
      → IsMerged docs result
  unfolding merge_documents
  merge_documents-IsMerged [] h = absurd (cc)
  merge_documents-IsMerged (first ∷ docs) h =
      let environments = known_environments r [] (first ∷ docs) in
      let target = target_of r environments in
      let (one, h1) =
        require-eq-ok (leb (length environments) 1)
          "cannot merge CMDB documents across environments" _ h in
      let (m, all_read, h2) =
        >>=-eq-ok (merge_all r target first (first ∷ docs) (nothing_merged r)) _ h1 in
      let (read, grows) =
        merge_all-AreRead target first (first ∷ docs) (nothing_merged r) all_read in
      record {
        first = first;
        target = target;
        merged = m;
        one = known-has [] (first ∷ docs) one;
        keyed = grows.keyed tt;
        read = read;
        made = sym (ok-injective h2);
      }
