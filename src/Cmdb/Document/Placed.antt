-- ===== src/Cmdb/Document/Placed.antt =====
-- On where `make_document`, of terraform-hcl-standard/scripts/cmdb_v1.py, places resources.
use iac_modules.Common.{
  String, ◌≡◌, refl, ap, ◌∙◌, subst, Bool, true, false, inl, inr, List, [], ◌∷◌, ◌++◌, append-nil,
  ltb, ◌==◌, arith, eq_iff, member, Distinct, Option-cases, Bool-cases, lookup, store, lookup-store,
  lookup-without_key, AllEntries, AllEntries-store, AllEntries-weaken, ok, expect, ok-injective,
  require-eq-ok, >>=-eq-ok, >>-eq-ok,
}
use iac_modules.Json.{Value, Fields, end, field, str, is_mapping, keys}
use iac_modules.Cmdb.Endpoint.{Readers, parse_timestamp}
use iac_modules.Cmdb.Resource.{Resource, Scope, normalize_resource_record}
use iac_modules.Cmdb.Document.{
  Index, no_resources, place, displace, serverless_entry, forced, ingest_found, ingest_entry,
  ingest_entries, ingest,
}
use iac_modules.Cmdb.Document.Hosts.{
  IsBound, Host, Hosts, Left, elsewhere_of_new, drop_old-Left, Host-kept,
}

-- A resource that is placed beside hosts that stay.
module _ (x z : Index) (coming : List String) (found : Resource) (new : String) (entry : Value)
    (resources : z.resources ≡ x.resources)
    (names : (key : String)
      → (found.resource_key == key) ≡ false
      → lookup key z.host_names ≡ lookup key x.host_names)
    (left : AllEntries (λ name _. Left x (new ∷ coming) found.resource_key name) z.hosts) where
  abbrev beside : Index
  beside = record z {
    resources = store found.resource_key found z.resources;
    serverless = store new (serverless_entry found entry) z.serverless;
    serverless_names = store found.resource_key new z.serverless_names;
  }

  abbrev among : Index
  among = record z {
    resources = store found.resource_key found z.resources;
    hosts = store new entry z.hosts;
    host_names = store found.resource_key new z.host_names;
  }

  Hosts-beside : Hosts beside coming
  Hosts-beside =
      AllEntries-weaken (λ name _. Left x (new ∷ coming) found.resource_key name)
        (λ name _. Host beside coming name) z.hosts
        (λ name _ h.
          Host-kept x beside coming found new name (ap (store found.resource_key found) resources)
            names h)
        left

  names_among :
      (key : String)
      → (found.resource_key == key) ≡ false
      → lookup key (store found.resource_key new z.host_names) ≡ lookup key x.host_names
  names_among key other =
      lookup-store found.resource_key key new z.host_names ∙ rw other (names key other)

  Hosts-among :
      (found.runtime_form == "serverless") ≡ false
      → (new == "") ≡ false
      → member new coming ≡ false
      → Hosts among coming
  Hosts-among hosted named past =
      let same : (found.resource_key == found.resource_key) ≡ true = (eq_iff _ _).1 refl in
      AllEntries-store (λ name _. Host among coming name) new entry z.hosts
        (record {
          named = named;
          past = past;
          bound = record {
            key = found.resource_key;
            found = found;
            named =
                lookup-store found.resource_key found.resource_key new z.host_names ∙ rw same refl;
            indexed =
                lookup-store found.resource_key found.resource_key found z.resources ∙ rw same refl;
            hosted = hosted;
          };
        })
        (AllEntries-weaken (λ name _. Left x (new ∷ coming) found.resource_key name)
          (λ name _. Host among coming name) z.hosts
          (λ name _ h.
            Host-kept x among coming found new name (ap (store found.resource_key found) resources)
              names_among h)
          left)

  place-Hosts :
      (new == "") ≡ false → member new coming ≡ false → Hosts (place found new entry z) coming
  unfolding place
  place-Hosts named past = elim (Bool-cases (found.runtime_form == "serverless")) [
    | inl serverless ↦ rw (serverless, place) Hosts-beside
    | inr hosted ↦ rw (hosted, place) (Hosts-among hosted named past)
  ]

Distinct-suffix : (xs ys : List String) → Distinct (xs ++ ys) → Distinct ys
Distinct-suffix [] ys d = d
Distinct-suffix (x ∷ xs) ys (_, d) = Distinct-suffix xs ys d

member-suffix :
    (x : String) (xs ys : List String) → member x (xs ++ ys) ≡ false → member x ys ≡ false
member-suffix x [] ys n = n
member-suffix x (y ∷ xs) ys n = member-suffix x xs ys (ground arith)

Host-past :
    (x : Index) (coming : List String) (new name : String)
    → Host x (new ∷ coming) name
    → Host x coming name
Host-past x coming new name h =
    let past = h.past in record { named = h.named; past = ground arith; bound = h.bound }

-- Every host is the place of a resource that is no serverless one.
abbrev pub HostsAreBound : Index → Type 0
HostsAreBound x = AllEntries (λ name _. IsBound x name) x.hosts

module _ (r : Readers) (scope : Scope) where
  ingest_found-Hosts :
      (found : Resource) (coming : List String) (new : String) (entry : Value) (x : Index)
      {y : Index}
      → (new == "") ≡ false
      → member new coming ≡ false
      → ingest_found r scope found new entry x ≡ ok y
      → Hosts x (new ∷ coming)
      → Hosts y coming
  unfolding ingest_found displace
  ingest_found-Hosts found coming new entry x named past h hosts =
      elim (Option-cases (lookup found.resource_key x.resources)) [
        | inl nothing ↦
            subst (λ y. Hosts y coming) (ok-injective (rw (nothing, ingest_found) at h))
              (place-Hosts x x coming found new entry refl (λ key other. refl)
                (AllEntries-weaken (λ name _. Host x (new ∷ coming) name)
                  (λ name _. Left x (new ∷ coming) found.resource_key name) x.hosts
                  (λ name _ host.
                    elsewhere_of_new x (new ∷ coming) found.resource_key name nothing host)
                  hosts)
                named past)
        | inr (old, stands) ↦
            let (_, h1) =
              require-eq-ok (old.environment == found.environment)
                "duplicate resource_key has conflicting environments" _
                (rw (stands, ingest_found) at h) in
            let (u, _, h2) = >>=-eq-ok (parse_timestamp r (str old.last_observed_at)) _ h1 in
            let (t, _, h3) = >>=-eq-ok (parse_timestamp r (str found.last_observed_at)) _ h2 in
            elim (Bool-cases (ltb t u)) [
              | inl older ↦
                  subst (λ y. Hosts y coming) (ok-injective (rw older at h3))
                    (AllEntries-weaken (λ name _. Host x (new ∷ coming) name)
                      (λ name _. Host x coming name) x.hosts
                      (λ name _ host. Host-past x coming new name host) hosts)
              | inr newest ↦
                  subst (λ y. Hosts y coming) (ok-injective (rw newest at h3))
                    (place-Hosts x (displace found.resource_key new x) coming found new entry refl
                      (λ key other.
                        lookup-without_key found.resource_key key x.host_names ∙ rw other refl)
                      (drop_old-Left x coming found.resource_key new hosts) named past)
            ]
      ]

  ingest_entries-Hosts :
      (force : Bool) (fs : Fields) (coming : List String) (x : Index) {y : Index}
      → Distinct (keys fs ++ coming)
      → member "" (keys fs ++ coming) ≡ false
      → ingest_entries r scope force fs x ≡ ok y
      → Hosts x (keys fs ++ coming)
      → Hosts y coming
  unfolding ingest_entries ingest_entry
  ingest_entries-Hosts force end coming x d n h hosts =
      subst (λ y. Hosts y coming) (ok-injective h) hosts
  ingest_entries-Hosts force (field new entry rest) coming x (past, d) n h hosts =
      let (y, first, h1) = >>=-eq-ok (ingest_entry r scope force new entry x) _ h in
      let (_, h2) = >>-eq-ok (expect (is_mapping entry)) _ first in
      let (found, _, h3) =
        >>=-eq-ok (normalize_resource_record r scope new (forced force entry)) _ h2 in
      ingest_entries-Hosts force rest coming y d (ground arith) h1
        (ingest_found-Hosts found (keys rest ++ coming) new entry x (ground arith) past h3 hosts)

  -- Where no name stands twice among the hosts and the serverless resources, and none is empty,
  -- every host of a document is bound to a resource of the index that is no serverless one: a host
  -- that has become serverless, or has another name now, is no longer listed.
  pub ingest-HostsAreBound :
      (hosts serverless : Fields) {x : Index}
      → Distinct (keys hosts ++ keys serverless)
      → member "" (keys hosts ++ keys serverless) ≡ false
      → ingest r scope hosts serverless ≡ ok x
      → HostsAreBound x
  unfolding ingest
  ingest-HostsAreBound hosts serverless {x} d n h =
      let (y, first, second) = >>=-eq-ok (ingest_entries r scope false hosts no_resources) _ h in
      let middle = ingest_entries-Hosts false hosts (keys serverless) no_resources d n first tt in
      let last =
        ingest_entries-Hosts true serverless [] y
          (rw (append-nil (keys serverless)) (Distinct-suffix (keys hosts) (keys serverless) d))
          (rw (append-nil (keys serverless)) (member-suffix "" (keys hosts) (keys serverless) n))
          second (rw (append-nil (keys serverless)) middle) in
      AllEntries-weaken (λ name _. Host x [] name) (λ name _. IsBound x name) x.hosts
        (λ name _ host. host.bound) last
