-- ===== src/Cmdb/Document/Hosts.antt =====
-- The hosts of the index of `make_document`, of terraform-hcl-standard/scripts/cmdb_v1.py, beside
-- its resources.
use iac_modules.Common.{
  String, ◌≡◌, sym, ap, ◌∙◌, false, not, ◌&&◌, inl, inr, none, some, List, ◌∷◌, ◌==◌, arith, eq_iff,
  member, Option-cases, Bool-cases, lookup, store, lookup-store, without_key, AllEntries,
  AllEntries-without, AllEntries-weaken, some-injective,
}
use iac_modules.Json.{Value}
use iac_modules.Cmdb.Resource.{Resource}
use iac_modules.Cmdb.Document.{Index, drop_old}

-- The host is the place of a resource in the index that is no serverless one.
pub record IsBound (x : Index) (name : String) : Type 0 where
  pub key : String
  pub found : Resource
  pub named : lookup key x.host_names ≡ some name
  pub indexed : lookup key x.resources ≡ some found
  pub hosted : (found.runtime_form == "serverless") ≡ false

-- So it is, under another key than the given one.
pub record IsElsewhere (x : Index) (key name : String) : Type 0 where
  pub bound : IsBound x name
  pub other : (key == bound.key) ≡ false

-- Every host has a name that is not to come, and is bound.
pub record Host (x : Index) (coming : List String) (name : String) : Type 0 where
  pub named : (name == "") ≡ false
  pub past : member name coming ≡ false
  pub bound : IsBound x name

abbrev pub Hosts : Index → List String → Type 0
Hosts x coming = AllEntries (λ name _. Host x coming name) x.hosts

pub record Left (x : Index) (coming : List String) (key name : String) : Type 0 where
  pub named : (name == "") ≡ false
  pub past : member name coming ≡ false
  pub elsewhere : IsElsewhere x key name

-- The key names no host, or another one.
pub elsewhere :
    (x : Index) (coming : List String) (key name : String)
    → ¬ (lookup key x.host_names ≡ some name)
    → Host x coming name
    → Left x coming key name
elsewhere x coming key name unnamed h = record {
  named = h.named;
  past = h.past;
  elsewhere = record {
    bound = h.bound;
    other = elim (Bool-cases (key == h.bound.key)) [
      | inl same ↦ absurd (unnamed (rw ((eq_iff key h.bound.key).0 same) h.bound.named))
      | inr other ↦ other
    ];
  };
}

-- A host that a new key does not name: the resources have no entry for it.
pub elsewhere_of_new :
    (x : Index) (coming : List String) (key name : String)
    → lookup key x.resources ≡ none
    → Host x coming name
    → Left x coming key name
elsewhere_of_new x coming key name new h = record {
  named = h.named;
  past = h.past;
  elsewhere = record {
    bound = h.bound;
    other = elim (Bool-cases (key == h.bound.key)) [
      | inl same ↦
          let found = h.bound.indexed in
          absurd (let nothing = rw ((eq_iff key h.bound.key).0 same) at new in cc)
      | inr other ↦ other
    ];
  };
}

pub unnamed_of_other :
    (x : Index) (key name old : String)
    → lookup key x.host_names ≡ some old
    → (name == old) ≡ false
    → ¬ (lookup key x.host_names ≡ some name)
unnamed_of_other x key name old is_old differs is_name =
    let e : old ≡ name = some-injective (sym is_old ∙ is_name) in
    absurd (let same = (eq_iff name old).1 (sym e) in cc)

-- An old name that is not dropped names no host: it is empty, or is only to come.
pub undropped :
    (x : Index) (coming : List String) (new name old : String)
    → (not (old == "") && not (old == new)) ≡ false
    → Host x (new ∷ coming) name
    → (name == old) ≡ false
undropped x coming new name old left h =
    let named = h.named in
    let past = h.past in ground (arith, eq_iff name old, eq_iff new name, eq_iff old new)

pub drop_old-Left :
    (x : Index) (coming : List String) (key new : String)
    → Hosts x (new ∷ coming)
    → AllEntries (λ name _. Left x (new ∷ coming) key name) (drop_old key new x.host_names x.hosts)
unfolding drop_old
drop_old-Left x coming key new h =
    let P : String → Value → Type 0 = λ name _. Host x (new ∷ coming) name in
    let Q : String → Value → Type 0 = λ name _. Left x (new ∷ coming) key name in
    elim (Option-cases (lookup key x.host_names)) [
      | inl nothing ↦
          rw (nothing, drop_old)
            (AllEntries-weaken P Q x.hosts
              (λ name _ host. elsewhere x (new ∷ coming) key name (λ is_name. cc) host) h)
      | inr (old, is_old) ↦
          rw (is_old, drop_old)
            (elim (Bool-cases (not (old == "") && not (old == new))) [
              | inl dropped ↦ rw dropped (
                  AllEntries-weaken (λ name v. ((name == old) ≡ false) × P name v) Q
                    (without_key old x.hosts)
                    (λ name _ (host : ((name == old) ≡ false) × Host x (new ∷ coming) name).
                      elsewhere x (new ∷ coming) key name
                        (unnamed_of_other x key name old is_old host.0) host.1)
                    (AllEntries-without P old x.hosts h))
              | inr left ↦ rw left (
                  AllEntries-weaken P Q x.hosts
                    (λ name _ host.
                      elsewhere x (new ∷ coming) key name
                        (unnamed_of_other x key name old is_old
                          (undropped x coming new name old left host))
                        host)
                    h)
            ])
    ]

-- A host that stays where it is while a resource is placed.
pub Host-kept :
    (z y : Index) (coming : List String) (found : Resource) (new name : String)
    → y.resources ≡ store found.resource_key found z.resources
    → ((key : String)
        → (found.resource_key == key) ≡ false
        → lookup key y.host_names ≡ lookup key z.host_names)
    → Left z (new ∷ coming) found.resource_key name
    → Host y coming name
Host-kept z y coming found new name resources names h =
    let b = h.elsewhere.bound in
    let other = h.elsewhere.other in
    let past = h.past in
    record {
      named = h.named;
      past = ground arith;
      bound = record {
        key = b.key;
        found = b.found;
        named = names b.key other ∙ b.named;
        indexed =
            ap (lookup b.key) resources
            ∙ lookup-store found.resource_key b.key found z.resources
            ∙ rw other b.indexed;
        hosted = b.hosted;
      };
    }
