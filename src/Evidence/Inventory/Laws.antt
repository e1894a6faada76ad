-- ===== src/Evidence/Inventory/Laws.antt =====
-- On `sanitize_inventory` of scripts/pipeline/unified/evidence.py.
use iac_modules.Common.{
  String, ◌≡◌, refl, subst, true, false, ◌∙◌, sym, ◌&&◌, Bool-cases, inl, inr, none, some, List, [],
  ◌∷◌, all, All, member, not, Option-cases, require-passed, eq_iff, require, each-eq-ok, when-eq-ok,
  lookup-eq-ok, ◌==◌, arith, contains, eqb, err, malformed, ok, expect, each, >>=-eq-ok,
  require-eq-ok, >>-eq-ok, ok-injective,
}
use iac_modules.Json.{
  Value, Fields, obj, arr, nil, end, field, get, get_or, has, set, fields, keys, is_mapping,
  str_such, text_value, null, str, find, truthy, is_bool, eq,
}
use iac_modules.Json.Laws.{get_or-put, get_or-put-other}
use iac_modules.Evidence.Inventory.{
  Address, Addresses, volume_keys, chosen_fields, is_positive, is_volume_label, is_device_path,
  is_name, permitted, keep_fields, clean_volume, clean_facts, published, plain_ipv6, check_address,
  iterated, sanitize_host, sanitize_hosts, sanitize_inventory,
}

-- Every key of a mapping is among the names.
abbrev pub KeysAmong : List String → Fields → Type 0
KeysAmong names fs = All (λ k. member k names ≡ true) (keys fs)

keep_fields-KeysAmong : (names : List String) (fs : Fields) → KeysAmong names (keep_fields names fs)
keep_fields-KeysAmong names end = tt
keep_fields-KeysAmong names (field k v fs) = elim (Bool-cases (member k names)) [
  | inl kept ↦ rw kept (kept, keep_fields-KeysAmong names fs)
  | inr left ↦ rw left (keep_fields-KeysAmong names fs)
]

set-KeysAmong :
    (names : List String) (k : String) (v : Value) (fs : Fields)
    → member k names ≡ true
    → KeysAmong names fs
    → KeysAmong names (set k v fs)
unfolding set
set-KeysAmong names k v end m h = (m, tt)
set-KeysAmong names k v (field l w fs) m (here, later) = elim (Bool-cases (l == k)) [
  | inl same ↦ rw same (here, later)
  | inr other ↦ rw other (here, set-KeysAmong names k v fs m later)
]

weaken :
    (names : List String) (name : String) (ks : List String)
    → All (λ k. member k names ≡ true) ks
    → All (λ k. member k (name ∷ names) ≡ true) ks
weaken names name [] h = tt
weaken names name (k ∷ ks) (m, ms) = (ground arith, weaken names name ks ms)

clean_facts-KeysAmong :
    (a : Addresses) (facts : Value) {clean : Fields}
    → clean_facts a facts ≡ ok clean
    → KeysAmong permitted clean
unfolding clean_facts
clean_facts-KeysAmong a facts h = elim (Bool-cases (has "data_volume" facts)) [
  | inl volume ↦
      let (v, _, done) = >>=-eq-ok (clean_volume a facts) _ (rw volume at h) in
      subst (KeysAmong permitted) (ok-injective done) (
        set-KeysAmong permitted "data_volume" v _ refl
          (keep_fields-KeysAmong permitted (fields facts)))
  | inr plain ↦
      subst (KeysAmong permitted) (ok-injective (rw plain at h))
        (keep_fields-KeysAmong permitted (fields facts))
]

-- An address that is not empty is one that can be reached from elsewhere.
abbrev pub IsUsable : Addresses → Value → Type 0
IsUsable a v =
    truthy v ≡ true
    → (address : Address) × (a.address v ≡ some address)
      × (address.unspecified ≡ false)
      × (address.loopback ≡ false)
      × (address.multicast ≡ false)

-- A host as it may be published, beside the facts it is made from.
pub record IsPublishable (a : Addresses) (given host : Value) : Type 0 where
  pub named : All (λ k. IsUsable a (get k host)) ("ip" ∷ "private_ip" ∷ "ipv6" ∷ [])
  pub volume : KeysAmong volume_keys (fields (get "data_volume" host))
  pub facts : KeysAmong ("host_vars" ∷ permitted) (fields host)
  pub variables :
      KeysAmong (published (get_or "groups" (arr nil) given)) (fields (get "host_vars" host))

plain_ipv6-groups :
    (a : Addresses) (given : Value) {facts : Value}
    → plain_ipv6 a given ≡ ok facts
    → get_or "groups" (arr nil) facts ≡ get_or "groups" (arr nil) given
unfolding plain_ipv6
plain_ipv6-groups a given h =
    elim (Bool-cases (str_such (λ s. contains s "/") (get "ipv6" given))) [
      | inl prefixed ↦
          let (i, _, h1) =
            >>=-eq-ok
              (elim (a.interface (text_value (get "ipv6" given))) [
                | none ↦ err malformed
                | some i ↦ ok i
              ])
              _ (rw prefixed at h) in
          let (_, h2) =
            require-eq-ok (eqb i.version 6 && eqb i.prefix 128) "single IPv6 host address required"
              _ h1 in
          subst (λ f. get_or "groups" (arr nil) f ≡ get_or "groups" (arr nil) given)
            (ok-injective h2) (get_or-put-other "groups" "ipv6" (arr nil) (str i.ip) given refl)
      | inr plain ↦
          subst (λ f. get_or "groups" (arr nil) f ≡ get_or "groups" (arr nil) given)
            (ok-injective (rw plain at h)) refl
    ]

find-keep_fields :
    (names : List String) (k : String) (fs : Fields)
    → member k names ≡ true
    → find k (keep_fields names fs) ≡ find k fs
unfolding find
find-keep_fields names k end m = refl
find-keep_fields names k (field l v fs) m = elim (Bool-cases (l == k)) [
  | inl same ↦ rw ((eq_iff l k).0 same, m, (eq_iff k k).1 refl) refl
  | inr other ↦ elim (Bool-cases (member l names)) [
    | inl kept ↦ rw (kept, other) (find-keep_fields names k fs m)
    | inr left ↦ rw (left, other) (find-keep_fields names k fs m)
  ]
]

-- What is published of a permitted key that is not the volume's.
get-clean_facts :
    (a : Addresses) (facts : Value) (k : String) {clean : Fields}
    → clean_facts a facts ≡ ok clean
    → member k permitted ≡ true
    → ("data_volume" == k) ≡ false
    → get k (obj clean) ≡ get k facts
unfolding clean_facts
get-clean_facts a facts k {clean} h m other =
    let kept = keep_fields permitted (fields facts) in
    let same : get k (obj kept) ≡ get k facts =
      rw (find-keep_fields permitted k (fields facts) m) refl in
    elim (Bool-cases (has "data_volume" facts)) [
      | inl volume ↦
          let (v, _, done) = >>=-eq-ok (clean_volume a facts) _ (rw volume at h) in
          subst (λ c. get k (obj c) ≡ get k facts) (ok-injective done)
            (get_or-put-other k "data_volume" null v (obj kept) other ∙ same)
      | inr plain ↦ subst (λ c. get k (obj c) ≡ get k facts) (ok-injective (rw plain at h)) same
    ]

chosen_fields-KeysAmong :
    (names ks : List String) (v : Value)
    → All (λ k. member k names ≡ true) ks
    → KeysAmong names (chosen_fields ks v)
chosen_fields-KeysAmong names [] v h = tt
chosen_fields-KeysAmong names (k ∷ ks) v (m, h) = (m, chosen_fields-KeysAmong names ks v h)

clean_volume-KeysAmong :
    (a : Addresses) (facts : Value) {v : Value}
    → clean_volume a facts ≡ ok v
    → KeysAmong volume_keys (fields v)
unfolding clean_volume
clean_volume-KeysAmong a facts h =
    let volume = get "data_volume" facts in
    let (_, h1) =
      require-eq-ok (is_mapping volume && all (λ k. has k volume) volume_keys)
        "data volume identity is incomplete" _ h in
    let (_, h2) =
      >>-eq-ok
        (each
          (λ k.
            require (not (is_bool (get k volume)) && is_positive (get k volume))
              "invalid data volume numeric identity")
          ("volume_id" ∷ "linode_id" ∷ "size_gb" ∷ []))
        _ h1 in
    let (_, h3) =
      require-eq-ok (a.show (get "linode_id" volume) == a.show (get "instance_id" facts))
        "data volume belongs to another instance" _ h2 in
    let (_, h4) =
      require-eq-ok (eq (get "region" volume) (get "region" facts))
        "data volume region differs from instance" _ h3 in
    let (_, h5) =
      require-eq-ok (str_such is_volume_label (get "label" volume)) "invalid data volume label" _
        h4 in
    let (_, h6) =
      require-eq-ok (str_such is_device_path (get "filesystem_path" volume))
        "data volume requires a stable device path" _ h5 in
    subst (λ v. KeysAmong volume_keys (fields v)) (ok-injective h6)
      (chosen_fields-KeysAmong volume_keys volume_keys volume
        (refl, (refl, (refl, (refl, (refl, (refl, tt)))))))

find-absent : (k : String) (v : Value) → has k v ≡ false → find k (fields v) ≡ none
find-absent k v h = elim (Option-cases (find k (fields v))) [
  | inl missing ↦ missing
  | inr (w, there) ↦ absurd (let e = rw (there, has) at h in cc)
]

-- Of the volume, only what identifies it is published.
clean_facts-volume :
    (a : Addresses) (facts : Value) {clean : Fields}
    → clean_facts a facts ≡ ok clean
    → KeysAmong volume_keys (fields (get "data_volume" (obj clean)))
unfolding clean_facts
clean_facts-volume a facts {clean} h =
    let kept = keep_fields permitted (fields facts) in
    elim (Bool-cases (has "data_volume" facts)) [
      | inl volume ↦
          let (v, is_v, done) = >>=-eq-ok (clean_volume a facts) _ (rw volume at h) in
          subst (λ c. KeysAmong volume_keys (fields (get "data_volume" (obj c))))
            (ok-injective done)
            (rw (get_or-put "data_volume" null v kept) (clean_volume-KeysAmong a facts is_v))
      | inr plain ↦
          subst (λ c. KeysAmong volume_keys (fields (get "data_volume" (obj c))))
            (ok-injective (rw plain at h))
            (rw
              (
                find-keep_fields permitted "data_volume" (fields facts) refl,
                find-absent "data_volume" facts plain,
              )
              tt)
    ]

check_address-IsUsable :
    (a : Addresses) (facts : Value) (k : String)
    → check_address a facts k ≡ ok tt
    → IsUsable a (get k facts)
unfolding check_address
check_address-IsUsable a facts k h there =
    let checked = when-eq-ok (truthy (get k facts)) _ h there in
    let (address, is_address, h1) =
      >>=-eq-ok (elim (a.address (get k facts)) [ none ↦ err malformed | some x ↦ ok x ]) _
        checked in
    let usable = require-passed _ _ h1 in
    (
      address,
      lookup-eq-ok malformed (a.address (get k facts)) is_address,
      ground arith,
      ground arith,
      ground arith,
    )

sanitize_host-IsPublishable :
    (a : Addresses) (name : String) (given : Value) {host : Value}
    → sanitize_host a name given ≡ ok host
    → IsPublishable a given host
unfolding sanitize_host
sanitize_host-IsPublishable a name given h =
    let (_, h1) = require-eq-ok (is_name 252 name) "invalid inventory hostname" _ h in
    let (_, h2) = require-eq-ok (is_mapping given) "invalid inventory host" _ h1 in
    let (facts, is_facts, h3) = >>=-eq-ok (plain_ipv6 a given) _ h2 in
    let (addressed, h4) =
      >>-eq-ok (each (check_address a facts) ("ip" ∷ "private_ip" ∷ "ipv6" ∷ [])) _ h3 in
    let groups = get_or "groups" (arr nil) facts in
    let (names, _, h5) = >>=-eq-ok (iterated groups) _ h4 in
    let (_, h6) =
      require-eq-ok (all (str_such (is_name 126)) names) "invalid inventory group" _ h5 in
    let (clean, is_clean, h7) = >>=-eq-ok (clean_facts a facts) _ h6 in
    let variables = get_or "host_vars" (obj end) facts in
    let (_, h8) = >>-eq-ok (expect (is_mapping variables)) _ h7 in
    let kept = keep_fields (published groups) (fields variables) in
    let done : obj (set "host_vars" (obj kept) clean) ≡ _ = ok-injective h8 in
    let ready = each-eq-ok (check_address a facts) ("ip" ∷ "private_ip" ∷ "ipv6" ∷ []) addressed in
    let usable : (k : String)
        → member k permitted ≡ true
        → ("data_volume" == k) ≡ false
        → ("host_vars" == k) ≡ false
        → check_address a facts k ≡ ok tt
        → IsUsable a (get k (obj (set "host_vars" (obj kept) clean))) =
      λ k m other apart checked.
        subst (IsUsable a)
          (sym (
            get_or-put-other k "host_vars" null (obj kept) (obj clean) apart
            ∙ get-clean_facts a facts k is_clean m other))
          (check_address-IsUsable a facts k checked) in
    subst (IsPublishable a given) done (record {
      named = (
        usable "ip" refl refl refl ready.0,
        (
          usable "private_ip" refl refl refl ready.1.0,
          (usable "ipv6" refl refl refl ready.1.1.0, tt),
        ),
      );
      volume =
          subst (λ v. KeysAmong volume_keys (fields v))
            (sym (get_or-put-other "data_volume" "host_vars" null (obj kept) (obj clean) refl))
            (clean_facts-volume a facts is_clean);
      facts =
          set-KeysAmong ("host_vars" ∷ permitted) "host_vars" (obj kept) clean refl
            (weaken permitted "host_vars" (keys clean) (clean_facts-KeysAmong a facts is_clean));
      variables = rw (get_or-put "host_vars" null (obj kept) clean) (
          subst (λ g. KeysAmong (published g) kept) (plain_ipv6-groups a given is_facts)
            (keep_fields-KeysAmong (published groups) (fields variables)));
    })

-- The same hosts, each as it may be published.
abbrev pub ArePublishable : Addresses → Fields → Fields → Type 0
ArePublishable a end end = Unit
ArePublishable a end (field n host rest) = ⊥
ArePublishable a (field m given raw) end = ⊥
ArePublishable a (field m given raw) (field n host rest) =
    (m ≡ n) × IsPublishable a given host × ArePublishable a raw rest

sanitize_hosts-ArePublishable :
    (a : Addresses) (raw : Fields) {clean : Fields}
    → sanitize_hosts a raw ≡ ok clean
    → ArePublishable a raw clean
unfolding sanitize_hosts
sanitize_hosts-ArePublishable a end h = subst (ArePublishable a end) (ok-injective h) tt
sanitize_hosts-ArePublishable a (field name given rest) h =
    let (host, here, h1) = >>=-eq-ok (sanitize_host a name given) _ h in
    let (others, there, h2) = >>=-eq-ok (sanitize_hosts a rest) _ h1 in
    subst (ArePublishable a (field name given rest)) (ok-injective h2) (
      refl,
      sanitize_host-IsPublishable a name given here,
      sanitize_hosts-ArePublishable a rest there,
    )

-- A published inventory has the hosts of the raw one, in their order. Of a host it holds only the
-- permitted facts, of its data volume only the keys that identify it, and only the permitted
-- variables, those of the K3s platform in the group dev alone. Its addresses that are not empty can
-- be read and are neither unspecified nor of the loopback nor multicast.
pub sanitize_inventory-ArePublishable :
    (a : Addresses) (raw clean : Value)
    → sanitize_inventory a raw ≡ ok clean
    → ArePublishable a (fields raw) (fields clean)
unfolding sanitize_inventory
sanitize_inventory-ArePublishable a raw clean h =
    let (_, h1) = require-eq-ok (is_mapping raw) "inventory must be a mapping" _ h in
    let (hosts, are_hosts, h2) = >>=-eq-ok (sanitize_hosts a (fields raw)) _ h1 in
    subst (λ c. ArePublishable a (fields raw) (fields c)) (ok-injective h2)
      (sanitize_hosts-ArePublishable a (fields raw) are_hosts)
