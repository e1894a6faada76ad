-- ===== src/Preflight/Inspect/BackedUp.antt =====
-- On what `inspect_legacy_object_versions`, of scripts/akamai_state_preflight.py, says of a backup.
mod Tests
use iac_modules.Common.{
  ℕ, suc, ◌∙◌, sorted, insert, ◌≤◌, String, ◌≡◌, refl, sym, ap, subst, Bool, true, false, not, ◌&&◌,
  ◌||◌, ◌⊎◌, inl, inr, ◌-◌, or_cases, Bool-cases, and-eq-true, eq_iff, Option, Option-cases, none,
  some, List, [], ◌∷◌, any, ltb, length, ◌==◌, arith, Dict, Result, ok, err, refused, ok-injective,
  >>=-eq-ok, >>-eq-ok, expect, if◌then◌else◌,
}
use iac_modules.Common.Steps.{Went, >>=-Went, check-passed, lift-passed}
use iac_modules.Json.{
  ℤ, arr, nil, get_or, eq, Value, bool, int, str, get, find, is_true, int_eq, is_mapping, pos,
  negsuc,
}
use iac_modules.Preflight.Versions.{
  versions_in, entries_of, version_leb, Readers, Version, Archive, current_of, is_versioned,
  is_backed_up, current_value, previous_count, version_value, read_versions, read_archive,
  no_archive, archive_key, unavailable, inventory, int_in, text_in, unquoted,
}
use iac_modules.Preflight.Inspect.{
  Aws, Output, is_zero, is_not_found, request, aws_environment, has_credentials, aws_readonly,
  archive_in, find_archive, inspect_listed, inspect_legacy_object_versions,
}

int_eq-eq : (m n : ℤ) → int_eq m n ≡ true → m ≡ n
int_eq-eq (pos m) (pos n) h = ap pos (ground arith)
int_eq-eq (negsuc m) (negsuc n) h = ap negsuc (ground arith)
int_eq-eq (pos m) (negsuc n) h = absurd (cc)
int_eq-eq (negsuc m) (pos n) h = absurd (cc)

-- The number of entries of a listing that are of the key.
abbrev pub count_entries : String → List Value → ℕ
count_entries key [] = 0
count_entries key (v ∷ vs) =
    let rest = count_entries key vs in if eq (get "Key" v) (str key) then suc rest else rest

length-insert :
    (v : Version) (vs : List Version) → length (insert version_leb v vs) ≡ suc (length vs)
length-insert v [] = refl
length-insert v (u ∷ vs) = elim (Bool-cases (version_leb v u)) [
  | inl before ↦ rw before refl
  | inr after ↦ let rest = length-insert v vs in rw after (omega arith)
]

length-sorted : (vs : List Version) → length (sorted version_leb vs) ≡ length vs
length-sorted [] = refl
length-sorted (v ∷ vs) =
    let rest = length-sorted vs in length-insert v (sorted version_leb vs) ∙ ap (λ n. suc n) rest

length-versions_in :
    (r : Readers) (key : String) (vs : List Value) {versions : List Version}
    → versions_in r key vs ≡ ok versions
    → length versions ≡ count_entries key vs
unfolding versions_in
length-versions_in r key [] h = ap length (sym (ok-injective h))
length-versions_in r key (v ∷ vs) {versions} h =
    let (_, h1) = >>-eq-ok (expect (is_mapping v)) _ h in
    elim (Bool-cases (eq (get "Key" v) (str key))) [
      | inl here ↦
          let h2 = rw here at h1 in
          let (size, _, h3) = >>=-eq-ok (int_in r "Size" (pos 0) v) _ h2 in
          let (others, later, h4) = >>=-eq-ok (versions_in r key vs) _ h3 in
          let rest = length-versions_in r key vs later in
          rw here (ap length (sym (ok-injective h4)) ∙ ap (λ n. suc n) rest)
      | inr other ↦ rw other (length-versions_in r key vs (rw other at h1))
    ]

length-read_versions :
    (r : Readers) (key : String) (payload : Value) {versions : List Version}
    → read_versions r key payload ≡ ok versions
    → (entries : List Value) × (entries_of (get_or "Versions" (arr nil) payload) ≡ ok entries)
      × (length versions ≡ count_entries key entries)
unfolding read_versions
length-read_versions r key payload h =
    let (_, h1) = >>-eq-ok (expect (is_mapping payload)) _ h in
    let (entries, given, h2) = >>=-eq-ok (entries_of (get_or "Versions" (arr nil) payload)) _ h1 in
    let (found, is_found, h3) = >>=-eq-ok (versions_in r key entries) _ h2 in
    (
      entries,
      given,
      ap length (sym (ok-injective h3))
          ∙ length-sorted found
          ∙ length-versions_in r key entries is_found,
    )

-- The headers of an object agree with a version.
abbrev pub Agree : Readers → Version → Value → Type 0
Agree r current metadata =
    (int_in r "ContentLength" (negsuc 0) metadata ≡ ok current.size)
    × (unquoted (text_in r "ETag" metadata) ≡ current.etag)

read_archive-Agree :
    (r : Readers) (current : Version) (metadata : Value) {archive : Archive}
    → read_archive r current metadata ≡ ok archive
    → archive.is_match ≡ true
    → Agree r current metadata
unfolding read_archive
read_archive-Agree r current metadata h e =
    let (_, h1) = >>-eq-ok (expect (is_mapping metadata)) _ h in
    let (size, _, h2) = >>=-eq-ok (int_in r "ContentLength" (pos 0) metadata) _ h1 in
    let (given, is_given, h3) = >>=-eq-ok (int_in r "ContentLength" (negsuc 0) metadata) _ h2 in
    let etag = unquoted (text_in r "ETag" metadata) in
    let (sizes, etags) =
      and-eq-true (int_eq given current.size) (etag == current.etag)
        (subst (λ (a : Archive). a.is_match ≡ true) (sym (ok-injective h3)) e) in
    (
      subst (λ n. int_in r "ContentLength" (negsuc 0) metadata ≡ ok n)
          (int_eq-eq given current.size sizes) is_given,
      (eq_iff etag current.etag).0 etags,
    )

satisfied :
    (versions : List Version) (archive : Archive)
    → is_backed_up versions archive ≡ true
    → (c : Version) × (current_of versions ≡ some c)
      × (is_versioned c ≡ true)
      × ((ltb 1 (length versions) || archive.is_match) ≡ true)
satisfied versions archive h =
    let (_, rest) = and-eq-true (any is_versioned versions) _ h in
    elim (Option-cases (current_of versions)) [
      | inl nothing ↦ absurd (let e = rw nothing at rest in cc)
      | inr (c, is_c) ↦
          let (versioned, more) = and-eq-true (is_versioned c) _ (rw is_c at rest) in
          (c, is_c, versioned, more)
    ]

not_satisfied :
    (key reason : String) {report : Value}
    → ok (unavailable key reason) ≡ ok report
    → is_true (get "backup_prerequisite_satisfied" report) ≡ true
    → ⊥
unfolding find
not_satisfied key reason h e =
    let never : false ≡ true =
      subst (λ v. is_true (get "backup_prerequisite_satisfied" v) ≡ true) (sym (ok-injective h))
        e in
    cc

module _ {W : Type 0} (a : Aws W) (key : String) (env : Dict String) where
  -- The archive object is there, and its headers agree with the version.
  pub record IsCopied (current : Version) : Type 0 where
    pub before : W
    pub after : W
    pub head : Output
    pub asked :
        aws_readonly a
          (request env "head-object" "--key" (archive_key key))
          (aws_environment env)
          before
        ≡ (ok head, after)
    pub found : is_zero head.returncode ≡ true
    pub metadata : Value
    pub held : head.stdout ≡ some metadata
    pub agrees : Agree a.readers current metadata

  archive_in-Agree :
      (current : Version) (head : Output) (w : W) {archive : Archive} {end : W}
      → archive_in a current head w ≡ (ok archive, end)
      → archive.is_match ≡ true
      → (is_zero head.returncode ≡ true)
        × ((metadata : Value) × (head.stdout ≡ some metadata) × Agree a.readers current metadata)
  unfolding archive_in
  archive_in-Agree current head w {archive} h e = elim (Bool-cases (is_zero head.returncode)) [
    | inl found ↦ elim (Option-cases head.stdout) [
      | inl nothing ↦ absurd (let raised = rw (found, nothing) at h in cc)
      | inr (metadata, there) ↦ (
        found,
        (
          metadata,
          there,
          read_archive-Agree a.readers current metadata
              (ap (λ (p : Result Archive × W). p.0) (rw (found, there) at h)) e,
        ),
      )
    ]
    | inr failed ↦ absurd (
        let same : no_archive (if is_not_found head.stderr then "available" else "unavailable")
            ≡ archive =
          ok-injective (ap (λ (p : Result Archive × W). p.0) (rw failed at h)) in
        let never : false ≡ archive.is_match = ap (λ (x : Archive). x.is_match) same in cc)
  ]

  find_archive-IsCopied :
      (current : Version) (w : W) {archive : Archive} {end : W}
      → find_archive a key env (some current) w ≡ (ok archive, end)
      → archive.is_match ≡ true
      → IsCopied current
  unfolding find_archive
  find_archive-IsCopied current w h e =
      let went =
        >>=-Went
          (aws_readonly a (request env "head-object" "--key" (archive_key key))
            (aws_environment env))
          (archive_in a current) w h in
      let (found, (metadata, held, agrees)) =
        archive_in-Agree current went.value went.mid went.rest e in
      record {
        before = w;
        after = went.mid;
        head = went.value;
        asked = went.first;
        found = found;
        metadata = metadata;
        held = held;
        agrees = agrees;
      }

  -- A listing of versions, of which the current one has an id, and of which there are several or the
  -- archive agrees with the current one.
  pub record IsKept (payload report : Value) : Type 0 where
    pub entries : List Value
    pub listed : entries_of (get_or "Versions" (arr nil) payload) ≡ ok entries
    pub versions : List Version
    pub read : read_versions a.readers key payload ≡ ok versions
    pub current : Version
    pub is_current : current_of versions ≡ some current
    pub shown : get "current_version" report ≡ version_value current
    pub versioned : is_versioned current ≡ true
    pub kept : (2 ≤ count_entries key entries) ⊎ IsCopied current

  inspect_listed-IsKept :
      (payload : Value) (w : W) {report : Value} {end : W}
      → inspect_listed a key env payload w ≡ (ok report, end)
      → is_true (get "backup_prerequisite_satisfied" report) ≡ true
      → IsKept payload report
  unfolding inspect_listed find
  inspect_listed-IsKept payload w {report} h e =
      let (versions, is_read, h1) = lift-passed (read_versions a.readers key payload) _ w h in
      let went = >>=-Went (find_archive a key env (current_of versions)) _ w h1 in
      let same : inventory key versions went.value ≡ report =
        ok-injective (ap (λ (p : Result Value × W). p.0) went.rest) in
      let (c, is_c, versioned, more) =
        satisfied versions went.value
          (subst (λ v. is_true (get "backup_prerequisite_satisfied" v) ≡ true) (sym same) e) in
      let (entries, listed, counted) = length-read_versions a.readers key payload is_read in
      record {
        entries = entries;
        listed = listed;
        versions = versions;
        read = is_read;
        current = c;
        is_current = is_c;
        shown = subst (λ v. get "current_version" v ≡ version_value c) same (ap current_value is_c);
        versioned = versioned;
        kept = elim (or_cases (ltb 1 (length versions)) went.value.is_match more) [
          | inl several ↦ inl (several_entries (length versions) several counted)
          | inr match ↦ inr (find_archive-IsCopied c w (rw is_c at went.first) match)
        ];
      }
    where
      several_entries : (n : ℕ) {k : ℕ} → ltb 1 n ≡ true → n ≡ k → 2 ≤ k
      several_entries n h e = ground arith

  -- What the command answered, and what is kept by it.
  pub record IsBackedUp (start : W) (report : Value) : Type 0 where
    pub result : Output
    pub mid : W
    pub asked :
        aws_readonly a
          (request env "list-object-versions" "--prefix" key)
          (aws_environment env)
          start
        ≡ (ok result, mid)
    pub found : is_zero result.returncode ≡ true
    pub listing : Value
    pub held : result.stdout ≡ some listing
    pub is_kept : IsKept listing report

  -- Where the report says that the prerequisite of a backup is met, the versions were listed. The
  -- report's current version is the current one of the listing and has an id, and the listing has two
  -- entries or more of the key, or the archive object is there and its headers give the length and the
  -- ETag of the current version.
  pub inspect_legacy_object_versions-IsBackedUp :
      (w : W) {report : Value} {end : W}
      → inspect_legacy_object_versions a key env w ≡ (ok report, end)
      → is_true (get "backup_prerequisite_satisfied" report) ≡ true
      → IsBackedUp w report
  unfolding inspect_legacy_object_versions
  inspect_legacy_object_versions-IsBackedUp w {report} h e =
      let (_, h1) = check-passed (has_credentials env) _ _ w h in
      let went =
        >>=-Went
          (aws_readonly a (request env "list-object-versions" "--prefix" key) (aws_environment env))
          _ w h1 in
      let result = went.value in
      elim (Bool-cases (is_zero result.returncode)) [
        | inr failed ↦ absurd (
            not_satisfied key "read_failed"
              (ap (λ (p : Result Value × W). p.0) (rw failed at went.rest)) e)
        | inl listed ↦ elim (Option-cases result.stdout) [
          | inl nothing ↦ absurd (
              not_satisfied key "invalid_response"
                (ap (λ (p : Result Value × W). p.0) (rw (listed, nothing) at went.rest)) e)
          | inr (payload, there) ↦ record {
            result = result;
            mid = went.mid;
            asked = went.first;
            found = listed;
            listing = payload;
            held = there;
            is_kept = inspect_listed-IsKept payload went.mid (rw (listed, there) at went.rest) e;
          }
        ]
      ]
