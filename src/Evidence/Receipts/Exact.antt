-- ===== src/Evidence/Receipts/Exact.antt =====
-- On `collect` of scripts/pipeline/unified/evidence.py.
use iac_modules.Common.{
  String, ◌≡◌, refl, ap, subst, true, false, not, ◌||◌, Option, none, some, List, [], ◌∷◌, ◌++◌,
  All, All-append, All-of_all, eq_iff, arith, not-eq-true, ok, err, refused, >>=-eq-ok,
  require-eq-ok, >>-eq-ok, ok-injective,
}
use iac_modules.Json.{Value, at, members}
use iac_modules.Evidence.Receipts.{
  verify_receipt, ReceiptFile, Key, same_key, has_key, last_of, expected_of, Found, key_of_receipt,
  check_inventory, collect_file, collect_files, all_found, collect_receipts,
}
use iac_modules.Evidence.Receipts.Laws.{IsProven, verify_receipt-IsProven}

-- No key stands twice.
abbrev pub DistinctKeys : Found → Type 0
DistinctKeys [] = Unit
DistinctKeys (p ∷ ps) = (has_key p.0 ps ≡ false) × DistinctKeys ps

has_key-append : (k : Key) (xs ys : Found) → has_key k (xs ++ ys) ≡ (has_key k xs || has_key k ys)
has_key-append k [] ys = refl
has_key-append k (x ∷ xs) ys = ground (arith, has_key-append k xs ys)

same_key_sym : (a b : Key) → same_key a b ≡ false → same_key b a ≡ false
same_key_sym (a, s) (b, t) h = ground (arith, eq_iff a b, eq_iff b a, eq_iff s t, eq_iff t s)

DistinctKeys-append :
    (found : Found) (k : Key) (file : ReceiptFile)
    → DistinctKeys found
    → has_key k found ≡ false
    → DistinctKeys (found ++ (k, file) ∷ [])
DistinctKeys-append [] k file d new = (refl, tt)
DistinctKeys-append (p ∷ ps) k file (first, d) new =
    let other : same_key p.0 k ≡ false = same_key_sym k p.0 (ground arith) in
    (
      rw (has_key-append p.0 ps ((k, file) ∷ [])) (rw first (rw other refl)),
      DistinctKeys-append ps k file d (ground arith),
    )

-- A receipt that its stage was owed, and that proves it.
abbrev pub IsOwed : Value → List (Key × Value) → Key × ReceiptFile → Type 0
IsOwed context expected (key, file) =
    (target : Value) × (last_of key expected ≡ some target)
    × IsProven context target key.1 file.receipt

-- What the loop over the files keeps.
pub record IsSound (context : Value) (expected : List (Key × Value)) (found : Found) : Type 0 where
  pub owed : All (IsOwed context expected) found
  pub distinct : DistinctKeys found

owed_by :
    (message : String) (o : Option Value) {t : Value}
    → elim o [ none ↦ err (refused message) | some t ↦ ok t ] ≡ ok t
    → o ≡ some t
owed_by message none h = cc
owed_by message (some t) h = ap some (ok-injective h)

collect_file-IsSound :
    (context : Value) (expected : List (Key × Value)) (found : Found) (file : ReceiptFile)
    {grown : Found}
    → collect_file context expected found file ≡ ok grown
    → IsSound context expected found
    → IsSound context expected grown
unfolding collect_file
collect_file-IsSound context expected found file h s =
    let key = key_of_receipt file.receipt in
    let (target, is_target, h1) =
      >>=-eq-ok
        (elim (last_of key expected) [
          | none ↦ err (refused "unexpected receipt target/stage")
          | some t ↦ ok t
        ])
        _ h in
    let (new, h2) = require-eq-ok (not (has_key key found)) "duplicate receipt" _ h1 in
    let (verified, is_verified, h3) =
      >>=-eq-ok (verify_receipt context target key.1 file.receipt) _ h2 in
    let (_, h4) = >>-eq-ok (check_inventory file) _ h3 in
    subst (IsSound context expected) (ok-injective h4) (record {
      owed = All-append (IsOwed context expected) found _ s.owed (
        (
          target,
          owed_by _ (last_of key expected) is_target,
          verify_receipt-IsProven context target key.1 file.receipt verified is_verified,
        ),
        tt,
      );
      distinct = DistinctKeys-append found key file s.distinct (not-eq-true _ new);
    })

collect_files-IsSound :
    (context : Value) (expected : List (Key × Value)) (files : List ReceiptFile) (found : Found)
    {all : Found}
    → collect_files context expected files found ≡ ok all
    → IsSound context expected found
    → IsSound context expected all
unfolding collect_files
collect_files-IsSound context expected [] found h s =
    subst (IsSound context expected) (ok-injective h) s
collect_files-IsSound context expected (file ∷ rest) found h s =
    let (grown, here, h1) = >>=-eq-ok (collect_file context expected found file) _ h in
    collect_files-IsSound context expected rest grown h1
      (collect_file-IsSound context expected found file here s)

-- The receipts that are collected are exactly the owed ones: each belongs to a target and a stage of
-- the run and proves it, none stands for a stage twice, and no stage of any target is without one.
pub collect_receipts-IsExact :
    (context : Value) (files : List ReceiptFile) (stages : List String) (found : Found)
    → collect_receipts context files stages ≡ ok found
    → (targets : Value) × (expected : List (Key × Value)) × (at "targets" context ≡ ok targets)
      × (expected_of (members targets) stages ≡ ok expected)
      × IsSound context expected found
      × All (λ (p : Key × Value). has_key p.0 found ≡ true) expected
unfolding collect_receipts
collect_receipts-IsExact context files stages found h =
    let (targets, is_targets, h1) = >>=-eq-ok (at "targets" context) _ h in
    let (_, h2) = >>-eq-ok _ _ h1 in
    let (expected, is_expected, h3) = >>=-eq-ok (expected_of (members targets) stages) _ h2 in
    let (all, collected, h4) = >>=-eq-ok (collect_files context expected files []) _ h3 in
    let (complete, h5) = require-eq-ok (all_found expected all) "missing receipts" _ h4 in
    let same : all ≡ found = ok-injective h5 in
    (
      targets,
      expected,
      is_targets,
      is_expected,
      subst (IsSound context expected) same (
          collect_files-IsSound context expected files [] collected
            (record { owed = tt; distinct = tt })),
      All-of_all (λ (p : Key × Value). has_key p.0 found) expected
          (subst (λ f. all_found expected f ≡ true) same complete),
    )
