-- ===== src/Evidence/Summary/Laws.antt =====
-- On `verify_summary` of scripts/pipeline/unified/evidence.py.
use iac_modules.Common.{
  String, ◌≡◌, sym, subst, Bool, true, false, not, ◌&&◌, ◌||◌, none, some, List, [], ◌∷◌, all, All,
  All-of_all, All-map, when-eq-ok, ◌==◌, ◌+++◌, eq_iff, arith, ok, err, malformed, refused, require,
  expect, each, >>=-eq-ok, require-eq-ok, >>-eq-ok, require-passed, each-eq-ok, lookup-eq-ok,
  ok-injective,
}
use iac_modules.Json.{
  Value, texts, obj, remove, at, get, eq, is_text, is_list, members, fields, text_value, truthy,
  has,
}
use iac_modules.Json.Laws.{at-eq-ok}
use iac_modules.Contracts.Prepare.{selected_stages}
use iac_modules.Evidence.Receipts.{Key, last_of, key_of_receipt, verify_receipt}
use iac_modules.Evidence.Receipts.Laws.{IsProven, verify_receipt-IsProven}
use iac_modules.Evidence.Summary.{
  Published, Expectation, bindings, has_seen, verify_entry, verify_entries, verify_inventory,
  check_summary, summary_owes, operation_result, expected_matrix, verify_summary,
}

-- A receipt that a stage of the run owes, and that proves it.
abbrev pub IsOwedBy : Value → List (Key × Value) → Value → Type 0
IsOwedBy context expected receipt =
    (target : Value) × (last_of (key_of_receipt receipt) expected ≡ some target)
    × IsProven context target (key_of_receipt receipt).1 receipt

abbrev pub has_receipt : Key → List Value → Bool
has_receipt k [] = false
has_receipt k (r ∷ rs) =
    (k.0 == (key_of_receipt r).0 && k.1 == (key_of_receipt r).1) || has_receipt k rs

verify_entry-proves :
    (context : Value) (expected : List (Key × Value)) (seen : List Key) (receipt : Value)
    {more : List Key}
    → verify_entry context expected seen receipt ≡ ok more
    → IsOwedBy context expected receipt × (key_of_receipt receipt ∷ seen ≡ more)
unfolding verify_entry
verify_entry-proves context expected seen receipt h =
    let key = key_of_receipt receipt in
    let raised = refused "unexpected/duplicate aggregate receipt" in
    let (target, is_target, h1) =
      >>=-eq-ok (elim (last_of key expected) [ none ↦ err raised | some t ↦ ok t ]) _ h in
    let (_, h2) =
      require-eq-ok (not (has_seen key seen)) "unexpected/duplicate aggregate receipt" _ h1 in
    let (verified, is_verified, h3) =
      >>=-eq-ok (verify_receipt context target key.1 receipt) _ h2 in
    (
      (
        target,
        lookup-eq-ok raised (last_of key expected) is_target,
        verify_receipt-IsProven context target key.1 receipt verified is_verified,
      ),
      ok-injective h3,
    )

verify_entries-prove :
    (context : Value) (expected : List (Key × Value)) (receipts : List Value) (seen : List Key)
    {all : List Key}
    → verify_entries context expected receipts seen ≡ ok all
    → All (IsOwedBy context expected) receipts
      × ((k : Key) → has_seen k all ≡ true → (has_receipt k receipts || has_seen k seen) ≡ true)
unfolding verify_entries
verify_entries-prove context expected [] seen h =
    (tt, λ k found. subst (λ a. has_seen k a ≡ true) (sym (ok-injective h)) found)
verify_entries-prove context expected (receipt ∷ rest) seen h =
    let (more, here, h1) = >>=-eq-ok (verify_entry context expected seen receipt) _ h in
    let (owed, grown) = verify_entry-proves context expected seen receipt here in
    let (others, found) = verify_entries-prove context expected rest more h1 in
    (
      (owed, others),
      λ k seen_k.
          let later =
            subst (λ m. (has_receipt k rest || has_seen k m) ≡ true) (sym grown) (found k seen_k) in
          ground arith,
    )

-- A receipt that names an inventory by its digest stands beside an inventory of its target with
-- that digest.
abbrev pub IsInventoried : Published → Value → Type 0
IsInventoried p receipt =
    truthy (get "inventory_sha256" receipt) ≡ true
    → (has (text_value (get "target_id" receipt)) p.inventories ≡ true)
      × (is_text (p.file_sha256 (get (text_value (get "target_id" receipt)) p.inventories))
            (get "inventory_sha256" receipt)
          ≡ true)

verify_inventory-IsInventoried :
    (p : Published) (receipt : Value) → verify_inventory p receipt ≡ ok tt → IsInventoried p receipt
unfolding verify_inventory
verify_inventory-IsInventoried p receipt h =
    let (named, at_named, h1) = >>=-eq-ok (at "inventory_sha256" receipt) _ h in
    let target = text_value (get "target_id" receipt) in
    rw (at-eq-ok "inventory_sha256" receipt at_named) λ there.
      let checked = when-eq-ok (truthy named) _ h1 there in
      let (found, h2) =
        require-eq-ok (has target p.inventories) "missing aggregate inventory" _ checked in
      (found, require-passed _ _ h2)

-- What an accepted summary says.
pub record IsComplete (p : Published) (e : Expectation) (context : Value) : Type 0 where
  pub checksum : p.digest ≡ e.checksum
  pub bound : All (λ (b : String × String). is_text b.1 (get b.0 context) ≡ true) (bindings e)
  pub expected : List (Key × Value)
  pub owes : summary_owes context e.action ≡ ok expected
  pub proven : All (IsOwedBy context expected) (members (get "receipts" p.summary))
  pub complete :
      All
        (λ (k : Key × Value). has_receipt k.0 (members (get "receipts" p.summary)) ≡ true)
        expected
  pub inventoried : All (IsInventoried p) (members (get "receipts" p.summary))
  pub hosts : eq (get "deploy_matrix" p.summary) (expected_matrix p.inventories) ≡ true

check_summary-bound :
    (p : Published) (e : Expectation) (context : Value)
    → check_summary p e context ≡ ok tt
    → (p.digest ≡ e.checksum)
      × All (λ (b : String × String). is_text b.1 (get b.0 context) ≡ true) (bindings e)
unfolding check_summary
check_summary-bound p e context h =
    let (same, h1) = require-eq-ok (p.digest == e.checksum) "summary checksum mismatch" _ h in
    let (digest, _, h2) = >>=-eq-ok (at "contract_sha256" context) _ h1 in
    let (_, h3) =
      require-eq-ok
        (is_text (p.json_sha256 (obj (remove "contract_sha256" (fields context)))) digest)
        "aggregate contract digest mismatch" _ h2 in
    let (scope, _, h4) = >>=-eq-ok (at "stage_scope" context) _ h3 in
    let (named, _, h5) = >>=-eq-ok (at "stages" context) _ h4 in
    let (_, h6) =
      require-eq-ok (eq named (texts (selected_stages e.action (text_value scope))))
        "aggregate stage scope mismatch" _ h5 in
    (
      (eq_iff p.digest e.checksum).0 same,
      passed (bindings e) (
          each-eq-ok
            (λ (b : String × String).
              require (is_text b.1 (get b.0 context)) ("summary binding mismatch: " +++ b.0))
            (bindings e) h6),
    )
  where
    passed :
        (bs : List (String × String))
        → All
            (λ (b : String × String).
              require (is_text b.1 (get b.0 context)) ("summary binding mismatch: " +++ b.0)
              ≡ ok tt)
            bs
        → All (λ (b : String × String). is_text b.1 (get b.0 context) ≡ true) bs
    passed [] h = tt
    passed (b ∷ bs) (here, later) = (require-passed _ _ here, passed bs later)

complete_of :
    (receipts : List Value) (seen : List Key) (expected : List (Key × Value))
    → ((k : Key) → has_seen k seen ≡ true → (has_receipt k receipts || false) ≡ true)
    → All (λ (k : Key × Value). has_seen k.0 seen ≡ true) expected
    → All (λ (k : Key × Value). has_receipt k.0 receipts ≡ true) expected
complete_of receipts seen [] found h = tt
complete_of receipts seen (k ∷ ks) found (here, later) =
    (let there = found k.0 here in ground arith, complete_of receipts seen ks found later)

-- An accepted summary has the checksum and the run that the caller names. Each of its receipts is
-- owed by the run and proves its stage, no stage of any target is without one, a receipt that names
-- an inventory stands beside one of its target with that digest, and the hosts are those of the
-- inventories.
pub verify_summary-IsComplete :
    (p : Published) (e : Expectation) (summary : Value)
    → verify_summary p e ≡ ok summary
    → (summary ≡ p.summary) × IsComplete p e (get "context" p.summary)
unfolding verify_summary
verify_summary-IsComplete p e summary h =
    let (context, at_context, h1) = >>=-eq-ok (at "context" p.summary) _ h in
    let (checked, h2) = >>-eq-ok (check_summary p e context) _ h1 in
    let (expected, owes, h3) = >>=-eq-ok (summary_owes context e.action) _ h2 in
    let (receipts, at_receipts, h4) = >>=-eq-ok (at "receipts" p.summary) _ h3 in
    let (_, h5) = >>-eq-ok (expect (is_list receipts)) _ h4 in
    let (seen, verified, h6) =
      >>=-eq-ok (verify_entries context expected (members receipts) []) _ h5 in
    let (complete, h7) =
      require-eq-ok (all (λ (k : Key × Value). has_seen k.0 seen) expected)
        "incomplete aggregate receipts" _ h6 in
    let (wanted, _, h8) =
      >>=-eq-ok (elim (operation_result e.action) [ none ↦ err malformed | some r ↦ ok r ]) _ h7 in
    let (result, _, h9) = >>=-eq-ok (at "result" p.summary) _ h8 in
    let (_, h10) = require-eq-ok (is_text wanted result) "wrong operation result" _ h9 in
    let (inventoried, h11) = >>-eq-ok (each (verify_inventory p) (members receipts)) _ h10 in
    let (hosts, at_hosts, h12) = >>=-eq-ok (at "deploy_matrix" p.summary) _ h11 in
    let (same, h13) =
      require-eq-ok (eq hosts (expected_matrix p.inventories))
        "deploy matrix differs from verified inventory" _ h12 in
    let (checksum, bound) = check_summary-bound p e context checked in
    let (proven, found) = verify_entries-prove context expected (members receipts) [] verified in
    (
      sym (ok-injective h13),
      rw (at-eq-ok "context" p.summary at_context) (record {
        checksum = checksum;
        bound = bound;
        expected = expected;
        owes = owes;
        proven = rw (at-eq-ok "receipts" p.summary at_receipts) proven;
        complete = rw (at-eq-ok "receipts" p.summary at_receipts) (
            complete_of (members receipts) seen expected found
              (All-of_all (λ (k : Key × Value). has_seen k.0 seen) expected complete));
        inventoried = rw (at-eq-ok "receipts" p.summary at_receipts) (
            All-map _ (IsInventoried p) (members receipts) (verify_inventory-IsInventoried p)
              (each-eq-ok (verify_inventory p) (members receipts) inventoried));
        hosts = rw (at-eq-ok "deploy_matrix" p.summary at_hosts) same;
      }),
    )
