-- ===== src/CompletenessStore/Tests.antt =====
-- Two scans and a certificate of one thread, and the theorems at them.
use discord_context_bridge.Capture.ParallelCloseout.Evidence.{
  add_items, add_shard, add_shards, canonical_bindings, has_ready, valid_receipt_of,
  load_commit_ledger, has_ledger, has_hashes, is_without_text, valid_drain, drain_receipts,
  producer_drains_sha256, valid_stop, run_quiescence_blocker,
}
use discord_context_bridge.Capture.ParallelCloseout.{
  shard_counts, expected_worker_names, definition_fields, run_definition_sha256, legacy_index,
  valid_ready, ledger_matches_receipt, valid_receipt as run_receipt,
}
use discord_context_bridge.Capture.Reconcile.{same_set, is_subset}
use discord_context_bridge.Capture.ParallelCloseout.Example.{hashed, run_dir}
use discord_context_bridge.CompletenessStore.Accepted.{Covered, from_store-Covered}
use discord_context_bridge.CompletenessStore.Reachable.{
  Reachable-IsValid, certificate_recorded, scan_recorded, initialized, Reachable,
}
use discord_context_bridge.CompletenessStore.Bindings.{IsValid}
use discord_context_bridge.CompletenessStore.Closeout.{parent_blocker-audit_parent}
use discord_context_bridge.CompletenessStore.Verified.{
  latest_scans, insert_scan, by_recency, stored_scope_receipts, rows_reconciled, verified,
  scan_complete, digest_match,
}
use discord_context_bridge.CompletenessStore.Recorded.{ReadBack, record_inventory_scan-verified}
use discord_context_bridge.CompletenessStore.Retiring.{retirement_due, certificate_of-audit_parent}
use discord_context_bridge.CompletenessStore.Complete.{FullScans}
use discord_context_bridge.CompletenessStore.Unreachable.{
  HexDigests, untested, normalize_receipt-untested,
}
use discord_context_bridge.CompletenessStore.ScopeReceipts.{
  normalize_receipt, keep_receipt, Normalized, valid_receipt, thread_ids, authorization_confirmed,
  normalized_fields, normalize_each, normalize_scope_receipts,
}
use discord_context_bridge.CompletenessStore.Audit.{
  certificate_of, kept_certificates, retired_rows, retire_absent_certificates, latest_of,
  latest_facts, facts_of, scan_checks, strict_full, children_checks, full_children, audit_checks,
}
use discord_context_bridge.CompletenessStore.ParentCertificate.{
  audit_parent, parent_certificate, inventory_fields, count_fields, certificate_fields, audit_of,
}
use discord_context_bridge.Capture.ParallelCloseout.Evaluation.{
  parent_blocker, full_closed, evaluate_run, evaluate_legacy_parallel_run_from_store, run_metadata,
  parent_target_key_digest, parent_blockers, counts_of_items, item_checks, close, evaluate_items,
  evaluate_with,
}
use discord_context_bridge.CompletenessStore.Recording.{
  record_child_certificate, record_inventory_scan, Inventory, canonical_evidence, legacy_evidence,
  evidence_of, scan_row, with_scan, count_of, certificate_row, upsert, with_certificate,
}
use discord_context_bridge.CompletenessStore.{
  Store, Scan, Host, required_scopes, empty_store, ℕ, StoreError, duplicate_scan, capture_id_bound,
  scopes_of_kind, scope_route, digest_ids, digest, sorted_set,
}
use discord_context_bridge.Shared.{
  true, false, none, some, [], ◌∷◌, ok, err, str, bool, null, int, obj, arr, end, field, nil, cons,
  pos, List, String, Runtime, is_sha256, Fields, Result, Items, ◌≡◌, ℕ, length, if◌then◌else◌, ltb,
  ◌↔◌, refl, ◌>>=◌, digest, frame, decimal, sorted_set, insert_text, is_space, left_strip,
  right_strip, strip, replace_z, normalized_time, Collision, ◌⊎◌,
}

program : Unit {0}
unfolding required_scopes scopes_of_kind scope_route digest_ids digest frame decimal sorted_set
    insert_text is_sha256 is_space left_strip right_strip strip valid_receipt thread_ids
    authorization_confirmed normalized_fields keep_receipt normalize_receipt normalize_each
    normalize_scope_receipts canonical_evidence legacy_evidence evidence_of scan_row with_scan
    record_inventory_scan count_of certificate_row upsert with_certificate record_child_certificate
    insert_scan by_recency latest_scans stored_scope_receipts rows_reconciled verified scan_complete
    digest_match kept_certificates retired_rows retire_absent_certificates latest_of latest_facts
    facts_of scan_checks strict_full certificate_of children_checks full_children audit_checks
    inventory_fields count_fields certificate_fields audit_of audit_parent parent_certificate
    parent_blocker replace_z normalized_time
program = tt

abbrev zeros : String
zeros = "0000000000000000000000000000000000000000000000000000000000000000"

abbrev ones : String
ones = "1111111111111111111111111111111111111111111111111111111111111111"

abbrev hash : List ℕ → String
hash text = if ltb (length text) 4 then zeros else ones

abbrev rt : Runtime
rt = record { sha256 = hash; repr = λ value. "[]" }

-- The time of a text is the number of its characters.
abbrev host : Host
host = record {
  runtime = rt;
  clock = record {
    from_iso = λ text. some (some (length text));
    iso_text = λ t. if ltb t 11 then "2026-01-01" else "2026-01-02";
  };
  int_text = λ text. none;
}

abbrev receipt : String → Items → Fields
receipt route ids = field "route" (str route) (
    field "parent_target_key" (str "p") (
      field "active_parent_filter_applied" (bool true) (
        field "page_count" (int (pos 1)) (
          field "terminal_reached" (bool true) (
            field "terminal_cursor" null
              (field "thread_ids" (arr ids) (field "locked_count" (int (pos 0)) end)))))))

abbrev active : Fields
active = receipt "GET /guilds/{guild_id}/threads/active" (cons (str "t1") nil)

abbrev receipts : Fields
receipts = field "active_filtered" (obj active) (
    field "archived_public" (obj (receipt "GET /channels/{channel_id}/threads/archived/public" nil))
      end)

abbrev inventory : String → String → Inventory
inventory scan_id observed_at = record {
  parent_target_key = "p";
  scan_id = scan_id;
  observed_at = observed_at;
  thread_ids = [];
  scopes = null;
  pagination_exhausted = null;
  parent_kind = some "forum";
  scope_receipts = obj receipts;
}

abbrev child : Fields
child = field "capture_id" (str "c1") (
    field "schema" (str "discord_full_capture_completion_gate.v1") (
      field "status" (str "full") (
        field "full_capture_confirmed" (bool true) (
          field "attachments_consistent" (bool true)
            (field "counts" (obj (field "messages" (int (pos 3)) end)) end)))))

abbrev store_or_empty : Result StoreError Store → Store
store_or_empty (ok store) = store
store_or_empty (err e) = empty_store

abbrev once_scanned : Store
once_scanned = store_or_empty (record_inventory_scan host (inventory "s1" "2026-01-01") empty_store)

abbrev twice_scanned : Store
twice_scanned =
    store_or_empty (record_inventory_scan host (inventory "s2" "2026-01-02T00") once_scanned)

abbrev captured : Store
captured = store_or_empty (record_child_certificate host "p" "t1" child twice_scanned)

recorded_once :
    record_inventory_scan host (inventory "s1" "2026-01-01") empty_store ≡ ok once_scanned
unfolding program
recorded_once = refl

recorded_twice :
    record_inventory_scan host (inventory "s2" "2026-01-02T00") once_scanned ≡ ok twice_scanned
unfolding program
recorded_twice = refl

certified : record_child_certificate host "p" "t1" child twice_scanned ≡ ok captured
unfolding program
certified = refl

full_parent : parent_blocker (some (parent_certificate rt "p" captured)) ≡ none
unfolding program
full_parent = refl

uncaptured_parent :
    (audit_parent rt "p" twice_scanned).0.blockers ≡ "child_capture_certificate_missing" ∷ []
unfolding program
uncaptured_parent = refl

-- The same listing, recorded twice at one time under two scan ids, counts as a stable rescan.
abbrev scanned_at_once : Store
scanned_at_once =
    store_or_empty (record_inventory_scan host (inventory "s2" "2026-01-01") once_scanned)

full_at_once :
    parent_blocker (
      some (
        parent_certificate rt "p"
          (store_or_empty (record_child_certificate host "p" "t1" child scanned_at_once))))
    ≡ none
unfolding program
full_at_once = refl

scanned_again :
    record_inventory_scan host (inventory "s1" "2026-01-01") once_scanned ≡ err duplicate_scan
unfolding program
scanned_again = refl

bound_capture : record_child_certificate host "p" "t2" child captured ≡ err capture_id_bound
unfolding program
bound_capture = refl

parent_blocker-audit_parent_example :
    (parent_blocker (some (parent_certificate rt "p" captured)) ≡ none)
    ↔ FullScans rt "p" captured.certificates (latest_scans "p" captured)
parent_blocker-audit_parent_example = parent_blocker-audit_parent rt "p" captured

certificate_of-audit_parent_example :
    certificate_of "p" "t1" (audit_parent rt "p" captured).1.certificates ≡ (
      if retirement_due rt "p" captured "p" "t1"
      then none
      else certificate_of "p" "t1" captured.certificates)
certificate_of-audit_parent_example = certificate_of-audit_parent rt "p" captured "p" "t1"

record_inventory_scan-verified_example :
    (kind : String) × (s : Scan) × (n : Normalized) × ReadBack rt "p" kind receipts empty_store
      once_scanned s n
record_inventory_scan-verified_example =
    record_inventory_scan-verified host (inventory "s1" "2026-01-01") empty_store once_scanned
      receipts refl (refl, (refl, tt)) recorded_once

captured_reached : Reachable host captured
captured_reached =
    certificate_recorded "p" "t1" child
      (scan_recorded (inventory "s2" "2026-01-02T00")
        (scan_recorded (inventory "s1" "2026-01-01") initialized recorded_once) recorded_twice)
      certified

Reachable-IsValid_example : IsValid rt captured
Reachable-IsValid_example = Reachable-IsValid host captured captured_reached

closed_from_store :
    (evaluate_legacy_parallel_run_from_store hashed
      (λ k. parent_certificate rt k captured)
      run_dir
      "p"
      false).terminal_state
    ≡ full_closed
unfolding program same_set is_subset shard_counts expected_worker_names definition_fields
    run_definition_sha256 legacy_index valid_ready run_receipt ledger_matches_receipt add_items
    add_shard add_shards canonical_bindings has_ready valid_receipt_of load_commit_ledger has_ledger
    has_hashes is_without_text valid_drain drain_receipts producer_drains_sha256 valid_stop
    run_quiescence_blocker evaluate_run evaluate_legacy_parallel_run_from_store run_metadata
    parent_target_key_digest parent_blockers counts_of_items item_checks close evaluate_items
    evaluate_with
closed_from_store = refl

from_store-Covered_example : Covered "p" captured ⊎ Collision rt
from_store-Covered_example =
    from_store-Covered hashed run_dir false host captured "p" captured_reached closed_from_store

hash-HexDigests : HexDigests rt
unfolding is_sha256
hash-HexDigests text =
    elim (ltb (length text) 4) as (λ b. is_sha256 (str (if b then zeros else ones)) ≡ true) [
      | true ↦ refl
      | false ↦ refl
    ]

normalize_receipt-untested_example :
    normalize_receipt rt "p" "active_filtered" active
    ≡ (keep_receipt "p" "active_filtered" active >>= untested rt)
normalize_receipt-untested_example =
    normalize_receipt-untested rt "p" "active_filtered" active hash-HexDigests
