-- ===== src/CompletenessStore/Returned.antt =====
-- What the recordings of completeness_store.py have passed when they return.
use discord_context_bridge.CompletenessStore.ScopeReceipts.{
  option_or, bool_or, Normalized, distinct_or,
}
use discord_context_bridge.CompletenessStore.{
  StoreError, Host, Option, String, Store, Bool, Certificate, contains, time_invalid, count_invalid,
  boolean_required, inventory_binding_required, duplicate_thread_id, duplicate_scan,
  thread_id_required, capture_id_required, thread_binding_mismatch, parent_inventory_missing,
  capture_id_bound,
}
use discord_context_bridge.CompletenessStore.Recording.{
  certificate_row, record_child_certificate, record_inventory_scan, Inventory, Evidence,
  evidence_of, bound_elsewhere, ids_of, same_scan, with_scan, with_certificate, scan_row,
  fields_or_end, bound_to, count_of, bound_thread,
}
use discord_context_bridge.Shared.{
  true, false, none, some, ok, Option, String, Fields, ◌≡◌, Bool, require-eq-ok, strip,
  str_or_empty, contains, >>=-eq-ok, is_distinct, any, get, ok-injective, arith, sym, is_empty, not,
  ◌||◌, as_fields, normalized_time, ap,
}

not-true : (b : Bool) → not b ≡ true → b ≡ false
not-true b h = ground arith

-- The scan that was stored, its evidence and its time.
pub record ScanReturned (h : Host) (q : Inventory) (store store' : Store) : Type 0 where
  pub evidence : Evidence
  pub observed_at : String
  pub collected : evidence_of h.runtime q ≡ ok evidence
  pub ids_distinct : is_distinct (ids_of evidence.threads) ≡ true
  pub new : any (same_scan q.parent_target_key q.scan_id) store.inventory_scans ≡ false
  pub stored : store' ≡ with_scan store (scan_row h store q evidence observed_at)

pub record_inventory_scan-returned :
    (h : Host) (q : Inventory) (store store' : Store)
    → record_inventory_scan h q store ≡ ok store'
    → ScanReturned h q store store'
unfolding record_inventory_scan
record_inventory_scan-returned h q store store' returned =
    let blank = is_empty (strip q.parent_target_key) || is_empty (strip q.scan_id) in
    let taken = any (same_scan q.parent_target_key q.scan_id) store.inventory_scans in
    let (bound, r0) = require-eq-ok (not blank) inventory_binding_required _ returned in
    let (evidence, collected, r1) = >>=-eq-ok (evidence_of h.runtime q) _ r0 in
    let (distinct, r2) =
      require-eq-ok (is_distinct (ids_of evidence.threads)) duplicate_thread_id _ r1 in
    let (observed_at, time, r3) =
      >>=-eq-ok (option_or time_invalid (normalized_time h.clock q.observed_at)) _ r2 in
    let (new, made) = require-eq-ok (not taken) duplicate_scan _ r3 in
    record {
      evidence = evidence;
      observed_at = observed_at;
      collected = collected;
      ids_distinct = distinct;
      new = not-true taken new;
      stored = sym (ok-injective made);
    }

-- The certificate that was stored.
pub record CertificateReturned (h : Host) (key thread_id : String) (store store' : Store)
    : Type 0 where
  pub row : Certificate
  pub parent : row.parent_target_key ≡ key
  pub thread : row.thread_id ≡ thread_id
  pub parent_there : contains key store.parent_targets ≡ true
  pub unbound : any (bound_elsewhere key row.capture_id thread_id) store.certificates ≡ false
  pub capture_given : is_empty row.capture_id ≡ false
  pub stored : store' ≡ with_certificate store row

certificate_row-keys :
    (h : Host) (key thread_id capture_id : String) (full consistent : Bool) (r : Fields)
    (row : Certificate)
    → certificate_row h key thread_id capture_id full consistent r ≡ ok row
    → (row.parent_target_key ≡ key) × (row.thread_id ≡ thread_id) × (row.capture_id ≡ capture_id)
unfolding certificate_row
certificate_row-keys h key thread_id capture_id full consistent r row returned =
    let counts = fields_or_end (as_fields (get "counts" r)) in
    let (messages, e0, r0) =
      >>=-eq-ok (option_or count_invalid (count_of h (get "messages" counts))) _ returned in
    let (discovered, e1, r1) =
      >>=-eq-ok (option_or count_invalid (count_of h (get "attachments_discovered" counts))) _ r0 in
    let (saved, e2, r2) =
      >>=-eq-ok (option_or count_invalid (count_of h (get "attachments_saved" counts))) _ r1 in
    let (manifested, e3, r3) =
      >>=-eq-ok (option_or count_invalid (count_of h (get "attachments_manifested" counts))) _ r2 in
    let (gaps, e4, r4) =
      >>=-eq-ok (option_or count_invalid (count_of h (get "unresolved_gap_count" r))) _ r3 in
    let (pending, e5, made) =
      >>=-eq-ok (option_or count_invalid (count_of h (get "pending_retry_count" r))) _ r4 in
    let same = sym (ok-injective made) in
    (
      ap (λ (c : Certificate). c.parent_target_key) same,
      ap (λ (c : Certificate). c.thread_id) same,
      ap (λ (c : Certificate). c.capture_id) same,
    )

pub record_child_certificate-returned :
    (h : Host) (key thread_id : String) (r : Fields) (store store' : Store)
    → record_child_certificate h key thread_id r store ≡ ok store'
    → CertificateReturned h key thread_id store store'
unfolding record_child_certificate
record_child_certificate-returned h key thread_id r store store' returned =
    let capture_id = strip (str_or_empty h.runtime (get "capture_id" r)) in
    let taken = any (bound_elsewhere key capture_id thread_id) store.certificates in
    let (given, r0) =
      require-eq-ok (not (is_empty (strip thread_id))) thread_id_required _ returned in
    let (captured, r1) = require-eq-ok (not (is_empty capture_id)) capture_id_required _ r0 in
    let (bound, r2) =
      require-eq-ok (bound_to h.runtime thread_id (bound_thread r)) thread_binding_mismatch _ r1 in
    let (full, e0, r3) =
      >>=-eq-ok (bool_or boolean_required (get "full_capture_confirmed" r)) _ r2 in
    let (consistent, e1, r4) =
      >>=-eq-ok (bool_or boolean_required (get "attachments_consistent" r)) _ r3 in
    let (there, r5) =
      require-eq-ok (contains key store.parent_targets) parent_inventory_missing _ r4 in
    let (unbound, r6) = require-eq-ok (not taken) capture_id_bound _ r5 in
    let (row, made, last) =
      >>=-eq-ok (certificate_row h key thread_id capture_id full consistent r) _ r6 in
    let (same_parent, same_thread, same_capture) =
      certificate_row-keys h key thread_id capture_id full consistent r row made in
    record {
      row = row;
      parent = same_parent;
      thread = same_thread;
      parent_there = there;
      unbound = rw same_capture (not-true taken unbound);
      capture_given = rw same_capture (not-true (is_empty capture_id) captured);
      stored = sym (ok-injective last);
    }

pub option_or-eq-ok :
    {A : Type 0} (e : StoreError) (o : Option A) {a : A} → option_or e o ≡ ok a → o ≡ some a
option_or-eq-ok e none h = cc
option_or-eq-ok e (some a) h = cc

pub distinct_or-eq-ok : (m : Normalized) {n : Normalized} → distinct_or m ≡ ok n → m ≡ n
distinct_or-eq-ok m h = ground arith
