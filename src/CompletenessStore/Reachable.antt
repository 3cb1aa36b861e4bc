-- ===== src/CompletenessStore/Reachable.antt =====
-- The stores that the operations of completeness_store.py reach, and the invariant of their tables.
use discord_context_bridge.CompletenessStore.Returned.{
  record_child_certificate-returned, record_inventory_scan-returned,
}
use discord_context_bridge.CompletenessStore.Audit.{
  kept_certificates, latest_ids, retire_absent_certificates, retires,
}
use discord_context_bridge.CompletenessStore.Verified.{stable, latest_scans}
use discord_context_bridge.CompletenessStore.Bindings.{
  IsValid, IsStored, Once-append, All-append, All-map, same_scan_key, Once, same_key, one_capture,
  All-upsert, children_apart-upsert, captures_apart-upsert,
}
use discord_context_bridge.CompletenessStore.ParentCertificate.{audit_parent}
use discord_context_bridge.CompletenessStore.{Store, Host, Scan, empty_store, Bool, Certificate}
use discord_context_bridge.CompletenessStore.Recording.{
  with_scan, with_parent, Inventory, record_inventory_scan, record_child_certificate, scan_row,
  with_certificate, ids_of,
}
use discord_context_bridge.Shared.{
  true, false, [], ◌∷◌, ok, inl, inr, ℕ, String, Runtime, List, contains, ◌≡◌, All, any, arith,
  contains-append, ◌<◌, ◌==◌, eq_iff, eq_refl, Fields, refl, ◌∙◌, ◌+◌, Bool, subst, Bool-cases,
  is_distinct-IsDistinct, sym, is_empty,
}

pub data Reachable (h : Host) : Store → Type 0 where
  initialized : Reachable h empty_store
  scan_recorded :
      {store store' : Store} (q : Inventory)
      → Reachable h store
      → record_inventory_scan h q store ≡ ok store'
      → Reachable h store'
  certificate_recorded :
      {store store' : Store} (key thread_id : String) (r : Fields)
      → Reachable h store
      → record_child_certificate h key thread_id r store ≡ ok store'
      → Reachable h store'
  audited :
      {store : Store} (key : String)
      → Reachable h store
      → Reachable h (audit_parent h.runtime key store).1

contains-with_parent :
    (k key : String) (keys : List String)
    → contains k keys ≡ true
    → contains k (with_parent key keys) ≡ true
contains-with_parent k key keys h = ground (arith, contains-append k keys (key ∷ []))

contains-with_parent_own :
    (key : String) (keys : List String) → contains key (with_parent key keys) ≡ true
contains-with_parent_own key keys = ground (arith, contains-append key keys (key ∷ []), eq_refl key)

row_id-new :
    (n : ℕ) (scans : List Scan) → All (λ s. s.id < n) scans → any (λ s. s.id == n) scans ≡ false
row_id-new n [] h = refl
row_id-new n (s ∷ ss) h = ground (arith, h.0, row_id-new n ss h.1)

any-same_scan_key :
    (y : Scan) (scans : List Scan)
    → any (λ s. same_scan_key s y) scans ≡ any (same_scan_key y) scans
any-same_scan_key y [] = refl
any-same_scan_key y (s ∷ ss) = ground (
  arith,
  any-same_scan_key y ss,
  eq_iff y.parent_target_key s.parent_target_key,
  eq_iff s.parent_target_key y.parent_target_key,
  eq_iff y.scan_id s.scan_id,
  eq_iff s.scan_id y.scan_id,
)

with_scan-IsValid :
    (rt : Runtime) (store : Store) (s : Scan)
    → IsValid rt store
    → IsStored rt s
    → s.id ≡ store.next_scan
    → any (same_scan_key s) store.inventory_scans ≡ false
    → IsValid rt (with_scan store s)
unfolding with_scan
with_scan-IsValid rt store s v stored numbered new = record {
  scan_parents =
      All-append
        (λ t.
          contains t.parent_target_key (with_parent s.parent_target_key store.parent_targets)
          ≡ true)
        store.inventory_scans s
        (All-map _ _ store.inventory_scans
          (λ t h.
            contains-with_parent t.parent_target_key s.parent_target_key store.parent_targets h)
          v.scan_parents)
        (contains-with_parent_own s.parent_target_key store.parent_targets);
  scans_once =
      Once-append same_scan_key store.inventory_scans s v.scans_once
        (any-same_scan_key s store.inventory_scans ∙ new);
  row_ids_once =
      Once-append (λ t u. t.id == u.id) store.inventory_scans s v.row_ids_once
        (rw numbered (row_id-new store.next_scan store.inventory_scans v.row_ids_below));
  row_ids_below =
      All-append (λ t. t.id < store.next_scan + 1) store.inventory_scans s
        (All-map _ _ store.inventory_scans (λ t h. omega arith) v.row_ids_below) (omega arith);
  scans_stored = All-append (IsStored rt) store.inventory_scans s v.scans_stored stored;
  certificate_parents =
      All-map _ _ store.certificates
        (λ c h. contains-with_parent c.parent_target_key s.parent_target_key store.parent_targets h)
        v.certificate_parents;
  children_once = v.children_once;
  captures_once = v.captures_once;
  captures_given = v.captures_given;
}

record_inventory_scan-IsValid :
    (h : Host) (q : Inventory) (store store' : Store)
    → IsValid h.runtime store
    → record_inventory_scan h q store ≡ ok store'
    → IsValid h.runtime store'
unfolding scan_row
record_inventory_scan-IsValid h q store store' v returned =
    let back = record_inventory_scan-returned h q store store' returned in
    let s = scan_row h store q back.evidence back.observed_at in
    let distinct = is_distinct-IsDistinct (ids_of back.evidence.threads) back.ids_distinct in
    subst (λ w. IsValid h.runtime w) (sym back.stored)
      (with_scan-IsValid h.runtime store s v (distinct, refl, refl) refl back.new)

record_child_certificate-IsValid :
    (h : Host) (key thread_id : String) (r : Fields) (store store' : Store)
    → IsValid h.runtime store
    → record_child_certificate h key thread_id r store ≡ ok store'
    → IsValid h.runtime store'
unfolding with_certificate
record_child_certificate-IsValid h key thread_id r store store' v returned =
    let back = record_child_certificate-returned h key thread_id r store store' returned in
    let row = back.row in
    subst (λ w. IsValid h.runtime w) (sym back.stored)
      (record {
        scan_parents = v.scan_parents;
        scans_once = v.scans_once;
        row_ids_once = v.row_ids_once;
        row_ids_below = v.row_ids_below;
        scans_stored = v.scans_stored;
        certificate_parents =
            All-upsert (λ c. contains c.parent_target_key store.parent_targets ≡ true) row
              store.certificates (rw back.parent back.parent_there) v.certificate_parents;
        children_once = children_apart-upsert row store.certificates v.children_once;
        captures_once =
            captures_apart-upsert row store.certificates
              (rw (back.parent, back.thread) back.unbound) v.captures_once;
        captures_given =
            All-upsert (λ c. is_empty c.capture_id ≡ false) row store.certificates
              back.capture_given v.captures_given;
      })

any-kept :
    (p : Certificate → Bool) (key : String) (latest : List String) (cs : List Certificate)
    → any p cs ≡ false
    → any p (kept_certificates key latest cs) ≡ false
unfolding kept_certificates
any-kept p key latest [] h = refl
any-kept p key latest (c ∷ cs) h = ground (arith, any-kept p key latest cs)

Once-kept :
    (r : Certificate → Certificate → Bool) (key : String) (latest : List String)
    (cs : List Certificate)
    → Once r cs
    → Once r (kept_certificates key latest cs)
unfolding kept_certificates
Once-kept r key latest [] h = tt
Once-kept r key latest (c ∷ cs) h = elim (Bool-cases (retires key latest c)) [
  | inl gone ↦ rw gone (Once-kept r key latest cs h.1)
  | inr stays ↦ rw stays (any-kept (r c) key latest cs h.0, Once-kept r key latest cs h.1)
]

All-kept :
    (P : Certificate → Type 0) (key : String) (latest : List String) (cs : List Certificate)
    → All P cs
    → All P (kept_certificates key latest cs)
unfolding kept_certificates
All-kept P key latest [] h = tt
All-kept P key latest (c ∷ cs) h = elim (Bool-cases (retires key latest c)) [
  | inl gone ↦ rw gone (All-kept P key latest cs h.1)
  | inr stays ↦ rw stays (h.0, All-kept P key latest cs h.1)
]

retire-IsValid :
    (rt : Runtime) (key : String) (latest : List String) (due : Bool) (store : Store)
    → IsValid rt store
    → IsValid rt (retire_absent_certificates key latest due store)
unfolding retire_absent_certificates
retire-IsValid rt key latest false store v = v
retire-IsValid rt key latest true store v = record {
  scan_parents = v.scan_parents;
  scans_once = v.scans_once;
  row_ids_once = v.row_ids_once;
  row_ids_below = v.row_ids_below;
  scans_stored = v.scans_stored;
  certificate_parents = All-kept _ key latest store.certificates v.certificate_parents;
  children_once = Once-kept same_key key latest store.certificates v.children_once;
  captures_once = Once-kept one_capture key latest store.certificates v.captures_once;
  captures_given = All-kept _ key latest store.certificates v.captures_given;
}

-- After any recordings and audits, every scan and certificate is of a known parent, a scan id
-- stands once for a parent, a scan has the count and the digest of its threads with none twice, a
-- thread has one certificate, and a capture id of a parent is bound to one thread.
pub Reachable-IsValid : (h : Host) (store : Store) → Reachable h store → IsValid h.runtime store
unfolding audit_parent
Reachable-IsValid h store initialized = record {
  scan_parents = tt;
  scans_once = tt;
  row_ids_once = tt;
  row_ids_below = tt;
  scans_stored = tt;
  certificate_parents = tt;
  children_once = tt;
  captures_once = tt;
  captures_given = tt;
}
Reachable-IsValid h store (scan_recorded {store = before} q reached returned) =
    record_inventory_scan-IsValid h q before store (Reachable-IsValid h before reached) returned
Reachable-IsValid h store (certificate_recorded {store = before} key thread_id r reached returned) =
    record_child_certificate-IsValid h key thread_id r before store
      (Reachable-IsValid h before reached) returned
Reachable-IsValid h store (audited {store = before} key reached) =
    retire-IsValid h.runtime key (latest_ids (latest_scans key before))
      (stable h.runtime (latest_scans key before)) before (Reachable-IsValid h before reached)
