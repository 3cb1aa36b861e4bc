-- ===== src/CompletenessStore/Recorded.antt =====
-- A scan that `record_inventory_scan` of completeness_store.py stores with scope receipts is one
-- that `audit_parent` reads back as valid and reconciled.
use discord_context_bridge.CompletenessStore.Returned.{
  option_or-eq-ok, distinct_or-eq-ok, record_inventory_scan-returned,
}
use discord_context_bridge.CompletenessStore.Recording.{
  scoped_rows, in_scope, ids_of, evidence_of, canonical_evidence, Inventory, Evidence,
  canonical_rows, scan_row, with_scan, record_inventory_scan,
}
use discord_context_bridge.CompletenessStore.Reconciled.{
  AllNormal, receipts_counted, normalize_each-AllNormal,
}
use discord_context_bridge.CompletenessStore.ScopeReceipts.{
  has_key, Normalized, keys_of, receipts_of, valid_receipt, normalize_scope_receipts, option_or,
  normalize_each,
}
use discord_context_bridge.CompletenessStore.Verified.{
  rows_reconciled, verified, scopes_known, stored_scope_receipts, total_threads, all_receipts,
  only_required, required_of,
}
use discord_context_bridge.CompletenessStore.{
  loaded, Runtime, Option, String, Scan, List, contains, digest_ids, canonical_evidence_required,
  parent_kind_invalid, not_applicable, required_scopes, Store, Host,
}
use discord_context_bridge.Shared.{
  true, some, [], ◌∷◌, ok, obj, end, field, suc, Runtime, Fields, Option, String, List, ◌≡◌, length,
  ◌++◌, contains, IsDistinct, ◌&&◌, ap, refl, arith, eq_refl, length-append, ◌∙◌, >>=-eq-ok,
  require-eq-ok, all, sym, ok-injective,
}

all_receipts-valid :
    (rt : Runtime) (n : Normalized)
    → AllNormal rt n
    → all_receipts (valid_receipt rt) (receipts_of n) ≡ true
all_receipts-valid rt [] normal = refl
all_receipts-valid rt ((scope, (r, ids)) ∷ rest) normal =
    cc (normal.0.0, all_receipts-valid rt rest normal.1)

length-in_scope :
    (scope : Option String) (ids : List String) → length (in_scope scope ids) ≡ length ids
length-in_scope scope [] = refl
length-in_scope scope (id ∷ ids) = ap (λ k. suc k) (length-in_scope scope ids)

total_threads-receipts_of :
    (rt : Runtime) (n : Normalized)
    → AllNormal rt n
    → total_threads (receipts_of n) ≡ length (scoped_rows n)
total_threads-receipts_of rt [] normal = refl
total_threads-receipts_of rt ((scope, (r, ids)) ∷ rest) normal = rw normal.0.2 (
    omega (
      arith,
      total_threads-receipts_of rt rest normal.1,
      length-append (in_scope (some scope) ids) (scoped_rows rest),
      length-in_scope (some scope) ids,
    ))

has_key-keys_of : (k : String) (fs : Fields) → has_key k fs ≡ contains k (keys_of fs)
has_key-keys_of k end = refl
has_key-keys_of k (field j v fs) = ground (arith, has_key-keys_of k fs)

scopes_known-append :
    (receipts : Fields) (xs ys : List (String × Option String))
    → scopes_known receipts (xs ++ ys) ≡ (scopes_known receipts xs && scopes_known receipts ys)
scopes_known-append receipts [] ys = refl
scopes_known-append receipts ((id, scope) ∷ xs) ys =
    ground (arith, scopes_known-append receipts xs ys)

scopes_known-in_scope :
    (receipts : Fields) (scope : String) (ids : List String)
    → has_key scope receipts ≡ true
    → scopes_known receipts (in_scope (some scope) ids) ≡ true
scopes_known-in_scope receipts scope [] h = refl
scopes_known-in_scope receipts scope (id ∷ ids) h =
    cc (h, scopes_known-in_scope receipts scope ids h)

scopes_known-scoped_rows :
    (receipts : Fields) (n : Normalized)
    → ((s : String) → contains s (keys_of (receipts_of n)) ≡ true → has_key s receipts ≡ true)
    → scopes_known receipts (scoped_rows n) ≡ true
scopes_known-scoped_rows receipts [] within = refl
scopes_known-scoped_rows receipts ((scope, (r, ids)) ∷ rest) within = ground (
  arith,
  scopes_known-append receipts (in_scope (some scope) ids) (scoped_rows rest),
  scopes_known-in_scope receipts scope ids (within scope (ground (arith, eq_refl scope))),
  scopes_known-scoped_rows receipts rest (λ s h. within s (ground arith)),
)

-- What a canonical scan stores: the normalized receipts with their rows.
abbrev IsCanonical : Runtime → Scan → Normalized → Type 0
IsCanonical rt s n =
    (s.threads ≡ scoped_rows n)
    × (s.scope_receipts ≡ loaded (obj (receipts_of n)))
    × (s.thread_count ≡ length s.threads)
    × (s.thread_set_digest ≡ digest_ids rt (ids_of s.threads))
    × (only_required (required_of s.parent_kind) (receipts_of n) ≡ true)

canonical-reconciled :
    (rt : Runtime) (s : Scan) (n : Normalized)
    → IsCanonical rt s n
    → AllNormal rt n
    → IsDistinct (keys_of (receipts_of n))
    → rows_reconciled rt s (receipts_of n) ≡ true
unfolding rows_reconciled
canonical-reconciled rt s n canonical normal distinct =
    let counted = receipts_counted rt s.threads [] n canonical.0 normal distinct (λ s h. refl) in
    let known : scopes_known (receipts_of n) s.threads ≡ true =
      rw canonical.0 (
        scopes_known-scoped_rows (receipts_of n) n
          (λ s h. has_key-keys_of s (receipts_of n) ∙ h)) in
    let total : total_threads (receipts_of n) ≡ length s.threads =
      rw canonical.0 (total_threads-receipts_of rt n normal) in
    ground (arith, canonical.2, canonical.3, eq_refl s.thread_set_digest)

canonical-verified :
    (rt : Runtime) (s : Scan) (n : Normalized)
    → IsCanonical rt s n
    → AllNormal rt n
    → IsDistinct (keys_of (receipts_of n))
    → ((verified rt s).valid ≡ true) × ((verified rt s).receipts ≡ receipts_of n)
unfolding verified stored_scope_receipts
canonical-verified rt s n canonical normal distinct =
    let read : stored_scope_receipts rt s.scope_receipts s.parent_kind
        ≡ record { receipts = receipts_of n; valid = true } =
      rw (canonical.1, canonical.4, all_receipts-valid rt n normal) in
    rw read (canonical-reconciled rt s n canonical normal distinct, refl)

normalize-AllNormal :
    (rt : Runtime) (key kind : String) (receipts : Fields) (n : Normalized)
    → normalize_scope_receipts rt key kind receipts ≡ ok n
    → AllNormal rt n
      × (keys_of (receipts_of n) ≡ keys_of receipts)
      × (only_required (required_scopes kind) (receipts_of n) ≡ true)
unfolding normalize_scope_receipts
normalize-AllNormal rt key kind receipts n returned =
    let (required, e0, r0) =
      >>=-eq-ok (option_or parent_kind_invalid (required_scopes kind)) _ returned in
    let (within, r1) =
      require-eq-ok (all (λ s. contains s required) (keys_of receipts)) not_applicable _ r0 in
    let (m, e1, r2) = >>=-eq-ok (normalize_each rt key receipts) _ r1 in
    let same : m ≡ n = distinct_or-eq-ok m r2 in
    let (normal, keys) = normalize_each-AllNormal rt key receipts n (e1 ∙ ap (λ w. ok w) same) in
    (normal, keys, rw (option_or-eq-ok parent_kind_invalid (required_scopes kind) e0, keys) within)

-- The evidence of a canonical scan.
canonical-evidence :
    (rt : Runtime) (q : Inventory) (receipts : Fields) (e : Evidence)
    → q.scope_receipts ≡ obj receipts
    → evidence_of rt q ≡ ok e
    → (kind : String) × (n : Normalized) × (q.parent_kind ≡ some kind)
      × (normalize_scope_receipts rt q.parent_target_key kind receipts ≡ ok n)
      × (e ≡ canonical_rows n)
unfolding evidence_of canonical_evidence
canonical-evidence rt q receipts e given returned =
    let canonical = rw given at returned in
    let (kind, e1, r1) =
      >>=-eq-ok (option_or canonical_evidence_required q.parent_kind) _ canonical in
    let (n, e2, made) =
      >>=-eq-ok (normalize_scope_receipts rt q.parent_target_key kind receipts) _ r1 in
    (
      kind,
      n,
      option_or-eq-ok canonical_evidence_required q.parent_kind e1,
      e2,
      sym (ok-injective made),
    )

-- The new scan, with the receipts that the audit reads back from it.
abbrev pub ReadBack :
    Runtime → String → String → Fields → Store → Store → Scan → Normalized → Type 0
ReadBack rt key kind receipts store store' s n =
    (store'.inventory_scans ≡ store.inventory_scans ++ s ∷ [])
    × (s.parent_target_key ≡ key)
    × (s.parent_kind ≡ some kind)
    × (normalize_scope_receipts rt key kind receipts ≡ ok n)
    × ((verified rt s).receipts ≡ receipts_of n)
    × ((verified rt s).valid ≡ true)

-- When a scan with scope receipts is recorded, the audit reads the normalized receipts back from
-- the stored scan, and finds them valid and reconciled with its rows.
pub record_inventory_scan-verified :
    (h : Host) (q : Inventory) (store store' : Store) (receipts : Fields)
    → q.scope_receipts ≡ obj receipts
    → IsDistinct (keys_of receipts)
    → record_inventory_scan h q store ≡ ok store'
    → (kind : String) × (s : Scan) × (n : Normalized) × ReadBack h.runtime q.parent_target_key kind
        receipts store store' s n
unfolding scan_row with_scan
record_inventory_scan-verified h q store store' receipts given distinct returned =
    let back = record_inventory_scan-returned h q store store' returned in
    let s = scan_row h store q back.evidence back.observed_at in
    let (kind, n, kind_given, normalized, e) =
      canonical-evidence h.runtime q receipts back.evidence given back.collected in
    let (normal, keys, required) =
      normalize-AllNormal h.runtime q.parent_target_key kind receipts n normalized in
    let threads : s.threads ≡ scoped_rows n = ap (λ (w : Evidence). w.threads) e in
    let column : s.scope_receipts ≡ loaded (obj (receipts_of n)) =
      ap (λ (w : Evidence). w.column) e in
    let applicable : only_required (required_of s.parent_kind) (receipts_of n) ≡ true =
      rw kind_given required in
    let (valid, receipts_same) =
      canonical-verified h.runtime s n (threads, column, refl, refl, applicable) normal
        (rw keys distinct) in
    let added = ap (λ (w : Store). w.inventory_scans) back.stored in
    (kind, s, n, (added, refl, kind_given, normalized, receipts_same, valid))
