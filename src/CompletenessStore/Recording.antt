-- ===== src/CompletenessStore/Recording.antt =====
-- `record_inventory_scan` and `record_child_certificate` of completeness_store.py. The columns
-- scopes_json and pagination_exhausted are left out: the code writes them and never reads them.
use discord_context_bridge.CompletenessStore.ScopeReceipts.{
  is_bool, Normalized, option_or, receipts_of, normalize_scope_receipts, bool_or,
}
use discord_context_bridge.CompletenessStore.{
  Certificate, Store, ℤ, Bool, Scan, archived_public, Column, Host, ℕ, contains, str_eq, StoreError,
  archived_private, digest_ids, loaded, pagination_boolean_required, canonical_evidence_required,
  count_invalid, scope_boolean_required, inventory_binding_required, thread_id_required,
  capture_id_required, absent, duplicate_thread_id, thread_binding_mismatch, time_invalid,
  boolean_required, parent_inventory_missing, duplicate_scan, capture_id_bound,
}
use discord_context_bridge.Shared.{
  true, false, none, some, [], ◌∷◌, ok, str, bool, int, float, obj, arr, end, nil, pos, Option,
  Runtime, Value, Fields, String, List, Result, ℤ, Bool, if◌then◌else◌, ◌++◌, ℕ, truthy, contains,
  str_eq, all, length, is_null, not, to_str, ◌>>=◌, ltb, as_fields, ◌||◌, ◌>>◌, ◌&&◌, get, ◌+◌,
  require, is_some, ◌^◌, is_empty, strip, str_or_empty, map, is_distinct, normalized_time, any,
}

-- The arguments of `record_inventory_scan`.
pub record Inventory : Type 0 where
  pub parent_target_key : String
  pub scan_id : String
  pub observed_at : String
  pub thread_ids : List Value
  pub scopes : Value
  pub pagination_exhausted : Value
  pub parent_kind : Option String
  pub scope_receipts : Value

-- What is stored of the evidence: the rows of the threads and the column of the receipts.
pub record Evidence : Type 0 where
  pub threads : List (String × Option String)
  pub column : Column

abbrev pub ids_of : List (String × Option String) → List String
ids_of [] = []
ids_of ((id, scope) ∷ rows) = id ∷ ids_of rows

abbrev pub in_scope : Option String → List String → List (String × Option String)
in_scope scope [] = []
in_scope scope (id ∷ ids) = (id, scope) ∷ in_scope scope ids

-- The rows of the threads: each id with the scope of the receipt that it came with. The ids are
-- distinct, so `scope_by_thread` has no other scope for it.
abbrev pub scoped_rows : Normalized → List (String × Option String)
scoped_rows [] = []
scoped_rows ((scope, (r, ids)) ∷ rest) = in_scope (some scope) ids ++ scoped_rows rest

-- The receipts are loaded with their keys sorted, which no reader of the column depends on.
abbrev pub canonical_rows : Normalized → Evidence
canonical_rows n = record { threads = scoped_rows n; column = loaded (obj (receipts_of n)) }

unfoldable pub canonical_evidence : Runtime → Inventory → Result StoreError Evidence
canonical_evidence rt q = do
  receipts ← option_or canonical_evidence_required (as_fields q.scope_receipts)
  kind ← option_or canonical_evidence_required q.parent_kind
  n ← normalize_scope_receipts rt q.parent_target_key kind receipts
  ok (canonical_rows n)

abbrev legacy_scopes : List String
legacy_scopes = "active" ∷ archived_public ∷ archived_private ∷ []

abbrev legacy_scopes_given : Value → Bool
legacy_scopes_given (obj scopes) = all (λ scope. is_bool (get scope scopes)) legacy_scopes
legacy_scopes_given _ = false

unfoldable pub legacy_evidence : Runtime → Inventory → Result StoreError Evidence
legacy_evidence rt q = do
  require (is_bool q.pagination_exhausted) pagination_boolean_required
  require (legacy_scopes_given q.scopes) scope_boolean_required
  ok (record { threads = in_scope none (map (to_str rt) q.thread_ids); column = absent })

unfoldable pub evidence_of : Runtime → Inventory → Result StoreError Evidence
evidence_of rt q =
    if not (is_null q.scope_receipts) || is_some q.parent_kind
    then canonical_evidence rt q
    else legacy_evidence rt q

abbrev pub same_scan : String → String → Scan → Bool
same_scan key scan_id scan = str_eq key scan.parent_target_key && str_eq scan_id scan.scan_id

abbrev pub with_parent : String → List String → List String
with_parent key keys = if contains key keys then keys else keys ++ key ∷ []

unfoldable pub scan_row : Host → Store → Inventory → Evidence → String → Scan
scan_row h store q e observed_at = record {
  id = store.next_scan;
  parent_target_key = q.parent_target_key;
  scan_id = q.scan_id;
  observed_at = observed_at;
  thread_count = length e.threads;
  thread_set_digest = digest_ids h.runtime (ids_of e.threads);
  parent_kind = q.parent_kind;
  scope_receipts = e.column;
  threads = e.threads;
}

unfoldable pub with_scan : Store → Scan → Store
with_scan store scan = record {
  parent_targets = with_parent scan.parent_target_key store.parent_targets;
  inventory_scans = store.inventory_scans ++ scan ∷ [];
  next_scan = store.next_scan + 1;
  certificates = store.certificates;
  retirements = store.retirements;
}

-- `record_inventory_scan`
unfoldable pub record_inventory_scan : Host → Inventory → Store → Result StoreError Store
record_inventory_scan h q store = do
  require (not (is_empty (strip q.parent_target_key) || is_empty (strip q.scan_id)))
      inventory_binding_required
  e ← evidence_of h.runtime q
  require (is_distinct (ids_of e.threads)) duplicate_thread_id
  observed_at ← option_or time_invalid (normalized_time h.clock q.observed_at)
  require (not (any (same_scan q.parent_target_key q.scan_id) store.inventory_scans)) duplicate_scan
  ok (with_scan store (scan_row h store q e observed_at))

-- `certificate.get("thread_id") or certificate.get("target_thread_id")`
abbrev pub bound_thread : Fields → Value
bound_thread r = if truthy (get "thread_id" r) then get "thread_id" r else get "target_thread_id" r

abbrev pub bound_to : Runtime → String → Value → Bool
bound_to rt thread_id v = is_null v || str_eq (to_str rt v) thread_id

abbrev int_value : Host → Value → Option ℤ
int_value h (str s) = h.int_text s
int_value h (bool true) = some (pos 1)
int_value h (bool false) = some (pos 0)
int_value h (int n) = some n
int_value h (float x) = x.truncated
int_value h _ = none

-- An integer of the column: none above 64 bits with a sign, and none below 0 by the CHECK.
abbrev column_value : Option ℤ → Option ℕ
column_value (some (pos n)) = if ltb n (2 ^ 63) then some n else none
column_value _ = none

-- `int(value or 0)`, as the column takes it
unfoldable pub count_of : Host → Value → Option ℕ
count_of h v = if truthy v then column_value (int_value h v) else some 0

abbrev pub fields_or_end : Option Fields → Fields
fields_or_end none = end
fields_or_end (some fs) = fs

abbrev text_or_blocked : Runtime → Value → String
text_or_blocked rt v = if truthy v then to_str rt v else "blocked"

-- The row that `record_child_certificate` writes.
unfoldable pub certificate_row :
    Host → String → String → String → Bool → Bool → Fields → Result StoreError Certificate
certificate_row h key thread_id capture_id full consistent r = do
  let counts = fields_or_end (as_fields (get "counts" r))
  messages ← option_or count_invalid (count_of h (get "messages" counts))
  discovered ← option_or count_invalid (count_of h (get "attachments_discovered" counts))
  saved ← option_or count_invalid (count_of h (get "attachments_saved" counts))
  manifested ← option_or count_invalid (count_of h (get "attachments_manifested" counts))
  gaps ← option_or count_invalid (count_of h (get "unresolved_gap_count" r))
  pending ← option_or count_invalid (count_of h (get "pending_retry_count" r))
  ok (record {
    parent_target_key = key;
    thread_id = thread_id;
    capture_id = capture_id;
    gate_schema = str_or_empty h.runtime (get "schema" r);
    status = text_or_blocked h.runtime (get "status" r);
    full_capture_confirmed = full;
    message_count = messages;
    attachment_discovered_count = discovered;
    attachment_saved_count = saved;
    attachment_manifested_count = manifested;
    attachments_consistent = consistent;
    unresolved_gap_count = gaps;
    pending_retry_count = pending;
    blockers = if truthy (get "blockers" r) then get "blockers" r else arr nil;
  })

-- A row of the same parent with this capture id and another thread.
abbrev pub bound_elsewhere : String → String → String → Certificate → Bool
bound_elsewhere key capture_id thread_id c =
    str_eq key c.parent_target_key
    && str_eq capture_id c.capture_id
    && not (str_eq thread_id c.thread_id)

abbrev pub same_child : String → String → Certificate → Bool
same_child key thread_id c = str_eq key c.parent_target_key && str_eq thread_id c.thread_id

-- `INSERT ... ON CONFLICT(parent_target_key, thread_id) DO UPDATE`
unfoldable pub upsert : Certificate → List Certificate → List Certificate
upsert c [] = c ∷ []
upsert c (d ∷ ds) =
    let rest = upsert c ds in
    if same_child c.parent_target_key c.thread_id d then c ∷ ds else d ∷ rest

unfoldable pub with_certificate : Store → Certificate → Store
with_certificate store c = record {
  parent_targets = store.parent_targets;
  inventory_scans = store.inventory_scans;
  next_scan = store.next_scan;
  certificates = upsert c store.certificates;
  retirements = store.retirements;
}

-- `record_child_certificate`
unfoldable pub record_child_certificate :
    Host → String → String → Fields → Store → Result StoreError Store
record_child_certificate h key thread_id r store = do
  require (not (is_empty (strip thread_id))) thread_id_required
  let capture_id = strip (str_or_empty h.runtime (get "capture_id" r))
  require (not (is_empty capture_id)) capture_id_required
  require (bound_to h.runtime thread_id (bound_thread r)) thread_binding_mismatch
  full ← bool_or boolean_required (get "full_capture_confirmed" r)
  consistent ← bool_or boolean_required (get "attachments_consistent" r)
  require (contains key store.parent_targets) parent_inventory_missing
  require (not (any (bound_elsewhere key capture_id thread_id) store.certificates)) capture_id_bound
  row ← certificate_row h key thread_id capture_id full consistent r
  ok (with_certificate store row)
