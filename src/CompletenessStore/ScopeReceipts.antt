-- ===== src/CompletenessStore/ScopeReceipts.antt =====
-- `_normalized_scope_receipt_valid` and `_normalize_scope_receipts` of completeness_store.py.
use discord_context_bridge.Shared.{
  true, false, none, some, [], ◌∷◌, ok, err, str, bool, null, int, obj, arr, end, field, pos,
  String, Option, Result, List, Runtime, Value, ℕ, Fields, codes, items, Bool, ◌>>=◌, is_text,
  if◌then◌else◌, ◌++◌, is_null, is_distinct, length, get, all, ◌>>◌, is_true, is_some, str_eq,
  is_sha256, is_empty, leb, strip, ◌&&◌, require, find, as_fields, ◌||◌, contains, not, eq_nat,
}
use discord_context_bridge.CompletenessStore.{
  StoreError, parent_kind_invalid, not_applicable, object_required, route_mismatch,
  parent_binding_mismatch, filter_boolean_required, filter_required, page_count_invalid,
  terminal_evidence_required, terminal_cursor_invalid, thread_ids_invalid, duplicate_thread_id,
  locked_count_invalid, normalized_invalid, scope_overlap, active_filtered, archived_private,
  required_scopes, scope_route, digest_ids, natural_of, String, Option, List, Runtime, Value, ℕ,
  Bool, str_eq, contains,
}

abbrev pub has_key : String → Fields → Bool
has_key k fs = is_some (find k fs)

abbrev receipt_fields : List String
receipt_fields =
    "route" ∷ "parent_bound" ∷ "active_parent_filter_applied" ∷ "page_count" ∷ "terminal_reached"
    ∷ "terminal_cursor_digest" ∷ "thread_count" ∷ "thread_set_digest" ∷ "locked_count"
    ∷ "authorization_confirmed" ∷ "authorization_capability" ∷ []

abbrev pub is_bool : Value → Bool
is_bool (bool b) = true
is_bool _ = false

-- `value == text`, for a text or None
abbrev pub is_optional : Option String → Value → Bool
is_optional none v = is_null v
is_optional (some s) v = is_text s v

abbrev at_least : ℕ → Option ℕ → Bool
at_least minimum none = false
at_least minimum (some n) = leb minimum n

abbrev not_above : Option ℕ → Option ℕ → Bool
not_above (some m) (some n) = leb m n
not_above _ _ = true

-- The tests of the receipt's counts.
abbrev pub valid_counts : Fields → Bool
valid_counts r =
    at_least 1 (natural_of (get "page_count" r))
    && at_least 0 (natural_of (get "thread_count" r))
    && at_least 0 (natural_of (get "locked_count" r))
    && not_above (natural_of (get "locked_count" r)) (natural_of (get "thread_count" r))

abbrev pub valid_digests : Runtime → Fields → Bool
valid_digests rt r =
    is_sha256 (get "terminal_cursor_digest" r)
    && is_sha256 (get "thread_set_digest" r)
    && (not (eq_nat (get "thread_count" r) 0)
        || is_text (digest_ids rt []) (get "thread_set_digest" r))

abbrev pub valid_authorization : String → Value → Value → Bool
valid_authorization scope confirmed capability =
    (is_null confirmed || (str_eq scope archived_private && is_bool confirmed))
    && is_optional (if is_true confirmed then some "manage_threads" else none) capability

-- `_normalized_scope_receipt_valid`
unfoldable pub valid_receipt : Runtime → String → Fields → Bool
valid_receipt rt scope r =
    all (λ k. has_key k r) receipt_fields
    && is_optional (scope_route scope) (get "route" r)
    && is_true (get "parent_bound" r)
    && is_bool (get "terminal_reached" r)
    && is_bool (get "active_parent_filter_applied" r)
    && (not (str_eq scope active_filtered) || is_true (get "active_parent_filter_applied" r))
    && valid_counts r
    && valid_digests rt r
    && valid_authorization scope (get "authorization_confirmed" r)
        (get "authorization_capability" r)

abbrev with_text : Value → Option (List String) → Option (List String)
with_text (str s) (some rest) = if is_empty (strip s) then none else some (s ∷ rest)
with_text _ _ = none

abbrev texts : List Value → Option (List String)
texts [] = some []
texts (v ∷ vs) = with_text v (texts vs)

-- The thread ids of a receipt, if they are a list of texts and none is blank.
unfoldable pub thread_ids : Value → Option (List String)
thread_ids (arr vs) = texts (items vs)
thread_ids _ = none

-- `terminal_cursor if terminal_cursor is not None else "<none>"`, if it is a text or None
abbrev pub cursor_text : Value → Option String
cursor_text (str s) = some s
cursor_text null = some "<none>"
cursor_text _ = none

abbrev pub authorized_by : Option Fields → Value
authorized_by none = null
authorized_by (some a) =
    bool (is_text "manage_threads" (get "capability" a) && is_true (get "confirmed" a))

unfoldable pub authorization_confirmed : String → Fields → Value
authorization_confirmed scope r =
    if str_eq scope archived_private
    then authorized_by (as_fields (get "authorization" r))
    else null

abbrev pub capability_value : Value → Value
capability_value confirmed = if is_true confirmed then str "manage_threads" else null

-- What is kept of a receipt.
pub record Kept : Type 0 where
  pub route : String
  pub filtered : Bool
  pub page_count : ℕ
  pub terminal_reached : Bool
  pub cursor : String
  pub ids : List String
  pub locked_count : ℕ
  pub confirmed : Value

unfoldable pub normalized_fields : Runtime → Kept → Fields
normalized_fields rt k = field "route" (str k.route) (
    field "parent_bound" (bool true) (
      field "active_parent_filter_applied" (bool k.filtered) (
        field "page_count" (int (pos k.page_count)) (
          field "terminal_reached" (bool k.terminal_reached) (
            field "terminal_cursor_digest" (str (rt.sha256 (codes k.cursor))) (
              field "thread_count" (int (pos (length k.ids))) (
                field "thread_set_digest" (str (digest_ids rt k.ids)) (
                  field "locked_count" (int (pos k.locked_count)) (
                    field "authorization_confirmed" k.confirmed
                      (field "authorization_capability" (capability_value k.confirmed) end))))))))))

abbrev pub bool_or : StoreError → Value → Result StoreError Bool
bool_or e (bool b) = ok b
bool_or e _ = err e

abbrev pub natural_or : StoreError → Value → Result StoreError ℕ
natural_or e (int (pos n)) = ok n
natural_or e _ = err e

abbrev pub option_or : {A : Type 0} → StoreError → Option A → Result StoreError A
option_or e none = err e
option_or e (some a) = ok a

-- The route of a scope, if the receipt names it.
abbrev pub route_or : Value → Option String → Result StoreError String
route_or v none = err route_mismatch
route_or v (some route) = if is_text route v then ok route else err route_mismatch

-- The tests of one receipt, in order, and what is kept of it.
unfoldable pub keep_receipt : String → String → Fields → Result StoreError Kept
keep_receipt parent_key scope r = do
  route ← route_or (get "route" r) (scope_route scope)
  require (is_text parent_key (get "parent_target_key" r)) parent_binding_mismatch
  filtered ← bool_or filter_boolean_required (get "active_parent_filter_applied" r)
  require (not (str_eq scope active_filtered) || filtered) filter_required
  pages ← natural_or page_count_invalid (get "page_count" r)
  require (leb 1 pages) page_count_invalid
  reached ← bool_or terminal_evidence_required (get "terminal_reached" r)
  require (has_key "terminal_cursor" r) terminal_evidence_required
  cursor ← option_or terminal_cursor_invalid (cursor_text (get "terminal_cursor" r))
  ids ← option_or thread_ids_invalid (thread_ids (get "thread_ids" r))
  require (is_distinct ids) duplicate_thread_id
  locked ← natural_or locked_count_invalid (get "locked_count" r)
  require (leb locked (length ids)) locked_count_invalid
  ok (record {
    route = route;
    filtered = filtered;
    page_count = pages;
    terminal_reached = reached;
    cursor = cursor;
    ids = ids;
    locked_count = locked;
    confirmed = authorization_confirmed scope r;
  })

-- The receipts that are normalized, by scope, with the ids that each was given.
abbrev pub Normalized : Type 0
Normalized = List (String × (Fields × List String))

unfoldable pub normalize_receipt :
    Runtime → String → String → Fields → Result StoreError (Fields × List String)
normalize_receipt rt parent_key scope r = do
  kept ← keep_receipt parent_key scope r
  require (valid_receipt rt scope (normalized_fields rt kept)) normalized_invalid
  ok (normalized_fields rt kept, kept.ids)

unfoldable pub normalize_each : Runtime → String → Fields → Result StoreError Normalized
normalize_each rt parent_key end = ok []
normalize_each rt parent_key (field scope (obj r) rest) = do
  first ← normalize_receipt rt parent_key scope r
  others ← normalize_each rt parent_key rest
  ok ((scope, first) ∷ others)
normalize_each rt parent_key (field scope v rest) = err object_required

abbrev pub all_ids : Normalized → List String
all_ids [] = []
all_ids ((scope, (r, ids)) ∷ rest) = ids ++ all_ids rest

abbrev pub receipts_of : Normalized → Fields
receipts_of [] = end
receipts_of ((scope, (r, ids)) ∷ rest) = field scope (obj r) (receipts_of rest)

abbrev pub keys_of : Fields → List String
keys_of end = []
keys_of (field k v fs) = k ∷ keys_of fs

abbrev pub distinct_or : Normalized → Result StoreError Normalized
distinct_or n = if is_distinct (all_ids n) then ok n else err scope_overlap

-- `_normalize_scope_receipts`
unfoldable pub normalize_scope_receipts :
    Runtime → String → String → Fields → Result StoreError Normalized
normalize_scope_receipts rt parent_key kind receipts = do
  required ← option_or parent_kind_invalid (required_scopes kind)
  require (all (λ s. contains s required) (keys_of receipts)) not_applicable
  n ← normalize_each rt parent_key receipts
  distinct_or n
