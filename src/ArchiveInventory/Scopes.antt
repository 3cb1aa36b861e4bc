-- ===== src/ArchiveInventory/Scopes.antt =====
-- The scope receipts of archive_inventory.py: threads bound to their parent, by scope.
use discord_context_bridge.Shared.{
  true, false, none, some, [], ◌∷◌, ok, err, str, bool, null, int, float, obj, arr, end, field, nil,
  cons, pos, negsuc, zero, suc, inl, inr, Bool, Option, List, Clock, Dict, String, Value, Result,
  str_eq, Items, sorted_set, ℕ, insert, not, Fields, all, length, get, ◌&&◌, lookup, if◌then◌else◌,
  as_sequence, normalized_time, is_null, ◌>>=◌, any, is_text, contains, ◌||◌, ◌++◌, is_empty,
}
pub mod Distinct
pub mod Active
mod Tests
use discord_context_bridge.ArchiveInventory.{
  Enumeration, text_value, key_of, Bool, Option, List, Dict, String, Value, Result, str_eq,
  sorted_set, ℕ, insert, not, Fields, as_sequence, length, get, contains, is_empty,
}

pub data ScopeError : Type 0 where
  parent_kind_invalid binding_required observed_at_invalid required_scope_missing : ScopeError
  scope_threads_invalid scope_thread_invalid scope_thread_id_missing : ScopeError
  active_threads_invalid active_thread_invalid : ScopeError
  parent_binding_mismatch locked_required duplicate_thread_id scope_overlap : ScopeError

-- What the receipts are made of: a result of the enumeration or of the filter below.
pub record ScopeResult : Type 0 where
  pub scope : String
  pub pages : ℕ
  pub terminal_reached : Bool
  pub terminal_cursor : Option String
  pub threads : Value

abbrev records : Dict Fields → Items
records [] = nil
records ((id, fs) ∷ threads) = cons (obj fs) (records threads)

-- `list(threads.values())`
unfoldable pub scope_result : Enumeration → ScopeResult
scope_result e = record {
  scope = e.scope;
  pages = e.pages;
  terminal_reached = e.pagination_exhausted;
  terminal_cursor = e.terminal_cursor;
  threads = arr (records e.threads);
}

-- `parent_id is not None and parent_id != parent_target_key`
abbrev other_parent : String → Value → Bool
other_parent parent v = not (is_null v) && not (is_text parent v)

abbrev bool_value : Value → Option Bool
bool_value (bool b) = some b
bool_value _ = none

abbrev locked_thread : String → Option Bool → Result ScopeError (Option (String × Bool))
locked_thread id none = err locked_required
locked_thread id (some locked) = ok (some (id, locked))

abbrev bound_thread :
    String → Bool → Fields → Option String → Result ScopeError (Option (String × Bool))
bound_thread parent filtered item none = err scope_thread_id_missing
bound_thread parent filtered item (some id) =
    if filtered && not (is_text parent (get "parent_id" item))
    then ok none
    else if other_parent parent (get "parent_id" item)
    then err parent_binding_mismatch
    else locked_thread id (bool_value (key_of "locked" (get "thread_metadata" item)))

-- The id of a thread and whether it is locked; nothing for a thread of another parent, where those
-- are filtered out.
unfoldable pub trusted_thread_fields :
    String → Bool → Fields → Result ScopeError (Option (String × Bool))
trusted_thread_fields parent filtered item =
    bound_thread parent filtered item (text_value (get "id" item))

-- The threads of one scope.
pub record Scanned : Type 0 where
  pub ids : List String
  pub locked : List String

abbrev add_thread : Scanned → Option (String × Bool) → Result ScopeError Scanned
add_thread s none = ok s
add_thread s (some (id, locked)) =
    if contains id s.ids
    then err duplicate_thread_id
    else ok (record {
      ids = s.ids ++ id ∷ [];
      locked = if locked then s.locked ++ id ∷ [] else s.locked;
    })

unfoldable pub scan_thread : String → Bool → Scanned → Value → Result ScopeError Scanned
scan_thread parent filtered s (obj item) = do
  t ← trusted_thread_fields parent filtered item
  add_thread s t
scan_thread parent filtered s _ = err scope_thread_invalid

unfoldable pub scan_threads : String → Bool → Scanned → List Value → Result ScopeError Scanned
scan_threads parent filtered s [] = ok s
scan_threads parent filtered s (v ∷ vs) = do
  s' ← scan_thread parent filtered s v
  scan_threads parent filtered s' vs

abbrev pub nothing_scanned : Scanned
nothing_scanned = record { ids = []; locked = [] }

unfoldable pub scan_scope : String → Bool → Value → Result ScopeError Scanned
scan_scope parent filtered threads = elim (as_sequence threads) [
  | none ↦ err scope_threads_invalid
  | some vs ↦ scan_threads parent filtered nothing_scanned vs
]

pub record ScopeReceipt : Type 0 where
  pub scope : String
  pub page_count : ℕ
  pub terminal_reached : Bool
  pub terminal_cursor : Option String
  pub active_parent_filter_applied : Bool
  pub locked_count : ℕ
  pub thread_ids : List String
  pub authorized : Option Bool

abbrev pub active_filtered : String
active_filtered = "active_filtered"

abbrev pub archived_private : String
archived_private = "archived_private"

abbrev receipt_of : Bool → String → ScopeResult → Scanned → ScopeReceipt
receipt_of confirmed scope r s = record {
  scope = scope;
  page_count = r.pages;
  terminal_reached = r.terminal_reached;
  terminal_cursor = r.terminal_cursor;
  active_parent_filter_applied = str_eq scope active_filtered;
  locked_count = length s.locked;
  thread_ids = s.ids;
  authorized = if str_eq scope archived_private then some confirmed else none;
}

-- The receipts so far, with all ids and the locked ones.
pub record Gathered : Type 0 where
  pub receipts : List ScopeReceipt
  pub all_ids : List String
  pub locked_ids : List String

abbrev pub nothing_gathered : Gathered
nothing_gathered = record { receipts = []; all_ids = []; locked_ids = [] }

abbrev add_receipt : Bool → String → ScopeResult → Gathered → Scanned → Result ScopeError Gathered
add_receipt confirmed scope r g s =
    if any (λ id. contains id g.all_ids) s.ids
    then err scope_overlap
    else ok (record {
      receipts = g.receipts ++ receipt_of confirmed scope r s ∷ [];
      all_ids = g.all_ids ++ s.ids;
      locked_ids = g.locked_ids ++ s.locked;
    })

unfoldable pub gather_scope :
    String → Bool → String → ScopeResult → Gathered → Result ScopeError Gathered
gather_scope parent confirmed scope r g = do
  s ← scan_scope parent (str_eq scope active_filtered) r.threads
  add_receipt confirmed scope r g s

unfoldable pub gather :
    String → Bool → List (String × ScopeResult) → Gathered → Result ScopeError Gathered
gather parent confirmed [] g = ok g
gather parent confirmed ((scope, r) ∷ rest) g = do
  g' ← gather_scope parent confirmed scope r g
  gather parent confirmed rest g'

-- The last result of each scope.
unfoldable pub archived_by_scope : List ScopeResult → Dict ScopeResult → Dict ScopeResult
archived_by_scope [] d = d
archived_by_scope (r ∷ rs) d = archived_by_scope rs (insert r.scope r d)

abbrev with_private :
    ScopeResult → ScopeResult → Option ScopeResult → Result ScopeError (List (String × ScopeResult))
with_private active pub_result none = err required_scope_missing
with_private active pub_result (some r) =
    ok ((active_filtered, active) ∷ ("archived_public", pub_result) ∷ (archived_private, r) ∷ [])

abbrev with_public :
    Bool
    → ScopeResult
    → Option ScopeResult
    → Option ScopeResult
    → Result ScopeError (List (String × ScopeResult))
with_public is_text_parent active none private = err required_scope_missing
with_public is_text_parent active (some r) private =
    if is_text_parent
    then with_private active r private
    else ok ((active_filtered, active) ∷ ("archived_public", r) ∷ [])

-- The scopes that a parent needs, with their results.
unfoldable pub source_results :
    String → ScopeResult → List ScopeResult → Result ScopeError (List (String × ScopeResult))
source_results parent_kind active archived =
    let d = archived_by_scope archived [] in
    with_public (str_eq parent_kind "text") active (lookup "public" d) (lookup "private" d)

abbrev parent_kinds : List String
parent_kinds = "announcement" ∷ "forum" ∷ "media" ∷ "text" ∷ []

-- The arguments that say what was scanned.
pub record Scan : Type 0 where
  pub parent_target_key : String
  pub parent_kind : String
  pub scan_id : String
  pub observed_at : String
  pub private_authorization_confirmed : Bool

pub record Inventory : Type 0 where
  pub observed_at : String
  pub scope_receipts : List ScopeReceipt
  pub thread_ids : List String
  pub pagination_exhausted : Bool
  pub locked_count : ℕ

abbrev pub all_terminal : List ScopeReceipt → Bool
all_terminal rs = all (λ r. r.terminal_reached) rs

unfoldable pub inventory_of : Scan → String → Gathered → Inventory
inventory_of q observed_at g = record {
  observed_at = observed_at;
  scope_receipts = g.receipts;
  thread_ids = sorted_set g.all_ids;
  pagination_exhausted =
      all_terminal g.receipts
      && (not (str_eq q.parent_kind "text") || q.private_authorization_confirmed);
  locked_count = length (sorted_set g.locked_ids);
}

abbrev observed : Clock → Scan → Result ScopeError String
observed clock q = elim (normalized_time clock q.observed_at) [
  | none ↦ err observed_at_invalid
  | some t ↦ ok t
]

unfoldable pub build_scope_receipts_inventory :
    Clock → Scan → ScopeResult → List ScopeResult → Result ScopeError Inventory
build_scope_receipts_inventory clock q active archived =
    if not (contains q.parent_kind parent_kinds)
    then err parent_kind_invalid
    else if is_empty q.parent_target_key || is_empty q.scan_id || is_empty q.observed_at
    then err binding_required
    else do
      t ← observed clock q
      rs ← source_results q.parent_kind active archived
      g ← gather q.parent_target_key q.private_authorization_confirmed rs nothing_gathered
      ok (inventory_of q t g)

abbrev keep : Value → Option (String × Bool) → List Value → List Value
keep v none vs = vs
keep v (some t) vs = v ∷ vs

unfoldable pub filter_active : String → List Value → Result ScopeError (List Value)
filter_active parent [] = ok []
filter_active parent (obj item ∷ vs) = do
  t ← trusted_thread_fields parent true item
  rest ← filter_active parent vs
  ok (keep (obj item) t rest)
filter_active parent (v ∷ vs) = err active_thread_invalid

abbrev items_of : List Value → Items
items_of [] = nil
items_of (v ∷ vs) = cons v (items_of vs)

-- The active threads of a guild, without those of other parents.
unfoldable pub build_active_filtered_result : String → Fields → Result ScopeError ScopeResult
build_active_filtered_result parent payload = elim (as_sequence (get "threads" payload)) [
  | none ↦ err active_threads_invalid
  | some vs ↦ (do
    kept ← filter_active parent vs
    ok (record {
      scope = active_filtered;
      pages = 1;
      terminal_reached = true;
      terminal_cursor = none;
      threads = arr (items_of kept);
    }))
]
