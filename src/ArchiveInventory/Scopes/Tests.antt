-- ===== src/ArchiveInventory/Scopes/Tests.antt =====
-- An inventory of two scopes on concrete results, and the theorems at it.
use discord_context_bridge.Shared.{
  true, false, none, some, [], ◌∷◌, ok, err, str, bool, obj, arr, end, field, nil, cons, String,
  ◌≡◌, normalized_time, Result, Clock, List, Items, Bool, replace_z, Value, ℕ, lookup, insert,
  sorted_set, strip, refl,
}
use discord_context_bridge.ArchiveInventory.Scopes.{
  trusted_thread_fields, scan_thread, scan_threads, scan_scope, gather_scope, gather,
  archived_by_scope, source_results, inventory_of, build_scope_receipts_inventory, filter_active,
  build_active_filtered_result, Scan, ScopeResult, Inventory, String, normalized_time, Result,
  Clock, List, Bool, Value, Items, ScopeError, scope_overlap, ℕ, lookup, insert, sorted_set,
}
use discord_context_bridge.ArchiveInventory.Scopes.Distinct.{IsInventory, build-IsInventory}

program : Unit {0}
unfolding trusted_thread_fields scan_thread scan_threads scan_scope gather_scope gather
    archived_by_scope source_results inventory_of build_scope_receipts_inventory filter_active
    build_active_filtered_result normalized_time replace_z lookup insert sorted_set strip
program = tt

abbrev clock : Clock
clock = record { from_iso = λ text. some (some 7); iso_text = λ t. "2026-01-01" }

abbrev thread : String → String → Bool → Value
thread id parent locked = obj (
    field "id" (str id) (
      field "parent_id" (str parent)
        (field "thread_metadata" (obj (field "locked" (bool locked) end)) end)))

abbrev result : String → Items → ScopeResult
result scope threads = record {
  scope = scope;
  pages = 1;
  terminal_reached = true;
  terminal_cursor = none;
  threads = arr threads;
}

abbrev active : ScopeResult
active = result "active_filtered" (cons (thread "t1" "p" false) nil)

abbrev archived : List ScopeResult
archived = result "public" (cons (thread "t2" "p" true) nil) ∷ []

abbrev scan : Scan
scan = record {
  parent_target_key = "p";
  parent_kind = "forum";
  scan_id = "s1";
  observed_at = "2026-01-01T00:00:00Z";
  private_authorization_confirmed = false;
}

abbrev inventory_after : Result ScopeError Inventory → List String × Bool × ℕ
inventory_after (ok inv) = (inv.thread_ids, inv.pagination_exhausted, inv.locked_count)
inventory_after (err e) = ([], false, 0)

built :
    inventory_after (build_scope_receipts_inventory clock scan active archived)
    ≡ ("t1" ∷ "t2" ∷ [], true, 1)
unfolding program
built = refl

abbrev built_inventory : Result ScopeError Inventory → Inventory
built_inventory (ok inv) = inv
built_inventory (err e) = record {
  observed_at = "";
  scope_receipts = [];
  thread_ids = [];
  pagination_exhausted = false;
  locked_count = 0;
}

abbrev inventory : Inventory
inventory = built_inventory (build_scope_receipts_inventory clock scan active archived)

inventory_lem : build_scope_receipts_inventory clock scan active archived ≡ ok inventory
unfolding program
inventory_lem = refl

-- A thread in two scopes is refused.
overlap :
    build_scope_receipts_inventory clock scan active
      (result "public" (cons (thread "t1" "p" true) nil) ∷ [])
    ≡ err scope_overlap
unfolding program
overlap = refl

abbrev guild : List Value
guild = thread "t1" "p" false ∷ thread "t9" "q" false ∷ []

filtered : filter_active "p" guild ≡ ok (thread "t1" "p" false ∷ [])
unfolding program
filtered = refl

build-IsInventory_example : IsInventory scan inventory
build-IsInventory_example = build-IsInventory clock scan active archived inventory_lem
