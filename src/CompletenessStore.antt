-- ===== src/CompletenessStore.antt =====
-- completeness_store.py: the SQLite store of inventories and certificates. A table is the list of
-- its rows; the membership rows of a scan stand in the row of the scan. A column of JSON text is
-- the value that it is loaded to. A call that raises leaves the tables as they were, since the
-- transaction is rolled back.
use discord_context_bridge.Shared.{
  true, false, none, some, [], ◌∷◌, ok, err, str, bool, null, int, float, obj, arr, end, field, nil,
  cons, pos, negsuc, zero, suc, inl, inr, Runtime, String, List, ℕ, Value, Option, digest, Bool,
  if◌then◌else◌, contains, str_eq, sorted_set, Clock, ℤ,
}
pub mod ScopeReceipts
pub mod Recording
pub mod Verified
pub mod Audit
pub mod ParentCertificate
pub mod Reconciled
pub mod Returned
pub mod Recorded
pub mod Unreachable
pub mod Bindings
pub mod Reachable
pub mod Strict
pub mod Complete
pub mod Retiring
pub mod Closeout
pub mod Accepted
mod Tests

pub data StoreError : Type 0 where
  parent_kind_invalid not_applicable object_required route_mismatch : StoreError
  parent_binding_mismatch filter_boolean_required filter_required page_count_invalid : StoreError
  terminal_evidence_required terminal_cursor_invalid thread_ids_invalid : StoreError
  duplicate_thread_id locked_count_invalid normalized_invalid scope_overlap : StoreError
  inventory_binding_required canonical_evidence_required pagination_boolean_required : StoreError
  scope_boolean_required time_invalid duplicate_scan thread_id_required : StoreError
  capture_id_required thread_binding_mismatch boolean_required parent_inventory_missing : StoreError
  capture_id_bound count_invalid : StoreError

-- What is not under the repository: hashes and texts of values, the reading of times, and `int` of
-- a text, which is nothing where it raises.
pub record Host : Type 0 where
  pub runtime : Runtime
  pub clock : Clock
  pub int_text : String → Option ℤ

-- A text column with JSON: NULL or empty, text that is no JSON, or a JSON value.
pub data Column : Type 0 where
  absent broken : Column
  loaded : Value → Column

-- A row of inventory_scans with its rows of inventory_threads: the ids with their scopes.
pub record Scan : Type 0 where
  pub id : ℕ
  pub parent_target_key : String
  pub scan_id : String
  pub observed_at : String
  pub thread_count : ℕ
  pub thread_set_digest : String
  pub parent_kind : Option String
  pub scope_receipts : Column
  pub threads : List (String × Option String)

-- A row of child_capture_certificates.
pub record Certificate : Type 0 where
  pub parent_target_key : String
  pub thread_id : String
  pub capture_id : String
  pub gate_schema : String
  pub status : String
  pub full_capture_confirmed : Bool
  pub message_count : ℕ
  pub attachment_discovered_count : ℕ
  pub attachment_saved_count : ℕ
  pub attachment_manifested_count : ℕ
  pub attachments_consistent : Bool
  pub unresolved_gap_count : ℕ
  pub pending_retry_count : ℕ
  pub blockers : Value

-- A row of child_certificate_retirements.
pub record Retirement : Type 0 where
  pub parent_target_key : String
  pub thread_id : String
  pub capture_id : String

pub record Store : Type 0 where
  pub parent_targets : List String
  pub inventory_scans : List Scan
  pub next_scan : ℕ
  pub certificates : List Certificate
  pub retirements : List Retirement

-- The tables that `initialize` makes.
abbrev pub empty_store : Store
empty_store = record {
  parent_targets = [];
  inventory_scans = [];
  next_scan = 1;
  certificates = [];
  retirements = [];
}

abbrev pub active_filtered : String
active_filtered = "active_filtered"

abbrev pub archived_public : String
archived_public = "archived_public"

abbrev pub archived_private : String
archived_private = "archived_private"

-- `REQUIRED_SCOPES_BY_PARENT_KIND.get(kind)`
unfoldable pub required_scopes : String → Option (List String)
required_scopes kind =
    if contains kind ("announcement" ∷ "forum" ∷ "media" ∷ [])
    then some (active_filtered ∷ archived_public ∷ [])
    else if str_eq kind "text"
    then some (active_filtered ∷ archived_public ∷ archived_private ∷ [])
    else none

abbrev scopes_of : Option (List String) → List String
scopes_of none = []
scopes_of (some scopes) = scopes

-- `REQUIRED_SCOPES_BY_PARENT_KIND.get(kind, ())`, where the kind may be NULL
unfoldable pub scopes_of_kind : Option String → List String
scopes_of_kind none = []
scopes_of_kind (some kind) = scopes_of (required_scopes kind)

-- `SCOPE_ROUTES.get(scope)`
unfoldable pub scope_route : String → Option String
scope_route scope =
    if str_eq scope active_filtered
    then some "GET /guilds/{guild_id}/threads/active"
    else if str_eq scope archived_public
    then some "GET /channels/{channel_id}/threads/archived/public"
    else if str_eq scope archived_private
    then some "GET /channels/{channel_id}/threads/archived/private"
    else none

-- `_digest_ids`
unfoldable pub digest_ids : Runtime → List String → String
digest_ids rt values = digest rt (sorted_set values)

abbrev pub natural_of : Value → Option ℕ
natural_of (int (pos n)) = some n
natural_of _ = none

abbrev pub natural_or_zero : Option ℕ → ℕ
natural_or_zero none = 0
natural_or_zero (some n) = n
