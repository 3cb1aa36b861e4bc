-- ===== src/Capture/ParallelCloseout.antt =====
-- capture/parallel_closeout.py: the closeout of a legacy parallel run, as far as it decides. A run
-- directory is what the readers of its files return: a JSON file is its value, or `none` where
-- `_load_json` gives None, and a file is its digest, or `none` where `_sha256_file` gives None. A
-- list or mapping where a text is looked up in a set counts as absent; the code raises there.
use discord_context_bridge.Shared.{
  true, false, none, some, [], ◌∷◌, ok, err, str, bool, null, int, float, obj, arr, end, field, nil,
  cons, pos, negsuc, zero, suc, inl, inr, Fields, Value, String, ℕ, Option, List, Runtime, get,
  find, to_str, Bool, ◌>>=◌, length, ◌==◌, contains, is_null, is_text, if◌then◌else◌, items, ◌&&◌,
  not, codes, concat_text, all, is_empty, leb, ◌||◌, is_sha256,
}
use discord_context_bridge.Capture.Reconcile.{same_set}
pub mod Evidence
pub mod Evaluation
pub mod Receipts
pub mod Authority
pub mod Complete
pub mod Items
pub mod Tested
pub mod Stopped
pub mod Proven
pub mod Example
mod Tests

-- A file that the pattern `worker-*.json` finds: its name, the number in it if it matches the
-- regular expression, and its JSON value.
pub record Shard : Type 0 where
  pub name : String
  pub worker : Option ℕ
  pub payload : Option Value

-- A line of the commit ledger: white space only, text that is no JSON, or a JSON value.
pub data Line : Type 0 where
  blank broken : Line
  row : Value → Line

pub record RunDir : Type 0 where
  pub metadata : Option Value
  pub shards : List Shard
  pub ready : ℕ → ℕ → Option Value
  pub receipt : ℕ → ℕ → Option Value
  pub ready_hash : ℕ → ℕ → Option String
  pub text_hash : ℕ → ℕ → Option String
  pub commit_ledger : Option (List Line)
  pub terminal : String → Option Value
  pub stop_receipt : Option Value
  pub evidence_digest : Option String

-- `_mapping_sha256`, and `int(text)` of a text for which `isdigit` holds.
pub record Hashed : Type 0 where
  pub runtime : Runtime
  pub mapping_digest : Fields → String
  pub digits : String → Option ℕ

-- `isinstance(value, int) and not isinstance(value, bool) and value >= 0`
abbrev pub natural_value : Value → Option ℕ
natural_value (int (pos n)) = some n
natural_value _ = none

abbrev pub mapping_value : Option Value → Option Fields
mapping_value (some (obj fs)) = some fs
mapping_value _ = none

abbrev pub one_of : List String → Value → Bool
one_of names (str s) = contains s names
one_of names _ = false

abbrev is_string : Value → Bool
is_string (str s) = true
is_string _ = false

-- `isinstance(value, str) and value`
abbrev pub given_text : Value → Bool
given_text (str s) = not (is_empty s)
given_text _ = false

-- `value == digest`, for a digest or None
abbrev pub is_digest : Option String → Value → Bool
is_digest none v = is_null v
is_digest (some s) v = is_text s v

abbrev with_count : Option ℕ → Option (List ℕ) → Option (List ℕ)
with_count (some n) (some ns) = some (n ∷ ns)
with_count _ _ = none

abbrev counts_of : List Value → Option (List ℕ)
counts_of [] = some []
counts_of (v ∷ vs) = with_count (natural_value v) (counts_of vs)

-- The shard counts, if they are a list of natural numbers.
unfoldable pub shard_counts : Fields → Option (List ℕ)
shard_counts metadata = elim (get "shard_counts" metadata) [
  | arr vs ↦ counts_of (items vs)
  | _ ↦ none
]

-- `f"worker-{index}"`
abbrev worker_name : Runtime → ℕ → String
worker_name rt n = concat_text "worker-" (to_str rt (int (pos n)))

abbrev names_below : Runtime → ℕ → List String
names_below rt zero = []
names_below rt (suc n) = worker_name rt n ∷ names_below rt n

abbrev names_of : Runtime → Option (List ℕ) → List String
names_of rt none = []
names_of rt (some counts) = names_below rt (length counts)

-- `_expected_worker_names`
unfoldable pub expected_worker_names : Runtime → Fields → List String
expected_worker_names rt metadata = names_of rt (shard_counts metadata)

abbrev run_definition_keys : List String
run_definition_keys =
    "browser_mode" ∷ "canonical_count" ∷ "outbound_actions" ∷ "parent_target_key_sha256" ∷ "schema"
    ∷ "server_scope" ∷ "shard_counts" ∷ "started_at" ∷ []

abbrev kept_field : String → Option Value → Fields → Fields
kept_field k none rest = rest
kept_field k (some v) rest = field k v rest

unfoldable pub definition_fields : List String → Fields → Fields
definition_fields [] metadata = end
definition_fields (k ∷ ks) metadata = kept_field k (find k metadata) (definition_fields ks metadata)

-- `_run_definition_sha256`
unfoldable pub run_definition_sha256 : Hashed → Fields → String
run_definition_sha256 h metadata = h.mapping_digest (definition_fields run_definition_keys metadata)

-- `_legacy_index`
unfoldable pub legacy_index : Hashed → Value → Option ℕ
legacy_index h (int (pos n)) = some n
legacy_index h (str s) = h.digits s
legacy_index h _ = none

abbrev pub is_index : ℕ → Option ℕ → Bool
is_index n none = false
is_index n (some m) = m == n

abbrev pub at_place : Hashed → ℕ → ℕ → Fields → Bool
at_place h w i payload =
    is_index w (legacy_index h (get "worker" payload))
    && is_index i (legacy_index h (get "index" payload))

-- `_valid_ready`
unfoldable pub valid_ready : Hashed → ℕ → ℕ → Fields → Bool
valid_ready h w i payload =
    is_text "dcb.browser-spool.v1" (get "schema" payload)
    && one_of ("ready" ∷ "no_message_list" ∷ "nav_thread_missing" ∷ []) (get "status" payload)
    && at_place h w i payload

-- The rest of `_valid_receipt`, by the state of the commit.
abbrev pub valid_source : Fields → Bool
valid_source payload =
    if is_text "committed" (get "commit_state" payload)
    then is_text "ready" (get "source_status" payload) && is_sha256 (get "text_sha256" payload)
    else one_of ("no_message_list" ∷ "nav_thread_missing" ∷ []) (get "source_status" payload)
      && is_null (get "text_sha256" payload)

-- `_valid_receipt`
unfoldable pub valid_receipt : Hashed → ℕ → ℕ → Fields → Bool
valid_receipt h w i payload =
    is_text "dcb-parallel-import-receipt.v1" (get "schema" payload)
    && at_place h w i payload
    && one_of ("committed" ∷ "recorded_without_text" ∷ []) (get "commit_state" payload)
    && is_text "disabled" (get "outbound_actions" payload)
    && is_sha256 (get "ready_sha256" payload)
    && valid_source payload

-- `value == other`, where the other is a text or None
abbrev pub same_value : Value → Value → Bool
same_value v (str s) = is_text s v
same_value v null = is_null v
same_value v _ = false

-- `_ledger_matches_receipt`
unfoldable pub ledger_matches_receipt : Hashed → ℕ → ℕ → Fields → Fields → Bool
ledger_matches_receipt h w i receipt ledger_row =
    one_of ("dcb-parallel-commit-ledger.v1" ∷ "dcb-parallel-commit-ledger-supplement.v1" ∷ [])
      (get "schema" ledger_row)
    && at_place h w i ledger_row
    && same_value (get "commit_state" ledger_row) (get "commit_state" receipt)
    && same_value (get "ready_sha256" ledger_row) (get "ready_sha256" receipt)
    && same_value (get "text_sha256" ledger_row) (get "text_sha256" receipt)
    && is_text "disabled" (get "outbound_actions" ledger_row)
