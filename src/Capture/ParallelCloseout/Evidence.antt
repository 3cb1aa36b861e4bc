-- ===== src/Capture/ParallelCloseout/Evidence.antt =====
-- capture/parallel_closeout.py: what a run directory proves of its items, its producers and its end.
use discord_context_bridge.Shared.{
  true, false, none, some, [], ◌∷◌, obj, arr, end, field, zero, suc, List, ℕ, Fields, Option,
  String, Runtime, Bool, Value, ◌&&◌, sorted_set, any, ◌++◌, length, is_text, ◌==◌, if◌then◌else◌,
  is_nil, get, items, ◌+◌, all, is_some, is_true,
}
use discord_context_bridge.Capture.Reconcile.{same_set}
use discord_context_bridge.Capture.ParallelCloseout.{
  Shard, Line, blank, row, RunDir, Hashed, mapping_value, is_digest, given_text, names_below,
  expected_worker_names, run_definition_sha256, valid_ready, valid_receipt, ledger_matches_receipt,
  one_of, List, ℕ, Fields, Option, String, Runtime, Bool, is_text, length, Value, all, get, items,
}

-- The items that are bound so far, and the blockers.
pub record BoundItems : Type 0 where
  pub bindings : List (ℕ × ℕ)
  pub blockers : List String

abbrev pub binds : ℕ × ℕ → List (ℕ × ℕ) → Bool
binds b bindings = any (λ c. b.0 == c.0 && b.1 == c.1) bindings

abbrev with_blocker : String → BoundItems → BoundItems
with_blocker reason s = record s { blockers = s.blockers ++ reason ∷ [] }

abbrev add_binding : ℕ × ℕ → BoundItems → BoundItems
add_binding b s =
    if binds b s.bindings
    then with_blocker "canonical_shard_binding_duplicate" s
    else record s { bindings = s.bindings ++ b ∷ [] }

-- `for index, item in enumerate(payload)`
unfoldable pub add_items : ℕ → ℕ → List Value → BoundItems → BoundItems
add_items w i [] s = s
add_items w i (obj fs ∷ vs) s = add_items w (i + 1) vs (add_binding (w, i) s)
add_items w i (v ∷ vs) s = add_items w (i + 1) vs (with_blocker "canonical_shard_item_invalid" s)

abbrev count_at : List ℕ → ℕ → Option ℕ
count_at [] n = none
count_at (c ∷ cs) zero = some c
count_at (c ∷ cs) (suc n) = count_at cs n

abbrev is_count : ℕ → Option ℕ → Bool
is_count n none = false
is_count n (some m) = n == m

abbrev check_count : List ℕ → ℕ → List Value → BoundItems → BoundItems
check_count counts w vs s =
    if is_count (length vs) (count_at counts w)
    then s
    else with_blocker "canonical_shard_item_count_mismatch" s

unfoldable pub add_shard : List ℕ → Option ℕ → Option Value → BoundItems → BoundItems
add_shard counts (some w) (some (arr vs)) s =
    add_items w 0 (items vs) (check_count counts w (items vs) s)
add_shard counts w payload s = with_blocker "canonical_shard_invalid" s

unfoldable pub add_shards : List ℕ → List Shard → BoundItems → BoundItems
add_shards counts [] s = s
add_shards counts (f ∷ fs) s = add_shards counts fs (add_shard counts f.worker f.payload s)

abbrev names_found : List Shard → List String
names_found [] = []
names_found (f ∷ fs) = f.name ∷ names_found fs

-- `_canonical_bindings`
unfoldable pub canonical_bindings : Runtime → List Shard → List ℕ → BoundItems
canonical_bindings rt [] counts = record {
  bindings = [];
  blockers = "canonical_shards_missing" ∷ [];
}
canonical_bindings rt (f ∷ fs) counts = add_shards counts (f ∷ fs) (record {
  bindings = [];
  blockers =
      if same_set (names_found (f ∷ fs)) (names_below rt (length counts))
      then []
      else "canonical_shard_topology_mismatch" ∷ [];
})

abbrev ready_at : Hashed → ℕ × ℕ → Option Fields → Bool
ready_at h b none = false
ready_at h b (some payload) = valid_ready h b.0 b.1 payload

-- `binding in ready_payloads`
unfoldable pub has_ready : Hashed → RunDir → ℕ × ℕ → Bool
has_ready h dir b = ready_at h b (mapping_value (dir.ready b.0 b.1))

abbrev receipt_at : Hashed → ℕ × ℕ → Option Fields → Option Fields
receipt_at h b none = none
receipt_at h b (some payload) = if valid_receipt h b.0 b.1 payload then some payload else none

-- `receipt_payloads.get(binding)`
unfoldable pub valid_receipt_of : Hashed → RunDir → ℕ × ℕ → Option Fields
valid_receipt_of h dir b = receipt_at h b (mapping_value (dir.receipt b.0 b.1))

abbrev ledger_rows : List Line → List Fields
ledger_rows [] = []
ledger_rows (row (obj fs) ∷ ls) = fs ∷ ledger_rows ls
ledger_rows (l ∷ ls) = ledger_rows ls

abbrev is_row : Line → Bool
is_row blank = true
is_row (row (obj fs)) = true
is_row _ = false

pub record CommitLedger : Type 0 where
  pub rows : List Fields
  pub row_count : ℕ
  pub valid : Bool

-- `_load_commit_ledger`
unfoldable pub load_commit_ledger : Option (List Line) → CommitLedger
load_commit_ledger none = record { rows = []; row_count = 0; valid = false }
load_commit_ledger (some ls) = record {
  rows = ledger_rows ls;
  row_count = length ls;
  valid = all is_row ls;
}

-- `binding in ledger_bindings`
unfoldable pub has_ledger : Hashed → RunDir → List Fields → ℕ × ℕ → Bool
has_ledger h dir rows b = elim (valid_receipt_of h dir b) [
  | none ↦ false
  | some receipt ↦ any (ledger_matches_receipt h b.0 b.1 receipt) rows
]

abbrev pub text_bound : RunDir → ℕ × ℕ → Fields → Bool
text_bound dir b receipt =
    if is_text "committed" (get "commit_state" receipt)
    then is_digest (dir.text_hash b.0 b.1) (get "text_sha256" receipt)
    else true

-- `binding in artifact_hash_bindings`
unfoldable pub has_hashes : Hashed → RunDir → ℕ × ℕ → Bool
has_hashes h dir b = elim (valid_receipt_of h dir b) [
  | none ↦ false
  | some receipt ↦
      has_ready h dir b
      && is_digest (dir.ready_hash b.0 b.1) (get "ready_sha256" receipt)
      && text_bound dir b receipt
]

-- A receipt of an item without text.
unfoldable pub is_without_text : Hashed → RunDir → ℕ × ℕ → Bool
is_without_text h dir b = elim (valid_receipt_of h dir b) [
  | none ↦ false
  | some receipt ↦ is_text "recorded_without_text" (get "commit_state" receipt)
]

-- One receipt of `_producer_drains_valid`
unfoldable pub valid_drain : String → String → Fields → Bool
valid_drain run_digest producer receipt =
    is_text "dcb.parallel-producer-drain-receipt.v1" (get "schema" receipt)
    && is_text "producer.drained" (get "event_type" receipt)
    && given_text (get "event_id" receipt)
    && is_text producer (get "producer" receipt)
    && is_text run_digest (get "run_definition_sha256" receipt)
    && is_text producer (get "emitted_by" receipt)
    && is_text "disabled" (get "outbound_actions" receipt)

abbrev pub drain_field : String → String → Option Fields → Option Fields → Option Fields
drain_field digest producer (some receipt) (some rest) =
    if valid_drain digest producer receipt then some (field producer (obj receipt) rest) else none
drain_field digest producer _ _ = none

-- The receipts of the producers, if all of them are valid.
unfoldable pub drain_receipts : String → RunDir → List String → Option Fields
drain_receipts digest dir [] = some end
drain_receipts digest dir (p ∷ ps) =
    drain_field digest p (mapping_value (dir.terminal p)) (drain_receipts digest dir ps)

abbrev digest_of : Hashed → Option Fields → Option String
digest_of h none = none
digest_of h (some receipts) = some (h.mapping_digest receipts)

-- `_producer_drains_sha256`: the run has a worker at least.
unfoldable pub producer_drains_sha256 : Hashed → RunDir → Fields → Option String
producer_drains_sha256 h dir metadata =
    let workers = expected_worker_names h.runtime metadata in
    let receipts =
      drain_receipts (run_definition_sha256 h metadata) dir (sorted_set ("importer" ∷ workers)) in
    if is_nil workers then none else digest_of h receipts

abbrev pub stop_reasons : List String
stop_reasons = "completed" ∷ "producer_failed" ∷ "operator_cancelled" ∷ "superseded" ∷ []

-- The tests of `_run_quiescence_blocker` on a receipt.
unfoldable pub valid_stop : Hashed → RunDir → Fields → Fields → Bool
valid_stop h dir metadata receipt =
    is_text "dcb.parallel-run-stop-receipt.v1" (get "schema" receipt)
    && is_text "producer.quiesced" (get "event_type" receipt)
    && given_text (get "event_id" receipt)
    && one_of stop_reasons (get "stopped_reason" receipt)
    && is_text (run_definition_sha256 h metadata) (get "run_definition_sha256" receipt)
    && is_some dir.evidence_digest
    && is_digest dir.evidence_digest (get "evidence_snapshot_sha256" receipt)
    && is_true (get "workers_drained" receipt)
    && is_true (get "importer_drained" receipt)
    && is_digest (producer_drains_sha256 h dir metadata)
        (get "producer_drain_receipts_sha256" receipt)
    && is_text "discord-capture-event-router" (get "emitted_by" receipt)
    && is_text "disabled" (get "outbound_actions" receipt)

abbrev stop_blocker : Hashed → RunDir → Fields → Option Fields → Option String
stop_blocker h dir metadata none = some "producer_stop_receipt_missing"
stop_blocker h dir metadata (some receipt) =
    if valid_stop h dir metadata receipt
    then none
    else some "producer_stop_receipt_invalid_or_stale"

-- `_run_quiescence_blocker`
unfoldable pub run_quiescence_blocker : Hashed → RunDir → Fields → Option String
run_quiescence_blocker h dir metadata = stop_blocker h dir metadata (mapping_value dir.stop_receipt)
