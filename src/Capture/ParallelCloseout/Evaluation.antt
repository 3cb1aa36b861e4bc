-- ===== src/Capture/ParallelCloseout/Evaluation.antt =====
-- `_evaluate_legacy_parallel_run` of capture/parallel_closeout.py and its two callers: the closeout
-- of a run directory, with the certificate of its parent.
use discord_context_bridge.Shared.{
  true, false, none, some, [], ◌∷◌, Runtime, List, Fields, Option, ℕ, Bool, String, if◌then◌else◌,
  Checks, not, is_some, codes, ◌++◌, get, ◌+◌, sorted_set, is_empty, failed, ◌==◌, is_text, ◌||◌,
  length, ◌&&◌, is_false, is_true,
}
use discord_context_bridge.Capture.ParallelCloseout.{
  RunDir, Hashed, mapping_value, natural_value, shard_counts, Runtime, List, Fields, Option, ℕ,
  Bool, String, codes, get, not, is_empty, is_text, length,
}
use discord_context_bridge.Capture.ParallelCloseout.Evidence.{
  BoundItems, CommitLedger, canonical_bindings, has_ready, valid_receipt_of, has_ledger, has_hashes,
  is_without_text, load_commit_ledger, run_quiescence_blocker,
}

-- `parent_target_key_digest`
unfoldable pub parent_target_key_digest : Runtime → String → String
parent_target_key_digest rt key = rt.sha256 (codes "dcb.parallel-parent-target.v1" ++ 0 ∷ codes key)

abbrev certificate_blocker : Fields → Option String
certificate_blocker audit =
    if not (
      is_text "discord_parent_completeness_certificate.v1" (get "schema" audit)
      && is_false (get "raw_text_returned" audit)
      && is_false (get "identifiers_returned" audit)
      && is_text "disabled" (get "outbound_actions" audit))
    then some "parent_completeness_certificate_invalid"
    else if not
        (is_text "full" (get "status" audit) && is_true (get "parent_full_capture_confirmed" audit))
    then some "parent_completeness_not_full"
    else none

-- `_parent_is_full`: nothing, or why it is not.
unfoldable pub parent_blocker : Option Fields → Option String
parent_blocker none = some "parent_completeness_certificate_missing"
parent_blocker (some audit) = certificate_blocker audit

-- The parent that a caller gives: its certificate, its target key, and whether they are from the
-- completeness store.
pub record Parent : Type 0 where
  pub audit : Option Fields
  pub target_key : String
  pub canonical : Bool

abbrev bound_blockers : Runtime → Parent → Fields → List String
bound_blockers rt p metadata =
    if not p.canonical
    then "parent_completeness_source_unverified" ∷ []
    else if is_empty p.target_key
        || not (
            is_text (parent_target_key_digest rt p.target_key)
              (get "parent_target_key_sha256" metadata))
    then "parent_target_binding_mismatch" ∷ []
    else []

abbrev blockers_with : Option String → List String → List String
blockers_with none rest = rest
blockers_with (some reason) rest = reason ∷ []

unfoldable pub parent_blockers : Runtime → Parent → Fields → List String
parent_blockers rt p metadata =
    blockers_with (parent_blocker p.audit) (bound_blockers rt p metadata)

abbrev pub count_where : (ℕ × ℕ → Bool) → List (ℕ × ℕ) → ℕ
count_where p [] = 0
count_where p (b ∷ bs) = let rest = count_where p bs in if p b then 1 + rest else rest

abbrev pub has_receipt : Hashed → RunDir → ℕ × ℕ → Bool
has_receipt h dir b = is_some (valid_receipt_of h dir b)

pub record Counts : Type 0 where
  pub expected_items : ℕ
  pub canonical_ready_items : ℕ
  pub canonical_receipts : ℕ
  pub canonical_ledger_bindings : ℕ
  pub canonical_artifact_hash_bindings : ℕ
  pub terminal_without_text_items : ℕ
  pub commit_ledger_rows : ℕ

abbrev no_counts : Counts
no_counts = record {
  expected_items = 0;
  canonical_ready_items = 0;
  canonical_receipts = 0;
  canonical_ledger_bindings = 0;
  canonical_artifact_hash_bindings = 0;
  terminal_without_text_items = 0;
  commit_ledger_rows = 0;
}

unfoldable pub counts_of_items : Hashed → RunDir → ℕ → List (ℕ × ℕ) → CommitLedger → Counts
counts_of_items h dir expected bindings ledger = record {
  expected_items = expected;
  canonical_ready_items = count_where (has_ready h dir) bindings;
  canonical_receipts = count_where (has_receipt h dir) bindings;
  canonical_ledger_bindings = count_where (has_ledger h dir ledger.rows) bindings;
  canonical_artifact_hash_bindings = count_where (has_hashes h dir) bindings;
  terminal_without_text_items = count_where (is_without_text h dir) bindings;
  commit_ledger_rows = ledger.row_count;
}

abbrev sum_of : List ℕ → ℕ
sum_of [] = 0
sum_of (n ∷ ns) = n + sum_of ns

abbrev counts_or_none : Option (List ℕ) → List ℕ
counts_or_none none = []
counts_or_none (some ns) = ns

-- `shard_total != expected`, where the total is -1 if the counts are no naturals
abbrev pub total_differs : ℕ → Option (List ℕ) → Bool
total_differs expected none = true
total_differs expected (some ns) = not (sum_of ns == expected)

-- The blockers of the items, in order.
unfoldable pub item_checks : Counts → Bool → Option (List ℕ) → ℕ → Checks
item_checks c ledger_valid shards bound =
    (
      not (c.expected_items == bound) || total_differs c.expected_items shards,
      "canonical_shard_count_mismatch",
    )
    ∷ (not ledger_valid, "commit_ledger_invalid")
    ∷ (not (c.canonical_ready_items == c.expected_items), "canonical_ready_items_missing")
    ∷ (not (c.canonical_receipts == c.expected_items), "canonical_receipts_missing")
    ∷ (not (c.canonical_ledger_bindings == c.expected_items), "commit_ledger_binding_mismatch")
    ∷ (
      not (c.canonical_artifact_hash_bindings == c.expected_items),
      "artifact_hash_binding_mismatch",
    )
    ∷ (not (c.terminal_without_text_items == 0), "terminal_without_text_items_present")
    ∷ []

pub data TerminalState : Type 0 where
  running full_closed blocked_closed : TerminalState

pub record Closeout : Type 0 where
  pub terminal_state : TerminalState
  pub full_capture_confirmed : Bool
  pub counts : Counts
  pub blockers : List String

abbrev pub bound_items : Hashed → RunDir → Fields → BoundItems
bound_items h dir metadata =
    canonical_bindings h.runtime dir.shards (counts_or_none (shard_counts metadata))

abbrev pub item_counts : Hashed → RunDir → Fields → ℕ → Counts
item_counts h dir metadata expected =
    counts_of_items h dir expected (bound_items h dir metadata).bindings
      (load_commit_ledger dir.commit_ledger)

abbrev pub checks_of : Hashed → RunDir → Fields → ℕ → Checks
checks_of h dir metadata expected =
    item_checks (item_counts h dir metadata expected) (load_commit_ledger dir.commit_ledger).valid
      (shard_counts metadata) (length (bound_items h dir metadata).bindings)

abbrev pub run_blockers : Hashed → RunDir → Parent → Fields → ℕ → List String
run_blockers h dir p metadata expected =
    (bound_items h dir metadata).blockers
    ++ (failed (checks_of h dir metadata expected) ++ parent_blockers h.runtime p metadata)

-- How a run ends, by its blockers and the one that its stop receipt raises.
unfoldable pub close : Counts → List String → Option String → Bool → Closeout
close c [] none finalize = record {
  terminal_state = full_closed;
  full_capture_confirmed = true;
  counts = c;
  blockers = [];
}
close c [] (some reason) finalize = record {
  terminal_state = running;
  full_capture_confirmed = false;
  counts = c;
  blockers = reason ∷ [];
}
close c (b ∷ bs) none finalize = record {
  terminal_state = if finalize then blocked_closed else running;
  full_capture_confirmed = false;
  counts = c;
  blockers = b ∷ bs;
}
close c (b ∷ bs) (some reason) finalize = record {
  terminal_state = running;
  full_capture_confirmed = false;
  counts = c;
  blockers = if finalize then sorted_set ((b ∷ bs) ++ reason ∷ []) else b ∷ bs;
}

unfoldable pub evaluate_items : Hashed → RunDir → Parent → Fields → ℕ → Bool → Closeout
evaluate_items h dir p metadata expected finalize =
    close (item_counts h dir metadata expected)
      (sorted_set (run_blockers h dir p metadata expected)) (run_quiescence_blocker h dir metadata)
      finalize

unfoldable pub metadata_invalid : Closeout
metadata_invalid = record {
  terminal_state = running;
  full_capture_confirmed = false;
  counts = no_counts;
  blockers = "run_metadata_invalid" ∷ [];
}

-- The metadata of a run and its count of items, if they are valid.
unfoldable pub run_metadata : RunDir → Option (Fields × ℕ)
run_metadata dir = elim (mapping_value dir.metadata) [
  | none ↦ none
  | some metadata ↦ (elim (natural_value (get "canonical_count" metadata)) [
    | none ↦ none
    | some expected ↦
        if is_text "dcb.parallel-run.v1" (get "schema" metadata)
          && is_text "disabled" (get "outbound_actions" metadata)
        then some (metadata, expected)
        else none
  ])
]

unfoldable pub evaluate_with : Hashed → RunDir → Parent → Bool → Option (Fields × ℕ) → Closeout
evaluate_with h dir p finalize none = metadata_invalid
evaluate_with h dir p finalize (some (metadata, expected)) =
    evaluate_items h dir p metadata expected finalize

-- `_evaluate_legacy_parallel_run`
unfoldable pub evaluate_run : Hashed → RunDir → Parent → Bool → Closeout
evaluate_run h dir p finalize = evaluate_with h dir p finalize (run_metadata dir)

-- A certificate that a caller brings along.
unfoldable pub evaluate_legacy_parallel_run :
    Hashed → RunDir → Option Fields → String → Bool → Closeout
evaluate_legacy_parallel_run h dir audit target_key finalize =
    evaluate_run h dir (record { audit = audit; target_key = target_key; canonical = false })
      finalize

-- A certificate from the completeness store.
unfoldable pub evaluate_legacy_parallel_run_from_store :
    Hashed → (String → Fields) → RunDir → String → Bool → Closeout
evaluate_legacy_parallel_run_from_store h audit_parent dir target_key finalize =
    evaluate_run h dir
      (record { audit = some (audit_parent target_key); target_key = target_key; canonical = true })
      finalize
