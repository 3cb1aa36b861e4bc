-- ===== src/Capture/ParallelCloseout/Example.antt =====
-- A run of one item for the tests.
use discord_context_bridge.Capture.ParallelCloseout.{Hashed, RunDir, row}
use discord_context_bridge.Shared.{
  true, none, some, [], ◌∷◌, str, bool, int, obj, arr, end, field, nil, cons, pos, Fields, String,
  Value,
}

abbrev pub sha : String
sha = "5e1f5e1f5e1f5e1f5e1f5e1f5e1f5e1f5e1f5e1f5e1f5e1f5e1f5e1f5e1f5e1f"

abbrev pub hashed : Hashed
hashed = record {
  runtime = record { sha256 = λ text. sha; repr = λ value. "0" };
  mapping_digest = λ fields. sha;
  digits = λ text. none;
}

abbrev pub zero_value : Value
zero_value = int (pos 0)

abbrev pub place_fields : Fields → Fields
place_fields rest =
    field "worker" zero_value
      (field "index" zero_value (field "outbound_actions" (str "disabled") rest))

abbrev pub commit_fields : Fields
commit_fields = place_fields (
    field "commit_state" (str "committed")
      (field "ready_sha256" (str sha) (field "text_sha256" (str sha) end)))

abbrev pub run_fields : Fields
run_fields = field "schema" (str "dcb.parallel-run.v1") (
    field "canonical_count" (int (pos 1)) (
      field "shard_counts" (arr (cons (int (pos 1)) nil)) (
        field "parent_target_key_sha256" (str sha)
          (field "outbound_actions" (str "disabled") end))))

abbrev pub drain_fields : String → Fields
drain_fields producer = field "schema" (str "dcb.parallel-producer-drain-receipt.v1") (
    field "event_type" (str "producer.drained") (
      field "event_id" (str "e1") (
        field "producer" (str producer) (
          field "run_definition_sha256" (str sha)
            (field "emitted_by" (str producer) (field "outbound_actions" (str "disabled") end))))))

abbrev pub stop_fields : Fields → Fields
stop_fields rest = field "schema" (str "dcb.parallel-run-stop-receipt.v1") (
    field "event_type" (str "producer.quiesced") (
      field "event_id" (str "e2") (
        field "stopped_reason" (str "completed") (
          field "run_definition_sha256" (str sha) (
            field "evidence_snapshot_sha256" (str sha) (
              field "workers_drained" (bool true) (
                field "importer_drained" (bool true) (
                  field "emitted_by" (str "discord-capture-event-router")
                    (field "outbound_actions" (str "disabled") rest)))))))))

abbrev pub run_dir : RunDir
run_dir = record {
  metadata = some (obj run_fields);
  shards =
      record { name = "worker-0"; worker = some 0; payload = some (arr (cons (obj end) nil)) } ∷ [];
  ready = λ w i. some (
      obj (
        field "schema" (str "dcb.browser-spool.v1")
          (field "status" (str "ready") (place_fields end))));
  receipt = λ w i. some (
      obj (
        field "schema" (str "dcb-parallel-import-receipt.v1")
          (field "source_status" (str "ready") commit_fields)));
  ready_hash = λ w i. some sha;
  text_hash = λ w i. some sha;
  commit_ledger =
      some (row (obj (field "schema" (str "dcb-parallel-commit-ledger.v1") commit_fields)) ∷ []);
  terminal = λ producer. some (obj (drain_fields producer));
  stop_receipt = some (obj (stop_fields (field "producer_drain_receipts_sha256" (str sha) end)));
  evidence_digest = some sha;
}
