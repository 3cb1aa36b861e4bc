-- ===== src/Capture/ParallelCloseout/Receipts.antt =====
-- The receipts that end a run: what a producer and the router write, and what the closeout accepts.
use discord_context_bridge.Shared.{
  true, false, none, some, [], ◌∷◌, ok, err, str, bool, obj, end, field, String, Fields, Result,
  Option, ◌≡◌, if◌then◌else◌, is_text, get, ◌&&◌, not, contains, is_empty, ◌++◌, Bool, List, refl,
  sorted_set, arith, eq_iff, ap,
}
use discord_context_bridge.Capture.ParallelCloseout.{
  RunDir, Hashed, mapping_value, expected_worker_names, run_definition_sha256, String, Fields,
  Option, is_text, get, not, contains, is_empty, List, Bool,
}
use discord_context_bridge.Capture.ParallelCloseout.Evidence.{
  valid_drain, valid_stop, producer_drains_sha256, run_quiescence_blocker, stop_reasons,
  drain_receipts, drain_field,
}

pub data ReceiptError : Type 0 where
  drain_invalid terminal_invalid : ReceiptError

abbrev pub drain_receipt : Hashed → Fields → String → String → Fields
drain_receipt h metadata producer event_id =
    field "schema" (str "dcb.parallel-producer-drain-receipt.v1") (
      field "event_type" (str "producer.drained") (
        field "event_id" (str event_id) (
          field "producer" (str producer) (
            field "run_definition_sha256" (str (run_definition_sha256 h metadata)) (
              field "emitted_by" (str producer) (field "outbound_actions" (str "disabled") end))))))

abbrev drain_with : Hashed → String → String → Option Fields → Result ReceiptError Fields
drain_with h producer event_id none = err drain_invalid
drain_with h producer event_id (some metadata) =
    if is_text "dcb.parallel-run.v1" (get "schema" metadata)
      && contains producer (expected_worker_names h.runtime metadata ++ "importer" ∷ [])
      && not (is_empty event_id)
    then ok (drain_receipt h metadata producer event_id)
    else err drain_invalid

-- `build_parallel_producer_drain_receipt`
unfoldable pub build_drain_receipt : Hashed → RunDir → String → String → Result ReceiptError Fields
build_drain_receipt h dir producer event_id =
    drain_with h producer event_id (mapping_value dir.metadata)

abbrev pub stop_receipt_of : Hashed → Fields → String → String → String → String → Fields
stop_receipt_of h metadata event_id reason evidence drains =
    field "schema" (str "dcb.parallel-run-stop-receipt.v1") (
      field "event_type" (str "producer.quiesced") (
        field "event_id" (str event_id) (
          field "stopped_reason" (str reason) (
            field "run_definition_sha256" (str (run_definition_sha256 h metadata)) (
              field "evidence_snapshot_sha256" (str evidence) (
                field "producer_drain_receipts_sha256" (str drains) (
                  field "workers_drained" (bool true) (
                    field "importer_drained" (bool true) (
                      field "emitted_by" (str "discord-capture-event-router")
                        (field "outbound_actions" (str "disabled") end))))))))))

abbrev stop_from :
    Hashed → Fields → String → String → Option String → Option String → Result ReceiptError Fields
stop_from h metadata event_id reason (some evidence) (some drains) =
    if is_text "dcb.parallel-run.v1" (get "schema" metadata)
      && not (is_empty event_id)
      && contains reason stop_reasons
    then ok (stop_receipt_of h metadata event_id reason evidence drains)
    else err terminal_invalid
stop_from h metadata event_id reason _ _ = err terminal_invalid

abbrev stop_with : Hashed → RunDir → String → String → Option Fields → Result ReceiptError Fields
stop_with h dir event_id reason none = err terminal_invalid
stop_with h dir event_id reason (some metadata) =
    stop_from h metadata event_id reason dir.evidence_digest (producer_drains_sha256 h dir metadata)

-- `build_parallel_run_stop_receipt`
unfoldable pub build_stop_receipt : Hashed → RunDir → String → String → Result ReceiptError Fields
build_stop_receipt h dir event_id reason =
    stop_with h dir event_id reason (mapping_value dir.metadata)

-- The directory with a stop receipt in it, as `_publish_create_only_json` leaves it. The receipt is
-- none of the files of the evidence snapshot.
abbrev pub with_stop : Fields → RunDir → RunDir
with_stop receipt dir = record dir { stop_receipt = some (obj receipt) }

-- What returned behind a test that raises has passed it.
passed_test :
    {A : Type 0} (good : Bool) (e : ReceiptError) (made : A) {a : A}
    → (if good then ok made else err e) ≡ ok a
    → (good ≡ true) × (made ≡ a)
passed_test true e made h = (refl, ground arith)
passed_test false e made h = absurd cc

-- A receipt that a producer builds is one that the closeout accepts of it.
pub build_drain-valid :
    (h : Hashed) (dir : RunDir) (producer event_id : String) (metadata : Fields) {receipt : Fields}
    → mapping_value dir.metadata ≡ some metadata
    → build_drain_receipt h dir producer event_id ≡ ok receipt
    → valid_drain (run_definition_sha256 h metadata) producer receipt ≡ true
unfolding build_drain_receipt valid_drain
build_drain-valid h dir producer event_id metadata {receipt} found built =
    let (passed, same) =
      passed_test _ drain_invalid (drain_receipt h metadata producer event_id)
        (rw found at built) in
    rw (← same) (
      ground (
        arith,
        passed,
        eq_iff producer producer,
        eq_iff (run_definition_sha256 h metadata) (run_definition_sha256 h metadata),
      ))

receipts-with_stop :
    (digest : String) (dir : RunDir) (receipt : Fields) (ps : List String)
    → drain_receipts digest (with_stop receipt dir) ps ≡ drain_receipts digest dir ps
unfolding drain_receipts
receipts-with_stop digest dir receipt [] = refl
receipts-with_stop digest dir receipt (p ∷ ps) =
    ap (drain_field digest p (mapping_value (dir.terminal p)))
      (receipts-with_stop digest dir receipt ps)

drains_of-with_stop :
    (h : Hashed) (dir : RunDir) (metadata receipt : Fields)
    → producer_drains_sha256 h (with_stop receipt dir) metadata
      ≡ producer_drains_sha256 h dir metadata
unfolding producer_drains_sha256
drains_of-with_stop h dir metadata receipt =
    rw
      (receipts-with_stop (run_definition_sha256 h metadata) dir receipt
        (sorted_set ("importer" ∷ expected_worker_names h.runtime metadata)))
      refl

stop_from-valid :
    (h : Hashed) (dir : RunDir) (event_id reason : String) (metadata : Fields)
    (evidence drains : Option String) {receipt : Fields}
    → dir.evidence_digest ≡ evidence
    → producer_drains_sha256 h dir metadata ≡ drains
    → stop_from h metadata event_id reason evidence drains ≡ ok receipt
    → valid_stop h dir metadata receipt ≡ true
unfolding valid_stop
stop_from-valid h dir event_id reason metadata none drains e d built = absurd cc
stop_from-valid h dir event_id reason metadata (some evidence) none e d built = absurd cc
stop_from-valid h dir event_id reason metadata (some evidence) (some drains) e d built =
    let (passed, same) =
      passed_test _ terminal_invalid (stop_receipt_of h metadata event_id reason evidence drains)
        built in
    rw (← same, d, e)
      (ground (
        arith,
        passed,
        eq_iff evidence evidence,
        eq_iff drains drains,
        eq_iff (run_definition_sha256 h metadata) (run_definition_sha256 h metadata),
      ))

-- A stop receipt that is built from a directory and put into it is accepted by the closeout: the
-- run is quiescent.
pub build_stop-quiescent :
    (h : Hashed) (dir : RunDir) (event_id reason : String) (metadata : Fields) {receipt : Fields}
    → mapping_value dir.metadata ≡ some metadata
    → build_stop_receipt h dir event_id reason ≡ ok receipt
    → run_quiescence_blocker h (with_stop receipt dir) metadata ≡ none
unfolding build_stop_receipt run_quiescence_blocker
build_stop-quiescent h dir event_id reason metadata {receipt} found built =
    let stop : stop_from h metadata event_id reason dir.evidence_digest
          (producer_drains_sha256 h dir metadata)
        ≡ ok receipt =
      rw found at built in
    rw
      (stop_from-valid h (with_stop receipt dir) event_id reason metadata dir.evidence_digest
        (producer_drains_sha256 h dir metadata) refl (drains_of-with_stop h dir metadata receipt)
        stop)
      refl
