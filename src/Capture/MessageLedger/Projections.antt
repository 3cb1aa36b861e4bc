-- ===== src/Capture/MessageLedger/Projections.antt =====
-- `build_capture_projections` and `build_strict_full_capture_evidence_from_projections` of
-- capture/message_ledger.py: the views of a ledger, the evidence on them, and the evidence for the
-- completion gate. The digest of a view is that of its JSON text, which the runtime makes.
use discord_context_bridge.Shared.{
  true, false, none, some, [], ◌∷◌, ok, err, str, bool, int, end, field, pos, negsuc, length, List,
  Option, ℤ, ℕ, String, Bool, Dict, lookup, sorted_set, eq_nat, ◌==◌, if◌then◌else◌, ◌++◌, str_eq,
  is_empty, ltb, ◌&&◌, ◌+◌, Fields, Result, Runtime, not, update, strip, is_text, is_nil,
}
use discord_context_bridge.Capture.MessageLedger.{
  Ledger, Event, LedgerError, unsupported_schema, events_invalid, not_contiguous, ledger_schema,
  same_texts, length, List, Option, ℕ, String, Bool, ℤ, eq_nat, str_eq, is_empty, Fields, Result,
  Runtime, not, strip, is_text,
}
use discord_context_bridge.Capture.MessageLedger.Reduction.{
  MessageState, Reduced, reduce_messages, state_of,
}
use discord_context_bridge.Capture.Reconcile.{Identifiers, build_reconciliation_evidence}

-- `[event.get("sequence") for event in events] == list(range(1, len(events) + 1))`
unfoldable pub contiguous_from : ℕ → List Event → Bool
contiguous_from n [] = true
contiguous_from n (e ∷ es) = eq_nat e.sequence n && contiguous_from (n + 1) es

pub record MessageRecord : Type 0 where
  pub message_id : String
  pub state : MessageState

abbrev pub records_of : Dict MessageState → List String → List MessageRecord
records_of messages [] = []
records_of messages (id ∷ ids) =
    record { message_id = id; state = state_of (lookup id messages) } ∷ records_of messages ids

-- `sum(len(record["version_hashes"]) > 1 for record in records)`
unfoldable pub edited_count : List MessageRecord → ℕ
edited_count [] = 0
edited_count (r ∷ rs) =
    let rest = edited_count rs in if ltb 1 (length r.state.version_hashes) then 1 + rest else rest

abbrev ref_list : Option String → List String
ref_list none = []
ref_list (some r) = if is_empty r then [] else r ∷ []

unfoldable pub content_refs : List MessageRecord → List String
content_refs [] = []
content_refs (r ∷ rs) = ref_list r.state.content_ref ++ content_refs rs

pub record Normalized : Type 0 where
  pub capture_id : String
  pub target_key : String
  pub upper_watermark : String
  pub message_count : ℕ
  pub edited_message_count : ℕ
  pub records : List MessageRecord

pub record RawView : Type 0 where
  pub message_ids : List String
  pub records : List MessageRecord

pub record MarkdownView : Type 0 where
  pub message_ids : List String
  pub record_count : ℕ
  pub content_refs : List String

pub record AttachmentManifest : Type 0 where
  pub schema : String
  pub attachment_ids : List String
  pub saved_attachment_ids : List String

pub record ViewHashing : Type 0 where
  pub normalized_digest : Normalized → String
  pub raw_digest : RawView → String
  pub markdown_digest : MarkdownView → String
  pub manifest_digest : AttachmentManifest → String

-- The keyword arguments of `build_capture_projections`.
pub record Scan : Type 0 where
  pub oldest_reached : Bool
  pub latest_reached : Bool
  pub stable_scan_digests : List String
  pub saved_attachment_ids : List String
  pub upper_watermark_reached : Bool
  pub unresolved_gap_count : ℤ
  pub pending_retry_count : ℤ
  pub attachment_inventory_complete : Bool

pub record DerivedEvidence : Type 0 where
  pub schema : String
  pub capture_id : String
  pub target_key : String
  pub upper_watermark : String
  pub oldest_reached : Bool
  pub latest_reached : Bool
  pub upper_watermark_reached : Bool
  pub stable_scan_count : ℕ
  pub capture_stable_after_rescan : Bool
  pub message_id_sets_equal : Bool
  pub message_order_conflict : Bool
  pub ordered_message_digest_equal : Bool
  pub attachment_id_sets_equal : Bool
  pub attachment_inventory_complete : Bool
  pub unresolved_gap_count : ℕ
  pub pending_retry_count : ℕ
  pub artifact_hashes : List (String × String)
  pub full_candidate : Bool

pub record Projections : Type 0 where
  pub normalized : Normalized
  pub raw : RawView
  pub markdown : MarkdownView
  pub attachment_manifest : AttachmentManifest
  pub evidence : DerivedEvidence

-- `len(digests) >= 2 and digests[-1] == digests[-2]`
unfoldable pub stable_rescan : List String → Bool
stable_rescan [] = false
stable_rescan (x ∷ []) = false
stable_rescan (x ∷ y ∷ []) = str_eq y x
stable_rescan (x ∷ y ∷ z ∷ rest) = stable_rescan (y ∷ z ∷ rest)

-- `max(int(count), 0)`
abbrev pub at_least_zero : ℤ → ℕ
at_least_zero (pos n) = n
at_least_zero (negsuc n) = 0

abbrev pub is_zero : ℤ → Bool
is_zero (pos n) = n == 0
is_zero (negsuc n) = false

abbrev pub evidence_schema : String
evidence_schema = "dcb-derived-full-capture-evidence.v1"

abbrev pub manifest_schema : String
manifest_schema = "dcb-attachment-manifest-projection.v1"

unfoldable pub normalized_view : Ledger → Reduced → Normalized
normalized_view l r =
    let records = records_of r.messages r.ordered_ids in
    record {
      capture_id = l.capture_id;
      target_key = l.target_key;
      upper_watermark = l.upper_watermark;
      message_count = length records;
      edited_message_count = edited_count records;
      records = records;
    }

unfoldable pub raw_view : Reduced → RawView
raw_view r = record { message_ids = r.ordered_ids; records = records_of r.messages r.ordered_ids }

unfoldable pub markdown_view : Reduced → MarkdownView
markdown_view r = record {
  message_ids = r.ordered_ids;
  record_count = length r.ordered_ids;
  content_refs = content_refs (records_of r.messages r.ordered_ids);
}

unfoldable pub manifest_view : Reduced → List String → AttachmentManifest
manifest_view r saved = record {
  schema = manifest_schema;
  attachment_ids = r.attachment_ids;
  saved_attachment_ids = sorted_set saved;
}

-- The evidence on the views of a ledger.
unfoldable pub derived_evidence :
    ViewHashing
    → Ledger
    → Scan
    → Bool
    → Normalized
    → RawView
    → MarkdownView
    → AttachmentManifest
    → List String
    → DerivedEvidence
derived_evidence h l q conflict normalized raw markdown manifest ordered =
    let sets_equal =
      same_texts raw.message_ids markdown.message_ids && same_texts markdown.message_ids ordered in
    let digest_equal = sets_equal && not conflict in
    let attachments_equal = same_texts manifest.attachment_ids manifest.saved_attachment_ids in
    record {
      schema = evidence_schema;
      capture_id = l.capture_id;
      target_key = l.target_key;
      upper_watermark = l.upper_watermark;
      oldest_reached = q.oldest_reached;
      latest_reached = q.latest_reached;
      upper_watermark_reached = q.upper_watermark_reached;
      stable_scan_count = length q.stable_scan_digests;
      capture_stable_after_rescan = stable_rescan q.stable_scan_digests;
      message_id_sets_equal = sets_equal;
      message_order_conflict = conflict;
      ordered_message_digest_equal = digest_equal;
      attachment_id_sets_equal = attachments_equal;
      attachment_inventory_complete = q.attachment_inventory_complete;
      unresolved_gap_count = at_least_zero q.unresolved_gap_count;
      pending_retry_count = at_least_zero q.pending_retry_count;
      artifact_hashes =
          ("normalized", h.normalized_digest normalized)
          ∷ ("raw", h.raw_digest raw)
          ∷ ("markdown", h.markdown_digest markdown)
          ∷ ("attachment_manifest", h.manifest_digest manifest)
          ∷ [];
      full_candidate =
          not (is_nil ordered)
          && q.oldest_reached
          && q.latest_reached
          && q.upper_watermark_reached
          && stable_rescan q.stable_scan_digests
          && digest_equal
          && attachments_equal
          && q.attachment_inventory_complete
          && is_zero q.unresolved_gap_count
          && is_zero q.pending_retry_count;
    }

unfoldable pub projections_of : ViewHashing → Ledger → Scan → Reduced → Projections
projections_of h l q r =
    let normalized = normalized_view l r in
    let raw = raw_view r in
    let markdown = markdown_view r in
    let manifest = manifest_view r q.saved_attachment_ids in
    record {
      normalized = normalized;
      raw = raw;
      markdown = markdown;
      attachment_manifest = manifest;
      evidence =
          derived_evidence h l q r.order_conflict normalized raw markdown manifest r.ordered_ids;
    }

unfoldable pub build_capture_projections :
    ViewHashing → Ledger → Scan → Result LedgerError Projections
build_capture_projections h l q =
    if not (is_text ledger_schema l.schema) then err unsupported_schema else (elim l.events [
      | none ↦ err events_invalid
      | some es ↦
          if contiguous_from 1 es
          then ok (projections_of h l q (reduce_messages es))
          else err not_contiguous
    ])

-- The lists of ids that are reconciled.
abbrev pub identifiers_of : Projections → Identifiers
identifiers_of p = record {
  raw = p.raw.message_ids;
  markdown = p.markdown.message_ids;
  ledger = p.raw.message_ids;
  discovered = p.attachment_manifest.attachment_ids;
  saved = p.attachment_manifest.saved_attachment_ids;
  manifest = p.attachment_manifest.saved_attachment_ids;
}

abbrev pub or_unknown : String → String
or_unknown route = if is_empty route then "unknown" else route

-- The keys after those of the reconciliation.
unfoldable pub strict_keys : Projections → String → Bool → Bool → Fields
strict_keys p route target_bound evidence_fresh =
    let e = p.evidence in
    field "capture_id" (str (strip e.capture_id)) (
      field "route" (str (or_unknown route)) (
        field "oldest_reached" (bool e.oldest_reached) (
          field "latest_reached" (bool e.latest_reached) (
            field "upper_watermark_reached" (bool e.upper_watermark_reached) (
              field "capture_stable_after_rescan" (bool e.capture_stable_after_rescan) (
                field "stable_scan_count" (int (pos e.stable_scan_count)) (
                  field "unresolved_gap_count" (int (pos e.unresolved_gap_count)) (
                    field "pending_retry_count" (int (pos e.pending_retry_count)) (
                      field "target_bound" (bool target_bound) (
                        field "capture_id_present" (bool (not (is_empty (strip e.capture_id)))) (
                          field "evidence_schema_valid" (bool (str_eq e.schema evidence_schema)) (
                            field "evidence_fresh" (bool evidence_fresh) (
                              field "artifact_hashes_verified"
                                (bool (not (is_nil e.artifact_hashes)))
                                (field "manifest_schema_valid"
                                  (bool (str_eq p.attachment_manifest.schema manifest_schema))
                                  (field "external_actions" (str "disabled") (
                                    field "source_evidence_schema" (str e.schema) (
                                      field "full_candidate" (bool e.full_candidate)
                                        end)))))))))))))))))

-- `build_strict_full_capture_evidence_from_projections`
unfoldable pub strict_evidence : Runtime → Projections → String → Bool → Bool → Fields
unfolding build_reconciliation_evidence
strict_evidence rt p route target_bound evidence_fresh =
    update
      (build_reconciliation_evidence rt (identifiers_of p) p.evidence.attachment_inventory_complete)
      (strict_keys p route target_bound evidence_fresh)
