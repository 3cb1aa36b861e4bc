-- ===== src/CompletenessStore/ParentCertificate.antt =====
-- What `audit_parent` of completeness_store.py returns, and the whole audit.
use discord_context_bridge.CompletenessStore.Verified.{latest_scans, stable, both_complete}
use discord_context_bridge.CompletenessStore.{Certificate, Store, Scan, Bool}
use discord_context_bridge.CompletenessStore.Audit.{
  Latest, retire_absent_certificates, latest_ids, retired_rows, audit_checks, facts_of,
  full_children,
}
use discord_context_bridge.Shared.{
  false, [], ◌∷◌, str, bool, int, obj, arr, end, field, nil, cons, pos, List, String, Fields, ℕ,
  Runtime, Items, Value, ◌-◌, str_eq, if◌then◌else◌, is_nil, Bool, ◌==◌, dedupe, length, failed,
}

-- What an audit found.
pub record Audit : Type 0 where
  pub blockers : List String
  pub latest : Latest
  pub scan_count : ℕ
  pub is_stable : Bool
  pub both_latest_complete : Bool
  pub inventory_threads : ℕ
  pub child_certificates : ℕ
  pub full : ℕ
  pub retired : ℕ

abbrev parent_status : Audit → String
parent_status a =
    if is_nil a.blockers then "full" else if a.scan_count == 0 then "blocked" else "partial"

abbrev next_action : Audit → String
next_action a = if is_nil a.blockers then "context_understanding" else "continue_parent_capture"

abbrev texts_of : List String → Items
texts_of [] = nil
texts_of (s ∷ ss) = cons (str s) (texts_of ss)

abbrev algorithm_ids : List String
algorithm_ids =
    "pagination_exhaustion" ∷ "stable_rescan" ∷ "set_reconciliation" ∷ "strict_child_full_capture"
    ∷ "attachment_manifest_reconciliation" ∷ "pending_work_zero" ∷ []

abbrev count : ℕ → Value
count n = int (pos n)

unfoldable pub inventory_fields : Audit → Fields
inventory_fields a = field "stable_scan_count" (count (if a.is_stable then 2 else a.scan_count)) (
    field "pagination_exhausted" (bool a.latest.pagination_exhausted) (
      field "required_scopes" (arr (texts_of a.latest.required_scopes)) (
        field "required_scopes_complete" (bool a.latest.complete) (
          field "both_latest_scans_complete" (bool a.both_latest_complete)
            (field "evidence_model" (str a.latest.evidence_model) end)))))

unfoldable pub count_fields : Audit → Fields
count_fields a = field "inventory_threads" (count a.inventory_threads) (
    field "child_certificates" (count a.child_certificates) (
      field "full_children" (count a.full) (
        field "pending_children" (count (a.inventory_threads - a.full)) (
          field "retired_certificates" (count a.retired)
            (field "locked_threads" (count a.latest.locked_count) end)))))

-- The dictionary that is returned.
unfoldable pub certificate_fields : Audit → Fields
certificate_fields a = field "language" (str "ja") (
    field "schema" (str "discord_parent_completeness_certificate.v1") (
      field "status" (str (parent_status a)) (
        field "parent_full_capture_confirmed" (bool (str_eq (parent_status a) "full")) (
          field "algorithm_ids" (arr (texts_of algorithm_ids)) (
            field "inventory" (obj (inventory_fields a)) (
              field "counts" (obj (count_fields a)) (
                field "blockers" (arr (texts_of a.blockers)) (
                  field "next_action" (str (next_action a)) (
                    field "raw_text_returned" (bool false) (
                      field "identifiers_returned" (bool false) (
                        field "url_output" (str "omitted") (
                          field "path_output" (str "omitted")
                            (field "outbound_actions" (str "disabled") end)))))))))))))

-- `SELECT * FROM child_capture_certificates WHERE parent_target_key = ?`
abbrev pub certificates_of : String → List Certificate → List Certificate
certificates_of key [] = []
certificates_of key (c ∷ cs) =
    let rest = certificates_of key cs in if str_eq key c.parent_target_key then c ∷ rest else rest

-- The audit, from the scans and the certificates that the retirement left.
unfoldable pub audit_of : Runtime → String → List Scan → List Certificate → ℕ → Audit
audit_of rt key scans cs retired = record {
  blockers = dedupe (failed (audit_checks rt key scans cs));
  latest = facts_of rt scans;
  scan_count = length scans;
  is_stable = stable rt scans;
  both_latest_complete = both_complete rt scans;
  inventory_threads = length (latest_ids scans);
  child_certificates = length (certificates_of key cs);
  full = full_children key cs (latest_ids scans);
  retired = retired;
}

abbrev pub retire : Runtime → String → List Scan → Store → Store
retire rt key scans store =
    retire_absent_certificates key (latest_ids scans) (stable rt scans) store

abbrev retired_count : Runtime → String → List Scan → Store → ℕ
retired_count rt key scans store =
    if stable rt scans then length (retired_rows key (latest_ids scans) store.certificates) else 0

-- `audit_parent`: what it found, and the tables that it leaves.
unfoldable pub audit_parent : Runtime → String → Store → Audit × Store
audit_parent rt key store =
    let scans = latest_scans key store in
    let after = retire rt key scans store in
    (audit_of rt key scans after.certificates (retired_count rt key scans store), after)

-- The certificate that a caller is given.
unfoldable pub parent_certificate : Runtime → String → Store → Fields
parent_certificate rt key store = certificate_fields (audit_parent rt key store).0
