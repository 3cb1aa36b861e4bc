-- ===== src/CompletenessStore/Audit.antt =====
-- The second half of `audit_parent` of completeness_store.py, with `_retire_absent_certificates`:
-- the retirement of certificates, the blockers, and the certificate of the parent.
use discord_context_bridge.CompletenessStore.ScopeReceipts.{has_key}
use discord_context_bridge.CompletenessStore.Recording.{same_child, ids_of}
use discord_context_bridge.CompletenessStore.Verified.{
  Receipts, verified, both_complete, authorized, digest_match, receipt_value,
}
use discord_context_bridge.CompletenessStore.{
  Certificate, Bool, Scan, ℕ, Retirement, str_eq, Store, natural_or_zero, contains, natural_of,
  absent, scopes_of_kind, Column,
}
use discord_context_bridge.Shared.{
  true, false, none, some, [], ◌∷◌, arr, nil, suc, Value, String, Option, List, Runtime, Fields,
  Checks, Bool, ℕ, if◌then◌else◌, ◌++◌, any, ◌==◌, ◌&&◌, all, str_eq, not, contains, is_empty,
  is_nil, is_some, is_true, ltb, ◌+◌,
}

abbrev pub retires : String → List String → Certificate → Bool
retires key latest c = str_eq key c.parent_target_key && not (contains c.thread_id latest)

unfoldable pub kept_certificates : String → List String → List Certificate → List Certificate
kept_certificates key latest [] = []
kept_certificates key latest (c ∷ cs) =
    let rest = kept_certificates key latest cs in if retires key latest c then rest else c ∷ rest

unfoldable pub retired_rows : String → List String → List Certificate → List Retirement
retired_rows key latest [] = []
retired_rows key latest (c ∷ cs) =
    let rest = retired_rows key latest cs in
    if retires key latest c
    then record { parent_target_key = key; thread_id = c.thread_id; capture_id = c.capture_id }
      ∷ rest
    else rest

-- `_retire_absent_certificates`, up to the reason and the time of a retirement
unfoldable pub retire_absent_certificates : String → List String → Bool → Store → Store
retire_absent_certificates key latest false store = store
retire_absent_certificates key latest true store = record {
  parent_targets = store.parent_targets;
  inventory_scans = store.inventory_scans;
  next_scan = store.next_scan;
  certificates = kept_certificates key latest store.certificates;
  retirements = store.retirements ++ retired_rows key latest store.certificates;
}

-- What is found on the latest scan.
pub record Latest : Type 0 where
  pub evidence_model : String
  pub pagination_exhausted : Bool
  pub required_scopes : List String
  pub complete : Bool
  pub locked_count : ℕ
  pub checks : Checks

abbrev legacy_latest : Latest
legacy_latest = record {
  evidence_model = "legacy_aggregate";
  pagination_exhausted = false;
  required_scopes = [];
  complete = false;
  locked_count = 0;
  checks =
      (true, "inventory_scope_receipts_missing")
      ∷ (true, "inventory_pagination_not_exhausted")
      ∷ [];
}

abbrev pub is_exhausted : List String → Fields → Bool
is_exhausted required receipts =
    not (is_nil required)
    && all (λ scope. is_true (receipt_value scope "terminal_reached" receipts)) required

abbrev locked_in : Fields → List String → ℕ
locked_in receipts [] = 0
locked_in receipts (scope ∷ scopes) =
    natural_or_zero (natural_of (receipt_value scope "locked_count" receipts))
    + locked_in receipts scopes

abbrev has_scopes : List String → Fields → Bool
has_scopes required receipts = all (λ scope. has_key scope receipts) required

unfoldable pub latest_of : Option String → List String → Receipts → Latest
latest_of kind required v = record {
  evidence_model = "scope_receipts_v1";
  pagination_exhausted = is_exhausted required v.receipts;
  required_scopes = required;
  complete =
      (v.valid && is_exhausted required v.receipts && has_scopes required v.receipts)
      && authorized kind v.receipts;
  locked_count = locked_in v.receipts required;
  checks =
      (not v.valid, "inventory_scope_receipts_invalid")
      ∷ (not (has_scopes required v.receipts), "inventory_scope_incomplete")
      ∷ (not (authorized kind v.receipts), "private_archive_authorization_missing")
      ∷ (not (is_exhausted required v.receipts), "inventory_pagination_not_exhausted")
      ∷ [];
}

-- `if latest["scope_receipts_json"]`
abbrev pub facts_in : Column → Latest → Latest
facts_in absent given = legacy_latest
facts_in _ given = given

unfoldable pub latest_facts : Runtime → Scan → Latest
latest_facts rt s =
    facts_in s.scope_receipts
      (latest_of s.parent_kind (scopes_of_kind s.parent_kind) (verified rt s))

abbrev no_latest : Latest
no_latest = record {
  evidence_model = "missing";
  pagination_exhausted = false;
  required_scopes = [];
  complete = false;
  locked_count = 0;
  checks = (true, "parent_inventory_missing") ∷ [];
}

unfoldable pub facts_of : Runtime → List Scan → Latest
facts_of rt [] = no_latest
facts_of rt (s ∷ rest) = latest_facts rt s

-- `{row["thread_id"] for row in ...}` of the latest scan; the rows of a scan have distinct ids.
abbrev pub latest_ids : List Scan → List String
latest_ids [] = []
latest_ids (s ∷ rest) = ids_of s.threads

abbrev mismatch : Runtime → Scan → Bool × String
mismatch rt s = (not (verified rt s).valid, "inventory_saved_evidence_mismatch")

-- The checks on the scans, before the latest one is read.
unfoldable pub scan_checks : Runtime → List Scan → Checks
scan_checks rt (s ∷ t ∷ rest) =
    mismatch rt s
    ∷ mismatch rt t
    ∷ (not (both_complete rt (s ∷ t ∷ rest)), "inventory_rescan_incomplete")
    ∷ (both_complete rt (s ∷ t ∷ rest) && not (digest_match rt s t), "inventory_rescan_not_stable")
    ∷ []
scan_checks rt (s ∷ []) = (true, "stable_inventory_scan_count_insufficient") ∷ mismatch rt s ∷ []
scan_checks rt [] = (true, "stable_inventory_scan_count_insufficient") ∷ []

abbrev attachment_counts_equal : Certificate → Bool
attachment_counts_equal c =
    c.attachment_discovered_count == c.attachment_saved_count
    && c.attachment_saved_count == c.attachment_manifested_count

abbrev pub is_empty_list : Value → Bool
is_empty_list (arr nil) = true
is_empty_list _ = false

-- The certificate proves the full capture of its thread.
unfoldable pub strict_full : Certificate → Bool
strict_full c =
    str_eq c.status "full"
    && str_eq c.gate_schema "discord_full_capture_completion_gate.v1"
    && c.full_capture_confirmed
    && not (is_empty c.capture_id)
    && ltb 0 c.message_count
    && c.unresolved_gap_count == 0
    && c.attachments_consistent
    && attachment_counts_equal c
    && c.pending_retry_count == 0
    && is_empty_list c.blockers

-- The certificate of a thread of a parent: (parent_target_key, thread_id) is the primary key.
unfoldable pub certificate_of : String → String → List Certificate → Option Certificate
certificate_of key thread_id [] = none
certificate_of key thread_id (c ∷ cs) =
    if same_child key thread_id c then some c else certificate_of key thread_id cs

abbrev pub child_checks : Option Certificate → Checks
child_checks none = []
child_checks (some c) =
    (not (strict_full c) && not (c.pending_retry_count == 0), "child_pending_work_present")
    ∷ (
      not (strict_full c) && not (c.attachments_consistent && attachment_counts_equal c),
      "child_attachment_reconciliation_failed",
    )
    ∷ (not (strict_full c), "child_strict_full_capture_failed")
    ∷ []

unfoldable pub children_checks : String → List Certificate → List String → Checks
children_checks key cs [] = []
children_checks key cs (id ∷ ids) =
    child_checks (certificate_of key id cs) ++ children_checks key cs ids

abbrev pub is_strict : Option Certificate → Bool
is_strict none = false
is_strict (some c) = strict_full c

unfoldable pub full_children : String → List Certificate → List String → ℕ
full_children key cs [] = 0
full_children key cs (id ∷ ids) =
    let rest = full_children key cs ids in
    if is_strict (certificate_of key id cs) then suc rest else rest

abbrev pub lacks_certificate : String → List Certificate → List String → Bool
lacks_certificate key cs ids = any (λ id. not (is_some (certificate_of key id cs))) ids

-- All the checks of the audit, in the order in which they add their blockers.
unfoldable pub audit_checks : Runtime → String → List Scan → List Certificate → Checks
audit_checks rt key scans cs =
    scan_checks rt scans
    ++ ((facts_of rt scans).checks
        ++ ((lacks_certificate key cs (latest_ids scans), "child_capture_certificate_missing")
            ∷ (any (retires key (latest_ids scans)) cs, "child_certificate_not_in_latest_inventory")
            ∷ children_checks key cs (latest_ids scans)))
