-- ===== src/AcquisitionGate/Coverage.antt =====
-- `build_acquisition_completion_gate` of acquisition_gate.py: whether the saved records cover the
-- range that a summary asks for. Of the result, the display of times in two zones and the constant
-- keys are left out.

-- The mappings among the records.
use discord_context_bridge.AcquisitionGate.Receipts.{
  Validation, validate_full_capture_receipt, fields_or_empty,
}
use discord_context_bridge.Shared.{
  Bool, Checks, List, Option, Runtime, String, Value, if◌then◌else◌, not, ◌&&◌, true, ℕ, Fields,
  is_empty, truthy, dedupe_from, is_nil, failed, some, none, [], strip, ◌||◌, false, ◌∷◌, is_some,
  get, leb, length, sorted_set, all, str, str_eq, max, contains, min, obj, str_or_empty, ◌++◌, map,
  to_str, Clock, parse_time,
}

unfoldable pub rows_of : List Value → List Fields
rows_of [] = []
rows_of (obj fs ∷ vs) = fs ∷ rows_of vs
rows_of (v ∷ vs) = rows_of vs

-- `a or b`
abbrev pub or_value : Value → Value → Value
or_value a b = if truthy a then a else b

-- `str(record.get("capture_id") or record.get("evidence_id") or "").strip()`
unfoldable pub receipt_id : Runtime → Fields → String
receipt_id rt row =
    strip (str_or_empty rt (or_value (get "capture_id" row) (get "evidence_id" row)))

-- The value itself, or the other one if it is missing.
abbrev pub or_else : Option ℕ → Option ℕ → Option ℕ
or_else none b = b
or_else (some a) b = some a

unfoldable pub period_start : Clock → Fields → Option ℕ
period_start clock row =
    or_else
      (parse_time clock (
        or_value (get "start" (fields_or_empty (get "message_period" row)))
          (get "oldest_message_at" row)))
      (parse_time clock (get "message_time" row))

unfoldable pub period_end : Clock → Fields → Option ℕ
period_end clock row =
    or_else
      (parse_time clock (
        or_value (get "end" (fields_or_empty (get "message_period" row)))
          (get "latest_message_at" row)))
      (parse_time clock (get "message_time" row))

-- The ids of the rows that have one.
unfoldable pub row_ids : Runtime → List Fields → List String
row_ids rt [] = []
row_ids rt (row ∷ rows) =
    let rest = row_ids rt rows in
    if is_empty (receipt_id rt row) then rest else receipt_id rt row ∷ rest

unfoldable pub rows_with : Runtime → String → List Fields → List Fields
rows_with rt id [] = []
rows_with rt id (row ∷ rows) =
    let rest = rows_with rt id rows in if str_eq (receipt_id rt row) id then row ∷ rest else rest

unfoldable pub receipt_rows : Runtime → String → List Fields → List Fields
receipt_rows rt id rows = if is_empty id then [] else rows_with rt id rows

-- `min` and `max` of the values that are there, nothing if there is none
abbrev least : Option ℕ → Option ℕ → Option ℕ
least none b = b
least (some a) none = some a
least (some a) (some b) = some (min a b)

abbrev greatest : Option ℕ → Option ℕ → Option ℕ
greatest none b = b
greatest (some a) none = some a
greatest (some a) (some b) = some (max a b)

unfoldable pub rows_start : Clock → List Fields → Option ℕ
rows_start clock [] = none
rows_start clock (row ∷ rows) = least (period_start clock row) (rows_start clock rows)

unfoldable pub rows_end : Clock → List Fields → Option ℕ
rows_end clock [] = none
rows_end clock (row ∷ rows) = greatest (period_end clock row) (rows_end clock rows)

-- The period that the receipt itself states.
unfoldable pub stated : Clock → String → Option Fields → Option ℕ
stated clock k none = none
stated clock k (some r) = parse_time clock (get k (fields_or_empty (get "message_period" r)))

abbrev pub in_order : Option ℕ → Option ℕ → Bool
in_order (some a) (some b) = leb a b
in_order _ _ = false

pub data Coverage : Type 0 where
  full partial unknown : Coverage

pub data Refresh : Type 0 where
  capture_plan refresh_requested_range full_capture_gate request_user_confirmation nothing : Refresh

-- What the caller asks for and says.
pub record Request : Type 0 where
  pub requested_start : String
  pub requested_end : String
  pub freshness_status : String
  pub source_kind : String
  pub user_confirmed : Bool
  pub receipt_load_error : String

pub record Acquisition : Type 0 where
  pub requested : Option ℕ × Option ℕ
  pub acquired : Option ℕ × Option ℕ
  pub valid_range : Bool
  pub range_covered : Bool
  pub record_count : ℕ
  pub unique_records : Option ℕ
  pub message_count : Option ℕ
  pub duplicate_count : Option ℕ
  pub receipt_id : String
  pub verified : Bool
  pub record_capture_ids : List String
  pub continuous : Bool
  pub routes : List String
  pub coverage_state : Coverage
  pub summary_ready : Bool
  pub refresh : Refresh
  pub blockers : List String

-- The blockers of the receipt, with the error of its loading.
unfoldable pub receipt_blockers : Validation → String → List String
receipt_blockers v load_error =
    if is_empty load_error || contains load_error v.blockers
    then v.blockers
    else v.blockers ++ load_error ∷ []

abbrev row_hash : Runtime → Fields → String
row_hash rt row = strip (str_or_empty rt (get "content_hash" row))

unfoldable pub unique_hashes : Runtime → List Fields → Option ℕ
unique_hashes rt rows =
    if not (is_nil rows) && all (λ row. not (is_empty (row_hash rt row))) rows
    then some (length (sorted_set (map (row_hash rt) rows)))
    else none

-- `sorted({str(r.get("source_route") or r.get("source") or source_kind) for r in rows})`
unfoldable pub source_routes : Runtime → String → List Fields → List String
source_routes rt kind rows =
    if is_nil rows
    then kind ∷ []
    else sorted_set (
        map
          (λ r. to_str rt (or_value (get "source_route" r) (or_value (get "source" r) (str kind))))
          rows)

-- What the blockers and the proposed refresh depend on.
pub record Findings : Type 0 where
  pub valid_range : Bool
  pub range_covered : Bool
  pub has_rows : Bool
  pub has_receipt_rows : Bool
  pub receipt_id : String
  pub message_count : Option ℕ
  pub verified : Bool
  pub recent : Bool
  pub confirmed : Bool

abbrev pub coverage_of : Findings → Coverage
coverage_of f =
    if f.verified && f.has_receipt_rows && f.range_covered
    then full
    else if f.has_rows
    then partial
    else unknown

abbrev is_full_coverage : Coverage → Bool
is_full_coverage full = true
is_full_coverage _ = false

unfoldable pub acquisition_checks : Findings → Checks
acquisition_checks f =
    (not f.valid_range, "requested_range_missing_or_invalid")
    ∷ (not f.has_rows, "target_records_missing")
    ∷ (
      not (is_empty f.receipt_id) && not f.has_receipt_rows,
      "full_capture_receipt_capture_id_mismatch",
    )
    ∷ (not (is_some f.message_count), "message_count_unverified")
    ∷ (not (is_some f.message_count), "deduplicated_message_count_unverified")
    ∷ (not f.verified, "duplicate_message_count_unverified")
    ∷ (not f.range_covered, "requested_range_not_covered")
    ∷ (not f.verified, "continuity_unverified_or_gapped")
    ∷ (not f.recent, "cache_not_recent")
    ∷ (not (is_full_coverage (coverage_of f)), "full_capture_unverified")
    ∷ (not f.confirmed, "user_confirmation_required")
    ∷ []

unfoldable pub refresh_of : Findings → Refresh
refresh_of f =
    if not f.has_rows
    then capture_plan
    else if not f.recent || not f.range_covered || not f.verified
    then refresh_requested_range
    else if not (f.verified && f.has_receipt_rows)
    then full_capture_gate
    else if not f.confirmed
    then request_user_confirmation
    else nothing

abbrev pub covers : Option ℕ × Option ℕ → Option ℕ × Option ℕ → Bool
covers acquired requested = in_order acquired.0 requested.0 && in_order requested.1 acquired.1

unfoldable pub acquired_range :
    Runtime → Clock → List Fields → Option Fields → String → Option ℕ × Option ℕ
acquired_range rt clock rows receipt id = (
  or_else (rows_start clock (receipt_rows rt id rows)) (stated clock "start" receipt),
  or_else (rows_end clock (receipt_rows rt id rows)) (stated clock "end" receipt),
)

unfoldable pub requested_range : Clock → Request → Option ℕ × Option ℕ
requested_range clock q =
    (parse_time clock (str q.requested_start), parse_time clock (str q.requested_end))

unfoldable pub findings : Runtime → Clock → List Fields → Request → Option Fields → Findings
findings rt clock rows q receipt =
    let v = validate_full_capture_receipt rt clock receipt in
    let requested = requested_range clock q in
    let valid = in_order requested.0 requested.1 in
    record {
      valid_range = valid;
      range_covered = valid && covers (acquired_range rt clock rows receipt v.capture_id) requested;
      has_rows = not (is_nil rows);
      has_receipt_rows = not (is_nil (receipt_rows rt v.capture_id rows));
      receipt_id = v.capture_id;
      message_count = v.message_count;
      verified = is_nil (receipt_blockers v q.receipt_load_error);
      recent = str_eq q.freshness_status "recent";
      confirmed = q.user_confirmed;
    }

-- `blockers.extend(reason for reason in receipt_blockers if reason not in blockers)`
unfoldable pub all_blockers : Findings → List String → List String
all_blockers f more = dedupe_from (failed (acquisition_checks f)) more

unfoldable pub build_acquisition_completion_gate :
    Runtime → Clock → List Value → Request → Option Fields → Acquisition
build_acquisition_completion_gate rt clock records q receipt =
    let rows = rows_of records in
    let v = validate_full_capture_receipt rt clock receipt in
    let f = findings rt clock rows q receipt in
    let blockers = all_blockers f (receipt_blockers v q.receipt_load_error) in
    record {
      requested = requested_range clock q;
      acquired = acquired_range rt clock rows receipt v.capture_id;
      valid_range = f.valid_range;
      range_covered = f.range_covered;
      record_count = length rows;
      unique_records = unique_hashes rt rows;
      message_count = v.message_count;
      duplicate_count = if f.verified then some 0 else none;
      receipt_id = v.capture_id;
      verified = f.verified;
      record_capture_ids = sorted_set (row_ids rt rows);
      continuous = f.verified;
      routes = source_routes rt q.source_kind rows;
      coverage_state = coverage_of f;
      summary_ready = is_nil blockers;
      refresh = refresh_of f;
      blockers = blockers;
    }
