-- ===== src/AcquisitionGate/Ready.antt =====
-- When the gate lets a context be summarised.

-- What a ready context rests on: a strict receipt, records that carry its id, and a range that the
-- records, or the receipt where they say nothing, cover.
use discord_context_bridge.AcquisitionGate.Receipts.{
  validate_full_capture_receipt, receipt_capture_id, Validation,
}
use discord_context_bridge.AcquisitionGate.Coverage.{
  Findings, acquisition_checks, Request, receipt_rows, rows_of, receipt_blockers,
  build_acquisition_completion_gate, all_blockers, acquired_range, findings, in_order,
  requested_range, covers,
}
use discord_context_bridge.Shared.{
  List, Runtime, String, AllPass, ◌≡◌, Value, true, is_nil, dedupe_from, ◌&&◌, Fields,
  is_nil-dedupe, ℕ, ◌∷◌, some, dedupe_from-cons, is_empty, false, none, [], arith, Option, str, ◌≤◌,
  if◌then◌else◌, refl, ◌||◌, failed, contains, nil-failed, ◌++◌, Bool, sym, ◌∙◌, eq_iff, not, Clock,
  parse_time,
}

pub record IsReady (rt : Runtime) (clock : Clock) (records : List Value) (q : Request) (r : Fields)
    (first last acquired_first acquired_last : ℕ) : Type 0 where
  pub strict : is_nil (validate_full_capture_receipt rt clock (some r)).blockers ≡ true
  pub loaded : is_empty q.receipt_load_error ≡ true
  pub has_rows : is_nil (receipt_rows rt (receipt_capture_id rt r) (rows_of records)) ≡ false
  pub requested_first : parse_time clock (str q.requested_start) ≡ some first
  pub requested_last : parse_time clock (str q.requested_end) ≡ some last
  pub acquired_start :
      (acquired_range rt clock (rows_of records) (some r) (receipt_capture_id rt r)).0
      ≡ some acquired_first
  pub acquired_end :
      (acquired_range rt clock (rows_of records) (some r) (receipt_capture_id rt r)).1
      ≡ some acquired_last
  pub is_range : first ≤ last
  pub from_start : acquired_first ≤ first
  pub to_end : last ≤ acquired_last
  pub recent : q.freshness_status ≡ "recent"
  pub confirmed : q.user_confirmed ≡ true

is_nil-dedupe_from :
    (seen xs : List String) → is_nil (dedupe_from seen xs) ≡ (is_nil seen && is_nil xs)
is_nil-dedupe_from [] xs = is_nil-dedupe xs
is_nil-dedupe_from (s ∷ seen) xs = dedupe_from-cons s seen xs

-- The findings of a context that nothing blocks.
record IsClear (f : Findings) : Type 0 where
  pub valid_range : f.valid_range ≡ true
  pub range_covered : f.range_covered ≡ true
  pub has_receipt_rows : f.has_receipt_rows ≡ true
  pub verified : f.verified ≡ true
  pub recent : f.recent ≡ true
  pub confirmed : f.confirmed ≡ true

passes-IsClear : (f : Findings) → AllPass (acquisition_checks f) → IsClear f
unfolding acquisition_checks
passes-IsClear f h = ground arith

in_order-some :
    (a b : Option ℕ)
    → in_order a b ≡ true
    → (m : ℕ) × (n : ℕ) × (a ≡ some m) × (b ≡ some n) × (m ≤ n)
in_order-some none b h = absurd (ground arith)
in_order-some (some m) none h = absurd (ground arith)
in_order-some (some m) (some n) h = (m, n, refl, refl, ground arith)

below-some : (a : Option ℕ) (n : ℕ) → in_order a (some n) ≡ true → (m : ℕ) × (a ≡ some m) × (m ≤ n)
below-some none n h = absurd (ground arith)
below-some (some m) n h = (m, refl, ground arith)

above-some : (n : ℕ) (a : Option ℕ) → in_order (some n) a ≡ true → (m : ℕ) × (a ≡ some m) × (n ≤ m)
above-some n none h = absurd (ground arith)
above-some n (some m) h = (m, refl, ground arith)

not-true : (b : Bool) → not b ≡ true → b ≡ false
not-true b h = ground arith

and_left : (a b : Bool) → (a && b) ≡ true → a ≡ true
and_left a b h = ground arith

and_right : (a b : Bool) → (a && b) ≡ true → b ≡ true
and_right a b h = ground arith

nil_blockers :
    (blockers : List String) (load_error : String)
    → is_nil (
        if is_empty load_error || contains load_error blockers
        then blockers
        else blockers ++ load_error ∷ [])
      ≡ true
    → (is_nil blockers ≡ true) × (is_empty load_error ≡ true)
nil_blockers [] load_error h = (refl, ground arith)
nil_blockers (b ∷ bs) load_error h = absurd (ground arith)

receipt_blockers-nil :
    (v : Validation) (load_error : String)
    → is_nil (receipt_blockers v load_error) ≡ true
    → (is_nil v.blockers ≡ true) × (is_empty load_error ≡ true)
unfolding receipt_blockers
receipt_blockers-nil v load_error h = nil_blockers v.blockers load_error h

-- What the findings of a receipt say if nothing blocks.
clear-IsReady :
    (rt : Runtime) (clock : Clock) (records : List Value) (q : Request) (r : Fields)
    → IsClear (findings rt clock (rows_of records) q (some r))
    → (first : ℕ) × (last : ℕ) × (acquired_first : ℕ) × (acquired_last : ℕ) × IsReady rt clock
        records q r first last acquired_first acquired_last
unfolding findings requested_range validate_full_capture_receipt
clear-IsReady rt clock records q r clear =
    let v = validate_full_capture_receipt rt clock (some r) in
    let acquired = acquired_range rt clock (rows_of records) (some r) v.capture_id in
    let (first, last, at_first, at_last, is_range) =
      in_order-some (parse_time clock (str q.requested_start))
        (parse_time clock (str q.requested_end)) clear.valid_range in
    let covered : covers acquired (requested_range clock q) ≡ true =
      and_right
        (in_order (parse_time clock (str q.requested_start))
          (parse_time clock (str q.requested_end)))
        _ clear.range_covered in
    let starts : in_order acquired.0 (parse_time clock (str q.requested_start)) ≡ true =
      and_left _ _ covered in
    let ends : in_order (parse_time clock (str q.requested_end)) acquired.1 ≡ true =
      and_right _ _ covered in
    let (m, at_m, from_start) = below-some acquired.0 first (rw at_first at starts) in
    let (n, at_n, to_end) = above-some last acquired.1 (rw at_last at ends) in
    let (strict, loaded) = receipt_blockers-nil v q.receipt_load_error clear.verified in
    (
      first,
      last,
      m,
      n,
      record {
        strict = strict;
        loaded = loaded;
        has_rows = not-true _ clear.has_receipt_rows;
        requested_first = at_first;
        requested_last = at_last;
        acquired_start = at_m;
        acquired_end = at_n;
        is_range = is_range;
        from_start = from_start;
        to_end = to_end;
        recent = (eq_iff q.freshness_status "recent").0 clear.recent;
        confirmed = clear.confirmed;
      },
    )

-- A ready context rests on a strict receipt: if the gate lets a context be summarised, the receipt
-- that it was given passes the strict validator and was loaded without an error, some record
-- carries its id, the requested range is a range and lies in the acquired one, the cache is recent,
-- and the user confirmed.
pub gate-IsReady :
    (rt : Runtime) (clock : Clock) (records : List Value) (q : Request) (r : Fields)
    → (build_acquisition_completion_gate rt clock records q (some r)).summary_ready ≡ true
    → (first : ℕ) × (last : ℕ) × (acquired_first : ℕ) × (acquired_last : ℕ) × IsReady rt clock
        records q r first last acquired_first acquired_last
unfolding build_acquisition_completion_gate all_blockers
gate-IsReady rt clock records q r h =
    let f = findings rt clock (rows_of records) q (some r) in
    let v = validate_full_capture_receipt rt clock (some r) in
    let more = receipt_blockers v q.receipt_load_error in
    let none_failed : is_nil (failed (acquisition_checks f)) ≡ true =
      and_left _ (is_nil more)
        (sym (is_nil-dedupe_from (failed (acquisition_checks f)) more) ∙ h) in
    clear-IsReady rt clock records q r
      (passes-IsClear f ((nil-failed (acquisition_checks f)).0 none_failed))
