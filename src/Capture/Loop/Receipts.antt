-- ===== src/Capture/Loop/Receipts.antt =====
-- The receipts of an observed-full capture in capture/loop.py.
use discord_context_bridge.Shared.{
  Bool, true, false, not, ◌&&◌, ◌||◌, String, List, [], ◌∷◌, ◌++◌, Option, none, some, ℕ, ◌≡◌, ◌↔◌,
  arith, Fields, Value, Runtime, lower, is_nil, ◌==◌, is_text, get, codes, is_true, is_false,
  str_or_empty, obj, refl, dedupe, ltb, nil-failed, failed, Checks, AllPass, ◌≤◌, is_nil-dedupe,
  ◌∙◌, is_nil-append, and-eq-true, sym,
}

abbrev pub has_prefix : List ℕ → List ℕ → Bool
has_prefix [] text = true
has_prefix (c ∷ cs) [] = false
has_prefix (c ∷ cs) (d ∷ ds) = c == d && has_prefix cs ds

-- `part in text`
unfoldable pub occurs : List ℕ → List ℕ → Bool
occurs part [] = has_prefix part []
occurs part (c ∷ cs) = has_prefix part (c ∷ cs) || occurs part cs

-- `isinstance(value, Mapping) and test(value.get(key))`
abbrev pub mapping_field : (Value → Bool) → String → Value → Bool
mapping_field test key (obj fs) = test (get key fs)
mapping_field test key _ = false

pub record ReceiptValidation : Type 0 where
  pub valid : Bool
  pub observed_full_verified : Bool
  pub api_full_verified : Bool
  pub source_api_full_claimed : Bool
  pub blockers : List String

-- `"api_full" in str(receipt.get("state") or "").casefold()`: beyond `lower`, no character folds to
-- a part of this text.
unfoldable pub claims_api_full : Runtime → Fields → Bool
unfolding occurs lower
claims_api_full rt receipt =
    occurs (codes "api_full") (lower (codes (str_or_empty rt (get "state" receipt))))

abbrev pub receipt_checks : Runtime → Fields → Checks
receipt_checks rt receipt =
    (
      not (is_text "discord_observed_full_closeout.v1" (get "schema" receipt)),
      "invalid_observed_full_schema",
    )
    ∷ (
      not (mapping_field is_true "verified" (get "observed_full" receipt)),
      "observed_full_not_verified",
    )
    ∷ (
      not (mapping_field is_false "verified" (get "api_full" receipt)),
      "api_full_must_remain_false",
    )
    ∷ (claims_api_full rt receipt, "observed_receipt_claims_api_full")
    ∷ (not (is_false (get "raw_text_returned" receipt)), "raw_text_must_not_be_returned")
    ∷ (
      not (is_text "disabled" (get "outbound_actions" receipt)),
      "outbound_actions_must_be_disabled",
    )
    ∷ []

unfoldable pub validate_observed_full_receipt : Runtime → Fields → ReceiptValidation
validate_observed_full_receipt rt receipt =
    let blockers = failed (receipt_checks rt receipt) in
    record {
      valid = is_nil blockers;
      observed_full_verified = mapping_field is_true "verified" (get "observed_full" receipt);
      api_full_verified = false;
      source_api_full_claimed = mapping_field is_true "verified" (get "api_full" receipt);
      blockers = blockers;
    }

-- The canonical reconciliation, as the capture store reports it.
pub record Reconciliation : Type 0 where
  pub schema : Value
  pub full_capture_confirmed : Value
  pub blockers : List String

pub record ObservedFullCloseout : Type 0 where
  pub observed_full_verified : Bool
  pub pass_count : ℕ
  pub last_pass_new_message_count : Option ℕ
  pub edited_message_count : ℕ
  pub date_continuity_operator_attested : Bool
  pub api_full_verified : Bool
  pub blockers : List String

abbrev pub is_zero : Option ℕ → Bool
is_zero none = false
is_zero (some n) = n == 0

-- What the caller passes beside the reconciliation.
pub record CloseoutRequest : Type 0 where
  pub visible_route : Bool
  pub visible_source_observed : Bool
  pub observed_full_requested : Bool
  pub date_continuity_operator_attested : Bool
  pub scan_pass_count : ℕ
  pub last_pass_new_message_count : Option ℕ
  pub edited_message_count : ℕ

abbrev closeout_checks : Reconciliation → CloseoutRequest → Checks
closeout_checks reconciliation q =
    (
      not (is_text "dcb-capture-loop-reconcile.v1" reconciliation.schema),
      "canonical_reconciliation_missing",
    )
    ∷ (not (is_true reconciliation.full_capture_confirmed), "strict_full_capture_not_confirmed")
    ∷ (not q.visible_route, "visible_route_required")
    ∷ (not q.visible_source_observed, "visible_source_not_observed")
    ∷ (not q.observed_full_requested, "observed_full_not_requested_at_capture_start")
    ∷ (not q.date_continuity_operator_attested, "date_continuity_operator_attestation_missing")
    ∷ (
      ltb q.scan_pass_count 2 || not (is_zero q.last_pass_new_message_count),
      "stable_repeat_pass_missing",
    )
    ∷ (not (q.edited_message_count == 0), "content_versions_changed_during_capture")
    ∷ []

unfoldable pub build_observed_full_closeout :
    Reconciliation → CloseoutRequest → ObservedFullCloseout
build_observed_full_closeout reconciliation q =
    let blockers = dedupe (reconciliation.blockers ++ failed (closeout_checks reconciliation q)) in
    record {
      observed_full_verified = is_nil blockers;
      pass_count = q.scan_pass_count;
      last_pass_new_message_count = q.last_pass_new_message_count;
      edited_message_count = q.edited_message_count;
      date_continuity_operator_attested = q.date_continuity_operator_attested;
      api_full_verified = false;
      blockers = blockers;
    }

-- What closes a capture as observed in full.
pub record ObservedInFull (reconciliation : Reconciliation) (q : CloseoutRequest) : Type 0 where
  pub unblocked : is_nil reconciliation.blockers ≡ true
  pub canonical : is_text "dcb-capture-loop-reconcile.v1" reconciliation.schema ≡ true
  pub strict : is_true reconciliation.full_capture_confirmed ≡ true
  pub visible : (q.visible_route ≡ true) × (q.visible_source_observed ≡ true)
  pub requested : q.observed_full_requested ≡ true
  pub attested : q.date_continuity_operator_attested ≡ true
  pub rescanned : (2 ≤ q.scan_pass_count) × (q.last_pass_new_message_count ≡ some 0)
  pub unedited : q.edited_message_count ≡ 0

checks-ObservedInFull :
    (reconciliation : Reconciliation) (q : CloseoutRequest)
    → (is_nil reconciliation.blockers ≡ true) × AllPass (closeout_checks reconciliation q)
      ↔ ObservedInFull reconciliation q
checks-ObservedInFull reconciliation q = (λ h. ground arith, λ h. ground arith)

-- The closeout is verified exactly if the reconciliation is the canonical one, confirmed and without
-- blockers, the route was visible and observed, the mode was requested and attested, at least two
-- passes were made of which the last found nothing new, and no message was edited. It never claims
-- a full capture by the API.
pub closeout-ObservedInFull :
    (reconciliation : Reconciliation) (q : CloseoutRequest)
    → (((build_observed_full_closeout reconciliation q).observed_full_verified ≡ true)
        ↔ ObservedInFull reconciliation q)
      × ((build_observed_full_closeout reconciliation q).api_full_verified ≡ false)
unfolding build_observed_full_closeout
closeout-ObservedInFull reconciliation q =
    let (passed, passes) = nil-failed (closeout_checks reconciliation q) in
    let checks = failed (closeout_checks reconciliation q) in
    let split : is_nil (dedupe (reconciliation.blockers ++ checks))
        ≡ (is_nil reconciliation.blockers && is_nil checks) =
      is_nil-dedupe (reconciliation.blockers ++ checks)
      ∙ is_nil-append reconciliation.blockers checks in
    let (means, meant) = checks-ObservedInFull reconciliation q in
    (
      (
        λ h.
            let both =
              (and-eq-true (is_nil reconciliation.blockers) (is_nil checks)).0 (sym split ∙ h) in
            means (both.0, passed both.1),
        λ h.
            let (none_given, pass) = meant h in
            split
            ∙ (and-eq-true (is_nil reconciliation.blockers) (is_nil checks)).1
                (none_given, passes pass),
      ),
      refl,
    )
