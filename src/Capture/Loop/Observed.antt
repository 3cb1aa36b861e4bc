-- ===== src/Capture/Loop/Observed.antt =====
-- What a valid observed-full receipt of capture/loop.py says.
use discord_context_bridge.Capture.Loop.Claims.{Holds, occurs-Holds}
use discord_context_bridge.Capture.Loop.Receipts.{
  claims_api_full, validate_observed_full_receipt, mapping_field, receipt_checks,
}
use discord_context_bridge.Shared.{
  true, false, str, bool, null, int, float, obj, arr, inl, inr, Fields, Value, ◌↔◌, Runtime, ◌≡◌,
  get, Bool, nil-failed, refl, codes, str_or_empty, is_text_iff, is_true, Bool-cases, is_true_iff,
  is_false, is_false_iff, not-false, true-not,
}

-- The field is a mapping with this value at `verified`.
abbrev pub Verified : Value → Value → Type 0
Verified v flag = (fs : Fields) × (v ≡ obj fs) × (get "verified" fs ≡ flag)

-- The fields of a receipt of a capture that was observed in full: it is of this schema, it was
-- observed and says of the API that it was not, the state does not hold `api_full` in small letters
-- or capitals, and neither text nor actions went out.
pub record IsObservedFull (rt : Runtime) (receipt : Fields) : Type 0 where
  pub schema : get "schema" receipt ≡ str "discord_observed_full_closeout.v1"
  pub observed : Verified (get "observed_full" receipt) (bool true)
  pub api_denied : Verified (get "api_full" receipt) (bool false)
  pub unclaimed : Holds (codes "api_full") (codes (str_or_empty rt (get "state" receipt))) → ⊥
  pub text_kept : get "raw_text_returned" receipt ≡ bool false
  pub outbound : get "outbound_actions" receipt ≡ str "disabled"

same_fields :
    (fs gs : Fields) (flag : Value)
    → obj fs ≡ obj gs
    → get "verified" gs ≡ flag
    → get "verified" fs ≡ flag
same_fields fs gs flag same at_gs = let e : fs ≡ gs = cc in rw e at_gs

mapping_field-Verified :
    (test : Value → Bool) (flag v : Value)
    → ((w : Value) → (test w ≡ true) ↔ (w ≡ flag))
    → (mapping_field test "verified" v ≡ true) ↔ Verified v flag
mapping_field-Verified test flag (obj fs) means = (
  λ h. (fs, refl, (means (get "verified" fs)).0 h),
  λ h. (means (get "verified" fs)).1 (same_fields fs h.0 flag h.1 h.2),
)
mapping_field-Verified test flag (str s) means = (λ h. cc, λ h. cc (h.1))
mapping_field-Verified test flag (bool b) means = (λ h. cc, λ h. cc (h.1))
mapping_field-Verified test flag null means = (λ h. cc, λ h. cc (h.1))
mapping_field-Verified test flag (int n) means = (λ h. cc, λ h. cc (h.1))
mapping_field-Verified test flag (float x) means = (λ h. cc, λ h. cc (h.1))
mapping_field-Verified test flag (arr vs) means = (λ h. cc, λ h. cc (h.1))

unclaimed_iff :
    (rt : Runtime) (receipt : Fields)
    → (claims_api_full rt receipt ≡ false)
      ↔ (Holds (codes "api_full") (codes (str_or_empty rt (get "state" receipt))) → ⊥)
unfolding claims_api_full
unclaimed_iff rt receipt =
    let (found, finds) = occurs-Holds (codes (str_or_empty rt (get "state" receipt))) in
    (
      λ h held. absurd (cc (h, finds held)),
      λ h. elim (Bool-cases (claims_api_full rt receipt)) [
        | inl claimed ↦ absurd (h (found claimed))
        | inr silent ↦ silent
      ],
    )

-- A receipt is valid exactly if its fields say what they must: its schema, that it was verified as
-- observed and not by the API, a state that does not hold the text `api_full` in small letters or
-- capitals, and that no text was returned and no action sent.
pub validate-IsObservedFull :
    (rt : Runtime) (receipt : Fields)
    → ((validate_observed_full_receipt rt receipt).valid ≡ true) ↔ IsObservedFull rt receipt
unfolding validate_observed_full_receipt
validate-IsObservedFull rt receipt =
    let (passed, passes) = nil-failed (receipt_checks rt receipt) in
    let schema = is_text_iff "discord_observed_full_closeout.v1" (get "schema" receipt) in
    let observed =
      mapping_field-Verified is_true (bool true) (get "observed_full" receipt) is_true_iff in
    let denied =
      mapping_field-Verified is_false (bool false) (get "api_full" receipt) is_false_iff in
    let claims = unclaimed_iff rt receipt in
    let kept = is_false_iff (get "raw_text_returned" receipt) in
    let sent = is_text_iff "disabled" (get "outbound_actions" receipt) in
    (
      λ h.
          let all = passed h in
          record {
            schema = schema.0 (not-false _ all.0);
            observed = observed.0 (not-false _ all.1.0);
            api_denied = denied.0 (not-false _ all.1.1.0);
            unclaimed = claims.0 all.1.1.1.0;
            text_kept = kept.0 (not-false _ all.1.1.1.1.0);
            outbound = sent.0 (not-false _ all.1.1.1.1.1.0);
          },
      λ h. passes (
        true-not _ (schema.1 h.schema),
        (
          true-not _ (observed.1 h.observed),
          (
            true-not _ (denied.1 h.api_denied),
            (
              claims.1 h.unclaimed,
              (true-not _ (kept.1 h.text_kept), (true-not _ (sent.1 h.outbound), tt)),
            ),
          ),
        ),
      ),
    )
