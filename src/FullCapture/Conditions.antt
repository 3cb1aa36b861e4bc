-- ===== src/FullCapture/Conditions.antt =====
-- What the gate asks for, and the three outcomes.
use discord_context_bridge.FullCapture.Route.{build_capture_route_policy}
use discord_context_bridge.Capture.Reconcile.{trusted_producer}
use discord_context_bridge.FullCapture.{
  GateStatus, full, blocked, recompute_from_bound_evidence, count, flag, route_of, gate_checks,
  gate_status, hard_blockers, evaluate_merged, evaluate_full_capture, is_nil, str_eq, is_text, get,
  update, is_full, failed, contains, any,
}
use discord_context_bridge.Shared.{
  ℕ, ◌≡◌, ◌<◌, ◌≤◌, ◌↔◌, Bool, true, false, List, [], ◌∷◌, String, Runtime, Fields, arith, refl,
  AllPass, is_nil, str_eq, is_text, get, nil-failed, update, failed, ◌||◌, contains, any, ◌==◌,
  Bool-cases, inl, eq_iff, inr,
}

-- Everything that a full capture asks of the merged evidence and of the comparison with it.
pub record IsComplete (rt : Runtime) (ev : Fields) (mismatches : List String) : Type 0 where
  pub route :
      str_eq (build_capture_route_policy (route_of rt ev)).primary_read "unsupported" ≡ false
  pub producer : is_text trusted_producer (get "evidence_producer" ev) ≡ true
  pub target : flag "target_bound" ev ≡ true
  pub capture : flag "capture_id_present" ev ≡ true
  pub schema : flag "evidence_schema_valid" ev ≡ true
  pub fresh : flag "evidence_fresh" ev ≡ true
  pub some_message : 0 < count "message_count" ev
  pub oldest : flag "oldest_reached" ev ≡ true
  pub latest : flag "latest_reached" ev ≡ true
  pub watermark : flag "upper_watermark_reached" ev ≡ true
  pub stable : flag "capture_stable_after_rescan" ev ≡ true
  pub scans : 2 ≤ count "stable_scan_count" ev
  pub gaps : count "unresolved_gap_count" ev ≡ 0
  pub duplicates : count "duplicate_message_count" ev ≡ 0
  pub raw_count : count "raw_record_count" ev ≡ count "message_count" ev
  pub markdown_count : count "markdown_message_count" ev ≡ count "message_count" ev
  pub ledger_count : count "ledger_message_count" ev ≡ count "message_count" ev
  pub message_sets : flag "message_id_sets_equal" ev ≡ true
  pub message_order : flag "ordered_message_digest_equal" ev ≡ true
  pub hashes : flag "artifact_hashes_verified" ev ≡ true
  pub inventory : flag "attachment_inventory_complete" ev ≡ true
  pub saved_count : count "attachment_saved_count" ev ≡ count "attachment_discovered_count" ev
  pub manifest_count : count "attachment_manifest_count" ev ≡ count "attachment_discovered_count" ev
  pub attachment_sets : flag "attachment_id_sets_equal" ev ≡ true
  pub manifest : flag "manifest_schema_valid" ev ≡ true
  pub retries : count "pending_retry_count" ev ≡ 0
  pub external : is_text "disabled" (get "external_actions" ev) ≡ true
  pub no_mismatch : mismatches ≡ []

passes-IsComplete :
    (rt : Runtime) (ev : Fields) (mismatches : List String)
    → AllPass (gate_checks rt ev mismatches)
    → IsComplete rt ev mismatches
passes-IsComplete rt ev mismatches h = ground arith

IsComplete-passes :
    (rt : Runtime) (ev : Fields) (mismatches : List String)
    → IsComplete rt ev mismatches
    → AllPass (gate_checks rt ev mismatches)
IsComplete-passes rt ev mismatches h = ground arith

gate_status-full :
    (n : ℕ) (blockers : List String) → (gate_status n blockers ≡ full) ↔ (is_nil blockers ≡ true)
unfolding gate_status
gate_status-full n [] = (λ h. refl, λ h. refl)
gate_status-full n (b ∷ bs) = (λ h. ground arith, λ h. cc)

or-true : (b : Bool) → (b || true) ≡ true
or-true true = refl
or-true false = refl

any_hard :
    (r : String) (blockers : List String)
    → contains r hard_blockers ≡ true
    → contains r blockers ≡ true
    → any (λ b. contains b hard_blockers) blockers ≡ true
any_hard r [] hard here = cc
any_hard r (b ∷ bs) hard here = elim (Bool-cases (str_eq r b)) [
  | inl same ↦
      let e : contains b hard_blockers ≡ true = rw (← (eq_iff r b).0 same) hard in rw e refl
  | inr other ↦ rw (any_hard r bs hard (rw other at here)) (or-true (contains b hard_blockers))
]

-- A hard blocker blocks, whatever was counted.
pub gate_status-hard :
    (n : ℕ) (r : String) (blockers : List String)
    → contains r hard_blockers ≡ true
    → contains r blockers ≡ true
    → gate_status n blockers ≡ blocked
unfolding gate_status
gate_status-hard n r [] hard here = cc
gate_status-hard n r (b ∷ bs) hard here =
    rw (any_hard r (b ∷ bs) hard here) (rw (or-true (n == 0)) refl)

confirmed : (s : GateStatus) → (is_full s ≡ true) ↔ (s ≡ full)
confirmed full = (λ h. refl, λ h. refl)
confirmed s = (λ h. cc, λ h. cc)

-- The evidence that the tests read: the payload, with what was recomputed in place of its own.
abbrev pub merged : Runtime → Fields → Fields
merged rt evidence = update evidence (recompute_from_bound_evidence rt evidence).recomputed

-- The gate says `full`, and confirms the capture, exactly if the merged evidence is complete and
-- no recomputed value disagrees with what the payload said.
pub evaluate-IsComplete :
    (rt : Runtime) (evidence : Fields)
    → (((evaluate_full_capture rt evidence).status ≡ full)
        ↔ IsComplete rt
            (merged rt evidence)
            (recompute_from_bound_evidence rt evidence).mismatched_keys)
      × (((evaluate_full_capture rt evidence).full_capture_confirmed ≡ true)
          ↔ ((evaluate_full_capture rt evidence).status ≡ full))
unfolding evaluate_full_capture evaluate_merged
evaluate-IsComplete rt evidence =
    let ev = merged rt evidence in
    let keys = (recompute_from_bound_evidence rt evidence).mismatched_keys in
    let (nil_if, if_nil) = nil-failed (gate_checks rt ev keys) in
    let (says, said) =
      gate_status-full (count "message_count" ev) (failed (gate_checks rt ev keys)) in
    (
      (
        λ h. passes-IsComplete rt ev keys (nil_if (says h)),
        λ h. said (if_nil (IsComplete-passes rt ev keys h)),
      ),
      confirmed (evaluate_full_capture rt evidence).status,
    )
