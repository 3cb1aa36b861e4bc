-- ===== src/AcquisitionGate/Strict.antt =====
-- What a receipt that the strict validator accepts states.

-- A receipt of a full capture of `messages` messages and `files` attachments.
use discord_context_bridge.AcquisitionGate.Receipts.{
  validate_full_capture_receipt, receipt_checks, is_positive, same_count, aligned,
  source_gate_schema, receipt_messages, is_canonical, count_of, has_provenance, receipt_capture_id,
  identity_valid, receipt_boundaries, positive_int, counts_valid, boundaries_complete,
}
use discord_context_bridge.Shared.{
  Option, Runtime, ℕ, Fields, ◌≡◌, some, AllPass, is_text, is_nil, true, arith, ◌<◌, ◌↔◌,
  nil-failed, false, ◌⊎◌, get, is_true, is_empty, none, refl, find, truthy, is_false, Bool,
  not-false, ◌&&◌, not, inl, inr, wrong_at, AllPass-wrong_at, Clock,
}

pub record IsStrict (rt : Runtime) (clock : Clock) (r : Fields) (messages files : ℕ) : Type 0 where
  pub gate : is_text "discord_full_capture_completion_gate.v1" (source_gate_schema r) ≡ true
  pub binding :
      (is_canonical r ≡ false) ⊎ (is_text "context_acquisition" (get "consumer_binding" r) ≡ true)
  pub provenance : (is_canonical r ≡ false) ⊎ (has_provenance clock r ≡ true)
  pub status : is_text "full" (get "status" r) ≡ true
  pub confirmed : is_true (get "full_capture_confirmed" r) ≡ true
  pub named : is_empty (receipt_capture_id rt r) ≡ false
  pub identity : identity_valid rt (receipt_capture_id rt r) (find "capture_identity" r) ≡ true
  pub oldest : is_true (get "oldest_reached" (receipt_boundaries r)) ≡ true
  pub latest : is_true (get "latest_reached" (receipt_boundaries r)) ≡ true
  pub stable : is_true (get "capture_stable_after_rescan" (receipt_boundaries r)) ≡ true
  pub counts_consistent : is_true (get "counts_consistent" r) ≡ true
  pub some_message : 0 < messages
  pub message_count : receipt_messages r ≡ some messages
  pub raw_count : count_of "raw_records" r ≡ some messages
  pub markdown_count : count_of "markdown_messages" r ≡ some messages
  pub ledger_count : count_of "ledger_messages" r ≡ some messages
  pub attachments_consistent : is_true (get "attachments_consistent" r) ≡ true
  pub discovered : count_of "attachments_discovered" r ≡ some files
  pub saved : count_of "attachments_saved" r ≡ some files
  pub manifested : count_of "attachments_manifested" r ≡ some files
  pub no_gap : positive_int (get "unresolved_gap_count" r) ≡ some 0
  pub no_blocker : truthy (get "blockers" r) ≡ false
  pub no_text : is_false (get "raw_text_returned" r) ≡ true
  pub no_names : is_false (get "participant_names_returned" r) ≡ true
  pub no_url : is_text "omitted" (get "url_output" r) ≡ true
  pub no_path : is_text "omitted" (get "path_output" r) ≡ true
  pub outbound : is_text "disabled" (get "outbound_actions" r) ≡ true

same_count-some : (a : Option ℕ) (n : ℕ) → same_count a (some n) ≡ true → a ≡ some n
same_count-some none n h = cc
same_count-some (some m) n h = ground arith

some_positive : (a : Option ℕ) → is_positive a ≡ true → (n : ℕ) × (a ≡ some n) × (0 < n)
some_positive none h = absurd (ground arith)
some_positive (some n) h = (n, refl, ground arith)

aligned-some :
    (a b c : Option ℕ) → aligned a b c ≡ true → (n : ℕ) × (a ≡ some n) × (b ≡ some n) × (c ≡ some n)
aligned-some (some a) (some b) (some c) h = (a, refl, ground arith, ground arith)
aligned-some none b c h = absurd (ground arith)
aligned-some (some a) none c h = absurd (ground arith)
aligned-some (some a) (some b) none h = absurd (ground arith)

-- A test that applies in a case only.
unless : (case test : Bool) → (case && not test) ≡ false → (case ≡ false) ⊎ (test ≡ true)
unless false test h = inl refl
unless true test h = inr (not-false test h)

counts-IsStrict :
    (rt : Runtime) (clock : Clock) (r : Fields) (messages files : ℕ)
    → AllPass (receipt_checks rt clock r)
    → 0 < messages
    → receipt_messages r ≡ some messages
    → count_of "attachments_discovered" r ≡ some files
    → count_of "attachments_saved" r ≡ some files
    → count_of "attachments_manifested" r ≡ some files
    → IsStrict rt clock r messages files
unfolding receipt_checks
counts-IsStrict rt clock r messages files h some_message counted discovered saved manifested =
    let passed : (n : ℕ) → wrong_at n (receipt_checks rt clock r) ≡ false =
      λ n. AllPass-wrong_at n (receipt_checks rt clock r) h in
    let counts : counts_valid r ≡ true = not-false _ (passed 9) in
    let bounds : boundaries_complete (receipt_boundaries r) ≡ true = not-false _ (passed 7) in
    record {
      gate = not-false _ (passed 0);
      binding = unless _ _ (passed 1);
      provenance = unless _ _ (passed 2);
      status = not-false _ (passed 3);
      confirmed = not-false _ (passed 4);
      named = passed 5;
      identity = not-false _ (passed 6);
      oldest = ground arith;
      latest = ground arith;
      stable = ground arith;
      counts_consistent = not-false _ (passed 8);
      some_message = some_message;
      message_count = counted;
      raw_count = same_count-some _ messages (rw (← counted) (ground arith));
      markdown_count = same_count-some _ messages (rw (← counted) (ground arith));
      ledger_count = same_count-some _ messages (rw (← counted) (ground arith));
      attachments_consistent = not-false _ (passed 10);
      discovered = discovered;
      saved = saved;
      manifested = manifested;
      no_gap = same_count-some _ 0 (not-false _ (passed 12));
      no_blocker = passed 13;
      no_text = not-false _ (passed 14);
      no_names = not-false _ (passed 15);
      no_url = not-false _ (passed 16);
      no_path = not-false _ (passed 17);
      outbound = not-false _ (passed 18);
    }

passes-IsStrict :
    (rt : Runtime) (clock : Clock) (r : Fields)
    → AllPass (receipt_checks rt clock r)
    → (messages : ℕ) × (files : ℕ) × IsStrict rt clock r messages files
unfolding receipt_checks
passes-IsStrict rt clock r h =
    let (m, counted, some_message) = some_positive (receipt_messages r) (ground arith) in
    let (k, discovered, saved, manifested) =
      aligned-some (count_of "attachments_discovered" r) (count_of "attachments_saved" r)
        (count_of "attachments_manifested" r) (ground arith) in
    (m, k, counts-IsStrict rt clock r m k h some_message counted discovered saved manifested)

IsStrict-passes :
    (rt : Runtime) (clock : Clock) (r : Fields) (messages files : ℕ)
    → IsStrict rt clock r messages files
    → AllPass (receipt_checks rt clock r)
unfolding receipt_checks
IsStrict-passes rt clock r messages files h = ground arith

-- The strict validator finds nothing exactly if the receipt states a full capture: of the gate, run
-- and identity that it names, to both ends and stable, with the same positive count of messages in
-- every copy, the same count of attachments at every stage, no gap, no blocker, and nothing private
-- in it.
pub validate-IsStrict :
    (rt : Runtime) (clock : Clock) (r : Fields)
    → (is_nil (validate_full_capture_receipt rt clock (some r)).blockers ≡ true)
      ↔ ((messages : ℕ) × (files : ℕ) × IsStrict rt clock r messages files)
unfolding validate_full_capture_receipt
validate-IsStrict rt clock r =
    let (nil_if, if_nil) = nil-failed (receipt_checks rt clock r) in
    (
      λ h. passes-IsStrict rt clock r (nil_if h),
      λ h. if_nil (IsStrict-passes rt clock r h.0 h.1 h.2),
    )
