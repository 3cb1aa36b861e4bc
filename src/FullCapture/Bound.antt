-- ===== src/FullCapture/Bound.antt =====
-- Evidence that carries the identifier lists: what a full gate says of the lists themselves.
use discord_context_bridge.Capture.Reconcile.{
  one_set, one_digest, duplicates, max_of, count_value, same_set,
}
use discord_context_bridge.Capture.Reconcile.Sets.{
  SameMembers, duplicates-IsDistinct, same_set-SameMembers, one_digest-eq,
}
use discord_context_bridge.FullCapture.{
  full, blocked, recompute_from_bound_evidence, recomputed_evidence, evaluate_full_capture,
  evaluate_merged, count, all_bound, any_bound, attachments_bound, bound_ids, gate_checks,
  partial_bound, bool, int, pos, get, find, as_count, truthy, failed,
}
use discord_context_bridge.FullCapture.Conditions.{
  IsComplete, evaluate-IsComplete, merged, gate_status-hard,
}
use discord_context_bridge.Shared.{
  ◌≡◌, ◌<◌, ◌⊎◌, inl, inr, true, false, List, [], ◌∷◌, String, Runtime, Fields, Value, Option, some,
  arith, refl, sym, ap, ◌∙◌, find_last, Bool-cases, bool, int, pos, get, find, length, truthy,
  or_null, find-update, IsDistinct, and-eq-true, Collision, failed, contains-failed,
}

-- What the recomputed mapping holds, whether or not the attachments are bound.
record Recomputed (rt : Runtime) (evidence : Fields) : Type 0 where
  message_count :
      (o : Option Value)
      → find_last "message_count" (recomputed_evidence rt evidence) o
        ≡ some (count_value (bound_ids rt evidence).raw)
  sets :
      (o : Option Value)
      → find_last "message_id_sets_equal" (recomputed_evidence rt evidence) o
        ≡ some (
            bool (
              one_set
                (bound_ids rt evidence).raw
                (bound_ids rt evidence).markdown
                (bound_ids rt evidence).ledger))
  digests :
      (o : Option Value)
      → find_last "ordered_message_digest_equal" (recomputed_evidence rt evidence) o
        ≡ some (
            bool (
              one_digest rt
                (bound_ids rt evidence).raw
                (bound_ids rt evidence).markdown
                (bound_ids rt evidence).ledger))
  repeats :
      (o : Option Value)
      → find_last "duplicate_message_count" (recomputed_evidence rt evidence) o
        ≡ some (
            int (
              pos (
                max_of
                  (duplicates (bound_ids rt evidence).raw)
                  (duplicates (bound_ids rt evidence).markdown)
                  (duplicates (bound_ids rt evidence).ledger))))

bound-Recomputed : (rt : Runtime) (evidence : Fields) → Recomputed rt evidence
unfolding recomputed_evidence
bound-Recomputed rt evidence = elim (Bool-cases (attachments_bound rt evidence)) [
  | inl b ↦ record {
    message_count = λ o. rw b refl;
    sets = λ o. rw b refl;
    digests = λ o. rw b refl;
    repeats = λ o. rw b refl;
  }
  | inr b ↦ record {
    message_count = λ o. rw b refl;
    sets = λ o. rw b refl;
    digests = λ o. rw b refl;
    repeats = λ o. rw b refl;
  }
]

module _ (rt : Runtime) (evidence : Fields) where
  find-merged :
      (key : String)
      → all_bound rt evidence ≡ true
      → find key (merged rt evidence)
        ≡ find_last key (recomputed_evidence rt evidence) (find key evidence)
  unfolding recompute_from_bound_evidence
  find-merged key bound =
      find-update key evidence (recompute_from_bound_evidence rt evidence).recomputed
      ∙ rw bound refl

  get-merged :
      (key : String) (v : Value)
      → all_bound rt evidence ≡ true
      → ((o : Option Value) → find_last key (recomputed_evidence rt evidence) o ≡ some v)
      → get key (merged rt evidence) ≡ v
  get-merged key v bound held = ap or_null (find-merged key bound ∙ held (find key evidence))

  abbrev raw_ids : List String
  raw_ids = (bound_ids rt evidence).raw

  abbrev markdown_ids : List String
  markdown_ids = (bound_ids rt evidence).markdown

  abbrev ledger_ids : List String
  ledger_ids = (bound_ids rt evidence).ledger

  -- What a full gate says of the three message id lists.
  pub record ListsAgree : Type 0 where
    pub captured : 0 < length raw_ids
    pub raw_distinct : IsDistinct raw_ids
    pub markdown_distinct : IsDistinct markdown_ids
    pub ledger_distinct : IsDistinct ledger_ids
    pub markdown_members : SameMembers raw_ids markdown_ids
    pub ledger_members : SameMembers raw_ids ledger_ids
    pub order : ((markdown_ids ≡ raw_ids) × (ledger_ids ≡ raw_ids)) ⊎ Collision rt

  lists_agree :
      all_bound rt evidence ≡ true
      → IsComplete rt
          (merged rt evidence)
          (recompute_from_bound_evidence rt evidence).mismatched_keys
      → ListsAgree
  unfolding count one_set
  lists_agree bound c =
      let r = bound-Recomputed rt evidence in
      let n : as_count (get "message_count" (merged rt evidence)) ≡ length raw_ids =
        ap as_count (get-merged "message_count" _ bound r.message_count) in
      let d : as_count (get "duplicate_message_count" (merged rt evidence))
          ≡ max_of (duplicates raw_ids) (duplicates markdown_ids) (duplicates ledger_ids) =
        ap as_count (get-merged "duplicate_message_count" _ bound r.repeats) in
      let s : one_set raw_ids markdown_ids ledger_ids ≡ true =
        sym (ap truthy (get-merged "message_id_sets_equal" _ bound r.sets)) ∙ c.message_sets in
      let o : one_digest rt raw_ids markdown_ids ledger_ids ≡ true =
        sym (ap truthy (get-merged "ordered_message_digest_equal" _ bound r.digests))
        ∙ c.message_order in
      let both = (and-eq-true (same_set raw_ids markdown_ids) (same_set raw_ids ledger_ids)).0 s in
      record {
        captured = omega (arith, n, c.some_message);
        raw_distinct = duplicates-IsDistinct raw_ids (omega (arith, d, c.duplicates));
        markdown_distinct = duplicates-IsDistinct markdown_ids (omega (arith, d, c.duplicates));
        ledger_distinct = duplicates-IsDistinct ledger_ids (omega (arith, d, c.duplicates));
        markdown_members = same_set-SameMembers raw_ids markdown_ids both.0;
        ledger_members = same_set-SameMembers raw_ids ledger_ids both.1;
        order = one_digest-eq rt raw_ids markdown_ids ledger_ids o;
      }

  -- Evidence with all three message id lists gets `full` only if the lists themselves agree: some
  -- message was captured, no id stands twice in a list, the three lists have the same ids, and they
  -- are the same lists unless two different texts share a hash. What the payload claims of counts,
  -- sets, order or duplicates does not matter.
  pub full-ListsAgree :
      all_bound rt evidence ≡ true → (evaluate_full_capture rt evidence).status ≡ full → ListsAgree
  full-ListsAgree bound h = lists_agree bound ((evaluate-IsComplete rt evidence).0.0 h)

  partly_bound_keys :
      all_bound rt evidence ≡ false
      → any_bound rt evidence ≡ true
      → (recompute_from_bound_evidence rt evidence).mismatched_keys ≡ partial_bound ∷ []
  unfolding recompute_from_bound_evidence
  partly_bound_keys none_all some_any = rw (none_all, some_any) refl

  -- Evidence with some of the three lists but not all is blocked, whatever else it says.
  pub partly_bound-blocked :
      all_bound rt evidence ≡ false
      → any_bound rt evidence ≡ true
      → (evaluate_full_capture rt evidence).status ≡ blocked
  unfolding evaluate_full_capture evaluate_merged
  partly_bound-blocked none_all some_any =
      let ev = merged rt evidence in
      let r = recompute_from_bound_evidence rt evidence in
      gate_status-hard (count "message_count" ev) partial_bound
        (failed (gate_checks rt ev r.mismatched_keys)) refl
        (contains-failed partial_bound (gate_checks rt ev r.mismatched_keys)
          ∙ rw (partly_bound_keys none_all some_any) refl)
