-- ===== src/Capture/Reconcile.antt =====
-- capture/reconcile.py: evidence that compares the identifiers of the saved projections.
-- The result is the mapping that the code returns, with its keys in order.
pub mod Sets
use discord_context_bridge.Shared.{
  ℕ, ◌-◌, Bool, true, false, ◌&&◌, List, [], ◌∷◌, String, Runtime, Fields, Value, all, length, max,
  str_eq, field, int, if◌then◌else◌, pos, digest, bool, str, contains, end, suc,
}

-- `len(set(values))`
unfoldable pub distinct_count : List String → ℕ
distinct_count [] = 0
distinct_count (x ∷ xs) = let rest = distinct_count xs in if contains x xs then rest else suc rest

-- `_duplicates`
unfoldable pub duplicates : List String → ℕ
unfolding distinct_count
duplicates values = length values - distinct_count values

-- `set(xs) <= set(ys)`
unfoldable pub is_subset : List String → List String → Bool
is_subset xs ys = all (λ x. contains x ys) xs

-- `set(xs) == set(ys)`
unfoldable pub same_set : List String → List String → Bool
unfolding is_subset
same_set xs ys = is_subset xs ys && is_subset ys xs

-- One frozenset among the three.
unfoldable pub one_set : List String → List String → List String → Bool
unfolding same_set
one_set xs ys zs = same_set xs ys && same_set xs zs

-- One digest among the three.
unfoldable pub one_digest : Runtime → List String → List String → List String → Bool
one_digest rt xs ys zs =
    str_eq (digest rt xs) (digest rt ys) && str_eq (digest rt xs) (digest rt zs)

pub record Identifiers : Type 0 where
  pub raw : List String
  pub markdown : List String
  pub ledger : List String
  pub discovered : List String
  pub saved : List String
  pub manifest : List String

abbrev pub count_value : List String → Value
count_value xs = int (pos (length xs))

abbrev pub max_of : ℕ → ℕ → ℕ → ℕ
max_of a b c = max a (max b c)

-- The keys that do not speak of attachments, without the producer.
abbrev pub message_evidence : Runtime → Identifiers → Fields → Fields
message_evidence rt ids rest = field "message_count" (count_value ids.raw) (
    field "raw_record_count" (count_value ids.raw) (
      field "raw_message_count" (count_value ids.raw) (
        field "markdown_message_count" (count_value ids.markdown) (
          field "ledger_message_count" (count_value ids.ledger) (
            field "message_id_sets_equal" (bool (one_set ids.raw ids.markdown ids.ledger)) (
              field "ordered_message_digest_equal"
                (bool (one_digest rt ids.raw ids.markdown ids.ledger))
                (field "duplicate_message_count"
                  (int (
                    pos (
                      max_of (duplicates ids.raw) (duplicates ids.markdown)
                        (duplicates ids.ledger))))
                  rest)))))))

abbrev pub attachment_evidence : Identifiers → Bool → Fields → Fields
attachment_evidence ids complete rest =
    field "attachment_discovered_count" (count_value ids.discovered) (
      field "attachment_saved_count" (count_value ids.saved) (
        field "attachment_manifest_count" (count_value ids.manifest) (
          field "attachment_inventory_complete" (bool complete) (
            field "attachment_id_sets_equal" (bool (one_set ids.discovered ids.saved ids.manifest))
              rest))))

abbrev pub trusted_producer : String
trusted_producer = "discord_context_bridge.capture.reconcile.v1"

abbrev pub producer_evidence : Fields
producer_evidence = field "evidence_producer" (str trusted_producer) end

unfoldable pub build_reconciliation_evidence : Runtime → Identifiers → Bool → Fields
build_reconciliation_evidence rt ids complete =
    message_evidence rt ids (attachment_evidence ids complete producer_evidence)
