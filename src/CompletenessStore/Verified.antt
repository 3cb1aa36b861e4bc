-- ===== src/CompletenessStore/Verified.antt =====
-- The first half of `audit_parent` of completeness_store.py: the latest scans of a parent, the
-- receipts that are read back and reconciled with the rows, and the stability of two scans.
use discord_context_bridge.CompletenessStore.Recording.{fields_or_end, ids_of}
use discord_context_bridge.CompletenessStore.ScopeReceipts.{has_key, valid_receipt, keys_of}
use discord_context_bridge.CompletenessStore.{
  Column, Bool, Scan, Store, required_scopes, natural_or_zero, str_eq, contains, digest_ids,
  natural_of, scopes_of_kind, archived_private, loaded,
}
use Prim.Native.Nat.{Ordering, ℕ}
use Prim.Native.String.{compare, String}
use discord_context_bridge.Shared.{
  true, false, none, some, [], ◌∷◌, str, null, int, obj, end, field, pos, Fields, List, Runtime,
  String, Option, Value, ℕ, Bool, get, if◌then◌else◌, not, ltb, is_text, str_eq, ◌&&◌, all, length,
  eq_nat, as_fields, ◌||◌, is_true, is_null, contains, is_nil, ◌==◌, ◌+◌,
}

-- The columns that the query sorts by, descending: the first argument comes first.
abbrev pub comes_before : Scan → Scan → Bool
comes_before s t = elim (compare s.observed_at t.observed_at) [
  | Ordering.lt ↦ false
  | Ordering.eq ↦ ltb t.id s.id
  | Ordering.gt ↦ true
]

unfoldable pub insert_scan : Scan → List Scan → List Scan
insert_scan s [] = s ∷ []
insert_scan s (t ∷ ts) =
    let rest = insert_scan s ts in if comes_before s t then s ∷ t ∷ ts else t ∷ rest

unfoldable pub by_recency : String → List Scan → List Scan
by_recency key [] = []
by_recency key (s ∷ ss) =
    let rest = by_recency key ss in
    if str_eq key s.parent_target_key then insert_scan s rest else rest

abbrev pub first_two : List Scan → List Scan
first_two (s ∷ t ∷ rest) = s ∷ t ∷ []
first_two scans = scans

-- The two latest scans of a parent.
unfoldable pub latest_scans : String → Store → List Scan
latest_scans key store = first_two (by_recency key store.inventory_scans)

abbrev pub all_receipts : (String → Fields → Bool) → Fields → Bool
all_receipts p end = true
all_receipts p (field scope (obj r) rest) = p scope r && all_receipts p rest
all_receipts p (field scope v rest) = false

abbrev pub only_required : Option (List String) → Fields → Bool
only_required none receipts = false
only_required (some required) receipts = all (λ s. contains s required) (keys_of receipts)

abbrev pub required_of : Option String → Option (List String)
required_of none = none
required_of (some kind) = required_scopes kind

abbrev receipts_in : Column → Option Fields
receipts_in (loaded (obj receipts)) = some receipts
receipts_in _ = none

-- Receipts that were read, and whether they are valid; no receipts where they are not.
pub record Receipts : Type 0 where
  pub receipts : Fields
  pub valid : Bool

abbrev checked_receipts : Runtime → Option String → Option Fields → Receipts
checked_receipts rt kind none = record { receipts = end; valid = false }
checked_receipts rt kind (some receipts) =
    if only_required (required_of kind) receipts && all_receipts (valid_receipt rt) receipts
    then record { receipts = receipts; valid = true }
    else record { receipts = end; valid = false }

-- `_stored_scope_receipts`
unfoldable pub stored_scope_receipts : Runtime → Column → Option String → Receipts
stored_scope_receipts rt column kind = checked_receipts rt kind (receipts_in column)

-- `scope_ids.get(scope, [])`
abbrev pub ids_in : String → List (String × Option String) → List String
ids_in scope [] = []
ids_in scope ((id, none) ∷ rows) = ids_in scope rows
ids_in scope ((id, some s) ∷ rows) =
    let rest = ids_in scope rows in if str_eq scope s then id ∷ rest else rest

abbrev has_scope : Fields → Option String → Bool
has_scope receipts none = false
has_scope receipts (some scope) = has_key scope receipts

-- `set(scope_ids).issubset(receipts)`
abbrev pub scopes_known : Fields → List (String × Option String) → Bool
scopes_known receipts [] = true
scopes_known receipts ((id, scope) ∷ rows) = has_scope receipts scope && scopes_known receipts rows

abbrev pub counts_ids : Runtime → List String → Fields → Bool
counts_ids rt ids r =
    eq_nat (get "thread_count" r) (length ids)
    && is_text (digest_ids rt ids) (get "thread_set_digest" r)

-- `sum(receipt["thread_count"] for receipt in receipts.values())`
abbrev pub total_threads : Fields → ℕ
total_threads end = 0
total_threads (field scope (obj r) rest) =
    natural_or_zero (natural_of (get "thread_count" r)) + total_threads rest
total_threads (field scope v rest) = total_threads rest

unfoldable pub rows_reconciled : Runtime → Scan → Fields → Bool
rows_reconciled rt s receipts =
    length s.threads == s.thread_count
    && str_eq (digest_ids rt (ids_of s.threads)) s.thread_set_digest
    && scopes_known receipts s.threads
    && all_receipts (λ scope r. counts_ids rt (ids_in scope s.threads) r) receipts
    && total_threads receipts == length s.threads

-- What `verified_receipts` holds of a scan.
unfoldable pub verified : Runtime → Scan → Receipts
verified rt s =
    let stored = stored_scope_receipts rt s.scope_receipts s.parent_kind in
    record {
      receipts = stored.receipts;
      valid = stored.valid && rows_reconciled rt s stored.receipts;
    }

-- `receipts.get(scope, {}).get(name)`
abbrev pub receipt_value : String → String → Fields → Value
receipt_value scope name receipts = get name (fields_or_end (as_fields (get scope receipts)))

-- `scope in receipts and receipts[scope].get("terminal_reached") is True`, for every required scope
abbrev pub all_terminal : List String → Fields → Bool
all_terminal required receipts =
    all
      (λ scope. has_key scope receipts && is_true (receipt_value scope "terminal_reached" receipts))
      required

abbrev is_text_kind : Option String → Bool
is_text_kind none = false
is_text_kind (some kind) = str_eq kind "text"

abbrev pub authorized : Option String → Fields → Bool
authorized kind receipts =
    not (is_text_kind kind)
    || is_true (receipt_value archived_private "authorization_confirmed" receipts)

-- The scan is complete: valid and reconciled, every required scope at its end, and a text channel
-- with the authorization for private threads.
unfoldable pub scan_complete : Runtime → Scan → Bool
scan_complete rt s =
    let v = verified rt s in
    v.valid
    && not (is_nil (scopes_of_kind s.parent_kind))
    && all_terminal (scopes_of_kind s.parent_kind) v.receipts
    && authorized s.parent_kind v.receipts

-- `==` of two values that are texts, natural numbers or None
abbrev same_value : Value → Value → Bool
same_value (str s) v = is_text s v
same_value (int (pos n)) v = eq_nat v n
same_value null v = is_null v
same_value _ _ = false

abbrev pub same_receipt : Fields → Fields → String → Bool
same_receipt before after scope =
    same_value (receipt_value scope "thread_set_digest" before)
      (receipt_value scope "thread_set_digest" after)
    && same_value (receipt_value scope "thread_count" before)
        (receipt_value scope "thread_count" after)

abbrev pub same_kind : Option String → Option String → Bool
same_kind none none = true
same_kind (some k) (some l) = str_eq k l
same_kind _ _ = false

-- `digest_match`
unfoldable pub digest_match : Runtime → Scan → Scan → Bool
digest_match rt s t =
    str_eq s.thread_set_digest t.thread_set_digest
    && s.thread_count == t.thread_count
    && same_kind s.parent_kind t.parent_kind
    && not (is_nil (scopes_of_kind s.parent_kind))
    && all (same_receipt (verified rt s).receipts (verified rt t).receipts)
        (scopes_of_kind s.parent_kind)

abbrev pub both_complete : Runtime → List Scan → Bool
both_complete rt (s ∷ t ∷ rest) = scan_complete rt s && scan_complete rt t
both_complete rt _ = false

abbrev pub stable : Runtime → List Scan → Bool
stable rt (s ∷ t ∷ rest) = (scan_complete rt s && scan_complete rt t) && digest_match rt s t
stable rt _ = false
