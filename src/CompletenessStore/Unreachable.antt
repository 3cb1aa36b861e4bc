-- ===== src/CompletenessStore/Unreachable.antt =====
-- The last test of `_normalize_scope_receipts` in completeness_store.py: what is normalized passes
-- the test of what is stored.
use discord_context_bridge.CompletenessStore.ScopeReceipts.{
  route_or, natural_or, cursor_text, option_or, bool_or, has_key, thread_ids, keep_receipt, Kept,
  authorization_confirmed, valid_authorization, valid_receipt, normalize_receipt, capability_value,
  authorized_by, normalized_fields, valid_counts, valid_digests, is_optional,
}
use discord_context_bridge.CompletenessStore.{
  parent_binding_mismatch, filter_boolean_required, filter_required, page_count_invalid,
  terminal_evidence_required, terminal_cursor_invalid, thread_ids_invalid, duplicate_thread_id,
  locked_count_invalid, String, Value, Option, scope_route, str_eq, active_filtered,
  archived_private, Runtime, List, ℕ, digest_ids, digest, sorted_set, StoreError,
}
use discord_context_bridge.Shared.{
  true, none, some, [], ◌∷◌, ok, str, null, inl, inr, String, Value, Fields, Option, ◌≡◌, arith,
  >>=-eq-ok, get, not, require-eq-ok, str_eq, is_text, ◌||◌, leb, length, is_distinct, subst,
  ok-injective, refl, Runtime, List, Bool-cases, ℕ, as_fields, is_sha256, digest, eq_refl, codes,
  frame, ◌==◌, map, sorted_set, Result, ◌>>=◌, Result-cases,
}

-- What a receipt has passed when it is kept.
record KeptOf (parent_key scope : String) (r : Fields) (k : Kept) : Type 0 where
  routed : scope_route scope ≡ some k.route
  filter : (not (str_eq scope active_filtered) || k.filtered) ≡ true
  pages : leb 1 k.page_count ≡ true
  locked : leb k.locked_count (length k.ids) ≡ true
  confirmed : k.confirmed ≡ authorization_confirmed scope r

route_or-eq-ok :
    (v : Value) (o : Option String) {route : String} → route_or v o ≡ ok route → o ≡ some route
route_or-eq-ok v none h = cc
route_or-eq-ok v (some known) h = ground arith

keep_receipt-KeptOf :
    (parent_key scope : String) (r : Fields) (k : Kept)
    → keep_receipt parent_key scope r ≡ ok k
    → KeptOf parent_key scope r k
unfolding keep_receipt
keep_receipt-KeptOf parent_key scope r k returned =
    let (route, e0, r0) = >>=-eq-ok (route_or (get "route" r) (scope_route scope)) _ returned in
    let (bound, r1) =
      require-eq-ok (is_text parent_key (get "parent_target_key" r)) parent_binding_mismatch _ r0 in
    let (filtered, e1, r2) =
      >>=-eq-ok (bool_or filter_boolean_required (get "active_parent_filter_applied" r)) _ r1 in
    let (applied, r3) =
      require-eq-ok (not (str_eq scope active_filtered) || filtered) filter_required _ r2 in
    let (pages, e2, r4) = >>=-eq-ok (natural_or page_count_invalid (get "page_count" r)) _ r3 in
    let (some_page, r5) = require-eq-ok (leb 1 pages) page_count_invalid _ r4 in
    let (reached, e3, r6) =
      >>=-eq-ok (bool_or terminal_evidence_required (get "terminal_reached" r)) _ r5 in
    let (there, r7) = require-eq-ok (has_key "terminal_cursor" r) terminal_evidence_required _ r6 in
    let (cursor, e4, r8) =
      >>=-eq-ok (option_or terminal_cursor_invalid (cursor_text (get "terminal_cursor" r))) _ r7 in
    let (ids, e5, r9) =
      >>=-eq-ok (option_or thread_ids_invalid (thread_ids (get "thread_ids" r))) _ r8 in
    let (distinct, r10) = require-eq-ok (is_distinct ids) duplicate_thread_id _ r9 in
    let (locked, e6, r11) =
      >>=-eq-ok (natural_or locked_count_invalid (get "locked_count" r)) _ r10 in
    let (few, made) = require-eq-ok (leb locked (length ids)) locked_count_invalid _ r11 in
    subst (λ w. KeptOf parent_key scope r w) (ok-injective made)
      (record {
        routed = route_or-eq-ok (get "route" r) (scope_route scope) e0;
        filter = applied;
        pages = some_page;
        locked = few;
        confirmed = refl;
      })

authorized-valid :
    (scope : String) (a : Option Fields)
    → str_eq scope archived_private ≡ true
    → valid_authorization scope (authorized_by a) (capability_value (authorized_by a)) ≡ true
authorized-valid scope none h = refl
authorized-valid scope (some fs) h = ground arith

confirmed-valid :
    (scope : String) (r : Fields)
    → valid_authorization scope
        (authorization_confirmed scope r)
        (capability_value (authorization_confirmed scope r))
      ≡ true
unfolding authorization_confirmed
confirmed-valid scope r = elim (Bool-cases (str_eq scope archived_private)) [
  | inl private ↦
      let same : authorization_confirmed scope r
          ≡ authorized_by (as_fields (get "authorization" r)) =
        rw private in
      rw same (authorized-valid scope (as_fields (get "authorization" r)) private)
  | inr other ↦ let same : authorization_confirmed scope r ≡ null = rw other in rw same refl
]

-- Hashes are 64 hexadecimal digits.
abbrev pub HexDigests : Runtime → Type 0
HexDigests rt = (x : List ℕ) → is_sha256 (str (rt.sha256 x)) ≡ true

digest_ids-IsHex :
    (rt : Runtime) (ids : List String) → HexDigests rt → is_sha256 (str (digest_ids rt ids)) ≡ true
unfolding digest_ids digest
digest_ids-IsHex rt ids hex = hex (frame (map codes (sorted_set ids)))

counts-valid :
    (rt : Runtime) (k : Kept)
    → leb 1 k.page_count ≡ true
    → leb k.locked_count (length k.ids) ≡ true
    → valid_counts (normalized_fields rt k) ≡ true
unfolding normalized_fields
counts-valid rt k pages locked = ground arith

empty-digest :
    (rt : Runtime) (ids : List String)
    → (not (length ids == 0) || str_eq (digest_ids rt []) (digest_ids rt ids)) ≡ true
empty-digest rt [] = eq_refl (digest_ids rt [])
empty-digest rt (id ∷ ids) = ground arith

digests-valid :
    (rt : Runtime) (k : Kept) → HexDigests rt → valid_digests rt (normalized_fields rt k) ≡ true
unfolding normalized_fields
digests-valid rt k hex =
    let of_ids : is_sha256 (str (digest_ids rt k.ids)) ≡ true = digest_ids-IsHex rt k.ids hex in
    cc (hex (codes k.cursor), of_ids, empty-digest rt k.ids)

assembled :
    (rt : Runtime) (scope : String) (k : Kept)
    → is_optional (scope_route scope) (str k.route) ≡ true
    → (not (str_eq scope active_filtered) || k.filtered) ≡ true
    → valid_counts (normalized_fields rt k) ≡ true
    → valid_digests rt (normalized_fields rt k) ≡ true
    → valid_authorization scope k.confirmed (capability_value k.confirmed) ≡ true
    → valid_receipt rt scope (normalized_fields rt k) ≡ true
unfolding valid_receipt normalized_fields
assembled rt scope k routed filter counts digests authorization =
    cc (routed, filter, counts, digests, authorization)

kept-valid :
    (rt : Runtime) (parent_key scope : String) (r : Fields) (k : Kept)
    → HexDigests rt
    → KeptOf parent_key scope r k
    → valid_receipt rt scope (normalized_fields rt k) ≡ true
unfolding valid_receipt
kept-valid rt parent_key scope r k hex kept =
    let routed : is_optional (scope_route scope) (str k.route) ≡ true =
      rw kept.routed (eq_refl k.route) in
    let counts = counts-valid rt k kept.pages kept.locked in
    let digests = digests-valid rt k hex in
    let authorization : valid_authorization scope k.confirmed (capability_value k.confirmed)
        ≡ true =
      rw kept.confirmed (confirmed-valid scope r) in
    assembled rt scope k routed kept.filter counts digests authorization

-- What is kept, with no test after it.
abbrev pub untested : Runtime → Kept → Result StoreError (Fields × List String)
untested rt k = ok (normalized_fields rt k, k.ids)

-- If hashes are 64 hexadecimal digits, the last test of a receipt refuses nothing: the outcome,
-- errors included, is that of the tests before it alone.
pub normalize_receipt-untested :
    (rt : Runtime) (parent_key scope : String) (r : Fields)
    → HexDigests rt
    → normalize_receipt rt parent_key scope r ≡ (keep_receipt parent_key scope r >>= untested rt)
unfolding normalize_receipt
normalize_receipt-untested rt parent_key scope r hex =
    elim (Result-cases (keep_receipt parent_key scope r)) [
      | inl (e, failed) ↦ rw failed refl
      | inr (k, kept) ↦
          rw
            (
              kept,
              kept-valid rt parent_key scope r k hex
                  (keep_receipt-KeptOf parent_key scope r k kept),
            )
            refl
    ]
