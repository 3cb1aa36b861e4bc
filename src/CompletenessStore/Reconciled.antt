-- ===== src/CompletenessStore/Reconciled.antt =====
-- What the normalization of the scope receipts of completeness_store.py returns, and that the audit
-- reconciles it with the rows that are stored with it.
use mathlib.Core.List.{append-nil, append_assoc}
use discord_context_bridge.CompletenessStore.Recording.{scoped_rows, in_scope}
use discord_context_bridge.CompletenessStore.{digest_ids, natural_of, Option, contains, str_eq}
use discord_context_bridge.CompletenessStore.Verified.{counts_ids, ids_in, all_receipts}
use discord_context_bridge.CompletenessStore.ScopeReceipts.{
  normalize_each, normalize_receipt, normalized_fields, Kept, Normalized, keys_of, valid_receipt,
  receipts_of, keep_receipt,
}
use discord_context_bridge.Shared.{
  true, false, none, some, [], ◌∷◌, ok, str, bool, null, int, float, obj, arr, end, field, Runtime,
  String, Fields, List, ◌≡◌, >>=-eq-ok, arith, eq_refl, get, length, refl, ok-injective,
  require-eq-ok, ap, subst, Option, contains, ◌++◌, IsDistinct, if◌then◌else◌, str_eq, ◌∙◌, sym,
  eq_iff,
}

-- A receipt as it was normalized: valid, and with the count and the digest of its ids.
abbrev IsNormal : Runtime → String → Fields → List String → Type 0
IsNormal rt scope r ids =
    (valid_receipt rt scope r ≡ true)
    × (counts_ids rt ids r ≡ true)
    × (natural_of (get "thread_count" r) ≡ some (length ids))

abbrev pub AllNormal : Runtime → Normalized → Type 0
AllNormal rt [] = Unit
AllNormal rt ((scope, (r, ids)) ∷ rest) = IsNormal rt scope r ids × AllNormal rt rest

counts_ids-normalized :
    (rt : Runtime) (k : Kept) → counts_ids rt k.ids (normalized_fields rt k) ≡ true
unfolding normalized_fields
counts_ids-normalized rt k = ground (arith, eq_refl (digest_ids rt k.ids))

thread_count-normalized :
    (rt : Runtime) (k : Kept)
    → natural_of (get "thread_count" (normalized_fields rt k)) ≡ some (length k.ids)
unfolding normalized_fields
thread_count-normalized rt k = refl

normalize_receipt-IsNormal :
    (rt : Runtime) (key scope : String) (r r' : Fields) (ids : List String)
    → normalize_receipt rt key scope r ≡ ok (r', ids)
    → IsNormal rt scope r' ids
unfolding normalize_receipt
normalize_receipt-IsNormal rt key scope r r' ids h =
    let (kept, e, rest) = >>=-eq-ok (keep_receipt key scope r) _ h in
    let (valid, made) = require-eq-ok _ _ _ rest in
    let same = ok-injective made in
    let fields : normalized_fields rt kept ≡ r' = ap (λ (w : Fields × List String). w.0) same in
    let listed : kept.ids ≡ ids = ap (λ (w : Fields × List String). w.1) same in
    (
      subst (λ w. valid_receipt rt scope w ≡ true) fields valid,
      cc (fields, listed, counts_ids-normalized rt kept),
      cc (fields, listed, thread_count-normalized rt kept),
    )

pub normalize_each-AllNormal :
    (rt : Runtime) (key : String) (receipts : Fields) (n : Normalized)
    → normalize_each rt key receipts ≡ ok n
    → AllNormal rt n × (keys_of (receipts_of n) ≡ keys_of receipts)
unfolding normalize_each
normalize_each-AllNormal rt key end n h = rw (← ok-injective h) (tt, refl)
normalize_each-AllNormal rt key (field scope (obj r) rest) n h =
    let ((r', ids), e, more) = >>=-eq-ok (normalize_receipt rt key scope r) _ h in
    let (others, e', made) = >>=-eq-ok (normalize_each rt key rest) _ more in
    let (normal, same) = normalize_each-AllNormal rt key rest others e' in
    rw (← ok-injective made)
      ((normalize_receipt-IsNormal rt key scope r r' ids e, normal), ap (λ ks. scope ∷ ks) same)
normalize_each-AllNormal rt key (field scope (str s) rest) n h = cc
normalize_each-AllNormal rt key (field scope (bool b) rest) n h = cc
normalize_each-AllNormal rt key (field scope null rest) n h = cc
normalize_each-AllNormal rt key (field scope (int m) rest) n h = cc
normalize_each-AllNormal rt key (field scope (float x) rest) n h = cc
normalize_each-AllNormal rt key (field scope (arr vs) rest) n h = cc

ids_in-append :
    (scope : String) (xs ys : List (String × Option String))
    → ids_in scope (xs ++ ys) ≡ ids_in scope xs ++ ids_in scope ys
ids_in-append scope [] ys = refl
ids_in-append scope ((id, none) ∷ xs) ys = ids_in-append scope xs ys
ids_in-append scope ((id, some s) ∷ xs) ys = ground (arith, ids_in-append scope xs ys)

ids_in-in_scope :
    (scope s : String) (ids : List String)
    → ids_in scope (in_scope (some s) ids) ≡ (if str_eq scope s then ids else [])
ids_in-in_scope scope s [] = ground arith
ids_in-in_scope scope s (id ∷ ids) = ground (arith, ids_in-in_scope scope s ids)

-- A scope that no receipt is for has no rows.
ids_in-scoped_rows :
    (scope : String) (n : Normalized)
    → contains scope (keys_of (receipts_of n)) ≡ false
    → ids_in scope (scoped_rows n) ≡ []
ids_in-scoped_rows scope [] h = refl
ids_in-scoped_rows scope ((s, (r, ids)) ∷ rest) h = ground (
  arith,
  ids_in-append scope (in_scope (some s) ids) (scoped_rows rest),
  ids_in-in_scope scope s ids,
  ids_in-scoped_rows scope rest,
)

own_ids :
    (scope : String) (before : List (String × Option String)) (ids : List String)
    (rest : Normalized)
    → ids_in scope before ≡ []
    → contains scope (keys_of (receipts_of rest)) ≡ false
    → ids_in scope (before ++ (in_scope (some scope) ids ++ scoped_rows rest)) ≡ ids
own_ids scope before ids rest apart fresh =
    rw
      (
        ids_in-append scope before (in_scope (some scope) ids ++ scoped_rows rest),
        apart,
        ids_in-append scope (in_scope (some scope) ids) (scoped_rows rest),
        ids_in-in_scope scope scope ids,
        eq_refl scope,
        ids_in-scoped_rows scope rest fresh,
      )
      (append-nil ids)

-- Each receipt counts the rows of its scope, those before it being of other scopes.
pub receipts_counted :
    (rt : Runtime) (rows before : List (String × Option String)) (n : Normalized)
    → rows ≡ before ++ scoped_rows n
    → AllNormal rt n
    → IsDistinct (keys_of (receipts_of n))
    → ((s : String) → contains s (keys_of (receipts_of n)) ≡ true → ids_in s before ≡ [])
    → all_receipts (λ scope r. counts_ids rt (ids_in scope rows) r) (receipts_of n) ≡ true
receipts_counted rt rows before [] split normal distinct apart = refl
receipts_counted rt rows before ((scope, (r, ids)) ∷ rest) split normal distinct apart =
    let own : ids_in scope rows ≡ ids =
      rw split
        (own_ids scope before ids rest (apart scope (ground (arith, eq_refl scope))) distinct.0) in
    let later =
      receipts_counted rt rows (before ++ in_scope (some scope) ids) rest
        (split ∙ sym (append_assoc before (in_scope (some scope) ids) (scoped_rows rest))) normal.1
        distinct.1
        (λ s h. rw (ids_in-append s before (in_scope (some scope) ids)) (
          ground (
            arith,
            apart s (ground arith),
            ids_in-in_scope s scope ids,
            eq_iff s scope,
            distinct.0,
          ))) in
    rw own (cc (later, normal.0.1))
