-- ===== src/ArchiveInventory/Scopes/Distinct.antt =====
-- What an inventory of scope receipts says: every thread under one scope, and how complete it is.
use mathlib.Core.List.{append-nil, append_assoc}
use discord_context_bridge.ArchiveInventory.Scopes.{
  Gathered, Scanned, gather, scan_scope, scan_threads, String, scan_thread, Option, gather_scope,
  ScopeReceipt, ScopeResult, Value, add_thread, add_receipt, as_sequence, str_eq, nothing_scanned,
  trusted_thread_fields, active_filtered, Scan, inventory_of, build_scope_receipts_inventory, any,
  Clock, contains, sorted_set, Inventory, receipt_of, all_terminal, is_empty, not, Result,
  ScopeError, nothing_gathered, observed, source_results, binding_required, parent_kinds,
  parent_kind_invalid,
}
use discord_context_bridge.Shared.{
  true, false, none, some, [], ◌∷◌, ok, obj, inl, inr, Bool, List, String, ◌≡◌, Option, ◌++◌,
  IsDistinct, Value, arith, Option-cases, >>=-eq-ok, as_sequence, ap, ◌∙◌, str_eq, sym, Bool-cases,
  sorted_set, any, Clock, contains, IsDistinct-append, ◌↔◌, refl, ◌⊎◌, ◌&&◌, is_empty, ◌||◌, not,
  Result, ◌>>=◌, past,
}

abbrev pub ids_of_receipts : List ScopeReceipt → List String
ids_of_receipts [] = []
ids_of_receipts (r ∷ rs) = r.thread_ids ++ ids_of_receipts rs

ids_of_receipts-append :
    (rs : List ScopeReceipt) (r : ScopeReceipt)
    → ids_of_receipts (rs ++ r ∷ []) ≡ ids_of_receipts rs ++ r.thread_ids
ids_of_receipts-append [] r = append-nil r.thread_ids
ids_of_receipts-append (s ∷ rs) r =
    ap (λ ids. s.thread_ids ++ ids) (ids_of_receipts-append rs r)
    ∙ sym (append_assoc s.thread_ids (ids_of_receipts rs) r.thread_ids)

add_thread-IsDistinct :
    (s : Scanned) (t : Option (String × Bool)) {s' : Scanned}
    → IsDistinct s.ids
    → add_thread s t ≡ ok s'
    → IsDistinct s'.ids
add_thread-IsDistinct s none {s'} d h = let same : s' ≡ s = ground arith in rw same d
add_thread-IsDistinct s (some (id, locked)) {s'} d h = elim (Bool-cases (contains id s.ids)) [
  | inl known ↦ absurd (ground arith)
  | inr new ↦
      let made : s'.ids ≡ s.ids ++ id ∷ [] = ground arith in
      rw made (IsDistinct-append s.ids (id ∷ []) d (refl, tt) (ground arith))
]

scan_threads-IsDistinct :
    (parent : String) (filtered : Bool) (s : Scanned) (vs : List Value) {s' : Scanned}
    → IsDistinct s.ids
    → scan_threads parent filtered s vs ≡ ok s'
    → IsDistinct s'.ids
unfolding scan_threads scan_thread
scan_threads-IsDistinct parent filtered s [] {s'} d h =
    let same : s' ≡ s = ground arith in rw same d
scan_threads-IsDistinct parent filtered s (obj item ∷ vs) d h =
    let (s1, first, rest) = >>=-eq-ok (scan_thread parent filtered s (obj item)) _ h in
    let (t, trusted, added) = >>=-eq-ok (trusted_thread_fields parent filtered item) _ first in
    scan_threads-IsDistinct parent filtered s1 vs (add_thread-IsDistinct s t d added) rest
scan_threads-IsDistinct parent filtered s (v ∷ vs) d h = absurd (ground arith)

scan_scope-IsDistinct :
    (parent : String) (filtered : Bool) (threads : Value) {s : Scanned}
    → scan_scope parent filtered threads ≡ ok s
    → IsDistinct s.ids
unfolding scan_scope
scan_scope-IsDistinct parent filtered threads h = elim (Option-cases (as_sequence threads)) [
  | inl missing ↦ absurd (ground (arith, rw (missing, scan_scope) at h))
  | inr (vs, given) ↦
      scan_threads-IsDistinct parent filtered nothing_scanned vs tt (rw (given, scan_scope) at h)
]

-- The receipts so far hold the ids so far, none twice.
record IsGathered (g : Gathered) : Type 0 where
  pub ids : g.all_ids ≡ ids_of_receipts g.receipts
  pub distinct : IsDistinct g.all_ids

add_receipt-IsGathered :
    (confirmed : Bool) (scope : String) (r : ScopeResult) (g : Gathered) (s : Scanned)
    {g' : Gathered}
    → IsGathered g
    → IsDistinct s.ids
    → add_receipt confirmed scope r g s ≡ ok g'
    → IsGathered g'
add_receipt-IsGathered confirmed scope r g s {g'} i d h =
    elim (Bool-cases (any (λ id. contains id g.all_ids) s.ids)) [
      | inl overlap ↦ absurd (ground arith)
      | inr apart ↦
          let made : g'.all_ids ≡ g.all_ids ++ s.ids = ground arith in
          let kept : g'.receipts ≡ g.receipts ++ receipt_of confirmed scope r s ∷ [] =
            ground arith in
          record {
            ids =
                rw (made, kept)
                  (rw i.ids
                    (sym (ids_of_receipts-append g.receipts (receipt_of confirmed scope r s))));
            distinct = rw made (IsDistinct-append g.all_ids s.ids i.distinct d apart);
          }
    ]

gather-IsGathered :
    (parent : String) (confirmed : Bool) (rs : List (String × ScopeResult)) (g : Gathered)
    {g' : Gathered}
    → IsGathered g
    → gather parent confirmed rs g ≡ ok g'
    → IsGathered g'
unfolding gather gather_scope
gather-IsGathered parent confirmed [] g {g'} i h = let same : g' ≡ g = ground arith in rw same i
gather-IsGathered parent confirmed ((scope, r) ∷ rest) g i h =
    let (g1, first, others) = >>=-eq-ok (gather_scope parent confirmed scope r g) _ h in
    let (s, scanned, added) =
      >>=-eq-ok (scan_scope parent (str_eq scope active_filtered) r.threads) _ first in
    gather-IsGathered parent confirmed rest g1
      (add_receipt-IsGathered confirmed scope r g s i
        (scan_scope-IsDistinct parent (str_eq scope active_filtered) r.threads scanned) added)
      others

-- The threads of an inventory stand under one scope each, and it says how complete it is.
pub record IsInventory (q : Scan) (inv : Inventory) : Type 0 where
  pub distinct : IsDistinct (ids_of_receipts inv.scope_receipts)
  pub ids : inv.thread_ids ≡ sorted_set (ids_of_receipts inv.scope_receipts)
  pub exhausted : (inv.pagination_exhausted ≡ true) ↔ (
      (all_terminal inv.scope_receipts ≡ true)
      × ((str_eq q.parent_kind "text" ≡ false) ⊎ (q.private_authorization_confirmed ≡ true)))

exhausted_iff :
    (terminal is_text confirmed : Bool)
    → ((terminal && (not is_text || confirmed)) ≡ true)
      ↔ ((terminal ≡ true) × ((is_text ≡ false) ⊎ (confirmed ≡ true)))
exhausted_iff true true true = (λ h. (refl, inr refl), λ h. refl)
exhausted_iff true true false = (λ h. cc, λ h. ground arith)
exhausted_iff true false c = (λ h. (refl, inl refl), λ h. refl)
exhausted_iff false t c = (λ h. cc, λ h. cc (h.0))

inventory_of-IsInventory :
    (q : Scan) (t : String) (g : Gathered) → IsGathered g → IsInventory q (inventory_of q t g)
unfolding inventory_of
inventory_of-IsInventory q t g i = record {
  distinct = rw i.ids at i.distinct;
  ids = ap sorted_set i.ids;
  exhausted =
      exhausted_iff (all_terminal g.receipts) (str_eq q.parent_kind "text")
        q.private_authorization_confirmed;
}

-- An inventory that is built has no thread under two scopes or twice under one, its threads are
-- those of the receipts, and it is exhausted exactly if every scope was read to its end and, for a
-- text channel, the access to its private threads was confirmed.
pub build-IsInventory :
    (clock : Clock) (q : Scan) (active : ScopeResult) (archived : List ScopeResult)
    {inv : Inventory}
    → build_scope_receipts_inventory clock q active archived ≡ ok inv
    → IsInventory q inv
unfolding build_scope_receipts_inventory
build-IsInventory clock q active archived {inv} h =
    let bound = is_empty q.parent_target_key || is_empty q.scan_id || is_empty q.observed_at in
    let gathered : List (String × ScopeResult) → Result ScopeError Gathered =
      λ rs. gather q.parent_target_key q.private_authorization_confirmed rs nothing_gathered in
    let result : Result ScopeError Inventory = do
      t ← observed clock q
      rs ← source_results q.parent_kind active archived
      g ← gathered rs
      ok (inventory_of q t g)
    in let returned =
        past bound binding_required result
          (past (not (contains q.parent_kind parent_kinds)) parent_kind_invalid _ h) in
      let (t, timed, rest) = >>=-eq-ok (observed clock q) _ returned in
      let (rs, needed, rest') = >>=-eq-ok (source_results q.parent_kind active archived) _ rest in
      let (g, gathers, made) = >>=-eq-ok (gathered rs) _ rest' in
      let same : inv ≡ inventory_of q t g = ground arith in
      let nothing : IsGathered nothing_gathered = record { ids = refl; distinct = tt } in
      rw same (
        inventory_of-IsInventory q t g (
          gather-IsGathered q.parent_target_key q.private_authorization_confirmed rs
            nothing_gathered nothing gathers))
