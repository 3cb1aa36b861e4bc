-- ===== src/Capture/MessageLedger/Retry.antt =====
-- Appending an event again: a repeated event is accepted and changes nothing.
use discord_context_bridge.Capture.MessageLedger.{
  Semantic, Event, Ledger, Hashing, ledger_schema, semantic_of, same_event, same_sequence,
  same_texts, same_window, same_ref, find_event, chain, place, append_message_event, is_text,
  eq_nat, length,
}
use discord_context_bridge.Capture.MessageLedger.Chain.{IsLedger, append-placed, find_event-append}
use discord_context_bridge.Shared.{
  ℕ, ◌+◌, ◌≡◌, inl, inr, true, false, List, [], ◌∷◌, ◌++◌, String, Option, none, some, Value,
  Fields, ok, arith, refl, int, bool, float, pos, negsuc, is_text, eq_nat, eq_refl, Bool-cases,
  length, ◌∙◌,
}

same_sequence_refl : (v : Value) (n : ℕ) → eq_nat v n ≡ true → same_sequence v v ≡ true
unfolding same_sequence
same_sequence_refl (int (pos m)) n h = ground arith
same_sequence_refl (int (negsuc m)) n h = cc
same_sequence_refl (bool true) n h = refl
same_sequence_refl (bool false) n h = refl
same_sequence_refl (float x) n h = ground arith
same_sequence_refl v n h = cc

same_texts_refl : (xs : List String) → same_texts xs xs ≡ true
same_texts_refl [] = refl
same_texts_refl (x ∷ xs) = ground (arith, eq_refl x, same_texts_refl xs)

same_window_refl : (w : Option (String × ℕ)) → same_window w w ≡ true
same_window_refl none = refl
same_window_refl (some (id, n)) = ground (arith, eq_refl id)

same_ref_refl : (r : Option String) → same_ref r r ≡ true
same_ref_refl none = refl
same_ref_refl (some r) = eq_refl r

same_event_refl : (s : Semantic) (n : ℕ) → eq_nat s.sequence n ≡ true → same_event s s ≡ true
unfolding same_event
same_event_refl s n h =
    simp
      (eq_refl, same_sequence_refl s.sequence n h, same_texts_refl, same_window_refl, same_ref_refl)

append-place :
    (h : Hashing) (l : Ledger) (p : Fields) (es : List Event) (s : Semantic)
    → is_text ledger_schema l.schema ≡ true
    → l.events ≡ some es
    → semantic_of h.runtime p ≡ ok s
    → append_message_event h l p ≡ place h l es s (find_event s.event_id es)
unfolding append_message_event
append-place h l p es s good given meant = simp (good, given, meant)

place_again :
    (h : Hashing) (l : Ledger) (es : List Event) (s : Semantic)
    → find_event s.event_id es ≡ none
    → eq_nat s.sequence (length es + 1) ≡ true
    → place h l (es ++ chain h es s ∷ []) s (find_event s.event_id (es ++ chain h es s ∷ [])) ≡ ok l
unfolding place chain
place_again h l es s fresh next =
    rw
      (
        find_event-append s.event_id es (chain h es s) fresh,
        eq_refl s.event_id,
        same_event_refl s (length es + 1) next,
      )
      refl

append-schema :
    (h : Hashing) (l : Ledger) (p : Fields) {l' : Ledger}
    → append_message_event h l p ≡ ok l'
    → is_text ledger_schema l.schema ≡ true
unfolding append_message_event
append-schema h l p q = elim (Bool-cases (is_text ledger_schema l.schema)) [
  | inl good ↦ good
  | inr bad ↦ absurd (ground arith)
]

-- An event that was placed is placed again in the ledger that it gave.
place-placed :
    (h : Hashing) (l : Ledger) (es : List Event) (s : Semantic) (o : Option Event) {l' : Ledger}
    → is_text ledger_schema l.schema ≡ true
    → l.events ≡ some es
    → find_event s.event_id es ≡ o
    → place h l es s o ≡ ok l'
    → (es' : List Event) × (l'.events ≡ some es')
      × (is_text ledger_schema l'.schema ≡ true)
      × (place h l' es' s (find_event s.event_id es') ≡ ok l')
unfolding place
place-placed h l es s (some e) {l'} good given found q =
    let kept : l' ≡ l = ground arith in rw kept (es, given, good, rw found (rw kept at q))
place-placed h l es s none {l'} good given fresh q =
    let next : eq_nat s.sequence (length es + 1) ≡ true = ground arith in
    let made : l' ≡ record l {
      events = some (es ++ chain h es s ∷ []);
      tip_hash = (chain h es s).event_hash;
    } =
      ground arith in
    rw made (es ++ chain h es s ∷ [], refl, good, place_again h _ es s fresh next)

-- An append is idempotent: the same event, appended again to the ledger that accepted it, is
-- accepted and changes nothing.
pub append_again :
    (h : Hashing) (l : Ledger) (p : Fields) (es : List Event) {l' : Ledger}
    → IsLedger h l es
    → append_message_event h l p ≡ ok l'
    → append_message_event h l' p ≡ ok l'
append_again h l p es i q =
    let (s, meant, placed) = append-placed h l p es i.events q in
    let (es', given, good, again) =
      place-placed h l es s _ (append-schema h l p q) i.events refl placed in
    append-place h _ p es' s good given meant ∙ again
