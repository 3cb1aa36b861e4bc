-- ===== src/Capture/MessageLedger/Closing.antt =====
-- From the appends of a ledger to its views, and from the views to the completion gate.
use discord_context_bridge.Capture.MessageLedger.History.{
  new_message_ledger-IsLedger, history-IsLedger,
}
use discord_context_bridge.Shared.{
  true, none, some, [], ◌∷◌, ok, err, List, ℕ, ◌≡◌, Fields, is_text, refl, String, arith, ◌+◌, past,
  contains, Option, >>=-eq-ok, Result, ◌++◌, ◌∙◌, if◌then◌else◌,
}
use discord_context_bridge.Capture.MessageLedger.{
  Ledger, Event, LedgerError, Hashing, ledger_schema, empty_ledger, append_all,
  append_message_event, unsupported_schema, List, ℕ, Fields, is_text, String, events_invalid,
  not_contiguous, place, Semantic, new_message_ledger, contains, Option, Result,
}
use discord_context_bridge.Capture.MessageLedger.Chain.{
  IsLedger, Chained, append-IsLedger, append-placed,
}
use discord_context_bridge.Capture.MessageLedger.Reduction.{reduce_messages, event_messages}
use discord_context_bridge.Capture.MessageLedger.Ordering.{ordered_message_ids-rearranges}
use discord_context_bridge.Capture.MessageLedger.Projections.{
  Projections, Scan, ViewHashing, build_capture_projections, projections_of, contiguous_from,
  raw_view, markdown_view, manifest_view, derived_evidence,
}
use discord_context_bridge.Capture.MessageLedger.Strict.{IsView}

pub projections-IsView :
    (v : ViewHashing) (l : Ledger) (q : Scan) (es : List Event)
    → IsView (projections_of v l q (reduce_messages es))
unfolding projections_of raw_view markdown_view manifest_view derived_evidence reduce_messages
projections-IsView v l q es = record {
  markdown_same = refl;
  once = (ordered_message_ids-rearranges es "").0;
  evidence_named = refl;
  manifest_named = refl;
  hashed = refl;
}

built_from :
    (v : ViewHashing) (l : Ledger) (q : Scan) (o : Option (List Event)) {p : Projections}
    → elim o as (λ x. Result LedgerError Projections) [
      | none ↦ err events_invalid
      | some es ↦
          if contiguous_from 1 es
          then ok (projections_of v l q (reduce_messages es))
          else err not_contiguous
    ]
      ≡ ok p
    → (es : List Event) × (o ≡ some es) × (projections_of v l q (reduce_messages es) ≡ p)
built_from v l q none made = absurd cc
built_from v l q (some es) made = (es, refl, ground arith)

-- What a projection that was built is made of.
pub built :
    (v : ViewHashing) (l : Ledger) (q : Scan) {p : Projections}
    → build_capture_projections v l q ≡ ok p
    → (es : List Event) × (l.events ≡ some es) × (projections_of v l q (reduce_messages es) ≡ p)
unfolding build_capture_projections
built v l q made = built_from v l q l.events (past _ unsupported_schema _ made)

Chained-contiguous :
    (h : Hashing) (n : ℕ) (before : String) (es : List Event)
    → Chained h n before es
    → contiguous_from n es ≡ true
unfolding contiguous_from
Chained-contiguous h n before [] c = refl
Chained-contiguous h n before (e ∷ es) c =
    ground (arith, c.0, Chained-contiguous h (n + 1) e.event_hash es c.3)

builds_from :
    (v : ViewHashing) (l : Ledger) (q : Scan) (o : Option (List Event)) (es : List Event)
    → o ≡ some es
    → contiguous_from 1 es ≡ true
    → elim o as (λ x. Result LedgerError Projections) [
      | none ↦ err events_invalid
      | some es ↦
          if contiguous_from 1 es
          then ok (projections_of v l q (reduce_messages es))
          else err not_contiguous
    ]
      ≡ ok (projections_of v l q (reduce_messages es))
builds_from v l q o es here numbered = rw here (rw numbered refl)

IsLedger-builds :
    (h : Hashing) (v : ViewHashing) (l : Ledger) (q : Scan) (es : List Event)
    → IsLedger h l es
    → is_text ledger_schema l.schema ≡ true
    → build_capture_projections v l q ≡ ok (projections_of v l q (reduce_messages es))
unfolding build_capture_projections
IsLedger-builds h v l q es i named =
    rw named (builds_from v l q l.events es i.events (Chained-contiguous h 1 "" es i.chained))

place-schema :
    (h : Hashing) (l : Ledger) (es : List Event) (s : Semantic) (o : Option Event) {l' : Ledger}
    → place h l es s o ≡ ok l'
    → l'.schema ≡ l.schema
unfolding place
place-schema h l es s none made = ground arith
place-schema h l es s (some e) made = ground arith

append_all-schema :
    (h : Hashing) (l : Ledger) (ps : List Fields) (es : List Event) {l' : Ledger}
    → IsLedger h l es
    → append_all h l ps ≡ ok l'
    → l'.schema ≡ l.schema
unfolding append_all
append_all-schema h l [] es i q = ground arith
append_all-schema h l (p ∷ ps) es i q =
    let (l1, first, others) = >>=-eq-ok (append_message_event h l p) (λ l'. append_all h l' ps) q in
    let (es1, i1, few) = append-IsLedger h l p es i first in
    let (s, meant, placed) = append-placed h l p es i.events first in
    append_all-schema h l1 ps (es ++ es1) i1 others ∙ place-schema h l es s _ placed

-- Every ledger that was made by appends is projected: the raw and the Markdown view hold the
-- messages of its events, each once and in one order, and no other.
pub history-projects :
    (h : Hashing) (v : ViewHashing) (capture_id target_key upper_watermark : String)
    (ps : List Fields) (q : Scan) {l l' : Ledger}
    → new_message_ledger capture_id target_key upper_watermark ≡ ok l
    → append_all h l ps ≡ ok l'
    → (es : List Event) × (p : Projections) × (l'.events ≡ some es)
      × (build_capture_projections v l' q ≡ ok p)
      × IsView p
      × ((id : String) → contains id p.raw.message_ids ≡ contains id (event_messages es))
unfolding new_message_ledger projections_of raw_view reduce_messages
history-projects h v capture_id target_key upper_watermark ps q {l} {l'} made grown =
    let fresh : l ≡ empty_ledger capture_id target_key upper_watermark = ground arith in
    let (es, i, few) = history-IsLedger h capture_id target_key upper_watermark ps made grown in
    let kept : l'.schema ≡ l.schema =
      append_all-schema h l ps [] (new_message_ledger-IsLedger h _ _ _ made) grown in
    let named : is_text ledger_schema l'.schema ≡ true = rw kept (rw fresh (ground arith)) in
    (
      es,
      projections_of v l' q (reduce_messages es),
      i.events,
      IsLedger-builds h v l' q es i named,
      projections-IsView v l' q es,
      λ id. (ordered_message_ids-rearranges es id).1,
    )
