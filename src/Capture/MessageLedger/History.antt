-- ===== src/Capture/MessageLedger/History.antt =====
-- Whole histories of a ledger: a new ledger, and the appends that were accepted since.
use mathlib.Core.List.{append-nil, append_assoc}
use discord_context_bridge.Capture.MessageLedger.{
  Event, Ledger, Hashing, append_message_event, append_all, new_message_ledger, empty_ledger,
}
use discord_context_bridge.Capture.MessageLedger.Chain.{IsLedger, append-IsLedger}
use discord_context_bridge.Shared.{
  ◌≡◌, ◌≤◌, List, [], ◌∷◌, ◌++◌, String, Fields, ok, arith, refl, length, >>=-eq-ok, length-append,
}

pub new_message_ledger-IsLedger :
    (h : Hashing) (capture_id target_key upper_watermark : String) {l : Ledger}
    → new_message_ledger capture_id target_key upper_watermark ≡ ok l
    → IsLedger h l []
unfolding new_message_ledger
new_message_ledger-IsLedger h capture_id target_key upper_watermark {l} q =
    let made : l ≡ empty_ledger capture_id target_key upper_watermark = ground arith in
    rw made (record { events = refl; chained = tt; distinct = tt; tip = refl })

append_all-IsLedger :
    (h : Hashing) (l : Ledger) (ps : List Fields) (es : List Event) {l' : Ledger}
    → IsLedger h l es
    → append_all h l ps ≡ ok l'
    → (es' : List Event) × IsLedger h l' (es ++ es') × (length es' ≤ length ps)
unfolding append_all
append_all-IsLedger h l [] es {l'} i q =
    let same : l' ≡ l = ground arith in rw same ([], rw (append-nil es) i, omega arith)
append_all-IsLedger h l (p ∷ ps) es i q =
    let (l1, first, others) = >>=-eq-ok (append_message_event h l p) (λ l'. append_all h l' ps) q in
    let (es1, i1, few) = append-IsLedger h l p es i first in
    let (es2, i2, fewer) = append_all-IsLedger h l1 ps (es ++ es1) i1 others in
    (
      es1 ++ es2,
      rw (← append_assoc es es1 es2) i2,
      omega (arith, length-append es1 es2, few, fewer),
    )

-- Every history is a chain: whatever was appended to a new ledger and accepted, the events are
-- numbered from 1, each holds the hash of the one before and the digest of itself, no id stands
-- twice, the tip is the hash of the last event, and there are no more events than appends.
pub history-IsLedger :
    (h : Hashing) (capture_id target_key upper_watermark : String) (ps : List Fields)
    {l l' : Ledger}
    → new_message_ledger capture_id target_key upper_watermark ≡ ok l
    → append_all h l ps ≡ ok l'
    → (es : List Event) × IsLedger h l' es × (length es ≤ length ps)
history-IsLedger h capture_id target_key upper_watermark ps made grown =
    append_all-IsLedger h _ ps [] (new_message_ledger-IsLedger h _ _ _ made) grown
