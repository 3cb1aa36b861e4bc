-- ===== src/Capture/MessageLedger/Contents.antt =====
-- What the reduction of a ledger keeps of its events.
use discord_context_bridge.Capture.MessageLedger.Reduction.{
  reduce_events, reduce_messages, MessageState, reduce_event, event_messages, event_attachments,
  state_of,
}
use discord_context_bridge.Shared.{
  [], ◌∷◌, List, Dict, String, contains, keys, IsDistinct, IsDistinct-insert, ◌≡◌, ◌||◌, arith,
  contains-sorted_set, lookup, insert, contains-keys-insert,
}
use discord_context_bridge.Capture.MessageLedger.{Event, List, String, contains}

reduced-contains :
    (es : List Event) (messages : Dict MessageState) (id : String)
    → contains id (keys (reduce_events es messages))
      ≡ (contains id (keys messages) || contains id (event_messages es))
unfolding reduce_events
reduced-contains [] messages id = ground arith
reduced-contains (e ∷ es) messages id =
    let m = reduce_event e (state_of (lookup e.message_id messages)) in
    ground (
      arith,
      reduced-contains es (insert e.message_id m messages) id,
      contains-keys-insert e.message_id id m messages,
    )

IsDistinct-reduced :
    (es : List Event) (messages : Dict MessageState)
    → IsDistinct (keys messages)
    → IsDistinct (keys (reduce_events es messages))
unfolding reduce_events
IsDistinct-reduced [] messages h = h
IsDistinct-reduced (e ∷ es) messages h = IsDistinct-reduced es _ (
    IsDistinct-insert e.message_id (reduce_event e (state_of (lookup e.message_id messages)))
      messages h)

-- The reduction of a ledger loses no message and makes none up: its messages are those of the
-- events, each once, and its attachments are those of the events.
pub reduce_messages-contents :
    (es : List Event) (id attachment : String)
    → (contains id (keys (reduce_messages es).messages) ≡ contains id (event_messages es))
      × IsDistinct (keys (reduce_messages es).messages)
      × (contains attachment (reduce_messages es).attachment_ids
          ≡ contains attachment (event_attachments es))
unfolding reduce_messages
reduce_messages-contents es id attachment = (
  reduced-contains es [] id,
  IsDistinct-reduced es [] tt,
  contains-sorted_set attachment (event_attachments es),
)
