-- ===== src/Capture/MessageLedger/Reduction.antt =====
-- `_ordered_message_ids` and `_reduce_messages` of capture/message_ledger.py: the messages that the
-- events of a ledger tell of, and their order.
use discord_context_bridge.Capture.StableOrder.{stable_order}
use discord_context_bridge.Shared.{
  true, false, none, some, [], ◌∷◌, Option, Dict, ℕ, if◌then◌else◌, List, String, is_empty, insert,
  sorted_set, contains, ◌++◌, ltb, lookup, Bool, ◌||◌, dedupe, ◌==◌, ◌&&◌,
}
use discord_context_bridge.Capture.MessageLedger.{Event, Option, List, contains, Bool, is_empty}
use Prim.Native.String.{compare, String}
use Prim.Native.Nat.{Ordering, ℕ}

-- The messages of a window, by their index and then by their id.
unfoldable pub insert_row : ℕ → String → List (ℕ × String) → List (ℕ × String)
insert_row n id [] = (n, id) ∷ []
insert_row n id ((m, x) ∷ rows) =
    let rest = insert_row n id rows in
    if ltb n m || (n == m && elim (compare id x) [ Ordering.lt ↦ true | _ ↦ false ])
    then (n, id) ∷ (m, x) ∷ rows
    else (m, x) ∷ rest

abbrev pub rows_of_window : String → Dict (List (ℕ × String)) → List (ℕ × String)
rows_of_window id windows = elim (lookup id windows) [ none ↦ [] | some rows ↦ rows ]

abbrev pub add_row :
    String → Option (String × ℕ) → Dict (List (ℕ × String)) → Dict (List (ℕ × String))
add_row id none windows = windows
add_row id (some (w, n)) windows = insert w (insert_row n id (rows_of_window w windows)) windows

-- The windows with their sorted rows.
unfoldable pub windows_of : List Event → Dict (List (ℕ × String)) → Dict (List (ℕ × String))
windows_of [] windows = windows
windows_of (e ∷ es) windows = windows_of es (add_row e.message_id e.window windows)

abbrev pub chain_ids : List (ℕ × String) → List String
chain_ids [] = []
chain_ids ((n, id) ∷ rows) = id ∷ chain_ids rows

abbrev pub window_chains : Dict (List (ℕ × String)) → List (List String)
window_chains [] = []
window_chains ((w, rows) ∷ windows) = chain_ids rows ∷ window_chains windows

abbrev pub event_messages : List Event → List String
event_messages [] = []
event_messages (e ∷ es) = e.message_id ∷ event_messages es

unfoldable pub ordered_message_ids : List Event → List String × Bool
ordered_message_ids es =
    stable_order (dedupe (event_messages es)) (window_chains (windows_of es []))

pub record MessageState : Type 0 where
  pub version_hashes : List String
  pub sources : List String
  pub attachment_ids : List String
  pub content_ref : Option String

abbrev new_state : MessageState
new_state = record { version_hashes = []; sources = []; attachment_ids = []; content_ref = none }

abbrev append_new : String → List String → List String
append_new x xs = if contains x xs then xs else xs ++ x ∷ []

abbrev append_all_new : List String → List String → List String
append_all_new [] xs = xs
append_all_new (y ∷ ys) xs = append_all_new ys (append_new y xs)

abbrev ref_or : Option String → Option String → Option String
ref_or none before = before
ref_or (some r) before = if is_empty r then before else some r

-- A message after an event of it.
unfoldable pub reduce_event : Event → MessageState → MessageState
reduce_event e m = record {
  version_hashes = append_new e.content_hash m.version_hashes;
  sources =
      if contains e.source m.sources then m.sources else sorted_set (m.sources ++ e.source ∷ []);
  attachment_ids = append_all_new e.attachment_ids m.attachment_ids;
  content_ref = ref_or e.content_ref m.content_ref;
}

abbrev pub state_of : Option MessageState → MessageState
state_of none = new_state
state_of (some m) = m

unfoldable pub reduce_events : List Event → Dict MessageState → Dict MessageState
reduce_events [] messages = messages
reduce_events (e ∷ es) messages =
    reduce_events es
      (insert e.message_id (reduce_event e (state_of (lookup e.message_id messages))) messages)

abbrev pub event_attachments : List Event → List String
event_attachments [] = []
event_attachments (e ∷ es) = e.attachment_ids ++ event_attachments es

pub record Reduced : Type 0 where
  pub messages : Dict MessageState
  pub ordered_ids : List String
  pub order_conflict : Bool
  pub attachment_ids : List String

unfoldable pub reduce_messages : List Event → Reduced
reduce_messages es = record {
  messages = reduce_events es [];
  ordered_ids = (ordered_message_ids es).0;
  order_conflict = (ordered_message_ids es).1;
  attachment_ids = sorted_set (event_attachments es);
}
