-- ===== src/Capture/MessageLedger.antt =====
-- capture/message_ledger.py: the append-only ledger of message events and its projections.
-- A ledger is the mapping that the code persists; `events` is absent if it is no list. The digest of
-- a canonical event is that of its JSON text, which the runtime makes.
pub mod Chain
pub mod Retry
pub mod History
pub mod Reduction
pub mod Contents
pub mod Ordering
pub mod Projections
pub mod Strict
pub mod Closing
pub mod Candidate
mod Tests
use mathlib.Core.Option
use discord_context_bridge.Shared.{
  ℕ, Bool, true, false, not, ◌&&◌, ◌||◌, List, [], ◌∷◌, ◌++◌, String, Option, none, some, Value,
  Items, Fields, Runtime, Result, ok, err, strip, find, contains, if◌then◌else◌, int, all, is_null,
  str_or_empty, map, truthy, is_empty, pos, str_eq, str, get, to_str, ◌>>=◌, as_sequence, last,
  is_text, ◌==◌, eq_nat, ℤ, bool, length, negsuc, float, ◌+◌, is_distinct,
}

pub data LedgerError : Type 0 where
  required_missing unsupported_schema events_invalid id_missing unsupported_type : LedgerError
  unsupported_source attachments_invalid window_invalid event_bound not_contiguous : LedgerError

-- What an event says of its message.
pub record Semantic : Type 0 where
  pub event_id : String
  pub sequence : Value
  pub type : String
  pub message_id : String
  pub content_hash : String
  pub attachment_ids : List String
  pub source : String
  pub window : Option (String × ℕ)
  pub content_ref : Option String

-- An event of the ledger: what it says, chained to the event before it.
pub record Event : Type 0 where
  pub semantic : Semantic
  pub open semantic use *
  pub previous_event_hash : String
  pub event_hash : String

pub record Ledger : Type 0 where
  pub schema : Value
  pub capture_id : String
  pub target_key : String
  pub upper_watermark : String
  pub events : Option (List Event)
  pub tip_hash : String

-- `_digest(canonical)`: of an event and the hash before it
pub record Hashing : Type 0 where
  pub runtime : Runtime
  pub event_digest : Semantic → String → String

abbrev pub ledger_schema : String
ledger_schema = "dcb-private-message-event-ledger.v1"

abbrev sources : List String
sources =
    "background_cache" ∷ "chrome_visible_dom" ∷ "discord_desktop_cache" ∷ "rest_backfill"
    ∷ "saved_cache" ∷ "saved_snapshot" ∷ []

abbrev pub empty_ledger : String → String → String → Ledger
empty_ledger capture_id target_key upper_watermark = record {
  schema = str ledger_schema;
  capture_id = capture_id;
  target_key = target_key;
  upper_watermark = upper_watermark;
  events = some [];
  tip_hash = "";
}

unfoldable pub new_message_ledger : String → String → String → Result LedgerError Ledger
new_message_ledger capture_id target_key upper_watermark =
    if is_empty (strip capture_id)
      || is_empty (strip target_key)
      || is_empty (strip upper_watermark)
    then err required_missing
    else ok (empty_ledger capture_id target_key upper_watermark)

-- `str(payload.get(key) or "").strip()`
unfoldable pub stripped : Runtime → String → Fields → String
stripped rt key payload = strip (str_or_empty rt (get key payload))

-- The attachment ids of a payload, an empty list if the key is absent.
unfoldable pub attachment_items : Runtime → Fields → Option (List String)
attachment_items rt payload = elim (find "attachment_ids" payload) [
  | none ↦ some []
  | some v ↦ Option.map (map (to_str rt)) (as_sequence v)
]

-- Unique, and none of them blank.
unfoldable pub valid_attachments : List String → Bool
valid_attachments ids = all (λ a. not (is_empty (strip a))) ids && is_distinct ids

abbrev window_of : String → Value → Result LedgerError (Option (String × ℕ))
window_of id (int (pos n)) = if is_empty id then err window_invalid else ok (some (id, n))
window_of id _ = err window_invalid

-- The window of a payload, if it names one.
unfoldable pub window : Runtime → Fields → Result LedgerError (Option (String × ℕ))
window rt payload =
    if is_null (get "window_id" payload)
    then ok none
    else window_of (stripped rt "window_id" payload) (get "window_index" payload)

unfoldable pub content_ref : Runtime → Fields → Option String
content_ref rt payload =
    if truthy (get "content_ref" payload)
    then some (to_str rt (get "content_ref" payload))
    else none

-- The checks of `append_message_event` on the payload, in order, and what it means.
unfoldable pub semantic_of : Runtime → Fields → Result LedgerError Semantic
semantic_of rt payload =
    if is_empty (stripped rt "event_id" payload)
      || is_empty (stripped rt "message_id" payload)
      || is_empty (stripped rt "content_hash" payload)
    then err id_missing
    else if not (str_eq (stripped rt "type" payload) "message_observed")
    then err unsupported_type
    else if not (contains (stripped rt "source" payload) sources)
    then err unsupported_source
    else (elim (attachment_items rt payload) [
      | none ↦ err attachments_invalid
      | some ids ↦
          if valid_attachments ids
          then (do
            w ← window rt payload
            ok (record {
              event_id = stripped rt "event_id" payload;
              sequence = get "sequence" payload;
              type = stripped rt "type" payload;
              message_id = stripped rt "message_id" payload;
              content_hash = stripped rt "content_hash" payload;
              attachment_ids = ids;
              source = stripped rt "source" payload;
              window = w;
              content_ref = content_ref rt payload;
            }))
          else err attachments_invalid
    ])

abbrev natural_of : ℤ → Option ℕ
natural_of (pos n) = some n
natural_of (negsuc n) = none

-- The natural number that a stored sequence equals.
abbrev as_natural : Value → Option ℕ
as_natural (int n) = natural_of n
as_natural (bool true) = some 1
as_natural (bool false) = some 0
as_natural (float x) =
    if x.is_integer then (elim x.truncated [ none ↦ none | some n ↦ natural_of n ]) else none
as_natural _ = none

-- `stored == value`, where the stored sequence is one that an append accepted, so a number.
unfoldable pub same_sequence : Value → Value → Bool
same_sequence stored value = elim (as_natural stored) [ none ↦ false | some n ↦ eq_nat value n ]

abbrev same_texts : List String → List String → Bool
same_texts [] [] = true
same_texts (x ∷ xs) (y ∷ ys) = str_eq x y && same_texts xs ys
same_texts _ _ = false

-- The keys of an optional part are compared only if the new event has it.
abbrev same_window : Option (String × ℕ) → Option (String × ℕ) → Bool
same_window stored none = true
same_window none (some w) = false
same_window (some (id, n)) (some (id', n')) = str_eq id id' && n == n'

abbrev same_ref : Option String → Option String → Bool
same_ref stored none = true
same_ref none (some r) = false
same_ref (some r) (some r') = str_eq r r'

-- `all(existing.get(key) == value for key, value in semantic.items())`
unfoldable pub same_event : Semantic → Semantic → Bool
unfolding same_sequence
same_event a b =
    str_eq a.event_id b.event_id
    && same_sequence a.sequence b.sequence
    && str_eq a.type b.type
    && str_eq a.message_id b.message_id
    && str_eq a.content_hash b.content_hash
    && same_texts a.attachment_ids b.attachment_ids
    && str_eq a.source b.source
    && same_window a.window b.window
    && same_ref a.content_ref b.content_ref

-- The first event with an id.
unfoldable pub find_event : String → List Event → Option Event
find_event id [] = none
find_event id (e ∷ es) = if str_eq e.event_id id then some e else find_event id es

abbrev hash_of : Option Event → String
hash_of none = ""
hash_of (some e) = e.event_hash

abbrev pub last_hash : List Event → String
last_hash es = hash_of (last es)

unfoldable pub chain : Hashing → List Event → Semantic → Event
chain h es s = record {
  semantic = s;
  previous_event_hash = last_hash es;
  event_hash = h.event_digest s (last_hash es);
}

-- What happens to a valid event: a repetition changes nothing, another event under a known id
-- is refused, and a new event must be the next one.
unfoldable pub place :
    Hashing → Ledger → List Event → Semantic → Option Event → Result LedgerError Ledger
unfolding chain
place h l es s (some existing) = if same_event existing.semantic s then ok l else err event_bound
place h l es s none =
    if eq_nat s.sequence (length es + 1)
    then ok
        (record l { events = some (es ++ chain h es s ∷ []); tip_hash = (chain h es s).event_hash })
    else err not_contiguous

unfoldable pub append_message_event : Hashing → Ledger → Fields → Result LedgerError Ledger
append_message_event h l payload =
    if not (is_text ledger_schema l.schema) then err unsupported_schema else (elim l.events [
      | none ↦ err events_invalid
      | some es ↦ (do s ← semantic_of h.runtime payload; place h l es s (find_event s.event_id es))
    ])

unfoldable pub append_all : Hashing → Ledger → List Fields → Result LedgerError Ledger
append_all h l [] = ok l
append_all h l (p ∷ ps) = do l' ← append_message_event h l p; append_all h l' ps
