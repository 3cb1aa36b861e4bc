-- ===== src/Capture/VirtualScroll/Merge.antt =====
-- `merge_capture_window` of capture/virtual_scroll.py: one window of a browser or a cache, merged
-- into a coverage.
use discord_context_bridge.Capture.VirtualScroll.{
  Message, ScrollCoverage, Window, str_eq, update_scan_stability, get, contains, Option, Result,
  strip, sorted_set, ScrollError, str_or_empty, recompute, not, window_bound, scroll_schema,
  unsupported_schema, is_empty, window_id_required, scroll_sources, unsupported_source, directions,
  unsupported_direction, safe_message_rows,
}
use discord_context_bridge.Shared.{
  true, false, none, some, [], ◌∷◌, ok, err, Runtime, String, ℕ, List, Bool, Fields, Dict,
  if◌then◌else◌, str_eq, get, contains, Option, Result, strip, ◌+◌, lookup, sorted_set, is_true,
  str_or_empty, ◌++◌, ◌&&◌, insert, ◌>>=◌, not, is_text, is_empty, is_some,
}

abbrev pub message_ids : List (String × String) → List String
message_ids [] = []
message_ids ((id, hash) ∷ rows) = id ∷ message_ids rows

abbrev same_ids : List String → List String → Bool
same_ids [] [] = true
same_ids (x ∷ xs) (y ∷ ys) = str_eq x y && same_ids xs ys
same_ids _ _ = false

-- The first window with an id.
unfoldable pub find_window : String → List Window → Option Window
find_window id [] = none
find_window id (w ∷ ws) = if str_eq w.window_id id then some w else find_window id ws

abbrev add_text : String → List String → List String
add_text x xs = if contains x xs then xs else xs ++ x ∷ []

-- A source goes to its place in the sorted list.
abbrev pub observed_again : String → String → Message → Message
observed_again hash source m = record {
  version_hashes = add_text hash m.version_hashes;
  sources = if contains source m.sources then m.sources else sorted_set (m.sources ++ source ∷ []);
}

-- The message after a row with its id.
abbrev pub observed : String → String → Option Message → Message
observed hash source none = record { version_hashes = hash ∷ []; sources = source ∷ [] }
observed hash source (some m) = observed_again hash source m

abbrev one_if : Bool → ℕ
one_if true = 1
one_if false = 0

-- The messages after the rows, how many rows were new and how many repeated.
unfoldable pub observe_rows :
    String → List (String × String) → Dict Message → ℕ → ℕ → Dict Message × ℕ × ℕ
observe_rows source [] messages new repeated = (messages, new, repeated)
observe_rows source ((id, hash) ∷ rows) messages new repeated =
    let known = lookup id messages in
    observe_rows source rows (insert id (observed hash source known) messages)
      (new + one_if (not (is_some known))) (repeated + one_if (is_some known))

abbrev pub text_of : Runtime → String → Fields → String
text_of rt key observation = strip (str_or_empty rt (get key observation))

unfoldable pub window_made : Runtime → Fields → List (String × String) → ℕ → Window
window_made rt observation rows new = record {
  window_id = text_of rt "window_id" observation;
  source = text_of rt "source" observation;
  direction = text_of rt "direction" observation;
  message_ids = message_ids rows;
  scan_pass = get "scan_pass" observation;
  oldest_reached = is_true (get "oldest_reached" observation);
  latest_reached = is_true (get "latest_reached" observation);
  new_message_count = new;
}

unfoldable pub add_window :
    Runtime → Fields → List (String × String) → ScrollCoverage → ScrollCoverage
add_window rt observation rows c =
    let (messages, new, repeated) =
      observe_rows (text_of rt "source" observation) rows c.messages 0 0 in
    update_scan_stability rt (
      recompute (record c {
        messages = messages;
        duplicate_observation_count = c.duplicate_observation_count + repeated;
        windows = c.windows ++ window_made rt observation rows new ∷ [];
      }))

abbrev pub bound_window :
    Runtime
    → Fields
    → List (String × String)
    → ScrollCoverage
    → Option Window
    → Result ScrollError ScrollCoverage
bound_window rt observation rows c none = ok (add_window rt observation rows c)
bound_window rt observation rows c (some w) =
    if same_ids w.message_ids (message_ids rows)
      && str_eq w.source (text_of rt "source" observation)
    then ok c
    else err window_bound

abbrev pub with_invalid : ℕ → ScrollCoverage → ScrollCoverage
with_invalid n c = record c { invalid_observation_count = c.invalid_observation_count + n }

unfoldable pub merge_capture_window :
    Runtime → ScrollCoverage → Fields → Result ScrollError ScrollCoverage
merge_capture_window rt c observation =
    if not (is_text scroll_schema c.schema)
    then err unsupported_schema
    else if is_empty (text_of rt "window_id" observation)
    then err window_id_required
    else if not (contains (text_of rt "source" observation) scroll_sources)
    then err unsupported_source
    else if not (contains (text_of rt "direction" observation) directions)
    then err unsupported_direction
    else let (rows, invalid) = safe_message_rows rt (get "messages" observation) in
      bound_window rt observation rows (with_invalid invalid c)
        (find_window (text_of rt "window_id" observation) c.windows)

unfoldable pub merge_all :
    Runtime → ScrollCoverage → List Fields → Result ScrollError ScrollCoverage
merge_all rt c [] = ok c
merge_all rt c (o ∷ os) = do c' ← merge_capture_window rt c o; merge_all rt c' os
