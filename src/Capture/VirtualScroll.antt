-- ===== src/Capture/VirtualScroll.antt =====
-- capture/virtual_scroll.py: windows of a thread, merged into the coverage of a capture. A coverage
-- is the mapping that `new_virtual_scroll_coverage` makes and the merge writes; its constant keys
-- are left out.
pub mod Merge
pub mod Ordering
pub mod Ids
mod Tests
use mathlib.Core.Option
use discord_context_bridge.Capture.StableOrder.{stable_order}
use discord_context_bridge.Shared.{
  List, Runtime, String, Value, ℕ, ℤ, as_sequence, Dict, Result, length, if◌then◌else◌, suc, ◌∷◌,
  Bool, Option, is_empty, obj, any, dedupe, is_nil, ◌++◌, [], ◌+◌, contains, ◌||◌, strip,
  str_or_empty, err, get, ok, str, false, none, some, true, zero, pos, negsuc, int, ◌-◌, digest,
  not, last, ◌==◌, ◌&&◌, str_eq, ltb, sorted_set,
}

pub data ScrollError : Type 0 where
  id_required unsupported_schema window_id_required : ScrollError
  unsupported_source unsupported_direction window_bound : ScrollError

pub record Message : Type 0 where
  pub version_hashes : List String
  pub sources : List String

pub record Window : Type 0 where
  pub window_id : String
  pub source : String
  pub direction : String
  pub message_ids : List String
  pub scan_pass : Value
  pub oldest_reached : Bool
  pub latest_reached : Bool
  pub new_message_count : ℕ

pub record Pass : Type 0 where
  pub scan_pass : ℤ
  pub first_message_id : String
  pub last_message_id : String
  pub message_count : ℕ
  pub ordered_message_digest : String
  pub new_message_count : ℕ

pub record ScrollCoverage : Type 0 where
  pub schema : Value
  pub capture_id : String
  pub messages : Dict Message
  pub windows : List Window
  pub ordered_message_ids : List String
  pub sources : List String
  pub unique_message_count : ℕ
  pub duplicate_observation_count : ℕ
  pub edited_message_count : ℕ
  pub invalid_observation_count : ℕ
  pub gap_count : ℕ
  pub coverage_connected : Bool
  pub oldest_reached : Bool
  pub latest_reached : Bool
  pub scan_passes : List Pass
  pub stable_scan_passes : ℕ
  pub final_pass_new_message_count : Option ℕ
  pub capture_stable_after_rescan : Bool
  pub blockers : List String

abbrev pub scroll_schema : String
scroll_schema = "dcb-virtual-scroll-coverage.v1"

abbrev pub scroll_sources : List String
scroll_sources =
    "background_cache" ∷ "chrome_visible_dom" ∷ "discord_desktop_cache" ∷ "rest_backfill"
    ∷ "saved_cache" ∷ "saved_snapshot" ∷ []

abbrev pub directions : List String
directions = "toward_oldest" ∷ "toward_latest" ∷ "stationary" ∷ []

abbrev pub empty_coverage : String → ScrollCoverage
empty_coverage capture_id = record {
  schema = str scroll_schema;
  capture_id = capture_id;
  messages = [];
  windows = [];
  ordered_message_ids = [];
  sources = [];
  unique_message_count = 0;
  duplicate_observation_count = 0;
  edited_message_count = 0;
  invalid_observation_count = 0;
  gap_count = 0;
  coverage_connected = false;
  oldest_reached = false;
  latest_reached = false;
  scan_passes = [];
  stable_scan_passes = 0;
  final_pass_new_message_count = none;
  capture_stable_after_rescan = false;
  blockers = [];
}

unfoldable pub new_virtual_scroll_coverage : String → Result ScrollError ScrollCoverage
new_virtual_scroll_coverage capture_id =
    if is_empty (strip capture_id) then err id_required else ok (empty_coverage capture_id)

-- The rows with both texts, and how many items have not.
abbrev with_row : String → String → List (String × String) × ℕ → List (String × String) × ℕ
with_row id hash (rows, invalid) =
    if is_empty id || is_empty hash then (rows, invalid + 1) else ((id, hash) ∷ rows, invalid)

unfoldable pub message_rows : Runtime → List Value → List (String × String) × ℕ
message_rows rt [] = ([], 0)
message_rows rt (obj fs ∷ vs) =
    with_row (strip (str_or_empty rt (get "message_id" fs)))
      (strip (str_or_empty rt (get "content_hash" fs))) (message_rows rt vs)
message_rows rt (v ∷ vs) = let (rows, invalid) = message_rows rt vs in (rows, invalid + 1)

unfoldable pub safe_message_rows : Runtime → Value → List (String × String) × ℕ
safe_message_rows rt v = elim (as_sequence v) [ none ↦ ([], 1) | some vs ↦ message_rows rt vs ]

abbrev pub ids_of_windows : List Window → List (List String)
ids_of_windows [] = []
ids_of_windows (w ∷ ws) = w.message_ids ∷ ids_of_windows ws

abbrev pub concat : List (List String) → List String
concat [] = []
concat (xs ∷ rest) = xs ++ concat rest

unfoldable pub ordered_ids : List Window → List String
ordered_ids ws = (stable_order (dedupe (concat (ids_of_windows ws))) (ids_of_windows ws)).0

abbrev meets : List String → List String → Bool
meets xs ys = any (λ y. contains y xs) ys

-- The sets that meet the ids, and those that do not.
unfoldable pub split_meeting :
    List String → List (List String) → List (List String) × List (List String)
split_meeting ids [] = ([], [])
split_meeting ids (s ∷ rest) =
    let (inside, outside) = split_meeting ids rest in
    if meets ids s then (s ∷ inside, outside) else (inside, s ∷ outside)

-- The sets on a stack, the last one on top.
abbrev push_all : List (List String) → List (List String) → List (List String)
push_all [] stack = stack
push_all (s ∷ rest) stack = push_all rest (s ∷ stack)

-- `while frontier`: what remains when no set on the stack is left, on fuel: every set is on the
-- stack at most once.
unfoldable pub grow : ℕ → List String → List (List String) → List (List String) → List (List String)
grow zero connected frontier remaining = remaining
grow (suc fuel) connected [] remaining = remaining
grow (suc fuel) connected (s ∷ frontier) remaining =
    let (inside, outside) = split_meeting (connected ++ s) remaining in
    grow fuel (connected ++ s) (push_all inside frontier) outside

-- The number of components, on fuel: a set leaves the remaining ones with each. Which one a set of
-- Python gives first is open; here it is the first one.
unfoldable pub count_components : ℕ → List (List String) → ℕ
count_components zero remaining = 0
count_components (suc fuel) [] = 0
count_components (suc fuel) (s ∷ remaining) =
    1 + count_components fuel (grow (length remaining + 1) [] (s ∷ []) remaining)

abbrev non_empty_sets : List (List String) → List (List String)
non_empty_sets [] = []
non_empty_sets (s ∷ rest) = let more = non_empty_sets rest in if is_nil s then more else s ∷ more

unfoldable pub window_components : List Window → ℕ
window_components ws = count_components (length ws) (non_empty_sets (ids_of_windows ws))

abbrev edited_count : Dict Message → ℕ
edited_count [] = 0
edited_count ((id, m) ∷ rest) =
    if ltb 1 (length m.version_hashes) then 1 + edited_count rest else edited_count rest

abbrev window_sources : List Window → List String
window_sources [] = []
window_sources (w ∷ ws) = w.source ∷ window_sources ws

abbrev without : String → List String → List String
without x [] = []
without x (y ∷ ys) = let rest = without x ys in if str_eq y x then rest else y ∷ rest

-- The blockers after a merge, which a gap enters and leaves.
unfoldable pub merged_blockers : ℕ → ℕ → List String → List String
merged_blockers invalid gaps blockers =
    let marked = if invalid == 0 then blockers else "stable_message_id_missing" ∷ blockers in
    sorted_set
      (if gaps == 0 then without "window_overlap_gap" marked else "window_overlap_gap" ∷ marked)

unfoldable pub recompute : ScrollCoverage → ScrollCoverage
recompute c =
    let components = window_components c.windows in
    record c {
      ordered_message_ids = ordered_ids c.windows;
      gap_count = components - 1;
      coverage_connected = not (is_nil c.windows) && components == 1;
      unique_message_count = length c.messages;
      edited_message_count = edited_count c.messages;
      sources = sorted_set (window_sources c.windows);
      blockers = merged_blockers c.invalid_observation_count (components - 1) c.blockers;
    }

-- The scan pass of a window, if it is an integer.
abbrev pass_of : Window → Option ℤ
pass_of w = elim w.scan_pass [ int n ↦ some n | _ ↦ none ]

abbrev int_same : ℤ → ℤ → Bool
int_same (pos m) (pos n) = m == n
int_same (negsuc m) (negsuc n) = m == n
int_same _ _ = false

abbrev int_before : ℤ → ℤ → Bool
int_before (pos m) (pos n) = ltb m n
int_before (negsuc m) (negsuc n) = ltb n m
int_before (negsuc m) (pos n) = true
int_before (pos m) (negsuc n) = false

-- `grouped.setdefault(scan_pass, []).append(window)`, the groups in the order of their passes
unfoldable pub add_to_group : ℤ → Window → List (ℤ × List Window) → List (ℤ × List Window)
add_to_group n w [] = (n, w ∷ []) ∷ []
add_to_group n w ((m, ws) ∷ groups) =
    let rest = add_to_group n w groups in
    if int_same n m
    then (m, ws ++ w ∷ []) ∷ groups
    else if int_before n m
    then (n, w ∷ []) ∷ (m, ws) ∷ groups
    else (m, ws) ∷ rest

abbrev grouped_with : Option ℤ → Window → List (ℤ × List Window) → List (ℤ × List Window)
grouped_with none w groups = groups
grouped_with (some n) w groups = add_to_group n w groups

unfoldable pub grouped : List Window → List (ℤ × List Window) → List (ℤ × List Window)
grouped [] groups = groups
grouped (w ∷ ws) groups = grouped ws (grouped_with (pass_of w) w groups)

abbrev first_of : List String → String
first_of [] = ""
first_of (x ∷ xs) = x

abbrev last_of : List String → String
last_of xs = elim (last xs) [ none ↦ "" | some x ↦ x ]

abbrev sum_new : List Window → ℕ
sum_new [] = 0
sum_new (w ∷ ws) = w.new_message_count + sum_new ws

abbrev pass_made : Runtime → ℤ → List Window → Pass
pass_made rt n ws = record {
  scan_pass = n;
  first_message_id = first_of (ordered_ids ws);
  last_message_id = last_of (ordered_ids ws);
  message_count = length (ordered_ids ws);
  ordered_message_digest = digest rt (ordered_ids ws);
  new_message_count = sum_new ws;
}

-- A pass counts if its windows reach both ends and are connected.
abbrev pass_complete : List Window → Bool
pass_complete ws =
    any (λ w. w.oldest_reached) ws && any (λ w. w.latest_reached) ws && window_components ws == 1

unfoldable pub complete_passes : Runtime → List (ℤ × List Window) → List Pass
complete_passes rt [] = []
complete_passes rt ((n, ws) ∷ groups) =
    let rest = complete_passes rt groups in
    if pass_complete ws then pass_made rt n ws ∷ rest else rest

-- The last two passes, the last one second.
abbrev last_two : List Pass → Option (Pass × Pass)
last_two [] = none
last_two (p ∷ []) = none
last_two (p ∷ q ∷ []) = some (p, q)
last_two (p ∷ q ∷ r ∷ ps) = last_two (q ∷ r ∷ ps)

unfoldable pub is_stable : ScrollCoverage → List Pass → Bool
is_stable c passes = elim (last_two passes) [
  | none ↦ false
  | some (previous, current) ↦
      str_eq previous.ordered_message_digest current.ordered_message_digest
      && current.new_message_count == 0
      && c.coverage_connected
      && is_nil c.blockers
]

unfoldable pub update_scan_stability : Runtime → ScrollCoverage → ScrollCoverage
update_scan_stability rt c =
    let passes = complete_passes rt (grouped c.windows []) in
    record c {
      scan_passes = passes;
      oldest_reached = not (is_nil passes);
      latest_reached = not (is_nil passes);
      stable_scan_passes = length passes;
      final_pass_new_message_count = Option.map (λ p. p.new_message_count) (last passes);
      capture_stable_after_rescan = is_stable c passes;
    }
