-- ===== src/Capture/MessageLedger/Tests.antt =====
-- A ledger of one message on a concrete payload, and the theorems at it.
use discord_context_bridge.Capture.Reconcile.{same_set}
use discord_context_bridge.FullCapture.Route.{build_capture_route_policy}
use discord_context_bridge.FullCapture.{full, evaluate_full_capture}
use discord_context_bridge.Capture.StableOrder.Edges.{follows_chains}
use discord_context_bridge.Capture.StableOrder.{
  stable_order, add_chains, add_chain, add_edge, roots, push, drain, release, targets,
}
use discord_context_bridge.Capture.MessageLedger.Ordering.{
  ordered_message_ids-conflict, event_chains,
}
use discord_context_bridge.Capture.MessageLedger.Strict.{IsView, IsStrict}
use discord_context_bridge.Capture.MessageLedger.Candidate.{
  strict_evidence-IsStrict, candidate-full,
}
use discord_context_bridge.Capture.MessageLedger.Closing.{history-projects}
use discord_context_bridge.Capture.MessageLedger.Projections.{
  Projections, Scan, ViewHashing, build_capture_projections, projections_of, strict_evidence,
  contiguous_from, normalized_view, raw_view, markdown_view, manifest_view, derived_evidence,
  stable_rescan, edited_count, content_refs,
}
use discord_context_bridge.Capture.MessageLedger.Reduction.{
  reduce_messages, event_messages, reduce_events, reduce_event, ordered_message_ids, windows_of,
  insert_row,
}
use discord_context_bridge.Capture.MessageLedger.{
  Ledger, Hashing, Event, new_message_ledger, empty_ledger, append_message_event, append_all,
  semantic_of, same_event, same_sequence, find_event, chain, place, stripped, attachment_items,
  valid_attachments, window, content_ref, contains, String, ℕ, all,
}
use discord_context_bridge.Capture.MessageLedger.Chain.{IsLedger}
use discord_context_bridge.Capture.MessageLedger.History.{history-IsLedger}
use discord_context_bridge.Capture.MessageLedger.Retry.{append_again}
use discord_context_bridge.Shared.{
  ◌≡◌, ◌≤◌, refl, Fields, str, int, arr, nil, cons, field, end, some, none, pos, List, [], ◌∷◌,
  strip, ok, length, contains, true, false, String, lookup, arith, ◌↔◌, ℕ, all, insert, sorted_set,
  dedupe, ◌&&◌,
}

program : Unit {0}
unfolding new_message_ledger append_message_event append_all semantic_of same_event same_sequence
    find_event chain place stripped attachment_items valid_attachments window content_ref strip
program = tt

abbrev hashing : Hashing
hashing = record {
  runtime = record { sha256 = λ text. "5e1f"; repr = λ value. "[]" };
  event_digest = λ event before. event.content_hash;
}

abbrev message : Fields
message = field "event_id" (str "e1") (
    field "sequence" (int (pos 1)) (
      field "type" (str "message_observed") (
        field "message_id" (str "m1") (
          field "content_hash" (str "9d") (
            field "source" (str "saved_cache")
              (field "attachment_ids" (arr (cons (str "a1") nil)) end))))))

abbrev start : Ledger
start = empty_ledger "5e1f" "target" "m1"

start_lem : new_message_ledger "5e1f" "target" "m1" ≡ ok start
unfolding program
start_lem = refl

abbrev event : Event
event = record {
  semantic = record {
    event_id = "e1";
    sequence = int (pos 1);
    type = "message_observed";
    message_id = "m1";
    content_hash = "9d";
    attachment_ids = "a1" ∷ [];
    source = "saved_cache";
    window = none;
    content_ref = none;
  };
  previous_event_hash = "";
  event_hash = "9d";
}

abbrev grown : Ledger
grown = record start { events = some (event ∷ []); tip_hash = "9d" }

append_first : append_message_event hashing start message ≡ ok grown
unfolding program
append_first = refl

append_twice : append_all hashing start (message ∷ message ∷ []) ≡ ok grown
unfolding program
append_twice = refl

history-IsLedger_example : (es : List Event) × IsLedger hashing grown es × (length es ≤ 2)
history-IsLedger_example =
    history-IsLedger hashing "5e1f" "target" "m1" (message ∷ message ∷ []) start_lem append_twice

start-IsLedger : IsLedger hashing start []
start-IsLedger = record { events = refl; chained = tt; distinct = tt; tip = refl }

append_again_example : append_message_event hashing grown message ≡ ok grown
append_again_example = append_again hashing start message [] start-IsLedger append_first

abbrev view_hashing : ViewHashing
view_hashing = record {
  normalized_digest = λ view. view.capture_id;
  raw_digest = λ view. "5e1f";
  markdown_digest = λ view. "5e1f";
  manifest_digest = λ view. view.schema;
}

abbrev whole_scan : Scan
whole_scan = record {
  oldest_reached = true;
  latest_reached = true;
  stable_scan_digests = "9d" ∷ "9d" ∷ [];
  saved_attachment_ids = "a1" ∷ [];
  upper_watermark_reached = true;
  unresolved_gap_count = pos 0;
  pending_retry_count = pos 0;
  attachment_inventory_complete = true;
}

history-projects_example :
    (es : List Event) × (p : Projections) × (grown.events ≡ some es)
    × (build_capture_projections view_hashing grown whole_scan ≡ ok p)
    × IsView p
    × ((id : String) → contains id p.raw.message_ids ≡ contains id (event_messages es))
history-projects_example =
    history-projects hashing view_hashing "5e1f" "target" "m1" (message ∷ message ∷ []) whole_scan
      start_lem append_twice

abbrev grown_views : Projections
grown_views = projections_of view_hashing grown whole_scan (reduce_messages (event ∷ []))

views : Unit {0}
unfolding build_capture_projections contiguous_from projections_of normalized_view raw_view
    markdown_view manifest_view derived_evidence stable_rescan reduce_messages reduce_events
    reduce_event ordered_message_ids windows_of insert_row stable_order add_chains add_chain
    add_edge roots push drain release targets lookup insert sorted_set edited_count content_refs
    build_capture_route_policy strip
views = tt

grown_built : build_capture_projections view_hashing grown whole_scan ≡ ok grown_views
unfolding views
grown_built = refl

candidate-full_example :
    (evaluate_full_capture hashing.runtime
      (strict_evidence hashing.runtime grown_views "iab" true true)).status
    ≡ full
unfolding views
candidate-full_example =
    candidate-full hashing.runtime view_hashing grown whole_scan "iab" grown_built refl refl refl

-- Two messages, each before the other in a window.
abbrev placed : String → ℕ → String → String → ℕ → Event
placed id n message_id w index = record {
  semantic = record {
    event_id = id;
    sequence = int (pos n);
    type = "message_observed";
    message_id = message_id;
    content_hash = "9d";
    attachment_ids = [];
    source = "saved_cache";
    window = some (w, index);
    content_ref = none;
  };
  previous_event_hash = "";
  event_hash = "9d";
}

abbrev crossed_events : List Event
crossed_events =
    placed "e1" 1 "m1" "w1" 0
    ∷ placed "e2" 2 "m2" "w1" 1
    ∷ placed "e3" 3 "m2" "w2" 0
    ∷ placed "e4" 4 "m1" "w2" 1
    ∷ []

abbrev crossed : Ledger
crossed = record start { events = some crossed_events }

abbrev unsaved_scan : Scan
unsaved_scan = record whole_scan { saved_attachment_ids = [] }

abbrev crossed_views : Projections
crossed_views = projections_of view_hashing crossed unsaved_scan (reduce_messages crossed_events)

crossed_built : build_capture_projections view_hashing crossed unsaved_scan ≡ ok crossed_views
unfolding views
crossed_built = refl

crossed_conflict : (ordered_message_ids crossed_events).1 ≡ true
unfolding views
crossed_conflict = refl

crossed_candidate : crossed_views.evidence.full_candidate ≡ false
unfolding views
crossed_candidate = refl

strict_evidence-IsStrict_example :
    ((evaluate_full_capture hashing.runtime
        (strict_evidence hashing.runtime crossed_views "iab" true true)).status
      ≡ full)
    ↔ IsStrict crossed_views "iab" true true
strict_evidence-IsStrict_example =
    strict_evidence-IsStrict hashing.runtime view_hashing crossed unsaved_scan "iab" true true
      crossed_built

crossed-IsStrict : IsStrict crossed_views "iab" true true
unfolding views same_set
crossed-IsStrict = record {
  supported = refl;
  target = refl;
  fresh = refl;
  capture = refl;
  some_message = refl;
  oldest = refl;
  latest = refl;
  watermark = refl;
  stable = refl;
  scans = omega arith;
  gaps = refl;
  retries = refl;
  inventory = refl;
  saved_count = refl;
  saved_same = refl;
}

ordered_message_ids-conflict_example : ((ordered_message_ids crossed_events).1 ≡ false) ↔ (
    (order : List String) × (all (λ x. contains x order) (dedupe (event_messages crossed_events))
        && follows_chains order (event_chains crossed_events)
      ≡ true))
ordered_message_ids-conflict_example = ordered_message_ids-conflict crossed_events
