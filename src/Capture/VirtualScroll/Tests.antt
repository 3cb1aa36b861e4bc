-- ===== src/Capture/VirtualScroll/Tests.antt =====
-- A coverage of two windows on concrete observations, and the theorem at it.
use discord_context_bridge.Capture.VirtualScroll.Ids.{HoldsIds, coverage-HoldsIds}
use discord_context_bridge.Shared.{
  true, [], ◌∷◌, ok, err, lookup, Result, ◌≡◌, String, List, Runtime, Fields, Value, insert, Items,
  obj, field, sorted_set, cons, nil, str, strip, digest, arr, end, refl, int, pos, bool,
}
use discord_context_bridge.Capture.VirtualScroll.Merge.{
  merge_all, merge_capture_window, add_window, window_made, observe_rows, find_window,
}
use discord_context_bridge.Capture.VirtualScroll.{
  new_virtual_scroll_coverage, safe_message_rows, message_rows, recompute, merged_blockers,
  update_scan_stability, complete_passes, grouped, add_to_group, is_stable, window_components,
  count_components, grow, split_meeting, ordered_ids, Result, ScrollCoverage, String, List, Runtime,
  empty_coverage, Value, ScrollError, obj, sorted_set, str, strip, digest, int, pos,
}
use discord_context_bridge.Capture.StableOrder.{
  stable_order, drain, release, targets, roots, push, add_chains, add_chain, add_edge,
}

program : Unit {0}
unfolding new_virtual_scroll_coverage merge_all merge_capture_window add_window window_made
    observe_rows find_window safe_message_rows message_rows recompute merged_blockers
    update_scan_stability complete_passes grouped add_to_group is_stable window_components
    count_components grow split_meeting ordered_ids stable_order drain release targets roots push
    add_chains add_chain add_edge lookup insert sorted_set strip digest
program = tt

abbrev rt : Runtime
rt = record { sha256 = λ text. "5e1f"; repr = λ value. "[]" }

abbrev row : String → Value
row id = obj (field "message_id" (str id) (field "content_hash" (str "9d") end))

abbrev observation : String → Items → Fields
observation id rows = field "window_id" (str id) (
    field "source" (str "saved_cache") (
      field "direction" (str "stationary") (
        field "messages" (arr rows) (
          field "scan_pass" (int (pos 1))
            (field "oldest_reached" (bool true) (field "latest_reached" (bool true) end))))))

abbrev observations : List Fields
observations =
    observation "w1" (cons (row "m2") (cons (row "m3") nil))
    ∷ observation "w2" (cons (row "m1") (cons (row "m2") nil))
    ∷ []

abbrev ids_after : Result ScrollError ScrollCoverage → List String
ids_after (ok c) = c.ordered_message_ids
ids_after (err e) = []

ordered : ids_after (merge_all rt (empty_coverage "5e1f") observations) ≡ "m1" ∷ "m2" ∷ "m3" ∷ []
unfolding program
ordered = refl

abbrev coverage_after : Result ScrollError ScrollCoverage → ScrollCoverage
coverage_after (ok c) = c
coverage_after (err e) = empty_coverage ""

abbrev grown : ScrollCoverage
grown = coverage_after (merge_all rt (empty_coverage "5e1f") observations)

start_lem : new_virtual_scroll_coverage "5e1f" ≡ ok (empty_coverage "5e1f")
unfolding program
start_lem = refl

grown_lem : merge_all rt (empty_coverage "5e1f") observations ≡ ok grown
unfolding program
grown_lem = refl

coverage-HoldsIds_example : HoldsIds grown "m1"
coverage-HoldsIds_example = coverage-HoldsIds rt "5e1f" observations "m1" start_lem grown_lem
