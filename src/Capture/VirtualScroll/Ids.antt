-- ===== src/Capture/VirtualScroll/Ids.antt =====
-- What the messages of a coverage are: those of its windows, each once.
use discord_context_bridge.Capture.VirtualScroll.{
  ScrollCoverage, recompute, Message, Dict, contains, Runtime, Window, ℕ, concat,
  update_scan_stability, ids_of_windows, length, new_virtual_scroll_coverage, Option,
  empty_coverage, unsupported_direction, unsupported_source, window_id_required, unsupported_schema,
  scroll_sources, directions, scroll_schema, safe_message_rows, get, is_empty, not,
}
use discord_context_bridge.Shared.{
  none, some, [], ◌∷◌, ok, err, List, String, Dict, contains, Runtime, ℕ, keys, Fields, IsDistinct,
  insert, ◌≡◌, ◌||◌, lookup, length, ◌++◌, ◌∙◌, arith, contains-keys-insert, ap, IsDistinct-insert,
  contains-append, sym, refl, Option, >>=-eq-ok, if◌then◌else◌, get, is_empty, not, is_text, past,
}
use discord_context_bridge.Capture.VirtualScroll.Merge.{
  message_ids, add_window, observe_rows, merge_capture_window, window_made, text_of, with_invalid,
  merge_all, bound_window, observed, find_window,
}

inserted :
    (id x : String) (m : Message) (messages : Dict Message) (more : List String)
    → (contains id (keys (insert x m messages)) || contains id more)
      ≡ (contains id (keys messages) || contains id (x ∷ more))
inserted id x m messages more = ground (arith, contains-keys-insert x id m messages)

contains-observed :
    (source : String) (rows : List (String × String)) (messages : Dict Message) (new repeated : ℕ)
    (id : String)
    → contains id (keys (observe_rows source rows messages new repeated).0)
      ≡ (contains id (keys messages) || contains id (message_ids rows))
unfolding observe_rows
contains-observed source [] messages new repeated id = ground arith
contains-observed source ((x, hash) ∷ rows) messages new repeated id =
    let m = observed hash source (lookup x messages) in
    contains-observed source rows (insert x m messages) _ _ id
    ∙ inserted id x m messages (message_ids rows)

IsDistinct-observed :
    (source : String) (rows : List (String × String)) (messages : Dict Message) (new repeated : ℕ)
    → IsDistinct (keys messages)
    → IsDistinct (keys (observe_rows source rows messages new repeated).0)
unfolding observe_rows
IsDistinct-observed source [] messages new repeated h = h
IsDistinct-observed source ((x, hash) ∷ rows) messages new repeated h =
    let m = observed hash source (lookup x messages) in
    IsDistinct-observed source rows (insert x m messages) _ _ (IsDistinct-insert x m messages h)

concat_windows :
    (ws : List Window) (w : Window) (id : String)
    → contains id (concat (ids_of_windows (ws ++ w ∷ [])))
      ≡ (contains id (concat (ids_of_windows ws)) || contains id w.message_ids)
concat_windows [] w id = ground (arith, contains-append id w.message_ids [])
concat_windows (v ∷ ws) w id = ground (
  arith,
  concat_windows ws w id,
  contains-append id v.message_ids (concat (ids_of_windows ws)),
  contains-append id v.message_ids (concat (ids_of_windows (ws ++ w ∷ []))),
)

-- The messages are those of the windows, each once, and are counted.
pub record HoldsIds (c : ScrollCoverage) (id : String) : Type 0 where
  pub same_ids : contains id (keys c.messages) ≡ contains id (concat (ids_of_windows c.windows))
  pub distinct : IsDistinct (keys c.messages)
  pub counted : c.unique_message_count ≡ length c.messages

add_window-HoldsIds :
    (rt : Runtime) (observation : Fields) (rows : List (String × String)) (c : ScrollCoverage)
    (id : String)
    → HoldsIds c id
    → HoldsIds (add_window rt observation rows c) id
unfolding add_window recompute update_scan_stability window_made
add_window-HoldsIds rt observation rows c id h =
    let source = text_of rt "source" observation in
    record {
      same_ids =
          contains-observed source rows c.messages 0 0 id
          ∙ ap (λ b. b || contains id (message_ids rows)) h.same_ids
          ∙ sym (concat_windows c.windows (window_made rt observation rows _) id);
      distinct = IsDistinct-observed source rows c.messages 0 0 h.distinct;
      counted = refl;
    }

bound-HoldsIds :
    (rt : Runtime) (observation : Fields) (rows : List (String × String)) (c : ScrollCoverage)
    (o : Option Window) (id : String) {c' : ScrollCoverage}
    → HoldsIds c id
    → bound_window rt observation rows c o ≡ ok c'
    → HoldsIds c' id
bound-HoldsIds rt observation rows c none id {c'} h q =
    let made : c' ≡ add_window rt observation rows c = ground arith in
    rw made (add_window-HoldsIds rt observation rows c id h)
bound-HoldsIds rt observation rows c (some w) id {c'} h q =
    let kept : c' ≡ c = ground arith in rw kept h

merge-HoldsIds :
    (rt : Runtime) (c : ScrollCoverage) (observation : Fields) (id : String) {c' : ScrollCoverage}
    → HoldsIds c id
    → merge_capture_window rt c observation ≡ ok c'
    → HoldsIds c' id
unfolding merge_capture_window
merge-HoldsIds rt c observation id h q =
    let read = safe_message_rows rt (get "messages" observation) in
    let no_id = is_empty (text_of rt "window_id" observation) in
    let no_source = not (contains (text_of rt "source" observation) scroll_sources) in
    let no_direction = not (contains (text_of rt "direction" observation) directions) in
    let window = find_window (text_of rt "window_id" observation) c.windows in
    let bound = bound_window rt observation read.0 (with_invalid read.1 c) window in
    let directed = if no_direction then err unsupported_direction else bound in
    let sourced = if no_source then err unsupported_source else directed in
    let named = if no_id then err window_id_required else sourced in
    bound-HoldsIds rt observation read.0 (with_invalid read.1 c) window id
      (record { same_ids = h.same_ids; distinct = h.distinct; counted = h.counted })
      (past no_direction unsupported_direction bound (
        past no_source unsupported_source directed (
          past no_id window_id_required sourced
            (past (not (is_text scroll_schema c.schema)) unsupported_schema named q))))

merge_all-HoldsIds :
    (rt : Runtime) (c : ScrollCoverage) (observations : List Fields) (id : String)
    {c' : ScrollCoverage}
    → HoldsIds c id
    → merge_all rt c observations ≡ ok c'
    → HoldsIds c' id
unfolding merge_all
merge_all-HoldsIds rt c [] id {c'} h q = let same : c' ≡ c = ground arith in rw same h
merge_all-HoldsIds rt c (o ∷ os) id h q =
    let (c1, first, others) =
      >>=-eq-ok (merge_capture_window rt c o) (λ c'. merge_all rt c' os) q in
    merge_all-HoldsIds rt c1 os id (merge-HoldsIds rt c o id h first) others

new-HoldsIds :
    (capture_id id : String) {c : ScrollCoverage}
    → new_virtual_scroll_coverage capture_id ≡ ok c
    → HoldsIds c id
unfolding new_virtual_scroll_coverage
new-HoldsIds capture_id id {c} q =
    let made : c ≡ empty_coverage capture_id = ground arith in
    rw made (record { same_ids = refl; distinct = tt; counted = refl })

-- Whatever windows are merged into a new coverage, its messages are those of the windows that it
-- holds: an id is one of a message exactly if it stands in a window, no message stands twice, and
-- their number is the one that the coverage reports.
pub coverage-HoldsIds :
    (rt : Runtime) (capture_id : String) (observations : List Fields) (id : String)
    {start c : ScrollCoverage}
    → new_virtual_scroll_coverage capture_id ≡ ok start
    → merge_all rt start observations ≡ ok c
    → HoldsIds c id
coverage-HoldsIds rt capture_id observations id made grown =
    merge_all-HoldsIds rt _ observations id (new-HoldsIds capture_id id made) grown
