-- ===== src/Capture/MessageLedger/Ordering.antt =====
-- The order of the messages of a ledger.
use discord_context_bridge.Shared.{
  true, false, none, some, [], ◌∷◌, lookup, List, insert, String, ◌≡◌, dedupe, contains-dedupe,
  Option, ◌↔◌, ℕ, Dict, IsDistinct, contains, ◌∙◌, all, IsDistinct-dedupe, refl, arith, ◌&&◌,
  str_eq, Bool, if◌then◌else◌,
}
use discord_context_bridge.Capture.StableOrder.Edges.{chains_among, follows_chains}
use discord_context_bridge.Capture.StableOrder.Promise.{
  stable_order-rearranges, stable_order-conflict, contains-all,
}
use discord_context_bridge.Capture.MessageLedger.{
  Event, List, String, ℕ, Option, contains, all, str_eq, Bool,
}
use discord_context_bridge.Capture.MessageLedger.Reduction.{
  insert_row, rows_of_window, add_row, windows_of, chain_ids, window_chains, event_messages,
  ordered_message_ids,
}

if-among :
    (ids : List String) (b : Bool) (xs ys : List (ℕ × String))
    → all (λ x. contains x ids) (chain_ids xs) ≡ true
    → all (λ x. contains x ids) (chain_ids ys) ≡ true
    → all (λ x. contains x ids) (chain_ids (if b then xs else ys)) ≡ true
if-among ids true xs ys hx hy = hx
if-among ids false xs ys hx hy = hy

insert_row-among :
    (ids : List String) (n : ℕ) (id : String) (rows : List (ℕ × String))
    → contains id ids ≡ true
    → all (λ x. contains x ids) (chain_ids rows) ≡ true
    → all (λ x. contains x ids) (chain_ids (insert_row n id rows)) ≡ true
unfolding insert_row
insert_row-among ids n id [] known h = ground arith
insert_row-among ids n id ((m, x) ∷ rows) known h =
    if-among ids _ ((n, id) ∷ (m, x) ∷ rows) ((m, x) ∷ insert_row n id rows)
      (ground (arith, known, h)) (ground (arith, h, insert_row-among ids n id rows known))

insert-among :
    (ids : List String) (w : String) (rows : List (ℕ × String)) (windows : Dict (List (ℕ × String)))
    → all (λ x. contains x ids) (chain_ids rows) ≡ true
    → chains_among ids (window_chains windows) ≡ true
    → chains_among ids (window_chains (insert w rows windows)) ≡ true
unfolding insert
insert-among ids w rows [] inside h = ground arith
insert-among ids w rows ((v, old) ∷ windows) inside h =
    ground (arith, insert-among ids w rows windows inside)

rows-among :
    (ids : List String) (w : String) (windows : Dict (List (ℕ × String)))
    → chains_among ids (window_chains windows) ≡ true
    → all (λ x. contains x ids) (chain_ids (rows_of_window w windows)) ≡ true
unfolding lookup
rows-among ids w [] h = refl
rows-among ids w ((v, rows) ∷ windows) h =
    elim (str_eq w v)
      as (λ b.
        all (λ x. contains x ids)
          (chain_ids (elim (if b then some rows else lookup w windows) as (λ x. List (ℕ × String)) [
            | none ↦ []
            | some found ↦ found
          ]))
        ≡ true) [ true ↦ ground (arith, h) | false ↦ rows-among ids w windows (ground (arith, h)) ]

add_row-among :
    (ids : List String) (id : String) (w : Option (String × ℕ)) (windows : Dict (List (ℕ × String)))
    → contains id ids ≡ true
    → chains_among ids (window_chains windows) ≡ true
    → chains_among ids (window_chains (add_row id w windows)) ≡ true
add_row-among ids id none windows known h = h
add_row-among ids id (some (w, n)) windows known h =
    insert-among ids w _ windows
      (insert_row-among ids n id (rows_of_window w windows) known (rows-among ids w windows h)) h

windows_of-among :
    (ids : List String) (es : List Event) (windows : Dict (List (ℕ × String)))
    → all (λ x. contains x ids) (event_messages es) ≡ true
    → chains_among ids (window_chains windows) ≡ true
    → chains_among ids (window_chains (windows_of es windows)) ≡ true
unfolding windows_of
windows_of-among ids [] windows known h = h
windows_of-among ids (e ∷ es) windows known h =
    windows_of-among ids es (add_row e.message_id e.window windows) (ground (arith, known))
      (add_row-among ids e.message_id e.window windows (ground (arith, known)) h)

abbrev pub event_chains : List Event → List (List String)
event_chains es = window_chains (windows_of es [])

chains-among :
    (es : List Event) → chains_among (dedupe (event_messages es)) (event_chains es) ≡ true
chains-among es =
    windows_of-among (dedupe (event_messages es)) es []
      (contains-all (event_messages es) (dedupe (event_messages es))
        (λ t known. contains-dedupe t (event_messages es) ∙ known))
      refl

-- The messages of a ledger are ordered without loss: each stands once, whether or not the windows
-- conflict.
pub ordered_message_ids-rearranges :
    (es : List Event) (id : String)
    → IsDistinct (ordered_message_ids es).0
      × (contains id (ordered_message_ids es).0 ≡ contains id (event_messages es))
unfolding ordered_message_ids
ordered_message_ids-rearranges es id =
    let (once, same) =
      stable_order-rearranges (dedupe (event_messages es)) (event_chains es) id
        (IsDistinct-dedupe (event_messages es)) (chains-among es) in
    (once, same ∙ contains-dedupe id (event_messages es))

-- A ledger has no order conflict exactly if some order of its messages puts, in every window, each
-- message before the next.
pub ordered_message_ids-conflict :
    (es : List Event)
    → ((ordered_message_ids es).1 ≡ false) ↔ (
        (order : List String) × (all (λ x. contains x order) (dedupe (event_messages es))
            && follows_chains order (event_chains es)
          ≡ true))
unfolding ordered_message_ids
ordered_message_ids-conflict es =
    stable_order-conflict (dedupe (event_messages es)) (event_chains es)
      (IsDistinct-dedupe (event_messages es)) (chains-among es)
