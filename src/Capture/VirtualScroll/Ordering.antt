-- ===== src/Capture/VirtualScroll/Ordering.antt =====
-- The order of the messages of a coverage.
use discord_context_bridge.Shared.{
  true, [], ◌∷◌, List, String, IsDistinct, all, contains, ◌≡◌, ◌++◌, arith, dedupe, contains-dedupe,
  refl, ◌∙◌, IsDistinct-dedupe,
}
use discord_context_bridge.Capture.StableOrder.Edges.{chains_among}
use discord_context_bridge.Capture.StableOrder.Promise.{stable_order-rearranges, contains-all}
use discord_context_bridge.Capture.VirtualScroll.{
  Window, ids_of_windows, concat, ordered_ids, List, String, contains, dedupe,
}

split-append :
    (ids xs ys : List String)
    → all (λ x. contains x ids) (xs ++ ys) ≡ true
    → (all (λ x. contains x ids) xs ≡ true) × (all (λ x. contains x ids) ys ≡ true)
split-append ids [] ys h = (refl, h)
split-append ids (x ∷ xs) ys h =
    let (left, right) = split-append ids xs ys (ground (arith, h)) in
    (ground (arith, h, left), right)

among-concat :
    (ids : List String) (chains : List (List String))
    → all (λ x. contains x ids) (concat chains) ≡ true
    → chains_among ids chains ≡ true
among-concat ids [] h = refl
among-concat ids (c ∷ cs) h =
    let (first, rest) = split-append ids c (concat cs) h in
    ground (arith, first, among-concat ids cs rest)

-- The order of a coverage holds the ids of its windows, each once.
pub ordered_ids-rearranges :
    (ws : List Window) (id : String)
    → IsDistinct (ordered_ids ws)
      × (contains id (ordered_ids ws) ≡ contains id (concat (ids_of_windows ws)))
unfolding ordered_ids
ordered_ids-rearranges ws id =
    let ids = concat (ids_of_windows ws) in
    let among : chains_among (dedupe ids) (ids_of_windows ws) ≡ true =
      among-concat (dedupe ids) (ids_of_windows ws)
        (contains-all ids (dedupe ids) (λ t known. contains-dedupe t ids ∙ known)) in
    let (once, same) =
      stable_order-rearranges (dedupe ids) (ids_of_windows ws) id (IsDistinct-dedupe ids) among in
    (once, same ∙ contains-dedupe id ids)
