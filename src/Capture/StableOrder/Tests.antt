-- ===== src/Capture/StableOrder/Tests.antt =====
-- The promises of the order at concrete chains.
use discord_context_bridge.Shared.{
  true, false, [], ◌∷◌, ◌≡◌, IsDistinct, lookup, List, String, insert, contains, refl,
}
use discord_context_bridge.Capture.StableOrder.{
  stable_order, add_chains, add_chain, add_edge, roots, push, drain, release, targets, List, lookup,
  String, insert,
}
use discord_context_bridge.Capture.StableOrder.Edges.{follows_chains}
use discord_context_bridge.Capture.StableOrder.Promise.{
  stable_order-rearranges, stable_order-follows,
}

abbrev three_ids : List String
three_ids = "a" ∷ "b" ∷ "c" ∷ []

abbrev two_chains : List (List String)
two_chains = ("b" ∷ "a" ∷ []) ∷ ("c" ∷ "b" ∷ []) ∷ []

stable_order-rearranges_example :
    IsDistinct (stable_order three_ids two_chains).0
    × (contains "b" (stable_order three_ids two_chains).0 ≡ contains "b" three_ids)
stable_order-rearranges_example =
    stable_order-rearranges three_ids two_chains "b" (refl, (refl, (refl, tt))) refl

stable_order-follows_example :
    follows_chains (stable_order three_ids two_chains).0 two_chains ≡ true
unfolding stable_order add_chains add_chain add_edge roots push drain release targets lookup insert
stable_order-follows_example =
    stable_order-follows three_ids two_chains (refl, (refl, (refl, tt))) refl refl

three_ordered : stable_order three_ids two_chains ≡ ("c" ∷ "b" ∷ "a" ∷ [], false)
unfolding stable_order add_chains add_chain add_edge roots push drain release targets lookup insert
three_ordered = refl

opposed : stable_order three_ids (("b" ∷ "a" ∷ []) ∷ ("a" ∷ "b" ∷ []) ∷ []) ≡ (three_ids, true)
unfolding stable_order add_chains add_chain add_edge roots push drain release targets lookup insert
opposed = refl
