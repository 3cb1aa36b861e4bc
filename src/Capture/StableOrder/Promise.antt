-- ===== src/Capture/StableOrder/Promise.antt =====
-- The promises of `stable_order`: it rearranges the ids, it follows the chains unless it reports a
-- conflict, and it reports one only where no order follows them.
use discord_context_bridge.Shared.{
  true, false, [], ◌∷◌, inl, inr, List, String, IsDistinct, contains, ◌≡◌, arith, ◌↔◌, Bool-cases,
  length, eq_iff, all, ◌==◌, refl, ◌&&◌, ◌∙◌,
}
use discord_context_bridge.Capture.StableOrder.{stable_order, List, String, length}
use discord_context_bridge.Capture.StableOrder.Degrees.{taken_after, remaining}
use discord_context_bridge.Capture.StableOrder.Edges.{chains_among, follows_chains}
use discord_context_bridge.Capture.StableOrder.Remaining.{remaining-zero, contains-taken_after}
use discord_context_bridge.Capture.StableOrder.Order.{
  drained, drained-IsOrder, drained-length, drained-follows, followed-drained,
}

none-remaining :
    (ids taken : List String)
    → ((t : String) → contains t ids ≡ true → contains t taken ≡ true)
    → remaining ids taken ≡ 0
none-remaining [] taken h = refl
none-remaining (x ∷ ids) taken h =
    let rest = none-remaining ids taken (λ t known. h t (ground (arith, known))) in
    ground (arith, eq_iff x x, h x, rest)

all-contains :
    (ids order : List String) (t : String)
    → all (λ x. contains x order) ids ≡ true
    → contains t ids ≡ true
    → contains t order ≡ true
all-contains [] order t h stands = absurd cc
all-contains (x ∷ ids) order t h stands = ground (arith, eq_iff t x, all-contains ids order t)

pub contains-all :
    (ids order : List String)
    → ((t : String) → contains t ids ≡ true → contains t order ≡ true)
    → all (λ x. contains x order) ids ≡ true
contains-all [] order h = refl
contains-all (x ∷ ids) order h =
    let rest = contains-all ids order (λ t known. h t (ground (arith, known))) in
    ground (arith, eq_iff x x, h x, rest)

-- The order holds the ids, each once, whether or not it reports a conflict.
pub stable_order-rearranges :
    (ids : List String) (chains : List (List String)) (t : String)
    → IsDistinct ids
    → chains_among ids chains ≡ true
    → IsDistinct (stable_order ids chains).0
      × (contains t (stable_order ids chains).0 ≡ contains t ids)
unfolding stable_order
stable_order-rearranges ids chains t distinct among =
    let o = drained-IsOrder ids chains distinct among in
    let sum = drained-length ids chains distinct among in
    elim (Bool-cases (length (drained ids chains) == length ids)) [
      | inr conflict ↦ rw conflict (distinct, refl)
      | inl whole ↦ rw whole (
        o.once,
        ground (
          arith,
          sum,
          whole,
          o.known t,
          remaining-zero ids t (taken_after [] (drained ids chains)),
          contains-taken_after t [] (drained ids chains),
        ),
      )
    ]

-- An order without a conflict follows the chains: of two neighbours in a chain, the first stands
-- before the second.
pub stable_order-follows :
    (ids : List String) (chains : List (List String))
    → IsDistinct ids
    → chains_among ids chains ≡ true
    → (stable_order ids chains).1 ≡ false
    → follows_chains (stable_order ids chains).0 chains ≡ true
unfolding stable_order
stable_order-follows ids chains distinct among calm =
    let sum = drained-length ids chains distinct among in
    elim (Bool-cases (length (drained ids chains) == length ids)) [
      | inr conflict ↦ absurd (ground (arith, calm, conflict))
      | inl whole ↦
          rw whole (drained-follows ids chains distinct among (ground (arith, sum, whole)))
    ]

-- A conflict is reported exactly if no order of the ids follows the chains.
pub stable_order-conflict :
    (ids : List String) (chains : List (List String))
    → IsDistinct ids
    → chains_among ids chains ≡ true
    → ((stable_order ids chains).1 ≡ false) ↔ (
        (order : List String) × (all (λ x. contains x order) ids && follows_chains order chains
          ≡ true))
unfolding stable_order
stable_order-conflict ids chains distinct among = (
  λ calm. (
    (stable_order ids chains).0,
    ground (
      arith,
      contains-all ids (stable_order ids chains).0
          (λ t known. (stable_order-rearranges ids chains t distinct among).1 ∙ known),
      stable_order-follows ids chains distinct among calm,
    ),
  ),
  λ (order, h).
      let sum = drained-length ids chains distinct among in
      let out = followed-drained ids chains order distinct among (ground (arith, h)) in
      let none_left : remaining ids (taken_after [] (drained ids chains)) ≡ 0 =
        none-remaining ids _
          (λ t known. out t (all-contains ids order t (ground (arith, h)) known) known) in
      let whole : (length (drained ids chains) == length ids) ≡ true =
        ground (arith, sum, none_left) in
      rw whole refl,
)
