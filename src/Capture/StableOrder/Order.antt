-- ===== src/Capture/StableOrder/Order.antt =====
-- What the order of messages promises: it is an order of the ids, it follows the chains unless it
-- reports a conflict, and it reports one only if no order follows them.
use discord_context_bridge.Capture.StableOrder.Remaining.{
  remaining-none, remaining-zero, contains-taken_after, length-order,
}
use discord_context_bridge.Shared.{
  true, false, [], ◌∷◌, inl, inr, List, String, IsDistinct, ◌≡◌, contains, ◌||◌, ◌+◌, arith,
  Bool-cases, length, str_eq, eq_iff, refl, ap, sym, ◌∙◌, Bool, ◌≤◌, all, ◌&&◌, not,
}
use discord_context_bridge.Capture.StableOrder.{
  has_edge, Graph, add_chains, no_edges, roots, drain, List, String, length, str_eq, Bool,
}
use discord_context_bridge.Capture.StableOrder.Degrees.{open_edges, Follows, taken_after, remaining}
use discord_context_bridge.Capture.StableOrder.Heap.{IsHeap, IsOrder, drain-IsOrder}
use discord_context_bridge.Capture.StableOrder.Edges.{
  chains_among, precedes, follows_chains, follows_edges, follows-add_chains, IsCounted,
  add_chains-IsCounted, no_edges-IsCounted, contains-roots, IsDistinct-roots,
}

closed-edge :
    (edges : List (String × String)) (taken : List String) (l r : String)
    → has_edge l r edges ≡ true
    → open_edges edges taken r ≡ 0
    → contains l taken ≡ true
closed-edge [] taken l r has none_open = absurd cc
closed-edge ((l', r') ∷ edges) taken l r has none_open =
    ground (arith, eq_iff l' l, eq_iff r' r, eq_iff r r, closed-edge edges taken l r)

Follows-precedes :
    (edges : List (String × String)) (taken xs : List String) (l r : String)
    → has_edge l r edges ≡ true
    → contains l taken ≡ false
    → contains r xs ≡ true
    → Follows edges taken xs
    → precedes l r xs ≡ true
Follows-precedes edges taken [] l r has new stands h = absurd cc
Follows-precedes edges taken (x ∷ xs) l r has new stands h = elim (Bool-cases (str_eq x r)) [
  | inl same ↦
      let x_is : x ≡ r = (eq_iff x r).0 same in
      let closed : contains l taken ≡ true =
        closed-edge edges taken l r has (ap (open_edges edges taken) (sym x_is) ∙ h.0) in
      absurd (cc (closed, new))
  | inr other ↦ ground (
    arith,
    eq_iff x l,
    eq_iff l x,
    eq_iff r x,
    eq_iff x r,
    other,
    Follows-precedes edges (x ∷ taken) xs l r has,
    h.1,
  )
]

all-follow :
    (order : List String) (edges : List (String × String))
    → ((l r : String) → has_edge l r edges ≡ true → precedes l r order ≡ true)
    → follows_edges order edges ≡ true
all-follow order [] h = refl
all-follow order ((l', r') ∷ edges) h = ground (
  arith,
  eq_iff l' l',
  eq_iff r' r',
  h l' r',
  all-follow order edges (λ l r has. h l r (ground (arith, has))),
)

edge-inside :
    (p : String × String → Bool) (edges : List (String × String)) (l r : String)
    → all p edges ≡ true
    → has_edge l r edges ≡ true
    → p (l, r) ≡ true
edge-inside p [] l r h has = absurd cc
edge-inside p ((l', r') ∷ edges) l r h has = elim (Bool-cases (str_eq l' l && str_eq r' r)) [
  | inl same ↦
      let l_same : l' ≡ l = (eq_iff l' l).0 (ground (arith, same)) in
      let r_same : r' ≡ r = (eq_iff r' r).0 (ground (arith, same)) in
      let first : p (l', r') ≡ true = ground (arith, h) in cc (l_same, r_same, first)
  | inr other ↦ edge-inside p edges l r (ground (arith, h)) (ground (arith, has, other))
]

-- An open edge to an id, where there are some.
open-edge :
    (edges : List (String × String)) (taken : List String) (r : String)
    → 1 ≤ open_edges edges taken r
    → (l : String) × (has_edge l r edges ≡ true) × (contains l taken ≡ false)
open-edge [] taken r h = absurd (omega arith)
open-edge ((l', r') ∷ edges) taken r h =
    elim (Bool-cases (str_eq r r' && not (contains l' taken))) [
      | inl free ↦
          (l', ground (arith, eq_iff l' l', eq_iff r r', eq_iff r' r, free), ground (arith, free))
      | inr shut ↦
          let found = open-edge edges taken r (ground (arith, h, shut)) in
          (found.0, ground (arith, found.1), found.2)
    ]

-- Where every id that is not taken out has an open edge, an order that follows the edges has taken
-- them all out.
settled :
    (ids taken order : List String) (edges : List (String × String))
    → ((t : String)
        → contains t ids ≡ true
        → contains t taken ≡ false
        → 1 ≤ open_edges edges taken t)
    → ((l r : String) → has_edge l r edges ≡ true → contains l ids ≡ true)
    → ((l r : String)
        → has_edge l r edges ≡ true
        → (contains l taken || precedes l r order || contains r taken) ≡ true)
    → (t : String) → contains t order ≡ true
    → contains t ids ≡ true
    → contains t taken ≡ true
settled ids taken [] edges left sources cover t stands known = absurd cc
settled ids taken (x ∷ order) edges left sources cover t stands known =
    let head : contains x ids ≡ true → contains x taken ≡ true = λ x_known.
      elim (Bool-cases (contains x taken)) [
        | inl old ↦ old
        | inr new ↦
            let found = open-edge edges taken x (left x x_known new) in
            absurd (ground (arith, eq_iff x x, cover found.0 x found.1, found.2, new))
      ] in
    let rest =
      settled ids taken order edges left sources
        (λ l r has. ground (arith, eq_iff x l, cover l r has, sources l r has, head)) t in
    ground (arith, eq_iff t x, rest, head, known, stands)

abbrev graph_of : List String → List (List String) → Graph
graph_of ids chains = add_chains chains (record { edges = []; indegree = no_edges ids })

abbrev pub drained : List String → List (List String) → List String
drained ids chains =
    let g = graph_of ids chains in
    drain ids g.edges (length ids) g.indegree (roots ids g.indegree ids)

pub drained-IsOrder :
    (ids : List String) (chains : List (List String))
    → IsDistinct ids
    → chains_among ids chains ≡ true
    → IsOrder ids (graph_of ids chains).edges [] (drained ids chains)
drained-IsOrder ids chains distinct among =
    let g = graph_of ids chains in
    let c : IsCounted ids g = add_chains-IsCounted ids chains _ among (no_edges-IsCounted ids) in
    let heap : IsHeap ids g.edges [] [] g.indegree (roots ids g.indegree ids) = record {
      counted = λ t. omega (arith, c.counted t);
      closed = λ t stands. ground (arith, contains-roots ids g.indegree t ids, stands);
      distinct = IsDistinct-roots ids g.indegree ids distinct;
      apart = λ t stands. refl;
      reached = λ t known zero. ground (arith, contains-roots ids g.indegree t ids, known, zero);
      known = λ t stands. ground (arith, contains-roots ids g.indegree t ids, stands);
    } in
    drain-IsOrder g.edges ids (length ids) [] g.indegree (roots ids g.indegree ids) c.inside
      (omega (arith, remaining-none ids)) heap

-- All ids are taken out exactly if as many are taken out as there are.
pub drained-length :
    (ids : List String) (chains : List (List String))
    → IsDistinct ids
    → chains_among ids chains ≡ true
    → length (drained ids chains) + remaining ids (taken_after [] (drained ids chains)) ≡ length ids
drained-length ids chains distinct among =
    let o = drained-IsOrder ids chains distinct among in
    omega (
      arith,
      length-order ids [] (drained ids chains) distinct o.once o.fresh o.known,
      remaining-none ids,
    )

pub drained-follows :
    (ids : List String) (chains : List (List String))
    → IsDistinct ids
    → chains_among ids chains ≡ true
    → remaining ids (taken_after [] (drained ids chains)) ≡ 0
    → follows_chains (drained ids chains) chains ≡ true
drained-follows ids chains distinct among all_out =
    let o = drained-IsOrder ids chains distinct among in
    let c : IsCounted ids (graph_of ids chains) =
      add_chains-IsCounted ids chains _ among (no_edges-IsCounted ids) in
    let edges : follows_edges (drained ids chains) (graph_of ids chains).edges ≡ true =
      all-follow (drained ids chains) (graph_of ids chains).edges (λ l r has.
        let r_known : contains r ids ≡ true =
          edge-inside (λ e. contains e.1 ids) (graph_of ids chains).edges l r c.inside has in
        let r_out : contains r (drained ids chains) ≡ true = ground (
          arith,
          remaining-zero ids r (taken_after [] (drained ids chains)) all_out r_known,
          contains-taken_after r [] (drained ids chains),
        ) in
        Follows-precedes (graph_of ids chains).edges [] (drained ids chains) l r has refl r_out
          o.after) in
    ground (
      arith,
      follows-add_chains (drained ids chains) chains
          (record { edges = []; indegree = no_edges ids }),
      edges,
    )

-- An order that follows the chains is proof that all ids are taken out.
pub followed-drained :
    (ids : List String) (chains : List (List String)) (order : List String)
    → IsDistinct ids
    → chains_among ids chains ≡ true
    → follows_chains order chains ≡ true
    → (t : String) → contains t order ≡ true
    → contains t ids ≡ true
    → contains t (taken_after [] (drained ids chains)) ≡ true
followed-drained ids chains order distinct among follows =
    let o = drained-IsOrder ids chains distinct among in
    let c : IsCounted ids (graph_of ids chains) =
      add_chains-IsCounted ids chains _ among (no_edges-IsCounted ids) in
    let edges : follows_edges order (graph_of ids chains).edges ≡ true = ground (
      arith,
      follows-add_chains order chains (record { edges = []; indegree = no_edges ids }),
      follows,
    ) in
    settled ids (taken_after [] (drained ids chains)) order (graph_of ids chains).edges o.left
      (λ l r has. edge-inside (λ e. contains e.0 ids) (graph_of ids chains).edges l r c.sources has)
      (λ l r has. ground (
        arith,
        edge-inside (λ e. precedes e.0 e.1 order) (graph_of ids chains).edges l r edges has,
      ))
