-- ===== src/Capture/StableOrder.antt =====
-- The stable topological order of capture/virtual_scroll.py (`_ordered_ids`) and of
-- capture/message_ledger.py (`_ordered_message_ids`): ids in the order of the observations, and of
-- first observation where these leave it open. A heap is the list of its ids in order of first
-- observation.
pub mod Degrees
pub mod Heap
pub mod Edges
pub mod Remaining
pub mod Order
pub mod Promise
mod Tests
-- `first_seen[id]`
use discord_context_bridge.Shared.{
  Dict, List, String, ◌∷◌, ℕ, Bool, if◌then◌else◌, lookup, [], str_eq, ◌-◌, leb, false, ◌==◌,
  insert, ◌&&◌, length, ◌+◌, suc, ◌||◌, true, ◌++◌, none, some, zero,
}

abbrev pub first_seen : String → List String → ℕ
first_seen id [] = 0
first_seen id (x ∷ xs) = if str_eq x id then 0 else 1 + first_seen id xs

abbrev has_edge : String → String → List (String × String) → Bool
has_edge l r [] = false
has_edge l r ((l', r') ∷ edges) = (str_eq l' l && str_eq r' r) || has_edge l r edges

-- The edges and the number of edges to each id.
pub record Graph : Type 0 where
  pub edges : List (String × String)
  pub indegree : Dict ℕ

abbrev pub degree : Dict ℕ → String → ℕ
degree d id = elim (lookup id d) [ none ↦ 0 | some n ↦ n ]

-- One pair of neighbours: an edge, if it is new and no loop.
unfoldable pub add_edge : String → String → Graph → Graph
add_edge l r g = if str_eq l r || has_edge l r g.edges then g else record {
  edges = g.edges ++ (l, r) ∷ [];
  indegree = insert r (degree g.indegree r + 1) g.indegree;
}

-- `for left, right in zip(ids, ids[1:])`
unfoldable pub add_chain : List String → Graph → Graph
add_chain [] g = g
add_chain (x ∷ []) g = g
add_chain (x ∷ y ∷ xs) g = add_chain (y ∷ xs) (add_edge x y g)

unfoldable pub add_chains : List (List String) → Graph → Graph
add_chains [] g = g
add_chains (c ∷ cs) g = add_chains cs (add_chain c g)

abbrev no_edges : List String → Dict ℕ
no_edges [] = []
no_edges (x ∷ xs) = (x, 0) ∷ no_edges xs

-- `heappush(ready, (first_seen[id], id))`
unfoldable pub push : List String → String → List String → List String
push ids id [] = id ∷ []
push ids id (x ∷ xs) =
    let rest = push ids id xs in
    if leb (first_seen id ids) (first_seen x ids) then id ∷ x ∷ xs else x ∷ rest

unfoldable pub roots : List String → Dict ℕ → List String → List String
roots ids d [] = []
roots ids d (x ∷ xs) =
    let rest = roots ids d xs in if degree d x == 0 then push ids x rest else rest

-- `sorted(edges[id], key=first_seen.__getitem__)`
unfoldable pub targets : List String → String → List (String × String) → List String
targets ids id [] = []
targets ids id ((l, r) ∷ edges) =
    let rest = targets ids id edges in if str_eq l id then push ids r rest else rest

-- The targets of an id that was taken out: one edge less to each, and ready at none.
unfoldable pub release : List String → List String → Dict ℕ → List String → Dict ℕ × List String
release ids [] d ready = (d, ready)
release ids (t ∷ ts) d ready =
    let n = degree d t - 1 in
    release ids ts (insert t n d) (if n == 0 then push ids t ready else ready)

-- `while ready`, on fuel: every id is taken out at most once, so that as much fuel as there are ids
-- is enough.
unfoldable pub drain : List String → List (String × String) → ℕ → Dict ℕ → List String → List String
drain ids edges zero d ready = []
drain ids edges (suc fuel) d [] = []
drain ids edges (suc fuel) d (x ∷ ready) =
    let (d', ready') = release ids (targets ids x edges) d ready in
    x ∷ drain ids edges fuel d' ready'

-- The order of the ids that the chains give, and whether they conflict.
unfoldable pub stable_order : List String → List (List String) → List String × Bool
stable_order ids chains =
    let g = add_chains chains (record { edges = []; indegree = no_edges ids }) in
    let result = drain ids g.edges (length ids) g.indegree (roots ids g.indegree ids) in
    if length result == length ids then (result, false) else (ids, true)
