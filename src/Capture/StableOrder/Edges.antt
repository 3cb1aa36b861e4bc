-- ===== src/Capture/StableOrder/Edges.antt =====
-- The graph that the chains give: its edges are their neighbours, and it counts them by target.
use discord_context_bridge.Shared.{
  true, false, [], ◌∷◌, inl, inr, List, String, ◌++◌, Bool, ◌≡◌, all, str_eq, ◌&&◌, Bool-cases,
  ◌||◌, contains, eq_iff, arith, not, ◌+◌, lookup, Dict, refl, ℕ, IsDistinct, ◌==◌,
}
use discord_context_bridge.Capture.StableOrder.{
  degree, has_edge, Graph, add_edge, add_chain, add_chains, no_edges, roots, List, String, Bool,
  str_eq, lookup, Dict, ℕ,
}
use discord_context_bridge.Capture.StableOrder.Degrees.{
  one_if, open_edges, degree-insert, contains-push, IsDistinct-push,
}

-- The ids of the chains are among `ids`.
abbrev pub chains_among : List String → List (List String) → Bool
chains_among ids chains = all (λ c. all (λ x. contains x ids) c) chains

-- Of two ids, the first stands in a list, before every place of the second.
abbrev pub precedes : String → String → List String → Bool
precedes l r [] = false
precedes l r (x ∷ xs) = not (str_eq x r) && (str_eq x l || precedes l r xs)

-- Of two neighbours in a chain, the first precedes the second in a list.
abbrev pub follows_chain : List String → List String → Bool
follows_chain order [] = true
follows_chain order (x ∷ []) = true
follows_chain order (x ∷ y ∷ xs) =
    (str_eq x y || precedes x y order) && follows_chain order (y ∷ xs)

abbrev pub follows_chains : List String → List (List String) → Bool
follows_chains order chains = all (follows_chain order) chains

abbrev pub follows_edges : List String → List (String × String) → Bool
follows_edges order edges = all (λ e. precedes e.0 e.1 order) edges

all-append :
    (p : String × String → Bool) (edges : List (String × String)) (e : String × String)
    → all p (edges ++ e ∷ []) ≡ (all p edges && p e)
all-append p [] e = ground arith
all-append p (d ∷ edges) e = ground (arith, all-append p edges e)

follows-has_edge :
    (order : List String) (edges : List (String × String)) (l r : String)
    → has_edge l r edges ≡ true
    → follows_edges order edges ≡ true
    → precedes l r order ≡ true
follows-has_edge order [] l r has h = absurd cc
follows-has_edge order ((l', r') ∷ edges) l r has h =
    elim (Bool-cases (str_eq l' l && str_eq r' r)) [
      | inl same ↦
          let l_same : l' ≡ l = (eq_iff l' l).0 (ground (arith, same)) in
          let r_same : r' ≡ r = (eq_iff r' r).0 (ground (arith, same)) in
          let first : precedes l' r' order ≡ true = ground (arith, h) in cc (l_same, r_same, first)
      | inr other ↦
          follows-has_edge order edges l r (ground (arith, has, other)) (ground (arith, h))
    ]

-- The edges are those before and the neighbours of the chain.
follows-add_edge :
    (order : List String) (l r : String) (g : Graph)
    → follows_edges order (add_edge l r g).edges
      ≡ (follows_edges order g.edges && (str_eq l r || precedes l r order))
unfolding add_edge
follows-add_edge order l r g = ground (
  arith,
  all-append (λ e. precedes e.0 e.1 order) g.edges (l, r),
  follows-has_edge order g.edges l r,
)

follows-add_chain :
    (order chain : List String) (g : Graph)
    → follows_edges order (add_chain chain g).edges
      ≡ (follows_edges order g.edges && follows_chain order chain)
unfolding add_chain
follows-add_chain order [] g = ground arith
follows-add_chain order (x ∷ []) g = ground arith
follows-add_chain order (x ∷ y ∷ xs) g =
    ground (arith, follows-add_chain order (y ∷ xs) (add_edge x y g), follows-add_edge order x y g)

-- An order follows the edges of the graph exactly if it follows the chains.
pub follows-add_chains :
    (order : List String) (chains : List (List String)) (g : Graph)
    → follows_edges order (add_chains chains g).edges
      ≡ (follows_edges order g.edges && follows_chains order chains)
unfolding add_chains
follows-add_chains order [] g = ground arith
follows-add_chains order (c ∷ cs) g =
    ground (arith, follows-add_chains order cs (add_chain c g), follows-add_chain order c g)

-- Every end of an edge is an id, and the degrees are the numbers of edges.
pub record IsCounted (ids : List String) (g : Graph) : Type 0 where
  pub sources : all (λ e. contains e.0 ids) g.edges ≡ true
  pub inside : all (λ e. contains e.1 ids) g.edges ≡ true
  pub counted : (t : String) → degree g.indegree t ≡ open_edges g.edges [] t

open_edges-append :
    (edges : List (String × String)) (l r t : String)
    → open_edges (edges ++ (l, r) ∷ []) [] t ≡ open_edges edges [] t + one_if (str_eq t r)
open_edges-append [] l r t = ground arith
open_edges-append ((l', r') ∷ edges) l r t = ground (arith, open_edges-append edges l r t)

add_edge-IsCounted :
    (ids : List String) (l r : String) (g : Graph)
    → contains l ids ≡ true
    → contains r ids ≡ true
    → IsCounted ids g
    → IsCounted ids (add_edge l r g)
unfolding add_edge
add_edge-IsCounted ids l r g l_known r_known h =
    elim (Bool-cases (str_eq l r || has_edge l r g.edges)) [
      | inl old ↦ rw old h
      | inr new ↦ rw new (record {
        inside = ground (arith, all-append (λ e. contains e.1 ids) g.edges (l, r), h.inside);
        sources = ground (arith, all-append (λ e. contains e.0 ids) g.edges (l, r), h.sources);
        counted = λ t. ground (
          arith,
          eq_iff t r,
          open_edges-append g.edges l r t,
          h.counted t,
          degree-insert r t (degree g.indegree r + 1) g.indegree,
        );
      })
    ]

add_chain-IsCounted :
    (ids chain : List String) (g : Graph)
    → all (λ x. contains x ids) chain ≡ true
    → IsCounted ids g
    → IsCounted ids (add_chain chain g)
unfolding add_chain
add_chain-IsCounted ids [] g among h = h
add_chain-IsCounted ids (x ∷ []) g among h = h
add_chain-IsCounted ids (x ∷ y ∷ xs) g among h =
    add_chain-IsCounted ids (y ∷ xs) (add_edge x y g) (ground arith)
      (add_edge-IsCounted ids x y g (ground arith) (ground arith) h)

pub add_chains-IsCounted :
    (ids : List String) (chains : List (List String)) (g : Graph)
    → chains_among ids chains ≡ true
    → IsCounted ids g
    → IsCounted ids (add_chains chains g)
unfolding add_chains
add_chains-IsCounted ids [] g among h = h
add_chains-IsCounted ids (c ∷ cs) g among h =
    add_chains-IsCounted ids cs (add_chain c g) (ground arith)
      (add_chain-IsCounted ids c g (ground arith) h)

no_edges-degree : (ids : List String) (t : String) → degree (no_edges ids) t ≡ 0
unfolding lookup
no_edges-degree [] t = refl
no_edges-degree (x ∷ ids) t = ground (arith, no_edges-degree ids t)

pub no_edges-IsCounted :
    (ids : List String) → IsCounted ids (record { edges = []; indegree = no_edges ids })
no_edges-IsCounted ids = record { sources = refl; inside = refl; counted = no_edges-degree ids }

pub contains-roots :
    (ids : List String) (d : Dict ℕ) (t : String) (xs : List String)
    → contains t (roots ids d xs) ≡ (contains t xs && degree d t == 0)
unfolding roots
contains-roots ids d t [] = refl
contains-roots ids d t (x ∷ xs) =
    ground (arith, eq_iff t x, contains-push ids t x (roots ids d xs), contains-roots ids d t xs)

pub IsDistinct-roots :
    (ids : List String) (d : Dict ℕ) (xs : List String)
    → IsDistinct xs
    → IsDistinct (roots ids d xs)
unfolding roots
IsDistinct-roots ids d [] h = tt
IsDistinct-roots ids d (x ∷ xs) h = ground (
  arith,
  contains-roots ids d x xs,
  IsDistinct-push ids x (roots ids d xs),
  IsDistinct-roots ids d xs h.1,
  h.0,
)
