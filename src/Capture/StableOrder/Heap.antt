-- ===== src/Capture/StableOrder/Heap.antt =====
-- The heap of the order of messages: what stands in it was never taken out.
use discord_context_bridge.Shared.{
  true, false, [], ◌∷◌, zero, suc, List, String, Dict, ℕ, insert, if◌then◌else◌, contains, ◌≡◌, ◌-◌,
  arith, ◌==◌, ◌+◌, ◌||◌, ◌≤◌, eq_iff, IsDistinct, all,
}
use discord_context_bridge.Capture.StableOrder.{
  degree, push, release, targets, drain, List, String, Dict, ℕ, insert,
}
use discord_context_bridge.Capture.StableOrder.Degrees.{
  occurrences, open_edges, degree-insert, contains-push, IsDistinct-push, open_edges-take, Follows,
  contains-targets, taken_after, remaining, remaining-take,
}

-- The state while the edges to `ts` are still to be released: the degree of an id is the number of
-- its open edges, and an id that was taken out or is ready has none.
pub record IsHeap (ids : List String) (edges : List (String × String)) (ts taken : List String)
    (d : Dict ℕ) (ready : List String) : Type 0 where
  pub counted : (t : String) → degree d t ≡ open_edges edges taken t + occurrences t ts
  pub closed : (t : String) → (contains t taken || contains t ready) ≡ true → degree d t ≡ 0
  pub distinct : IsDistinct ready
  pub apart : (t : String) → contains t ready ≡ true → contains t taken ≡ false
  pub reached :
      (t : String)
      → contains t ids ≡ true
      → degree d t ≡ 0
      → (contains t taken || contains t ready) ≡ true
  pub known : (t : String) → (contains t ready || contains t ts) ≡ true → contains t ids ≡ true

release-step :
    (edges : List (String × String)) (ids : List String) (t : String) (ts taken : List String)
    (d : Dict ℕ) (ready : List String)
    → IsHeap ids edges (t ∷ ts) taken d ready
    → IsHeap ids edges ts taken
        (insert t (degree d t - 1) d)
        (if degree d t - 1 == 0 then push ids t ready else ready)
release-step edges ids t ts taken d ready h =
    let positive : 1 ≤ degree d t = ground (arith, eq_iff t t, h.counted t) in
    let new : (contains t taken || contains t ready) ≡ false = ground (arith, h.closed t) in
    record {
      counted = λ u. ground (arith, eq_iff u t, h.counted u, degree-insert t u (degree d t - 1) d);
      closed = λ u closed. ground (
        arith,
        eq_iff u t,
        h.closed u,
        degree-insert t u (degree d t - 1) d,
        contains-push ids u t ready,
      );
      distinct = ground (arith, IsDistinct-push ids t ready, h.distinct);
      apart = λ u stands. ground (arith, eq_iff u t, h.apart u, contains-push ids u t ready);
      reached = λ u stands zero. ground (
        arith,
        eq_iff u t,
        h.reached u,
        degree-insert t u (degree d t - 1) d,
        contains-push ids u t ready,
      );
      known = λ u stands. ground (arith, eq_iff u t, h.known u, contains-push ids u t ready);
    }

pub release-IsHeap :
    (edges : List (String × String)) (ids ts taken : List String) (d : Dict ℕ) (ready : List String)
    → IsHeap ids edges ts taken d ready
    → IsHeap ids edges [] taken (release ids ts d ready).0 (release ids ts d ready).1
unfolding release
release-IsHeap edges ids [] taken d ready h = h
release-IsHeap edges ids (t ∷ ts) taken d ready h =
    release-IsHeap edges ids ts taken _ _ (release-step edges ids t ts taken d ready h)

-- The first id that is ready is taken out, and its targets are still to be released.
pub take-IsHeap :
    (edges : List (String × String)) (ids : List String) (x : String) (taken : List String)
    (d : Dict ℕ) (ready : List String)
    → all (λ e. contains e.1 ids) edges ≡ true
    → IsHeap ids edges [] taken d (x ∷ ready)
    → IsHeap ids edges (targets ids x edges) (x ∷ taken) d ready
take-IsHeap edges ids x taken d ready inside h =
    let new : contains x taken ≡ false = h.apart x (ground (arith, eq_iff x x)) in
    record {
      counted = λ u. ground (arith, h.counted u, open_edges-take ids x u edges taken new);
      closed = λ u closed. ground (arith, h.closed u);
      distinct = h.distinct.1;
      apart = λ u stands. ground (arith, eq_iff u x, h.apart u, h.distinct.0);
      reached = λ u stands zero. ground (arith, h.reached u);
      known = λ u stands. ground (arith, h.known u, contains-targets ids x u edges inside);
    }

-- The result of the loop: ids of the order, none twice, none that was taken out before, each of
-- them after the ids with an edge to it, and every id that is left with an open edge to it.
pub record IsOrder (ids : List String) (edges : List (String × String)) (taken result : List String)
    : Type 0 where
  pub once : IsDistinct result
  pub fresh : (t : String) → contains t result ≡ true → contains t taken ≡ false
  pub known : (t : String) → contains t result ≡ true → contains t ids ≡ true
  pub after : Follows edges taken result
  pub left :
      (t : String)
      → contains t ids ≡ true
      → contains t (taken_after taken result) ≡ false
      → 1 ≤ open_edges edges (taken_after taken result) t

nothing_ready :
    (edges : List (String × String)) (ids taken : List String) (d : Dict ℕ)
    → IsHeap ids edges [] taken d []
    → IsOrder ids edges taken []
nothing_ready edges ids taken d h = record {
  once = tt;
  fresh = λ t stands. absurd cc;
  known = λ t stands. absurd cc;
  after = tt;
  left = λ t stands new. ground (arith, h.reached t, h.counted t);
}

pub drain-IsOrder :
    (edges : List (String × String)) (ids : List String) (fuel : ℕ) (taken : List String)
    (d : Dict ℕ) (ready : List String)
    → all (λ e. contains e.1 ids) edges ≡ true
    → remaining ids taken ≤ fuel
    → IsHeap ids edges [] taken d ready
    → IsOrder ids edges taken (drain ids edges fuel d ready)
unfolding drain
drain-IsOrder edges ids zero taken d [] inside enough h = nothing_ready edges ids taken d h
drain-IsOrder edges ids (suc fuel) taken d [] inside enough h = nothing_ready edges ids taken d h
drain-IsOrder edges ids zero taken d (x ∷ ready) inside enough h =
    absurd (ground (arith, eq_iff x x, remaining-take ids x taken, h.known x, h.apart x))
drain-IsOrder edges ids (suc fuel) taken d (x ∷ ready) inside enough h =
    let x_known : contains x ids ≡ true = ground (arith, eq_iff x x, h.known x) in
    let x_new : contains x taken ≡ false = ground (arith, eq_iff x x, h.apart x) in
    let rest =
      drain-IsOrder edges ids fuel (x ∷ taken) _ _ inside
        (omega (arith, remaining-take ids x taken x_known x_new))
        (release-IsHeap edges ids (targets ids x edges) (x ∷ taken) d ready
          (take-IsHeap edges ids x taken d ready inside h)) in
    record {
      once = (ground (arith, eq_iff x x, rest.fresh x), rest.once);
      fresh = λ t stands. ground (arith, eq_iff t x, rest.fresh t, h.apart t);
      known = λ t stands. ground (arith, eq_iff t x, rest.known t, x_known);
      after = (ground (arith, eq_iff x x, h.counted x, h.closed x), rest.after);
      left = rest.left;
    }
