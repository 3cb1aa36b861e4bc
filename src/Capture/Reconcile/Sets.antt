-- ===== src/Capture/Reconcile/Sets.antt =====
-- What the counts and comparisons of the reconciliation say of the identifier lists.
use discord_context_bridge.Capture.Reconcile.{
  distinct_count, duplicates, is_subset, same_set, one_digest, contains, length, digest,
}
use discord_context_bridge.Shared.{
  ◌≡◌, ◌≤◌, ◌⊎◌, inl, inr, true, List, [], ◌∷◌, String, Runtime, arith, refl, contains, IsDistinct,
  Collision, length, digest-injective, eq_iff, digest,
}

distinct_count-le : (xs : List String) → distinct_count xs ≤ length xs
unfolding distinct_count
distinct_count-le [] = omega arith
distinct_count-le (x ∷ xs) = ground (arith, distinct_count-le xs)

-- A list has no duplicates exactly if no identifier stands in it twice.
pub duplicates-IsDistinct : (xs : List String) → duplicates xs ≡ 0 → IsDistinct xs
unfolding duplicates
duplicates-IsDistinct [] h = tt
duplicates-IsDistinct (x ∷ xs) h = ground (arith, distinct_count-le xs, duplicates-IsDistinct xs)

pub IsDistinct-duplicates : (xs : List String) → IsDistinct xs → duplicates xs ≡ 0
unfolding duplicates
IsDistinct-duplicates [] h = refl
IsDistinct-duplicates (x ∷ xs) h =
    ground (arith, distinct_count-le xs, IsDistinct-duplicates xs h.1)

is_subset-contains :
    (xs ys : List String) (x : String)
    → is_subset xs ys ≡ true
    → contains x xs ≡ true
    → contains x ys ≡ true
unfolding is_subset
is_subset-contains [] ys x h m = cc
is_subset-contains (y ∷ xs) ys x h m = ground (arith, eq_iff x y, is_subset-contains xs ys x)

-- The same identifiers, whatever their order.
abbrev pub SameMembers : List String → List String → Type 0
SameMembers xs ys = (x : String) → contains x xs ≡ contains x ys

pub same_set-SameMembers : (xs ys : List String) → same_set xs ys ≡ true → SameMembers xs ys
unfolding same_set
same_set-SameMembers xs ys h x =
    ground (arith, is_subset-contains xs ys x, is_subset-contains ys xs x)

-- Equal ordered digests are those of one list, or show two texts with one hash.
pub one_digest-eq :
    (rt : Runtime) (xs ys zs : List String)
    → one_digest rt xs ys zs ≡ true
    → ((ys ≡ xs) × (zs ≡ xs)) ⊎ Collision rt
unfolding one_digest
one_digest-eq rt xs ys zs h =
    elim (digest-injective rt ys xs (ground (arith, eq_iff (digest rt xs) (digest rt ys)))) [
      | inr c ↦ inr c
      | inl p ↦
          elim (digest-injective rt zs xs (ground (arith, eq_iff (digest rt xs) (digest rt zs)))) [
            | inr c ↦ inr c
            | inl q ↦ inl (p, q)
          ]
    ]
