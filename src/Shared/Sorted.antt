-- ===== src/Shared/Sorted.antt =====
-- Sets of texts as the sorted lists that `sorted(set(...))` gives.
use Prim.Native.Nat.{Ordering}
use Prim.Native.String.{String, compare}
use mathlib.Core.Path.{◌≡◌, refl}
use mathlib.Core.Bool.{◌||◌}
use mathlib.Core.List.{List, [], ◌∷◌}
use native.Mathlib.Omega.{arith}
use text.Mathlib.Text.{◌==◌}
use text.Mathlib.TextEquality.{eq_iff}
use discord_context_bridge.Shared.Lists.{contains}

unfoldable pub insert_text : String → List String → List String
insert_text x [] = x ∷ []
insert_text x (y ∷ ys) = elim (compare x y) [
  | Ordering.lt ↦ x ∷ y ∷ ys
  | Ordering.eq ↦ y ∷ ys
  | Ordering.gt ↦ y ∷ insert_text x ys
]

-- `sorted(set(values))`
unfoldable pub sorted_set : List String → List String
unfolding insert_text
sorted_set [] = []
sorted_set (x ∷ xs) = insert_text x (sorted_set xs)

contains-insert_text :
    (j x : String) (ys : List String) → contains j (insert_text x ys) ≡ (j == x || contains j ys)
unfolding insert_text
contains-insert_text j x [] = refl
contains-insert_text j x (y ∷ ys) =
    ground (arith, eq_iff j x, eq_iff j y, eq_iff x y, contains-insert_text j x ys)

-- The set has the members of the list.
pub contains-sorted_set :
    (j : String) (xs : List String) → contains j (sorted_set xs) ≡ contains j xs
unfolding sorted_set
contains-sorted_set j [] = refl
contains-sorted_set j (x ∷ xs) =
    ground (arith, contains-insert_text j x (sorted_set xs), contains-sorted_set j xs)
