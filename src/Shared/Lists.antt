-- ===== src/Shared/Lists.antt =====
-- Lists measured by native numbers, predicates on lists by recursion, and lists of texts as sets.
use text.Mathlib.TextEquality.{eq_iff}
use Prim.Native.Nat.{ℕ, suc, ◌+◌}
use Prim.Native.String.{String}
use mathlib.Core.Path.{◌≡◌, refl}
use mathlib.Core.Bool.{Bool, true, false, not, ◌&&◌, ◌||◌}
use mathlib.Core.Option.{Option, none, some}
use mathlib.Core.List.{List, [], ◌∷◌, ◌++◌}
use native.Mathlib.Omega.{arith}
use text.Mathlib.Text.{◌==◌}
use discord_context_bridge.Shared.Tests.{if◌then◌else◌}

module _ {ℓ} {A : Type ℓ} where
  abbrev pub length : List A → ℕ
  length [] = 0
  length (x ∷ xs) = suc (length xs)

  abbrev pub all : (A → Bool) → List A → Bool
  all p [] = true
  all p (x ∷ xs) = p x && all p xs

  abbrev pub any : (A → Bool) → List A → Bool
  any p [] = false
  any p (x ∷ xs) = p x || any p xs

  abbrev pub last : List A → Option A
  last [] = none
  last (x ∷ []) = some x
  last (x ∷ y ∷ xs) = last (y ∷ xs)

  pub length-append : (xs ys : List A) → length (xs ++ ys) ≡ length xs + length ys
  length-append [] ys = omega arith
  length-append (x ∷ xs) ys = omega (arith, length-append xs ys)

  pub last-append : (xs : List A) (y : A) → last (xs ++ y ∷ []) ≡ some y
  last-append [] y = refl
  last-append (x ∷ []) y = refl
  last-append (x ∷ x' ∷ xs) y = last-append (x' ∷ xs) y

abbrev pub All {ℓ κ} : {A : Type ℓ} → (A → Type κ) → List A → Type κ
All P [] = Unit
All P (x ∷ xs) = P x × All P xs

-- `x in values`
abbrev pub contains : String → List String → Bool
contains x [] = false
contains x (y ∷ ys) = x == y || contains x ys

pub contains-append :
    (x : String) (xs ys : List String) → contains x (xs ++ ys) ≡ (contains x xs || contains x ys)
contains-append x [] ys = refl
contains-append x (y ∷ xs) ys = ground (arith, contains-append x xs ys)

-- No text stands twice.
abbrev pub IsDistinct : List String → Type 0
IsDistinct [] = Unit
IsDistinct (x ∷ xs) = (contains x xs ≡ false) × IsDistinct xs

apart_cons :
    (x : String) (xs ys : List String)
    → any (λ y. contains y (x ∷ xs)) ys ≡ false
    → (contains x ys ≡ false) × (any (λ y. contains y xs) ys ≡ false)
apart_cons x xs [] h = (refl, refl)
apart_cons x xs (y ∷ ys) h = ground (arith, apart_cons x xs ys, eq_iff x y, eq_iff y x)

pub IsDistinct-append :
    (xs ys : List String)
    → IsDistinct xs
    → IsDistinct ys
    → any (λ y. contains y xs) ys ≡ false
    → IsDistinct (xs ++ ys)
IsDistinct-append [] ys dx dy apart = dy
IsDistinct-append (x ∷ xs) ys dx dy apart =
    let (out, rest) = apart_cons x xs ys apart in
    (ground (arith, contains-append x xs ys), IsDistinct-append xs ys dx.1 dy rest)

-- `len(set(values)) == len(values)`
abbrev pub is_distinct : List String → Bool
is_distinct [] = true
is_distinct (x ∷ xs) = not (contains x xs) && is_distinct xs

pub IsDistinct-is_distinct : (xs : List String) → IsDistinct xs → is_distinct xs ≡ true
IsDistinct-is_distinct [] h = refl
IsDistinct-is_distinct (x ∷ xs) h = ground (arith, h.0, IsDistinct-is_distinct xs h.1)

pub is_distinct-IsDistinct : (xs : List String) → is_distinct xs ≡ true → IsDistinct xs
is_distinct-IsDistinct [] h = tt
is_distinct-IsDistinct (x ∷ xs) h = ground (arith, is_distinct-IsDistinct xs)

-- The elements in their first order, each once: `dict.fromkeys`, and `set` up to order.
abbrev pub dedupe_from : List String → List String → List String
dedupe_from seen [] = seen
dedupe_from seen (x ∷ xs) = dedupe_from (if contains x seen then seen else seen ++ x ∷ []) xs

abbrev pub dedupe : List String → List String
dedupe = dedupe_from []

contains-dedupe_from :
    (x : String) (seen xs : List String)
    → contains x (dedupe_from seen xs) ≡ (contains x seen || contains x xs)
contains-dedupe_from x seen [] = ground arith
contains-dedupe_from x seen (y ∷ xs) = ground (
  arith,
  eq_iff x y,
  contains-append x seen (y ∷ []),
  contains-dedupe_from x (if contains y seen then seen else seen ++ y ∷ []) xs,
)

pub contains-dedupe : (x : String) (xs : List String) → contains x (dedupe xs) ≡ contains x xs
contains-dedupe x xs = contains-dedupe_from x [] xs

IsDistinct-dedupe_from :
    (seen xs : List String) → IsDistinct seen → IsDistinct (dedupe_from seen xs)
IsDistinct-dedupe_from seen [] h = h
IsDistinct-dedupe_from seen (y ∷ xs) h =
    IsDistinct-dedupe_from (if contains y seen then seen else seen ++ y ∷ []) xs
      (ground (arith, h, IsDistinct-append seen (y ∷ []) h (refl, tt)))

-- Dropping repetitions leaves each text once.
pub IsDistinct-dedupe : (xs : List String) → IsDistinct (dedupe xs)
IsDistinct-dedupe xs = IsDistinct-dedupe_from [] xs tt

-- `not values`
abbrev pub is_nil {ℓ} : {A : Type ℓ} → List A → Bool
is_nil [] = true
is_nil (x ∷ xs) = false
