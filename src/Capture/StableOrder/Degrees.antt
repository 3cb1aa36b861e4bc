-- ===== src/Capture/StableOrder/Degrees.antt =====
-- The counts behind the order of messages: how many edges to an id are left when some ids are taken
-- out, and how often an id stands in a list.
use discord_context_bridge.Shared.{
  true, false, none, some, [], ◌∷◌, Bool, List, String, contains, ℕ, ◌≡◌, IsDistinct, str_eq, ◌+◌,
  Dict, arith, insert, ◌&&◌, ◌||◌, if◌then◌else◌, not, refl, eq_iff, lookup-insert, lookup, ap, ◌∙◌,
  all, ◌≤◌,
}
use discord_context_bridge.Capture.StableOrder.{
  degree, push, targets, Bool, List, String, ℕ, str_eq, Dict, insert, lookup,
}

abbrev pub one_if : Bool → ℕ
one_if true = 1
one_if false = 0

abbrev pub occurrences : String → List String → ℕ
occurrences t [] = 0
occurrences t (x ∷ xs) = one_if (str_eq t x) + occurrences t xs

-- The edges to an id from ids that are not taken out.
abbrev pub open_edges : List (String × String) → List String → String → ℕ
open_edges [] taken t = 0
open_edges ((l, r) ∷ edges) taken t =
    one_if (str_eq t r && not (contains l taken)) + open_edges edges taken t

pub degree-insert :
    (k t : String) (n : ℕ) (d : Dict ℕ)
    → degree (insert k n d) t ≡ (if str_eq t k then n else degree d t)
degree-insert k t n d =
    ap (λ o. elim o as (λ x. ℕ) [ none ↦ 0 | some m ↦ m ]) (lookup-insert k t n d)
    ∙ (elim (str_eq t k)
        as (λ b.
          elim (if b then some n else lookup t d) as (λ x. ℕ) [ none ↦ 0 | some m ↦ m ]
          ≡ (if b then n else degree d t)) [ true ↦ refl | false ↦ refl ])

pub occurrences-push :
    (ids : List String) (t id : String) (xs : List String)
    → occurrences t (push ids id xs) ≡ one_if (str_eq t id) + occurrences t xs
unfolding push
occurrences-push ids t id [] = refl
occurrences-push ids t id (x ∷ xs) = ground (arith, occurrences-push ids t id xs)

pub contains-push :
    (ids : List String) (t id : String) (xs : List String)
    → contains t (push ids id xs) ≡ (str_eq t id || contains t xs)
unfolding push
contains-push ids t id [] = refl
contains-push ids t id (x ∷ xs) = ground (arith, contains-push ids t id xs)

pub IsDistinct-push :
    (ids : List String) (id : String) (xs : List String)
    → contains id xs ≡ false
    → IsDistinct xs
    → IsDistinct (push ids id xs)
unfolding push
IsDistinct-push ids id [] new h = (refl, tt)
IsDistinct-push ids id (x ∷ xs) new h =
    ground (arith, eq_iff id x, eq_iff x id, contains-push ids x id xs, IsDistinct-push ids id xs)

-- Taking out an id closes the edges to its targets.
pub open_edges-take :
    (ids : List String) (x t : String) (edges : List (String × String)) (taken : List String)
    → contains x taken ≡ false
    → open_edges edges taken t
      ≡ occurrences t (targets ids x edges) + open_edges edges (x ∷ taken) t
unfolding targets
open_edges-take ids x t [] taken new = refl
open_edges-take ids x t ((l, r) ∷ edges) taken new = ground (
  arith,
  eq_iff l x,
  open_edges-take ids x t edges taken new,
  occurrences-push ids t r (targets ids x edges),
)

-- Every id of a list has its edges only from ids that were taken out or stand before it.
abbrev pub Follows : List (String × String) → List String → List String → Type 0
Follows edges taken [] = Unit
Follows edges taken (x ∷ xs) = (open_edges edges taken x ≡ 0) × Follows edges (x ∷ taken) xs

pub contains-targets :
    (ids : List String) (x t : String) (edges : List (String × String))
    → all (λ e. contains e.1 ids) edges ≡ true
    → contains t (targets ids x edges) ≡ true
    → contains t ids ≡ true
unfolding targets
contains-targets ids x t [] h stands = absurd cc
contains-targets ids x t ((l, r) ∷ edges) h stands =
    ground (
      arith,
      eq_iff t r,
      contains-push ids t r (targets ids x edges),
      contains-targets ids x t edges,
    )

-- The ids that were taken out, after those of a result.
abbrev pub taken_after : List String → List String → List String
taken_after taken [] = taken
taken_after taken (x ∷ xs) = taken_after (x ∷ taken) xs

-- How many ids are not taken out.
abbrev pub remaining : List String → List String → ℕ
remaining [] taken = 0
remaining (x ∷ ids) taken = one_if (not (contains x taken)) + remaining ids taken

remaining-fewer :
    (ids : List String) (x : String) (taken : List String)
    → remaining ids (x ∷ taken) ≤ remaining ids taken
remaining-fewer [] x taken = omega arith
remaining-fewer (y ∷ ids) x taken = ground (arith, remaining-fewer ids x taken)

pub remaining-take :
    (ids : List String) (x : String) (taken : List String)
    → contains x ids ≡ true
    → contains x taken ≡ false
    → remaining ids (x ∷ taken) + 1 ≤ remaining ids taken
remaining-take [] x taken stands new = absurd cc
remaining-take (y ∷ ids) x taken stands new =
    ground (arith, eq_iff x y, eq_iff y x, remaining-fewer ids x taken, remaining-take ids x taken)
