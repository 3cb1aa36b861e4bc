-- ===== src/Capture/StableOrder/Remaining.antt =====
-- How many ids remain when those of an order are taken out.
use discord_context_bridge.Shared.{
  true, false, [], ◌∷◌, List, String, contains, IsDistinct, ◌≡◌, length, ◌||◌, ◌+◌, arith, refl,
  eq_iff,
}
use discord_context_bridge.Capture.StableOrder.Degrees.{taken_after, remaining}

pub remaining-none : (ids : List String) → remaining ids [] ≡ length ids
remaining-none [] = refl
remaining-none (x ∷ ids) = omega (arith, remaining-none ids)

remaining-same :
    (ids : List String) (x : String) (taken : List String)
    → contains x ids ≡ false
    → remaining ids (x ∷ taken) ≡ remaining ids taken
remaining-same [] x taken h = refl
remaining-same (y ∷ ids) x taken h =
    ground (arith, eq_iff x y, eq_iff y x, remaining-same ids x taken)

remaining-take_one :
    (ids : List String) (x : String) (taken : List String)
    → IsDistinct ids
    → contains x ids ≡ true
    → contains x taken ≡ false
    → remaining ids (x ∷ taken) + 1 ≡ remaining ids taken
remaining-take_one [] x taken distinct stands new = absurd cc
remaining-take_one (y ∷ ids) x taken distinct stands new = ground (
  arith,
  eq_iff x y,
  eq_iff y x,
  distinct.0,
  remaining-same ids x taken,
  remaining-take_one ids x taken distinct.1,
)

pub remaining-zero :
    (ids : List String) (t : String) (taken : List String)
    → remaining ids taken ≡ 0
    → contains t ids ≡ true
    → contains t taken ≡ true
remaining-zero [] t taken none_left stands = absurd cc
remaining-zero (x ∷ ids) t taken none_left stands =
    ground (arith, eq_iff t x, remaining-zero ids t taken)

pub contains-taken_after :
    (t : String) (taken xs : List String)
    → contains t (taken_after taken xs) ≡ (contains t taken || contains t xs)
contains-taken_after t taken [] = ground arith
contains-taken_after t taken (x ∷ xs) = ground (arith, contains-taken_after t (x ∷ taken) xs)

-- Each id of an order is one less that remains.
pub length-order :
    (ids taken xs : List String)
    → IsDistinct ids
    → IsDistinct xs
    → ((t : String) → contains t xs ≡ true → contains t taken ≡ false)
    → ((t : String) → contains t xs ≡ true → contains t ids ≡ true)
    → length xs + remaining ids (taken_after taken xs) ≡ remaining ids taken
length-order ids taken [] distinct once fresh known = omega arith
length-order ids taken (x ∷ xs) distinct once fresh known =
    let one =
      remaining-take_one ids x taken distinct (ground (arith, eq_iff x x, known x))
        (ground (arith, eq_iff x x, fresh x)) in
    let rest =
      length-order ids (x ∷ taken) xs distinct once.1
        (λ t stands. ground (arith, eq_iff t x, once.0, fresh t))
        (λ t stands. ground (arith, known t)) in
    omega (arith, one, rest)
