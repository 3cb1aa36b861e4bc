-- ===== src/Shared/Gates.antt =====
-- Blocker lists: a table of tests with reasons, and the reasons of those that failed.
use Prim.Native.Nat.{ℕ, zero, suc}
use Prim.Native.String.{String}
use mathlib.Core.Path.{◌≡◌, refl}
use mathlib.Core.Logic.{◌↔◌}
use mathlib.Core.Bool.{Bool, true, false, not, ◌&&◌, ◌||◌}
use mathlib.Core.List.{List, [], ◌∷◌, ◌++◌}
use native.Mathlib.Omega.{arith}
use text.Mathlib.Text.{◌==◌}
use discord_context_bridge.Shared.Tests.{if◌then◌else◌}
use discord_context_bridge.Shared.Lists.{is_nil, contains, dedupe, dedupe_from}

-- Tests that are true when something is wrong, each with the blocker it raises.
abbrev pub Checks : Type 0
Checks = List (Bool × String)

-- `[reason for failed, reason in checks if failed]`
abbrev pub failed : Checks → List String
failed [] = []
failed ((wrong, reason) ∷ checks) =
    let rest = failed checks in if wrong then reason ∷ rest else rest

-- No test found anything wrong.
abbrev pub AllPass : Checks → Type 0
AllPass [] = Unit
AllPass ((wrong, reason) ∷ checks) = (wrong ≡ false) × AllPass checks

pub nil-failed : (checks : Checks) → (is_nil (failed checks) ≡ true) ↔ AllPass checks
nil-failed [] = (λ h. tt, λ h. refl)
nil-failed ((true, reason) ∷ checks) = (λ h. cc, λ h. cc (h.0))
nil-failed ((false, reason) ∷ checks) =
    let (there, back) = nil-failed checks in (λ h. (refl, there h), λ h. back h.1)

pub not-false : (b : Bool) → not b ≡ false → b ≡ true
not-false b h = ground arith

pub true-not : (b : Bool) → b ≡ true → not b ≡ false
true-not b h = ground arith

pub is_nil-append : (xs ys : List String) → is_nil (xs ++ ys) ≡ (is_nil xs && is_nil ys)
is_nil-append [] ys = refl
is_nil-append (x ∷ xs) ys = refl

pub dedupe_from-cons :
    (x : String) (seen xs : List String) → is_nil (dedupe_from (x ∷ seen) xs) ≡ false
dedupe_from-cons x seen [] = refl
dedupe_from-cons x seen (y ∷ xs) =
    elim (contains y (x ∷ seen))
      as (λ b. is_nil (dedupe_from (if b then x ∷ seen else (x ∷ seen) ++ y ∷ []) xs) ≡ false) [
        | true ↦ dedupe_from-cons x seen xs
        | false ↦ dedupe_from-cons x (seen ++ y ∷ []) xs
      ]

-- Dropping repeated blockers drops no last one.
pub is_nil-dedupe : (xs : List String) → is_nil (dedupe xs) ≡ is_nil xs
is_nil-dedupe [] = refl
is_nil-dedupe (x ∷ xs) = dedupe_from-cons x [] xs

-- Some test with this reason found something wrong.
abbrev pub raises : String → Checks → Bool
raises r [] = false
raises r ((wrong, reason) ∷ checks) = (r == reason && wrong) || raises r checks

pub contains-failed : (r : String) (checks : Checks) → contains r (failed checks) ≡ raises r checks
contains-failed r [] = refl
contains-failed r ((wrong, reason) ∷ checks) = ground (arith, contains-failed r checks)

-- The test at a place of the table, counted from 0.
abbrev pub wrong_at : ℕ → Checks → Bool
wrong_at n [] = false
wrong_at zero ((wrong, reason) ∷ checks) = wrong
wrong_at (suc n) (check ∷ checks) = wrong_at n checks

pub AllPass-wrong_at : (n : ℕ) (checks : Checks) → AllPass checks → wrong_at n checks ≡ false
AllPass-wrong_at n [] h = refl
AllPass-wrong_at zero ((wrong, reason) ∷ checks) h = h.0
AllPass-wrong_at (suc n) (check ∷ checks) h = AllPass-wrong_at n checks h.1
