-- ===== src/Shared/Frame.antt =====
-- The length-framed text `"".join(f"{len(part)}:{part}" for part in parts)` that the capture
-- modules hash, by its code points, and why two different lists of parts never frame alike.
use Prim.Native.Nat.{ℕ, zero, suc, ◌+◌, ◌-◌, ◌*◌, ◌/◌, ◌%◌, ◌<◌}
use Prim.Native.String.{String}
use mathlib.Core.Path.{◌≡◌, refl, ap, sym, ◌∙◌}
use mathlib.Core.Logic.{◌≢◌, ◌⊎◌, inl, inr}
use mathlib.Core.Bool.{Bool, false, ◌&&◌, ◌||◌}
use mathlib.Core.List.{List, [], ◌∷◌, ◌++◌, map, append_assoc}
use native.Mathlib.Omega.{arith}
use native.Mathlib.Decide.{ℕ_discrete}
use text.Mathlib.TextEquality.{Char-path}
use discord_context_bridge.Shared.Tests.{ltb, leb, ◌==◌, if◌then◌else◌}
use discord_context_bridge.Shared.Lists.{length, all}
use discord_context_bridge.Shared.Text.{codes}
use discord_context_bridge.Shared.Payload.{Runtime, Value, str}

-- `[0-9a-f]{64}`
unfoldable pub is_sha256 : Value → Bool
is_sha256 (str s) =
    length (codes s) == 64
    && all (λ c. (leb b'0' c && leb c b'9') || (leb b'a' c && leb c b'f')) (codes s)
is_sha256 _ = false

-- The decimal digits of `n`, on fuel above `n`.
decimal_fuel : ℕ → ℕ → List ℕ
decimal_fuel zero n = []
decimal_fuel (suc f) n =
    let more = decimal_fuel f (n / 10) ++ (48 + n % 10) ∷ [] in
    if ltb n 10 then (48 + n) ∷ [] else more

unfoldable pub decimal : ℕ → List ℕ
unfolding decimal_fuel
decimal n = decimal_fuel (suc n) n

unfoldable pub frame : List (List ℕ) → List ℕ
unfolding decimal
frame [] = []
frame (part ∷ parts) = decimal (length part) ++ b':' ∷ (part ++ frame parts)

-- `_digest(*parts)`
unfoldable pub digest : Runtime → List String → String
unfolding frame
digest rt parts = rt.sha256 (frame (map codes parts))

-- What reads a length back: the number before the colon, and what follows.
scan : ℕ → List ℕ → ℕ × List ℕ
scan n [] = (n, [])
scan n (c ∷ cs) = let more = scan (n * 10 + (c - 48)) cs in if c == b':' then (n, cs) else more

scan-decimal_fuel :
    (f n : ℕ) (rest : List ℕ) → n < f → scan 0 (decimal_fuel f n ++ rest) ≡ scan n rest
unfolding decimal_fuel scan
scan-decimal_fuel zero n rest h = elim h [ ]
scan-decimal_fuel (suc f) n rest h = ground (
  arith,
  append_assoc (decimal_fuel f (n / 10)) ((48 + n % 10) ∷ []) rest,
  scan-decimal_fuel f (n / 10) ((48 + n % 10) ∷ rest),
)

scan-decimal : (n : ℕ) (rest : List ℕ) → scan 0 (decimal n ++ b':' ∷ rest) ≡ (n, rest)
unfolding decimal scan
scan-decimal n rest = scan-decimal_fuel (suc n) n (b':' ∷ rest) (omega arith)

append-split :
    (xs ys us vs : List ℕ) → length xs ≡ length ys → xs ++ us ≡ ys ++ vs → (xs ≡ ys) × (us ≡ vs)
append-split [] [] us vs h e = (refl, e)
append-split [] (y ∷ ys) us vs h e = absurd (omega arith)
append-split (x ∷ xs) [] us vs h e = absurd (omega arith)
append-split (x ∷ xs) (y ∷ ys) us vs h e = ground (arith, append-split xs ys us vs (omega arith))

append-cons-ne-nil : (xs : List ℕ) (y : ℕ) (ys : List ℕ) → xs ++ y ∷ ys ≢ []
append-cons-ne-nil [] y ys e = cc
append-cons-ne-nil (x ∷ xs) y ys e = cc

frame-cons-ne-nil : (part : List ℕ) (parts : List (List ℕ)) → frame (part ∷ parts) ≢ []
unfolding frame
frame-cons-ne-nil part parts = append-cons-ne-nil (decimal (length part)) b':' (part ++ frame parts)

-- Equal frames of two non-empty lists start with equal lengths, so with equal parts.
frame-cons :
    (p q : List ℕ) (ps qs : List (List ℕ))
    → frame (p ∷ ps) ≡ frame (q ∷ qs)
    → (p ≡ q) × (frame ps ≡ frame qs)
unfolding frame
frame-cons p q ps qs e =
    let scanned : ◌≡◌ {A = ℕ × List ℕ} (length p, p ++ frame ps) (length q, q ++ frame qs) =
      sym (scan-decimal (length p) (p ++ frame ps))
      ∙ ap (scan 0) e
      ∙ scan-decimal (length q) (q ++ frame qs) in
    append-split p q (frame ps) (frame qs) (ap (λ (r : ℕ × List ℕ). r.0) scanned)
      (ap (λ (r : ℕ × List ℕ). r.1) scanned)

frame-injective : (ps qs : List (List ℕ)) → frame ps ≡ frame qs → ps ≡ qs
unfolding frame
frame-injective [] [] e = refl
frame-injective [] (q ∷ qs) e = absurd (frame-cons-ne-nil q qs (sym e))
frame-injective (p ∷ ps) [] e = absurd (frame-cons-ne-nil p ps e)
frame-injective (p ∷ ps) (q ∷ qs) e =
    let (head, tail) = frame-cons p q ps qs e in cc (head, frame-injective ps qs tail)

codes-injective : (s t : String) → codes s ≡ codes t → s ≡ t
codes-injective String.[] String.[] e = refl
codes-injective String.[] (String.◌∷◌ d t) e = cc
codes-injective (String.◌∷◌ c s) String.[] e = cc
codes-injective (String.◌∷◌ c s) (String.◌∷◌ d t) e =
    cc (Char-path c d (cc), codes-injective s t (cc))

map-codes-injective : (ps qs : List String) → map codes ps ≡ map codes qs → ps ≡ qs
map-codes-injective [] [] e = refl
map-codes-injective [] (q ∷ qs) e = cc
map-codes-injective (p ∷ ps) [] e = cc
map-codes-injective (p ∷ ps) (q ∷ qs) e =
    cc (codes-injective p q (cc), map-codes-injective ps qs (cc))

-- Two different texts with one hash.
abbrev pub Collision : Runtime → Type 0
Collision rt = (x : List ℕ) × (y : List ℕ) × (x ≢ y) × (rt.sha256 x ≡ rt.sha256 y)

texts_discrete : Discrete (List ℕ)
texts_discrete = hlevel ℕ_discrete

-- Equal digests come of equal parts, or show two different texts with one hash.
pub digest-injective :
    (rt : Runtime) (ps qs : List String) → digest rt ps ≡ digest rt qs → (ps ≡ qs) ⊎ Collision rt
unfolding digest
digest-injective rt ps qs e = elim (texts_discrete (frame (map codes ps)) (frame (map codes qs))) [
  | yes same ↦ inl (map-codes-injective ps qs (frame-injective _ _ same))
  | no different ↦ inr (frame (map codes ps), frame (map codes qs), different, e)
]

frame_example : frame (codes "ab" ∷ [] ∷ codes "0123456789" ∷ []) ≡ codes "2:ab0:10:0123456789"
unfolding frame
frame_example = refl
