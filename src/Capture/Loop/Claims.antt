-- ===== src/Capture/Loop/Claims.antt =====
-- What the test for `api_full` in capture/loop.py finds in a text, said without that test: the word,
-- each of its letters small or a capital.
use discord_context_bridge.Capture.Loop.Receipts.{occurs, has_prefix}
use discord_context_bridge.Shared.{
  true, false, [], ◌∷◌, inl, inr, List, ℕ, lower, Bool, ◌≡◌, ◌||◌, arith, ◌++◌, not, ◌↔◌, ◌&&◌,
  ◌==◌, ◌⊎◌, ◌≤◌, leb, refl, is_nil, ◌+◌, Bool-cases, ==_iff, ap, codes, ◌∙◌, sym,
}

-- The character is this small letter, or its capital.
abbrev pub IsLetter : ℕ → ℕ → Type 0
IsLetter c d = (d ≡ c) ⊎ ((b'A' ≤ d) × (d ≤ b'Z') × (d + 32 ≡ c))

-- The text is the word in small letters and capitals.
abbrev pub Spells : List ℕ → List ℕ → Type 0
Spells [] [] = Unit
Spells (c ∷ word) (d ∷ text) = IsLetter c d × Spells word text
Spells _ _ = ⊥

-- The word stands somewhere in the text.
abbrev pub Holds : List ℕ → List ℕ → Type 0
Holds word text =
    (before : List ℕ) × (found : List ℕ) × (after : List ℕ) × (text ≡ before ++ (found ++ after))
    × Spells word found

is_letter : ℕ → ℕ → Bool
is_letter c d = d == c || (leb b'A' d && leb d b'Z' && d + 32 == c)

is_letter-IsLetter : (c d : ℕ) → (is_letter c d ≡ true) ↔ IsLetter c d
unfolding is_letter
is_letter-IsLetter c d = (λ h. ground arith, λ h. ground arith)

starts : List ℕ → List ℕ → Bool
starts [] text = true
starts (c ∷ word) [] = false
starts (c ∷ word) (d ∷ text) = is_letter c d && starts word text

stands : List ℕ → List ℕ → Bool
unfolding starts
stands word [] = starts word []
stands word (d ∷ text) = starts word (d ∷ text) || stands word text

is_capital : ℕ → Bool
is_capital d = leb b'A' d && leb d b'Z'

-- No capital, no k, not the accent that the small letter of U+0130 has, and not one of the two
-- characters beyond ASCII that have a small letter in it.
is_plain : ℕ → Bool
unfolding is_capital
is_plain c =
    not (is_capital c)
    && not (c == b'k')
    && not (c == 0x307)
    && not (c == 0x130)
    && not (c == 0x212a)

-- The characters are plain, and the last one is no i.
plain : List ℕ → Bool
unfolding is_plain
plain [] = true
plain (c ∷ word) = is_plain c && not (c == b'i' && is_nil word) && plain word

lower-capital : (d : ℕ) (ds : List ℕ) → is_capital d ≡ true → lower (d ∷ ds) ≡ (d + 32) ∷ lower ds
unfolding lower is_capital
lower-capital d ds h = rw h refl

lower-kelvin : (ds : List ℕ) → lower (0x212a ∷ ds) ≡ b'k' ∷ lower ds
unfolding lower
lower-kelvin ds = refl

lower-dotted : (ds : List ℕ) → lower (0x130 ∷ ds) ≡ b'i' ∷ 0x307 ∷ lower ds
unfolding lower
lower-dotted ds = refl

lower-other :
    (d : ℕ) (ds : List ℕ)
    → is_capital d ≡ false
    → (d == 0x212a) ≡ false
    → (d == 0x130) ≡ false
    → lower (d ∷ ds) ≡ d ∷ lower ds
unfolding lower is_capital
lower-other d ds h k i = rw (h, k, i) refl

-- How a character is made small.
data Lowered (d : ℕ) : Type 0 where
  capital : is_capital d ≡ true → Lowered d
  kelvin : d ≡ 0x212a → Lowered d
  dotted : d ≡ 0x130 → Lowered d
  same : is_capital d ≡ false → (d == 0x212a) ≡ false → (d == 0x130) ≡ false → Lowered d

lowered : (d : ℕ) → Lowered d
lowered d = elim (Bool-cases (is_capital d)) [
  | inl up ↦ capital up
  | inr small ↦ elim (Bool-cases (d == 0x212a)) [
    | inl k ↦ kelvin ((==_iff d 0x212a).0 k)
    | inr no_k ↦ elim (Bool-cases (d == 0x130)) [
      | inl i ↦ dotted ((==_iff d 0x130).0 i)
      | inr no_i ↦ same small no_k no_i
    ]
  ]
]

letter-capital : (c d : ℕ) → is_plain c ≡ true → is_capital d ≡ true → (c == d + 32) ≡ is_letter c d
unfolding is_plain is_capital is_letter
letter-capital c d plain_c up = ground arith

letter-same : (c d : ℕ) → is_capital d ≡ false → (c == d) ≡ is_letter c d
unfolding is_capital is_letter
letter-same c d small = ground arith

letter-beyond : (c : ℕ) → is_plain c ≡ true → is_letter c 0x130 ≡ false
unfolding is_plain is_letter
letter-beyond c h = ground arith

letter-kelvin : (c : ℕ) → is_plain c ≡ true → is_letter c 0x212a ≡ false
unfolding is_plain is_letter
letter-kelvin c h = ground arith

plain_k : (c : ℕ) → is_plain c ≡ true → (c == b'k') ≡ false
unfolding is_plain
plain_k c h = ground arith

plain_accent : (c : ℕ) → is_plain c ≡ true → (c == 0x307) ≡ false
unfolding is_plain
plain_accent c h = ground arith

-- After the small letter of U+0130 stands its accent, which the word does not have.
dotted_apart :
    (c : ℕ) (word text : List ℕ)
    → plain (c ∷ word) ≡ true
    → (c == b'i' && has_prefix word (0x307 ∷ text)) ≡ false
unfolding plain
dotted_apart c [] text h = ground arith
dotted_apart c (c' ∷ word) text h = ground (arith, plain_accent c')

starts-lower :
    (word text : List ℕ) → plain word ≡ true → has_prefix word (lower text) ≡ starts word text
unfolding starts plain
starts-lower [] text h = refl
starts-lower (c ∷ word) [] h = unfold lower in refl
starts-lower (c ∷ word) (d ∷ text) h = elim (lowered d) [
  | capital up ↦
      rw (lower-capital d text up) (ground (arith, starts-lower word text, letter-capital c d))
  | kelvin is_k ↦ rw (is_k, lower-kelvin text) (ground (arith, plain_k c, letter-kelvin c))
  | dotted is_i ↦
      rw (is_i, lower-dotted text)
        (ground (arith, dotted_apart c word (lower text) h, letter-beyond c))
  | same small no_k no_i ↦
      rw (lower-other d text small no_k no_i)
        (ground (arith, starts-lower word text, letter-same c d))
]

occurs_next :
    (word text ds : List ℕ) (x d : ℕ)
    → lower (d ∷ text) ≡ x ∷ ds
    → occurs word (lower (d ∷ text)) ≡ (has_prefix word (lower (d ∷ text)) || occurs word ds)
unfolding occurs
occurs_next word text ds x d e = rw e refl

occurs_dotted :
    (c : ℕ) (word text : List ℕ)
    → plain (c ∷ word) ≡ true
    → occurs (c ∷ word) (0x307 ∷ lower text) ≡ occurs (c ∷ word) (lower text)
unfolding plain occurs
occurs_dotted c word text h = ground (arith, plain_accent c)

stands-lower :
    (c : ℕ) (word text : List ℕ)
    → plain (c ∷ word) ≡ true
    → occurs (c ∷ word) (lower text) ≡ stands (c ∷ word) text
unfolding stands
stands-lower c word [] h = unfold occurs in unfold lower in refl
stands-lower c word (d ∷ text) h =
    let first = starts-lower (c ∷ word) (d ∷ text) h in
    let rest = stands-lower c word text h in
    let next : occurs (c ∷ word) (lower (d ∷ text))
        ≡ (has_prefix (c ∷ word) (lower (d ∷ text)) || occurs (c ∷ word) (lower text)) =
      (elim (lowered d) [
        | capital up ↦ occurs_next (c ∷ word) text (lower text) (d + 32) d (lower-capital d text up)
        | kelvin is_k ↦
            occurs_next (c ∷ word) text (lower text) b'k' d (rw is_k (lower-kelvin text))
        | dotted is_i ↦
            occurs_next (c ∷ word) text (0x307 ∷ lower text) b'i' d (rw is_i (lower-dotted text))
            ∙ ap (λ o. has_prefix (c ∷ word) (lower (d ∷ text)) || o) (occurs_dotted c word text h)
        | same small no_k no_i ↦
            occurs_next (c ∷ word) text (lower text) d d (lower-other d text small no_k no_i)
      ]) in
    next ∙ cc (first, rest)

starts-Spells :
    (word text : List ℕ)
    → starts word text ≡ true
    → (found : List ℕ) × (after : List ℕ) × (text ≡ found ++ after) × Spells word found
unfolding starts
starts-Spells [] text h = ([], text, refl, tt)
starts-Spells (c ∷ word) [] h = absurd (cc h)
starts-Spells (c ∷ word) (d ∷ text) h =
    let (found, after, split, spelled) = starts-Spells word text (ground arith) in
    (d ∷ found, after, ap (λ w. d ∷ w) split, ((is_letter-IsLetter c d).0 (ground arith), spelled))

Spells-starts :
    (word found after : List ℕ) → Spells word found → starts word (found ++ after) ≡ true
unfolding starts
Spells-starts [] found after h = refl
Spells-starts (c ∷ word) [] after h = absurd h
Spells-starts (c ∷ word) (d ∷ found) after h =
    let letter = (is_letter-IsLetter c d).1 h.0 in
    let rest = Spells-starts word found after h.1 in cc (letter, rest)

stands-Holds : (word text : List ℕ) → stands word text ≡ true → Holds word text
unfolding stands
stands-Holds word [] h =
    let (found, after, split, spelled) = starts-Spells word [] h in
    ([], found, after, split, spelled)
stands-Holds word (d ∷ text) h = elim (Bool-cases (starts word (d ∷ text))) [
  | inl here ↦
      let (found, after, split, spelled) = starts-Spells word (d ∷ text) here in
      ([], found, after, split, spelled)
  | inr later ↦
      let (before, found, after, split, spelled) = stands-Holds word text (ground arith) in
      (d ∷ before, found, after, ap (λ w. d ∷ w) split, spelled)
]

stands_first : (word text : List ℕ) → starts word text ≡ true → stands word text ≡ true
unfolding stands
stands_first word [] h = h
stands_first word (d ∷ text) h = ground arith

Holds-stands :
    (word before found after : List ℕ)
    → Spells word found
    → stands word (before ++ (found ++ after)) ≡ true
unfolding stands
Holds-stands word [] found after h =
    stands_first word (found ++ after) (Spells-starts word found after h)
Holds-stands word (d ∷ before) found after h =
    let rest = Holds-stands word before found after h in ground arith

-- The test for `api_full` in the small letters of a text finds the word in it, its letters small or
-- capitals.
pub occurs-Holds :
    (text : List ℕ)
    → (occurs (codes "api_full") (lower text) ≡ true) ↔ Holds (codes "api_full") text
unfolding plain
occurs-Holds text =
    let same = stands-lower b'a' (codes "pi_full") text refl in
    (
      λ h. stands-Holds (codes "api_full") text (sym same ∙ h),
      λ h. same ∙ rw h.3 (Holds-stands (codes "api_full") h.0 h.1 h.2 h.4),
    )
