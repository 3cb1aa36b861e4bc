-- ===== src/Shared/Text.antt =====
-- `str.strip` and `str.lower` of Python, and a text as its code points.
use Prim.Native.Nat.{ℕ, ◌+◌}
use Prim.Native.Char.{code}
use Prim.Native.String.{◌++◌ as ◌followed_by◌, String, [], ◌∷◌}
use mathlib.Core.Path.{◌≡◌, refl}
use mathlib.Core.Bool.{Bool, true, false, ◌&&◌, ◌||◌}
use mathlib.Core.List
use discord_context_bridge.Shared.Tests.{leb, ◌==◌, if◌then◌else◌}

abbrev pub codes : String → List.List ℕ
codes [] = List.List.[]
codes (c ∷ s) = List.List.◌∷◌ (code c) (codes s)

-- `left + right`
abbrev pub concat_text : String → String → String
concat_text left right = left followed_by right

-- `bool(text)`
abbrev pub is_empty : String → Bool
is_empty [] = true
is_empty (c ∷ s) = false

-- The characters that `str.isspace` accepts and `str.strip` removes.
unfoldable pub is_space : ℕ → Bool
is_space c =
    (leb 9 c && leb c 13)
    || (leb 28 c && leb c 32)
    || c == 0x85
    || c == 0xa0
    || c == 0x1680
    || (leb 0x2000 c && leb c 0x200a)
    || c == 0x2028
    || c == 0x2029
    || c == 0x202f
    || c == 0x205f
    || c == 0x3000

unfoldable pub left_strip : String → String
unfolding is_space
left_strip [] = []
left_strip (c ∷ s) = let rest = left_strip s in if is_space (code c) then rest else c ∷ s

unfoldable pub right_strip : String → String
unfolding is_space
right_strip [] = []
right_strip (c ∷ s) =
    let rest = right_strip s in if is_empty rest && is_space (code c) then [] else c ∷ rest

unfoldable pub strip : String → String
unfolding left_strip right_strip
strip s = right_strip (left_strip s)

pub is_empty-strip : (s : String) → is_empty s ≡ true → is_empty (strip s) ≡ true
unfolding strip
is_empty-strip [] h = refl
is_empty-strip (c ∷ s) h = cc

-- `str.lower` on code points: the ASCII letters, and the two other characters whose lower case
-- holds an ASCII letter (U+0130 and U+212A). No other letter is changed, since the code compares
-- the outcome with ASCII names only.
unfoldable pub lower : List.List ℕ → List.List ℕ
lower List.List.[] = List.List.[]
lower (List.List.◌∷◌ c cs) =
    let rest = lower cs in
    if leb b'A' c && leb c b'Z'
    then List.List.◌∷◌ (c + 32) rest
    else if c == 0x212a
    then List.List.◌∷◌ b'k' rest
    else if c == 0x130
    then List.List.◌∷◌ b'i' (List.List.◌∷◌ 0x307 rest)
    else List.List.◌∷◌ c rest

abbrev pub codes_eq : List.List ℕ → List.List ℕ → Bool
codes_eq List.List.[] List.List.[] = true
codes_eq (List.List.◌∷◌ c cs) (List.List.◌∷◌ d ds) = c == d && codes_eq cs ds
codes_eq _ _ = false

strip_both : strip "  a b\n" ≡ "a b"
unfolding strip
strip_both = refl
