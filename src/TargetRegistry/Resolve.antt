-- ===== src/TargetRegistry/Resolve.antt =====
-- What an appended entry changes of what the register says.
use discord_context_bridge.TargetRegistry.{
  absorb_all, add_aliases, matching, resolve_target, Resolved, Entry, absorb, unresolved,
}
use discord_context_bridge.Shared.{
  true, false, some, [], ◌∷◌, String, List, is_empty, ◌++◌, ◌≡◌, str_eq, contains, arith, ◌||◌,
  refl, contains-append, eq_iff, is_nil, ◌⊎◌, inl, inr, Bool-cases, ap, none,
}

matching-other :
    (key : String) (es : List Entry) (e : Entry)
    → str_eq e.target_key key ≡ false
    → matching key (es ++ e ∷ []) ≡ matching key es
unfolding matching
matching-other key [] e h = ground arith
matching-other key (f ∷ es) e h = ground (arith, matching-other key es e h)

matching-same :
    (key : String) (es : List Entry) (e : Entry)
    → str_eq e.target_key key ≡ true
    → matching key (es ++ e ∷ []) ≡ matching key es ++ e ∷ []
unfolding matching
matching-same key [] e h = ground arith
matching-same key (f ∷ es) e h = ground (arith, matching-same key es e h)

absorb_all-append :
    (r : Resolved) (es : List Entry) (e : Entry)
    → absorb_all r (es ++ e ∷ []) ≡ absorb (absorb_all r es) e
unfolding absorb_all
absorb_all-append r [] e = refl
absorb_all-append r (f ∷ es) e = absorb_all-append (absorb r f) es e

-- An entry of another target changes nothing.
pub resolve-other :
    (key : String) (es : List Entry) (e : Entry)
    → str_eq e.target_key key ≡ false
    → resolve_target key (es ++ e ∷ []) ≡ resolve_target key es
unfolding resolve_target
resolve-other key es e h = rw (matching-other key es e h) refl

nil-appended : (es : List Entry) (e : Entry) → is_nil (es ++ e ∷ []) ≡ false
nil-appended [] e = refl
nil-appended (f ∷ es) e = refl

nil_list : (es : List Entry) → is_nil es ≡ true → es ≡ []
nil_list [] h = refl
nil_list (e ∷ es) h = cc

-- What was said of the target before: what the register resolves, or nothing.
abbrev pub SaidBefore : String → List Entry → Resolved → Type 0
SaidBefore key es r =
    (resolve_target key es ≡ some r) ⊎ ((resolve_target key es ≡ none) × (r ≡ unresolved))

said_before :
    (key : String) (es : List Entry) → SaidBefore key es (absorb_all unresolved (matching key es))
unfolding resolve_target absorb_all
said_before key es = elim (Bool-cases (is_nil (matching key es))) [
  | inl nothing ↦
      inr (rw nothing refl, ap (absorb_all unresolved) (nil_list (matching key es) nothing))
  | inr something ↦ inl (rw something refl)
]

pub resolve-appended :
    (key : String) (es : List Entry) (e : Entry)
    → str_eq e.target_key key ≡ true
    → (r : Resolved) × SaidBefore key es r × (resolve_target key (es ++ e ∷ []) ≡ some (absorb r e))
unfolding resolve_target
resolve-appended key es e h =
    let all : matching key (es ++ e ∷ []) ≡ matching key es ++ e ∷ [] = matching-same key es e h in
    (
      absorb_all unresolved (matching key es),
      said_before key es,
      rw all (
          rw (nil-appended (matching key es) e, absorb_all-append unresolved (matching key es) e)
            (ground arith)),
    )

pub contains-add_aliases :
    (a : String) (known more : List String)
    → is_empty a ≡ false
    → contains a (add_aliases known more) ≡ (contains a known || contains a more)
unfolding add_aliases
contains-add_aliases a known [] h = ground arith
contains-add_aliases a known (b ∷ more) h = ground (
  arith,
  contains-add_aliases a known more h,
  contains-add_aliases a (known ++ b ∷ []) more h,
  contains-append a known (b ∷ []),
  eq_iff a b,
)
