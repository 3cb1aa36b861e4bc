-- ===== src/ArchiveInventory/Scopes/Active.antt =====
-- The filter for the active threads of a parent, and the scan of what it kept.
use discord_context_bridge.ArchiveInventory.{text_value}
use discord_context_bridge.ArchiveInventory.Scopes.{
  filter_active, trusted_thread_fields, List, Fields, Bool, Option, Value, is_text, keep, get,
  text_value, bound_thread,
}
use discord_context_bridge.Shared.{
  true, none, some, [], ◌∷◌, ok, obj, inl, inr, String, List, Fields, Bool, Option, Value, ◌≡◌,
  is_text, arith, refl, >>=-eq-ok, get, Bool-cases,
}

-- Threads that are read under a parent, each with an id and a lock, and that name the parent.
abbrev pub AllBound : String → List Value → Type 0
AllBound parent [] = Unit
AllBound parent (v ∷ vs) =
    ((item : Fields) × (t : String × Bool) × (v ≡ obj item)
      × (trusted_thread_fields parent true item ≡ ok (some t))
      × (is_text parent (get "parent_id" item) ≡ true))
    × AllBound parent vs

bound_thread-parent :
    (parent : String) (item : Fields) (id : Option String) (t : String × Bool)
    → bound_thread parent true item id ≡ ok (some t)
    → is_text parent (get "parent_id" item) ≡ true
bound_thread-parent parent item none t h = cc
bound_thread-parent parent item (some id) t h =
    elim (Bool-cases (is_text parent (get "parent_id" item))) [
      | inl named ↦ named
      | inr other ↦ cc (rw other at h)
    ]

trusted-parent :
    (parent : String) (item : Fields) (t : String × Bool)
    → trusted_thread_fields parent true item ≡ ok (some t)
    → is_text parent (get "parent_id" item) ≡ true
unfolding trusted_thread_fields
trusted-parent parent item t h = bound_thread-parent parent item (text_value (get "id" item)) t h

keep-Bound :
    (parent : String) (item : Fields) (t : Option (String × Bool)) (ks : List Value)
    → trusted_thread_fields parent true item ≡ ok t
    → AllBound parent ks
    → AllBound parent (keep (obj item) t ks)
keep-Bound parent item none ks trusted bound = bound
keep-Bound parent item (some t) ks trusted bound =
    ((item, t, refl, trusted, trusted-parent parent item t trusted), bound)

filter_active-Bound :
    (parent : String) (vs : List Value) {ks : List Value}
    → filter_active parent vs ≡ ok ks
    → AllBound parent ks
unfolding filter_active
filter_active-Bound parent [] {ks} h = let nothing : ks ≡ [] = ground arith in rw nothing tt
filter_active-Bound parent (obj item ∷ vs) {ks} h =
    let (t, trusted, rest) = >>=-eq-ok (trusted_thread_fields parent true item) _ h in
    let (ks', kept, made) = >>=-eq-ok (filter_active parent vs) _ rest in
    let same : ks ≡ keep (obj item) t ks' = ground arith in
    rw same (keep-Bound parent item t ks' trusted (filter_active-Bound parent vs kept))
filter_active-Bound parent (v ∷ vs) h = absurd (ground arith)

Bound-filter_active :
    (parent : String) (ks : List Value) → AllBound parent ks → filter_active parent ks ≡ ok ks
unfolding filter_active
Bound-filter_active parent [] b = refl
Bound-filter_active parent (v ∷ ks) b =
    let ((item, t, same, trusted, named), rest) = b in
    rw same (rw trusted (rw (Bound-filter_active parent ks rest) refl))

-- The filter keeps threads of the parent only, each with an id and a lock, and keeps all of them if
-- it is used again.
pub filter_active-again :
    (parent : String) (vs : List Value) {ks : List Value}
    → filter_active parent vs ≡ ok ks
    → AllBound parent ks × (filter_active parent ks ≡ ok ks)
filter_active-again parent vs {ks} h =
    let b = filter_active-Bound parent vs h in (b, Bound-filter_active parent ks b)
