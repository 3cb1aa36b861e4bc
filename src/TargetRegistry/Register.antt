-- ===== src/TargetRegistry/Register.antt =====
-- What a registration leaves in the register.
use mathlib.Core.List.{append-nil}
use discord_context_bridge.TargetRegistry.{
  Registration, absorb, add_aliases, is_news, entry_of, non_empty_aliases, Resolved, is_new,
  non_empty, stripped_url, overwrite, append_entry, Entry, register_target, resolve_target,
  valid_key_schemes, valid_sources,
}
use discord_context_bridge.TargetRegistry.Resolve.{
  resolve-other, resolve-appended, contains-add_aliases, SaidBefore,
}
use discord_context_bridge.Shared.{
  true, false, none, some, [], ◌∷◌, ok, inl, inr, Option, String, List, ◌≡◌, all, ◌⊎◌, contains,
  Bool-cases, refl, is_empty, if◌then◌else◌, sym, not, arith, is_empty-strip, any, eq_iff, ◌||◌,
  ◌++◌, contains-append, eq_refl, Bool, str_eq,
}

-- The register has the labels of the registration, if it brings any, its url, as it is or without the
-- blanks around it, and every alias.
pub record Says (q : Registration) (r : Resolved) : Type 0 where
  pub server : (non_empty q.server_label ≡ none) ⊎ (r.server_label ≡ q.server_label)
  pub channel : (non_empty q.channel_label ≡ none) ⊎ (r.channel_label ≡ q.channel_label)
  pub url : (non_empty (stripped_url q.url) ≡ none) ⊎ (r.url ≡ q.url) ⊎ (r.url ≡ stripped_url q.url)
  pub aliases : all (λ a. contains a r.aliases) (non_empty_aliases q.aliases) ≡ true

-- The first time that the target was seen: the one before, if there is one.
abbrev pub FirstSeen : Option Resolved → String → Option String → Type 0
FirstSeen none now seen = seen ≡ non_empty (some now)
FirstSeen (some before) now seen = (t : String) → before.first_seen ≡ some t → seen ≡ some t

-- What a written entry adds to this: its key scheme, its source and the reference of the source.
pub record Written (q : Registration) (before : Option Resolved) (r : Resolved) : Type 0 where
  pub key_scheme : r.key_scheme ≡ some q.key_scheme
  pub source : r.source ≡ some q.source
  pub source_ref : (non_empty q.source_ref ≡ none) ⊎ (r.source_ref ≡ q.source_ref)
  pub first_seen : FirstSeen before q.now r.first_seen

contains-with :
    (b : String) (known : List String)
    → is_empty b ≡ false
    → contains b (if is_empty b || contains b known then known else known ++ b ∷ []) ≡ true
contains-with b known h = ground (arith, contains-append b known (b ∷ []), eq_refl b)

aliases_in :
    (known more : List String)
    → all (λ a. not (is_empty a)) more ≡ true
    → all (λ a. contains a (add_aliases known more)) more ≡ true
unfolding add_aliases
aliases_in known [] h = refl
aliases_in known (b ∷ more) h =
    let after = if is_empty b || contains b known then known else known ++ b ∷ [] in
    let there : is_empty b ≡ false = ground arith in
    let others : all (λ a. not (is_empty a)) more ≡ true = ground arith in
    rw (contains-add_aliases b after more there, contains-with b known there)
      (aliases_in after more others)

no_blank : (as' : List String) → all (λ a. not (is_empty a)) (non_empty_aliases as') ≡ true
unfolding non_empty_aliases
no_blank [] = refl
no_blank (a ∷ as') = ground (arith, no_blank as')

overwritten :
    (before given : Option String)
    → (non_empty given ≡ none) ⊎ (overwrite before (non_empty given) ≡ given)
overwritten before none = inl refl
overwritten before (some s) = elim (Bool-cases (is_empty s)) [
  | inl blank ↦ inl (rw blank refl)
  | inr there ↦ inr (rw (there, there) refl)
]

url_written :
    (before given : Option String)
    → (non_empty (stripped_url given) ≡ none)
      ⊎ (overwrite before (non_empty given) ≡ given)
      ⊎ (overwrite before (non_empty given) ≡ stripped_url given)
url_written before none = inl refl
url_written before (some s) = elim (Bool-cases (is_empty s)) [
  | inl blank ↦ inl (rw (is_empty-strip s blank) refl)
  | inr there ↦ inr (inl (rw (there, there) refl))
]

entry-Says : (q : Registration) (r : Resolved) → Says q (absorb r (entry_of q))
unfolding absorb entry_of
entry-Says q r = record {
  server = overwritten r.server_label q.server_label;
  channel = overwritten r.channel_label q.channel_label;
  url = url_written r.url q.url;
  aliases = aliases_in r.aliases (non_empty_aliases q.aliases) (no_blank q.aliases);
}

blank_absent :
    (s : String) (values : List String)
    → is_empty s ≡ true
    → contains s values ≡ true
    → contains "" values ≡ false
    → ⊥
blank_absent String.[] values blank there absent = cc
blank_absent (String.◌∷◌ c s) values blank there absent = cc

not_empty :
    (s : String) (values : List String)
    → contains s values ≡ true
    → contains "" values ≡ false
    → is_empty s ≡ false
not_empty s values there absent = elim (Bool-cases (is_empty s)) [
  | inl blank ↦ absurd (blank_absent s values blank there absent)
  | inr given ↦ given
]

first_seen_kept :
    (q : Registration) (key : String) (es : List Entry) (r : Resolved)
    → SaidBefore key es r
    → FirstSeen (resolve_target key es) q.now (absorb r (entry_of q)).first_seen
unfolding absorb entry_of
first_seen_kept q key es r (inl known) = rw known (λ t seen. ground arith)
first_seen_kept q key es r (inr (fresh, empty)) = rw (fresh, empty) refl

entry-Written :
    (q : Registration) (es : List Entry) (r : Resolved)
    → contains q.key_scheme valid_key_schemes ≡ true
    → contains q.source valid_sources ≡ true
    → SaidBefore q.target_key es r
    → Written q (resolve_target q.target_key es) (absorb r (entry_of q))
unfolding absorb entry_of
entry-Written q es r scheme source before = record {
  key_scheme = rw (not_empty q.key_scheme valid_key_schemes scheme refl) refl;
  source = rw (not_empty q.source valid_sources source refl) refl;
  source_ref = overwritten r.source_ref q.source_ref;
  first_seen = first_seen_kept q q.target_key es r before;
}

no_news-label :
    (given known : Option String)
    → is_new given known ≡ false
    → (non_empty given ≡ none) ⊎ (known ≡ given)
no_news-label none known h = inl refl
no_news-label (some s) none h = inl (ground arith)
no_news-label (some s) (some known) h = elim (Bool-cases (is_empty s)) [
  | inl blank ↦ inl (rw blank refl)
  | inr there ↦ inr (ground (arith, eq_iff s known))
]

non_empty-some : (a b : Option String) → non_empty a ≡ b → (b ≡ none) ⊎ (a ≡ b)
non_empty-some none b h = inr h
non_empty-some (some s) b h = elim (Bool-cases (is_empty s)) [
  | inl blank ↦ inl (sym (rw blank at h))
  | inr there ↦ inr (rw there at h)
]

no_news-url :
    (given known : Option String)
    → is_new (stripped_url given) (non_empty known) ≡ false
    → (non_empty (stripped_url given) ≡ none) ⊎ (known ≡ given) ⊎ (known ≡ stripped_url given)
no_news-url given known h = elim (no_news-label (stripped_url given) (non_empty known) h) [
  | inl blank ↦ inl blank
  | inr same ↦ (elim (non_empty-some known (stripped_url given) same) [
    | inl nothing ↦ inl (rw nothing refl)
    | inr known_it ↦ inr (inr known_it)
  ])
]

none_new :
    (known as' : List String)
    → any (λ a. not (contains a known)) as' ≡ false
    → all (λ a. contains a known) as' ≡ true
none_new known [] h = refl
none_new known (a ∷ as') h = ground (arith, none_new known as')

no_news-Says : (q : Registration) (r : Resolved) → is_news q r ≡ false → Says q r
unfolding is_news
no_news-Says q r h = record {
  server = no_news-label q.server_label r.server_label (ground arith);
  channel = no_news-label q.channel_label r.channel_label (ground arith);
  url = no_news-url q.url r.url (ground arith);
  aliases = none_new r.aliases (non_empty_aliases q.aliases) (ground arith);
}

-- What a registration that returned did.
data Outcome (q : Registration) (es es' : List Entry) (registered : Bool) : Type 0 where
  appended :
      registered ≡ true
      → contains q.key_scheme valid_key_schemes ≡ true
      → contains q.source valid_sources ≡ true
      → es' ≡ es ++ entry_of q ∷ []
      → Outcome q es es' registered
  kept :
      registered ≡ false
      → (r : Resolved) → resolve_target q.target_key es ≡ some r
      → is_news q r ≡ false
      → es' ≡ es
      → Outcome q es es' registered

module _ (valid : Entry → Bool) (q : Registration) (es : List Entry)
    (scheme : contains q.key_scheme valid_key_schemes ≡ true)
    (source : contains q.source valid_sources ≡ true) where
  append-Outcome :
      {registered : Bool} {es' : List Entry}
      → append_entry valid q es ≡ ok (registered, es')
      → Outcome q es es' registered
  unfolding append_entry
  append-Outcome h = appended (ground arith) scheme source (ground arith)

  known-Outcome :
      (known : Option Resolved) {registered : Bool} {es' : List Entry}
      → resolve_target q.target_key es ≡ known
      → (elim known [
        | none ↦ append_entry valid q es
        | some r ↦ if is_news q r then append_entry valid q es else ok (false, es)
      ])
        ≡ ok (registered, es')
      → Outcome q es es' registered
  known-Outcome none at_key h = append-Outcome h
  known-Outcome (some r) at_key h = elim (Bool-cases (is_news q r)) [
    | inl news ↦ append-Outcome (rw news at h)
    | inr no_news ↦ kept (ground arith) r at_key no_news (ground arith)
  ]

register-Outcome :
    (valid : Entry → Bool) (q : Registration) (es : List Entry) {registered : Bool}
    {es' : List Entry}
    → register_target valid q es ≡ ok (registered, es')
    → Outcome q es es' registered
unfolding register_target
register-Outcome valid q es h = elim (Bool-cases (contains q.key_scheme valid_key_schemes)) [
  | inl scheme ↦ (elim (Bool-cases (contains q.source valid_sources)) [
    | inl source ↦
        known-Outcome valid q es scheme source (resolve_target q.target_key es) refl
          (rw (scheme, source) at h)
    | inr unknown ↦ absurd (ground arith)
  ])
  | inr unknown ↦ absurd (ground arith)
]

-- What is registered is resolved: after a registration that returned, the register has the target,
-- with the labels, the url and the aliases of the registration. If it wrote an entry, the target
-- also has its key scheme, its source and its source reference, and keeps the time when it was first
-- seen; otherwise the register is as it was.
pub register-resolves :
    (valid : Entry → Bool) (q : Registration) (es : List Entry) {registered : Bool}
    {es' : List Entry}
    → register_target valid q es ≡ ok (registered, es')
    → (r : Resolved) × (resolve_target q.target_key es' ≡ some r)
      × Says q r
      × (registered ≡ true → Written q (resolve_target q.target_key es) r)
      × (registered ≡ false → es' ≡ es)
unfolding entry_of
register-resolves valid q es h = elim (register-Outcome valid q es h) [
  | appended wrote scheme source made ↦
      let (r, before, at_key) =
        resolve-appended q.target_key es (entry_of q) (eq_refl q.target_key) in
      rw made (
        absorb r (entry_of q),
        at_key,
        entry-Says q r,
        λ said. entry-Written q es r scheme source before,
        λ said. cc (wrote, said),
      )
  | kept skipped r at_key no_news same ↦
      rw same (r, at_key, no_news-Says q r no_news, λ said. cc (skipped, said), λ said. refl)
]

-- A registration is local and appends only: the entries that were there stay in front, and what the
-- register says of any other target is unchanged.
pub register-local :
    (valid : Entry → Bool) (q : Registration) (es : List Entry) (key : String) {registered : Bool}
    {es' : List Entry}
    → str_eq q.target_key key ≡ false
    → register_target valid q es ≡ ok (registered, es')
    → ((more : List Entry) × (es' ≡ es ++ more)) × (resolve_target key es' ≡ resolve_target key es)
unfolding entry_of
register-local valid q es key other h = elim (register-Outcome valid q es h) [
  | appended wrote scheme source made ↦
      rw made ((entry_of q ∷ [], refl), resolve-other key es (entry_of q) other)
  | kept skipped r at_key no_news same ↦ rw same (([], sym (append-nil es)), refl)
]
