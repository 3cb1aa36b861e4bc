-- ===== src/TargetRegistry.antt =====
-- target_registry.py: the append-only register of targets. A register is the list of the entries
-- of its file, in order; an entry is one that `register_target` writes. Whether an entry meets the
-- schema is asked of a parameter. `now` is the time of the entry.
pub mod Resolve
pub mod Register
mod Tests
-- `value or None`
use discord_context_bridge.Shared.{
  Bool, List, Option, String, none, some, Result, true, ◌||◌, strip, false, ◌∷◌, if◌then◌else◌, [],
  not, ok, any, is_empty, str_eq, is_nil, contains, ◌&&◌, ◌++◌, err,
}

abbrev pub non_empty : Option String → Option String
non_empty none = none
non_empty (some s) = if is_empty s then none else some s

pub record Entry : Type 0 where
  pub target_key : String
  pub key_scheme : String
  pub url : Option String
  pub server_label : Option String
  pub channel_label : Option String
  pub aliases : List String
  pub first_seen : String
  pub source : String
  pub source_ref : Option String

-- What the entries of a target say, the last one first.
pub record Resolved : Type 0 where
  pub key_scheme : Option String
  pub url : Option String
  pub server_label : Option String
  pub channel_label : Option String
  pub aliases : List String
  pub first_seen : Option String
  pub source : Option String
  pub source_ref : Option String

abbrev pub unresolved : Resolved
unresolved = record {
  key_scheme = none;
  url = none;
  server_label = none;
  channel_label = none;
  aliases = [];
  first_seen = none;
  source = none;
  source_ref = none;
}

-- `if value: resolved[key] = value`
abbrev pub overwrite : Option String → Option String → Option String
overwrite before none = before
overwrite before (some s) = if is_empty s then before else some s

-- `if key not in resolved and value: resolved[key] = value`
abbrev keep_first : Option String → String → Option String
keep_first none s = non_empty (some s)
keep_first (some before) s = some before

unfoldable pub add_aliases : List String → List String → List String
add_aliases known [] = known
add_aliases known (a ∷ as') =
    add_aliases (if is_empty a || contains a known then known else known ++ a ∷ []) as'

unfoldable pub absorb : Resolved → Entry → Resolved
absorb r e = record {
  key_scheme = overwrite r.key_scheme (some e.key_scheme);
  url = overwrite r.url e.url;
  server_label = overwrite r.server_label e.server_label;
  channel_label = overwrite r.channel_label e.channel_label;
  aliases = add_aliases r.aliases e.aliases;
  first_seen = keep_first r.first_seen e.first_seen;
  source = overwrite r.source (some e.source);
  source_ref = overwrite r.source_ref e.source_ref;
}

unfoldable pub absorb_all : Resolved → List Entry → Resolved
absorb_all r [] = r
absorb_all r (e ∷ es) = absorb_all (absorb r e) es

-- The entries of a target.
unfoldable pub matching : String → List Entry → List Entry
matching key [] = []
matching key (e ∷ es) =
    let rest = matching key es in if str_eq e.target_key key then e ∷ rest else rest

unfoldable pub resolve_target : String → List Entry → Option Resolved
resolve_target key es =
    if is_nil (matching key es) then none else some (absorb_all unresolved (matching key es))

pub data RegistryError : Type 0 where
  unknown_key_scheme unknown_source invalid_artifact : RegistryError

-- The arguments of `register_target`.
pub record Registration : Type 0 where
  pub target_key : String
  pub key_scheme : String
  pub url : Option String
  pub server_label : Option String
  pub channel_label : Option String
  pub aliases : List String
  pub source : String
  pub source_ref : Option String
  pub now : String

abbrev pub valid_key_schemes : List String
valid_key_schemes =
    "url_hash_16" ∷ "title_fallback_16" ∷ "content_hash_24" ∷ "source_url_hash_64"
    ∷ "content_fallback_16" ∷ "stream_id_hash_16" ∷ []

abbrev pub valid_sources : List String
valid_sources = "capture" ∷ "backfill" ∷ "manual" ∷ []

unfoldable pub non_empty_aliases : List String → List String
non_empty_aliases [] = []
non_empty_aliases (a ∷ as') =
    let rest = non_empty_aliases as' in if is_empty a then rest else a ∷ rest

unfoldable pub entry_of : Registration → Entry
entry_of q = record {
  target_key = q.target_key;
  key_scheme = q.key_scheme;
  url = non_empty q.url;
  server_label = non_empty q.server_label;
  channel_label = non_empty q.channel_label;
  aliases = non_empty_aliases q.aliases;
  first_seen = q.now;
  source = q.source;
  source_ref = non_empty q.source_ref;
}

-- `value != known`, of a value that is there
abbrev differs : String → Option String → Bool
differs s none = true
differs s (some known) = not (str_eq s known)

-- `value and value != known`
abbrev is_new : Option String → Option String → Bool
is_new none known = false
is_new (some s) known = not (is_empty s) && differs s known

abbrev stripped_url : Option String → Option String
stripped_url none = none
stripped_url (some s) = some (strip s)

-- An argument brings something that the register does not say of the target.
unfoldable pub is_news : Registration → Resolved → Bool
is_news q r =
    is_new (stripped_url q.url) (non_empty r.url)
    || any (λ a. not (contains a r.aliases)) (non_empty_aliases q.aliases)
    || is_new q.server_label r.server_label
    || is_new q.channel_label r.channel_label

unfoldable pub append_entry :
    (Entry → Bool) → Registration → List Entry → Result RegistryError (Bool × List Entry)
append_entry valid q es =
    if valid (entry_of q) then ok (true, es ++ entry_of q ∷ []) else err invalid_artifact

-- Whether the target was registered, and the register after that.
unfoldable pub register_target :
    (Entry → Bool) → Registration → List Entry → Result RegistryError (Bool × List Entry)
register_target valid q es =
    if not (contains q.key_scheme valid_key_schemes)
    then err unknown_key_scheme
    else if not (contains q.source valid_sources)
    then err unknown_source
    else (elim (resolve_target q.target_key es) [
      | none ↦ append_entry valid q es
      | some r ↦ if is_news q r then append_entry valid q es else ok (false, es)
    ])

abbrev label_of : String → Option Resolved → String
label_of key none = key
label_of key (some r) = elim (non_empty r.channel_label) [
  | some label ↦ label
  | none ↦ elim (non_empty r.server_label) [ some label ↦ label | none ↦ key ]
]

-- The label for output; a url is none.
unfoldable pub safe_target_label : String → List Entry → String
safe_target_label key es = label_of key (resolve_target key es)
