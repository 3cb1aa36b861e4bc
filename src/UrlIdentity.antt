-- ===== src/UrlIdentity.antt =====
-- url_identity.py: the shape of a Discord URL, and the kind of its target by evidence from outside.
-- A URL is matched as its code points. The pattern has no ambiguity: a segment ends at the first
-- slash, question mark or number sign, so that it is matched from the front.
use discord_context_bridge.Shared.{
  true, false, none, some, [], ◌∷◌, ok, err, str, bool, null, int, float, obj, arr, end, field, nil,
  cons, pos, negsuc, zero, suc, inl, inr, ℕ, List, Bool, Option, String, ◌==◌, if◌then◌else◌,
  Checks, codes, failed, codes_eq, not, ◌||◌, ltb, is_nil, strip, ◌&&◌, lower, is_some, leb, all,
  length, is_empty,
}
pub mod RoundTrip
pub mod Resolution
mod Tests

-- `text` without a prefix that it has
unfoldable pub drop_prefix : List ℕ → List ℕ → Option (List ℕ)
drop_prefix [] cs = some cs
drop_prefix (p ∷ ps) [] = none
drop_prefix (p ∷ ps) (c ∷ cs) = let rest = drop_prefix ps cs in if p == c then rest else none

abbrev or_same : List ℕ → Option (List ℕ) → List ℕ
or_same cs none = cs
or_same cs (some rest) = rest

-- `(?:prefix)?`
abbrev drop_optional : List ℕ → List ℕ → List ℕ
drop_optional p cs = or_same cs (drop_prefix p cs)

-- `(?:canary\.|ptb\.)?`
abbrev drop_channel : List ℕ → List ℕ
drop_channel cs = elim (drop_prefix (codes "canary.") cs) [
  | none ↦ drop_optional (codes "ptb.") cs
  | some rest ↦ rest
]

abbrev after_app : Option (List ℕ) → Option (List ℕ)
after_app none = none
after_app (some cs) = drop_prefix (codes ".com/channels/") (drop_optional (codes "app") cs)

abbrev after_scheme : Option (List ℕ) → Option (List ℕ)
after_scheme none = none
after_scheme (some cs) = after_app (drop_prefix (codes "discord") (drop_channel cs))

-- What follows the host and `/channels/`.
unfoldable pub drop_host : List ℕ → Option (List ℕ)
drop_host cs = after_scheme (drop_prefix (codes "https://") cs)

-- `[^/?#]`
abbrev pub in_segment : ℕ → Bool
in_segment c = not (c == b'/' || c == b'?' || c == b'#')

-- `[^/?#]*`, as much as there is, and the rest
unfoldable pub take_segment : List ℕ → List ℕ × List ℕ
take_segment [] = ([], [])
take_segment (c ∷ cs) =
    let rest = take_segment cs in if in_segment c then (c ∷ rest.0, rest.1) else ([], c ∷ cs)

abbrev starts_slash : List ℕ → Bool
starts_slash [] = false
starts_slash (c ∷ cs) = c == b'/'

abbrev tail_of : List ℕ → List ℕ
tail_of [] = []
tail_of (c ∷ cs) = cs

-- `(?:/([^/?#]+))?`, so many times
unfoldable pub more_segments : ℕ → List ℕ → List (List ℕ) × List ℕ
more_segments zero cs = ([], cs)
more_segments (suc n) cs =
    let found = take_segment (tail_of cs) in
    let rest = more_segments n found.1 in
    if starts_slash cs && not (is_nil found.0) then (found.0 ∷ rest.0, rest.1) else ([], cs)

-- `(?:[?#].*)?$`, where `.` is no line feed
abbrev is_query : List ℕ → Bool
is_query [] = true
is_query (c ∷ cs) = (c == b'?' || c == b'#') && all (λ d. not (d == 10)) cs

-- `/?(?:[?#].*)?$`
unfoldable pub is_end : List ℕ → Bool
is_end cs = is_query (if starts_slash cs then tail_of cs else cs)

-- One to four segments.
unfoldable pub match_segments : List ℕ → Option (List (List ℕ))
match_segments cs =
    let first = take_segment cs in
    let rest = more_segments 3 first.1 in
    if not (is_nil first.0) && is_end rest.1 then some (first.0 ∷ rest.0) else none

-- `_URL_RE.fullmatch`, by its groups
unfoldable pub match_url : List ℕ → Option (List (List ℕ))
match_url cs = elim (drop_host cs) [ none ↦ none | some rest ↦ match_segments rest ]

-- `[0-9]+`
unfoldable pub is_number : List ℕ → Bool
is_number cs = not (is_nil cs) && all (λ c. leb b'0' c && leb c b'9') cs

abbrev guild_channel : List (List ℕ) → Option (List ℕ × List ℕ)
guild_channel (g ∷ c ∷ []) = if is_number g && is_number c then some (g, c) else none
guild_channel _ = none

abbrev pub channel_in : Option (List (List ℕ)) → Option (List ℕ × List ℕ)
channel_in none = none
channel_in (some groups) = guild_channel groups

unfoldable pub read_guild_channel : List ℕ → Option (List ℕ × List ℕ)
read_guild_channel cs = channel_in (match_url cs)

unfoldable pub parse_guild_channel_url : String → Option (List ℕ × List ℕ)
parse_guild_channel_url url = read_guild_channel (codes (strip url))

abbrev thread_of_parent : List (List ℕ) → Option (List ℕ × List ℕ)
thread_of_parent (g ∷ p ∷ m ∷ t ∷ []) =
    if codes_eq m (codes "threads") && is_number g && is_number p && is_number t
    then some (g, t)
    else none
thread_of_parent _ = none

abbrev guild_thread : Option (List (List ℕ)) → Option (List ℕ × List ℕ)
guild_thread none = none
guild_thread (some groups) = thread_of_parent groups

abbrev pub effective_with :
    Option (List (List ℕ)) → Option (List ℕ × List ℕ) → Option (List ℕ × List ℕ)
effective_with groups none = guild_thread groups
effective_with groups (some ids) = some ids

unfoldable pub read_effective_channel : List ℕ → Option (List ℕ × List ℕ)
read_effective_channel cs = effective_with (match_url cs) (read_guild_channel cs)

unfoldable pub parse_effective_channel_url : String → Option (List ℕ × List ℕ)
parse_effective_channel_url url = read_effective_channel (codes (strip url))

pub data Kind : Type 0 where
  unknown channel forum_parent thread message : Kind

pub data Shape : Type 0 where
  invalid guild_only guild_channel_target nested_target nested_message_target : Shape

abbrev named : List ℕ → String → Bool
named cs name = codes_eq cs (codes name)

-- The kind that a text names, if it is one of `_KINDS`; an empty text is `unknown`.
unfoldable pub kind_of : List ℕ → Option Kind
kind_of cs =
    if is_nil cs || named cs "unknown"
    then some unknown
    else if named cs "channel"
    then some channel
    else if named cs "forum_parent"
    then some forum_parent
    else if named cs "thread"
    then some thread
    else if named cs "message"
    then some message
    else none

abbrev kind_or_unknown : Option Kind → Kind
kind_or_unknown none = unknown
kind_or_unknown (some k) = k

abbrev is_unknown : Kind → Bool
is_unknown unknown = true
is_unknown _ = false

-- `count in expected_counts[kind]`, for a count from 1 to 4
abbrev pub expects : Kind → ℕ → Bool
expects channel n = n == 2
expects forum_parent n = n == 2
expects thread n = n == 3
expects message n = n == 3 || n == 4
expects unknown n = leb 1 n && leb n 4

unfoldable pub shape_of : ℕ → Shape
shape_of n =
    if n == 1
    then guild_only
    else if n == 2
    then guild_channel_target
    else if n == 3
    then nested_target
    else if n == 4
    then nested_message_target
    else invalid

pub record Classified : Type 0 where
  pub valid : Bool
  pub shape : Shape
  pub resolved_kind : Kind
  pub resolved : Bool
  pub evidence_source : String
  pub evidence_observed_at : String
  pub id_count : ℕ
  pub blockers : List String

unfoldable pub invalid_url : Classified
invalid_url = record {
  valid = false;
  shape = invalid;
  resolved_kind = unknown;
  resolved = false;
  evidence_source = "none";
  evidence_observed_at = "";
  id_count = 0;
  blockers = "discord_channel_url_required" ∷ [];
}

unfoldable pub url_checks : Option Kind → ℕ → String → String → Checks
url_checks k n source observed_at =
    (ltb n 2, "discord_channel_url_required")
    ∷ (not (is_some k), "unsupported_resolved_kind")
    ∷ (not (expects (kind_or_unknown k) n), "resolved_kind_shape_mismatch")
    ∷ (
      not (is_unknown (kind_or_unknown k)) && is_empty (strip source),
      "resolution_evidence_missing",
    )
    ∷ (
      not (is_unknown (kind_or_unknown k)) && is_empty (strip observed_at),
      "resolution_observed_at_missing",
    )
    ∷ []

unfoldable pub classify_matched : Option Kind → ℕ → String → String → Classified
classify_matched k n source observed_at =
    let blockers = failed (url_checks k n source observed_at) in
    let resolved = not (is_unknown (kind_or_unknown k)) && is_nil blockers in
    record {
      valid = leb 2 n && is_nil blockers;
      shape = shape_of n;
      resolved_kind = if resolved then kind_or_unknown k else unknown;
      resolved = resolved;
      evidence_source = if resolved then strip source else "none";
      evidence_observed_at = if resolved then strip observed_at else "";
      id_count = n;
      blockers = blockers;
    }

abbrev pub classified : Option (List (List ℕ)) → Option Kind → String → String → Classified
classified none k source observed_at = invalid_url
classified (some groups) k source observed_at =
    classify_matched k (length groups) source observed_at

unfoldable pub classify_discord_url : String → String → String → String → Classified
classify_discord_url url kind source observed_at =
    classified (match_url (codes (strip url))) (kind_of (lower (codes (strip kind)))) source
      observed_at
