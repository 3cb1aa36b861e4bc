-- ===== src/UrlIdentity/RoundTrip.antt =====
-- A URL that is written from its ids is read back to them.
use discord_context_bridge.UrlIdentity.{
  drop_host, is_end, more_segments, take_segment, drop_prefix, is_query, in_segment, match_url,
  match_segments, is_number, read_effective_channel, read_guild_channel, effective_with, channel_in,
}
use mathlib.Core.List.{append_assoc}
use discord_context_bridge.Shared.{
  true, false, none, some, [], ◌∷◌, zero, suc, inl, inr, Bool, List, ℕ, All, all, is_nil, ◌≡◌,
  codes, ◌++◌, not, length, arith, refl, ◌≤◌, Bool-cases, ◌==◌, ap, Option, ◌∙◌, leb, ◌&&◌,
}

pub data Host : Type 0 where
  stable canary ptb : Host

abbrev host_prefix : Host → List ℕ
host_prefix stable = codes "https://"
host_prefix canary = codes "https://canary."
host_prefix ptb = codes "https://ptb."

abbrev app_text : Bool → List ℕ
app_text false = codes "discord.com/channels/"
app_text true = codes "discordapp.com/channels/"

abbrev more_text : List (List ℕ) → List ℕ
more_text [] = []
more_text (s ∷ ss) = b'/' ∷ (s ++ more_text ss)

-- A URL by its host, its segments and what follows them.
abbrev pub url_text : Host → Bool → List ℕ → List (List ℕ) → List ℕ → List ℕ
url_text h app first ss e = host_prefix h ++ (app_text app ++ (first ++ (more_text ss ++ e)))

-- A segment that the pattern takes whole.
abbrev pub IsSegment : List ℕ → Type 0
IsSegment s = (is_nil s ≡ false) × (all in_segment s ≡ true)

drop_host-url_text :
    (h : Host) (app : Bool) (cs : List ℕ)
    → drop_host (host_prefix h ++ (app_text app ++ cs)) ≡ some cs
unfolding drop_host drop_prefix
drop_host-url_text stable false cs = refl
drop_host-url_text stable true cs = refl
drop_host-url_text canary false cs = refl
drop_host-url_text canary true cs = refl
drop_host-url_text ptb false cs = refl
drop_host-url_text ptb true cs = refl

-- A rest at which a segment stops.
abbrev stops : List ℕ → Bool
stops [] = true
stops (c ∷ cs) = not (in_segment c)

take_segment-append :
    (s rest : List ℕ)
    → all in_segment s ≡ true
    → stops rest ≡ true
    → take_segment (s ++ rest) ≡ (s, rest)
unfolding take_segment
take_segment-append [] [] h t = refl
take_segment-append [] (c ∷ rest) h t = ground arith
take_segment-append (c ∷ s) rest h t =
    let inside : in_segment c ≡ true = ground arith in
    rw (take_segment-append s rest (ground arith) t) (rw inside refl)

take_segment-end : (e : List ℕ) → is_query e ≡ true → take_segment e ≡ ([], e)
unfolding take_segment
take_segment-end [] h = refl
take_segment-end (c ∷ e) h = ground arith

stops-end : (e : List ℕ) → is_end e ≡ true → stops e ≡ true
unfolding is_end
stops-end [] h = refl
stops-end (c ∷ e) h = ground arith

more_segments-end : (n : ℕ) (e : List ℕ) → is_end e ≡ true → more_segments n e ≡ ([], e)
unfolding more_segments is_end
more_segments-end zero e h = refl
more_segments-end (suc n) [] h = refl
more_segments-end (suc n) (c ∷ e) h = elim (Bool-cases (c == b'/')) [
  | inl slash ↦
      let query : is_query e ≡ true = ground arith in rw (take_segment-end e query) (rw slash refl)
  | inr other ↦ rw other refl
]

stops-more_text :
    (ss : List (List ℕ)) (e : List ℕ) → stops e ≡ true → stops (more_text ss ++ e) ≡ true
stops-more_text [] e h = h
stops-more_text (s ∷ ss) e h = refl

more_segments-more_text :
    (n : ℕ) (ss : List (List ℕ)) (e : List ℕ)
    → All IsSegment ss
    → length ss ≤ n
    → is_end e ≡ true
    → more_segments n (more_text ss ++ e) ≡ (ss, e)
unfolding more_segments
more_segments-more_text n [] e whole few ended = more_segments-end n e ended
more_segments-more_text zero (s ∷ ss) e whole few ended = absurd (omega arith)
more_segments-more_text (suc n) (s ∷ ss) e whole few ended =
    let taken : take_segment ((s ++ more_text ss) ++ e) ≡ (s, more_text ss ++ e) =
      rw (append_assoc s (more_text ss) e) (
        take_segment-append s (more_text ss ++ e) whole.0.1
          (stops-more_text ss e (stops-end e ended))) in
    rw taken (rw (more_segments-more_text n ss e whole.1 (omega arith) ended) (rw whole.0.0 refl))

match_segments-append :
    (first : List ℕ) (ss : List (List ℕ)) (e : List ℕ)
    → IsSegment first
    → All IsSegment ss
    → length ss ≤ 3
    → is_end e ≡ true
    → match_segments (first ++ (more_text ss ++ e)) ≡ some (first ∷ ss)
unfolding match_segments
match_segments-append first ss e segment whole few ended =
    rw
      (take_segment-append first (more_text ss ++ e) segment.1
        (stops-more_text ss e (stops-end e ended)))
      (rw (more_segments-more_text 3 ss e whole few ended) (rw segment.0 (rw ended refl)))

-- A URL that is written from one to four segments, with a query or a slash after them or nothing, is
-- matched, and its groups are the segments.
pub match_url-url_text :
    (h : Host) (app : Bool) (first : List ℕ) (ss : List (List ℕ)) (e : List ℕ)
    → IsSegment first
    → All IsSegment ss
    → length ss ≤ 3
    → is_end e ≡ true
    → match_url (url_text h app first ss e) ≡ some (first ∷ ss)
unfolding match_url
match_url-url_text h app first ss e segment whole few ended =
    ap
      (λ r. elim r as (λ x. Option (List (List ℕ))) [
        | none ↦ none
        | some rest ↦ match_segments rest
      ])
      (drop_host-url_text h app (first ++ (more_text ss ++ e)))
    ∙ match_segments-append first ss e segment whole few ended

abbrev is_digit : ℕ → Bool
is_digit c = leb b'0' c && leb c b'9'

digits-in_segment : (cs : List ℕ) → all is_digit cs ≡ true → all in_segment cs ≡ true
digits-in_segment [] h = refl
digits-in_segment (c ∷ cs) h =
    let rest : all in_segment cs ≡ true = digits-in_segment cs (ground arith) in ground arith

is_number-IsSegment : (cs : List ℕ) → is_number cs ≡ true → IsSegment cs
unfolding is_number
is_number-IsSegment cs h = (ground arith, digits-in_segment cs (ground arith))

effective-channel :
    (cs g p : List ℕ)
    → match_url cs ≡ some (g ∷ p ∷ [])
    → is_number g ≡ true
    → is_number p ≡ true
    → read_effective_channel cs ≡ some (g, p)
unfolding read_effective_channel read_guild_channel
effective-channel cs g p m hg hp = ap (λ r. effective_with r (channel_in r)) m ∙ rw hg (rw hp refl)

effective-thread :
    (cs g p t : List ℕ)
    → match_url cs ≡ some (g ∷ p ∷ codes "threads" ∷ t ∷ [])
    → is_number g ≡ true
    → is_number p ≡ true
    → is_number t ≡ true
    → read_effective_channel cs ≡ some (g, t)
unfolding read_effective_channel read_guild_channel
effective-thread cs g p t m hg hp ht =
    ap (λ r. effective_with r (channel_in r)) m ∙ rw hg (rw hp (rw ht refl))

-- The channel of a URL with the ids of a guild and a channel is that channel, and of a URL with a
-- thread under its parent it is the thread.
pub read_effective_channel-url_text :
    (h : Host) (app : Bool) (g p t e : List ℕ)
    → is_number g ≡ true
    → is_number p ≡ true
    → is_number t ≡ true
    → is_end e ≡ true
    → (read_effective_channel (url_text h app g (p ∷ []) e) ≡ some (g, p))
      × (read_effective_channel (url_text h app g (p ∷ codes "threads" ∷ t ∷ []) e) ≡ some (g, t))
read_effective_channel-url_text h app g p t e hg hp ht ended =
    let channel_groups : match_url (url_text h app g (p ∷ []) e) ≡ some (g ∷ p ∷ []) =
      match_url-url_text h app g (p ∷ []) e (is_number-IsSegment g hg)
        (is_number-IsSegment p hp, tt) (omega arith) ended in
    let thread_groups : match_url (url_text h app g (p ∷ codes "threads" ∷ t ∷ []) e)
        ≡ some (g ∷ p ∷ codes "threads" ∷ t ∷ []) =
      match_url-url_text h app g (p ∷ codes "threads" ∷ t ∷ []) e (is_number-IsSegment g hg)
        (is_number-IsSegment p hp, ((refl, refl), (is_number-IsSegment t ht, tt))) (omega arith)
        ended in
    (effective-channel _ g p channel_groups hg hp, effective-thread _ g p t thread_groups hg hp ht)
