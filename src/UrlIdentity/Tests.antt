-- ===== src/UrlIdentity/Tests.antt =====
-- The theorems at concrete URLs, and runs of the classifier.
use discord_context_bridge.UrlIdentity.{
  match_url, match_segments, drop_host, drop_prefix, more_segments, take_segment, is_end, kind_of,
  classify_matched, url_checks, classify_discord_url, read_effective_channel, thread, is_number,
}
use discord_context_bridge.Shared.{
  true, false, some, [], ◌∷◌, codes, String, ◌≡◌, ◌↔◌, refl, arith, strip, lower,
}
use discord_context_bridge.UrlIdentity.RoundTrip.{
  match_url-url_text, read_effective_channel-url_text, url_text, stable, canary,
}
use discord_context_bridge.UrlIdentity.Resolution.{classify-resolved_kind, Resolves}

match_url-url_text_example :
    match_url
      (url_text canary true (codes "@me") (codes "42" ∷ codes "threads" ∷ []) (codes "/?a=1"))
    ≡ some (codes "@me" ∷ codes "42" ∷ codes "threads" ∷ [])
unfolding is_end
match_url-url_text_example =
    match_url-url_text canary true (codes "@me") (codes "42" ∷ codes "threads" ∷ []) (codes "/?a=1")
      (refl, refl) ((refl, refl), ((refl, refl), tt)) (omega arith) refl

read_effective_channel-url_text_example :
    (read_effective_channel (url_text stable false (codes "7") (codes "42" ∷ []) (codes "#x"))
      ≡ some (codes "7", codes "42"))
    × (read_effective_channel (
          url_text stable false
            (codes "7")
            (codes "42" ∷ codes "threads" ∷ codes "99" ∷ [])
            (codes "#x"))
        ≡ some (codes "7", codes "99"))
unfolding is_end is_number
read_effective_channel-url_text_example =
    read_effective_channel-url_text stable false (codes "7") (codes "42") (codes "99") (codes "#x")
      refl refl refl refl

abbrev thread_url : String
thread_url = " https://discord.com/channels/7/42/99 "

classify-resolved_kind_example :
    ((classify_discord_url thread_url "Thread" "api" "2026-01-01").resolved_kind ≡ thread)
    ↔ Resolves thread_url "Thread" "api" "2026-01-01" thread
classify-resolved_kind_example =
    classify-resolved_kind thread_url "Thread" "api" "2026-01-01" thread refl

thread_resolves : (classify_discord_url thread_url "Thread" "api" "2026-01-01").resolved ≡ true
unfolding classify_discord_url match_url match_segments drop_host drop_prefix more_segments
    take_segment is_end kind_of classify_matched url_checks strip lower
thread_resolves = refl

no_evidence :
    (classify_discord_url thread_url "thread" "" "").blockers
    ≡ "resolution_evidence_missing" ∷ "resolution_observed_at_missing" ∷ []
unfolding classify_discord_url match_url match_segments drop_host drop_prefix more_segments
    take_segment is_end kind_of classify_matched url_checks strip lower
no_evidence = refl
