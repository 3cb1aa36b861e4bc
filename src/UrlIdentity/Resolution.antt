-- ===== src/UrlIdentity/Resolution.antt =====
-- What it takes for a classification to resolve the kind of a target.
use discord_context_bridge.UrlIdentity.{
  match_url, kind_of, is_unknown, expects, classify_matched, url_checks, Kind, unknown, channel,
  forum_parent, thread, message, classify_discord_url, classified, invalid_url,
}
use discord_context_bridge.Shared.{
  true, false, none, some, inl, inr, Option, ℕ, String, List, ◌≡◌, ◌↔◌, codes, ◌≤◌, is_empty, strip,
  arith, lower, ltb, length, refl, ap, failed, Bool-cases, not, ◌&&◌, is_nil, AllPass, nil-failed,
  sym, not-false, Bool, if◌then◌else◌,
}

-- A target is resolved to a kind: the URL matches, the kind is the one that is named, it takes
-- as many ids as the URL has, and both texts of evidence are more than white space.
pub record Resolves (url kind source observed_at : String) (k : Kind) : Type 0 where
  pub groups : List (List ℕ)
  pub matched : match_url (codes (strip url)) ≡ some groups
  pub kind_named : kind_of (lower (codes (strip kind))) ≡ some k
  pub expected : expects k (length groups) ≡ true
  pub has_source : is_empty (strip source) ≡ false
  pub has_time : is_empty (strip observed_at) ≡ false

expects-two : (k : Kind) (n : ℕ) → is_unknown k ≡ false → expects k n ≡ true → 2 ≤ n
expects-two unknown n h e = ground arith
expects-two channel n h e = ground arith
expects-two forum_parent n h e = ground arith
expects-two thread n h e = ground arith
expects-two message n h e = ground arith

matched-resolves :
    (k : Kind) (n : ℕ) (source observed_at : String)
    → is_unknown k ≡ false
    → expects k n ≡ true
    → is_empty (strip source) ≡ false
    → is_empty (strip observed_at) ≡ false
    → ((classify_matched (some k) n source observed_at).resolved ≡ true)
      × ((classify_matched (some k) n source observed_at).resolved_kind ≡ k)
unfolding classify_matched url_checks
matched-resolves k n source observed_at known expected has_source has_time =
    let two : ltb n 2 ≡ false = let two = expects-two k n known expected in ground arith in
    rw (two, known, expected, has_source, has_time) (refl, refl)

unresolved_kind : (j k : Kind) (b : Bool) → b ≡ false → (if b then j else unknown) ≡ k → unknown ≡ k
unresolved_kind j k true h r = absurd cc
unresolved_kind j k false h r = r

matched-kind :
    (named : Option Kind) (n : ℕ) (source observed_at : String) (k : Kind)
    → is_unknown k ≡ false
    → (classify_matched named n source observed_at).resolved_kind ≡ k
    → (named ≡ some k)
      × (expects k n ≡ true)
      × (is_empty (strip source) ≡ false)
      × (is_empty (strip observed_at) ≡ false)
unfolding classify_matched url_checks
matched-kind none n source observed_at k known reported =
    absurd (cc (ap is_unknown reported, known))
matched-kind (some j) n source observed_at k known reported =
    let blockers = failed (url_checks (some j) n source observed_at) in
    elim (Bool-cases (not (is_unknown j) && is_nil blockers)) [
      | inl resolved ↦
          let same : j ≡ k = ground (arith, resolved, reported) in
          let passed : AllPass (url_checks (some j) n source observed_at) =
            (nil-failed (url_checks (some j) n source observed_at)).0 (ground (arith, resolved)) in
          let named : is_unknown j ≡ false = rw same known in
          (
            ap some same,
            rw (sym same) (not-false _ passed.1.1.0),
            ground (arith, passed.1.1.1.0, named),
            ground (arith, passed.1.1.1.1.0, named),
          )
      | inr unresolved ↦
          absurd (cc (ap is_unknown (unresolved_kind j k _ unresolved reported), known))
    ]

classified-kind :
    (m : Option (List (List ℕ))) (named : Option Kind) (source observed_at : String) (k : Kind)
    → is_unknown k ≡ false
    → (classified m named source observed_at).resolved_kind ≡ k
    → (groups : List (List ℕ)) × (m ≡ some groups)
      × (named ≡ some k)
      × (expects k (length groups) ≡ true)
      × (is_empty (strip source) ≡ false)
      × (is_empty (strip observed_at) ≡ false)
unfolding invalid_url
classified-kind none named source observed_at k known reported =
    absurd (cc (ap is_unknown reported, known))
classified-kind (some groups) named source observed_at k known reported =
    let (kind_named, expected, has_source, has_time) =
      matched-kind named (length groups) source observed_at k known reported in
    (groups, refl, kind_named, expected, has_source, has_time)

kind-classified :
    (m : Option (List (List ℕ))) (named : Option Kind) (groups : List (List ℕ))
    (source observed_at : String) (k : Kind)
    → is_unknown k ≡ false
    → m ≡ some groups
    → named ≡ some k
    → expects k (length groups) ≡ true
    → is_empty (strip source) ≡ false
    → is_empty (strip observed_at) ≡ false
    → (classified m named source observed_at).resolved_kind ≡ k
kind-classified m named groups source observed_at k known matched kind_named e s t =
    rw (matched, kind_named) ((matched-resolves k (length groups) source observed_at known e s t).1)

-- A classification reports a kind other than `unknown` exactly if the URL matches, the kind is the
-- one that is named, it takes as many ids as the URL has, and both texts of evidence are given.
pub classify-resolved_kind :
    (url kind source observed_at : String) (k : Kind)
    → is_unknown k ≡ false
    → ((classify_discord_url url kind source observed_at).resolved_kind ≡ k)
      ↔ Resolves url kind source observed_at k
unfolding classify_discord_url
classify-resolved_kind url kind source observed_at k known = (
  (λ reported.
      let found =
        classified-kind (match_url (codes (strip url))) (kind_of (lower (codes (strip kind))))
          source observed_at k known reported in
      record {
        groups = found.0;
        matched = found.1;
        kind_named = found.2;
        expected = found.3;
        has_source = found.4;
        has_time = found.5;
      }),
  λ r.
      kind-classified (match_url (codes (strip url))) (kind_of (lower (codes (strip kind))))
        r.groups source observed_at k known r.matched r.kind_named r.expected r.has_source
        r.has_time,
)
