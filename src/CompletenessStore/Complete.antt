-- ===== src/CompletenessStore/Complete.antt =====
-- When the audit of completeness_store.py finds a parent full.
use discord_context_bridge.CompletenessStore.Strict.{
  IsComplete, IsSameInventory, HasStrict, is_strict-HasStrict, scan_complete-IsComplete,
  digest_match-IsSameInventory,
}
use discord_context_bridge.CompletenessStore.Retiring.{any-retires-kept, certificate_of-kept}
use discord_context_bridge.CompletenessStore.ParentCertificate.{retire}
use discord_context_bridge.CompletenessStore.Recording.{ids_of}
use discord_context_bridge.CompletenessStore.ScopeReceipts.{has_key}
use discord_context_bridge.CompletenessStore.{
  Certificate, Column, Scan, scopes_of_kind, loaded, absent, broken, Store, contains,
}
use discord_context_bridge.CompletenessStore.Audit.{
  latest_facts, latest_of, children_checks, Latest, child_checks, lacks_certificate, facts_in,
  is_strict, certificate_of, audit_checks, scan_checks, facts_of, retires,
  retire_absent_certificates, kept_certificates,
}
use discord_context_bridge.CompletenessStore.Verified.{
  scan_complete, verified, stored_scope_receipts, receipt_value, stable, first_two,
}
use discord_context_bridge.Shared.{
  true, false, none, some, [], ◌∷◌, inl, inr, String, Checks, Bool, ◌++◌, ◌≡◌, List, is_nil, ◌&&◌,
  failed, all, refl, arith, Runtime, Option, not, is_some, is_true, any, contains, ◌↔◌, All,
  eq_refl, Bool-cases,
}

-- No check of the table found anything wrong.
abbrev passes : Checks → Bool
passes checks = is_nil (failed checks)

passes-append : (xs ys : Checks) → passes (xs ++ ys) ≡ (passes xs && passes ys)
passes-append [] ys = refl
passes-append ((true, reason) ∷ xs) ys = refl
passes-append ((false, reason) ∷ xs) ys = passes-append xs ys

all-and :
    (p q : String → Bool) (xs : List String) → all (λ x. p x && q x) xs ≡ (all p xs && all q xs)
all-and p q [] = refl
all-and p q (x ∷ xs) = ground (arith, all-and p q xs)

stored-valid :
    (rt : Runtime) (kind : Option String) (column : Column) (given : Latest)
    → (stored_scope_receipts rt column kind).valid ≡ true
    → facts_in column given ≡ given
unfolding stored_scope_receipts
stored-valid rt kind absent given h = cc
stored-valid rt kind broken given h = refl
stored-valid rt kind (loaded v) given h = refl

-- A complete latest scan raises no check of its own.
facts_complete :
    (rt : Runtime) (s : Scan) → scan_complete rt s ≡ true → passes (latest_facts rt s).checks ≡ true
unfolding scan_complete latest_facts latest_of verified
facts_complete rt s h =
    rw
      (stored-valid rt s.parent_kind s.scope_receipts
        (latest_of s.parent_kind (scopes_of_kind s.parent_kind) (verified rt s)) (ground arith))
      (ground (
        arith,
        all-and (λ scope. has_key scope (verified rt s).receipts)
            (λ scope. is_true (receipt_value scope "terminal_reached" (verified rt s).receipts))
            (scopes_of_kind s.parent_kind),
      ))

child-passes : (c : Option Certificate) → (is_some c && passes (child_checks c)) ≡ is_strict c
child-passes none = refl
child-passes (some c) = ground arith

children-pass :
    (key : String) (cs : List Certificate) (ids : List String)
    → (not (lacks_certificate key cs ids) && passes (children_checks key cs ids))
      ≡ all (λ id. is_strict (certificate_of key id cs)) ids
unfolding children_checks
children-pass key cs [] = refl
children-pass key cs (id ∷ ids) = ground (
  arith,
  children-pass key cs ids,
  child-passes (certificate_of key id cs),
  passes-append (child_checks (certificate_of key id cs)) (children_checks key cs ids),
)

complete-valid :
    (rt : Runtime) (s : Scan) → scan_complete rt s ≡ true → (verified rt s).valid ≡ true
unfolding scan_complete
complete-valid rt s h = ground arith

passes-scan_checks :
    (rt : Runtime) (s t : Scan) → passes (scan_checks rt (s ∷ t ∷ [])) ≡ stable rt (s ∷ t ∷ [])
unfolding scan_checks
passes-scan_checks rt s t = ground (arith, complete-valid rt s, complete-valid rt t)

-- The checks on the certificates.
abbrev child_table : String → List Certificate → List String → Checks
child_table key cs ids =
    (lacks_certificate key cs ids, "child_capture_certificate_missing")
    ∷ (any (retires key ids) cs, "child_certificate_not_in_latest_inventory")
    ∷ children_checks key cs ids

-- Every thread has a strict certificate.
abbrev pub strict_children : String → List Certificate → List String → Bool
strict_children key cs ids = all (λ id. is_strict (certificate_of key id cs)) ids

passes-audit_checks :
    (rt : Runtime) (key : String) (s t : Scan) (cs : List Certificate)
    → passes (audit_checks rt key (s ∷ t ∷ []) cs) ≡ (
        stable rt (s ∷ t ∷ [])
        && (not (any (retires key (ids_of s.threads)) cs)
            && strict_children key cs (ids_of s.threads)))
unfolding audit_checks facts_of
passes-audit_checks rt key s t cs = ground (
  arith,
  children-pass key cs (ids_of s.threads),
  facts_complete rt s,
  passes-scan_checks rt s t,
  passes-append (scan_checks rt (s ∷ t ∷ []))
      ((latest_facts rt s).checks ++ child_table key cs (ids_of s.threads)),
  passes-append (latest_facts rt s).checks (child_table key cs (ids_of s.threads)),
)

strict_children-kept :
    (key : String) (latest : List String) (cs : List Certificate) (ids : List String)
    → ((id : String) → contains id ids ≡ true → contains id latest ≡ true)
    → strict_children key (kept_certificates key latest cs) ids ≡ strict_children key cs ids
strict_children-kept key latest cs [] within = refl
strict_children-kept key latest cs (id ∷ ids) within =
    let known : contains id latest ≡ true = within id (ground (arith, eq_refl id)) in
    let same : certificate_of key id (kept_certificates key latest cs) ≡ certificate_of key id cs =
      ground (arith, certificate_of-kept key latest key id cs) in
    rw (same, strict_children-kept key latest cs ids (λ j h. within j (ground arith)))

-- The checks on what the retirement leaves.
passes-after :
    (rt : Runtime) (key : String) (s t : Scan) (store : Store)
    → passes (audit_checks rt key (s ∷ t ∷ []) (retire rt key (s ∷ t ∷ []) store).certificates)
      ≡ (stable rt (s ∷ t ∷ []) && strict_children key store.certificates (ids_of s.threads))
unfolding retire_absent_certificates
passes-after rt key s t store = elim (Bool-cases (stable rt (s ∷ t ∷ []))) [
  | inl due ↦ rw due (
      ground (
        arith,
        passes-audit_checks rt key s t
            (kept_certificates key (ids_of s.threads) store.certificates),
        any-retires-kept key (ids_of s.threads) store.certificates,
        strict_children-kept key (ids_of s.threads) store.certificates (ids_of s.threads)
            (λ id h. h),
      ))
  | inr not_due ↦ rw not_due (ground (arith, passes-audit_checks rt key s t store.certificates))
]

-- The two latest scans are complete and agree in the digests and the counts of their threads, and
-- every thread of the latest has a strict certificate.
abbrev pub FullScans : Runtime → String → List Certificate → List Scan → Type 0
FullScans rt key cs (s ∷ t ∷ rest) =
    IsComplete rt s
    × IsComplete rt t
    × IsSameInventory rt s t
    × All (λ id. HasStrict (certificate_of key id cs)) (ids_of s.threads)
FullScans rt key cs _ = ⊥

All-strict :
    (key : String) (cs : List Certificate) (ids : List String)
    → (strict_children key cs ids ≡ true) ↔ All (λ id. HasStrict (certificate_of key id cs)) ids
All-strict key cs [] = (λ h. tt, λ h. refl)
All-strict key cs (id ∷ ids) =
    let (there, back) = All-strict key cs ids in
    let (strict, known) = is_strict-HasStrict (certificate_of key id cs) in
    (
      λ h. (strict (ground arith), there (ground arith)),
      λ h. let first = known h.0 in let others = back h.1 in ground arith,
    )

pub FullScans-passes :
    (rt : Runtime) (key : String) (scans : List Scan) (store : Store)
    → (passes (
          audit_checks rt key
            (first_two scans)
            (retire rt key (first_two scans) store).certificates)
        ≡ true)
      ↔ FullScans rt key store.certificates (first_two scans)
unfolding audit_checks scan_checks
FullScans-passes rt key [] store = (λ h. absurd (cc h), λ h. absurd h)
FullScans-passes rt key (s ∷ []) store = (λ h. absurd (cc h), λ h. absurd h)
FullScans-passes rt key (s ∷ t ∷ rest) store =
    let children = All-strict key store.certificates (ids_of s.threads) in
    let latest = scan_complete-IsComplete rt s in
    let earlier = scan_complete-IsComplete rt t in
    let equal = digest_match-IsSameInventory rt s t in
    let same = passes-after rt key s t store in
    (
      λ h. (
        latest.0 (ground arith),
        earlier.0 (ground arith),
        equal.0 (ground arith),
        children.0 (ground arith),
      ),
      λ h.
          let complete = latest.1 h.0 in
          let before = earlier.1 h.1 in
          let match = equal.1 h.2 in let strict = children.1 h.3 in ground arith,
    )
