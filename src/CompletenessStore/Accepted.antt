-- ===== src/CompletenessStore/Accepted.antt =====
-- What a store that the operations of completeness_store.py reach holds, when the closeout of a run
-- accepts its audit.
use discord_context_bridge.Capture.ParallelCloseout.Complete.{evaluate-IsChecked}
use discord_context_bridge.Capture.ParallelCloseout.{Hashed, RunDir}
use discord_context_bridge.CompletenessStore.Closeout.{parent_blocker-audit_parent}
use discord_context_bridge.CompletenessStore.ParentCertificate.{parent_certificate}
use discord_context_bridge.Capture.ParallelCloseout.Evaluation.{
  parent_blocker, evaluate_legacy_parallel_run_from_store, evaluate_run, evaluate_with,
  metadata_invalid, Parent, run_metadata, full_closed,
}
use discord_context_bridge.CompletenessStore.Reachable.{Reachable, Reachable-IsValid}
use discord_context_bridge.CompletenessStore.Complete.{FullScans}
use discord_context_bridge.CompletenessStore.Bindings.{IsStored}
use discord_context_bridge.CompletenessStore.Recording.{ids_of}
use discord_context_bridge.CompletenessStore.Audit.{certificate_of}
use discord_context_bridge.CompletenessStore.Strict.{HasStrict}
use discord_context_bridge.CompletenessStore.Verified.{
  by_recency, insert_scan, latest_scans, first_two, comes_before,
}
use discord_context_bridge.CompletenessStore.{
  digest_ids, List, Runtime, Scan, Store, contains, str_eq, sorted_set, Host, Bool,
}
use discord_context_bridge.Shared.{
  true, none, some, [], ◌∷◌, inl, inr, String, Runtime, List, All, contains, ◌≡◌, arith, Bool-cases,
  ◌⊎◌, eq_refl, str_eq, Collision, digest-injective, eq_iff, sorted_set, sym, contains-sorted_set,
  ◌∙◌, ap, refl, Bool, ◌≢◌, Option-cases,
}

module _ (P : Scan → Type 0) where
  All-insert_scan : (s : Scan) (scans : List Scan) → P s → All P scans → All P (insert_scan s scans)
  unfolding insert_scan
  All-insert_scan s [] own h = (own, tt)
  All-insert_scan s (t ∷ ts) own h = elim (Bool-cases (comes_before s t)) [
    | inl first ↦ rw first (own, h)
    | inr later ↦ rw later (h.0, All-insert_scan s ts own h.1)
  ]

  All-by_recency : (key : String) (scans : List Scan) → All P scans → All P (by_recency key scans)
  unfolding by_recency
  All-by_recency key [] h = tt
  All-by_recency key (s ∷ ss) h = elim (Bool-cases (str_eq key s.parent_target_key)) [
    | inl own ↦ rw own (All-insert_scan s (by_recency key ss) h.0 (All-by_recency key ss h.1))
    | inr other ↦ rw other (All-by_recency key ss h.1)
  ]

  All-first_two : (scans : List Scan) → All P scans → All P (first_two scans)
  All-first_two [] h = tt
  All-first_two (s ∷ []) h = h
  All-first_two (s ∷ t ∷ rest) h = (h.0, (h.1.0, tt))

  All-latest_scans :
      (key : String) (store : Store) → All P store.inventory_scans → All P (latest_scans key store)
  unfolding latest_scans
  All-latest_scans key store h =
      All-first_two (by_recency key store.inventory_scans)
        (All-by_recency key store.inventory_scans h)

module _ (P : String → Type 0) where
  All-contains : (xs : List String) (j : String) → All P xs → contains j xs ≡ true → P j
  All-contains [] j h there = cc
  All-contains (x ∷ xs) j h there = elim (Bool-cases (str_eq j x)) [
    | inl same ↦ rw ((eq_iff j x).0 same) h.0
    | inr other ↦ All-contains xs j h.1 (ground arith)
  ]

  All-within :
      (xs ys : List String)
      → ((j : String) → contains j ys ≡ true → contains j xs ≡ true)
      → All P xs
      → All P ys
  All-within xs [] within h = tt
  All-within xs (y ∷ ys) within h = (
    All-contains xs y h (within y (ground (arith, eq_refl y))),
    All-within xs ys (λ j there. within j (ground arith)) h,
  )

digest_ids-members :
    (rt : Runtime) (xs ys : List String)
    → digest_ids rt xs ≡ digest_ids rt ys
    → ((j : String) → contains j ys ≡ contains j xs) ⊎ Collision rt
unfolding digest_ids
digest_ids-members rt xs ys same = elim (digest-injective rt (sorted_set xs) (sorted_set ys) same) [
  | inl equal ↦
      inl (λ j.
        sym (contains-sorted_set j ys) ∙ ap (contains j) (sym equal) ∙ contains-sorted_set j xs)
  | inr collision ↦ inr collision
]

-- The two latest scans of a parent, every thread of either with a strict certificate.
abbrev pub Covered : String → Store → Type 0
Covered key store =
    (s : Scan) × (t : Scan) × (latest_scans key store ≡ s ∷ t ∷ [])
    × All (λ id. HasStrict (certificate_of key id store.certificates)) (ids_of s.threads)
    × All (λ id. HasStrict (certificate_of key id store.certificates)) (ids_of t.threads)

full-Covered :
    (rt : Runtime) (key : String) (store : Store) (scans : List Scan)
    → latest_scans key store ≡ first_two scans
    → All (IsStored rt) (first_two scans)
    → FullScans rt key store.certificates (first_two scans)
    → Covered key store ⊎ Collision rt
full-Covered rt key store [] same stored full = absurd full
full-Covered rt key store (s ∷ []) same stored full = absurd full
full-Covered rt key store (s ∷ t ∷ rest) same stored full =
    let of_latest : s.thread_set_digest ≡ digest_ids rt (ids_of s.threads) = stored.0.2 in
    let of_earlier : t.thread_set_digest ≡ digest_ids rt (ids_of t.threads) = stored.1.0.2 in
    let equal : s.thread_set_digest ≡ t.thread_set_digest = full.2.0 in
    let strict = full.3 in
    elim (digest_ids-members rt (ids_of s.threads) (ids_of t.threads)
      (sym of_latest ∙ equal ∙ of_earlier)) [
        | inl members ↦ inl (
          s,
          t,
          same,
          strict,
          All-within (λ id. HasStrict (certificate_of key id store.certificates)) (ids_of s.threads)
              (ids_of t.threads) (λ j there. sym (members j) ∙ there) strict,
        )
        | inr collision ↦ inr collision
      ]

-- If the closeout of a run accepts the audit of a parent, after any recordings and audits, then
-- every thread that either of its two latest scans lists has a strict certificate of full capture,
-- or two different texts have one hash.
Reachable-Covered :
    (h : Host) (store : Store) (key : String)
    → Reachable h store
    → parent_blocker (some (parent_certificate h.runtime key store)) ≡ none
    → Covered key store ⊎ Collision h.runtime
unfolding latest_scans
Reachable-Covered h store key reached accepted =
    let valid = Reachable-IsValid h store reached in
    let full = (parent_blocker-audit_parent h.runtime key store).0 accepted in
    full-Covered h.runtime key store (by_recency key store.inventory_scans) refl
      (All-latest_scans (IsStored h.runtime) key store valid.scans_stored) full

not_full :
    (hashed : Hashed) (dir : RunDir) (p : Parent) (finalize : Bool)
    → run_metadata dir ≡ none
    → (evaluate_run hashed dir p finalize).terminal_state ≢ full_closed
unfolding evaluate_run evaluate_with metadata_invalid
not_full hashed dir p finalize invalid closed = cc (rw invalid at closed)

-- If a run is closed as full with the audit of a store as its parent, after any recordings and
-- audits of this store, then every thread that either of the two latest scans of the parent lists
-- has a strict certificate of full capture, or two different texts have one hash.
pub from_store-Covered :
    (hashed : Hashed) (dir : RunDir) (finalize : Bool) (h : Host) (store : Store) (key : String)
    → Reachable h store
    → (evaluate_legacy_parallel_run_from_store hashed
        (λ k. parent_certificate h.runtime k store)
        dir
        key
        finalize).terminal_state
      ≡ full_closed
    → Covered key store ⊎ Collision h.runtime
unfolding evaluate_legacy_parallel_run_from_store
from_store-Covered hashed dir finalize h store key reached closed =
    let parent : Parent = record {
      audit = some (parent_certificate h.runtime key store);
      target_key = key;
      canonical = true;
    } in
    elim (Option-cases (run_metadata dir)) [
      | inl invalid ↦ absurd (not_full hashed dir parent finalize invalid closed)
      | inr ((metadata, expected), valid) ↦
          let proven =
            (evaluate-IsChecked hashed dir parent finalize metadata expected valid).0 closed in
          Reachable-Covered h store key reached proven.certificate
    ]
