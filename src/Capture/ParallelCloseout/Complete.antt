-- ===== src/Capture/ParallelCloseout/Complete.antt =====
-- The tests of a run directory in capture/parallel_closeout.py that close it as full.
use discord_context_bridge.Shared.{
  true, false, none, some, [], ◌∷◌, inl, inr, ℕ, Fields, Bool, ◌≡◌, is_nil, AllPass, ◌↔◌, List,
  is_empty, length, ◌≤◌, any, all, is_text, Option-cases, nil-failed, arith, get, refl, not-false,
  String, true-not, sorted_set, sym, failed, Option, ◌∙◌,
}
use discord_context_bridge.Capture.ParallelCloseout.{
  RunDir, Hashed, shard_counts, ℕ, Fields, Bool, List, is_empty, length, all, is_text, get, String,
  Option,
}
use discord_context_bridge.Capture.ParallelCloseout.Evidence.{
  has_ready, has_ledger, has_hashes, is_without_text, load_commit_ledger, run_quiescence_blocker,
}
use discord_context_bridge.Capture.ParallelCloseout.Evaluation.{
  Counts, full_closed, Parent, parent_blocker, parent_blockers, run_blockers, close, evaluate_items,
  evaluate_run, run_metadata, evaluate_with, bound_items, checks_of, item_checks, counts_of_items,
  has_receipt, count_where, total_differs, parent_target_key_digest,
}
use discord_context_bridge.Capture.ParallelCloseout.Authority.{
  is_nil-sorted_set, full-close, run_blockers-nil,
}

-- A run that passes all the tests of the code.
pub record IsChecked (h : Hashed) (dir : RunDir) (p : Parent) (metadata : Fields) (expected : ℕ)
    : Type 0 where
  pub topology : is_nil (bound_items h dir metadata).blockers ≡ true
  pub counted : length (bound_items h dir metadata).bindings ≡ expected
  pub declared : total_differs expected (shard_counts metadata) ≡ false
  pub ledger_valid : (load_commit_ledger dir.commit_ledger).valid ≡ true
  pub ready : all (has_ready h dir) (bound_items h dir metadata).bindings ≡ true
  pub receipts : all (has_receipt h dir) (bound_items h dir metadata).bindings ≡ true
  pub committed :
      all
        (has_ledger h dir (load_commit_ledger dir.commit_ledger).rows)
        (bound_items h dir metadata).bindings
      ≡ true
  pub hashes : all (has_hashes h dir) (bound_items h dir metadata).bindings ≡ true
  pub texts : any (is_without_text h dir) (bound_items h dir metadata).bindings ≡ false
  pub certificate : parent_blocker p.audit ≡ none
  pub canonical : p.canonical ≡ true
  pub named : is_empty p.target_key ≡ false
  pub bound :
      is_text
        (parent_target_key_digest h.runtime p.target_key)
        (get "parent_target_key_sha256" metadata)
      ≡ true
  pub stopped : run_quiescence_blocker h dir metadata ≡ none

count_where-le : (p : ℕ × ℕ → Bool) (bs : List (ℕ × ℕ)) → count_where p bs ≤ length bs
count_where-le p [] = omega arith
count_where-le p (b ∷ bs) = ground (arith, count_where-le p bs)

count_where-all :
    (p : ℕ × ℕ → Bool) (bs : List (ℕ × ℕ)) → count_where p bs ≡ length bs → all p bs ≡ true
count_where-all p [] h = refl
count_where-all p (b ∷ bs) h = ground (arith, count_where-le p bs, count_where-all p bs)

all-count_where :
    (p : ℕ × ℕ → Bool) (bs : List (ℕ × ℕ)) → all p bs ≡ true → count_where p bs ≡ length bs
all-count_where p [] h = refl
all-count_where p (b ∷ bs) h = ground (arith, all-count_where p bs)

count_where-any : (p : ℕ × ℕ → Bool) (bs : List (ℕ × ℕ)) → count_where p bs ≡ 0 → any p bs ≡ false
count_where-any p [] h = refl
count_where-any p (b ∷ bs) h = ground (arith, count_where-any p bs)

any-count_where : (p : ℕ × ℕ → Bool) (bs : List (ℕ × ℕ)) → any p bs ≡ false → count_where p bs ≡ 0
any-count_where p [] h = refl
any-count_where p (b ∷ bs) h = ground (arith, any-count_where p bs)

-- The parent raises no blocker.
abbrev IsAuthorised : Hashed → Parent → Fields → Type 0
IsAuthorised h p metadata =
    (parent_blocker p.audit ≡ none)
    × (p.canonical ≡ true)
    × (is_empty p.target_key ≡ false)
    × (is_text (parent_target_key_digest h.runtime p.target_key)
          (get "parent_target_key_sha256" metadata)
        ≡ true)

authorised :
    (h : Hashed) (p : Parent) (metadata : Fields)
    → (is_nil (parent_blockers h.runtime p metadata) ≡ true) ↔ IsAuthorised h p metadata
unfolding parent_blockers
authorised h p metadata = elim (Option-cases (parent_blocker p.audit)) [
  | inl nothing ↦ rw nothing (
    λ silent. (refl, ground (arith, silent), ground (arith, silent), ground (arith, silent)),
    λ (none_found, canonical, named, bound). ground (arith, canonical, named, bound),
  )
  | inr (reason, found) ↦
      rw found (λ silent. absurd cc, λ (none_found, canonical, named, bound). absurd cc)
]

passed-IsChecked :
    (h : Hashed) (dir : RunDir) (p : Parent) (metadata : Fields) (expected : ℕ)
    → is_nil (run_blockers h dir p metadata expected) ≡ true
    → run_quiescence_blocker h dir metadata ≡ none
    → IsChecked h dir p metadata expected
unfolding item_checks counts_of_items
passed-IsChecked h dir p metadata expected silent stopped =
    let split = run_blockers-nil h dir p metadata expected in
    let passed : AllPass (checks_of h dir metadata expected) =
      (nil-failed (checks_of h dir metadata expected)).0 (ground (arith, silent, split)) in
    let (certificate, canonical, named, bound) =
      (authorised h p metadata).0 (ground (arith, silent, split)) in
    let bindings = (bound_items h dir metadata).bindings in
    let counted : length bindings ≡ expected = ground (arith, passed.0) in
    record {
      topology = ground (arith, silent, split);
      counted = counted;
      declared = ground (arith, passed.0);
      ledger_valid = not-false _ passed.1.0;
      ready = count_where-all (has_ready h dir) bindings (ground (arith, counted, passed.1.1.0));
      receipts =
          count_where-all (has_receipt h dir) bindings (ground (arith, counted, passed.1.1.1.0));
      committed =
          count_where-all (has_ledger h dir (load_commit_ledger dir.commit_ledger).rows) bindings
            (ground (arith, counted, passed.1.1.1.1.0));
      hashes =
          count_where-all (has_hashes h dir) bindings (ground (arith, counted, passed.1.1.1.1.1.0));
      texts =
          count_where-any (is_without_text h dir) bindings (ground (arith, passed.1.1.1.1.1.1.0));
      certificate = certificate;
      canonical = canonical;
      named = named;
      bound = bound;
      stopped = stopped;
    }

IsChecked-passed :
    (h : Hashed) (dir : RunDir) (p : Parent) (metadata : Fields) (expected : ℕ)
    → IsChecked h dir p metadata expected
    → is_nil (run_blockers h dir p metadata expected) ≡ true
unfolding item_checks counts_of_items
IsChecked-passed h dir p metadata expected i =
    let bindings = (bound_items h dir metadata).bindings in
    let ready = all-count_where (has_ready h dir) bindings i.ready in
    let receipts = all-count_where (has_receipt h dir) bindings i.receipts in
    let committed =
      all-count_where (has_ledger h dir (load_commit_ledger dir.commit_ledger).rows) bindings
        i.committed in
    let hashes = all-count_where (has_hashes h dir) bindings i.hashes in
    let texts = any-count_where (is_without_text h dir) bindings i.texts in
    let counted : length bindings ≡ expected = i.counted in
    let passed : AllPass (checks_of h dir metadata expected) = (
      ground (arith, counted, i.declared),
      (
        true-not _ i.ledger_valid,
        (
          ground (arith, ready, counted),
          (
            ground (arith, receipts, counted),
            (
              ground (arith, committed, counted),
              (ground (arith, hashes, counted), (ground (arith, texts), tt)),
            ),
          ),
        ),
      ),
    ) in
    let silent : is_nil (failed (checks_of h dir metadata expected)) ≡ true =
      (nil-failed (checks_of h dir metadata expected)).1 passed in
    let parent : is_nil (parent_blockers h.runtime p metadata) ≡ true =
      (authorised h p metadata).1 (i.certificate, i.canonical, i.named, i.bound) in
    ground (arith, run_blockers-nil h dir p metadata expected, i.topology, silent, parent)

close-full :
    (c : Counts) (blockers : List String) (stop : Option String) (finalize : Bool)
    → is_nil blockers ≡ true
    → stop ≡ none
    → (close c blockers stop finalize).terminal_state ≡ full_closed
unfolding close
close-full c [] none finalize h s = refl
close-full c [] (some reason) finalize h s = absurd cc
close-full c (b ∷ bs) stop finalize h s = absurd cc

-- A run with valid metadata is closed as full, finalized or not, exactly if it passes all the tests.
pub evaluate-IsChecked :
    (h : Hashed) (dir : RunDir) (p : Parent) (finalize : Bool) (metadata : Fields) (expected : ℕ)
    → run_metadata dir ≡ some (metadata, expected)
    → ((evaluate_run h dir p finalize).terminal_state ≡ full_closed)
      ↔ IsChecked h dir p metadata expected
unfolding evaluate_run evaluate_with evaluate_items
evaluate-IsChecked h dir p finalize metadata expected valid =
    let blockers = run_blockers h dir p metadata expected in
    let nil_too = is_nil-sorted_set blockers in
    rw valid (
      λ says.
          let (silent, stopped) = full-close _ (sorted_set blockers) _ finalize says in
          passed-IsChecked h dir p metadata expected (sym nil_too ∙ silent) stopped,
      λ i.
          close-full _ (sorted_set blockers) _ finalize
            (nil_too ∙ IsChecked-passed h dir p metadata expected i) i.stopped,
    )
